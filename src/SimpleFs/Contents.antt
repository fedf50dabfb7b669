-- ===== src/SimpleFs/Contents.antt =====
-- fuse/src/filesystem.rs: what `read` finds, and what it finds after `write`.
use fairy.Prelude.{
  ℕ, zero, suc, ◌+◌, ◌-◌, ◌%◌, ◌^◌, ◌≤◌, ◌<◌, ◌≡◌, refl, ap, ◌∙◌, true, some, [], ◌∷◌, length, take,
  drop, min, arith, inl, inr, Option-cases, nat_eq,
}
use fairy.Prelude.BTreeMap.{Bytes}
use fairy.Prelude.{pos}
use fairy.SimpleFs.{Time, SimpleFs, done}
use fairy.SimpleFs.Store.{get_inode, write_inode, check_file_handle_read}
use fairy.SimpleFs.Data.{read, write, read_exact_at, overwrite, write_at}

length-drop : (n : ℕ) (bytes : Bytes) → length (drop n bytes) ≡ length bytes - n
length-drop zero bytes = omega arith
length-drop (suc n) [] = omega arith
length-drop (suc n) (b ∷ bytes) = omega (arith, length-drop n bytes)

length-take : (n : ℕ) (bytes : Bytes) → length (take n bytes) ≡ min n (length bytes)
length-take zero bytes = omega arith
length-take (suc n) [] = omega arith
length-take (suc n) (b ∷ bytes) = omega (arith, length-take n bytes)

length-overwrite :
    (ds bytes : Bytes)
    → (length bytes ≤ length (overwrite ds bytes)) × (length ds ≤ length (overwrite ds bytes))
length-overwrite [] bytes = (omega arith, omega arith)
length-overwrite (d ∷ ds) [] = (omega arith, omega (arith, (length-overwrite ds []).1))
length-overwrite (d ∷ ds) (b ∷ bytes) =
    (omega (arith, (length-overwrite ds bytes).0), omega (arith, (length-overwrite ds bytes).1))

length-write_at :
    (n : ℕ) (ds bytes : Bytes) → 0 < length ds → n + length ds ≤ length (write_at n ds bytes)
length-write_at zero ds bytes h = omega (arith, (length-overwrite ds bytes).1)
length-write_at (suc n) [] bytes h = absurd (omega arith)
length-write_at (suc n) (d ∷ ds) [] h = omega (arith, length-write_at n (d ∷ ds) [])
length-write_at (suc n) (d ∷ ds) (b ∷ bytes) h = omega (arith, length-write_at n (d ∷ ds) bytes)

take-overwrite : (ds bytes : Bytes) → take (length ds) (overwrite ds bytes) ≡ ds
take-overwrite [] bytes = refl
take-overwrite (d ∷ ds) [] = ap (◌∷◌ d) (take-overwrite ds [])
take-overwrite (d ∷ ds) (b ∷ bytes) = ap (◌∷◌ d) (take-overwrite ds bytes)

take-drop-write_at :
    (n : ℕ) (ds bytes : Bytes)
    → 0 < length ds
    → take (length ds) (drop n (write_at n ds bytes)) ≡ ds
take-drop-write_at zero ds bytes h = take-overwrite ds bytes
take-drop-write_at (suc n) [] bytes h = absurd (omega arith)
take-drop-write_at (suc n) (d ∷ ds) [] h = take-drop-write_at n (d ∷ ds) [] h
take-drop-write_at (suc n) (d ∷ ds) (b ∷ bytes) h = take-drop-write_at n (d ∷ ds) bytes h

-- With a handle that may read, `read` of an inode that has contents replies the bytes from the offset
-- on, as many as it was asked for, but no more than the rest of the file modulo 2 ^ 32. It never
-- panics, and changes nothing.
pub read_lem :
    (inode fh offset size : ℕ) (s : SimpleFs) {bytes : Bytes}
    → check_file_handle_read fh ≡ true
    → s.contents inode ≡ some bytes
    → (let count = min size ((length bytes - offset) % 2 ^ 32) in
        (read inode fh (pos offset) size s ≡ done s (take count (drop offset bytes)))
        × (length (take count (drop offset bytes)) ≡ count))
unfolding read read_exact_at
read_lem inode fh offset size s {bytes} h e = (
  ground (arith, enough, length-drop offset bytes),
  omega (
    arith,
    length-take (min size ((length bytes - offset) % 2 ^ 32)) (drop offset bytes),
    length-drop offset bytes,
    enough,
  ),
)
  where
    enough : min size ((length bytes - offset) % 2 ^ 32) ≤ length bytes - offset
    enough = omega arith

-- What a `write` that returns has done.
write_inversion :
    (now : ℕ → Time) (inode fh offset : ℕ) (bytes : Bytes) (s : SimpleFs) {old : Bytes}
    {s' : SimpleFs} {count : ℕ}
    → s.contents inode ≡ some old
    → write now inode fh (pos offset) bytes s ≡ done s' count
    → (s'.contents inode ≡ some (write_at offset bytes old)) × (count ≡ length bytes % 2 ^ 32)
unfolding write get_inode write_inode
write_inversion now inode fh offset bytes s e w = elim (Option-cases (s.inodes inode)) [
  | inl m ↦ ground arith
  | inr (attrs, m) ↦ ground arith
]

-- After a `write` of some bytes, a handle that may read finds them again at their offset, if fewer
-- than 2 ^ 32 bytes lie between the offset and the end of the file.
pub read-write :
    (now : ℕ → Time) (inode fh fh' offset : ℕ) (bytes : Bytes) (s : SimpleFs) {old : Bytes}
    {s' : SimpleFs} {count : ℕ}
    → 0 < length bytes
    → s.contents inode ≡ some old
    → length (write_at offset bytes old) < offset + 2 ^ 32
    → write now inode fh (pos offset) bytes s ≡ done s' count
    → check_file_handle_read fh' ≡ true
    → (count ≡ length bytes) × (read inode fh' (pos offset) (length bytes) s' ≡ done s' bytes)
read-write now inode fh fh' offset bytes s {old} {s'} {count} nonempty e short w h = (
  omega (
    arith,
    (write_inversion now inode fh offset bytes s e w).1,
    length-write_at offset bytes old,
  ),
  (read_lem inode fh' offset (length bytes) s' h
        (write_inversion now inode fh offset bytes s e w).0).0
      ∙ ap (done s') (
          ap (λ (n : ℕ). take n (drop offset (write_at offset bytes old))) whole
          ∙ take-drop-write_at offset bytes old nonempty),
)
  where
    whole :
        min (length bytes) ((length (write_at offset bytes old) - offset) % 2 ^ 32) ≡ length bytes
    whole = omega (arith, length-write_at offset bytes old)
