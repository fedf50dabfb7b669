-- ===== src/Wire/Encoded.antt =====
-- fuse/src/uring_fuse/low_level: `parse` of op.rs finds each operation in its layout.
use fairy.Prelude.{
  ℕ, zero, suc, ◌+◌, ◌*◌, ◌%◌, ◌≡◌, ◌⊎◌, inl, inr, refl, ap, sym, ◌∙◌, true, false, Option, none,
  some, List, [], ◌∷◌, length, take, drop, ◌==◌, ==_iff, arith,
}
use fairy.Prelude.BTreeMap.{Bytes}
use Prim.Native.Nat.{max}
use fairy.Wire.{
  Crates, Layout, u32, u64, align_of, size_of, Fields, Fetched, missing, fetched, ArgumentIterator,
  prefixed, terminated, position, fetch, fetch_slice, fetch_str, take_fields, take_slice,
}
use fairy.Wire.Layouts.{
  fuse_access_in, fuse_batch_forget_in, fuse_bmap_in, fuse_copy_file_range_in, fuse_create_in,
  fuse_fallocate_in, fuse_flush_in, fuse_forget_in, fuse_fsync_in, fuse_getxattr_in, fuse_init_in,
  fuse_interrupt_in, fuse_ioctl_in, fuse_link_in, fuse_lk_in, fuse_lseek_in, fuse_mkdir_in,
  fuse_mknod_in, fuse_open_in, fuse_poll_in, fuse_read_in, fuse_release_in, fuse_rename2_in,
  fuse_rename_in, fuse_setattr_in, fuse_setxattr_in, fuse_write_in, fuse_forget_one,
}
use fairy.Wire.Parsing.{Parsed, parse, asserted}
use fairy.Wire.Encoding.{
  put_fields, put_slice, put_str, encode, opcode, FitFields, FitSlice, IsName, Fits,
}
use fairy.Wire.Words.{take_fields-put_fields, take_slice-put_slice, take_str-put_str, take_str}

align_of-cases : (ws : Layout) → (align_of ws ≡ 1) ⊎ (align_of ws ≡ 4) ⊎ (align_of ws ≡ 8)
align_of-cases [] = inl refl
align_of-cases (u32 ∷ ws) = elim (align_of-cases ws) [
  | inl e ↦ inr (inl (ap (max 4) e))
  | inr (inl e) ↦ inr (inl (ap (max 4) e))
  | inr (inr e) ↦ inr (inr (ap (max 4) e))
]
align_of-cases (u64 ∷ ws) = inr (inr refl)

pub is_aligned : (ws : Layout) (a : ℕ) → a % 8 ≡ 0 → (a % align_of ws == 0) ≡ true
is_aligned ws a h = elim (align_of-cases ws) [
  | inl e ↦ rw e (ground arith)
  | inr (inl e) ↦ rw e (ground arith)
  | inr (inr e) ↦ rw e (ground arith)
]

-- What is read from the front of the bytes, and the iterator that is left.
abbrev pub advanced : {A : Type 0} → ℕ → Option (A × Bytes) → Fetched (A × ArgumentIterator)
advanced next none = missing
advanced next (some (a, rest)) = fetched (a, record { address = next; left = rest })

prefixed-true :
    {A : Type 0} (next : ℕ) (m : Option (A × Bytes)) → prefixed next true m ≡ advanced next m
prefixed-true next none = refl
prefixed-true next (some r) = refl

abbrev pub strung : ℕ → Option (Bytes × Bytes) → Fetched (Bytes × ArgumentIterator)
strung address none = missing
strung address (some (name, rest)) =
    fetched (name, record { address = address + length name + 1; left = rest })

-- The string before the first zero.
position-take_str :
    (bs : Bytes)
    → ((position 0 bs ≡ none) × (take_str bs ≡ none))
      ⊎ ((n : ℕ) × (position 0 bs ≡ some n)
          × (take_str bs ≡ some (take n bs, drop 1 (drop n bs)))
          × (length (take n bs) ≡ n))
unfolding position take_str
position-take_str [] = inl (refl, refl)
position-take_str (zero ∷ bs) = inr (0, refl, refl, refl)
position-take_str (suc b ∷ bs) =
    let other : (suc b == 0) ≡ false = ground arith in
    elim (position-take_str bs) [
      | inl (p, s) ↦ inl (rw (other, p), rw s)
      | inr (n, p, s, l) ↦ inr (suc n, rw (other, p), rw s, ap suc l)
    ]

module _ ⦃crates : Crates⦄ where
  pub fetch_lem :
      (ws : Layout) (it : ArgumentIterator)
      → it.address % 8 ≡ 0
      → fetch ws it ≡ advanced (it.address + size_of ws) (take_fields ws it.left)
  unfolding fetch
  fetch_lem ws it h =
      rw (crates.new_from_prefix_lem ws it.address it.left, is_aligned ws it.address h)
        (prefixed-true _ (take_fields ws it.left))

  pub fetch_slice_lem :
      (ws : Layout) (count : ℕ) (it : ArgumentIterator)
      → it.address % 8 ≡ 0
      → fetch_slice ws count it
        ≡ advanced (it.address + count * size_of ws) (take_slice ws count it.left)
  unfolding fetch_slice
  fetch_slice_lem ws count it h =
      rw (crates.new_slice_from_prefix_lem ws count it.address it.left, is_aligned ws it.address h)
        (prefixed-true _ (take_slice ws count it.left))

  pub fetch_str_lem : (it : ArgumentIterator) → fetch_str it ≡ strung it.address (take_str it.left)
  unfolding fetch_str
  fetch_str_lem it = elim (position-take_str it.left) [
    | inl (p, s) ↦
        ap (terminated it) (crates.memchr_lem 0 it.left ∙ p) ∙ sym (ap (strung it.address) s)
    | inr (n, p, s, l) ↦
        ap (terminated it) (crates.memchr_lem 0 it.left ∙ p)
        ∙ ap
            (λ m. fetched (
              take n it.left,
              record { address = it.address + m + 1; left = drop 1 (drop n it.left) },
            ))
            (sym l)
        ∙ sym (ap (strung it.address) s)
  ]

module _ ⦃crates : Crates⦄ (a : ℕ) where
  abbrev at : Bytes → ArgumentIterator
  at bs = record { address = a; left = bs }

  pub fetch-put_fields :
      (ws : Layout) (f : Fields ws) (rest : Bytes)
      → a % 8 ≡ 0
      → FitFields ws f
      → fetch ws (at (put_fields ws f rest))
        ≡ fetched (f, record { address = a + size_of ws; left = rest })
  fetch-put_fields ws f rest h fits =
      fetch_lem ws (at (put_fields ws f rest)) h
      ∙ ap (advanced (a + size_of ws)) (take_fields-put_fields ws f rest fits)

  pub fetch_slice-put_slice :
      (ws : Layout) (fs : List (Fields ws)) (count : ℕ) (rest : Bytes)
      → a % 8 ≡ 0
      → FitSlice ws fs
      → length fs ≡ count
      → fetch_slice ws count (at (put_slice ws fs rest))
        ≡ fetched (fs, record { address = a + count * size_of ws; left = rest })
  fetch_slice-put_slice ws fs count rest h fits e =
      fetch_slice_lem ws count (at (put_slice ws fs rest)) h
      ∙ ap (advanced (a + count * size_of ws)) (
          ap (λ n. take_slice ws n (put_slice ws fs rest)) (sym e)
          ∙ take_slice-put_slice ws fs rest fits)

  pub fetch_str-put_str :
      (name rest : Bytes)
      → IsName name
      → fetch_str (at (put_str name rest))
        ≡ fetched (name, record { address = a + length name + 1; left = rest })
  fetch_str-put_str name rest h =
      fetch_str_lem (at (put_str name rest)) ∙ ap (strung a) (take_str-put_str name rest h)

pub asserted-same : (len size : ℕ) (p : Parsed) → len ≡ size → asserted len size p ≡ fetched p
asserted-same len size p e = rw ((==_iff len size).1 e)

pub parse-encode :
    ⦃crates : Crates⦄ (a : ℕ) (p : Parsed) (rest : Bytes)
    → a % 8 ≡ 0
    → Fits p rest
    → parse (opcode p) (record { address = a; left = encode p rest }) ≡ fetched p
unfolding parse encode
parse-encode a (Parsed.lookup name) rest h f = rw (fetch_str-put_str a name rest f)
parse-encode a (Parsed.forget arg) rest h f = rw (fetch-put_fields a fuse_forget_in arg rest h f)
parse-encode a Parsed.getattr rest h f = refl
parse-encode a (Parsed.setattr arg) rest h f = rw (fetch-put_fields a fuse_setattr_in arg rest h f)
parse-encode a Parsed.readlink rest h f = refl
parse-encode a (Parsed.symlink name newname) rest h f = rw (
  fetch_str-put_str a name (put_str newname rest) f.0,
  fetch_str-put_str (a + length name + 1) newname rest f.1,
)
parse-encode a (Parsed.mknod arg name) rest h f = rw (
  fetch-put_fields a fuse_mknod_in arg (put_str name rest) h f.0,
  fetch_str-put_str (a + size_of fuse_mknod_in) name rest f.1,
)
parse-encode a (Parsed.mkdir arg name) rest h f = rw (
  fetch-put_fields a fuse_mkdir_in arg (put_str name rest) h f.0,
  fetch_str-put_str (a + size_of fuse_mkdir_in) name rest f.1,
)
parse-encode a (Parsed.unlink name) rest h f = rw (fetch_str-put_str a name rest f)
parse-encode a (Parsed.rmdir name) rest h f = rw (fetch_str-put_str a name rest f)
parse-encode a (Parsed.rename arg name newname) rest h f = rw (
  fetch-put_fields a fuse_rename_in arg (put_str name (put_str newname rest)) h f.0,
  fetch_str-put_str (a + size_of fuse_rename_in) name (put_str newname rest) f.1,
  fetch_str-put_str (a + size_of fuse_rename_in + length name + 1) newname rest f.2,
)
parse-encode a (Parsed.link arg name) rest h f = rw (
  fetch-put_fields a fuse_link_in arg (put_str name rest) h f.0,
  fetch_str-put_str (a + size_of fuse_link_in) name rest f.1,
)
parse-encode a (Parsed.open_file arg) rest h f = rw (fetch-put_fields a fuse_open_in arg rest h f)
parse-encode a (Parsed.read arg) rest h f = rw (fetch-put_fields a fuse_read_in arg rest h f)
parse-encode a (Parsed.write arg value) rest h f = rw (
  fetch-put_fields a fuse_write_in arg value h f.0,
  asserted-same _ _ (Parsed.write arg value) f.1,
)
parse-encode a Parsed.statfs rest h f = refl
parse-encode a (Parsed.release arg) rest h f = rw (fetch-put_fields a fuse_release_in arg rest h f)
parse-encode a (Parsed.fsync arg) rest h f = rw (fetch-put_fields a fuse_fsync_in arg rest h f)
parse-encode a (Parsed.setxattr arg name value) rest h f = rw (
  fetch-put_fields a fuse_setxattr_in arg (put_str name (value)) h f.0,
  fetch_str-put_str (a + size_of fuse_setxattr_in) name value f.1,
  asserted-same _ _ (Parsed.setxattr arg name value) f.2,
)
parse-encode a (Parsed.getxattr arg name) rest h f = rw (
  fetch-put_fields a fuse_getxattr_in arg (put_str name rest) h f.0,
  fetch_str-put_str (a + size_of fuse_getxattr_in) name rest f.1,
)
parse-encode a (Parsed.listxattr arg) rest h f =
    rw (fetch-put_fields a fuse_getxattr_in arg rest h f)
parse-encode a (Parsed.removexattr name) rest h f = rw (fetch_str-put_str a name rest f)
parse-encode a (Parsed.flush arg) rest h f = rw (fetch-put_fields a fuse_flush_in arg rest h f)
parse-encode a (Parsed.init arg) rest h f = rw (fetch-put_fields a fuse_init_in arg rest h f)
parse-encode a (Parsed.opendir arg) rest h f = rw (fetch-put_fields a fuse_open_in arg rest h f)
parse-encode a (Parsed.readdir arg) rest h f = rw (fetch-put_fields a fuse_read_in arg rest h f)
parse-encode a (Parsed.releasedir arg) rest h f =
    rw (fetch-put_fields a fuse_release_in arg rest h f)
parse-encode a (Parsed.fsyncdir arg) rest h f = rw (fetch-put_fields a fuse_fsync_in arg rest h f)
parse-encode a (Parsed.getlk arg) rest h f = rw (fetch-put_fields a fuse_lk_in arg rest h f)
parse-encode a (Parsed.setlk arg) rest h f = rw (fetch-put_fields a fuse_lk_in arg rest h f)
parse-encode a (Parsed.setlkw arg) rest h f = rw (fetch-put_fields a fuse_lk_in arg rest h f)
parse-encode a (Parsed.access arg) rest h f = rw (fetch-put_fields a fuse_access_in arg rest h f)
parse-encode a (Parsed.create arg name) rest h f = rw (
  fetch-put_fields a fuse_create_in arg (put_str name rest) h f.0,
  fetch_str-put_str (a + size_of fuse_create_in) name rest f.1,
)
parse-encode a (Parsed.interrupt arg) rest h f =
    rw (fetch-put_fields a fuse_interrupt_in arg rest h f)
parse-encode a (Parsed.bmap arg) rest h f = rw (fetch-put_fields a fuse_bmap_in arg rest h f)
parse-encode a Parsed.destroy rest h f = refl
parse-encode a (Parsed.ioctl arg value) rest h f =
    rw (fetch-put_fields a fuse_ioctl_in arg value h f.0)
parse-encode a (Parsed.poll arg) rest h f = rw (fetch-put_fields a fuse_poll_in arg rest h f)
parse-encode a (Parsed.notify_reply value) rest h f = refl
parse-encode a (Parsed.batch_forget arg nodes) rest h f = rw (
  fetch-put_fields a fuse_batch_forget_in arg (put_slice fuse_forget_one nodes rest) h f.0,
  fetch_slice-put_slice (a + size_of fuse_batch_forget_in) fuse_forget_one nodes arg.0 rest
      (omega arith) f.1 f.2,
)
parse-encode a (Parsed.fallocate arg) rest h f =
    rw (fetch-put_fields a fuse_fallocate_in arg rest h f)
parse-encode a (Parsed.readdirplus arg) rest h f = rw (fetch-put_fields a fuse_read_in arg rest h f)
parse-encode a (Parsed.rename2 arg name newname) rest h f = rw (
  fetch-put_fields a fuse_rename2_in arg (put_str name (put_str newname rest)) h f.0,
  fetch_str-put_str (a + size_of fuse_rename2_in) name (put_str newname rest) f.1,
  fetch_str-put_str (a + size_of fuse_rename2_in + length name + 1) newname rest f.2,
)
parse-encode a (Parsed.lseek arg) rest h f = rw (fetch-put_fields a fuse_lseek_in arg rest h f)
parse-encode a (Parsed.copy_file_range arg) rest h f =
    rw (fetch-put_fields a fuse_copy_file_range_in arg rest h f)
parse-encode a (Parsed.cuse_init arg) rest h f = rw (fetch-put_fields a fuse_init_in arg rest h f)
