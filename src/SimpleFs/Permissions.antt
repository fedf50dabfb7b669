-- ===== src/SimpleFs/Permissions.antt =====
-- fuse/src/filesystem.rs: what the permission bits and the bits of a file handle allow.
use Prim.Native.Nat.{bit_and, bit_or}
use fairy.Prelude.{
  ℕ, zero, suc, ◌+◌, ◌*◌, ◌/◌, ◌%◌, ◌^◌, ◌<◌, ◌≡◌, refl, ap, ◌∙◌, Bool, true, false, not, ◌&&◌,
  ◌||◌, ◌==◌, if◌then◌else◌, arith,
}
use mathlib.Core.Path.{ap₂}
use fairy.Prelude.Bits.{
  bit_and_split, bit_or_split, bit_and-zero, bit_or-zero, zero_bit_and, one_bit_and, bit_and_one,
}
use fairy.Prelude.Masks.{table, table_entry}
use fairy.SimpleFs.{SimpleFs, done}
use fairy.SimpleFs.Access.{strike, check_access}
use fairy.SimpleFs.Store.{
  allocate_next_file_handle, check_file_handle_read, check_file_handle_write, file_handle_read_bit,
  file_handle_write_bit,
}

-- Bit `k` of a number, and whether the bits of a mask are among three bits.
abbrev pub bit : ℕ → ℕ → Bool
bit w k = (w / 2 ^ k % 2) == 1

unfoldable pub grants : ℕ → ℕ → Bool
grants triple mask =
    (not (bit mask 0) || bit triple 0)
    && (not (bit mask 1) || bit triple 1)
    && (not (bit mask 2) || bit triple 2)

-- The three bits of a mode that count for a request: the owner's, the group's, or the others'.
abbrev pub class_bits : ℕ → ℕ → ℕ → ℕ → ℕ → ℕ
class_bits file_uid file_gid file_mode uid gid =
    if uid == file_uid
    then file_mode / 2 ^ 6 % 8
    else if gid == file_gid
    then file_mode / 2 ^ 3 % 8
    else file_mode % 8

strike_table :
    table
      (λ mask.
        table (λ lo. if grants lo mask then strike mask lo == 0 else not (strike mask lo == 0)) 8)
      8
    ≡ true
unfolding table grants strike
strike_table = refl

low_three : (mask bits : ℕ) → mask < 8 → strike mask bits ≡ strike mask (bits % 8)
unfolding strike
low_three mask bits h = omega (
  arith,
  ap₂ bit_and whole_mask split_bits
      ∙ bit_and_split 3 0 mask (bits / 8) (bits % 8) (omega arith) (omega arith),
  zero_bit_and (bits / 8),
)
  where
    whole_mask : mask ≡ 0 * 2 ^ 3 + mask
    whole_mask = omega arith

    split_bits : bits ≡ bits / 8 * 2 ^ 3 + bits % 8
    split_bits = omega arith

strike-grants : (mask bits : ℕ) → mask < 8 → (strike mask bits == 0) ≡ grants (bits % 8) mask
strike-grants mask bits h = ground (arith, low_three mask bits, entry)
  where
    entry :
        (if grants (bits % 8) mask
          then strike mask (bits % 8) == 0
          else not (strike mask (bits % 8) == 0))
        ≡ true
    entry =
        table_entry
          (λ lo. if grants lo mask then strike mask lo == 0 else not (strike mask lo == 0)) 8
          (bits % 8) (omega arith)
          (table_entry
            (λ mask.
              table
                (λ lo. if grants lo mask then strike mask lo == 0 else not (strike mask lo == 0)) 8)
            8 mask h strike_table)

-- What is left of the permission to execute.
strike_once : (left bits : ℕ) → left < 2 → strike left bits ≡ (if bits % 2 == 1 then 0 else left)
unfolding strike
strike_once zero bits h = ground arith
strike_once (suc zero) bits h = ground (arith, one_bit_and bits)
strike_once (suc (suc n)) bits h = absurd (omega arith)

strike_root :
    (left m : ℕ)
    → left < 2
    → strike (strike (strike left (m / 2 ^ 6)) (m / 2 ^ 3)) m
      ≡ (if bit m 0 || bit m 3 || bit m 6 then 0 else left)
strike_root left m h = ground (
  arith,
  strike_once left (m / 2 ^ 6),
  strike_once (strike left (m / 2 ^ 6)) (m / 2 ^ 3),
  strike_once (strike (strike left (m / 2 ^ 6)) (m / 2 ^ 3)) m,
)

root_access :
    (mask m : ℕ)
    → (strike (strike (strike (bit_and mask 1) (m / 2 ^ 6)) (m / 2 ^ 3)) m == 0)
      ≡ (not (bit mask 0) || bit m 0 || bit m 3 || bit m 6)
root_access mask m = rw (bit_and_one mask, strike_root (mask % 2) m (omega arith)) (ground arith)

-- On a mask of the three permissions, `check_access` allows all of them to nobody in particular, and
-- else what the bits of the request's class grant. Root may read and write anything, and execute what
-- somebody may execute.
pub check_access_lem :
    (file_uid file_gid file_mode uid gid mask : ℕ)
    → mask < 8
    → check_access file_uid file_gid file_mode uid gid mask ≡ (
        if mask == 0
        then true
        else if uid == 0
        then not (bit mask 0) || bit file_mode 0 || bit file_mode 3 || bit file_mode 6
        else grants (class_bits file_uid file_gid file_mode uid gid) mask)
unfolding check_access
check_access_lem file_uid file_gid file_mode uid gid mask h = ground (
  arith,
  root_access mask file_mode,
  strike-grants mask (file_mode / 2 ^ 6) h,
  strike-grants mask (file_mode / 2 ^ 3) h,
  strike-grants mask file_mode h,
)

-- The two highest bits of a file handle, over the counter `n`.
set_top : (t q n : ℕ) → n < 2 ^ 62 → bit_or (t * 2 ^ 62 + n) (q * 2 ^ 62) ≡ bit_or t q * 2 ^ 62 + n
set_top t q n h = omega (
  arith,
  ap (bit_or (t * 2 ^ 62 + n)) no_rest ∙ bit_or_split 62 t n q 0 h (omega arith),
  bit_or-zero n,
)
  where
    no_rest : q * 2 ^ 62 ≡ q * 2 ^ 62 + 0
    no_rest = omega arith

set_first : (q n : ℕ) → n < 2 ^ 62 → bit_or n (q * 2 ^ 62) ≡ bit_or 0 q * 2 ^ 62 + n
set_first q n h = ap (λ (x : ℕ). bit_or x (q * 2 ^ 62)) bare ∙ set_top 0 q n h
  where
    bare : n ≡ 0 * 2 ^ 62 + n
    bare = omega arith

test_top : (t q n : ℕ) → n < 2 ^ 62 → bit_and (t * 2 ^ 62 + n) (q * 2 ^ 62) ≡ bit_and t q * 2 ^ 62
test_top t q n h = omega (
  arith,
  ap (bit_and (t * 2 ^ 62 + n)) no_rest ∙ bit_and_split 62 t n q 0 h (omega arith),
  bit_and-zero n,
)
  where
    no_rest : q * 2 ^ 62 ≡ q * 2 ^ 62 + 0
    no_rest = omega arith

abbrev top_bits : Bool → Bool → ℕ
top_bits read write = (if read then 2 else 0) + (if write then 1 else 0)

abbrev handle : Bool → Bool → ℕ → ℕ
handle read write n =
    (let fh = if read then bit_or n file_handle_read_bit else n in
      if write then bit_or fh file_handle_write_bit else fh)

handle_lem :
    (read write : Bool) (n : ℕ)
    → n < 2 ^ 62
    → handle read write n ≡ top_bits read write * 2 ^ 62 + n
handle_lem false false n h = omega arith
handle_lem true false n h = set_first 2 n h
handle_lem false true n h = set_first 1 n h
handle_lem true true n h = ap (λ (x : ℕ). bit_or x (2 ^ 62)) (set_first 2 n h) ∙ set_top 2 1 n h

handle-checks :
    (read write : Bool) (n : ℕ)
    → n < 2 ^ 62
    → (check_file_handle_read (handle read write n) ≡ read)
      × (check_file_handle_write (handle read write n) ≡ write)
unfolding check_file_handle_read check_file_handle_write
handle-checks read write n h =
    rw (handle_lem read write n h)
      (ground (arith, test_top (top_bits read write) 2 n h, test_top (top_bits read write) 1 n h))

-- A new file handle tells for what it was opened, and its other bits are the counter, which no
-- earlier handle had.
allocate_next_file_handle_lem :
    (read write : Bool) (s : SimpleFs) {s' : SimpleFs} {fh : ℕ}
    → allocate_next_file_handle read write s ≡ done s' fh
    → (check_file_handle_read fh ≡ read)
      × (check_file_handle_write fh ≡ write)
      × (fh % 2 ^ 62 ≡ s.next_file_handle)
      × (s'.next_file_handle ≡ s.next_file_handle + 1)
unfolding allocate_next_file_handle check_file_handle_read check_file_handle_write
allocate_next_file_handle_lem read write s h =
    ground
      (arith, handle-checks read write s.next_file_handle, handle_lem read write s.next_file_handle)
