-- ===== src/Wire.antt =====
-- fuse/src/uring_fuse/low_level/argument.rs: the iterator over the arguments of a request; and the layout
-- of the structures that it fetches, whose fields are words of four or eight bytes, the low one first.
pub mod Layouts
pub mod Parsing
pub mod Encoding
pub mod Words
pub mod Encoded
pub mod Fetching
pub mod Front
pub mod Matching
pub mod Meaning
pub mod Requests
pub mod Receiving
pub mod Faults
pub mod Tests
use fairy.Prelude.{
  ℕ, zero, suc, ◌+◌, ◌*◌, ◌%◌, Bool, true, false, Option, none, some, List, [], ◌∷◌, ◌≡◌, take,
  drop, ◌==◌, if◌then◌else◌,
}
use fairy.Prelude.BTreeMap.{Bytes}
use Prim.Native.Nat.{max}

-- A signed field stands for its bits.
pub data Width : Type 0 where
  u32 u64 : Width

abbrev pub bytes : Width → ℕ
bytes u32 = 4
bytes u64 = 8

abbrev pub Layout : Type 0
Layout = List Width

-- No structure has padding that is not a field.
abbrev pub size_of : Layout → ℕ
size_of [] = 0
size_of (w ∷ ws) = bytes w + size_of ws

abbrev pub align_of : Layout → ℕ
align_of [] = 1
align_of (u32 ∷ ws) = max 4 (align_of ws)
align_of (u64 ∷ ws) = 8

-- The values of the fields of a structure.
abbrev pub Fields : Layout → Type 0
Fields [] = Unit
Fields (w ∷ ws) = ℕ × Fields ws

abbrev pub and_then {ℓ κ} : {A : Type ℓ} {B : Type κ} → Option A → (A → Option B) → Option B
and_then none f = none
and_then (some a) f = f a

unfoldable pub take_word : ℕ → Bytes → Option (ℕ × Bytes)
take_word zero rest = some (0, rest)
take_word (suc n) [] = none
take_word (suc n) (b ∷ rest) = and_then (take_word n rest) λ v. some (b + 256 * v.0, v.1)

unfoldable pub take_fields : (ws : Layout) → Bytes → Option (Fields ws × Bytes)
unfolding take_word
take_fields [] rest = some (tt, rest)
take_fields (w ∷ ws) rest =
    and_then (take_word (bytes w) rest)
      λ v. and_then (take_fields ws v.1) λ f. some ((v.0, f.0), f.1)

unfoldable pub take_slice : (ws : Layout) → ℕ → Bytes → Option (List (Fields ws) × Bytes)
unfolding take_fields
take_slice ws zero rest = some ([], rest)
take_slice ws (suc count) rest =
    and_then (take_fields ws rest)
      λ f. and_then (take_slice ws count f.1) λ s. some (f.0 ∷ s.0, s.1)

unfoldable pub position : ℕ → Bytes → Option ℕ
position b [] = none
position b (x ∷ rest) = if x == b then some 0 else and_then (position b rest) λ n. some (suc n)

-- A panic; `None`; or a value.
pub data Fetched (A : Type 0) : Type 0 where
  panicked missing : Fetched A
  fetched : A → Fetched A

infixl 5 ◌>>=◌
abbrev pub ◌>>=◌ : {A B : Type 0} → Fetched A → (A → Fetched B) → Fetched B
panicked >>= f = panicked
missing >>= f = missing
fetched a >>= f = f a

-- The bytes that are left, and the address that they stand at.
pub record ArgumentIterator : Type 0 where
  pub address : ℕ
  pub left : Bytes

-- What argument.rs asks of the crates `zerocopy` and `memchr`, as they document it: a structure, or a
-- number of them, at the front of bytes at an address, if the address is aligned and there are bytes
-- enough; and the index of the first such byte.
pub record Crates : Type 0 where
  pub new_from_prefix : (ws : Layout) → ℕ → Bytes → Option (Fields ws × Bytes)
  pub new_slice_from_prefix : (ws : Layout) → ℕ → ℕ → Bytes → Option (List (Fields ws) × Bytes)
  pub memchr : ℕ → Bytes → Option ℕ
  pub new_from_prefix_lem :
      (ws : Layout) (address : ℕ) (bs : Bytes)
      → new_from_prefix ws address bs
        ≡ (if address % align_of ws == 0 then take_fields ws bs else none)
  pub new_slice_from_prefix_lem :
      (ws : Layout) (count address : ℕ) (bs : Bytes)
      → new_slice_from_prefix ws count address bs
        ≡ (if address % align_of ws == 0 then take_slice ws count bs else none)
  pub memchr_lem : (b : ℕ) (bs : Bytes) → memchr b bs ≡ position b bs

-- With the next address, and whether this one is aligned.
abbrev pub prefixed : {A : Type 0} → ℕ → Bool → Option (A × Bytes) → Fetched (A × ArgumentIterator)
prefixed next aligned none = if aligned then missing else panicked
prefixed next aligned (some (a, rest)) = fetched (a, record { address = next; left = rest })

-- The zero that ends the string is skipped.
abbrev pub terminated : ArgumentIterator → Option ℕ → Fetched (Bytes × ArgumentIterator)
terminated it none = missing
terminated it (some n) =
    fetched
      (take n it.left, record { address = it.address + n + 1; left = drop 1 (drop n it.left) })

module _ ⦃crates : Crates⦄ where
  unfoldable pub fetch : (ws : Layout) → ArgumentIterator → Fetched (Fields ws × ArgumentIterator)
  fetch ws it =
      prefixed (it.address + size_of ws) (it.address % align_of ws == 0)
        (crates.new_from_prefix ws it.address it.left)

  unfoldable pub fetch_slice :
      (ws : Layout) → ℕ → ArgumentIterator → Fetched (List (Fields ws) × ArgumentIterator)
  fetch_slice ws count it =
      prefixed (it.address + count * size_of ws) (it.address % align_of ws == 0)
        (crates.new_slice_from_prefix ws count it.address it.left)

  unfoldable pub fetch_str : ArgumentIterator → Fetched (Bytes × ArgumentIterator)
  fetch_str it = terminated it (crates.memchr 0 it.left)
