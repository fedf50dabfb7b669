-- ===== src/Slab/Keys.antt =====
-- runtime/src/utils/slab.rs: the key of a slot leads back to its page and slot.
use fairy.Prelude.{
  ℕ, zero, suc, ◌+◌, ◌-◌, ◌*◌, ◌/◌, ◌^◌, ◌<◌, ◌≤◌, ◌≡◌, ap, refl, min, ◌==◌, arith, Bool-cases, inl,
  inr, dec_lt,
}
use native.Mathlib.Nat.{pow-suc, pow-le-pow_right}
use native.Mathlib.Numerals.{add-one}
use fairy.Slab.{bit_length, get_page_id, num_pages, page_initial_size}

pow_le : (i j : ℕ) → i ≤ j → 2 ^ i ≤ 2 ^ j
pow_le i j h = pow-le-pow_right {n = 2} (omega arith) h

pub pow_pos : (k : ℕ) → 1 ≤ 2 ^ k
pow_pos k = pow_le 0 k (omega arith)

bit_length-zero : (fuel : ℕ) → bit_length fuel 0 ≡ 0
unfolding bit_length
bit_length-zero zero = refl
bit_length-zero (suc fuel) = refl

-- A number from 2 ^ k up to 2 ^ (k + 1) has k + 1 digits.
pub bit_length-pow :
    (fuel k n : ℕ) → k < fuel → 2 ^ k ≤ n → n < 2 ^ suc k → bit_length fuel n ≡ k + 1
unfolding bit_length
bit_length-pow zero k n h lo hi = absurd (omega arith)
bit_length-pow (suc fuel) zero n h lo hi =
    ground (arith, ap (bit_length fuel) half, bit_length-zero fuel)
  where
    half : n / 2 ≡ 0
    half = omega arith
bit_length-pow (suc fuel) (suc k) n h lo hi = ground (
  arith,
  bit_length-pow fuel k (n / 2) (omega arith) (omega (arith, pow-suc 2 k))
      (omega (arith, pow-suc 2 (suc k))),
  pow_pos k,
  pow-suc 2 k,
)

-- The first slot of page `i` has this key.
abbrev pub first_key : ℕ → ℕ
first_key i = page_initial_size * 2 ^ i - page_initial_size

pub get_page_id-key :
    (i slot : ℕ)
    → i < num_pages
    → slot < page_initial_size * 2 ^ i
    → get_page_id (slot + first_key i) ≡ i
unfolding get_page_id
get_page_id-key zero slot h lt = omega (arith, ap (bit_length 64) small, bit_length-zero 64)
  where
    small : min (slot + first_key 0 + page_initial_size) (2 ^ 64 - 1) / 2 ^ 7 ≡ 0
    small = omega arith
get_page_id-key (suc k) slot h lt = omega (
  arith,
  bit_length-pow 64 k shifted (omega arith) (omega (arith, pow-suc 2 k, bound))
      (omega (arith, pow-suc 2 k, bound)),
)
  where
    shifted : ℕ
    shifted = min (slot + first_key (suc k) + page_initial_size) (2 ^ 64 - 1) / 2 ^ 7

    bound : (2 ^ k ≤ 2 ^ 24) × (1 ≤ 2 ^ k)
    bound = (pow_le k 24 (omega arith), pow_pos k)

bit_length-le : (fuel n : ℕ) → 0 < n → 2 ^ bit_length fuel n ≤ 2 * n
unfolding bit_length
bit_length-le zero n h = omega arith
bit_length-le (suc fuel) n h = elim (Bool-cases (n == 0)) [
  | inl e ↦ absurd (ground arith)
  | inr e ↦ rw e (elim (dec_lt 1 n) [
    | yes big ↦ omega (
      arith,
      ap (λ (t : ℕ). 2 ^ t) (add-one (bit_length fuel (n / 2))),
      pow-suc 2 (bit_length fuel (n / 2)),
      bit_length-le fuel (n / 2) (omega arith),
    )
    | no small ↦ omega (
      arith,
      ap (λ (t : ℕ). 2 ^ (bit_length fuel t + 1)) (half small),
      ap (λ (t : ℕ). 2 ^ (t + 1)) (bit_length-zero fuel),
    )
  ])
]
  where
    half : ¬ (1 < n) → n / 2 ≡ 0
    half small = omega arith

-- A key is never below the first key of its page, so no subtraction underflows.
pub first_key-le : (key : ℕ) → key < 2 ^ 64 → first_key (get_page_id key) ≤ key
unfolding get_page_id
first_key-le key h = elim (dec_lt 0 shifted) [
  | yes pos ↦ omega (
    arith,
    bit_length-le 64 shifted pos,
    pow_le (get_page_id key) (bit_length 64 shifted) (omega arith),
  )
  | no small ↦ omega (arith, ap (λ (t : ℕ). 2 ^ t) (first small))
]
  where
    shifted : ℕ
    shifted = min (key + page_initial_size) (2 ^ 64 - 1) / 2 ^ 7

    first : ¬ (0 < shifted) → get_page_id key ≡ 0
    first small = omega (arith, ap (bit_length 64) (zero_of small), bit_length-zero 64)
      where
        zero_of : ¬ (0 < shifted) → shifted ≡ 0
        zero_of small = omega arith
