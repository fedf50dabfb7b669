-- ===== src/Prelude/Masks.antt =====
-- The five low bits of a 64-bit word: setting, reading and clearing one of them is arithmetic.
use Prim.Native.Nat.{ℕ, zero, suc, ◌+◌, ◌-◌, ◌*◌, ◌/◌, ◌%◌, ◌^◌, ◌≤◌, ◌<◌, bit_and, bit_or, bit_xor}
use mathlib.Core.Path.{◌≡◌, refl, ap, ap₂, ◌∙◌}
use mathlib.Core.Bool.{Bool, true, false}
use native.Mathlib.Omega.{arith}
use fairy.Prelude.Tests.{◌==◌, ==_iff, if◌then◌else◌}
use fairy.Prelude.Bits.{
  bit_and_split, bit_or_split, bit_and_ones, bit_and-zero, bit_or-zero, bit_xor_split, bit_xor-zero,
}

-- Over a small range, check every value by evaluation.
unfoldable pub table : (ℕ → Bool) → ℕ → Bool
table p zero = true
table p (suc n) = if p n then table p n else false

pub table_entry : (p : ℕ → Bool) (n x : ℕ) → x < n → table p n ≡ true → p x ≡ true
unfolding table
table_entry p zero x below h = absurd (omega arith)
table_entry p (suc n) x below h = ground (arith, table_entry p n x)

-- The five low bits of a 64-bit word.
or_table :
    table (λ k. table (λ lo. bit_or lo (2 ^ k) == lo + 2 ^ k - lo / 2 ^ k % 2 * 2 ^ k) 32) 5 ≡ true
unfolding table
or_table = refl

and_table : table (λ k. table (λ lo. bit_and lo (2 ^ k) == lo / 2 ^ k % 2 * 2 ^ k) 32) 5 ≡ true
unfolding table
and_table = refl

clear_table :
    table (λ k. table (λ lo. bit_and lo (31 - 2 ^ k) == lo - lo / 2 ^ k % 2 * 2 ^ k) 32) 5 ≡ true
unfolding table
clear_table = refl

row :
    (p : ℕ → ℕ → Bool) (k lo : ℕ)
    → table (λ k. table (p k) 32) 5 ≡ true
    → k < 5
    → lo < 32
    → p k lo ≡ true
row p k lo h hk hlo = table_entry (p k) 32 lo hlo (table_entry (λ k. table (p k) 32) 5 k hk h)

-- Digit `k` of a word.
abbrev pub digit : ℕ → ℕ → ℕ
digit w k = w / 2 ^ k % 2

low_digit : (w k : ℕ) → k < 5 → (w % 32 / 2 ^ k % 2 ≡ digit w k) × (2 ^ k < 32)
low_digit w zero h = omega arith
low_digit w (suc zero) h = omega arith
low_digit w (suc (suc zero)) h = omega arith
low_digit w (suc (suc (suc zero))) h = omega arith
low_digit w (suc (suc (suc (suc zero)))) h = omega arith
low_digit w (suc (suc (suc (suc (suc k))))) h = absurd (omega arith)

digit-le : (w k : ℕ) → k < 5 → digit w k * 2 ^ k ≤ w % 32
digit-le w zero h = omega arith
digit-le w (suc zero) h = omega arith
digit-le w (suc (suc zero)) h = omega arith
digit-le w (suc (suc (suc zero))) h = omega arith
digit-le w (suc (suc (suc (suc zero)))) h = omega arith
digit-le w (suc (suc (suc (suc (suc k))))) h = absurd (omega arith)

halves : (w : ℕ) → w ≡ w / 32 * 32 + w % 32
halves w = omega arith

-- Setting, reading and clearing one of the five low bits, by arithmetic.
module _ (w k : ℕ) (h : k < 5) where
  low_product : w % 32 / 2 ^ k % 2 * 2 ^ k ≡ digit w k * 2 ^ k
  low_product = ap (λ (t : ℕ). t * 2 ^ k) (low_digit w k h).0

  bit_le : digit w k * 2 ^ k ≤ w % 32
  bit_le = digit-le w k h

  mask : 2 ^ k ≡ 0 * 32 + 2 ^ k
  mask = omega arith

  low : w % 32 < 32
  low = omega arith

  or_split : bit_or w (2 ^ k) ≡ bit_or (w / 32) 0 * 32 + bit_or (w % 32) (2 ^ k)
  or_split =
      ap₂ bit_or (halves w) mask
      ∙ bit_or_split 5 (w / 32) (w % 32) 0 (2 ^ k) low (low_digit w k h).1

  pub bit_or-digit : bit_or w (2 ^ k) ≡ w + 2 ^ k - digit w k * 2 ^ k
  bit_or-digit = omega (
    arith,
    or_split,
    bit_or-zero (w / 32),
    (==_iff _ _).0 (
        row (λ k lo. bit_or lo (2 ^ k) == lo + 2 ^ k - lo / 2 ^ k % 2 * 2 ^ k) k (w % 32) or_table h
          low),
    low_product,
    bit_le,
  )

  and_split : bit_and w (2 ^ k) ≡ bit_and (w / 32) 0 * 32 + bit_and (w % 32) (2 ^ k)
  and_split =
      ap₂ bit_and (halves w) mask
      ∙ bit_and_split 5 (w / 32) (w % 32) 0 (2 ^ k) low (low_digit w k h).1

  pub bit_and-digit : bit_and w (2 ^ k) ≡ digit w k * 2 ^ k
  bit_and-digit = omega (
    arith,
    and_split,
    bit_and-zero (w / 32),
    (==_iff _ _).0
        (row (λ k lo. bit_and lo (2 ^ k) == lo / 2 ^ k % 2 * 2 ^ k) k (w % 32) and_table h low),
    low_product,
  )

  clear_mask : 2 ^ 64 - 1 - 2 ^ k ≡ (2 ^ 59 - 1) * 32 + (31 - 2 ^ k)
  clear_mask = omega (arith, (low_digit w k h).1)

  clear_split :
      bit_and w (2 ^ 64 - 1 - 2 ^ k)
      ≡ bit_and (w / 32) (2 ^ 59 - 1) * 32 + bit_and (w % 32) (31 - 2 ^ k)
  clear_split =
      ap₂ bit_and (halves w) clear_mask
      ∙ bit_and_split 5 (w / 32) (w % 32) (2 ^ 59 - 1) (31 - 2 ^ k) low (omega arith)

  pub bit_and-clear : w < 2 ^ 64 → bit_and w (2 ^ 64 - 1 - 2 ^ k) ≡ w - digit w k * 2 ^ k
  bit_and-clear l = omega (
    arith,
    clear_split,
    bit_and_ones 59 (w / 32) (omega arith),
    (==_iff _ _).0 (
        row (λ k lo. bit_and lo (31 - 2 ^ k) == lo - lo / 2 ^ k % 2 * 2 ^ k) k (w % 32) clear_table
          h low),
    low_product,
    bit_le,
  )

-- Exclusive or with a mask of the five low bits.
pub bit_xor_low : (w m : ℕ) → m < 32 → bit_xor w m ≡ w / 32 * 32 + bit_xor (w % 32) m
bit_xor_low w m h =
    ap₂ bit_xor (halves w) lone
    ∙ bit_xor_split 5 (w / 32) (w % 32) 0 m (omega arith) h
    ∙ ap (λ (t : ℕ). t * 32 + bit_xor (w % 32) m) (bit_xor-zero (w / 32))
  where
    lone : m ≡ 0 * 32 + m
    lone = omega arith

low_two_table : table (λ lo. bit_and lo 3 == lo % 4) 32 ≡ true
unfolding table
low_two_table = refl

pub bit_and_three : (w : ℕ) → bit_and w 3 ≡ w % 4
bit_and_three w = omega (
  arith,
  ap₂ bit_and (halves w) three ∙ bit_and_split 5 (w / 32) (w % 32) 0 3 (omega arith) (omega arith),
  bit_and-zero (w / 32),
  (==_iff _ _).0
      (table_entry (λ lo. bit_and lo 3 == lo % 4) 32 (w % 32) (omega arith) low_two_table),
)
  where
    three : ◌≡◌ {A = ℕ} 3 (0 * 32 + 3)
    three = omega arith

-- All bits but the five low ones.
pub bit_and_high : (w : ℕ) → w < 2 ^ 64 → bit_and w (2 ^ 64 - 32) ≡ w / 32 * 32
bit_and_high w h = omega (
  arith,
  ap₂ bit_and (halves w) high
      ∙ bit_and_split 5 (w / 32) (w % 32) (2 ^ 59 - 1) 0 (omega arith) (omega arith),
  bit_and_ones 59 (w / 32) (omega arith),
  bit_and-zero (w % 32),
)
  where
    high : ◌≡◌ {A = ℕ} (2 ^ 64 - 32) ((2 ^ 59 - 1) * 32 + 0)
    high = omega arith
