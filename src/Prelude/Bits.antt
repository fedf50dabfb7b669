-- ===== src/Prelude/Bits.antt =====
-- Bit operations at variables: one law for the lowest digit of all three, and what follows from it.
use Prim.Native.Nat.{
  ℕ, zero, suc, ◌+◌, ◌-◌, ◌*◌, ◌/◌, ◌%◌, ◌^◌, ◌≤◌, ◌<◌, min, max, bit_and, bit_or, bit_xor, differ,
  digits, bit_and-bitwise, bit_or-bitwise, bit_xor-bitwise,
}
use mathlib.Core.Path.{◌≡◌, refl, ap, ap₂, sym, ◌∙◌}
use native.Mathlib.Omega.{arith}
use native.Mathlib.Nat.{pow-suc, mul-one, add-zero}

-- The digit recursion of the native operations, with `z` for the end and `f` for one digit.
module _ (z : ℕ → ℕ) (f : ℕ → ℕ → ℕ) where
  abbrev pub combined : ℕ → ℕ → ℕ
  combined a b = digits z f a a b

  digits-zero : (count b : ℕ) → digits z f count 0 b ≡ z b
  digits-zero zero b = refl
  digits-zero (suc count) b = refl

  -- The count of digits to go does not matter, if it is large enough.
  digits_count : (c d x b : ℕ) → x ≤ c → x ≤ d → digits z f c x b ≡ digits z f d x b
  digits_count c d zero b _ _ = digits-zero c b ∙ sym (digits-zero d b)
  digits_count zero d (suc x) b low _ = absurd (omega arith)
  digits_count (suc c) zero (suc x) b _ low = absurd (omega arith)
  digits_count (suc c) (suc d) (suc x) b p q =
      ap (λ (t : ℕ). t * 2 + f (suc x % 2) (b % 2))
        (digits_count c d (suc x / 2) (b / 2) (omega arith) (omega arith))

  combined_step :
      ((b : ℕ) → z b ≡ z (b / 2) * 2 + f 0 (b % 2))
      → (x b : ℕ) → combined x b ≡ combined (x / 2) (b / 2) * 2 + f (x % 2) (b % 2)
  combined_step end zero b = end b
  combined_step end (suc x) b =
      ap (λ (t : ℕ). t * 2 + f (suc x % 2) (b % 2))
        (digits_count x (suc x / 2) (suc x / 2) (b / 2) (omega arith) (omega arith))

pub bit_and_step : (x y : ℕ) → bit_and x y ≡ bit_and (x / 2) (y / 2) * 2 + min (x % 2) (y % 2)
bit_and_step x y =
    bit_and-bitwise x y
    ∙ combined_step (λ _. 0) min (λ b. omega arith) x y
    ∙ ap (λ (t : ℕ). t * 2 + min (x % 2) (y % 2)) (sym (bit_and-bitwise (x / 2) (y / 2)))

pub bit_or_step : (x y : ℕ) → bit_or x y ≡ bit_or (x / 2) (y / 2) * 2 + max (x % 2) (y % 2)
bit_or_step x y =
    bit_or-bitwise x y
    ∙ combined_step (λ b. b) max (λ b. omega arith) x y
    ∙ ap (λ (t : ℕ). t * 2 + max (x % 2) (y % 2)) (sym (bit_or-bitwise (x / 2) (y / 2)))

pub bit_xor_step : (x y : ℕ) → bit_xor x y ≡ bit_xor (x / 2) (y / 2) * 2 + differ (x % 2) (y % 2)
bit_xor_step x y =
    bit_xor-bitwise x y
    ∙ combined_step (λ b. b) differ (λ b. omega arith) x y
    ∙ ap (λ (t : ℕ). t * 2 + differ (x % 2) (y % 2)) (sym (bit_xor-bitwise (x / 2) (y / 2)))

half_split : (k r lo : ℕ) → (r * 2 ^ suc k + lo) / 2 ≡ r * 2 ^ k + lo / 2
half_split k r lo = omega (arith, ap (λ (t : ℕ). r * t) (pow-suc 2 k))

low_split : (k r lo : ℕ) → (r * 2 ^ suc k + lo) % 2 ≡ lo % 2
low_split k r lo = omega (arith, ap (λ (t : ℕ). r * t) (pow-suc 2 k))

-- What holds of every operation that works digit by digit.
module _ (op f : ℕ → ℕ → ℕ) (step : (x y : ℕ) → op x y ≡ op (x / 2) (y / 2) * 2 + f (x % 2) (y % 2))
    (zeros : op 0 0 ≡ 0) where
  -- It works on the low `k` bits and on the rest apart.
  op_split :
      (k r lo q m : ℕ)
      → lo < 2 ^ k
      → m < 2 ^ k
      → op (r * 2 ^ k + lo) (q * 2 ^ k + m) ≡ op r q * 2 ^ k + op lo m
  op_split zero r zero q zero h l = simp (mul-one, add-zero, zeros)
  op_split zero r zero q (suc m) h l = absurd (omega arith)
  op_split zero r (suc lo) q m h l = absurd (omega arith)
  op_split (suc k) r lo q m h l = omega (
    arith,
    step (r * 2 ^ suc k + lo) (q * 2 ^ suc k + m),
    step lo m,
    ap₂ op (half_split k r lo) (half_split k q m),
    ap₂ f (low_split k r lo) (low_split k q m),
    ap (λ (t : ℕ). op r q * t) (pow-suc 2 k),
    op_split k r (lo / 2) q (m / 2) (omega (arith, pow-suc 2 k)) (omega (arith, pow-suc 2 k)),
  )

  -- Its value against zero is fixed by the digits.
  op-zero : (w : ℕ) → ((d : ℕ) → f d 0 ≡ w * d) → (bound x : ℕ) → x ≤ bound → op x 0 ≡ w * x
  op-zero w digit bound zero h = omega (arith, zeros)
  op-zero w digit zero (suc x) h = absurd (omega arith)
  op-zero w digit (suc bound) (suc x) h = omega (
    arith,
    step (suc x) 0,
    digit (suc x % 2),
    op-zero w digit bound (suc x / 2) (omega arith),
    ap (λ (t : ℕ). w * t) halves,
  )
    where
      halves : suc x ≡ suc x / 2 * 2 + suc x % 2
      halves = omega arith

pub bit_and_split :
    (k r lo q m : ℕ)
    → lo < 2 ^ k
    → m < 2 ^ k
    → bit_and (r * 2 ^ k + lo) (q * 2 ^ k + m) ≡ bit_and r q * 2 ^ k + bit_and lo m
bit_and_split = op_split bit_and min bit_and_step refl

pub bit_or_split :
    (k r lo q m : ℕ)
    → lo < 2 ^ k
    → m < 2 ^ k
    → bit_or (r * 2 ^ k + lo) (q * 2 ^ k + m) ≡ bit_or r q * 2 ^ k + bit_or lo m
bit_or_split = op_split bit_or max bit_or_step refl

pub bit_xor_split :
    (k r lo q m : ℕ)
    → lo < 2 ^ k
    → m < 2 ^ k
    → bit_xor (r * 2 ^ k + lo) (q * 2 ^ k + m) ≡ bit_xor r q * 2 ^ k + bit_xor lo m
bit_xor_split = op_split bit_xor differ bit_xor_step refl

pub bit_and-zero : (x : ℕ) → bit_and x 0 ≡ 0
bit_and-zero x =
    op-zero bit_and min bit_and_step refl 0 (λ d. omega arith) x x (omega arith) ∙ omega arith

pub zero_bit_and : (y : ℕ) → bit_and 0 y ≡ 0
zero_bit_and y = bit_and-bitwise 0 y

-- The lowest bit of a number.
pub one_bit_and : (y : ℕ) → bit_and 1 y ≡ y % 2
one_bit_and y = omega (arith, bit_and_step 1 y, zero_bit_and (y / 2))

pub bit_and_one : (x : ℕ) → bit_and x 1 ≡ x % 2
bit_and_one x = omega (arith, bit_and_step x 1, bit_and-zero (x / 2))

pub bit_or-zero : (x : ℕ) → bit_or x 0 ≡ x
bit_or-zero x =
    op-zero bit_or max bit_or_step refl 1 (λ d. omega arith) x x (omega arith) ∙ omega arith

differ-zero : (d : ℕ) → differ d 0 ≡ 1 * d
differ-zero zero = refl
differ-zero (suc d) = omega arith

pub bit_xor-zero : (x : ℕ) → bit_xor x 0 ≡ x
bit_xor-zero x =
    op-zero bit_xor differ bit_xor_step refl 1 differ-zero x x (omega arith) ∙ omega arith

-- A mask of `k` ones keeps what fits in `k` bits.
pub bit_and_ones : (k r : ℕ) → r < 2 ^ k → bit_and r (2 ^ k - 1) ≡ r
bit_and_ones zero r h = omega (arith, bit_and-zero r)
bit_and_ones (suc k) r h = omega (
  arith,
  pow-suc 2 k,
  bit_and_step r (2 ^ suc k - 1),
  ap (bit_and (r / 2)) half_ones,
  bit_and_ones k (r / 2) (omega (arith, pow-suc 2 k)),
)
  where
    half_ones : (2 ^ suc k - 1) / 2 ≡ 2 ^ k - 1
    half_ones = omega (arith, pow-suc 2 k)
