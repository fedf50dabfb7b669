-- ===== src/Prelude/Maps.antt =====
-- Keys with a Boolean equality, and maps from keys as functions.
use mathlib.Core.Path.{◌≡◌, refl}
use mathlib.Core.Logic.{◌↔◌, ◌≢◌}
use mathlib.Core.Bool.{Bool, true, false}
use mathlib.Core.Option.{Option, none, some}
use Prim.Native.Nat.{ℕ}
use native.Mathlib.Omega.{arith}
use Prim.Native.String.{String}
use text.Mathlib.Text.{◌==◌ as str_eq}
use text.Mathlib.TextEquality.{eq_iff}
use fairy.Prelude.Tests.{◌==◌, ==_iff, if◌then◌else◌}

-- What a hash map asks of its keys.
pub record Eq {ℓ} (K : Type ℓ) : Type ℓ where
  pub beq : K → K → Bool
  pub beq_iff : (a b : K) → (beq a b ≡ true) ↔ (a ≡ b)

instance abbrev pub nat_eq : Eq ℕ
nat_eq = record { beq = ◌==◌; beq_iff = ==_iff }

instance abbrev pub string_eq : Eq String
string_eq = record { beq = str_eq; beq_iff = eq_iff }

module _ {ℓ κ} {K : Type ℓ} {V : Type κ} ⦃e : Eq K⦄ where
  abbrev pub insert : (K → Option V) → K → V → K → Option V
  insert m k v j = if e.beq k j then some v else m j

  abbrev pub erase : (K → Option V) → K → K → Option V
  erase m k j = if e.beq k j then none else m j

module _ {ℓ} {K : Type ℓ} ⦃e : Eq K⦄ where
  pub beq_refl : (k : K) → e.beq k k ≡ true
  beq_refl k = (e.beq_iff k k).1 refl

  pub beq-ne : (a b : K) → a ≢ b → e.beq a b ≡ false
  beq-ne a b h = ground (arith, e.beq_iff a b)
