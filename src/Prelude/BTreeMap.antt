-- ===== src/Prelude/BTreeMap.antt =====
-- `BTreeMap`, as the list of its entries in order, and byte strings as its keys.
use Prim.Native.Nat.{ℕ}
use mathlib.Core.Path.{◌≡◌, refl, subst}
use mathlib.Core.Bool.{Bool, true, false, ◌&&◌}
use mathlib.Core.Option.{Option, none, some}
use mathlib.Core.List.{List, [], ◌∷◌}
use native.Mathlib.Omega.{arith}
use fairy.Prelude.Tests.{◌==◌, ltb, if◌then◌else◌}
use fairy.Prelude.Maps.{Eq}

abbrev pub Bytes : Type 0
Bytes = List ℕ

abbrev bytes_beq : Bytes → Bytes → Bool
bytes_beq [] [] = true
bytes_beq [] (y ∷ ys) = false
bytes_beq (x ∷ xs) [] = false
bytes_beq (x ∷ xs) (y ∷ ys) = (x == y) && bytes_beq xs ys

pub bytes_beq_refl : (xs : Bytes) → bytes_beq xs xs ≡ true
bytes_beq_refl [] = refl
bytes_beq_refl (x ∷ xs) = ground (arith, bytes_beq_refl xs)

pub bytes_beq_sound : (xs ys : Bytes) → bytes_beq xs ys ≡ true → xs ≡ ys
bytes_beq_sound [] [] h = refl
bytes_beq_sound [] (y ∷ ys) h = cc
bytes_beq_sound (x ∷ xs) [] h = cc
bytes_beq_sound (x ∷ xs) (y ∷ ys) h = ground (arith, bytes_beq_sound xs ys)

instance abbrev pub bytes_eq : Eq Bytes
bytes_eq = record {
  beq = bytes_beq;
  beq_iff =
      λ a b. (bytes_beq_sound a b, λ e. subst (λ c. bytes_beq a c ≡ true) e (bytes_beq_refl a));
}

-- The order of byte strings.
abbrev pub bytes_lt : Bytes → Bytes → Bool
bytes_lt xs [] = false
bytes_lt [] (y ∷ ys) = true
bytes_lt (x ∷ xs) (y ∷ ys) = if x == y then bytes_lt xs ys else ltb x y

abbrev pub BTreeMap {ℓ} : Type ℓ → Type ℓ
BTreeMap V = List (Bytes × V)

module _ {ℓ} {V : Type ℓ} where
  abbrev pub get : BTreeMap V → Bytes → Option V
  get [] k = none
  get (e ∷ m) k = if bytes_eq.beq e.0 k then some e.1 else get m k

  abbrev pub insert : BTreeMap V → Bytes → V → BTreeMap V
  insert [] k v = (k, v) ∷ []
  insert (e ∷ m) k v =
      if bytes_eq.beq e.0 k
      then (k, v) ∷ m
      else if bytes_lt k e.0
      then (k, v) ∷ e ∷ m
      else e ∷ insert m k v

  abbrev pub remove : BTreeMap V → Bytes → BTreeMap V
  remove [] k = []
  remove (e ∷ m) k = if bytes_eq.beq e.0 k then remove m k else e ∷ remove m k

module _ {ℓ} {V : Type ℓ} where
  pub get-insert :
      (m : BTreeMap V) (k : Bytes) (v : V) (j : Bytes)
      → get (insert m k v) j ≡ (if bytes_eq.beq k j then some v else get m j)
  get-insert [] k v j = refl
  get-insert (e ∷ m) k v j = grind (arith, get-insert m k v j, bytes_eq.beq_iff)

  pub get-remove :
      (m : BTreeMap V) (k j : Bytes)
      → get (remove m k) j ≡ (if bytes_eq.beq k j then none else get m j)
  get-remove [] k j = ground arith
  get-remove (e ∷ m) k j = grind (arith, get-remove m k j, bytes_eq.beq_iff)
