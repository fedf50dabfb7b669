-- ===== src/Prelude/Panics.antt =====
-- Code that may panic: `none` is the panic. `Post` states what holds of the result, if there is one.
use mathlib.Core.Path.{◌≡◌, refl, subst}
use mathlib.Core.Bool.{Bool, true, false}
use mathlib.Core.Option.{Option, none, some}
use fairy.Prelude.Tests.{if◌then◌else◌}

infixl 5 ◌>>=◌ ◌>>◌
abbrev pub ◌>>=◌ {ℓ κ} : {A : Type ℓ} {B : Type κ} → Option A → (A → Option B) → Option B
none >>= f = none
some a >>= f = f a

abbrev pub ◌>>◌ {ℓ} : {B : Type ℓ} → Option (Unit {0}) → Option B → Option B
m >> k = m >>= λ _. k

-- `assert!` and `debug_assert!`.
abbrev pub assert : Bool → Option (Unit {0})
assert true = some tt
assert false = none

abbrev pub Post {ℓ κ} : {A : Type ℓ} → Option A → (A → Type κ) → Type κ
Post none Q = Unit
Post (some a) Q = Q a

pub Post->>= {ℓ κ μ} :
    {A : Type ℓ} {B : Type κ} (m : Option A) (f : A → Option B) (Q : B → Type μ)
    → ((a : A) → m ≡ some a → Post (f a) Q)
    → Post (m >>= f) Q
Post->>= none f Q h = tt
Post->>= (some a) f Q h = h a refl

pub Post-assert {ℓ κ} :
    {B : Type ℓ} (b : Bool) (k : Option B) (Q : B → Type κ)
    → (b ≡ true → Post k Q)
    → Post (assert b >> k) Q
Post-assert true k Q h = h refl
Post-assert false k Q h = tt

pub Post-if {ℓ κ} :
    {A : Type ℓ} (b : Bool) (x y : Option A) (Q : A → Type κ)
    → (b ≡ true → Post x Q)
    → (b ≡ false → Post y Q)
    → Post (if b then x else y) Q
Post-if true x y Q h k = h refl
Post-if false x y Q h k = k refl

-- From a postcondition to the result that the code did return.
pub Post-elim {ℓ κ} :
    {A : Type ℓ} (m : Option A) (Q : A → Type κ) {a : A} → Post m Q → m ≡ some a → Q a
Post-elim m Q {a} p e = subst (λ o. Post o Q) e p

-- The code does not panic.
abbrev pub Returns {ℓ} : {A : Type ℓ} → Option A → Type ℓ
Returns {A} m = (a : A) × (m ≡ some a)

pub Returns->>= {ℓ κ} :
    {A : Type ℓ} {B : Type κ} (m : Option A) (f : A → Option B) {a : A}
    → m ≡ some a
    → Returns (f a)
    → Returns (m >>= f)
Returns->>= m f e r = rw e r

pub Post-map {ℓ κ μ} :
    {A : Type ℓ} (m : Option A) {P : A → Type κ} {Q : A → Type μ}
    → ((a : A) → P a → Q a)
    → Post m P
    → Post m Q
Post-map none f p = tt
Post-map (some a) f p = f a p
