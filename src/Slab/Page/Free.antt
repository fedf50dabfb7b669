-- ===== src/Slab/Page/Free.antt =====
-- runtime/src/utils/slab.rs: the list of vacant slots that a page threads through its entries.
use fairy.Prelude.{
  ℕ, zero, suc, ◌+◌, ◌<◌, ◌≤◌, ◌≡◌, ◌⊎◌, inl, inr, refl, ap, ◌∙◌, Option, none, some, List, [], ◌∷◌,
  length, arith, insert, nat_eq, ◌==◌, if◌then◌else◌, leb, Bool-cases, ==_iff, ◌>>=◌,
}
use mathlib.Core.Path.{ap₂}
use native.Mathlib.Numerals.{add-one}
use fairy.Slab.Page.{Entry, vacant, occupied, Page, as_ref}

-- The list names the slots from `next` on, and ends at the first slot not initialized.
abbrev pub Chain {ℓ} : {T : Type ℓ} → (ℕ → Option (Entry T)) → ℕ → ℕ → List ℕ → Type ℓ
Chain slots initialized next [] = (next ≡ initialized) × Unit
Chain slots initialized next (i ∷ is) =
    (next ≡ i)
    × (i < initialized)
    × ((n : ℕ) × (slots i ≡ some (vacant n)) × Chain slots initialized n is)

abbrev pub Occurs : ℕ → List ℕ → Type 0
Occurs i [] = ⊥
Occurs i (j ∷ js) = (i ≡ j) ⊎ Occurs i js

abbrev pub Distinct : List ℕ → Type 0
Distinct [] = Unit {0}
Distinct (i ∷ is) = (¬ Occurs i is) × Distinct is

module _ {ℓ} {T : Type ℓ} where
  -- A write to a slot that is not in the list leaves the chain.
  pub Chain-insert :
      (slots : ℕ → Option (Entry T)) (initialized next : ℕ) (free : List ℕ) (i : ℕ)
      (entry : Entry T)
      → ¬ Occurs i free
      → Chain slots initialized next free
      → Chain (insert slots i entry) initialized next free
  Chain-insert slots initialized next [] i entry h c = c
  Chain-insert slots initialized next (j ∷ js) i entry h (e, lt, (n, s, c)) =
      (e, lt, (n, kept, Chain-insert slots initialized n js i entry (λ o. h (inr o)) c))
    where
      kept : insert slots i entry j ≡ some (vacant n)
      kept = elim (Bool-cases (i == j)) [
        | inl same ↦ absurd (h (inl ((==_iff i j).0 same)))
        | inr other ↦ rw other s
      ]

  pub Chain-vacant :
      (slots : ℕ → Option (Entry T)) (initialized next : ℕ) (free : List ℕ) (i : ℕ)
      → Chain slots initialized next free
      → Occurs i free
      → (n : ℕ) × (slots i ≡ some (vacant n))
  Chain-vacant slots initialized next [] i c o = absurd o
  Chain-vacant slots initialized next (j ∷ js) i (e, lt, (n, s, c)) (inl h) = (n, ap slots h ∙ s)
  Chain-vacant slots initialized next (j ∷ js) i (e, lt, (n, s, c)) (inr o) =
      Chain-vacant slots initialized n js i c o

  abbrev pub weight : Option (Entry T) → ℕ
  weight none = 0
  weight (some (vacant _)) = 0
  weight (some (occupied _)) = 1

  -- How many of the first `n` slots hold a value.
  unfoldable pub tally : (ℕ → Option (Entry T)) → ℕ → ℕ
  tally slots zero = 0
  tally slots (suc n) = tally slots n + weight (slots n)

  pub tally-suc :
      (slots : ℕ → Option (Entry T)) (n : ℕ)
      → tally slots (suc n) ≡ tally slots n + weight (slots n)
  unfolding tally
  tally-suc slots n = refl

  pub tally-insert_of_le :
      (slots : ℕ → Option (Entry T)) (n i : ℕ) (entry : Entry T)
      → n ≤ i
      → tally (insert slots i entry) n ≡ tally slots n
  unfolding tally
  tally-insert_of_le slots zero i entry h = refl
  tally-insert_of_le slots (suc n) i entry h = ground (arith, tally-insert_of_le slots n i entry)

  pub tally-insert_next :
      (slots : ℕ → Option (Entry T)) (n i : ℕ) (entry : Entry T)
      → n ≡ i
      → tally (insert slots i entry) (n + 1) ≡ tally slots n + weight (some entry)
  tally-insert_next slots n i entry h =
      rw (add-one n, tally-suc)
        (ap₂ ◌+◌ (tally-insert_of_le slots n i entry (omega arith)) (ground arith))

  pub tally-insert :
      (slots : ℕ → Option (Entry T)) (n i : ℕ) (entry : Entry T)
      → i < n
      → tally (insert slots i entry) n + weight (slots i) ≡ tally slots n + weight (some entry)
  unfolding tally
  tally-insert slots zero i entry h = absurd (omega arith)
  tally-insert slots (suc n) i entry h = elim (Bool-cases (i == n)) [
    | inl last ↦
        rw (last, (==_iff i n).0 last)
          (omega (arith, tally-insert_of_le slots n i entry (ground arith)))
    | inr below ↦ rw below (omega (arith, tally-insert slots n i entry (ground arith)))
  ]

  pub tally-pos :
      (slots : ℕ → Option (Entry T)) (n i : ℕ) {val : T}
      → i < n
      → slots i ≡ some (occupied val)
      → 0 < tally slots n
  unfolding tally
  tally-pos slots zero i h e = absurd (omega arith)
  tally-pos slots (suc n) i h e = elim (Bool-cases (i == n)) [
    | inl last ↦ ground arith
    | inr below ↦ omega (arith, tally-pos slots n i (ground arith) e)
  ]

  -- The slots of a page, with the list of its vacant ones.
  pub record WellFormed (p : Page T) (free : List ℕ) : Type ℓ where
    pub chain : Chain p.slots p.initialized p.next free
    pub distinct : Distinct free
    pub listed : (i n : ℕ) → i < p.initialized → p.slots i ≡ some (vacant n) → Occurs i free
    pub ready : (i : ℕ) → i < p.initialized → (entry : Entry T) × (p.slots i ≡ some entry)
    pub count : p.used + length free ≡ p.initialized
    pub tallied : p.used ≡ tally p.slots p.initialized
    pub fits : p.initialized ≤ p.size

  -- The value in a slot, for a page seen as a partial map.
  abbrev pub content : Page T → ℕ → Option T
  content p j = if leb p.initialized j then none else (p.slots j >>= as_ref)
