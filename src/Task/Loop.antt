-- ===== src/Task/Loop.antt =====
-- runtime/src/task/state.rs: the compare-and-swap loop of `fetch_update_action` and `fetch_update`,
-- among other threads that write the word. `observed` lists the words that the swaps find, in order.
use fairy.Prelude.{
  ℕ, ◌≡◌, refl, ◌≢◌, ◌⊎◌, inl, inr, Option, none, some, List, [], ◌∷◌, ◌++◌, ◌==◌, arith, Occurs,
  if◌then◌else◌,
}
use fairy.Task.Transitions.{Action}

-- `waits` is a loop whose next swap is still to come.
pub data Loop (T : Type 0) : Type 0 where
  panics : Loop T
  waits : ℕ → Loop T
  returns : T → (seen : ℕ) → (store : Option ℕ) → Loop T

module _ {T : Type 0} (f : Action T) where
  -- One pass with the word `curr`: what follows if the swap finds `actual`.
  unfoldable pub attempt : ℕ → Option (T × Option ℕ) → Option ℕ → Loop T
  attempt curr none actual = panics
  attempt curr (some (output, none)) actual = returns output curr none
  attempt curr (some (output, some next)) none = waits curr
  attempt curr (some (output, some next)) (some actual) =
      if actual == curr then returns output curr (some next) else waits actual

  unfoldable pub fetch_update_action : ℕ → List ℕ → Loop T
  unfolding attempt
  fetch_update_action curr [] = attempt curr (f curr) none
  fetch_update_action curr (actual ∷ rest) = elim (attempt curr (f curr) (some actual)) [
    | panics ↦ panics
    | returns output seen store ↦ returns output seen store
    | waits word ↦ fetch_update_action word rest
  ]

  attempt-returns :
      (curr : ℕ) (r : Option (T × Option ℕ)) (actual : Option ℕ) {output : T} {seen : ℕ}
      {store : Option ℕ}
      → f curr ≡ r
      → attempt curr r actual ≡ returns output seen store
      → (f seen ≡ some (output, store)) × ((store ≡ none) ⊎ (actual ≡ some seen))
  unfolding attempt
  attempt-returns curr none actual e h = cc
  attempt-returns curr (some (output, none)) actual e h = ground arith
  attempt-returns curr (some (output, some next)) none e h = cc
  attempt-returns curr (some (output, some next)) (some actual) e h = ground arith

  Loop-cases :
      (l : Loop T)
      → (l ≡ panics)
        ⊎ ((w : ℕ) × (l ≡ waits w))
        ⊎ ((o : T) × (s : ℕ) × (w : Option ℕ) × (l ≡ returns o s w))
  Loop-cases panics = inl refl
  Loop-cases (waits w) = inr (inl (w, refl))
  Loop-cases (returns o s w) = inr (inr (o, s, w, refl))

  -- A loop that returns has called the update on some word, and its output and its store are the
  -- update's on that word; if it stored, one of its swaps found that word.
  pub fetch_update_action-returns :
      (curr : ℕ) (observed : List ℕ) {output : T} {seen : ℕ} {store : Option ℕ}
      → fetch_update_action curr observed ≡ returns output seen store
      → (f seen ≡ some (output, store)) × ((store ≡ none) ⊎ Occurs seen observed)
  unfolding fetch_update_action
  fetch_update_action-returns curr [] h = ground (arith, attempt-returns curr (f curr) none refl h)
  fetch_update_action-returns curr (actual ∷ rest) {output} {seen} {store} h =
      elim (Loop-cases (attempt curr (f curr) (some actual))) [
        | inl e ↦ ground arith
        | inr (inl (w, e)) ↦
            let (p, q) =
              fetch_update_action-returns w rest {output = output} {seen = seen} {store = store}
                (ground arith) in
            (p, elim q [ inl n ↦ inl n | inr m ↦ inr (inr m) ])
        | inr (inr (o, s, w, e)) ↦
            let (p, q) =
              attempt-returns curr (f curr) (some actual) {output = output} {seen = seen}
                {store = store} refl (ground arith) in
            (p, elim q [ inl n ↦ inl n | inr m ↦ inr (inl (ground arith)) ])
      ]

  -- With no other writer the loop returns at its first pass, with the effect of the update.
  pub fetch_update_action-alone :
      (curr : ℕ) (rest : List ℕ) (output : T) (store : Option ℕ)
      → f curr ≡ some (output, store)
      → fetch_update_action curr (curr ∷ rest) ≡ returns output curr store
  unfolding fetch_update_action
  fetch_update_action-alone curr rest output none h = ground arith
  fetch_update_action-alone curr rest output (some next) h = ground arith

  attempt-waits :
      (curr : ℕ) (r : Option (T × Option ℕ)) (actual : ℕ) {w : ℕ}
      → attempt curr r (some actual) ≡ waits w
      → (w ≡ actual) × (curr ≢ actual)
  unfolding attempt
  attempt-waits curr none actual h = absurd (cc)
  attempt-waits curr (some (output, none)) actual h = absurd (cc)
  attempt-waits curr (some (output, some next)) actual h = (ground arith, λ e. ground arith)

  fetch_update_action-settled :
      (curr word : ℕ) (after : List ℕ) (w : ℕ)
      → curr ≡ word
      → fetch_update_action curr (word ∷ after) ≢ waits w
  unfolding fetch_update_action
  fetch_update_action-settled curr word after w e h =
      elim (Loop-cases (attempt curr (f curr) (some word))) [
        | inl r ↦ ground arith
        | inr (inl (v, r)) ↦ (attempt-waits curr (f curr) word r).1 e
        | inr (inr (o, s, v, r)) ↦ ground arith
      ]

  -- The loop goes on only while each swap finds another word than the one before it: once two swaps
  -- in a row would find the same word, it has returned or panicked.
  pub fetch_update_action-progress :
      (before : List ℕ) (curr word : ℕ) (after : List ℕ) (w : ℕ)
      → fetch_update_action curr (before ++ (word ∷ word ∷ after)) ≢ waits w
  unfolding fetch_update_action
  fetch_update_action-progress [] curr word after w h =
      elim (Loop-cases (attempt curr (f curr) (some word))) [
        | inl e ↦ ground arith
        | inr (inl (v, e)) ↦
            let (p, q) = attempt-waits curr (f curr) word e in
            fetch_update_action-settled v word after w p (ground arith)
        | inr (inr (o, s, v, e)) ↦ ground arith
      ]
  fetch_update_action-progress (actual ∷ before) curr word after w h =
      elim (Loop-cases (attempt curr (f curr) (some actual))) [
        | inl e ↦ ground arith
        | inr (inl (v, e)) ↦ fetch_update_action-progress before v word after w (ground arith)
        | inr (inr (o, s, v, e)) ↦ ground arith
      ]
