-- ===== src/Task/Ownership/Histories.antt =====
-- runtime/src/task: from its spawn on, a task is never used after it is deallocated, and no assertion of
-- the code fails.
use fairy.Prelude.{
  ℕ, ◌≡◌, ◌↔◌, inl, inr, Bool, true, false, Option, List, [], ◌∷◌, ◌==◌, arith, refl,
}
use mathlib.Core.Path.{subst}
use fairy.Task.View.{encode, encode-initial}
use fairy.Task.State.{initial_state}
use fairy.Task.Spec.{fresh}
use fairy.Task.Cell.{Machine, done, new}
use fairy.Task.Harness.{is_remote_task}
use fairy.Task.Handles.{Use}
use fairy.Task.Ownership.{
  Event, uses, elsewhere, executes, count, count-snoc, Inv, After-Inv, Safe, Safe-if, Safe->>=,
  Safe-mono, spawned, execute, step, steps,
}
use fairy.Task.Ownership.Using.{use_task-Safe}
use fairy.Task.Ownership.Running.{run-Safe}

pub encode-fresh : encode fresh ≡ initial_state
encode-fresh = ground (arith, encode-initial fresh)

module _ {F O W : Type 0} (me : ℕ) (current : Option ℕ) where
  module _ (same : W → W → Bool) (advance : F → ℕ × List (Use W) × F × Option O) where
    execute-Safe :
        (tasks : List ℕ) (m : Machine F O W)
        → m.tasks ≡ tasks
        → Inv me current 0 m
        → Safe (execute me current same advance tasks m) (λ _. Inv me current 0)
    execute-Safe [] m e i = i
    execute-Safe (t ∷ rest) m e (inl (v, g)) =
        Safe-if (t == me) _ _ _ (λ h. run-Safe me current same advance v m rest g (ground arith))
          λ h. inl (v, ground (arith, g))
    execute-Safe (t ∷ rest) m e (inr g) =
        Safe-if (t == me) _ _ _ (λ h. absurd (ground (arith, g))) λ h. inr (ground (arith, g))

    -- Every event, of whatever history, keeps the task in order.
    pub step-Safe :
        (e : Event W) (m : Machine F O W)
        → Inv me current 0 m
        → Safe (step me current same advance e m) (λ _. Inv me current 0)
    unfolding step
    step-Safe (uses u) m (inl (v, g)) =
        Safe-mono _ (use_task-Safe me current same 0 v u m (inl (v, g, refl, refl)))
          (λ _. After-Inv me current 0 v)
    step-Safe (uses u) m (inr g) =
        Safe-mono _ (use_task-Safe me current same 0 fresh u m (inr g))
          (λ _. After-Inv me current 0 fresh)
    step-Safe (elsewhere tasks) m (inl (v, g)) =
        Safe-if (count me tasks == count me m.tasks) _ _ _ (λ h. inl (v, ground (arith, g)))
          λ h. inl (v, g)
    step-Safe (elsewhere tasks) m (inr g) =
        Safe-if (count me tasks == count me m.tasks) _ _ _ (λ h. inr (ground (arith, g))) λ h. inr g
    step-Safe executes m i = execute-Safe m.tasks m refl i

    pub steps-Safe :
        (es : List (Event W)) (m : Machine F O W)
        → Inv me current 0 m
        → Safe (steps me current same advance es m) (λ _. Inv me current 0)
    unfolding steps
    steps-Safe [] m i = i
    steps-Safe (e ∷ es) m i =
        Safe->>= (step me current same advance e m) _ _ _ (step-Safe e m i)
          λ _ m' j. steps-Safe es m' j

  spawned-Inv :
      (future : F) (owner : ℕ) (tasks : List ℕ)
      → is_remote_task owner current ≡ false
      → count me tasks ≡ 0
      → Inv {F = F} {O = O} {W = W} me current 0 (spawned me owner future tasks)
  unfolding spawned new
  spawned-Inv future owner tasks l n =
      inl (fresh, ground (arith, count-snoc me tasks, encode-fresh))

  module _ (same : W → W → Bool) (advance : F → ℕ × List (Use W) × F × Option O) (future : F)
      (owner : ℕ) (tasks : List ℕ) (l : is_remote_task owner current ≡ false)
      (n : count me tasks ≡ 0) (es : List (Event W)) where
    -- From the spawn of a task on its own thread on, in every history of polls by the executor, of
    -- uses of its wakers and of its join handle by their owners, in the future's poll and outside it,
    -- and of changes of the queue by others, the code neither panics nor touches the cell after it is
    -- deallocated, and the references, the queue, the stage, the output and the stored waker agree
    -- with the state word.
    pub spawned-Safe :
        Safe
          (steps me current same advance es (spawned me owner future tasks))
          (λ _. Inv me current 0)
    spawned-Safe = steps-Safe same advance es _ (spawned-Inv future owner tasks l n)

    abbrev pub Reached : Machine F O W → Type 0
    Reached m = steps me current same advance es (spawned me owner future tasks) ≡ done m tt

    reached : (m : Machine F O W) → Reached m → Inv me current 0 m
    reached m e = subst (λ c. Safe c (λ _. Inv me current 0)) e spawned-Safe

    -- In every such history the cell is deallocated exactly when no reference to it is left, in the
    -- queue, as a waker or as the join handle.
    pub freed_iff :
        (m : Machine F O W)
        → Reached m
        → (m.freed ≡ true) ↔ ((count me m.tasks ≡ 0) × (m.wakers ≡ 0) × (m.handle ≡ false))
    freed_iff m e = go (reached m e)
      where
        go :
            Inv me current 0 m
            → (m.freed ≡ true) ↔ ((count me m.tasks ≡ 0) × (m.wakers ≡ 0) × (m.handle ≡ false))
        go (inl (v, g)) = (λ f. ground (arith, g), λ f. ground (arith, g))
        go (inr g) = (λ f. (g.unqueued, g.unwoken, g.unjoined), λ _. g.released)
