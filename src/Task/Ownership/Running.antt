-- ===== src/Task/Ownership/Running.antt =====
-- runtime/src/task/harness.rs: a run of the task by the executor keeps it in order, whatever the
-- future does when it is polled.
use fairy.Prelude.{
  ℕ, suc, ◌≡◌, inl, inr, Bool, true, false, Option, none, some, List, if◌then◌else◌, arith, refl,
  sym, ◌∙◌,
}
use mathlib.Core.Path.{subst}
use fairy.Task.View.{View}
use fairy.Task.Cell.{
  Stage, running, finished, consumed, Machine, done, ◌>>◌, with_cell, returns, set_stage,
  store_output, drop_future_or_output,
}
use fairy.Task.Harness.{increment, drop_reference, yield_now, complete}
use fairy.Task.Handles.{
  Use, PollFuture, use_all, with_context, to_idle, poll_stage, poll_future, poll_inner, polled,
  poll, run, drop_task, store_ready,
}
use fairy.Task.Ownership.{
  Live, After, After-Inv, Inv, Safe, Safe_eq, Safe_then, Safe->>=, Safe-mono, IsPending, count,
}
use fairy.Task.Ownership.Waking.{drop_reference-Safe}
use fairy.Task.Ownership.Using.{use_all-Safe, with_context-Safe}
use fairy.Task.Ownership.Ending.{
  staged, Busy, Ran, start_lem, to_idle-Safe, again-Safe, complete-Safe,
}

module _ {F O W : Type 0} (me : ℕ) (current : Option ℕ) where
  module _ (same : W → W → Bool) (advance : F → ℕ × List (Use W) × F × Option O) where
    -- Whether the poll was ready, and the task after it.
    abbrev Polled : Bool → Machine F O W → Type 0
    Polled true m =
        (v : View) × (m₀ : Machine F O W) × (output : O) × Busy me current v m₀
        × (m ≡ staged m₀ (finished output))
    Polled false m = (v : View) × Busy me current v m

    store_ready-Safe :
        (output : Option O) (v : View) (m : Machine F O W)
        → Busy me current v m
        → Safe (store_ready output m) Polled
    unfolding store_output drop_future_or_output set_stage
    store_ready-Safe none v m b = (v, b)
    store_ready-Safe (some output) v m b =
        Safe_eq {m = staged m (finished output)} _ stored (v, m, output, b, refl)
      where
        stored : store_ready (some output) m ≡ done (staged m (finished output)) true
        stored = ground (arith, b.0.allocated)

    still :
        (v : View) (m : Machine F O W)
        → v.running ≡ true
        → After me current 1 v m
        → (w : View) × Busy me current w m
    still v m r (inl (w, g, p, q)) = (w, (g, p ∙ r))
    still v m r (inr g) = absurd (omega (arith, g.unheld))

    -- Whatever the future does, the task is still there after its poll, and still runs.
    poll_stage-Safe :
        (stage : Stage F O) (v : View) (m : Machine F O W)
        → IsPending stage
        → Busy me current v m
        → Safe
            (poll_stage me current same advance stage m)
            (λ _ m'. (w : View) × Busy me current w m')
    unfolding set_stage
    poll_stage-Safe (finished output) v m h b = h
    poll_stage-Safe consumed v m h b = h
    poll_stage-Safe (running future) v m h b =
        let (made, uses, next, output) = advance future in
        let m₁ = staged m (running next) in
        Safe_then _ _ (set_lem next) (
          Safe->>= (with_context made m₁) _ _ _
            (with_context-Safe me current 1 made v m₁ (ground (arith, b.0)))
            λ _ m₂ (w, g, r, c).
              Safe->>= (use_all me current same uses m₂) _ _ _
                (use_all-Safe me current same 1 w uses m₂ (inl (w, g, refl, refl)))
                λ _ m₃ q. still w m₃ (r ∙ b.1) q)
      where
        set_lem : (next : F) → set_stage (running next) m ≡ done (staged m (running next)) tt
        set_lem next = ground (arith, b.0.allocated)

    poll_future-Safe :
        (v : View) (m : Machine F O W)
        → Busy me current v m
        → Safe (poll_future me current same advance m) Polled
    unfolding poll_future
    poll_future-Safe v m b = Safe_then _ _ stage_lem (
        Safe->>= (poll_stage me current same advance m.cell.stage m) _ _ _
          (poll_stage-Safe m.cell.stage v m (b.0.pending (ground (arith, b.0, b.1))) b)
          λ output m' (w, c). store_ready-Safe output w m' c)
      where
        stage_lem : with_cell (λ c. c.stage) m ≡ done m m.cell.stage
        stage_lem = ground (arith, b.0.allocated)

    settle-Safe :
        (ready : Bool) (m : Machine F O W)
        → Polled ready m
        → Safe ((if ready then returns PollFuture.complete else to_idle) m) (Ran me current)
    settle-Safe true m p = p
    settle-Safe false m (v, b) = to_idle-Safe me current v m b.0 b.1

    poll_inner-Safe :
        (v : View) (m : Machine F O W) (rest : List ℕ)
        → Live me current 0 v m
        → suc (count me rest) ≡ count me m.tasks
        → Safe (poll_inner me current same advance (record m { tasks = rest })) (Ran me current)
    unfolding poll_inner
    poll_inner-Safe v m rest g e =
        let (started, b) = start_lem me current v m g rest e in
        Safe_then _ _ started (
          Safe->>= (poll_future me current same advance _) _ _ _ (poll_future-Safe _ _ b)
            λ ready m' p. settle-Safe ready m' p)

    polled-Safe :
        (p : PollFuture) (m : Machine F O W)
        → Ran me current p m
        → Safe
            (polled me current same advance p m)
            (λ _ m'. (v : View) × Live me current 1 v m' × (v.running ≡ false))
    polled-Safe PollFuture.complete m (v, m₀, output, b, e) =
        subst (λ x. Safe (complete x) (λ _. Ran me current PollFuture.pending)) (sym e)
          (complete-Safe me current v m₀ b.0 b.1 output)
    polled-Safe PollFuture.notified m (v, m₀, b, n, e) =
        subst (λ x. Safe ((increment >> yield_now me) x) (λ _. Ran me current PollFuture.pending))
          (sym e) (again-Safe me current v m₀ b.0 b.1 n)
    polled-Safe PollFuture.pending m p = p

    -- A run of the task that the queue held.
    pub run-Safe :
        (v : View) (m : Machine F O W) (rest : List ℕ)
        → Live me current 0 v m
        → suc (count me rest) ≡ count me m.tasks
        → Safe (run me current same advance (record m { tasks = rest })) (λ _. Inv me current 0)
    unfolding run poll drop_task drop_reference
    run-Safe v m rest g e =
        Safe->>= (poll me current same advance _) _ _ _
          (Safe->>= (poll_inner me current same advance _) _ _ _ (poll_inner-Safe v m rest g e)
            polled-Safe)
          λ _ m' (w, h, r). Safe-mono _ (drop_task-Safe w m' h r) (λ _. After-Inv me current 0 w)
      where
        drop_task-Safe :
            (w : View) (m' : Machine F O W)
            → Live me current 1 w m'
            → w.running ≡ false
            → Safe (drop_task m') (λ _. After me current 0 w)
        drop_task-Safe w m' h r = drop_reference-Safe me current 0 w m' h (ground (arith, r))
