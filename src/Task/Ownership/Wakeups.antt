-- ===== src/Task/Ownership/Wakeups.antt =====
-- runtime/src/task/harness.rs and runtime/src/scheduler.rs: which wakes put the task in the queue.
use fairy.Prelude.{
  ℕ, zero, suc, ◌+◌, ◌<◌, ◌^◌, ◌≡◌, Bool, true, false, Option, none, List, [], ◌∷◌, if◌then◌else◌,
  arith, refl,
}
use fairy.Task.View.{View, encode}
use fairy.Task.Words.{
  is_settled, marked, notified_without_submit-encode, running-encode, ref_inc-encode,
  notified-encode, ref_dec-encode, idle-encode,
}
use fairy.Task.Cell.{running, set_stage, Machine, done, panics}
use fairy.Task.Harness.{
  increment, drop_reference, yield_now, is_remote_task, wake_by_ref, wake_by_val,
}
use fairy.Task.Handles.{
  Use, wakes, run, poll, poll_inner, poll_future, use_all, use_task, drop_task,
}
use fairy.Task.Ownership.{turns, executes, step, steps, count, Live, Safe, Safe-mono}
use fairy.Task.Ownership.Waking.{Woken, with_state, wake_by_ref-Safe}

module _ {F O W : Type 0} (me : ℕ) (current : Option ℕ) where
  -- A wake of a task that is neither complete nor being polled leaves it in the queue, once, whether
  -- it was there or not: no wake is lost.
  wake_by_ref-queued :
      (v : View) (m : Machine F O W)
      → Live me current 0 v m
      → v.complete ≡ false
      → Safe (wake_by_ref me current m) (λ _ m'. count me m'.tasks ≡ 1)
  wake_by_ref-queued v m g c =
      Safe-mono _ {P = λ _. Woken me current 0 v m} (wake_by_ref-Safe me current 0 v m g)
        λ _ m' (w, h, r, d, n). ground (arith, g, h, n c)

  -- A wake from another thread than the task's panics, unless the task is being polled, complete or in
  -- the queue.
  wake_by_ref-remote :
      (v : View) (m : Machine F O W)
      → m.freed ≡ false
      → m.cell.state ≡ encode v
      → is_remote_task m.cell.owner_id current ≡ true
      → wake_by_ref me current m
        ≡ (if is_settled v then done (with_state m (encode (marked v))) tt else panics m)
  unfolding wake_by_ref
  wake_by_ref-remote v m a w r = ground (arith, notified_without_submit-encode v)

  -- A task that wakes itself whenever it is polled.
  module _ (same : W → W → Bool) (advance : F → ℕ × List (Use W) × F × Option O) (future : F)
      (a : advance future ≡ (1, wakes ∷ [], future, none)) where
    executes-same :
        (v : View) (m : Machine F O W) (rest : List ℕ)
        → Live me current 0 v m
        → v.refs + 1 < 2 ^ 58
        → m.tasks ≡ me ∷ rest
        → m.cell.stage ≡ running future
        → step me current same advance executes m ≡ done m tt
    unfolding step run poll poll_inner poll_future set_stage use_all use_task increment wake_by_val
        drop_reference yield_now drop_task
    executes-same v m rest g r t s =
        let quiet : v.running ≡ false = ground (arith, g) in
        let ready : (v.notified ≡ true) × (v.complete ≡ false) = ground (arith, g) in
        let v₁ : View = record v { running = true; notified = false } in
        let v₂ : View = record v { running = true; notified = false; refs = v.refs + 1 } in
        let v₃ : View = record v { running = true; notified = true; refs = v.refs + 1 } in
        let v₄ : View = record v { running = true; notified = true } in
        let v₅ : View = record v { running = false; notified = true } in
        let v₆ : View = record v { running = false; notified = true; refs = v.refs + 1 } in
        ground (
          arith,
          t,
          s,
          a,
          g.allocated,
          g.here,
          g.word,
          running-encode v (omega (arith, g.small)) ready.0 quiet ready.1,
          ref_inc-encode v₁,
          notified-encode v₂,
          ref_dec-encode v₃ (omega arith) (omega arith),
          idle-encode v₄ (omega (arith, g.small)) refl,
          ref_inc-encode v₅,
          ref_dec-encode v₆ (omega arith) (omega arith),
        )

    -- A task that is at the front of the queue and wakes itself whenever it is polled starves the tasks
    -- behind it: however often the executor takes a task from the queue, it is this one.
    pub steps-starved :
        (v : View) (m : Machine F O W) (rest : List ℕ)
        → Live me current 0 v m
        → v.refs + 1 < 2 ^ 58
        → m.tasks ≡ me ∷ rest
        → m.cell.stage ≡ running future
        → (n : ℕ) → steps me current same advance (turns n) m ≡ done m tt
    unfolding steps
    steps-starved v m rest g r t s zero = refl
    steps-starved v m rest g r t s (suc n) =
        rw (executes-same v m rest g r t s) (steps-starved v m rest g r t s n)
