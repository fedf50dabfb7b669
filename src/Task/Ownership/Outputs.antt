-- ===== src/Task/Ownership/Outputs.antt =====
-- runtime/src/task/{harness,join,core}.rs: the output of the future is what the join handle returns.
use fairy.Prelude.{
  ℕ, ◌-◌, ◌≤◌, ◌^◌, ◌≡◌, Bool, true, false, Option, some, List, [], ◌∷◌, arith, refl, ap, ◌∙◌,
}
use fairy.Task.View.{View, encode, is_join_interested-encode, has_join_waker-encode}
use fairy.Task.Spec.{is_fresh}
use fairy.Task.Words.{
  fast-encode, unset_interest-encode, ref_dec-encode, running-encode, complete-encode,
}
use fairy.Task.Cell.{
  Stage, running, finished, consumed, set_stage, drop_future_or_output, store_output, wake_join,
  Machine, done,
}
use fairy.Task.Harness.{complete, try_read_output, drop_join_handle_slow, drop_reference}
use fairy.Task.Handles.{
  drop_join_handle, Use, run, poll, poll_inner, poll_future, use_all, drop_task,
}
use fairy.Task.Ownership.{executes, step, Live}
use fairy.Task.Ownership.Joining.{ready_lem}

module _ {F O W : Type 0} where
  -- For a task that is new the fast path of the join handle's drop does what the slow path does.
  drop_join_handle-slow :
      (v : View) (m : Machine F O W)
      → m.freed ≡ false
      → m.cell.state ≡ encode v
      → is_fresh v ≡ true
      → drop_join_handle m ≡ drop_join_handle_slow m
  unfolding drop_join_handle drop_join_handle_slow drop_reference
  drop_join_handle-slow v m a w e = ground (
    arith,
    fast-encode v (ground arith),
    unset_interest-encode v (ground arith) (ground arith),
    ref_dec-encode (record v { interest = false }) (ground arith) (ground arith),
  )

module _ {F O W : Type 0} (me : ℕ) (current : Option ℕ) (same : W → W → Bool)
    (advance : F → ℕ × List (Use W) × F × Option O) (future next : F) (output : O)
    (a : advance future ≡ (0, [], next, some output)) (v : View) (m : Machine F O W) (rest : List ℕ)
    (waker : W) where
  abbrev finished_view : View
  finished_view = record v { running = false; complete = true; notified = false; refs = v.refs - 1 }

  abbrev finished_task : Machine F O W
  finished_task = record m {
    tasks = rest;
    woken = waker ∷ m.woken;
    cell = record m.cell { state = encode finished_view; stage = finished output };
  }

  abbrev read_task : Machine F O W
  read_task = record finished_task { cell = record finished_task.cell { stage = consumed } }

  executes-finished :
      Live me current 0 v m
      → m.tasks ≡ me ∷ rest
      → m.cell.stage ≡ running future
      → m.handle ≡ true
      → v.waker ≡ true
      → m.cell.waker ≡ some waker
      → step me current same advance executes m ≡ done finished_task tt
  unfolding step run poll poll_inner poll_future set_stage use_all drop_task complete
      drop_future_or_output store_output wake_join
  executes-finished g t s h w k =
      let quiet : v.running ≡ false = ground (arith, g) in
      let ready : (v.notified ≡ true) × (v.complete ≡ false) = ground (arith, g) in
      let v₁ : View = record v { running = true; notified = false } in
      let v₂ : View = record v { running = false; notified = false; complete = true } in
      let few : v.refs ≤ 2 ^ 58 = g.small in
      ground (
        arith,
        t,
        s,
        a,
        g.allocated,
        g.word,
        g.interested h,
        g.refs,
        running-encode v (omega arith) ready.0 quiet ready.1,
        complete-encode v₁ (omega arith) refl ready.1,
        is_join_interested-encode v₂,
        has_join_waker-encode v₂,
        ref_dec-encode v₂ (omega arith) g.referred,
      )

  -- In a state of a task that meets the invariant, on the task's own thread, let the task be at the front
  -- of the queue, with a join handle that has left a waker and has not read an output. If the executor
  -- runs the task, and the future, in that poll, returns an output and neither makes nor uses a waker nor
  -- uses the join handle, then the handle's waker is woken, and the next poll of the handle returns that
  -- output.
  pub joins-executes :
      Live me current 0 v m
      → m.tasks ≡ me ∷ rest
      → m.cell.stage ≡ running future
      → m.handle ≡ true
      → m.unread ≡ true
      → v.waker ≡ true
      → m.cell.waker ≡ some waker
      → (next : W)
      → (m' : Machine F O W) × (m'' : Machine F O W) × (step me current same advance executes m
          ≡ done m' tt)
        × (m'.woken ≡ waker ∷ m.woken)
        × (try_read_output same next m' ≡ done m'' (some output))
  joins-executes g t s h u w k next =
      let quiet : v.running ≡ false = ground (arith, g) in
      let live : Live me current 0 finished_view finished_task = ground (arith, g) in
      let (read, e, r) =
        ready_lem me current same 0 finished_view finished_task live next h u refl in
      (
        finished_task,
        read_task,
        executes-finished g t s h w k,
        refl,
        r ∙ ap (λ o. done read_task (some o)) (same_output e),
      )
    where
      same_output : {o : O} → ◌≡◌ {A = Stage F O} (finished output) (finished o) → o ≡ output
      same_output e = cc
