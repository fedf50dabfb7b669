-- ===== src/Task/Handles.antt =====
-- runtime/src/task/{waker,join,raw,mod}.rs: the wakers, the join handle and the task handle, each used
-- by whoever owns one; and runtime/src/task/harness.rs: the poll of the future.
use fairy.Prelude.{
  ℕ, zero, suc, ◌-◌, Bool, true, false, not, ◌&&◌, Option, none, some, List, [], ◌∷◌, ◌==◌,
  if◌then◌else◌,
}
use fairy.Task.State.{is_complete}
use fairy.Task.Transitions.{
  TransitionToIdle, idle, idle_notified, transition_to_running, transition_to_idle,
  drop_join_handle_fast, ref_dec,
}
use fairy.Task.Cell.{
  Stage, running, finished, consumed, done, Code, ◌>>=◌, ◌>>◌, returns, skip, panic, when, deref,
  with_cell, load, on_state, store, set_stage, store_output, drop_future_or_output,
}
use fairy.Task.Harness
use fairy.Task.Harness.{
  increment, dealloc, drop_reference, yield_now, wake_by_val, wake_by_ref, try_read_output,
}

-- What code may do with a waker of the task or with its join handle.
pub data Use (W : Type 0) : Type 0 where
  clones drops wakes wakes_by_ref detaches checks : Use W
  joins : W → Use W

pub data PollFuture : Type 0 where
  complete notified pending : PollFuture

module _ {F O W : Type 0} where
  unfoldable pub is_finished : Code F O W Bool
  is_finished = do state ← load; returns (is_complete state)

  abbrev pub fast_path : Code F O W Bool
  fast_path =
      deref
        λ m. store (drop_join_handle_fast m.cell.state).0 (drop_join_handle_fast m.cell.state).1 m

  -- `Drop` of `JoinHandle`, and of `Task`.
  unfoldable pub drop_join_handle : Code F O W (Unit {0})
  drop_join_handle = do fast ← fast_path; when (not fast) Harness.drop_join_handle_slow

  unfoldable pub drop_task : Code F O W (Unit {0})
  drop_task = do last ← on_state ref_dec; when last dealloc

  -- The owner of a waker or of the handle gains or loses it.
  abbrev pub set_wakers : ℕ → Code F O W (Unit {0})
  set_wakers n m = done (record m { wakers = n }) tt

  abbrev pub set_handle : Bool → Bool → Code F O W (Unit {0})
  set_handle handle unread m = done (record m { handle = handle; unread = unread }) tt

  abbrev pub set_read : Option O → Code F O W (Unit {0})
  set_read none = skip
  set_read (some output) = set_handle true false

  abbrev pub gain_waker : Code F O W (Unit {0})
  gain_waker m = done (record m { wakers = suc m.wakers }) tt

  -- The future is dropped, and the output stored.
  abbrev pub store_ready : Option O → Code F O W Bool
  store_ready none = returns false
  store_ready (some output) = do drop_future_or_output; store_output output; returns true

  abbrev pub idled : TransitionToIdle → Code F O W PollFuture
  idled idle = returns PollFuture.pending
  idled idle_notified = returns PollFuture.notified

  abbrev pub to_idle : Code F O W PollFuture
  to_idle = do t ← on_state transition_to_idle; idled t

  -- The wakers that a future clones from the context that it is polled with.
  abbrev pub with_context : ℕ → Code F O W (Unit {0})
  with_context zero = skip
  with_context (suc n) = do increment; gain_waker; with_context n

  -- `current` is the thread of the code.
  module _ (me : ℕ) (current : Option ℕ) (same : W → W → Bool) where
    -- A use by someone who owns the waker or the handle that it takes; no one else can make it. A
    -- handle that has returned the output is not polled again.
    unfoldable pub use_task : Use W → Code F O W (Unit {0})
    use_task clones m = if m.wakers == 0 then done m tt else (do increment; gain_waker) m
    use_task drops m =
        if m.wakers == 0 then done m tt else (do set_wakers (m.wakers - 1); drop_reference) m
    use_task wakes m =
        if m.wakers == 0
        then done m tt
        else (do set_wakers (m.wakers - 1); wake_by_val me current) m
    use_task wakes_by_ref m = if m.wakers == 0 then done m tt else wake_by_ref me current m
    use_task (joins waker) m =
        if m.handle && m.unread
        then (do output ← try_read_output same waker; set_read output) m
        else done m tt
    use_task checks m = if m.handle then (do f ← is_finished; skip) m else done m tt
    use_task detaches m =
        if m.handle then (do set_handle false false; drop_join_handle) m else done m tt

    unfoldable pub use_all : List (Use W) → Code F O W (Unit {0})
    unfolding use_task
    use_all [] = skip
    use_all (u ∷ us) = do use_task u; use_all us

    -- What the future does when it is polled: the wakers that it makes from the context, what it and
    -- the code that it calls do with the task, and its next state or its output.
    module _ (advance : F → ℕ × List (Use W) × F × Option O) where
      abbrev pub poll_stage : Stage F O → Code F O W (Option O)
      poll_stage (finished output) = panic
      poll_stage consumed = panic
      poll_stage (running future) = do
        let (made, uses, next, output) = advance future
        set_stage (running next)
        with_context made
        use_all uses
        returns output

      unfoldable pub poll_future : Code F O W Bool
      poll_future = do stage ← with_cell λ c. c.stage; output ← poll_stage stage; store_ready output

      unfoldable pub poll_inner : Code F O W PollFuture
      poll_inner = do
        on_state transition_to_running
        ready ← poll_future
        if ready then returns PollFuture.complete else to_idle

      abbrev pub polled : PollFuture → Code F O W (Unit {0})
      polled PollFuture.notified = do increment; yield_now me
      polled PollFuture.complete = Harness.complete
      polled PollFuture.pending = skip

      unfoldable pub poll : Code F O W (Unit {0})
      poll = do p ← poll_inner; polled p

      -- `Task::run`, which drops the task at its end.
      unfoldable pub run : Code F O W (Unit {0})
      run = do poll; drop_task
