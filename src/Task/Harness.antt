-- ===== src/Task/Harness.antt =====
-- runtime/src/task/harness.rs and runtime/src/scheduler.rs, as built without the feature `sync`, which
-- the manifest does not declare: what the code does to a cell. One operation runs at a time.
use fairy.Prelude.{
  ℕ, Bool, true, false, not, Option, none, some, [], ◌∷◌, ◌++◌, ◌==◌, if◌then◌else◌,
}
use fairy.Task.State.{is_join_interested, is_complete, has_join_waker}
use fairy.Task.Transitions.{
  TransitionToNotified, do_nothing, submit, UpdateResult, ok, err, transition_to_complete,
  transition_to_notified_without_submit, transition_to_notified, unset_join_interest,
  drop_join_handle_fast, ref_inc, ref_dec,
}
use fairy.Task.Transitions
use fairy.Task.Cell.{
  done, Code, ◌>>=◌, ◌>>◌, returns, skip, panic, assert, when, catch_unwind, deref, with_cell, load,
  on_state, counted, drop_future_or_output, take_output, set_waker, will_wake, wake_join,
}

abbrev pub default_thread_id : ℕ
default_thread_id = 0

-- The second argument is `try_get_current_thread_id`.
unfoldable pub is_remote_task : ℕ → Option ℕ → Bool
is_remote_task owner_id none = true
is_remote_task owner_id (some tid) =
    if owner_id == default_thread_id then true else not (owner_id == tid)

module _ {F O W : Type 0} where
  unfoldable pub increment : Code F O W (Unit {0})
  increment = deref λ m. counted (ref_inc m.cell.state) m

  unfoldable pub dealloc : Code F O W (Unit {0})
  dealloc = deref λ m. done (record m { freed = true }) tt

  unfoldable pub drop_reference : Code F O W (Unit {0})
  drop_reference = do last ← on_state ref_dec; when last dealloc

  module _ (me : ℕ) where
    -- `LocalScheduler`: the task goes to the back of the queue, or to its front.
    unfoldable pub schedule : Code F O W (Unit {0})
    schedule m = done (record m { tasks = m.tasks ++ (me ∷ []) }) tt

    unfoldable pub yield_now : Code F O W (Unit {0})
    yield_now m = done (record m { tasks = me ∷ m.tasks }) tt

    abbrev pub notified_by_val : TransitionToNotified → Code F O W (Unit {0})
    notified_by_val submit = schedule
    notified_by_val do_nothing = drop_reference

    abbrev pub notified_by_ref : TransitionToNotified → Code F O W (Unit {0})
    notified_by_ref submit = do increment; schedule
    notified_by_ref do_nothing = skip

    -- A task of another thread, and one of this thread.
    abbrev pub wake_by_val_at : Bool → Code F O W (Unit {0})
    wake_by_val_at true = do
      settled ← on_state transition_to_notified_without_submit
      if settled then drop_reference else panic
    wake_by_val_at false = do t ← on_state transition_to_notified; notified_by_val t

    abbrev pub wake_by_ref_at : Bool → Code F O W (Unit {0})
    wake_by_ref_at true = do
      settled ← on_state transition_to_notified_without_submit
      if settled then skip else panic
    wake_by_ref_at false = do t ← on_state transition_to_notified; notified_by_ref t

    unfoldable pub wake_by_val : Option ℕ → Code F O W (Unit {0})
    wake_by_val current = do
      owner_id ← with_cell λ c. c.owner_id
      wake_by_val_at (is_remote_task owner_id current)

    unfoldable pub wake_by_ref : Option ℕ → Code F O W (Unit {0})
    wake_by_ref current = do
      owner_id ← with_cell λ c. c.owner_id
      wake_by_ref_at (is_remote_task owner_id current)

  abbrev pub announced : ℕ → Code F O W (Unit {0})
  announced snapshot =
      if not (is_join_interested snapshot)
      then drop_future_or_output
      else when (has_join_waker snapshot) wake_join

  unfoldable pub complete : Code F O W (Unit {0})
  complete = do snapshot ← on_state transition_to_complete; catch_unwind (announced snapshot)

  module _ (same : W → W → Bool) where
    abbrev pub cleared : UpdateResult → Code F O W UpdateResult
    cleared (ok s) = returns (ok s)
    cleared (err s) = do set_waker none; returns (err s)

    unfoldable pub set_join_waker : W → ℕ → Code F O W UpdateResult
    set_join_waker waker snapshot = do
      assert (is_join_interested snapshot)
      assert (not (has_join_waker snapshot))
      set_waker (some waker)
      res ← on_state Transitions.set_waker
      cleared res

    abbrev pub and_then : UpdateResult → (ℕ → Code F O W UpdateResult) → Code F O W UpdateResult
    and_then (ok s) f = f s
    and_then (err s) f = returns (err s)

    -- Whether the output may be read, by the result of storing the waker.
    abbrev pub settled_by : UpdateResult → Code F O W Bool
    settled_by (ok s) = returns false
    settled_by (err s) = do assert (is_complete s); returns true

    unfoldable pub replace_join_waker : W → Code F O W Bool
    replace_join_waker waker = do
      first ← on_state Transitions.unset_waker
      res ← and_then first (set_join_waker waker)
      settled_by res

    unfoldable pub store_join_waker : W → ℕ → Code F O W Bool
    store_join_waker waker snapshot = do res ← set_join_waker waker snapshot; settled_by res

    abbrev pub update_join_waker : W → Bool → ℕ → Code F O W Bool
    update_join_waker waker true snapshot = do
      current ← will_wake same waker
      if current then returns false else replace_join_waker waker
    update_join_waker waker false snapshot = store_join_waker waker snapshot

    unfoldable pub can_read_output : W → Code F O W Bool
    can_read_output waker = do
      snapshot ← load
      assert (is_join_interested snapshot)
      if is_complete snapshot
          then returns true
          else update_join_waker waker (has_join_waker snapshot) snapshot

    abbrev pub read_output : Bool → Code F O W (Option O)
    read_output true = do output ← take_output; returns (some output)
    read_output false = returns none

    -- `none` is `Poll::Pending`.
    unfoldable pub try_read_output : W → Code F O W (Option O)
    try_read_output waker = do ready ← can_read_output waker; read_output ready

  abbrev pub dropped_output : UpdateResult → Code F O W (Unit {0})
  dropped_output (ok s) = skip
  dropped_output (err s) = drop_future_or_output

  -- The future and its output are dropped without a panic, so there is none to resume.
  unfoldable pub drop_join_handle_slow : Code F O W (Unit {0})
  drop_join_handle_slow = do res ← on_state unset_join_interest; dropped_output res; drop_reference
