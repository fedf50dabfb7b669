-- ===== src/Task/Spec.antt =====
-- runtime/src/task/state.rs: what the operations on a task's state promise, on flags and a count.
use fairy.Prelude.{
  ℕ, ◌+◌, ◌-◌, ◌^◌, Bool, true, false, not, ◌&&◌, ◌||◌, Option, none, some, ltb, ◌==◌,
  if◌then◌else◌, ◌>>=◌, ◌>>◌, assert,
}
use fairy.Task.View.{View}
use fairy.Task.Transitions.{
  TransitionToIdle, idle, idle_notified, TransitionToNotified, do_nothing, submit, UpdateResult, ok,
  err, transition_to_running, transition_to_idle, transition_to_complete,
  transition_to_notified_without_submit, transition_to_notified, unset_join_interest, set_waker,
  unset_waker, drop_join_handle_fast, ref_inc, ref_dec,
}

pub data Op : Type 0 where
  runs idles completes notifies_remotely notifies drops_interest sets_waker unsets_waker : Op
  drops_fast increments decrements : Op

-- What an operation returns; `W` is the type of a snapshot.
pub data Output (W : Type 0) : Type 0 where
  nothing : Output W
  idled : TransitionToIdle → Output W
  notified : TransitionToNotified → Output W
  flag : Bool → Output W
  snapshot : W → Output W
  updated : W → Output W
  refused : W → Output W

abbrev pub of_update : UpdateResult → Output ℕ
of_update (ok w) = updated w
of_update (err w) = refused w

-- The code's operation, by name.
unfoldable pub step_word : Op → ℕ → Option (Output ℕ × ℕ)
step_word runs s = transition_to_running s >>= λ r. some (nothing, r.1)
step_word idles s = transition_to_idle s >>= λ r. some (idled r.0, r.1)
step_word completes s = transition_to_complete s >>= λ r. some (snapshot r.0, r.1)
step_word notifies_remotely s =
    transition_to_notified_without_submit s >>= λ r. some (flag r.0, r.1)
step_word notifies s = transition_to_notified s >>= λ r. some (notified r.0, r.1)
step_word drops_interest s = unset_join_interest s >>= λ r. some (of_update r.0, r.1)
step_word sets_waker s = set_waker s >>= λ r. some (of_update r.0, r.1)
step_word unsets_waker s = unset_waker s >>= λ r. some (of_update r.0, r.1)
step_word drops_fast s = some (flag (drop_join_handle_fast s).0, (drop_join_handle_fast s).1)
step_word increments s = ref_inc s >>= λ s'. some (nothing, s')
step_word decrements s = ref_dec s >>= λ r. some (flag r.0, r.1)

-- The state of a new task: notified, with a join handle, and referred to by it and by the task.
abbrev pub fresh : View
fresh = record {
  running = false;
  complete = false;
  notified = true;
  interest = true;
  waker = false;
  refs = 2;
}

abbrev pub is_fresh : View → Bool
is_fresh v =
    not v.running && not v.complete && v.notified && v.interest && not v.waker && v.refs == 2

-- Refused with the same state where the task is complete.
abbrev pub unless_complete : View → View → Output View × View
unless_complete v w = if v.complete then (refused v, v) else (updated w, w)

unfoldable pub step_view : Op → View → Option (Output View × View)
step_view runs v =
    assert (v.notified && not (v.running || v.complete))
    >> some (nothing, record v { running = true; notified = false })
step_view idles v =
    assert v.running
    >> some (idled (if v.notified then idle_notified else idle), record v { running = false })
step_view completes v =
    let w = record v { running = false; complete = true } in
    assert (v.running && not v.complete) >> some (snapshot w, w)
step_view notifies_remotely v =
    some (
      flag (v.running || v.complete || v.notified),
      record v { notified = v.running || v.notified },
    )
step_view notifies v = some (
    if v.running || v.complete || v.notified
    then (notified do_nothing, record v { notified = v.running || v.notified })
    else (notified submit, record v { notified = true }))
step_view drops_interest v =
    assert v.interest >> some (unless_complete v (record v { interest = false }))
step_view sets_waker v =
    assert (v.interest && not v.waker) >> some (unless_complete v (record v { waker = true }))
step_view unsets_waker v =
    assert (v.interest && v.waker) >> some (unless_complete v (record v { waker = false }))
step_view drops_fast v =
    some
      (if is_fresh v then (flag true, record v { interest = false; refs = 1 }) else (flag false, v))
step_view increments v =
    if ltb v.refs (2 ^ 58) then some (nothing, record v { refs = v.refs + 1 }) else none
step_view decrements v =
    if v.refs == 0 then none else some (flag (v.refs == 1), record v { refs = v.refs - 1 })
