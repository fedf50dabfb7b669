-- ===== src/Task/Transitions.antt =====
-- runtime/src/task/state.rs: the atomic operations on the state word. Each update that the code makes
-- by a compare-and-swap loop is a function from the word read to the output and the word to write;
-- `Loop` has the loop. Here the operation is its effect on the word that the swap finds.
use Prim.Native.Nat.{bit_and, bit_xor, bit_or}
use fairy.Prelude.{
  ℕ, ◌+◌, ◌-◌, ◌%◌, ◌^◌, Bool, true, false, not, ◌||◌, Option, none, some, leb, ltb, ◌==◌,
  if◌then◌else◌, ◌>>=◌, ◌>>◌, assert,
}
use fairy.Task.State.{
  is_idle, is_notified, is_running, is_complete, is_join_interested, has_join_waker, unset_notified,
  set_notified, set_running, unset_running, unset_join_interested, set_join_waker, unset_join_waker,
  ref_count, initial_state, complement, isize_max, ref_one, join_interest, running, complete,
}

pub data TransitionToIdle : Type 0 where
  idle idle_notified : TransitionToIdle

pub data TransitionToNotified : Type 0 where
  do_nothing submit : TransitionToNotified

-- `Result<Snapshot, Snapshot>`
pub data UpdateResult : Type 0 where
  ok err : ℕ → UpdateResult

-- The closures of `fetch_update_action` and, by `as_action`, of `fetch_update`.
abbrev pub Action : Type 0 → Type 0
Action T = ℕ → Option (T × Option ℕ)

abbrev pub as_action : (ℕ → Option (Option ℕ)) → Action UpdateResult
as_action f curr =
    f curr >>= λ next. elim next [ none ↦ some (err curr, none) | some w ↦ some (ok w, some w) ]

-- The output, and the word after the update.
abbrev pub written : ℕ → Option ℕ → ℕ
written old none = old
written old (some w) = w

abbrev pub atomically : {T : Type 0} → Action T → ℕ → Option (T × ℕ)
atomically f s = f s >>= λ r. some (r.0, written s r.1)

unfoldable pub to_running : Action (Unit {0})
to_running curr =
    assert (is_notified curr)
    >> assert (is_idle curr)
    >> some (tt, some (unset_notified (set_running curr)))

unfoldable pub to_idle : Action TransitionToIdle
to_idle curr =
    assert (is_running curr)
    >> (let next = unset_running curr in
        some (if is_notified next then idle_notified else idle, some next))

unfoldable pub to_notified_without_submit : Action Bool
to_notified_without_submit curr = some (
    if is_running curr
    then (true, some (set_notified curr))
    else if is_complete curr || is_notified curr
    then (true, some curr)
    else (false, some curr))

unfoldable pub to_notified : Action TransitionToNotified
to_notified curr = some (
    if is_running curr
    then (do_nothing, some (set_notified curr))
    else if is_complete curr || is_notified curr
    then (do_nothing, some curr)
    else (submit, some (set_notified curr)))

unfoldable pub unset_interest_update : ℕ → Option (Option ℕ)
unset_interest_update curr =
    assert (is_join_interested curr)
    >> some (if is_complete curr then none else some (unset_join_interested curr))

unfoldable pub set_waker_update : ℕ → Option (Option ℕ)
set_waker_update curr =
    assert (is_join_interested curr)
    >> assert (not (has_join_waker curr))
    >> some (if is_complete curr then none else some (set_join_waker curr))

unfoldable pub unset_waker_update : ℕ → Option (Option ℕ)
unset_waker_update curr =
    assert (is_join_interested curr)
    >> assert (has_join_waker curr)
    >> some (if is_complete curr then none else some (unset_join_waker curr))

unfoldable pub transition_to_running : ℕ → Option (Unit {0} × ℕ)
transition_to_running = atomically to_running

unfoldable pub transition_to_idle : ℕ → Option (TransitionToIdle × ℕ)
transition_to_idle = atomically to_idle

-- `fetch_xor`, then the assertions on the word before it.
unfoldable pub transition_to_complete : ℕ → Option (ℕ × ℕ)
transition_to_complete prev =
    let next = bit_xor prev (bit_or running complete) in
    assert (is_running prev) >> assert (not (is_complete prev)) >> some (next, next)

unfoldable pub transition_to_notified_without_submit : ℕ → Option (Bool × ℕ)
transition_to_notified_without_submit = atomically to_notified_without_submit

unfoldable pub transition_to_notified : ℕ → Option (TransitionToNotified × ℕ)
transition_to_notified = atomically to_notified

unfoldable pub unset_join_interest : ℕ → Option (UpdateResult × ℕ)
unset_join_interest = atomically (as_action unset_interest_update)

unfoldable pub set_waker : ℕ → Option (UpdateResult × ℕ)
set_waker = atomically (as_action set_waker_update)

unfoldable pub unset_waker : ℕ → Option (UpdateResult × ℕ)
unset_waker = atomically (as_action unset_waker_update)

-- Whether the fast path applied, and the word.
unfoldable pub drop_join_handle_fast : ℕ → Bool × ℕ
drop_join_handle_fast s =
    if s == initial_state
    then (true, bit_and (initial_state - ref_one) (complement join_interest))
    else (false, s)

-- `none` is the abort of the process.
unfoldable pub ref_inc : ℕ → Option ℕ
ref_inc prev = if ltb isize_max prev then none else some ((prev + ref_one) % 2 ^ 64)

-- Whether the task is to be released, and the word.
unfoldable pub ref_dec : ℕ → Option (Bool × ℕ)
ref_dec prev =
    assert (leb 1 (ref_count prev))
    >> some (ref_count prev == 1, (prev + 2 ^ 64 - ref_one) % 2 ^ 64)
