-- ===== src/Task/Refinement.antt =====
-- runtime/src/task/state.rs: the operations on the word do what they say on the flags and the count.
use fairy.Prelude.{ℕ, ◌≡◌, true, false, Option, some, ◌>>=◌, arith}
use fairy.Task.View.{
  View, encode, Fits, is_running-encode, set_running-encode, unset_running-encode,
  is_complete-encode, is_notified-encode, is_join_interested-encode, has_join_waker-encode,
  set_notified-encode, set_join_waker-encode, unset_notified-encode, unset_join_interested-encode,
  unset_join_waker-encode, is_idle-encode, ref_count-encode, xor_lifecycle, encode-add_ref,
  encode-sub_ref, encode_bounds, encode-initial, encode-detached,
}
use fairy.Task.Transitions.{
  to_running, to_idle, to_notified_without_submit, to_notified, unset_interest_update,
  set_waker_update, unset_waker_update, transition_to_running, transition_to_idle,
  transition_to_complete, transition_to_notified_without_submit, transition_to_notified,
  unset_join_interest, set_waker, unset_waker, drop_join_handle_fast, ref_inc, ref_dec,
}
use fairy.Task.Spec.{
  Op, runs, idles, completes, notifies_remotely, notifies, drops_interest, sets_waker, unsets_waker,
  drops_fast, increments, decrements, Output, nothing, idled, notified, flag, snapshot, updated,
  refused, step_word, step_view,
}

-- A view's output and state, as words.
abbrev pub encode_output : Output View → Output ℕ
encode_output nothing = nothing
encode_output (idled t) = idled t
encode_output (notified t) = notified t
encode_output (flag b) = flag b
encode_output (snapshot v) = snapshot (encode v)
encode_output (updated v) = updated (encode v)
encode_output (refused v) = refused (encode v)

abbrev pub encode_result : Option (Output View × View) → Option (Output ℕ × ℕ)
encode_result r = r >>= λ p. some (encode_output p.0, encode p.1)

module _ (v : View) (h : Fits v) where
  runs_lem : step_word runs (encode v) ≡ encode_result (step_view runs v)
  unfolding step_word step_view transition_to_running to_running
  runs_lem = ground (
    arith,
    is_notified-encode v,
    is_idle-encode v,
    set_running-encode v,
    unset_notified-encode (record v { running = true }) h,
  )

  idles_lem : step_word idles (encode v) ≡ encode_result (step_view idles v)
  unfolding step_word step_view transition_to_idle to_idle
  idles_lem = ground (
    arith,
    is_running-encode v,
    unset_running-encode v h,
    is_notified-encode (record v { running = false }),
  )

  completes_lem : step_word completes (encode v) ≡ encode_result (step_view completes v)
  unfolding step_word step_view transition_to_complete
  completes_lem = ground (arith, is_running-encode v, is_complete-encode v, xor_lifecycle v)

  notifies_remotely_lem :
      step_word notifies_remotely (encode v) ≡ encode_result (step_view notifies_remotely v)
  unfolding step_word step_view transition_to_notified_without_submit to_notified_without_submit
  notifies_remotely_lem = ground (
    arith,
    is_running-encode v,
    is_complete-encode v,
    is_notified-encode v,
    set_notified-encode v,
  )

  notifies_lem : step_word notifies (encode v) ≡ encode_result (step_view notifies v)
  unfolding step_word step_view transition_to_notified to_notified
  notifies_lem = ground (
    arith,
    is_running-encode v,
    is_complete-encode v,
    is_notified-encode v,
    set_notified-encode v,
  )

  drops_interest_lem :
      step_word drops_interest (encode v) ≡ encode_result (step_view drops_interest v)
  unfolding step_word step_view unset_join_interest unset_interest_update
  drops_interest_lem =
      ground
        (arith, is_join_interested-encode v, is_complete-encode v, unset_join_interested-encode v h)

  sets_waker_lem : step_word sets_waker (encode v) ≡ encode_result (step_view sets_waker v)
  unfolding step_word step_view set_waker set_waker_update
  sets_waker_lem = ground (
    arith,
    is_join_interested-encode v,
    has_join_waker-encode v,
    is_complete-encode v,
    set_join_waker-encode v,
  )

  unsets_waker_lem : step_word unsets_waker (encode v) ≡ encode_result (step_view unsets_waker v)
  unfolding step_word step_view unset_waker unset_waker_update
  unsets_waker_lem = ground (
    arith,
    is_join_interested-encode v,
    has_join_waker-encode v,
    is_complete-encode v,
    unset_join_waker-encode v h,
  )

  drops_fast_lem : step_word drops_fast (encode v) ≡ encode_result (step_view drops_fast v)
  unfolding step_word step_view drop_join_handle_fast
  drops_fast_lem = ground (arith, encode-initial v, encode-detached)

  increments_lem : step_word increments (encode v) ≡ encode_result (step_view increments v)
  unfolding step_word step_view ref_inc
  increments_lem = ground (arith, encode-add_ref v, encode_bounds v)

  decrements_lem : step_word decrements (encode v) ≡ encode_result (step_view decrements v)
  unfolding step_word step_view ref_dec
  decrements_lem = ground (arith, ref_count-encode v h, encode-sub_ref v, encode_bounds v)

-- Each operation on the word of a view returns, panics and writes as its specification does on the
-- flags and the count, for every count that fits.
pub step_word-refines-step_view :
    (op : Op) (v : View) → Fits v → step_word op (encode v) ≡ encode_result (step_view op v)
step_word-refines-step_view runs v h = runs_lem v h
step_word-refines-step_view idles v h = idles_lem v h
step_word-refines-step_view completes v h = completes_lem v h
step_word-refines-step_view notifies_remotely v h = notifies_remotely_lem v h
step_word-refines-step_view notifies v h = notifies_lem v h
step_word-refines-step_view drops_interest v h = drops_interest_lem v h
step_word-refines-step_view sets_waker v h = sets_waker_lem v h
step_word-refines-step_view unsets_waker v h = unsets_waker_lem v h
step_word-refines-step_view drops_fast v h = drops_fast_lem v h
step_word-refines-step_view increments v h = increments_lem v h
step_word-refines-step_view decrements v h = decrements_lem v h
