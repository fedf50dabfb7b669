-- ===== src/Task/Words.antt =====
-- runtime/src/task/state.rs: what each operation writes on the word of a view.
use fairy.Prelude.{
  ◌+◌, ◌-◌, ◌^◌, ◌<◌, ◌≡◌, Bool, true, false, ◌||◌, none, some, ◌==◌, leb, arith, if◌then◌else◌,
}
use fairy.Task.View.{
  View, encode, Fits, is_running-encode, set_running-encode, unset_running-encode,
  is_complete-encode, is_notified-encode, is_join_interested-encode, has_join_waker-encode,
  set_notified-encode, set_join_waker-encode, unset_notified-encode, unset_join_interested-encode,
  unset_join_waker-encode, is_idle-encode, ref_count-encode, xor_lifecycle, encode-add_ref,
  encode-sub_ref, encode_bounds, encode-initial, encode-detached,
}
use fairy.Task.Transitions.{
  idle, idle_notified, do_nothing, submit, ok, err, to_running, to_idle, to_notified_without_submit,
  to_notified, unset_interest_update, set_waker_update, unset_waker_update, transition_to_running,
  transition_to_idle, transition_to_complete, transition_to_notified_without_submit,
  transition_to_notified, unset_join_interest, set_waker, unset_waker, drop_join_handle_fast,
  ref_inc, ref_dec,
}
use fairy.Task.Spec.{is_fresh}

-- Whether a wake is settled by the state as it is.
abbrev pub is_settled : View → Bool
is_settled v = v.running || v.complete || v.notified

abbrev pub marked : View → View
marked v = record v { notified = v.running || v.notified }

module _ (v : View) where
  pub notified-encode :
      transition_to_notified (encode v)
      ≡ some (
          if is_settled v
          then (do_nothing, encode (marked v))
          else (submit, encode (record v { notified = true })))
  unfolding transition_to_notified to_notified
  notified-encode = ground (
    arith,
    is_running-encode v,
    is_complete-encode v,
    is_notified-encode v,
    set_notified-encode v,
  )

  pub notified_without_submit-encode :
      transition_to_notified_without_submit (encode v) ≡ some (is_settled v, encode (marked v))
  unfolding transition_to_notified_without_submit to_notified_without_submit
  notified_without_submit-encode = ground (
    arith,
    is_running-encode v,
    is_complete-encode v,
    is_notified-encode v,
    set_notified-encode v,
  )

  pub set_waker-encode :
      v.interest ≡ true
      → v.waker ≡ false
      → v.complete ≡ false
      → set_waker (encode v)
        ≡ some (ok (encode (record v { waker = true })), encode (record v { waker = true }))
  unfolding set_waker set_waker_update
  set_waker-encode i w c = ground (
    arith,
    is_join_interested-encode v,
    has_join_waker-encode v,
    is_complete-encode v,
    set_join_waker-encode v,
  )

  pub ref_inc-encode :
      ref_inc (encode v)
      ≡ (if leb (2 ^ 58) v.refs then none else some (encode (record v { refs = v.refs + 1 })))
  unfolding ref_inc
  ref_inc-encode = ground (arith, encode-add_ref v, encode_bounds v)

module _ (v : View) (h : Fits v) where
  pub running-encode :
      v.notified ≡ true
      → v.running ≡ false
      → v.complete ≡ false
      → transition_to_running (encode v)
        ≡ some (tt, encode (record v { running = true; notified = false }))
  unfolding transition_to_running to_running
  running-encode n r c = ground (
    arith,
    is_notified-encode v,
    is_idle-encode v,
    set_running-encode v,
    unset_notified-encode (record v { running = true }) h,
  )

  pub idle-encode :
      v.running ≡ true
      → transition_to_idle (encode v)
        ≡ some (if v.notified then idle_notified else idle, encode (record v { running = false }))
  unfolding transition_to_idle to_idle
  idle-encode r = ground (
    arith,
    is_running-encode v,
    unset_running-encode v h,
    is_notified-encode (record v { running = false }),
  )

  pub complete-encode :
      v.running ≡ true
      → v.complete ≡ false
      → transition_to_complete (encode v)
        ≡ some (
          encode (record v { running = false; complete = true }),
          encode (record v { running = false; complete = true }),
        )
  unfolding transition_to_complete
  complete-encode r c = ground (arith, is_running-encode v, is_complete-encode v, xor_lifecycle v)

  pub unset_interest-encode :
      v.interest ≡ true
      → unset_join_interest (encode v)
        ≡ some (
            if v.complete then (err (encode v), encode v) else (
              ok (encode (record v { interest = false })),
              encode (record v { interest = false }),
            ))
  unfolding unset_join_interest unset_interest_update
  unset_interest-encode i =
      ground
        (arith, is_join_interested-encode v, is_complete-encode v, unset_join_interested-encode v h)

  pub unset_waker-encode :
      v.interest ≡ true
      → v.waker ≡ true
      → v.complete ≡ false
      → unset_waker (encode v)
        ≡ some (ok (encode (record v { waker = false })), encode (record v { waker = false }))
  unfolding unset_waker unset_waker_update
  unset_waker-encode i w c = ground (
    arith,
    is_join_interested-encode v,
    has_join_waker-encode v,
    is_complete-encode v,
    unset_join_waker-encode v h,
  )

  pub fast-encode : drop_join_handle_fast (encode v) ≡ (
      if is_fresh v
      then (true, encode (record v { interest = false; refs = 1 }))
      else (false, encode v))
  unfolding drop_join_handle_fast
  fast-encode = ground (arith, encode-initial v, encode-detached)

  pub ref_dec-encode :
      0 < v.refs → ref_dec (encode v) ≡ some (v.refs == 1, encode (record v { refs = v.refs - 1 }))
  unfolding ref_dec
  ref_dec-encode p = ground (arith, ref_count-encode v h, encode-sub_ref v, encode_bounds v)
