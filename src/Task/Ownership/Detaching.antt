-- ===== src/Task/Ownership/Detaching.antt =====
-- runtime/src/task/{harness,join}.rs: what the drop of the join handle does to a task in use.
use fairy.Prelude.{ℕ, ◌≡◌, inl, inr, true, false, Option, arith, refl, sym, Bool-cases}
use mathlib.Core.Path.{subst}
use fairy.Task.View.{View, encode}
use fairy.Task.Words.{unset_interest-encode, fast-encode}
use fairy.Task.Spec.{is_fresh}
use fairy.Task.Cell.{Stage, consumed, Machine, done, set_stage, drop_future_or_output}
use fairy.Task.Harness.{drop_reference, drop_join_handle_slow}
use fairy.Task.Handles.{drop_join_handle}
use fairy.Task.Ownership.{Live, After, Safe, Safe_eq}
use fairy.Task.Ownership.Waking.{drop_reference-Safe}

module _ {F O W : Type 0} (me : ℕ) (current : Option ℕ) where
  -- The drop of the join handle gives up its interest, or the output of a task that is complete, and
  -- its reference.
  module _ (held : ℕ) (v : View) (m : Machine F O W) where
    abbrev unjoined : View → Stage F O → Machine F O W
    unjoined w stage = record m {
      handle = false;
      unread = false;
      cell = record m.cell { state = encode w; stage = stage };
    }

    abbrev loose : Machine F O W
    loose = record m { handle = false; unread = false }

    pub drop_join_handle-Safe :
        Live me current held v m
        → m.handle ≡ true
        → Safe (drop_join_handle loose) (λ _. After me current held v)
    unfolding drop_join_handle drop_join_handle_slow drop_future_or_output set_stage
    drop_join_handle-Safe g h = elim (Bool-cases (is_fresh v)) [
      | inl e ↦
          Safe_eq _ (fast e)
            (inl (record v { interest = false; refs = 1 }, ground (arith, g), refl, refl))
      | inr e ↦ elim (Bool-cases v.complete) [
        | inl c ↦
            subst (λ c. Safe c (λ _. After me current held v)) (sym (after e c))
              (drop_reference-Safe me current held v (unjoined v consumed) (ground (arith, g))
                g.busy)
        | inr c ↦
            subst (λ c. Safe c (λ _. After me current held v)) (sym (before e c))
              (drop_reference-Safe me current held (record v { interest = false })
                (unjoined (record v { interest = false }) m.cell.stage) (ground (arith, g)) g.busy)
      ]
    ]
      where
        fast :
            is_fresh v ≡ true
            → drop_join_handle loose
              ≡ done (unjoined (record v { interest = false; refs = 1 }) m.cell.stage) tt
        fast e = ground (arith, g.allocated, g.word, fast-encode v (omega (arith, g.small)))

        after :
            is_fresh v ≡ false
            → v.complete ≡ true
            → drop_join_handle loose ≡ drop_reference (unjoined v consumed)
        after e c = ground (
          arith,
          g.allocated,
          g.word,
          fast-encode v (omega (arith, g.small)),
          unset_interest-encode v (omega (arith, g.small)) (g.interested h),
        )

        before :
            is_fresh v ≡ false
            → v.complete ≡ false
            → drop_join_handle loose
              ≡ drop_reference (unjoined (record v { interest = false }) m.cell.stage)
        before e c = ground (
          arith,
          g.allocated,
          g.word,
          fast-encode v (omega (arith, g.small)),
          unset_interest-encode v (omega (arith, g.small)) (g.interested h),
        )
