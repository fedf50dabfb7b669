-- ===== src/Task/Ownership/Waking.antt =====
-- runtime/src/task/harness.rs: what wakes and dropped references do to a task in use.
use fairy.Prelude.{
  ℕ, suc, ◌+◌, ◌-◌, ◌≤◌, ◌^◌, ◌≡◌, inl, inr, true, false, Option, [], ◌∷◌, ◌++◌, ◌==◌, arith, refl,
  sym, leb, Bool-cases,
}
use mathlib.Core.Path.{subst}
use fairy.Task.View.{View, encode, bit}
use fairy.Task.Words.{is_settled, marked, notified-encode, ref_inc-encode, ref_dec-encode}
use fairy.Task.Cell.{Machine, done, aborts}
use fairy.Task.Harness.{increment, dealloc, drop_reference, schedule, wake_by_val, wake_by_ref}
use fairy.Task.Ownership.{Live, Next, After, Safe, Safe_eq, Safe_aborts, count-snoc}

module _ {F O W : Type 0} where
  abbrev pub with_state : Machine F O W → ℕ → Machine F O W
  with_state m w = record m { cell = record m.cell { state = w } }

module _ {F O W : Type 0} (me : ℕ) (current : Option ℕ) where
  abbrev queued_again : View → Machine F O W → ℕ → Machine F O W
  queued_again v m refs = record m {
    tasks = m.tasks ++ (me ∷ []);
    cell = record m.cell { state = encode (record v { notified = true; refs = refs }) };
  }

  module _ (held : ℕ) (v : View) (m : Machine F O W) where
    -- The task is marked as notified, unless it is complete.
    abbrev pub Woken : Machine F O W → Type 0
    Woken m' =
        (w : View) × Live me current held w m'
        × (w.running ≡ v.running)
        × (w.complete ≡ v.complete)
        × (v.complete ≡ false → w.notified ≡ true)

    pub wake_by_ref-Safe : Live me current held v m → Safe (wake_by_ref me current m) (λ _. Woken)
    unfolding wake_by_ref schedule increment
    wake_by_ref-Safe g = elim (Bool-cases (is_settled v)) [
      | inl e ↦ Safe_eq _ (by_state e) (marked v, ground (arith, g), refl, refl, λ c. ground arith)
      | inr e ↦ elim (Bool-cases (leb (2 ^ 58) v.refs)) [
        | inl o ↦ Safe_aborts _ (by_abort e o)
        | inr o ↦ Safe_eq _ (by_queue e o) (
          record v { notified = true; refs = v.refs + 1 },
          ground (arith, g, count-snoc me m.tasks),
          refl,
          refl,
          λ _. refl,
        )
      ]
    ]
      where
        by_state :
            is_settled v ≡ true
            → wake_by_ref me current m ≡ done (with_state m (encode (marked v))) tt
        by_state e = ground (arith, g.allocated, g.word, g.here, notified-encode v)

        by_abort :
            is_settled v ≡ false → leb (2 ^ 58) v.refs ≡ true → wake_by_ref me current m ≡ aborts
        by_abort e o = ground (
          arith,
          g.allocated,
          g.word,
          g.here,
          notified-encode v,
          ref_inc-encode (record v { notified = true }),
        )

        by_queue :
            is_settled v ≡ false
            → leb (2 ^ 58) v.refs ≡ false
            → wake_by_ref me current m ≡ done (queued_again v m (v.refs + 1)) tt
        by_queue e o = ground (
          arith,
          g.allocated,
          g.word,
          g.here,
          notified-encode v,
          ref_inc-encode (record v { notified = true }),
        )

    abbrev unreferred : Machine F O W
    unreferred = with_state m (encode (record v { refs = v.refs - 1 }))

    -- A reference that is given up: the cell is deallocated with the last one.
    pub drop_reference-Safe :
        Live me current (suc held) v m
        → bit v.running ≤ held
        → Safe (drop_reference m) (λ _. After me current held v)
    unfolding drop_reference dealloc
    drop_reference-Safe g b = elim (Bool-cases (v.refs == 1)) [
      | inl e ↦ Safe_eq _ (last e) (inr (ground (arith, g)))
      | inr e ↦
          Safe_eq _ (more e) (inl (record v { refs = v.refs - 1 }, ground (arith, g), refl, refl))
    ]
      where
        last :
            (v.refs == 1) ≡ true → drop_reference m ≡ done (record (unreferred) { freed = true }) tt
        last e = ground (arith, g.allocated, g.word, ref_dec-encode v (omega (arith, g)) g.referred)

        more : (v.refs == 1) ≡ false → drop_reference m ≡ done (unreferred) tt
        more e = ground (arith, g.allocated, g.word, ref_dec-encode v (omega (arith, g)) g.referred)

    -- A waker that is cloned, as its owner counts it.
    pub increment-Safe :
        Live me current held v m
        → Safe (increment m) (λ _ m'. Next me current held v (record m' { wakers = suc m'.wakers }))
    unfolding increment
    increment-Safe g = elim (Bool-cases (leb (2 ^ 58) v.refs)) [
      | inl o ↦ Safe_aborts _ (full o)
      | inr o ↦ Safe_eq _ (room o) (record v { refs = v.refs + 1 }, ground (arith, g), refl, refl)
    ]
      where
        full : leb (2 ^ 58) v.refs ≡ true → increment m ≡ aborts
        full o = ground (arith, g.allocated, g.word, ref_inc-encode v)

        room :
            leb (2 ^ 58) v.refs ≡ false
            → increment m ≡ done (with_state m (encode (record v { refs = v.refs + 1 }))) tt
        room o = ground (arith, g.allocated, g.word, ref_inc-encode v)

  module _ (held : ℕ) (v : View) (m : Machine F O W) where
    -- A wake that gives up its waker.
    pub wake_by_val-Safe :
        Live me current (suc held) v m
        → bit v.running ≤ held
        → Safe (wake_by_val me current m) (λ _. After me current held v)
    unfolding wake_by_val schedule
    wake_by_val-Safe g b = elim (Bool-cases (is_settled v)) [
      | inl e ↦
          subst (λ c. Safe c (λ _. After me current held v)) (sym (by_state e))
            (drop_reference-Safe held (marked v) (with_state m (encode (marked v)))
              (ground (arith, g)) b)
      | inr e ↦
          Safe_eq _ (by_queue e) (
            inl
              (record v { notified = true }, ground (arith, g, count-snoc me m.tasks), refl, refl))
    ]
      where
        by_state :
            is_settled v ≡ true
            → wake_by_val me current m ≡ drop_reference (with_state m (encode (marked v)))
        by_state e = ground (arith, g.allocated, g.word, g.here, notified-encode v)

        by_queue :
            is_settled v ≡ false → wake_by_val me current m ≡ done (queued_again v m v.refs) tt
        by_queue e = ground (arith, g.allocated, g.word, g.here, notified-encode v)
