-- ===== src/Task/Ownership/Joining.antt =====
-- runtime/src/task/{harness,join}.rs: what a poll of the join handle does to a task in use.
use fairy.Prelude.{
  ℕ, ◌≡◌, ◌⊎◌, inl, inr, Bool, true, false, Option, none, some, arith, refl, Bool-cases,
}
use fairy.Task.View.{
  View, encode, is_join_interested-encode, has_join_waker-encode, is_complete-encode,
}
use fairy.Task.Words.{set_waker-encode, unset_waker-encode}
use fairy.Task.Cell.{
  Stage, running, finished, consumed, Machine, done, ◌>>=◌, set_stage, take_output, set_waker,
  will_wake,
}
use fairy.Task.Harness.{
  set_join_waker, replace_join_waker, store_join_waker, can_read_output, try_read_output,
}
use fairy.Task.Handles.{set_read}
use fairy.Task.Ownership.{Live, Next, Safe, Safe_then, IsFinished, IsSome}

module _ {F O W : Type 0} (me : ℕ) (current : Option ℕ) where
  module _ (same : W → W → Bool) (held : ℕ) (v : View) (m : Machine F O W)
      (g : Live me current held v m) where
    abbrev joined_by : W → Machine F O W
    joined_by waker = record m {
      cell = record m.cell { state = encode (record v { waker = true }); waker = some waker };
    }

    store_lem :
        (waker : W)
        → m.handle ≡ true
        → v.complete ≡ false
        → v.waker ≡ false
        → store_join_waker same waker (encode v) m ≡ done (joined_by waker) false
    unfolding store_join_waker set_join_waker set_waker
    store_lem waker h c w = ground (
      arith,
      g.allocated,
      g.word,
      g.interested h,
      set_waker-encode v,
      is_join_interested-encode v,
      has_join_waker-encode v,
    )

    replace_lem :
        (waker : W)
        → m.handle ≡ true
        → v.complete ≡ false
        → v.waker ≡ true
        → replace_join_waker same waker m ≡ done (joined_by waker) false
    unfolding replace_join_waker set_join_waker set_waker
    replace_lem waker h c w = ground (
      arith,
      g.allocated,
      g.word,
      g.interested h,
      unset_waker-encode v (omega (arith, g.small)),
      set_waker-encode (record v { waker = false }),
      is_join_interested-encode (record v { waker = false }),
      has_join_waker-encode (record v { waker = false }),
    )

    -- The stored waker, which the bit of the state promises.
    stored_lem : (o : Option W) → IsSome o → (w : W) × (o ≡ some w)
    stored_lem none h = absurd h
    stored_lem (some w) h = (w, refl)

    finished_lem : (s : Stage F O) → IsFinished s → (output : O) × (s ≡ finished output)
    finished_lem (running future) h = absurd h
    finished_lem (finished output) h = (output, refl)
    finished_lem consumed h = absurd h

    -- A poll of the join handle is pending until the task is complete, and then leaves the waker that
    -- it came with, or one that wakes the same task.
    pub pending_lem :
        (waker : W)
        → m.handle ≡ true
        → v.complete ≡ false
        → (try_read_output same waker m ≡ done (joined_by waker) none)
          ⊎ ((try_read_output same waker m ≡ done m none)
              × ((stored : W) × (m.cell.waker ≡ some stored)
                  × (same stored waker ≡ true)
                  × (v.waker ≡ true)))
    unfolding try_read_output can_read_output will_wake
    pending_lem waker h c = elim (Bool-cases v.waker) [
      | inl w ↦
          let (stored, s) = stored_lem m.cell.waker (g.stored w) in
          elim (Bool-cases (same stored waker)) [
            | inl k ↦ inr (
              ground (
                arith,
                g.allocated,
                g.word,
                g.interested h,
                is_join_interested-encode v,
                has_join_waker-encode v,
                is_complete-encode v,
              ),
              (stored, s, k, w),
            )
            | inr k ↦ inl (
                ground (
                  arith,
                  g.allocated,
                  g.word,
                  g.interested h,
                  is_join_interested-encode v,
                  has_join_waker-encode v,
                  is_complete-encode v,
                  replace_lem waker h c w,
                ))
          ]
      | inr w ↦ inl (
          ground (
            arith,
            g.allocated,
            g.word,
            g.interested h,
            is_join_interested-encode v,
            has_join_waker-encode v,
            is_complete-encode v,
            store_lem waker h c w,
          ))
    ]

    abbrev consumed_from : Machine F O W
    consumed_from = record m { cell = record m.cell { stage = consumed } }

    pub ready_lem :
        (waker : W)
        → m.handle ≡ true
        → m.unread ≡ true
        → v.complete ≡ true
        → (output : O) × (m.cell.stage ≡ finished output)
          × (try_read_output same waker m ≡ done consumed_from (some output))
    unfolding try_read_output can_read_output take_output set_stage
    ready_lem waker h u c =
        let (output, s) = finished_lem m.cell.stage (g.output c h u) in
        (
          output,
          s,
          ground (
            arith,
            g.allocated,
            g.word,
            g.interested h,
            is_join_interested-encode v,
            is_complete-encode v,
          ),
        )

    pub joins-Safe :
        (waker : W)
        → m.handle ≡ true
        → m.unread ≡ true
        → Safe ((try_read_output same waker >>= set_read) m) (λ _. Next me current held v)
    joins-Safe waker h u = elim (Bool-cases v.complete) [
      | inl c ↦
          let (output, s, e) = ready_lem waker h u c in
          Safe_then set_read _ e (v, ground (arith, g), refl, refl)
      | inr c ↦ elim (pending_lem waker h c) [
        | inl e ↦ Safe_then set_read _ e (record v { waker = true }, ground (arith, g), refl, refl)
        | inr (e, k) ↦ Safe_then set_read _ e (v, g, refl, refl)
      ]
    ]
