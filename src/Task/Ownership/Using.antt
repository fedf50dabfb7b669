-- ===== src/Task/Ownership/Using.antt =====
-- runtime/src/task/{waker,join}.rs: every use of a waker or of the join handle keeps a task in order.
use fairy.Prelude.{
  ℕ, zero, suc, ◌-◌, ◌≡◌, inl, inr, Bool, false, ◌&&◌, Option, List, [], ◌∷◌, ◌==◌, arith, refl,
  ◌∙◌,
}
use fairy.Task.State.{is_complete}
use fairy.Task.View.{View}
use fairy.Task.Cell.{Machine, Effect, done, skip}
use fairy.Task.Harness.{increment}
use fairy.Task.Handles.{
  Use, clones, drops, detaches, checks, wakes, wakes_by_ref, joins, use_task, use_all, is_finished,
  with_context, gain_waker,
}
use fairy.Task.Ownership.{
  Live, Gone, Next, After, Safe, Safe_eq, Safe_then, Safe->>=, Safe-if, Safe-mono,
}
use fairy.Task.Ownership.Waking.{
  Woken, increment-Safe, drop_reference-Safe, wake_by_val-Safe, wake_by_ref-Safe,
}
use fairy.Task.Ownership.Joining.{joins-Safe}
use fairy.Task.Ownership.Detaching.{drop_join_handle-Safe}

module _ {F O W : Type 0} (me : ℕ) (current : Option ℕ) where
  module _ (same : W → W → Bool) (held : ℕ) (v : View) where
    abbrev Kept : Unit {0} → Machine F O W → Type 0
    Kept _ = After me current held v

    module _ (m : Machine F O W) (g : Live me current held v m) where
      weaken : (c : Effect F O W (Unit {0})) → Safe c (λ _. Next me current held v) → Safe c Kept
      weaken c s = Safe-mono c s (λ _ _ p. inl p)

      -- The waker that is given up, held by the code that gives it up.
      abbrev less : Machine F O W
      less = record m { wakers = m.wakers - 1 }

      less-Live : (m.wakers == 0) ≡ false → Live me current (suc held) v less
      less-Live e = ground (arith, g)

      use_live : (u : Use W) → Safe (use_task me current same u m) Kept
      unfolding use_task is_finished
      use_live clones =
          Safe-if (m.wakers == 0) _ _ Kept (λ _. inl (v, g, refl, refl))
            λ e.
              Safe->>= (increment m) (λ _. gain_waker) _ Kept (increment-Safe me current held v m g)
                (λ a m' p. inl p)
      use_live drops =
          Safe-if (m.wakers == 0) _ _ Kept (λ _. inl (v, g, refl, refl))
            λ e. drop_reference-Safe me current held v less (less-Live e) g.busy
      use_live wakes =
          Safe-if (m.wakers == 0) _ _ Kept (λ _. inl (v, g, refl, refl))
            λ e. wake_by_val-Safe me current held v less (less-Live e) g.busy
      use_live wakes_by_ref =
          Safe-if (m.wakers == 0) _ _ Kept (λ _. inl (v, g, refl, refl))
            λ e.
              Safe-mono _ {P = λ _. Woken me current held v m}
                (wake_by_ref-Safe me current held v m g) λ _ m' (w, h, r, c, n). inl (w, h, r, c)
      use_live (joins waker) =
          Safe-if (m.handle && m.unread) _ _ Kept
            (λ e.
              weaken _ (joins-Safe me current same held v m g waker (ground arith) (ground arith)))
            (λ _. inl (v, g, refl, refl))
      use_live checks =
          Safe-if m.handle _ _ Kept
            (λ e. Safe_then (λ _. skip) Kept finished_lem (inl (v, g, refl, refl)))
            (λ _. inl (v, g, refl, refl))
        where
          finished_lem : is_finished m ≡ done m (is_complete m.cell.state)
          finished_lem = ground (arith, g.allocated)
      use_live detaches =
          Safe-if m.handle _ _ Kept (λ e. drop_join_handle-Safe me current held v m g e)
            (λ _. inl (v, g, refl, refl))

    -- A task that is deallocated has no waker and no handle left to use.
    use-Gone :
        (m : Machine F O W)
        → Gone me current held m
        → (u : Use W) → use_task me current same u m ≡ done m tt
    unfolding use_task
    use-Gone m g clones = ground (arith, g)
    use-Gone m g drops = ground (arith, g)
    use-Gone m g wakes = ground (arith, g)
    use-Gone m g wakes_by_ref = ground (arith, g)
    use-Gone m g (joins waker) = ground (arith, g)
    use-Gone m g checks = ground (arith, g)
    use-Gone m g detaches = ground (arith, g)

    moved :
        (w : View)
        → w.running ≡ v.running
        → w.complete ≡ v.complete
        → (m : Machine F O W) → After me current held w m
        → After me current held v m
    moved w r c m (inl (x, g, p, q)) = inl (x, g, p ∙ r, q ∙ c)
    moved w r c m (inr g) = inr g

  module _ (same : W → W → Bool) (held : ℕ) (v : View) where
    pub use_task-Safe :
        (u : Use W) (m : Machine F O W)
        → After me current held v m
        → Safe (use_task me current same u m) (λ _. After me current held v)
    use_task-Safe u m (inl (w, g, r, c)) =
        Safe-mono _ (use_live same held w m g u) (λ _ m' p. moved same held v w r c m' p)
    use_task-Safe u m (inr g) = Safe_eq _ (use-Gone same held v m g u) (inr g)

    pub use_all-Safe :
        (us : List (Use W)) (m : Machine F O W)
        → After me current held v m
        → Safe (use_all me current same us m) (λ _. After me current held v)
    unfolding use_all
    use_all-Safe [] m p = p
    use_all-Safe (u ∷ us) m p =
        Safe->>= (use_task me current same u m) _ _ _ (use_task-Safe u m p)
          λ _ m' q. use_all-Safe us m' q

  module _ (held : ℕ) where
    -- The wakers that the future clones from its context.
    pub with_context-Safe :
        (n : ℕ) (v : View) (m : Machine F O W)
        → Live me current held v m
        → Safe (with_context n m) (λ _. Next me current held v)
    with_context-Safe zero v m g = (v, g, refl, refl)
    with_context-Safe (suc n) v m g =
        Safe->>= (increment m) _ _ _ (increment-Safe me current held v m g) λ _ m' (w, h, r, c).
          Safe-mono _ {P = λ _. Next me current held w}
            (with_context-Safe n w (record m' { wakers = suc m'.wakers }) h)
            (λ _ m'' (x, k, p, q). (x, k, p ∙ r, q ∙ c))
