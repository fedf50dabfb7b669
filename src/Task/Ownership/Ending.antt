-- ===== src/Task/Ownership/Ending.antt =====
-- runtime/src/task/harness.rs: the start of a poll of the task, and what follows it: the task is idle,
-- in the queue again, or complete.
use fairy.Prelude.{
  ℕ, suc, ◌+◌, ◌^◌, ◌≡◌, inl, inr, true, false, Option, none, some, List, ◌∷◌, arith, refl,
  Bool-cases, leb,
}
use fairy.Task.Transitions.{transition_to_running}
use fairy.Task.View.{View, encode, is_join_interested-encode, has_join_waker-encode}
use fairy.Task.Words.{running-encode, idle-encode, complete-encode, ref_inc-encode}
use fairy.Task.Cell.{
  Stage, finished, consumed, Machine, done, aborts, ◌>>◌, on_state, set_stage,
  drop_future_or_output, wake_join,
}
use fairy.Task.Harness.{increment, yield_now, complete}
use fairy.Task.Handles.{PollFuture, to_idle}
use fairy.Task.Ownership.{Live, Safe, Safe_eq, Safe_aborts, IsSome, count}
use fairy.Task.Ownership.Waking.{with_state}

some_lem : {W : Type 0} (o : Option W) → IsSome o → (w : W) × (o ≡ some w)
some_lem none h = absurd h
some_lem (some w) h = (w, refl)

module _ {F O W : Type 0} where
  abbrev pub staged : Machine F O W → Stage F O → Machine F O W
  staged m stage = record m { cell = record m.cell { stage = stage } }

module _ {F O W : Type 0} (me : ℕ) (current : Option ℕ) where
  -- The task while its future is polled, and after it.
  abbrev pub Busy : View → Machine F O W → Type 0
  Busy v m = Live me current 1 v m × (v.running ≡ true)

  abbrev pub Ran : PollFuture → Machine F O W → Type 0
  Ran PollFuture.complete m =
      (v : View) × (m₀ : Machine F O W) × (output : O) × Busy v m₀
      × (m ≡ staged m₀ (finished output))
  Ran PollFuture.notified m =
      (v : View) × (m₀ : Machine F O W) × Busy v m₀
      × (v.notified ≡ true)
      × (m ≡ with_state m₀ (encode (record v { running = false })))
  Ran PollFuture.pending m = (v : View) × Live me current 1 v m × (v.running ≡ false)

  module _ (v : View) (m : Machine F O W) where
    -- The word of a task that leaves the queue is that of a task to run.
    pub start_lem :
        Live me current 0 v m
        → (rest : List ℕ) → suc (count me rest) ≡ count me m.tasks
        → (on_state transition_to_running (record m { tasks = rest })
            ≡ done
                (record m {
                  tasks = rest;
                  cell = record m.cell {
                    state = encode (record v { running = true; notified = false });
                  };
                })
                tt)
          × Busy
              (record v { running = true; notified = false })
              (record m {
                tasks = rest;
                cell = record m.cell {
                  state = encode (record v { running = true; notified = false });
                };
              })
    start_lem g rest e = (
      ground (
        arith,
        g,
        running-encode v (omega (arith, g.small)) (ground (arith, g)) (ground (arith, g))
            (ground (arith, g)),
      ),
      (ground (arith, g), refl),
    )

    module _ (g : Live me current 1 v m) (r : v.running ≡ true) where
      pub to_idle-Safe : Safe (to_idle m) Ran
      to_idle-Safe = elim (Bool-cases v.notified) [
        | inl n ↦ Safe_eq _ (again n) (v, m, (g, r), n, refl)
        | inr n ↦ Safe_eq _ (quiet n) (record v { running = false }, ground (arith, g), refl)
      ]
        where
          again :
              v.notified ≡ true
              → to_idle m
                ≡ done (with_state m (encode (record v { running = false }))) PollFuture.notified
          again n = ground (arith, g.allocated, g.word, idle-encode v (omega (arith, g.small)) r)

          quiet :
              v.notified ≡ false
              → to_idle m
                ≡ done (with_state m (encode (record v { running = false }))) PollFuture.pending
          quiet n = ground (arith, g.allocated, g.word, idle-encode v (omega (arith, g.small)) r)

      -- A task woken during its poll goes to the front of the queue.
      pub again-Safe :
          v.notified ≡ true
          → Safe
              ((increment >> yield_now me) (with_state m (encode (record v { running = false }))))
              (λ _ m'. Ran PollFuture.pending m')
      unfolding increment yield_now
      again-Safe n = elim (Bool-cases (leb (2 ^ 58) v.refs)) [
        | inl o ↦ Safe_aborts _ (full o)
        | inr o ↦
            Safe_eq _ (room o)
              (record v { running = false; refs = v.refs + 1 }, ground (arith, g), refl)
      ]
        where
          full :
              leb (2 ^ 58) v.refs ≡ true
              → (increment >> yield_now me) (with_state m (encode (record v { running = false })))
                ≡ aborts
          full o = ground (arith, g.allocated, ref_inc-encode (record v { running = false }))

          room :
              leb (2 ^ 58) v.refs ≡ false
              → (increment >> yield_now me) (with_state m (encode (record v { running = false })))
                ≡ done
                    (record m {
                      tasks = me ∷ m.tasks;
                      cell = record m.cell {
                        state = encode (record v { running = false; refs = v.refs + 1 });
                      };
                    })
                    tt
          room o = ground (arith, g.allocated, ref_inc-encode (record v { running = false }))

      abbrev completed : Stage F O → List W → Machine F O W
      completed stage woken = record m {
        woken = woken;
        cell = record m.cell {
          state = encode (record v { running = false; complete = true });
          stage = stage;
        };
      }

      -- A task that completes drops its output if no one is interested, and else wakes who waits.
      pub complete-Safe :
          (output : O)
          → Safe (complete (staged m (finished output))) (λ _ m'. Ran PollFuture.pending m')
      unfolding complete drop_future_or_output set_stage wake_join
      complete-Safe output = elim (Bool-cases v.interest) [
        | inr i ↦
            Safe_eq {m = completed consumed m.woken} _ (dropped i)
              (record v { running = false; complete = true }, ground (arith, g), refl)
        | inl i ↦ elim (Bool-cases v.waker) [
          | inr w ↦
              Safe_eq {m = completed (finished output) m.woken} _ (silent i w)
                (record v { running = false; complete = true }, ground (arith, g), refl)
          | inl w ↦
              let (waker, s) = some_lem m.cell.waker (g.stored w) in
              Safe_eq {m = completed (finished output) (waker ∷ m.woken)} _ (woken i w waker s)
                (record v { running = false; complete = true }, ground (arith, g), refl)
        ]
      ]
        where
          incomplete : v.complete ≡ false
          incomplete = ground (arith, g, r)

          dropped :
              v.interest ≡ false
              → complete (staged m (finished output)) ≡ done (completed consumed m.woken) tt
          dropped i = ground (
            arith,
            g.allocated,
            g.word,
            complete-encode v (omega (arith, g.small)) r incomplete,
            is_join_interested-encode (record v { running = false; complete = true }),
          )

          silent :
              v.interest ≡ true
              → v.waker ≡ false
              → complete (staged m (finished output))
                ≡ done (completed (finished output) m.woken) tt
          silent i w = ground (
            arith,
            g.allocated,
            g.word,
            complete-encode v (omega (arith, g.small)) r incomplete,
            is_join_interested-encode (record v { running = false; complete = true }),
            has_join_waker-encode (record v { running = false; complete = true }),
          )

          woken :
              v.interest ≡ true
              → v.waker ≡ true
              → (waker : W) → m.cell.waker ≡ some waker
              → complete (staged m (finished output))
                ≡ done (completed (finished output) (waker ∷ m.woken)) tt
          woken i w waker s = ground (
            arith,
            g.allocated,
            g.word,
            complete-encode v (omega (arith, g.small)) r incomplete,
            is_join_interested-encode (record v { running = false; complete = true }),
            has_join_waker-encode (record v { running = false; complete = true }),
          )
