-- ===== src/Uring/Tests.antt =====
-- runtime/src/driver/uring: histories of an operation, and an instance of their law.
use fairy.Prelude.{true, false, ℕ, ◌≡◌, refl, none, some, [], ◌∷◌, ◌==◌}
use fairy.Uring.{
  ok, Operation, polls, drops, completes, submit_with_data, op_poll, op_drop, tick, poll_op,
  drop_op, complete, step, steps,
}
use fairy.Uring.Histories.{Inv, steps-Returns}

-- It is dropped before it completes, and the data is dropped with the completion.
ignored_run :
    steps {W = ℕ} {D = ℕ} ◌==◌ (polls 1 ∷ drops ∷ completes (ok 3) 0 ∷ []) (submit_with_data 9)
    ≡ some (record {
      slot = none;
      index = true;
      data_held = none;
      owned = false;
      in_flight = false;
      woken = [];
      released = 9 ∷ [];
    })
unfolding steps step op_poll op_drop tick poll_op drop_op complete submit_with_data
ignored_run = refl

steps-Returns_example :
    (n : Operation ℕ ℕ) × (steps ◌==◌
        (polls 1 ∷ polls 2 ∷ completes (ok 3) 0 ∷ polls 2 ∷ drops ∷ [])
        (submit_with_data 9)
      ≡ some n)
    × Inv 9 n
steps-Returns_example =
    steps-Returns 9 ◌==◌ (polls 1 ∷ polls 2 ∷ completes (ok 3) 0 ∷ polls 2 ∷ drops ∷ [])
