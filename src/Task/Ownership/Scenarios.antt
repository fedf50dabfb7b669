-- ===== src/Task/Ownership/Scenarios.antt =====
-- runtime/src/task: a countdown as a task, and instances of what holds of every task.
use fairy.Prelude.{
  ℕ, zero, suc, ◌≡◌, ◌↔◌, true, false, Option, none, some, List, [], ◌∷◌, ◌==◌, arith, refl,
}
use fairy.Task.View.{View, encode}
use fairy.Task.Transitions.{drop_join_handle_fast}
use fairy.Task.Cell.{running, Machine, done, new}
use fairy.Task.Harness.{is_remote_task, try_read_output}
use fairy.Task.Handles.{Use, wakes, joins, detaches, drop_join_handle, use_task}
use fairy.Task.Ownership.{uses, executes, turns, count, Live, Inv, Safe, spawned, step, steps}
use fairy.Task.Ownership.Histories.{spawned-Safe, freed_iff}
use fairy.Task.Ownership.Wakeups.{steps-starved}
use fairy.Task.Ownership.Outputs.{joins-executes}

-- It wakes itself until it reaches 0, and then returns 42.
abbrev countdown : ℕ → ℕ × List (Use ℕ) × ℕ × Option ℕ
countdown zero = (0, [], 0, some 42)
countdown (suc n) = (1, wakes ∷ [], n, none)

abbrev restless : ℕ → ℕ × List (Use ℕ) × ℕ × Option ℕ
restless n = (1, wakes ∷ [], n, none)

-- Task 7 of thread 16, behind task 5.
abbrev launched : Machine ℕ ℕ ℕ
launched = spawned 7 16 2 (5 ∷ [])

is_local : is_remote_task 16 (some 16) ≡ false
unfolding is_remote_task
is_local = refl

spawned-Safe_example :
    Safe
      (steps 7
        (some 16)
        ◌==◌
        countdown
        (executes
          ∷ uses (joins 3)
          ∷ executes
          ∷ executes
          ∷ executes
          ∷ uses (joins 3)
          ∷ uses detaches
          ∷ [])
        launched)
      (λ _. Inv {F = ℕ} {O = ℕ} {W = ℕ} 7 (some 16) 0)
spawned-Safe_example = spawned-Safe 7 (some 16) ◌==◌ countdown 2 16 (5 ∷ []) is_local refl _

-- The join handle is dropped before the first poll.
abbrev detached_task : Machine ℕ ℕ ℕ
detached_task = record launched {
  handle = false;
  unread = false;
  cell = record { state = 36; owner_id = 16; stage = running 2; waker = none };
}

detached_run :
    steps 7 (some 16) ◌==◌ countdown (uses detaches ∷ []) launched ≡ done detached_task tt
unfolding steps step use_task drop_join_handle drop_join_handle_fast spawned new
detached_run = refl

freed_iff_example : (detached_task.freed ≡ true) ↔ (
    (count 7 detached_task.tasks ≡ 0) × (detached_task.wakers ≡ 0) × (detached_task.handle ≡ false))
freed_iff_example =
    freed_iff 7 (some 16) ◌==◌ countdown 2 16 (5 ∷ []) is_local refl (uses detaches ∷ [])
      detached_task detached_run

-- A task that is idle, awaited by the waker 3.
abbrev idle_view : View
idle_view = record {
  running = false;
  complete = false;
  notified = false;
  interest = true;
  waker = true;
  refs = 2;
}

abbrev idle_task : Machine ℕ ℕ ℕ
idle_task = record {
  cell = record { state = encode idle_view; owner_id = 16; stage = running 0; waker = some 3 };
  freed = false;
  tasks = 5 ∷ [];
  woken = [];
  wakers = 1;
  handle = true;
  unread = true;
}

idle_task-Live : Live 7 (some 16) 0 idle_view idle_task
idle_task-Live = ground (arith, is_local)

-- The same task after a wake, at the front of the queue.
abbrev ready_view : View
ready_view = record idle_view { notified = true }

abbrev ready_task : Machine ℕ ℕ ℕ
ready_task = record idle_task {
  cell = record { state = encode ready_view; owner_id = 16; stage = running 0; waker = some 3 };
  tasks = 7 ∷ 5 ∷ [];
  wakers = 0;
}

ready_task-Live : Live 7 (some 16) 0 ready_view ready_task
ready_task-Live = ground (arith, is_local)

steps-starved_example : steps 7 (some 16) ◌==◌ restless (turns 1000) ready_task ≡ done ready_task tt
steps-starved_example =
    steps-starved 7 (some 16) ◌==◌ restless 0 refl ready_view ready_task (5 ∷ []) ready_task-Live
      (omega arith) refl refl 1000

joins-executes_example :
    (m' : Machine ℕ ℕ ℕ) × (m'' : Machine ℕ ℕ ℕ) × (step 7
        (some 16)
        ◌==◌
        countdown
        executes
        ready_task
      ≡ done m' tt)
    × (m'.woken ≡ 3 ∷ [])
    × (try_read_output ◌==◌ 4 m' ≡ done m'' (some 42))
joins-executes_example =
    joins-executes 7 (some 16) ◌==◌ countdown 0 0 42 refl ready_view ready_task (5 ∷ []) 3
      ready_task-Live refl refl refl refl refl refl 4
