-- ===== src/Task/Ownership.antt =====
-- runtime/src/task: a task from `spawn` on, used by whoever owns its wakers and its join handle and run
-- by the thread that owns it; and what holds of it between two operations.
pub mod Waking
pub mod Joining
pub mod Detaching
pub mod Ending
pub mod Using
pub mod Running
pub mod Histories
pub mod Wakeups
pub mod Outputs
pub mod Scenarios
use fairy.Prelude.{
  ℕ, zero, suc, ◌+◌, ◌≤◌, ◌<◌, ◌^◌, ◌≡◌, ◌⊎◌, Bool, true, false, not, ◌&&◌, Option, none, some,
  List, [], ◌∷◌, ◌++◌, ◌==◌, if◌then◌else◌, arith, refl, sym, inl, inr,
}
use mathlib.Core.Path.{subst}
use fairy.Task.State.{initial_state}
use fairy.Task.View.{View, encode, bit}
use fairy.Task.Cell.{
  Stage, running, finished, consumed, Machine, Effect, done, panics, aborts, faults, Code, ◌>>=◌,
  ◌>>◌, then_run, skip, new,
}
use fairy.Task.Handles.{Use, use_task, run}
use fairy.Task.Harness.{is_remote_task}

-- How many times a task is in the queue.
abbrev pub count : ℕ → List ℕ → ℕ
count me [] = 0
count me (t ∷ ts) = if t == me then suc (count me ts) else count me ts

pub count-snoc : (me : ℕ) (ts : List ℕ) → count me (ts ++ (me ∷ [])) ≡ suc (count me ts)
count-snoc me [] = ground arith
count-snoc me (t ∷ ts) = ground (arith, count-snoc me ts)

-- `elsewhere` is what other tasks do to the queue: they leave the places of this one.
pub data Event (W : Type 0) : Type 0 where
  uses : Use W → Event W
  elsewhere : List ℕ → Event W
  executes : Event W

-- The executor takes `n` tasks in a row.
abbrev pub turns : {W : Type 0} → ℕ → List (Event W)
turns zero = []
turns (suc n) = executes ∷ turns n

-- A new cell, with its task in the queue and its join handle in use: `spawn` on the thread `owner`.
unfoldable pub spawned : {F O W : Type 0} → ℕ → ℕ → F → List ℕ → Machine F O W
spawned me owner future tasks = record {
  cell = new initial_state future owner;
  freed = false;
  tasks = tasks ++ (me ∷ []);
  woken = [];
  wakers = 0;
  handle = true;
  unread = true;
}

module _ {F O W : Type 0} (me : ℕ) (current : Option ℕ) (same : W → W → Bool)
    (advance : F → ℕ × List (Use W) × F × Option O) where
  abbrev pub execute : List ℕ → Code F O W (Unit {0})
  execute [] m = done m tt
  execute (t ∷ rest) m =
      if t == me
      then run me current same advance (record m { tasks = rest })
      else done (record m { tasks = rest }) tt

  -- The executor takes the first task of the queue, or anyone uses the task, or the queue changes.
  unfoldable pub step : Event W → Code F O W (Unit {0})
  step (uses u) m = use_task me current same u m
  step (elsewhere tasks) m =
      if count me tasks == count me m.tasks then done (record m { tasks = tasks }) tt else done m tt
  step executes m = execute m.tasks m

  unfoldable pub steps : List (Event W) → Code F O W (Unit {0})
  unfolding step
  steps [] = skip
  steps (e ∷ es) = step e >> steps es

-- `Running` before the task is complete, `Finished` until the output is read or dropped.
abbrev pub IsPending : {F O : Type 0} → Stage F O → Type 0
IsPending (running future) = Unit
IsPending (finished output) = ⊥
IsPending consumed = ⊥

abbrev pub IsFinished : {F O : Type 0} → Stage F O → Type 0
IsFinished (running future) = ⊥
IsFinished (finished output) = Unit
IsFinished consumed = ⊥

abbrev pub IsSome : {W : Type 0} → Option W → Type 0
IsSome none = ⊥
IsSome (some waker) = Unit

module _ {F O W : Type 0} where
  -- The code neither panics nor uses a cell that is deallocated, and `Q` holds when it returns.
  abbrev pub Safe : {A : Type 0} → Effect F O W A → (A → Machine F O W → Type 0) → Type 0
  Safe (done m a) Q = Q a m
  Safe (panics m) Q = ⊥
  Safe aborts Q = Unit
  Safe faults Q = ⊥

  pub Safe_eq :
      {A : Type 0} {c : Effect F O W A} {m : Machine F O W} {a : A} (Q : A → Machine F O W → Type 0)
      → c ≡ done m a
      → Q a m
      → Safe c Q
  Safe_eq Q e q = subst (λ c. Safe c Q) (sym e) q

  pub Safe_aborts :
      {A : Type 0} {c : Effect F O W A} (Q : A → Machine F O W → Type 0) → c ≡ aborts → Safe c Q
  Safe_aborts Q e = subst (λ c. Safe c Q) (sym e) tt

  pub Safe_then :
      {A B : Type 0} {c : Effect F O W A} {m : Machine F O W} {a : A} (f : A → Code F O W B)
      (Q : B → Machine F O W → Type 0)
      → c ≡ done m a
      → Safe (f a m) Q
      → Safe (then_run c f) Q
  Safe_then f Q e q = subst (λ c. Safe (then_run c f) Q) (sym e) q

  pub Safe->>= :
      {A B : Type 0} (c : Effect F O W A) (f : A → Code F O W B) (P : A → Machine F O W → Type 0)
      (Q : B → Machine F O W → Type 0)
      → Safe c P
      → ((a : A) (m : Machine F O W) → P a m → Safe (f a m) Q)
      → Safe (then_run c f) Q
  Safe->>= (done m a) f P Q p h = h a m p
  Safe->>= (panics m) f P Q p h = p
  Safe->>= aborts f P Q p h = tt
  Safe->>= faults f P Q p h = p

  pub Safe-mono :
      {A : Type 0} (c : Effect F O W A) {P Q : A → Machine F O W → Type 0}
      → Safe c P
      → ((a : A) (m : Machine F O W) → P a m → Q a m)
      → Safe c Q
  Safe-mono (done m a) p h = h a m p
  Safe-mono (panics m) p h = p
  Safe-mono aborts p h = tt
  Safe-mono faults p h = p

  pub Safe-if :
      {A : Type 0} (b : Bool) (c d : Effect F O W A) (Q : A → Machine F O W → Type 0)
      → (b ≡ true → Safe c Q)
      → (b ≡ false → Safe d Q)
      → Safe (if b then c else d) Q
  Safe-if true c d Q h k = h refl
  Safe-if false c d Q h k = k refl

  module _ (me : ℕ) (current : Option ℕ) where
    -- A task that is not deallocated: `held` counts the task handles outside the queue, of which there
    -- is one while the task runs.
    pub record Live (held : ℕ) (v : View) (m : Machine F O W) : Type 0 where
      pub word : m.cell.state ≡ encode v
      pub allocated : m.freed ≡ false
      pub here : is_remote_task m.cell.owner_id current ≡ false
      pub refs : v.refs ≡ count me m.tasks + m.wakers + bit m.handle + held
      pub small : v.refs ≤ 2 ^ 58
      pub referred : 0 < v.refs
      pub queued : count me m.tasks ≡ bit (not v.running && not v.complete && v.notified)
      pub busy : bit v.running ≤ held
      pub once : (v.running && v.complete) ≡ false
      pub interested : m.handle ≡ true → v.interest ≡ true
      pub detached : m.handle ≡ false → v.interest ≡ true → v.complete ≡ true
      pub pending : v.complete ≡ false → IsPending m.cell.stage
      pub output : v.complete ≡ true → m.handle ≡ true → m.unread ≡ true → IsFinished m.cell.stage
      pub read : m.handle ≡ true → m.unread ≡ false → v.complete ≡ true
      pub stored : v.waker ≡ true → IsSome m.cell.waker

    pub record Gone (held : ℕ) (m : Machine F O W) : Type 0 where
      pub released : m.freed ≡ true
      pub unheld : held ≡ 0
      pub unqueued : count me m.tasks ≡ 0
      pub unwoken : m.wakers ≡ 0
      pub unjoined : m.handle ≡ false

    abbrev pub Inv : ℕ → Machine F O W → Type 0
    Inv held m = ((v : View) × Live held v m) ⊎ Gone held m

    -- The same, after a step that neither starts nor ends a poll.
    abbrev pub Next : ℕ → View → Machine F O W → Type 0
    Next held v m = (w : View) × Live held w m × (w.running ≡ v.running) × (w.complete ≡ v.complete)

    abbrev pub After : ℕ → View → Machine F O W → Type 0
    After held v m = Next held v m ⊎ Gone held m

    pub After-Inv : (held : ℕ) (v : View) (m : Machine F O W) → After held v m → Inv held m
    After-Inv held v m (inl (w, g, r, c)) = inl (w, g)
    After-Inv held v m (inr g) = inr g
