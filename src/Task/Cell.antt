-- ===== src/Task/Cell.antt =====
-- runtime/src/task/core.rs: the cell of one task, and what the code around it can see: the queue of
-- the thread that owns the task, and the waker of the task that waits for this one.
use fairy.Prelude.{ℕ, Bool, true, false, Option, none, some, List, ◌∷◌, if◌then◌else◌}

-- `F` is the future, `O` its output, and `W` the waker of whoever polls the join handle.
pub data Stage (F O : Type 0) : Type 0 where
  running : F → Stage F O
  finished : O → Stage F O
  consumed : Stage F O

-- The fields of `Header`, `Core` and `Trailer`; the scheduler has no field.
pub record Cell (F O W : Type 0) : Type 0 where
  pub state : ℕ
  pub owner_id : ℕ
  pub stage : Stage F O
  pub waker : Option W

-- `tasks` is the queue of the thread, by the identity of each task. The rest is what the code leaves
-- behind: whether the cell is deallocated, the wakers woken by the task, the last one first, the
-- wakers of the task that exist, and the join handle, with whether it may still be polled.
pub record Machine (F O W : Type 0) : Type 0 where
  pub cell : Cell F O W
  pub freed : Bool
  pub tasks : List ℕ
  pub woken : List W
  pub wakers : ℕ
  pub handle : Bool
  pub unread : Bool

-- `faults` is an access to a cell that is deallocated, and `aborts` the abort of the process.
pub data Effect (F O W A : Type 0) : Type 0 where
  done : Machine F O W → A → Effect F O W A
  panics : Machine F O W → Effect F O W A
  aborts faults : Effect F O W A

abbrev pub Code : Type 0 → Type 0 → Type 0 → Type 0 → Type 0
Code F O W A = Machine F O W → Effect F O W A

module _ {F O W : Type 0} where
  infixl 5 ◌>>=◌ ◌>>◌
  abbrev pub then_run : {A B : Type 0} → Effect F O W A → (A → Code F O W B) → Effect F O W B
  then_run (done m a) f = f a m
  then_run (panics m) f = panics m
  then_run aborts f = aborts
  then_run faults f = faults

  abbrev pub ◌>>=◌ : {A B : Type 0} → Code F O W A → (A → Code F O W B) → Code F O W B
  ◌>>=◌ c f m = then_run (c m) f

  abbrev pub ◌>>◌ : {B : Type 0} → Code F O W (Unit {0}) → Code F O W B → Code F O W B
  ◌>>◌ c d = c >>= λ _. d

  abbrev pub returns : {A : Type 0} → A → Code F O W A
  returns a m = done m a

  abbrev pub skip : Code F O W (Unit {0})
  skip m = done m tt

  abbrev pub panic : {A : Type 0} → Code F O W A
  panic m = panics m

  abbrev pub assert : Bool → Code F O W (Unit {0})
  assert true m = done m tt
  assert false m = panics m

  abbrev pub when : Bool → Code F O W (Unit {0}) → Code F O W (Unit {0})
  when true c = c
  when false c = skip

  abbrev pub caught : Effect F O W (Unit {0}) → Effect F O W (Unit {0})
  caught (panics m) = done m tt
  caught (done m a) = done m a
  caught aborts = aborts
  caught faults = faults

  abbrev pub catch_unwind : Code F O W (Unit {0}) → Code F O W (Unit {0})
  catch_unwind c m = caught (c m)

  -- Every use of the cell is behind a pointer to it.
  abbrev pub deref : {A : Type 0} → Code F O W A → Code F O W A
  deref c m = if m.freed then faults else c m

  abbrev pub with_cell : {A : Type 0} → (Cell F O W → A) → Code F O W A
  with_cell f = deref λ m. done m (f m.cell)

  abbrev pub set_cell : (Cell F O W → Cell F O W) → Code F O W (Unit {0})
  set_cell f = deref λ m. done (record m { cell = f m.cell }) tt

  abbrev pub load : Code F O W ℕ
  load = with_cell λ c. c.state

  abbrev pub store : {A : Type 0} → A → ℕ → Code F O W A
  store a word m = done (record m { cell = record m.cell { state = word } }) a

  abbrev pub updated_state : {A : Type 0} → Option (A × ℕ) → Code F O W A
  updated_state none = panic
  updated_state (some (a, word)) = store a word

  -- An operation of the state word; its `none` is a failed assertion.
  abbrev pub on_state : {A : Type 0} → (ℕ → Option (A × ℕ)) → Code F O W A
  on_state op = deref λ m. updated_state (op m.cell.state) m

  abbrev pub counted : Option ℕ → Code F O W (Unit {0})
  counted none m = aborts
  counted (some word) m = store tt word m

  unfoldable pub new : ℕ → F → ℕ → Cell F O W
  new state future owner_id = record {
    state = state;
    owner_id = owner_id;
    stage = running future;
    waker = none;
  }

  -- The methods of `CoreStage`.
  unfoldable pub set_stage : Stage F O → Code F O W (Unit {0})
  set_stage stage = set_cell λ c. record c { stage = stage }

  unfoldable pub drop_future_or_output : Code F O W (Unit {0})
  unfolding set_stage
  drop_future_or_output = set_stage consumed

  unfoldable pub store_output : O → Code F O W (Unit {0})
  unfolding set_stage
  store_output output = set_stage (finished output)

  abbrev pub output_of : Stage F O → Code F O W O
  output_of (finished output) = returns output
  output_of (running future) = panic
  output_of consumed = panic

  unfoldable pub take_output : Code F O W O
  unfolding set_stage
  take_output = do stage ← with_cell λ c. c.stage; set_stage consumed; output_of stage

  -- The methods of `Trailer`.
  unfoldable pub set_waker : Option W → Code F O W (Unit {0})
  set_waker waker = set_cell λ c. record c { waker = waker }

  -- `unwrap` panics on `None`.
  abbrev pub will_wake_of : (W → W → Bool) → Option W → W → Code F O W Bool
  will_wake_of same none waker = panic
  will_wake_of same (some stored) waker = returns (same stored waker)

  unfoldable pub will_wake : (W → W → Bool) → W → Code F O W Bool
  will_wake same waker = do stored ← with_cell λ c. c.waker; will_wake_of same stored waker

  abbrev pub wake_stored : Option W → Code F O W (Unit {0})
  wake_stored none m = panics m
  wake_stored (some waker) m = done (record m { woken = waker ∷ m.woken }) tt

  unfoldable pub wake_join : Code F O W (Unit {0})
  wake_join = do stored ← with_cell λ c. c.waker; wake_stored stored
