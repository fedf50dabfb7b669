-- ===== src/Uring.antt =====
-- runtime/src/driver/uring/{lifecycle,mod}.rs and runtime/src/driver/op/mod.rs: one operation, from its
-- submission on, with its entry in the slab at its index. `none` is undefined behaviour or a panic.
pub mod Histories
pub mod Tests
use fairy.Prelude.{
  ℕ, Bool, true, false, ◌&&◌, Option, none, some, List, [], ◌∷◌, ◌++◌, if◌then◌else◌, ◌>>=◌,
}

-- `io::Result<u32>`
pub data CqeResult : Type 0 where
  ok err : ℕ → CqeResult

-- `W` is a waker and `D` the data that the operation lends to the kernel. An ignored operation holds
-- its data, or nothing where there is none.
pub data Lifecycle (W D : Type 0) : Type 0 where
  submitted : Lifecycle W D
  waiting : W → Lifecycle W D
  ignored : Option D → Lifecycle W D
  completed : CqeResult → ℕ → Lifecycle W D

pub record CompletionMeta : Type 0 where
  pub result : CqeResult
  pub flags : ℕ

-- `slot` is the entry of the slab; `index` is whether the index is not `usize::MAX`, and `data` the
-- field of the `Op`. The rest is what goes on around it: whether the `Op` exists, whether the kernel
-- has the operation, the wakers that were woken, and the data that was given back or dropped.
pub record Operation (W D : Type 0) : Type 0 where
  pub slot : Option (Lifecycle W D)
  pub index : Bool
  pub data_held : Option D
  pub owned : Bool
  pub in_flight : Bool
  pub woken : List W
  pub released : List D

pub data Event (W : Type 0) : Type 0 where
  polls : W → Event W
  drops : Event W
  completes : CqeResult → ℕ → Event W

abbrev pub to_list : {A : Type 0} → Option A → List A
to_list none = []
to_list (some a) = a ∷ []

module _ {W D : Type 0} where
  -- The entry after it, the waker to wake, and the data that is dropped with the entry.
  unfoldable pub complete :
      Lifecycle W D → CqeResult → ℕ → Option (Option (Lifecycle W D) × Option W × Option D)
  complete submitted result flags = some (some (completed result flags), none, none)
  complete (waiting waker) result flags = some (some (completed result flags), some waker, none)
  complete (ignored data_held) result flags = some (none, none, data_held)
  complete (completed r f) result flags = none

  -- The entry after it, and the completion.
  unfoldable pub poll_op :
      (W → W → Bool) → Lifecycle W D → W → Option (Option (Lifecycle W D) × Option CompletionMeta)
  poll_op will_wake submitted waker = some (some (waiting waker), none)
  poll_op will_wake (waiting old) waker =
      some (some (waiting (if will_wake old waker then old else waker)), none)
  poll_op will_wake (completed result flags) waker =
      some (none, some (record { result = result; flags = flags }))
  poll_op will_wake (ignored data_held) waker = none

  -- The entry after it, what is left of the data, and whether the operation has finished.
  unfoldable pub drop_op :
      Lifecycle W D → Option D → Option (Option (Lifecycle W D) × Option D × Bool)
  drop_op submitted data_held = some (some (ignored data_held), none, false)
  drop_op (waiting waker) data_held = some (some (ignored data_held), none, false)
  drop_op (completed result flags) data_held = some (none, data_held, true)
  drop_op (ignored held) data_held = none

  -- `submit_with_data`, for an operation that the kernel takes.
  unfoldable pub submit_with_data : D → Operation W D
  submit_with_data d = record {
    slot = some submitted;
    index = true;
    data_held = some d;
    owned = true;
    in_flight = true;
    woken = [];
    released = [];
  }

  -- `Op::poll`: the data is given back with the completion.
  abbrev pub finish_poll :
      Operation W D → D → Option (Lifecycle W D) × Option CompletionMeta → Operation W D
  finish_poll m d (slot, none) = record m { slot = slot }
  finish_poll m d (slot, some meta) = record m {
    slot = slot;
    index = false;
    data_held = none;
    released = d ∷ m.released;
  }

  unfoldable pub op_poll : (W → W → Bool) → W → Operation W D → Option (Operation W D)
  op_poll will_wake waker m = m.data_held >>= λ d.
      m.slot >>= λ lifecycle. poll_op will_wake lifecycle waker >>= λ r. some (finish_poll m d r)

  -- `Drop` of `Op`, which then drops the data that is left.
  abbrev pub drop_entry : Option (Lifecycle W D) → Operation W D → Option (Operation W D)
  drop_entry none m =
      some (record m { data_held = none; released = to_list m.data_held ++ m.released })
  drop_entry (some lifecycle) m = drop_op lifecycle m.data_held >>= λ r.
      some (record m { slot = r.0; data_held = none; released = to_list r.1 ++ m.released })

  unfoldable pub op_drop : Operation W D → Option (Operation W D)
  op_drop m =
      if m.index
      then drop_entry m.slot m
      else some (record m { data_held = none; released = to_list m.data_held ++ m.released })

  -- `Ops::complete`, on the entry of a completion of the kernel.
  unfoldable pub tick : CqeResult → ℕ → Operation W D → Option (Operation W D)
  tick result flags m = m.slot >>= λ lifecycle. complete lifecycle result flags >>= λ r.
      some (record m {
        slot = r.0;
        woken = to_list r.1 ++ m.woken;
        released = to_list r.2 ++ m.released;
      })

  -- The `Op` is polled by its owner until it is ready, and dropped once; the kernel completes once.
  unfoldable pub step : (W → W → Bool) → Event W → Operation W D → Option (Operation W D)
  step will_wake (polls waker) m = if m.owned && m.index then op_poll will_wake waker m else some m
  step will_wake drops m =
      if m.owned then (op_drop m >>= λ n. some (record n { owned = false })) else some m
  step will_wake (completes result flags) m =
      if m.in_flight
      then (tick result flags m >>= λ n. some (record n { in_flight = false }))
      else some m

  unfoldable pub steps : (W → W → Bool) → List (Event W) → Operation W D → Option (Operation W D)
  unfolding step
  steps will_wake [] m = some m
  steps will_wake (e ∷ es) m = step will_wake e m >>= λ n. steps will_wake es n
