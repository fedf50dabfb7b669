-- ===== src/Uring/Histories.antt =====
-- runtime/src/driver/uring/lifecycle.rs: in no history does an operation reach a state that the code
-- takes for impossible, or lose its data while the kernel uses it.
use fairy.Prelude.{
  ◌≡◌, refl, Bool, true, false, ◌&&◌, Option, none, some, List, [], ◌∷◌, if◌then◌else◌, arith,
}
use fairy.Uring.{
  Lifecycle, submitted, waiting, ignored, completed, Operation, Event, polls, drops, completes,
  complete, poll_op, drop_op, submit_with_data, op_poll, op_drop, tick, step, steps,
}

module _ {W D : Type 0} (d : D) where
  -- The operation waits for the kernel, or is complete: its owner has the data.
  abbrev Held : Bool → Operation W D → Type 0
  Held in_flight m =
      (m.owned ≡ true)
      × (m.index ≡ true)
      × (m.in_flight ≡ in_flight)
      × (m.data_held ≡ some d)
      × (m.released ≡ [])

  abbrev SlotInv : Option (Lifecycle W D) → Operation W D → Type 0
  SlotInv none m =
      ((m.owned && m.index) ≡ false)
      × (m.in_flight ≡ false)
      × (m.data_held ≡ none)
      × (m.released ≡ d ∷ [])
  SlotInv (some submitted) m = Held true m
  SlotInv (some (waiting waker)) m = Held true m
  SlotInv (some (completed result flags)) m = Held false m
  SlotInv (some (ignored held)) m =
      (held ≡ some d)
      × (m.owned ≡ false)
      × (m.in_flight ≡ true)
      × (m.data_held ≡ none)
      × (m.released ≡ [])

  -- The entry, the owner and the kernel agree, and the data is released when, and only when, the
  -- operation is over.
  abbrev pub Inv : Operation W D → Type 0
  Inv m = SlotInv m.slot m

  step-Inv :
      (will_wake : W → W → Bool) (slot : Option (Lifecycle W D)) (e : Event W) (m : Operation W D)
      → m.slot ≡ slot
      → SlotInv slot m
      → (n : Operation W D) × (step will_wake e m ≡ some n) × Inv n
  unfolding step op_poll op_drop tick poll_op drop_op complete
  step-Inv will_wake none (polls waker) m s i = (m, ground (arith, s, i), ground (arith, s, i))
  step-Inv will_wake none drops m s i =
      (record m { owned = false }, ground (arith, s, i), ground (arith, s, i))
  step-Inv will_wake none (completes result flags) m s i =
      (m, ground (arith, s, i), ground (arith, s, i))
  step-Inv will_wake (some submitted) (polls waker) m s i =
      (record m { slot = some (waiting waker) }, ground (arith, s, i), ground (arith, s, i))
  step-Inv will_wake (some (waiting old)) (polls waker) m s i = (
    record m { slot = some (waiting (if will_wake old waker then old else waker)) },
    ground (arith, s, i),
    ground (arith, s, i),
  )
  step-Inv will_wake (some (completed result flags)) (polls waker) m s i = (
    record m { slot = none; index = false; data_held = none; released = d ∷ [] },
    ground (arith, s, i),
    ground (arith, s, i),
  )
  step-Inv will_wake (some (ignored held)) (polls waker) m s i =
      (m, ground (arith, s, i), ground (arith, s, i))
  step-Inv will_wake (some submitted) drops m s i = (
    record m { slot = some (ignored (some d)); data_held = none; owned = false },
    ground (arith, s, i),
    ground (arith, s, i),
  )
  step-Inv will_wake (some (waiting waker)) drops m s i = (
    record m { slot = some (ignored (some d)); data_held = none; owned = false },
    ground (arith, s, i),
    ground (arith, s, i),
  )
  step-Inv will_wake (some (completed result flags)) drops m s i = (
    record m { slot = none; data_held = none; owned = false; released = d ∷ [] },
    ground (arith, s, i),
    ground (arith, s, i),
  )
  step-Inv will_wake (some (ignored held)) drops m s i =
      (m, ground (arith, s, i), ground (arith, s, i))
  step-Inv will_wake (some submitted) (completes result flags) m s i = (
    record m { slot = some (completed result flags); in_flight = false },
    ground (arith, s, i),
    ground (arith, s, i),
  )
  step-Inv will_wake (some (waiting waker)) (completes result flags) m s i = (
    record m { slot = some (completed result flags); in_flight = false; woken = waker ∷ m.woken },
    ground (arith, s, i),
    ground (arith, s, i),
  )
  step-Inv will_wake (some (completed r f)) (completes result flags) m s i =
      (m, ground (arith, s, i), ground (arith, s, i))
  step-Inv will_wake (some (ignored held)) (completes result flags) m s i = (
    record m { slot = none; in_flight = false; released = d ∷ [] },
    ground (arith, s, i),
    ground (arith, s, i),
  )

  steps-Inv :
      (will_wake : W → W → Bool) (es : List (Event W)) (m : Operation W D)
      → Inv m
      → (n : Operation W D) × (steps will_wake es m ≡ some n) × Inv n
  unfolding steps
  steps-Inv will_wake [] m i = (m, refl, i)
  steps-Inv will_wake (e ∷ es) m i =
      let (n, s, j) = step-Inv will_wake m.slot e m refl i in
      let (o, t, k) = steps-Inv will_wake es n j in (o, rw s t, k)

  -- From its submission on, whatever its owner and the kernel do, in any order, an operation meets no
  -- state that the code takes for impossible: each history has an outcome. There the data is released
  -- exactly when the kernel no longer has the operation and either its owner has the completion or the
  -- operation was dropped; and then its entry has left the slab.
  pub steps-Returns :
      (will_wake : W → W → Bool) (es : List (Event W))
      → (n : Operation W D) × (steps will_wake es (submit_with_data d) ≡ some n) × Inv n
  unfolding submit_with_data
  steps-Returns will_wake es =
      steps-Inv will_wake es (submit_with_data d) (refl, refl, refl, refl, refl)
