-- ===== src/Session/Limits.antt =====
-- fuse/src/uring_fuse/mod.rs: the bounds that every `KernelConfig` keeps, and the values that its
-- setters advise.
use fairy.Prelude.{
  ℕ, zero, suc, ◌+◌, ◌*◌, ◌≤◌, ◌<◌, ◌≡◌, refl, ap, sym, ◌∙◌, ◌⊎◌, Option, none, some, List, [], ◌∷◌,
  ltb, ◌==◌, Bool-cases, inl, inr, arith, Option-cases,
}
use mathlib.Core.Path.{subst}
use fairy.Session.Config.{
  KernelConfig, previous, advice, max_write_size, init, second, power_below, set_time_granularity,
  set_max_write, set_max_readahead, set_max_background, congestion_threshold, threshold_of,
  set_congestion_threshold, Setting, with_value, answer, set, set_all,
}

-- The powers of ten.
abbrev pub tens : ℕ → ℕ
tens zero = 1
tens (suc k) = tens k * 10

-- A power of ten, of a second at most.
abbrev pub IsGranularity : ℕ → Type 0
IsGranularity value = (k : ℕ) × (value ≡ tens k) × (value ≤ second)

tens_positive : (k : ℕ) → 0 < tens k
tens_positive zero = omega arith
tens_positive (suc k) = omega (arith, tens_positive k)

-- No power of ten lies between two that follow each other.
tens_gap : (j k : ℕ) → tens j < tens k → tens k < tens j * 10 → ⊥
tens_gap zero zero p q = omega arith
tens_gap zero (suc k) p q = omega (arith, tens_positive k)
tens_gap (suc j) zero p q = omega (arith, tens_positive j)
tens_gap (suc j) (suc k) p q = tens_gap j k (omega arith) (omega arith)

-- What the loop finds.
abbrev Below : ℕ → Option ℕ → Type 0
Below value none = IsGranularity value
Below value (some power) = IsGranularity power × (power < value) × (value < power * 10)

power_below-Below :
    (fuel k n value : ℕ)
    → k + fuel ≡ n
    → tens k ≤ value
    → value ≤ second
    → value < tens n
    → Below value (power_below fuel (tens k) value)
unfolding power_below
power_below-Below zero k n value e lo top hi =
    let last : n ≡ k = omega arith in absurd (omega (arith, ap tens last))
power_below-Below (suc fuel) k n value e lo top hi = elim (Bool-cases (ltb (tens k) value)) [
  | inl more ↦ elim (Bool-cases (ltb value (tens k * 10))) [
    | inl found ↦ rw (more, found) ((k, refl, ground arith), ground arith, ground arith)
    | inr larger ↦
        rw (more, larger)
          (power_below-Below fuel (suc k) n value (omega arith) (ground arith) top hi)
  ]
  | inr done ↦ rw done (k, ground arith, top)
]

-- What the loop is given.
abbrev InRange : ℕ → Type 0
InRange value = (1 ≤ value) × (value ≤ second)

found-Below : (value : ℕ) → InRange value → Below value (power_below 10 1 value)
found-Below value (lo, top) = power_below-Below 10 0 10 value refl lo top (omega arith)

-- The loop ends for a power of ten with no other to advise.
found-none : (value : ℕ) → InRange value → IsGranularity value → power_below 10 1 value ≡ none
found-none value r (k, e, top) = elim (Option-cases (power_below 10 1 value)) [
  | inl none_found ↦ none_found
  | inr (power, f) ↦
      let ((j, p, _), below, above) : Below value (some power) =
        subst (Below value) f (found-Below value r) in
      absurd (tens_gap j k (omega arith) (omega arith))
]

module _ (c : KernelConfig) where
  set_time_granularity-none :
      (value : ℕ)
      → InRange value
      → power_below 10 1 value ≡ none
      → set_time_granularity c value ≡ (previous c.time_gran, record c { time_gran = value })
  unfolding set_time_granularity
  set_time_granularity-none value r e = ground (arith, e)

  -- The three ways out.
  set_time_granularity-cases :
      (value : ℕ)
      → ((v : ℕ) × IsGranularity v × (set_time_granularity c value ≡ (advice v, c)))
        ⊎ (IsGranularity value
            × (set_time_granularity c value
                ≡ (previous c.time_gran, record c { time_gran = value })))
  unfolding set_time_granularity
  set_time_granularity-cases value = elim (Bool-cases (value == 0)) [
    | inl z ↦ inl (1, (0, refl, omega arith), rw z refl)
    | inr nz ↦ elim (Bool-cases (ltb second value)) [
      | inl big ↦ inl (second, (9, refl, omega arith), ground arith)
      | inr small ↦
          let found = found-Below value (ground arith) in
          elim (Option-cases (power_below 10 1 value)) [
            | inl e ↦ inr (subst (Below value) e found, ground (arith, e))
            | inr (power, e) ↦ inl (power, (subst (Below value) e found).0, ground (arith, e))
          ]
    ]
  ]

-- What every configuration keeps that begins with what the kernel offers to read ahead.
pub record IsValid (offered : ℕ) (c : KernelConfig) : Type 0 where
  pub writes : (1 ≤ c.max_write) × (c.max_write ≤ max_write_size)
  pub reads : c.max_readahead ≤ offered
  pub offer : c.max_max_readahead ≡ offered
  pub runs : 1 ≤ c.max_background
  pub waits : congestion_threshold c ≤ c.max_background
  pub ticks : IsGranularity c.time_gran

threshold_le :
    (max_background : ℕ) (threshold : Option ℕ)
    → threshold_of max_background threshold ≤ max_background
threshold_le max_background none = ground arith
threshold_le max_background (some value) = omega arith

set-IsValid :
    (offered : ℕ) (c : KernelConfig) (s : Setting) → IsValid offered c → IsValid offered (set c s)
unfolding set set_max_write set_max_readahead set_max_background set_congestion_threshold
    congestion_threshold
set-IsValid offered c (Setting.time_granularity value) v =
    elim (set_time_granularity-cases c value) [
      | inl (a, g, e) ↦ subst (λ r. IsValid offered r.1) (sym e) v
      | inr (g, e) ↦
          subst (λ r. IsValid offered r.1) (sym e)
            (record {
              writes = v.writes;
              reads = v.reads;
              offer = v.offer;
              runs = v.runs;
              waits = v.waits;
              ticks = g;
            })
    ]
set-IsValid offered c (Setting.max_write value) v = ground (arith, v)
set-IsValid offered c (Setting.max_readahead value) v = ground (arith, v)
set-IsValid offered c (Setting.max_background value) v = elim (Bool-cases (value == 0)) [
  | inl zero_given ↦ ground (arith, v)
  | inr given ↦
      rw (given, set, set_max_background)
        (record {
          writes = v.writes;
          reads = v.reads;
          offer = v.offer;
          runs = ground arith;
          waits = threshold_le value c.congestion_threshold;
          ticks = v.ticks;
        })
]
set-IsValid offered c (Setting.congestion value) v =
    ground (arith, v, threshold_le c.max_background (some value))

set_all-IsValid :
    (offered : ℕ) (settings : List Setting) (c : KernelConfig)
    → IsValid offered c
    → IsValid offered (set_all c settings)
unfolding set_all
set_all-IsValid offered [] c v = v
set_all-IsValid offered (s ∷ settings) c v =
    set_all-IsValid offered settings (set c s) (set-IsValid offered c s v)

-- Whatever the kernel offers and however the file system sets its limits, a write has from one byte to
-- the size that the session has room for, no more is read ahead than the kernel offered, there is a
-- request in the background, the congestion threshold is no more than the number of these, and the
-- granularity of time is a power of ten nanoseconds, a second at most.
pub set_all_limits :
    (capabilities max_readahead : ℕ) (settings : List Setting)
    → IsValid max_readahead (set_all (init capabilities max_readahead) settings)
unfolding init congestion_threshold
set_all_limits capabilities max_readahead settings =
    set_all-IsValid max_readahead settings (init capabilities max_readahead) (record {
      writes = omega arith;
      reads = omega arith;
      offer = refl;
      runs = omega arith;
      waits = omega arith;
      ticks = (0, refl, omega arith);
    })

-- A setter that refuses a value advises another, and takes that one, if the kernel offered to read
-- ahead at all.
answer-advice :
    (c : KernelConfig) (s : Setting) {v : ℕ}
    → 1 ≤ c.max_max_readahead
    → answer c s ≡ advice v
    → (old : ℕ) × (answer c (with_value s v) ≡ previous old)
unfolding answer set_max_write set_max_readahead set_max_background set_congestion_threshold
answer-advice c (Setting.time_granularity value) {v} h a =
    elim (set_time_granularity-cases c value) [
      | inl (power, (k, p, top), e) ↦
          let same : v ≡ power = cc (a, e) in
          let range : InRange v = omega (arith, same, tens_positive k) in
          let none_below = found-none v range (k, same ∙ p, omega (arith, same)) in
          (c.time_gran, ap (λ r. r.0) (set_time_granularity-none c v range none_below))
      | inr (g, e) ↦ absurd (ground (arith, e))
    ]
answer-advice c (Setting.max_write value) h a = (c.max_write, ground arith)
answer-advice c (Setting.max_readahead value) h a = (c.max_readahead, ground arith)
answer-advice c (Setting.max_background value) h a = (c.max_background, ground arith)
answer-advice c (Setting.congestion value) h a = (congestion_threshold c, ground arith)
