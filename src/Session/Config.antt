-- ===== src/Session/Config.antt =====
-- fuse/src/uring_fuse/mod.rs: `KernelConfig`, what a file system may ask of the kernel when it is
-- initialised. Durations are in nanoseconds; a setter returns the old value, or another to try.
use Prim.Native.Nat.{bit_and, bit_or, max}
use fairy.Prelude.{
  ℕ, zero, suc, ◌+◌, ◌-◌, ◌*◌, ◌/◌, ◌%◌, ◌^◌, min, ◌&&◌, ◌||◌, Option, none, some, List, [], ◌∷◌,
  ltb, ◌==◌, not, if◌then◌else◌,
}

pub record KernelConfig : Type 0 where
  pub capabilities : ℕ
  pub requested : ℕ
  pub max_readahead : ℕ
  pub max_max_readahead : ℕ
  pub max_background : ℕ
  pub congestion_threshold : Option ℕ
  pub max_write : ℕ
  pub time_gran : ℕ

-- `Result<T, T>`
pub data SetResult : Type 0 where
  previous : ℕ → SetResult
  advice : ℕ → SetResult

abbrev pub max_write_size : ℕ
max_write_size = 16 * 1024 * 1024

-- FUSE_ASYNC_READ, FUSE_BIG_WRITES, FUSE_SPLICE_WRITE, FUSE_SPLICE_READ and FUSE_SPLICE_MOVE.
abbrev pub init_flags : ℕ
init_flags = 2 ^ 0 + 2 ^ 5 + 2 ^ 7 + 2 ^ 9 + 2 ^ 8

-- FUSE_MAX_PAGES.
abbrev pub max_pages_flag : ℕ
max_pages_flag = 2 ^ 22

unfoldable pub default_init_flags : ℕ → ℕ
default_init_flags capabilities =
    if not (bit_and capabilities max_pages_flag == 0)
    then bit_or init_flags max_pages_flag
    else init_flags

unfoldable pub init : ℕ → ℕ → KernelConfig
init capabilities max_readahead = record {
  capabilities = capabilities;
  requested = default_init_flags capabilities;
  max_readahead = max_readahead;
  max_max_readahead = max_readahead;
  max_background = 16;
  congestion_threshold = none;
  max_write = max_write_size;
  time_gran = 1;
}

abbrev pub second : ℕ
second = 1000000000

-- The loop over the powers of ten: the largest one below the value, if that is not one itself.
unfoldable pub power_below : ℕ → ℕ → ℕ → Option ℕ
power_below zero power value = none
power_below (suc fuel) power value =
    let larger = power_below fuel (power * 10) value in
    if ltb power value then (if ltb value (power * 10) then some power else larger) else none

abbrev pub store_granularity : KernelConfig → ℕ → Option ℕ → SetResult × KernelConfig
store_granularity c value (some power) = (advice power, c)
store_granularity c value none = (previous c.time_gran, record c { time_gran = value })

-- A value has at most ten digits when the loop begins.
unfoldable pub set_time_granularity : KernelConfig → ℕ → SetResult × KernelConfig
set_time_granularity c value =
    if value == 0
    then (advice 1, c)
    else if ltb 1 (value / second) || ((value / second == 1) && ltb 0 (value % second))
    then (advice second, c)
    else store_granularity c value (power_below 10 1 value)

unfoldable pub set_max_write : KernelConfig → ℕ → SetResult × KernelConfig
set_max_write c value =
    if value == 0
    then (advice 1, c)
    else if ltb max_write_size value
    then (advice max_write_size, c)
    else (previous c.max_write, record c { max_write = value })

unfoldable pub set_max_readahead : KernelConfig → ℕ → SetResult × KernelConfig
set_max_readahead c value =
    if value == 0
    then (advice 1, c)
    else if ltb c.max_max_readahead value
    then (advice c.max_max_readahead, c)
    else (previous c.max_readahead, record c { max_readahead = value })

-- The bits that the kernel does not support, where there are any.
unfoldable pub add_capabilities : KernelConfig → ℕ → Option ℕ × KernelConfig
add_capabilities c wanted =
    if bit_and wanted c.capabilities == wanted
    then (none, record c { requested = bit_or c.requested wanted })
    else (some (wanted - bit_and wanted c.capabilities), c)

unfoldable pub set_max_background : KernelConfig → ℕ → SetResult × KernelConfig
set_max_background c value =
    if value == 0
    then (advice 1, c)
    else (previous c.max_background, record c { max_background = value })

abbrev pub threshold_of : ℕ → Option ℕ → ℕ
threshold_of max_background none = max_background * 3 / 4 % 2 ^ 16
threshold_of max_background (some value) = min value max_background

unfoldable pub congestion_threshold : KernelConfig → ℕ
congestion_threshold c = threshold_of c.max_background c.congestion_threshold

unfoldable pub set_congestion_threshold : KernelConfig → ℕ → SetResult × KernelConfig
unfolding congestion_threshold
set_congestion_threshold c value =
    if value == 0
    then (advice 1, c)
    else (previous (congestion_threshold c), record c { congestion_threshold = some value })

-- `none` is a panic: an underflow of the `u32`, or an overflow of the `u16`.
abbrev pub pages_of : ℕ → ℕ → Option ℕ
pages_of page zero = none
pages_of page (suc n) =
    let pages = n / page % 2 ^ 16 in if pages == 65535 then none else some (pages + 1)

unfoldable pub max_pages : ℕ → KernelConfig → Option ℕ
max_pages page c = pages_of page (max c.max_write c.max_readahead)

-- A call of a setter.
pub data Setting : Type 0 where
  time_granularity max_write max_readahead max_background congestion : ℕ → Setting

-- The same call with another value.
abbrev pub with_value : Setting → ℕ → Setting
with_value (Setting.time_granularity value) v = Setting.time_granularity v
with_value (Setting.max_write value) v = Setting.max_write v
with_value (Setting.max_readahead value) v = Setting.max_readahead v
with_value (Setting.max_background value) v = Setting.max_background v
with_value (Setting.congestion value) v = Setting.congestion v

-- What it returns.
unfoldable pub answer : KernelConfig → Setting → SetResult
answer c (Setting.time_granularity value) = (set_time_granularity c value).0
answer c (Setting.max_write value) = (set_max_write c value).0
answer c (Setting.max_readahead value) = (set_max_readahead c value).0
answer c (Setting.max_background value) = (set_max_background c value).0
answer c (Setting.congestion value) = (set_congestion_threshold c value).0

unfoldable pub set : KernelConfig → Setting → KernelConfig
set c (Setting.time_granularity value) = (set_time_granularity c value).1
set c (Setting.max_write value) = (set_max_write c value).1
set c (Setting.max_readahead value) = (set_max_readahead c value).1
set c (Setting.max_background value) = (set_max_background c value).1
set c (Setting.congestion value) = (set_congestion_threshold c value).1

unfoldable pub set_all : KernelConfig → List Setting → KernelConfig
set_all c [] = c
set_all c (s ∷ settings) = set_all (set c s) settings
