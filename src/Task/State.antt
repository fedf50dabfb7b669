-- ===== src/Task/State.antt =====
-- runtime/src/task/state.rs: the atomic state word of a task, as the code reads and writes it. A word
-- is a `usize` of 64 bits; a failed assertion is `none`, as in a build with debug assertions.
use Prim.Native.Nat.{bit_and, bit_or}
use fairy.Prelude.{ℕ, ◌-◌, ◌*◌, ◌/◌, ◌^◌, Bool, ◌==◌}

abbrev pub usize_max : ℕ
usize_max = 2 ^ 64 - 1

abbrev pub isize_max : ℕ
isize_max = 2 ^ 63 - 1

-- `!x`
abbrev pub complement : ℕ → ℕ
complement x = usize_max - x

abbrev pub running : ℕ
running = 0b0001

abbrev pub complete : ℕ
complete = 0b0010

abbrev pub lifecycle_mask : ℕ
lifecycle_mask = 0b11

abbrev pub notified : ℕ
notified = 0b100

abbrev pub join_interest : ℕ
join_interest = 0b1_000

abbrev pub join_waker : ℕ
join_waker = 0b10_000

abbrev pub state_mask : ℕ
state_mask = bit_or (bit_or (bit_or lifecycle_mask notified) join_interest) join_waker

abbrev pub ref_count_mask : ℕ
ref_count_mask = complement state_mask

-- The zeros of `ref_count_mask`.
abbrev pub ref_count_shift : ℕ
ref_count_shift = 5

abbrev pub ref_one : ℕ
ref_one = 2 ^ ref_count_shift

abbrev pub initial_state : ℕ
initial_state = bit_or (bit_or (ref_one * 2) join_interest) notified

-- The methods of `Snapshot`.
unfoldable pub is_idle : ℕ → Bool
is_idle s = bit_and s (bit_or running complete) == 0

unfoldable pub is_notified : ℕ → Bool
is_notified s = bit_and s notified == notified

unfoldable pub is_running : ℕ → Bool
is_running s = bit_and s running == running

unfoldable pub is_complete : ℕ → Bool
is_complete s = bit_and s complete == complete

unfoldable pub is_join_interested : ℕ → Bool
is_join_interested s = bit_and s join_interest == join_interest

unfoldable pub has_join_waker : ℕ → Bool
has_join_waker s = bit_and s join_waker == join_waker

unfoldable pub unset_notified : ℕ → ℕ
unset_notified s = bit_and s (complement notified)

unfoldable pub set_notified : ℕ → ℕ
set_notified s = bit_or s notified

unfoldable pub set_running : ℕ → ℕ
set_running s = bit_or s running

unfoldable pub unset_running : ℕ → ℕ
unset_running s = bit_and s (complement running)

unfoldable pub unset_join_interested : ℕ → ℕ
unset_join_interested s = bit_and s (complement join_interest)

unfoldable pub set_join_waker : ℕ → ℕ
set_join_waker s = bit_or s join_waker

unfoldable pub unset_join_waker : ℕ → ℕ
unset_join_waker s = bit_and s (complement join_waker)

unfoldable pub ref_count : ℕ → ℕ
ref_count s = bit_and s ref_count_mask / 2 ^ ref_count_shift
