-- ===== src/SimpleFs/Times.antt =====
-- fuse/src/filesystem.rs: the times of an inode, and `SystemTime`.
use fairy.Prelude.{ℕ, zero, suc, ◌-◌, ◌^◌, ltb, if◌then◌else◌}
use fairy.Prelude.{ℤ, pos, negsuc}
use fairy.SimpleFs.{Time}

-- `SystemTime`: a duration of seconds and nanoseconds since the epoch, or before it.
pub data SystemTime : Type 0 where
  since_epoch : ℕ → ℕ → SystemTime
  before_epoch : ℕ → ℕ → SystemTime

-- `u64 as i64`
unfoldable pub as_i64 : ℕ → ℤ
as_i64 w = if ltb w (2 ^ 63) then pos w else negsuc (2 ^ 64 - 1 - w)

-- `-x` of an `i64` that is not the least one.
abbrev pub negated : ℤ → ℤ
negated (pos zero) = pos zero
negated (pos (suc n)) = negsuc n
negated (negsuc n) = pos (suc n)

unfoldable pub system_time_from_time : Time → SystemTime
system_time_from_time t = elim t.0 [
  | pos secs ↦ since_epoch secs t.1
  | negsuc n ↦ before_epoch (suc n) t.1
]

unfoldable pub time_from_system_time : SystemTime → Time
unfolding as_i64
time_from_system_time (since_epoch secs nanos) = (as_i64 secs, nanos)
time_from_system_time (before_epoch secs nanos) = (negated (as_i64 secs), nanos)
