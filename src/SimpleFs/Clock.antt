-- ===== src/SimpleFs/Clock.antt =====
-- fuse/src/filesystem.rs: what becomes of a time that is stored in an inode and read back.
use fairy.Prelude.{ℕ, suc, ◌^◌, ◌<◌, ◌≡◌, refl, arith}
use fairy.Prelude.{ℤ, pos, negsuc}
use fairy.SimpleFs.{Time}
use fairy.SimpleFs.Times.{
  since_epoch, before_epoch, as_i64, system_time_from_time, time_from_system_time,
}

-- The seconds, without their sign, are below 2 ^ 63.
unfoldable pub IsSmall : ℤ → Type 0
IsSmall (pos n) = n < 2 ^ 63
IsSmall (negsuc n) = suc n < 2 ^ 63

-- A stored time whose seconds are small enough is the same after it went through `SystemTime`.
time_from_system_time-system_time_from_time :
    (t : Time) → IsSmall t.0 → time_from_system_time (system_time_from_time t) ≡ t
unfolding IsSmall time_from_system_time system_time_from_time as_i64
time_from_system_time-system_time_from_time (pos n, nanos) h = ground arith
time_from_system_time-system_time_from_time (negsuc n, nanos) h = ground arith

-- A time less than a second before the epoch comes back as one that long after it.
time_before_epoch_flips :
    (nanos : ℕ)
    → system_time_from_time (time_from_system_time (before_epoch 0 nanos)) ≡ since_epoch 0 nanos
unfolding time_from_system_time system_time_from_time as_i64
time_before_epoch_flips nanos = refl
