-- ===== src/Polling/Time.antt =====
-- lmkd.cpp: `struct timespec`, `get_time_diff_ms` and `enum vmpressure_level`.
use android_system_memory_lm.Base.{
  ℕ, ℤ, pos, ◌+ℤ◌, ◌-ℤ◌, ◌*ℤ◌, quot, ◌<ℤ◌, int_laws, *ℤ_parts, quot_million_parts,
}

pub record Timespec : Type 0 where
  pub tv_sec : ℤ
  pub tv_nsec : ℤ

-- The difference of the nanoseconds is cut towards 0.
unfoldable pub get_time_diff_ms : Timespec → Timespec → ℤ
get_time_diff_ms from to =
    (to.tv_sec -ℤ from.tv_sec) *ℤ pos 1000 +ℤ quot (to.tv_nsec -ℤ from.tv_nsec) 1000000

pub data Level : Type 0 where
  low medium critical super_critical : Level

unfoldable pub level_number : Level → ℕ
level_number low = 0
level_number medium = 1
level_number critical = 2
level_number super_critical = 3

-- The time as one number of nanoseconds.
to_ns : Timespec → ℤ
to_ns t = t.tv_sec *ℤ pos 1000000000 +ℤ t.tv_nsec

-- The difference in milliseconds is within one millisecond of the true one, whichever of the two
-- times is the later.
get_time_diff_ms_bounds :
    (from to : Timespec)
    → (get_time_diff_ms from to *ℤ pos 1000000 <ℤ to_ns to -ℤ to_ns from +ℤ pos 1000000)
      × (to_ns to -ℤ to_ns from <ℤ get_time_diff_ms from to *ℤ pos 1000000 +ℤ pos 1000000)
unfolding get_time_diff_ms to_ns
get_time_diff_ms_bounds from to =
    let secs = to.tv_sec -ℤ from.tv_sec in
    let nanos = to.tv_nsec -ℤ from.tv_nsec in
    let ms = secs *ℤ pos 1000 +ℤ quot nanos 1000000 in
    omega (
      int_laws,
      *ℤ_parts ms 1000000,
      *ℤ_parts secs 1000,
      *ℤ_parts to.tv_sec 1000000000,
      *ℤ_parts from.tv_sec 1000000000,
      quot_million_parts nanos,
    )
