-- ===== src/Pressure/Reasons.antt =====
-- lmkd.cpp: when `mp_event_psi` kills, for which reasons, and which scores each reason spares.
use android_system_memory_lm.Base.{◌≡◌, inl, inr, refl, arith, Bool, true, false, Bool-cases}
use android_system_memory_lm.Pressure.{
  Config, KillReason, no_reason, pressure_after_kill, not_responding, low_swap_and_thrashing,
  low_mem_and_swap, low_mem_and_thrashing, direct_recl_and_thrashing, low_mem_and_swap_util,
  low_filecache_after_thrashing, low_mem, compaction, direct_recl_and_throt, direct_recl_stuck,
}
use android_system_memory_lm.Pressure.Decide.{
  Conditions, Decision, decide, decide_reason, decide_swap, decide_thrashing, decide_filecache,
  has_reason, is_breached, is_below_high,
}

-- Where the low watermark is breached, and so also where the min watermark is, every decision has a
-- reason to kill.
pub decide-kills :
    (config : Config) (c : Conditions) (d : Decision)
    → is_below_high c ≡ true
    → has_reason (decide config c d).kill_reason ≡ true
unfolding decide has_reason
decide-kills config c d h = elim (Bool-cases (has_reason (decide_reason config c d).kill_reason)) [
  | inl e ↦ rw (decide, e) e
  | inr e ↦ rw (decide, e, h) refl
]

-- The reasons that need no breached watermark.
abbrev pub without_watermark : KillReason → Bool
without_watermark no_reason = true
without_watermark direct_recl_and_throt = true
without_watermark low_swap_and_thrashing = true
without_watermark direct_recl_and_thrashing = true
without_watermark direct_recl_stuck = true
without_watermark low_filecache_after_thrashing = true
without_watermark pressure_after_kill = false
without_watermark not_responding = false
without_watermark low_mem_and_swap = false
without_watermark low_mem_and_thrashing = false
without_watermark low_mem_and_swap_util = false
without_watermark low_mem = false
without_watermark compaction = false

module _ (config : Config) (c : Conditions) (d : Decision) (fresh : d.kill_reason ≡ no_reason)
    (calm : is_breached c ≡ false) where
  filecache-calm : without_watermark (decide_filecache config c d).kill_reason ≡ true
  unfolding decide_filecache
  filecache-calm = ground (arith, fresh)

  thrashing-calm : without_watermark (decide_thrashing config c d).kill_reason ≡ true
  unfolding decide_thrashing
  thrashing-calm = ground (arith, filecache-calm)

  swap-calm : without_watermark (decide_swap config c d).kill_reason ≡ true
  unfolding decide_swap
  swap-calm = ground (arith, thrashing-calm)

  reason-calm : without_watermark (decide_reason config c d).kill_reason ≡ true
  unfolding decide_reason
  reason-calm = ground (arith, swap-calm)

  -- Where no watermark is breached, a decision that starts without a reason ends without one, or with
  -- one of these: throttled direct reclaim, thrashing while swap is low, thrashing in direct reclaim,
  -- direct reclaim for too long, and a small file cache after thrashing.
  decide-calm : without_watermark (decide config c d).kill_reason ≡ true
  unfolding decide
  decide-calm = ground (arith, reason-calm)
