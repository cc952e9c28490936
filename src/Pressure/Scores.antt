-- ===== src/Pressure/Scores.antt =====
-- lmkd.cpp: the score from which on `mp_event_psi` kills, by the reason.
use android_system_memory_lm.Base.{
  ℕ, ◌≡◌, inl, inr, refl, arith, ◌&&◌, not, ◌==◌, if◌then◌else◌, pos, ltb_ℤ, Bool-cases,
}
use android_system_memory_lm.Polling.{level_number}
use android_system_memory_lm.Pressure.{
  Config, KillReason, no_reason, pressure_after_kill, not_responding, low_swap_and_thrashing,
  low_mem_and_swap, low_mem_and_thrashing, direct_recl_and_thrashing, low_mem_and_swap_util,
  low_filecache_after_thrashing, low_mem, compaction, direct_recl_and_throt, direct_recl_stuck,
}
use android_system_memory_lm.Pressure.Decide.{
  Conditions, Decision, decide, decide_reason, decide_swap, decide_thrashing, decide_filecache,
  has_reason, is_below_high, is_above_min,
}

-- The lowest score that a reason puts at risk. Apps that the user perceives have scores up to 200,
-- visible ones have 100, and the one in the foreground has 0.
abbrev pub least_score : Config → Conditions → KillReason → ℕ
least_score config c no_reason = 0
least_score config c pressure_after_kill = if is_above_min c then 100 else 50
least_score config c direct_recl_and_throt = 0
least_score config c not_responding = if level_number c.level == 2 then 50 else 0
least_score config c low_swap_and_thrashing =
    if is_above_min c && ltb_ℤ c.thrashing (pos config.thrashing_critical_pct) then 201 else 0
least_score config c low_mem_and_swap =
    if is_above_min c && ltb_ℤ c.thrashing (pos config.thrashing_critical_pct) then 201 else 0
least_score config c low_mem_and_swap_util = 0
least_score config c low_mem_and_thrashing = 100
least_score config c direct_recl_and_thrashing = 201
least_score config c direct_recl_stuck = 0
least_score config c low_filecache_after_thrashing = 201
least_score config c compaction = 100
least_score config c low_mem = config.lowmem_min_oom_score

module _ (config : Config) (c : Conditions) (d : Decision) (fresh : d.kill_reason ≡ no_reason)
    (zeroed : d.min_score_adj ≡ 0) where
  abbrev Fits : Decision → Type 0
  Fits d' = d'.min_score_adj ≡ least_score config c d'.kill_reason

  filecache-Fits : Fits (decide_filecache config c d)
  unfolding decide_filecache
  filecache-Fits = ground (arith, fresh, zeroed)

  thrashing-Fits : Fits (decide_thrashing config c d)
  unfolding decide_thrashing
  thrashing-Fits = ground (arith, filecache-Fits, zeroed)

  swap-Fits : Fits (decide_swap config c d)
  unfolding decide_swap
  swap-Fits = ground (arith, thrashing-Fits, zeroed)

  reason-Fits : Fits (decide_reason config c d)
  unfolding decide_reason
  reason-Fits = ground (arith, swap-Fits, zeroed)

  -- A decision that starts without a reason and with the score 0 ends with the score that
  -- `least_score` gives for its reason: 201 for thrashing in direct reclaim, at every level of it, and
  -- for a small file cache, 100 for thrashing with low memory and for compaction,
  -- `lowmem_min_oom_score` for low memory alone, 100 or 50 soon after a kill, 50 at the critical level,
  -- 201 with low swap unless the min watermark is breached or thrashing is critical, and 0 for the
  -- others.
  pub decide-least_score :
      (decide config c d).min_score_adj ≡ least_score config c (decide config c d).kill_reason
  unfolding decide
  decide-least_score =
      elim (Bool-cases
        (not (has_reason (decide_reason config c d).kill_reason) && is_below_high c)) [
          | inl e ↦ rw (decide, e) refl
          | inr e ↦ rw (decide, e) reason-Fits
        ]
