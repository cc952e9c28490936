-- ===== src/Pressure/Decide.antt =====
-- lmkd.cpp: the part of `mp_event_psi` that decides whether to kill, why, and from which score on.
use android_system_memory_lm.Base.{
  ℕ, ◌+◌, Bool, true, false, ◌&&◌, not, ltb, leb, ◌==◌, if◌then◌else◌, ℤ, pos, ltb_ℤ,
}
use android_system_memory_lm.Polling.{Level, level_number}
use android_system_memory_lm.Pressure.{
  Config, KillReason, no_reason, pressure_after_kill, not_responding, low_swap_and_thrashing,
  low_mem_and_swap, low_mem_and_thrashing, direct_recl_and_thrashing, low_mem_and_swap_util,
  low_filecache_after_thrashing, low_mem, compaction, direct_recl_and_throt, direct_recl_stuck,
  critical_kill, ReclaimState, no_reclaim, kswapd_reclaim, direct_reclaim, direct_reclaim_throttle,
  ZoneWatermark, wmark_number,
}

abbrev pub perceptible_app_adj : ℕ
perceptible_app_adj = 200

abbrev pub visible_app_adj : ℕ
visible_app_adj = 100

abbrev pub perceptible_recent_foreground_app_adj : ℕ
perceptible_recent_foreground_app_adj = 50

-- The local variables that the decision reads.
pub record Conditions : Type 0 where
  pub level : Level
  pub is_event : Bool
  pub cycle_after_kill : Bool
  pub reclaim : ReclaimState
  pub wmark : ZoneWatermark
  pub swap_is_low : Bool
  pub thrashing : ℤ
  pub thrashing_limit : ℤ
  pub in_compaction : Bool
  pub swap_util : ℤ
  pub direct_reclaim_duration_ms : ℤ
  pub file_lru_kb : ℤ

-- The variables that it writes.
pub record Decision : Type 0 where
  pub kill_reason : KillReason
  pub min_score_adj : ℕ
  pub cut_thrashing_limit : Bool
  pub check_filecache : Bool

unfoldable pub is_direct : ReclaimState → Bool
is_direct direct_reclaim = true
is_direct kswapd_reclaim = false
is_direct direct_reclaim_throttle = false
is_direct no_reclaim = false

unfoldable pub is_throttled : ReclaimState → Bool
is_throttled direct_reclaim_throttle = true
is_throttled direct_reclaim = false
is_throttled kswapd_reclaim = false
is_throttled no_reclaim = false

-- wmark <= WMARK_HIGH, wmark < WMARK_HIGH, and wmark > WMARK_MIN.
abbrev pub is_breached : Conditions → Bool
is_breached c = leb (wmark_number c.wmark) 2

abbrev pub is_below_high : Conditions → Bool
is_below_high c = ltb (wmark_number c.wmark) 2

abbrev pub is_above_min : Conditions → Bool
is_above_min c = ltb 0 (wmark_number c.wmark)

-- Perceptible apps are spared where memory is not at its lowest and thrashing is not critical.
abbrev spare_perceptible : Config → Conditions → ℕ → ℕ
spare_perceptible config c old =
    if is_above_min c && ltb_ℤ c.thrashing (pos config.thrashing_critical_pct)
    then perceptible_app_adj + 1
    else old

-- The branches from `check_filecache` on.
unfoldable pub decide_filecache : Config → Conditions → Decision → Decision
decide_filecache config c d =
    if d.check_filecache
    then (if ltb_ℤ c.file_lru_kb config.filecache_min_kb
        then record d {
          kill_reason = low_filecache_after_thrashing;
          min_score_adj = perceptible_app_adj + 1;
        }
        else record d { check_filecache = false })
    else if c.in_compaction && is_breached c
    then record d { kill_reason = compaction; min_score_adj = visible_app_adj }
    else d

-- The branches on thrashing with enough swap, and those that follow.
unfoldable pub decide_thrashing : Config → Conditions → Decision → Decision
unfolding is_direct decide_filecache
decide_thrashing config c d =
    if is_breached c && ltb_ℤ c.thrashing_limit c.thrashing
    then record {
      kill_reason = low_mem_and_thrashing;
      min_score_adj = visible_app_adj;
      cut_thrashing_limit = true;
      check_filecache = true;
    }
    else if is_direct c.reclaim && ltb_ℤ c.thrashing_limit c.thrashing
    then record {
      kill_reason = direct_recl_and_thrashing;
      min_score_adj = perceptible_app_adj + 1;
      cut_thrashing_limit = true;
      check_filecache = true;
    }
    else if is_direct c.reclaim
        && ltb_ℤ (pos 0) config.direct_reclaim_threshold_ms
        && ltb_ℤ config.direct_reclaim_threshold_ms c.direct_reclaim_duration_ms
    then record d { kill_reason = direct_recl_stuck }
    else decide_filecache config c d

-- The branches on low swap, and those that follow.
unfoldable pub decide_swap : Config → Conditions → Decision → Decision
unfolding decide_thrashing
decide_swap config c d =
    if c.swap_is_low && ltb_ℤ (pos config.thrashing_limit_pct) c.thrashing
    then record d {
      kill_reason = low_swap_and_thrashing;
      min_score_adj = spare_perceptible config c d.min_score_adj;
      check_filecache = true;
    }
    else if c.swap_is_low && is_breached c
    then record d {
      kill_reason = low_mem_and_swap;
      min_score_adj = spare_perceptible config c d.min_score_adj;
    }
    else if is_below_high c
        && ltb config.swap_util_max 100
        && ltb_ℤ (pos config.swap_util_max) c.swap_util
    then record d { kill_reason = low_mem_and_swap_util }
    else decide_thrashing config c d

-- The whole chain of branches.
unfoldable pub decide_reason : Config → Conditions → Decision → Decision
unfolding decide_swap is_throttled
decide_reason config c d =
    if c.cycle_after_kill && leb (wmark_number c.wmark) 1
    then record d {
      kill_reason = pressure_after_kill;
      min_score_adj =
          if is_above_min c then visible_app_adj else perceptible_recent_foreground_app_adj;
    }
    else if is_throttled c.reclaim
    then record d { kill_reason = direct_recl_and_throt }
    else if level_number c.level == 2 && c.is_event && is_breached c
    then record d {
      kill_reason = critical_kill;
      min_score_adj = perceptible_recent_foreground_app_adj;
    }
    else if level_number c.level == 3 && c.is_event && is_breached c
    then record d { kill_reason = not_responding }
    else decide_swap config c d

unfoldable pub has_reason : KillReason → Bool
has_reason no_reason = false
has_reason pressure_after_kill = true
has_reason not_responding = true
has_reason low_swap_and_thrashing = true
has_reason low_mem_and_swap = true
has_reason low_mem_and_thrashing = true
has_reason direct_recl_and_thrashing = true
has_reason low_mem_and_swap_util = true
has_reason low_filecache_after_thrashing = true
has_reason low_mem = true
has_reason compaction = true
has_reason direct_recl_and_throt = true
has_reason direct_recl_stuck = true

-- The chain, and the check for a cached app after it.
unfoldable pub decide : Config → Conditions → Decision → Decision
unfolding decide_reason has_reason
decide config c d =
    let d' = decide_reason config c d in
    if not (has_reason d'.kill_reason) && is_below_high c
    then record d' { kill_reason = low_mem; min_score_adj = config.lowmem_min_oom_score }
    else d'
