-- ===== src/Pressure/Evaluate.antt =====
-- lmkd.cpp: the part of `mp_event_psi` from the label `update_watermarks` on that evaluates the
-- watermarks and the reason, and what a kill that freed pages changes.
use android_system_memory_lm.Base.{
  ◌+◌, ◌*◌, List, Option, none, some, Bool, true, false, ◌&&◌, ◌||◌, ltb, if◌then◌else◌, ℤ, pos,
  ltb_ℤ, min_ℤ, max_ℤ, ◌+ℤ◌, ◌-ℤ◌, ◌*ℤ◌, quot,
}
use android_system_memory_lm.Text.{Bytes}
use android_system_memory_lm.Polling.{Level, level_number}
use android_system_memory_lm.Pressure.{
  Config, State, Vmstat, Meminfo, Zoneinfo, ZoneWatermark, KillReason, no_reason,
  pressure_after_kill, low_swap_and_thrashing, low_mem_and_swap, low_mem_and_thrashing,
  direct_recl_and_thrashing, low_mem_and_swap_util, low_filecache_after_thrashing, low_mem,
  compaction, direct_recl_stuck, not_responding, direct_recl_and_throt, calc_swap_utilization,
  get_lowest_watermark,
}
use android_system_memory_lm.Pressure.Zones.{calc_zone_watermarks}
use android_system_memory_lm.Pressure.Decide.{Conditions, Decision, decide, is_direct, is_throttled}
use android_system_memory_lm.Pressure.Reclaim.{Reclaim}

unfoldable pub lower_boost : Config → State → State
lower_boost config s = record s {
  wbf_effective = max_ℤ (s.wbf_effective -ℤ config.wbf_step) (pos 1);
}

-- The local variables from the label `update_watermarks` on.
pub record Locals : Type 0 where
  pub level : Level
  pub is_event : Bool
  pub cycle_after_kill : Bool
  pub reclaim : Reclaim
  pub swap_is_low : Bool
  pub in_compaction : Bool
  pub thrashing : ℤ
  pub vmstat : Vmstat
  pub meminfo : Meminfo

-- One evaluation of the watermarks and the reason: /proc/zoneinfo may not be read, or the deltas
-- may be read past their end.
pub data Evaluation : Type 0 where
  failed undefined : Evaluation
  decided : Decision → Bool → State → Evaluation

unfoldable pub conditions : Config → Locals → State → ZoneWatermark → Conditions
conditions config l s wmark = record {
  level = l.level;
  is_event = l.is_event;
  cycle_after_kill = l.cycle_after_kill;
  reclaim = l.reclaim.reclaim;
  wmark = wmark;
  swap_is_low = l.swap_is_low;
  thrashing = l.thrashing;
  thrashing_limit = s.thrashing_limit;
  in_compaction = l.in_compaction;
  swap_util = calc_swap_utilization config l.meminfo;
  direct_reclaim_duration_ms = l.reclaim.direct_reclaim_duration_ms;
  file_lru_kb = pos ((l.vmstat.nr_inactive_file + l.vmstat.nr_active_file) * config.page_k);
}

-- The event counts for an upgrade where a lower level meets direct reclaim.
unfoldable pub mark_upgrade : Locals → State → State
mark_upgrade l s =
    if ltb (level_number l.level) 2
      && (is_direct l.reclaim.reclaim || is_throttled l.reclaim.reclaim)
    then record s { last_event_upgraded = true }
    else s

-- `critical_stall` stays as it is where /proc/pressure/memory cannot be read.
unfoldable pub check_stall : Config → Option ℤ → Bool → Bool
check_stall config avg10 old = elim avg10 [
  | none ↦ old
  | some a ↦ ltb_ℤ (config.stall_limit_critical *ℤ pos 100) a
]

-- From the label `update_watermarks` to the end of the decision.
unfoldable pub evaluate :
    Config → List Bytes → Locals → Option Zoneinfo → Option ℤ → Decision → Bool → State → Evaluation
unfolding conditions mark_upgrade check_stall
evaluate config field_names l zoneinfo avg10 d stall s = elim zoneinfo [
  | none ↦ failed
  | some zi ↦
      elim (calc_zone_watermarks config field_names s.mglru_status s.wbf_effective
        l.reclaim.pgskip_deltas zi) [
          | none ↦ undefined
          | some zmi ↦
              let wmark =
                get_lowest_watermark config s.wbf_effective zmi l.level l.is_event
                  l.in_compaction in
              let d' = decide config (conditions config l s wmark) d in
              let s' = mark_upgrade l s in
              decided d' (check_stall config avg10 stall)
                (record s' { check_filecache = d'.check_filecache })
        ]
]

unfoldable pub raises_boost : KillReason → Bool
raises_boost reason = elim reason [
  | no_reason ↦ false
  | pressure_after_kill ↦ false
  | not_responding ↦ true
  | low_swap_and_thrashing ↦ false
  | low_mem_and_swap ↦ false
  | low_mem_and_thrashing ↦ false
  | direct_recl_and_thrashing ↦ false
  | low_mem_and_swap_util ↦ false
  | low_filecache_after_thrashing ↦ false
  | low_mem ↦ false
  | compaction ↦ false
  | direct_recl_and_throt ↦ true
  | direct_recl_stuck ↦ false
]

-- After a kill that freed pages.
unfoldable pub after_kill : Config → Decision → State → State
unfolding lower_boost raises_boost
after_kill config d s =
    let boosted =
      if raises_boost d.kill_reason
      then record s {
        wbf_effective = min_ℤ (s.wbf_effective +ℤ config.wbf_step) config.wmark_boost_factor;
      }
      else lower_boost config s in
    record boosted {
      killing = true;
      max_thrashing = pos 0;
      thrashing_limit =
          if d.cut_thrashing_limit
          then quot (s.thrashing_limit *ℤ (pos 100 -ℤ pos config.thrashing_limit_decay_pct)) 100
          else s.thrashing_limit;
    }
