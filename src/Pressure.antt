-- ===== src/Pressure.antt =====
-- lmkd.cpp: the reaction to a memory pressure event, `mp_event_psi`.
-- Its static variables and the globals that it writes are the State. The counters of /proc/vmstat and
-- /proc/meminfo are numbers, which the kernel prints without a sign, except where the code stores -1
-- for one that is missing; sums and products are exact, as 64-bit counters of pages allow.
pub mod Fields
pub mod Zones
pub mod Reads
pub mod Decide
pub mod Reclaim
pub mod Evaluate
pub mod Event
pub mod Reasons
pub mod Scores
pub mod Watermark
pub mod Factor
pub mod Boost
pub mod Pending
use android_system_memory_lm.Base.{
  ℕ, zero, suc, ◌+◌, ◌*◌, ◌/◌, List, [], ◌∷◌, Option, none, some, Bool, true, false, ◌&&◌, ◌||◌,
  not, ltb, leb, ◌==◌, if◌then◌else◌, ℤ, pos, negsuc, ltb_ℤ, leb_ℤ, eqb_ℤ, min_ℤ, max_ℤ, ◌+ℤ◌, ◌-ℤ◌,
  ◌*ℤ◌, quot, pos_part,
}
use android_system_memory_lm.Text.{Bytes}
use android_system_memory_lm.Polling.{
  Timespec, Level, level_number, low, medium, critical, super_critical,
}

pub data KillReason : Type 0 where
  no_reason pressure_after_kill not_responding low_swap_and_thrashing : KillReason
  low_mem_and_swap low_mem_and_thrashing direct_recl_and_thrashing : KillReason
  low_mem_and_swap_util low_filecache_after_thrashing low_mem compaction : KillReason
  direct_recl_and_throt direct_recl_stuck : KillReason

-- CRITICAL_KILL is another name of NOT_RESPONDING.
abbrev pub critical_kill : KillReason
critical_kill = not_responding

pub data ReclaimState : Type 0 where
  no_reclaim kswapd_reclaim direct_reclaim direct_reclaim_throttle : ReclaimState

pub data ZoneWatermark : Type 0 where
  wmark_min wmark_low wmark_high wmark_none : ZoneWatermark

abbrev pub wmark_number : ZoneWatermark → ℕ
wmark_number wmark_min = 0
wmark_number wmark_low = 1
wmark_number wmark_high = 2
wmark_number wmark_none = 3

-- `union vmstat`. The refault counter is the one that mp_event_psi takes from the two fields. The
-- skipped pages of the zones are in the order of `enum vmstat_field`.
pub record Vmstat : Type 0 where
  pub nr_inactive_file : ℕ
  pub nr_active_file : ℕ
  pub workingset_refault : ℕ
  pub workingset_refault_file : ℕ
  pub pgrefill : ℕ
  pub pgscan_kswapd : ℕ
  pub pgscan_direct : ℕ
  pub pgscan_direct_throttle : ℕ
  pub pgskip : List ℤ
  pub compact_stall : ℕ

-- The fields of `union meminfo` that the decision reads.
pub record Meminfo : Type 0 where
  pub shmem : ℕ
  pub total_swap : ℕ
  pub free_swap : ℕ
  pub active_anon : ℕ
  pub inactive_anon : ℕ
  pub easy_available : ℤ

-- A zone of /proc/zoneinfo, with `present` 0 where it has no pages.
pub record Zone : Type 0 where
  pub name : Bytes
  pub present : ℤ
  pub nr_free_pages : ℤ
  pub nr_free_cma : ℤ
  pub min : ℤ
  pub low : ℤ
  pub high : ℤ
  pub max_protection : ℤ
  pub nr_zone_inactive_file : ℤ
  pub nr_zone_active_file : ℤ

-- The zones of each node, in their order.
abbrev pub Zoneinfo : Type 0
Zoneinfo = List (List Zone)

-- `struct zone_meminfo` with its `struct zone_watermarks`.
pub record ZoneMeminfo : Type 0 where
  pub nr_free_pages : ℤ
  pub cma_free : ℤ
  pub nr_zone_inactive_file : ℤ
  pub nr_zone_active_file : ℤ
  pub min_wmark : ℤ
  pub low_wmark : ℤ
  pub high_wmark : ℤ

-- `struct wakeup_info`.
pub record WakeupInfo : Type 0 where
  pub wakeup_tm : Timespec
  pub prev_wakeup_tm : Timespec
  pub last_event_tm : Timespec
  pub wakeups_since_event : ℕ
  pub skipped_wakeups : ℕ

pub record Config : Type 0 where
  pub enable_preferred_apps : Bool
  pub pa_update_timeout_ms : ℤ
  pub kill_timeout_ms : ℕ
  pub swap_free_low_percentage : ℕ
  pub swap_compression_ratio : ℤ
  pub swap_util_max : ℕ
  pub thrashing_limit_pct : ℕ
  pub thrashing_critical_pct : ℕ
  pub thrashing_limit_decay_pct : ℕ
  pub direct_reclaim_threshold_ms : ℤ
  pub filecache_min_kb : ℤ
  pub stall_limit_critical : ℤ
  pub lowmem_min_oom_score : ℕ
  pub psi_cont_event_thresh : ℤ
  pub psi_poll_period_scrit_ms : ℤ
  pub wmark_boost_factor : ℤ
  pub wbf_step : ℤ
  pub page_k : ℕ
  pub debug_process_killing : Bool
  pub memevent_listener : Bool
  -- Is the float `cache_percent` not 0, and `(int64_t)(cache_percent * n)`.
  pub has_cache_percent : Bool
  pub cache_part : ℤ → ℤ
  -- What the compiled code gives for `n >> k` with k of 64 or more, which C++ leaves undefined.
  pub long_shift : ℤ → ℕ → ℤ

-- What mp_event_psi keeps from one call to the next, apart from the state of the kills.
pub record State : Type 0 where
  pub init_ws_refault : ℕ
  pub prev_workingset_refault : ℕ
  pub base_file_lru : ℕ
  pub init_pgrefill : ℕ
  pub init_pgscan_kswapd : ℕ
  pub init_pgscan_direct : ℕ
  pub init_direct_throttle : ℕ
  pub init_pgskip : List ℤ
  pub killing : Bool
  pub thrashing_limit : ℤ
  pub wi : WakeupInfo
  pub last_pa_update_tm : Timespec
  pub init_compact_stall : ℕ
  pub thrashing_reset_tm : Timespec
  pub prev_thrash_growth : ℤ
  pub check_filecache : Bool
  pub max_thrashing : ℤ
  pub first_kill : Bool
  pub wbf_effective : ℤ
  pub last_event_upgraded : Bool
  pub count_upgraded_event : ℤ
  pub mglru_status : ℤ
  pub direct_reclaim_start_tm : Timespec
  pub kswapd_start_tm : Timespec

unfoldable pub record_wakeup_time : Timespec → Bool → WakeupInfo → WakeupInfo
record_wakeup_time tm is_event wi =
    let moved = record wi { prev_wakeup_tm = wi.wakeup_tm; wakeup_tm = tm } in
    if is_event
    then record moved { last_event_tm = tm; wakeups_since_event = 0; skipped_wakeups = 0 }
    else record moved { wakeups_since_event = wi.wakeups_since_event + 1 }

unfoldable pub get_free_swap : Config → Meminfo → ℤ
get_free_swap config mi =
    if not (eqb_ℤ config.swap_compression_ratio (pos 0))
    then min_ℤ (pos mi.free_swap) (mi.easy_available *ℤ config.swap_compression_ratio)
    else pos mi.free_swap

unfoldable pub calc_swap_utilization : Config → Meminfo → ℤ
unfolding get_free_swap
calc_swap_utilization config mi =
    let swap_used = pos mi.total_swap -ℤ get_free_swap config mi in
    let total_swappable = pos (mi.active_anon + mi.inactive_anon + mi.shmem) +ℤ swap_used in
    if ltb_ℤ (pos 0) total_swappable
    then quot (swap_used *ℤ pos 100) (pos_part total_swappable)
    else pos 0

-- `swap_low_threshold`, and `swap_is_low`.
unfoldable pub check_swap : Config → Meminfo → Bool
unfolding get_free_swap
check_swap config mi =
    if config.swap_free_low_percentage == 0
    then false
    else ltb_ℤ (get_free_swap config mi)
        (pos (mi.total_swap * config.swap_free_low_percentage / 100))

unfoldable pub should_consider_cache_free : Config → Bool → Level → Bool → Bool
should_consider_cache_free config is_event level in_compaction =
    if config.has_cache_percent
    then (if in_compaction
        then false
        else if ltb (level_number level) 2
        then true
        else not is_event && level_number level == 2)
    else false

-- Which watermark is breached, from the lowest on.
unfoldable pub get_lowest_watermark : Config → ℤ → ZoneMeminfo → Level → Bool → Bool → ZoneWatermark
unfolding should_consider_cache_free
get_lowest_watermark config wbf zmi level is_event in_compaction =
    let nr_free_pages = zmi.nr_free_pages -ℤ zmi.cma_free in
    let file_cache = zmi.nr_zone_inactive_file +ℤ zmi.nr_zone_active_file in
    let nr_cached_pages =
      if should_consider_cache_free config is_event level in_compaction && ltb_ℤ (pos 0) file_cache
      then config.cache_part file_cache
      else pos 0 in
    if ltb_ℤ (nr_free_pages +ℤ nr_cached_pages) zmi.min_wmark
    then wmark_min
    else if ltb_ℤ (nr_free_pages +ℤ nr_cached_pages *ℤ wbf) (wbf *ℤ zmi.low_wmark)
    then wmark_low
    else if ltb_ℤ (nr_free_pages +ℤ nr_cached_pages *ℤ wbf) (wbf *ℤ zmi.high_wmark)
    then wmark_high
    else wmark_none
