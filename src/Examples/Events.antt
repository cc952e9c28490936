-- ===== src/Examples/Events.antt =====
-- Pressure events at concrete values.
use android_system_memory_lm.Base.{
  List, ℤ, inr, ◌≡◌, refl, arith, [], ◌∷◌, some, none, true, false, pos, negsuc,
}
use android_system_memory_lm.Polling.{medium, critical, pause}
use android_system_memory_lm.Kill
use android_system_memory_lm.Kill.{is_waiting_for_kill}
use android_system_memory_lm.Pressure.{
  Zone, Config, State, ZoneMeminfo, no_reason, no_reclaim, wmark_low, wmark_none,
}
use android_system_memory_lm.Pressure.Fields.{vmstat_field_names}
use android_system_memory_lm.Pressure.Zones.{calc_zone_watermarks, find_field}
use android_system_memory_lm.Pressure.Reads.{AllFit, calc_zone_watermarks-total}
use android_system_memory_lm.Pressure.Decide.{Conditions, Decision, decide, has_reason}
use android_system_memory_lm.Pressure.Reasons.{decide-kills}
use android_system_memory_lm.Pressure.Scores.{least_score, decide-least_score}
use android_system_memory_lm.Pressure.Event.{Readings, World, is_kill_in_progress, mp_event_psi}
use android_system_memory_lm.Pressure.Factor.{InRange, Ends}
use android_system_memory_lm.Pressure.Boost.{mp_event_psi-InRange}
use android_system_memory_lm.Pressure.Pending.{mp_event_psi-pending}
use android_system_memory_lm.Examples.Kills
use android_system_memory_lm.Examples.Calls.{zero_tm, later, later_ms, params}

abbrev config : Config
config = record {
  enable_preferred_apps = false;
  pa_update_timeout_ms = pos 60000;
  kill_timeout_ms = 100;
  swap_free_low_percentage = 10;
  swap_compression_ratio = pos 1;
  swap_util_max = 100;
  thrashing_limit_pct = 30;
  thrashing_critical_pct = 60;
  thrashing_limit_decay_pct = 50;
  direct_reclaim_threshold_ms = pos 0;
  filecache_min_kb = pos 0;
  stall_limit_critical = pos 100;
  lowmem_min_oom_score = 701;
  psi_cont_event_thresh = pos 10;
  psi_poll_period_scrit_ms = pos 100;
  wmark_boost_factor = pos 3;
  wbf_step = pos 1;
  page_k = 4;
  debug_process_killing = false;
  memevent_listener = false;
  has_cache_percent = false;
  cache_part = λ n. n;
  long_shift = λ n k. pos 0;
}

abbrev calm : Conditions
calm = record {
  level = medium;
  is_event = true;
  cycle_after_kill = false;
  reclaim = no_reclaim;
  wmark = wmark_none;
  swap_is_low = false;
  thrashing = pos 5;
  thrashing_limit = pos 30;
  in_compaction = false;
  swap_util = pos 20;
  direct_reclaim_duration_ms = pos 0;
  file_lru_kb = pos 200000;
}

abbrev low_on_memory : Conditions
low_on_memory = record calm { wmark = wmark_low }

abbrev undecided : Decision
undecided = record {
  kill_reason = no_reason;
  min_score_adj = 0;
  cut_thrashing_limit = false;
  check_filecache = false;
}

decide-kills_example : has_reason (decide config low_on_memory undecided).kill_reason ≡ true
decide-kills_example = decide-kills config low_on_memory undecided refl

decide-least_score_example :
    (decide config low_on_memory undecided).min_score_adj
    ≡ least_score config low_on_memory (decide config low_on_memory undecided).kill_reason
decide-least_score_example = decide-least_score config low_on_memory undecided refl refl

abbrev zones : ZoneMeminfo
zones = record {
  nr_free_pages = pos 9000;
  cma_free = pos 1000;
  nr_zone_inactive_file = pos 5000;
  nr_zone_active_file = pos 5000;
  min_wmark = pos 4000;
  low_wmark = pos 9000;
  high_wmark = pos 12000;
}

-- The zones of a phone: DMA32, Normal and Movable, the last one without pages.
abbrev dma32 : Zone
dma32 = record {
  name = b'D' ∷ b'M' ∷ b'A' ∷ b'3' ∷ b'2' ∷ [];
  present = pos 500000;
  nr_free_pages = pos 20000;
  nr_free_cma = pos 3000;
  min = pos 1000;
  low = pos 5000;
  high = pos 6000;
  max_protection = pos 800;
  nr_zone_inactive_file = pos 40000;
  nr_zone_active_file = pos 30000;
}

abbrev normal : Zone
normal = record dma32 { name = b'N' ∷ b'o' ∷ b'r' ∷ b'm' ∷ b'a' ∷ b'l' ∷ [] }

abbrev movable : Zone
movable = record dma32 {
  name = b'M' ∷ b'o' ∷ b'v' ∷ b'a' ∷ b'b' ∷ b'l' ∷ b'e' ∷ [];
  present = pos 0;
}

-- The kernel lists no counter for the zones DMA and High.
abbrev deltas : List ℤ
deltas = negsuc 0 ∷ pos 0 ∷ pos 0 ∷ negsuc 0 ∷ pos 0 ∷ []

three_zones-AllFit :
    AllFit config vmstat_field_names
      (pos 0)
      (pos 1)
      deltas
      refl
      ((dma32 ∷ normal ∷ movable ∷ []) ∷ [])
unfolding find_field
three_zones-AllFit = (
  (inr (10, pos 0, refl, refl), (inr (11, pos 0, refl, refl), (inr (13, pos 0, refl, refl), refl))),
  omega arith,
  refl,
)

calc_zone_watermarks-total_example :
    (zmi : ZoneMeminfo) × (calc_zone_watermarks config vmstat_field_names
        (pos 0)
        (pos 1)
        deltas
        ((dma32 ∷ normal ∷ movable ∷ []) ∷ [])
      ≡ some zmi)
calc_zone_watermarks-total_example =
    calc_zone_watermarks-total config vmstat_field_names (pos 0) (pos 1) deltas refl
      ((dma32 ∷ normal ∷ movable ∷ []) ∷ []) three_zones-AllFit

abbrev pressure_state : State
pressure_state = record {
  init_ws_refault = 0;
  prev_workingset_refault = 0;
  base_file_lru = 0;
  init_pgrefill = 0;
  init_pgscan_kswapd = 0;
  init_pgscan_direct = 0;
  init_direct_throttle = 0;
  init_pgskip = pos 0 ∷ pos 0 ∷ pos 0 ∷ pos 0 ∷ pos 0 ∷ [];
  killing = false;
  thrashing_limit = pos 30;
  wi = record {
    wakeup_tm = zero_tm;
    prev_wakeup_tm = zero_tm;
    last_event_tm = zero_tm;
    wakeups_since_event = 0;
    skipped_wakeups = 0;
  };
  last_pa_update_tm = zero_tm;
  init_compact_stall = 0;
  thrashing_reset_tm = zero_tm;
  prev_thrash_growth = pos 0;
  check_filecache = false;
  max_thrashing = pos 0;
  first_kill = true;
  wbf_effective = pos 1;
  last_event_upgraded = false;
  count_upgraded_event = pos 0;
  mglru_status = pos 0;
  direct_reclaim_start_tm = zero_tm;
  kswapd_start_tm = zero_tm;
}

abbrev world : World
world = record { state = pressure_state; kills = Kills.state; params = params }

abbrev readings : Readings
readings = record {
  curr_tm = some later;
  vmstat = none;
  meminfo = none;
  zoneinfo = λ again. none;
  full_avg10 = λ again. none;
}

mp_event_psi-InRange_example :
    Ends
      (λ u. InRange config u.state)
      (mp_event_psi config [] Kills.host Kills.config readings critical true world)
mp_event_psi-InRange_example =
    mp_event_psi-InRange config (omega arith) (omega arith) [] Kills.host Kills.config readings
      critical true world (omega arith, omega arith)

abbrev killing_world : World
killing_world =
    let k = Kills.state in
    record world { kills = record k { last_kill_pid_or_fd = pos 20; last_kill_tm = Kills.now } }

mp_event_psi-pending_example :
    (u : World) × (mp_event_psi config [] Kills.host Kills.config readings medium true killing_world
      ≡ some u)
    × (u.kills ≡ killing_world.kills)
    × (is_waiting_for_kill Kills.config killing_world.kills ≡ true → u.params.update ≡ pause)
unfolding is_kill_in_progress Kill.is_kill_pending
mp_event_psi-pending_example =
    mp_event_psi-pending config [] Kills.host Kills.config readings later medium true killing_world
      refl (ground (arith, later_ms))
