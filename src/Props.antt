-- ===== src/Props.antt =====
-- lmkd.cpp: the settings, and `update_props` with `update_perf_props`. libcutils gives the properties
-- as values of the type that is asked for. The vendor's performance library gives the text of a
-- property, of which `strtod` makes a number and the assignment an `int`: the record Perf has the
-- result of the three. The share of the file cache, a float, is not kept here.
pub mod Ranges
use android_system_memory_lm.Base.{
  ℕ, ◌-◌, ◌^◌, Option, none, some, Bool, true, false, ◌&&◌, ◌||◌, not, if◌then◌else◌, ℤ, pos,
  negsuc, ◌*ℤ◌, ltb_ℤ, min_ℤ, max_ℤ,
}
use Prim.Native.String.{String}

pub record Perf : Type 0 where
  -- The number of a property, given the default.
  pub number : String → ℤ → ℤ
  -- Is the text of a property not "false", given the default?
  pub flag : String → Bool → Bool

pub record Properties : Type 0 where
  -- persist.device_config.lmkd_native.<name> and ro.lmk.<name>, where they are set.
  pub experiment_bool : String → Option Bool
  pub ro_bool : String → Option Bool
  pub experiment_int : String → Option ℤ
  pub ro_int : String → Option ℤ
  -- ro.debuggable, ro.config.low_ram and ro.config.per_app_memcg.
  pub debuggable : Option Bool
  pub low_ram : Option Bool
  pub per_app_memcg : Option Bool
  -- Where the library can be loaded and has perf_get_prop.
  pub perf : Option Perf
  -- Do init_PreferredApps find the function that it needs and memory for its buffer?
  pub has_preferred_api : Bool
  -- The status of the multi-generational LRU that get_MGLRU_status reads.
  pub mglru_status : ℤ
  -- lmkd_update_props_hook, which may be the vendor's.
  pub update_props_hook : Bool

pub record Settings : Type 0 where
  pub debug_process_killing : Bool
  pub is_userdebug_or_eng_build : Bool
  pub upgrade_pressure : ℤ
  pub downgrade_pressure : ℤ
  pub kill_heaviest_task : Bool
  pub low_ram_device : Bool
  -- An `unsigned long`.
  pub kill_timeout_ms : ℤ
  pub pressure_after_kill_min_score : ℤ
  pub use_minfree_levels : Bool
  pub per_app_memcg : Bool
  pub swap_free_low_percentage : ℤ
  pub psi_partial_stall_ms : ℤ
  pub psi_complete_stall_ms : ℤ
  pub psi_complete_stall_scrit_ms : ℤ
  pub thrashing_limit_pct : ℤ
  pub thrashing_limit_decay_pct : ℤ
  pub thrashing_critical_pct : ℤ
  pub swap_util_max : ℤ
  pub filecache_min_kb : ℤ
  pub stall_limit_critical : ℤ
  pub delay_monitors_until_boot : Bool
  pub direct_reclaim_threshold_ms : ℤ
  pub swap_compression_ratio : ℤ
  pub lowmem_min_oom_score : ℤ
  pub psi_window_size_ms : ℤ
  pub psi_poll_period_scrit_ms : ℤ
  pub psi_cont_event_thresh : ℤ
  pub enable_userspace_lmk : Bool
  pub enable_preferred_apps : Bool
  pub use_perf_api_for_pref_apps : Bool
  pub wmark_boost_factor : ℤ
  pub wbf_effective : ℤ
  pub mglru_status : ℤ
  pub has_inkernel_module : Bool
  pub use_inkernel_interface : Bool

abbrev or_default {ℓ} : {A : Type ℓ} → Option A → A → A
or_default none d = d
or_default (some a) d = a

-- GET_LMK_PROPERTY: an experiment has precedence over the property of the device.
unfoldable pub get_bool : Properties → String → Bool → Bool
get_bool p name d = or_default (p.experiment_bool name) (or_default (p.ro_bool name) d)

unfoldable pub get_int : Properties → String → ℤ → ℤ
get_int p name d = or_default (p.experiment_int name) (or_default (p.ro_int name) d)

unfoldable pub clamp : ℤ → ℤ → ℤ → ℤ
clamp low high value = max_ℤ (min_ℤ value high) low

-- The conversion of an `int` to `unsigned long`.
abbrev to_ulong : ℤ → ℤ
to_ulong (pos n) = pos n
to_ulong (negsuc n) = pos (2 ^ 64 - 1 - n)

abbrev pub perceptible_app_adj : ℤ
perceptible_app_adj = pos 200

abbrev pub low_ram_default : Properties → Bool
low_ram_default p = or_default p.low_ram false

unfoldable pub update_lmk_props : Properties → Settings → Settings
unfolding get_bool get_int clamp
update_lmk_props p s =
    let low_ram_device = low_ram_default p in
    let limit =
      max_ℤ (pos 0) (get_int p "thrashing_limit" (if low_ram_device then pos 30 else pos 30)) in
    record s {
      debug_process_killing = get_bool p "debug" false;
      is_userdebug_or_eng_build = or_default p.debuggable false;
      upgrade_pressure = get_int p "upgrade_pressure" (pos 100);
      downgrade_pressure = get_int p "downgrade_pressure" (pos 100);
      kill_heaviest_task = get_bool p "kill_heaviest_task" false;
      low_ram_device = low_ram_device;
      kill_timeout_ms = to_ulong (get_int p "kill_timeout_ms" (pos 100));
      pressure_after_kill_min_score = get_int p "pressure_after_kill_min_score" (pos 0);
      use_minfree_levels = get_bool p "use_minfree_levels" false;
      per_app_memcg = or_default p.per_app_memcg low_ram_device;
      swap_free_low_percentage =
          clamp (pos 0) (pos 100) (get_int p "swap_free_low_percentage" (pos 10));
      psi_partial_stall_ms =
          get_int p "psi_partial_stall_ms" (if low_ram_device then pos 200 else pos 70);
      psi_complete_stall_ms = get_int p "psi_complete_stall_ms" (pos 700);
      thrashing_limit_pct = limit;
      thrashing_limit_decay_pct =
          clamp (pos 0) (pos 100)
            (get_int p "thrashing_limit_decay" (if low_ram_device then pos 50 else pos 10));
      thrashing_critical_pct =
          max_ℤ (pos 0) (get_int p "thrashing_limit_critical" (limit *ℤ pos 3));
      swap_util_max = clamp (pos 0) (pos 100) (get_int p "swap_util_max" (pos 100));
      filecache_min_kb = get_int p "filecache_min_kb" (pos 0);
      stall_limit_critical = get_int p "stall_limit_critical" (pos 100);
      delay_monitors_until_boot = get_bool p "delay_monitors_until_boot" false;
      direct_reclaim_threshold_ms = get_int p "direct_reclaim_threshold_ms" (pos 0);
      swap_compression_ratio = get_int p "swap_compression_ratio" (pos 1);
      lowmem_min_oom_score = max_ℤ (pos 201) (get_int p "lowmem_min_oom_score" (pos 701));
    }

-- What the performance library's properties override.
unfoldable pub apply_perf : Perf → Settings → Settings
apply_perf perf s =
    let enable_userspace_lmk = perf.flag "ro.lmk.enable_userspace_lmk" false in
    let boost = perf.number "ro.lmk.nstrat_wmark_boost_factor" s.wmark_boost_factor in
    record s {
      kill_heaviest_task = perf.flag "ro.lmk.kill_heaviest_task_dup" s.kill_heaviest_task;
      kill_timeout_ms = perf.number "ro.lmk.kill_timeout_ms_dup" s.kill_timeout_ms;
      psi_window_size_ms = perf.number "ro.lmk.psi_window_size_ms" (pos 1000);
      psi_complete_stall_scrit_ms = perf.number "ro.lmk.psi_scrit_complete_stall_ms" (pos 800);
      psi_poll_period_scrit_ms = perf.number "ro.lmk.psi_poll_period_scrit_ms" (pos 10);
      use_minfree_levels = perf.flag "ro.lmk.use_minfree_levels_dup" s.use_minfree_levels;
      psi_cont_event_thresh = perf.number "ro.lmk.psi_cont_event_thresh" (pos 4);
      thrashing_limit_pct = perf.number "ro.lmk.thrashing_threshold" (pos 30);
      thrashing_limit_decay_pct = perf.number "ro.lmk.thrashing_decay" (pos 10);
      swap_free_low_percentage = perf.number "ro.lmk.nstrat_low_swap" (pos 10);
      psi_partial_stall_ms = perf.number "ro.lmk.nstrat_psi_partial_ms" s.psi_partial_stall_ms;
      psi_complete_stall_ms = perf.number "ro.lmk.nstrat_psi_complete_ms" s.psi_complete_stall_ms;
      enable_userspace_lmk = enable_userspace_lmk;
      enable_preferred_apps = perf.flag "ro.lmk.enable_preferred_apps" false;
      use_perf_api_for_pref_apps = perf.flag "ro.vendor.use_perf_hal_for_preferredapps" false;
      wmark_boost_factor = boost;
      wbf_effective = boost;
      use_inkernel_interface = s.has_inkernel_module && not enable_userspace_lmk;
    }

abbrev with_perf : Option Perf → Settings → Settings
with_perf none s = s
with_perf (some perf) s = apply_perf perf s

unfoldable pub update_perf_props : Properties → Settings → Settings
unfolding apply_perf
update_perf_props p s =
    let preferred = or_default (p.ro_bool "enable_preferred_apps") false in
    let s' = with_perf p.perf (record s { enable_preferred_apps = preferred }) in
    record s' {
      enable_preferred_apps = s'.enable_preferred_apps && p.has_preferred_api;
      mglru_status = p.mglru_status;
    }

-- The settings, and whether the hook accepts them.
unfoldable pub update_props : Properties → Settings → Bool × Settings
unfolding update_lmk_props update_perf_props
update_props p s = (p.update_props_hook, update_perf_props p (update_lmk_props p s))
