-- ===== src/Examples/Server.antt =====
-- The connections, the monitors and the settings at concrete values.
use android_system_memory_lm.Base.{
  ◌≤ℤ◌, ℕ, ◌+◌, ◌≢◌, ◌≡◌, refl, arith, [], ◌∷◌, none, some, true, false, ◌==◌, if◌then◌else◌, pos,
  negsuc, ◌+ℤ◌, count, update,
}
use android_system_memory_lm.KillCount.{initial}
use android_system_memory_lm.Packet.{lmkd_pack_set_subscribe}
use android_system_memory_lm.Polling.{critical}
use android_system_memory_lm.Register.{apply_proc_prio}
use android_system_memory_lm.Props.{Properties, Settings, update_props}
use android_system_memory_lm.Props.Ranges.{InRange, update_props-InRange}
use android_system_memory_lm.Monitors.{
  Kernel, Thresholds, Monitors, destroy_monitors, destroy_mp, init_mp_common, init_psi_monitors,
}
use android_system_memory_lm.Monitors.Counts.{IsCounted}
use android_system_memory_lm.Monitors.Starts.{IsStopped, AllStarted}
use android_system_memory_lm.Monitors.Reinit.{destroy_monitors-restart, destroy_mp-init_mp_common}
use android_system_memory_lm.Connections.{Conn, Targets, Server, ctrl_connect_handler}
use android_system_memory_lm.Connections.Commands.{Answers}
use android_system_memory_lm.Connections.Events.{
  IsAccounted, base_after, handle_events, handle_connect, ctrl_connect_handler-IsAccounted,
}
use android_system_memory_lm.Connections.Order.{reconnect, handle_events_reconnects}
use android_system_memory_lm.Connections.{ctrl_data_close}
use android_system_memory_lm.Init.{Boot, init, init_events, init_reaper, with_control, with_tables}
use android_system_memory_lm.Init.MaxEvents.{max_epoll_events}
use android_system_memory_lm.Init.Runs.{IsFresh, start, step, connects, hangs_up, maxevents_bound}
use android_system_memory_lm.Examples.Processes
use android_system_memory_lm.Examples.Calls

abbrev kernel : Kernel
kernel = record {
  psi_open = λ level. some 30;
  psi_write = λ level. true;
  epoll_add = λ fd. true;
  is_memcg_v1 = true;
  pressure_level_open = λ level. some 31;
  event_control_open = λ level. some 32;
  eventfd = λ level. some 33;
  event_control_write = λ level. true;
  listener_ok = true;
  listener_registers_reclaim = true;
  listener_registers_kswapd = true;
  listener_fd = some 34;
}

abbrev properties : Properties
properties = record {
  experiment_bool = λ name. none;
  ro_bool = λ name. some true;
  experiment_int = λ name. some (negsuc 6);
  ro_int = λ name. none;
  debuggable = none;
  low_ram = some true;
  per_app_memcg = none;
  perf = none;
  has_preferred_api = false;
  mglru_status = pos 7;
  update_props_hook = true;
}

abbrev settings : Settings
settings = record {
  debug_process_killing = false;
  is_userdebug_or_eng_build = false;
  upgrade_pressure = pos 0;
  downgrade_pressure = pos 0;
  kill_heaviest_task = false;
  low_ram_device = false;
  kill_timeout_ms = pos 0;
  pressure_after_kill_min_score = pos 0;
  use_minfree_levels = false;
  per_app_memcg = false;
  swap_free_low_percentage = pos 0;
  psi_partial_stall_ms = pos 70;
  psi_complete_stall_ms = pos 700;
  psi_complete_stall_scrit_ms = pos 800;
  thrashing_limit_pct = pos 0;
  thrashing_limit_decay_pct = pos 0;
  thrashing_critical_pct = pos 0;
  swap_util_max = pos 0;
  filecache_min_kb = pos 0;
  stall_limit_critical = pos 0;
  delay_monitors_until_boot = false;
  direct_reclaim_threshold_ms = pos 0;
  swap_compression_ratio = pos 1;
  lowmem_min_oom_score = pos 0;
  psi_window_size_ms = pos 1000;
  psi_poll_period_scrit_ms = pos 10;
  psi_cont_event_thresh = pos 4;
  enable_userspace_lmk = true;
  enable_preferred_apps = false;
  use_perf_api_for_pref_apps = false;
  wmark_boost_factor = pos 1;
  wbf_effective = pos 1;
  mglru_status = pos 0;
  has_inkernel_module = false;
  use_inkernel_interface = false;
}

update_props-InRange_example : InRange (update_props properties settings).1
update_props-InRange_example = update_props-InRange properties settings refl

-- One PSI monitor is running.
abbrev monitors : Monitors
monitors = record {
  mpevfd = update (λ level. none) 1 (some 29);
  open_fds = 29 ∷ [];
  maxevents = pos 5;
  use_psi_monitors = true;
  monitors_initialized = true;
  memevent_listener = false;
}

monitors-IsCounted : IsCounted (pos 4) (λ a. 0) monitors
unfolding ◌+ℤ◌
monitors-IsCounted = record { events = refl; fds = λ a. omega arith }

abbrev thresholds : Thresholds
thresholds = record {
  psi_partial_stall_ms = pos 70;
  psi_complete_stall_ms = pos 700;
  psi_complete_stall_scrit_ms = pos 0;
}

destroy_monitors-restart_example :
    let stopped = destroy_monitors monitors in
    IsCounted (pos 4) (λ a. 0) stopped
    × IsStopped stopped
    × AllStarted (pos 4) (λ a. 0) stopped (init_psi_monitors kernel thresholds stopped)
destroy_monitors-restart_example =
    destroy_monitors-restart (pos 4) (λ a. 0) kernel thresholds monitors refl monitors-IsCounted

destroy_mp-init_mp_common_example :
    count 31 (destroy_mp critical (init_mp_common kernel critical monitors).1).open_fds
    ≡ count 31 monitors.open_fds + (if 31 == 31 then 1 else 0)
destroy_mp-init_mp_common_example =
    destroy_mp-init_mp_common kernel critical monitors 31 32 33 refl refl refl refl refl refl 31

abbrev targets : Targets
targets = record {
  lowmem_adj = λ i. pos 0;
  lowmem_minfree = λ i. pos 0;
  lowmem_targets_size = 0;
  last_req_tm = Calls.zero_tm;
}

abbrev client : ℕ → Conn
client fd = record { sock = some fd; pid = 812; async_event_mask = λ bit. false }

abbrev server : Server
server = record {
  data_sock = λ i. client (i + 40);
  monitors = monitors;
  daemon = apply_proc_prio Processes.host Processes.user 812 Processes.request Processes.fresh;
  killcnt = initial;
  targets = targets;
  settings = settings;
  boot_completed_handled = false;
  messages = [];
}

server-IsAccounted : IsAccounted (pos 2) server
unfolding ◌+ℤ◌
server-IsAccounted = refl

ctrl_connect_handler-IsAccounted_example :
    IsAccounted (base_after (pos 2) (some 50) true) (ctrl_connect_handler (some 50) true server)
ctrl_connect_handler-IsAccounted_example =
    ctrl_connect_handler-IsAccounted (pos 2) (some 50) true server server-IsAccounted

handle_events_reconnects_example :
    let s' = handle_events (handle_connect (some 50) true) (reconnect false 1) server in
    ((s'.data_sock 1).sock ≡ some 50) × ((j : ℕ) → j ≢ 1 → s'.data_sock j ≡ server.data_sock j)
handle_events_reconnects_example =
    handle_events_reconnects false 1 50 server (omega arith) (λ j l. refl)

abbrev answers : Answers
answers = record {
  received = record {
    ret = pos 8;
    packet = (lmkd_pack_set_subscribe (λ i. 0) 40).0;
    cred_pid = some 812;
  };
  written = pos 8;
  host = Processes.host;
  kernel = kernel;
  properties = properties;
  use_psi = true;
  sys_boot_completed = true;
  pidfd_supported = true;
  curr_tm = some Calls.later;
  ring = none;
}

-- Before init, with the monitors left for the end of the boot.
abbrev static_server : Server
static_server = record server {
  monitors = record monitors {
    mpevfd = λ level. none;
    open_fds = [];
    maxevents = pos 0;
    monitors_initialized = false;
  };
  settings = record settings { delay_monitors_until_boot = true };
}

abbrev boot : Boot
boot = record {
  epoll_create = true;
  control_socket = true;
  listens = true;
  epoll_add_control = true;
  inkernel_module = false;
  force_inkernel_lmk = false;
  poll_kernel = false;
  epoll_add_kernel = false;
  sys_boot_completed = false;
  kernel = kernel;
  use_psi = true;
  pidfd_open = true;
  init_hook = true;
}

static_server-IsFresh : IsFresh static_server
static_server-IsFresh = record {
  events = refl;
  free = (refl, (refl, refl, refl));
  stopped = refl;
  quiet = refl;
}

abbrev booted : Server
booted = with_tables (with_control boot static_server)

booted-init : init boot static_server ≡ some (true, booted)
unfolding init init_events with_control
booted-init = refl

abbrev reaping : Server
reaping = (init_reaper true true true true booted).1

maxevents_bound_example :
    (ctrl_data_close 0 (ctrl_connect_handler (some 50) true reaping)).monitors.maxevents +ℤ pos 1
    ≤ℤ pos max_epoll_events
maxevents_bound_example =
    maxevents_bound boot true true true true true static_server booted
      (ctrl_data_close 0 (ctrl_connect_handler (some 50) true reaping)) static_server-IsFresh
      booted-init (step (step start (connects (some 50) true)) (hangs_up 0))
