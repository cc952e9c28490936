-- ===== src/Connections/Commands.antt =====
-- lmkd.cpp: the commands of the clients, `ctrl_command_handler` and the handlers of its cases. The
-- text of sys.lmk.minfree_levels, of which cmd_target needs the length, and the parameters of the
-- in-kernel driver are left out.
use android_system_memory_lm.Base.{
  ℕ, zero, suc, ◌+◌, ◌-◌, ◌*◌, ◌/◌, ◌%◌, List, [], ◌∷◌, Option, none, some, Bool, true, false, ◌&&◌,
  ◌||◌, not, ltb, leb, ◌==◌, if◌then◌else◌, ℤ, pos, negsuc, ltb_ℤ, pos_part, update, length,
}
use android_system_memory_lm.KillCount.{get_killcnt}
use android_system_memory_lm.Monitors.{
  Kernel, Monitors, Thresholds, init_monitors, destroy_monitors, init_memevent_listener_monitoring,
}
use android_system_memory_lm.Packet.{
  max_targets, ctrl_packet_max_size, LmkdCtrlPacket, LmkCmd, command, LmkProcprio,
  lmkd_pack_get_cmd, lmkd_pack_get_target, lmkd_pack_get_procs_prio, lmkd_pack_get_getkillcnt,
  lmkd_pack_get_subscribe, lmkd_pack_set_getkillcnt_repl, lmkd_pack_set_update_props_repl,
  lmkd_pack_set_boot_completed_notif_repl,
}
use android_system_memory_lm.Polling.{Timespec, get_time_diff_ms}
use android_system_memory_lm.Props.{Properties, Settings, update_props}
use android_system_memory_lm.Register
use android_system_memory_lm.Register.{
  Host, Daemon, apply_proc_prio, cmd_procprio, cmd_procremove, cmd_procpurge,
}
use android_system_memory_lm.Register.Batch.{Ring, handle_io_uring_procs_prio}
use android_system_memory_lm.Connections.{
  Targets, Server, Received, words, set_conn, ctrl_data_read, ctrl_data_write,
}

-- What the system answers during one command.
pub record Answers : Type 0 where
  pub received : Received
  -- What `write` returns for the reply.
  pub written : ℤ
  pub host : Host
  pub kernel : Kernel
  pub properties : Properties
  pub use_psi : Bool
  pub sys_boot_completed : Bool
  pub pidfd_supported : Bool
  -- clock_gettime(CLOCK_MONOTONIC_COARSE).
  pub curr_tm : Option Timespec
  -- The io_uring, where the kernel has it.
  pub ring : Option Ring

-- The server goes on, the daemon has exited, or the code has no defined behaviour.
pub data Outcome : Type 0 where
  running : Server → Outcome
  exited : Server → Outcome
  undefined : Outcome

abbrev pub register_config : Answers → Server → Register.Config
register_config a s = record {
  per_app_memcg = s.settings.per_app_memcg;
  pidfd_supported = a.pidfd_supported;
  use_inkernel_interface = s.settings.use_inkernel_interface;
}

abbrev pub with_daemon : (Daemon → Daemon) → Server → Server
with_daemon f s = record s { daemon = f s.daemon }

abbrev pub thresholds : Settings → Thresholds
thresholds t = record {
  psi_partial_stall_ms = t.psi_partial_stall_ms;
  psi_complete_stall_ms = t.psi_complete_stall_ms;
  psi_complete_stall_scrit_ms = t.psi_complete_stall_scrit_ms;
}

-- `1 << evt_type` is undefined from 32 on; evt_type is not checked.
unfoldable pub cmd_subscribe : ℕ → LmkdCtrlPacket → Server → Outcome
cmd_subscribe dsock_idx packet s =
    let evt_type = lmkd_pack_get_subscribe packet in
    let c = s.data_sock dsock_idx in
    if leb 32 evt_type
    then undefined
    else running (
        set_conn dsock_idx (record c { async_event_mask = update c.async_event_mask evt_type true })
          s)

-- `none` is a read outside the counters.
unfoldable pub cmd_getkillcnt : LmkdCtrlPacket → Server → Option ℤ
cmd_getkillcnt packet s =
    if s.settings.use_inkernel_interface
    then some (pos 0)
    else let params = lmkd_pack_get_getkillcnt packet in
      get_killcnt params.min_oomadj params.max_oomadj s.killcnt

-- How many digits a number has, of at most ten.
unfoldable pub digit_count : ℕ → ℕ → ℕ
digit_count zero n = 1
digit_count (suc f) n = let rest = digit_count f (n / 10) in if ltb n 10 then 1 else suc rest

unfoldable pub int_length : ℤ → ℕ
unfolding digit_count
int_length (pos n) = digit_count 10 n
int_length (negsuc n) = 1 + digit_count 10 (n + 1)

abbrev pub property_value_max : ℕ
property_value_max = 92

-- The words that `packet` has.
abbrev pub packet_words : ℕ
packet_words = ctrl_packet_max_size / 4

-- The loop of cmd_target, from the index `i` on; `used` is `pstr - minfree_str`. `none` is a write
-- outside the arrays, or a read outside the packet.
unfoldable pub set_targets_from : ℕ → ℕ → ℕ → LmkdCtrlPacket → Targets → Option Targets
unfolding int_length
set_targets_from zero i used packet t = some t
set_targets_from (suc n) i used packet t =
    let target = lmkd_pack_get_target packet i in
    let t' = record t {
      lowmem_minfree = update t.lowmem_minfree i target.minfree;
      lowmem_adj = update t.lowmem_adj i target.oom_adj_score;
    } in
    let used' = used + int_length target.minfree + 1 + int_length target.oom_adj_score + 1 in
    let rest = set_targets_from n (suc i) used' packet t' in
    if leb max_targets i || leb packet_words (i * 2 + 2)
    then none
    else if leb property_value_max used'
    then some t'
    else rest

abbrev pub resize : ℕ → Option Targets → Option Targets
resize ntargets none = none
resize ntargets (some t) = some (record t { lowmem_targets_size = ntargets })

unfoldable pub cmd_target : ℕ → LmkdCtrlPacket → Option Timespec → Targets → Option Targets
unfolding set_targets_from
cmd_target ntargets packet curr_tm t =
    if ltb ntargets 1 || ltb max_targets ntargets then some t else elim curr_tm [
      | none ↦ some t
      | some tm ↦
          if ltb_ℤ (get_time_diff_ms t.last_req_tm tm) (pos 1000)
          then some t
          else resize ntargets
              (set_targets_from ntargets 0 0 packet (record t { last_req_tm = tm }))
    ]

-- PROCS_PRIO_MAX_RECORD_COUNT, the length of `procs` in `struct lmk_procs_prio`.
abbrev pub procs_prio_max_record_count : ℕ
procs_prio_max_record_count = 3

-- The requests one after the other.
unfoldable pub apply_procs : Host → Register.Config → ℕ → List LmkProcprio → Daemon → Daemon
apply_procs host config cred_pid [] d = d
apply_procs host config cred_pid (p ∷ ps) d =
    apply_procs host config cred_pid ps (apply_proc_prio host config cred_pid p d)

-- `none` is an access outside the request, or a write of lmkd_pack_get_procs_prio outside `params`.
unfoldable pub cmd_procs_prio :
    Answers → Register.Config → LmkdCtrlPacket → ℕ → ℕ → Daemon → Option Daemon
unfolding apply_procs
cmd_procs_prio a config packet field_count cred_pid d =
    elim (lmkd_pack_get_procs_prio packet field_count) [
      | none ↦ some d
      | some procs ↦ if ltb procs_prio_max_record_count (length procs) then none else elim a.ring [
        | none ↦ some (apply_procs a.host config cred_pid procs d)
        | some ring ↦ handle_io_uring_procs_prio a.host config ring cred_pid procs d
      ]
    ]

-- The threshold that needs the listener, once it is known whether there is one.
abbrev pub drop_threshold : Bool → Settings → Settings
drop_threshold listener t =
    if ltb_ℤ (pos 0) t.direct_reclaim_threshold_ms && not listener
    then record t { direct_reclaim_threshold_ms = pos 0 }
    else t

-- The monitors after new settings, and whether they are supported.
unfoldable pub restart_monitors : Answers → Settings → Monitors → Bool × Monitors
restart_monitors a t m =
    if not t.use_inkernel_interface && m.monitors_initialized
    then init_monitors a.kernel a.use_psi (thresholds t) (destroy_monitors m)
    else (true, m)

abbrev pub reply : Answers → ℕ → LmkdCtrlPacket × ℕ → Server → Server
reply a dsock_idx (packet, len) s = (ctrl_data_write a.written dsock_idx (words packet) len s).1

abbrev pub result_of : Bool → ℤ
result_of true = pos 0
result_of false = negsuc 0

-- The daemon exits to be restarted where the new settings or the monitors are not supported.
unfoldable pub finish : Bool → Server → Outcome
finish true s = running s
finish false s = exited s

unfoldable pub handle_update_props : Answers → ℕ → LmkdCtrlPacket → Server → Outcome
unfolding restart_monitors finish
handle_update_props a dsock_idx packet s =
    let (accepted, t) = update_props a.properties s.settings in
    let (ok, m) = if accepted then restart_monitors a t s.monitors else (false, s.monitors) in
    let t' = if accepted then drop_threshold m.memevent_listener t else t in
    let s' = record s { settings = t'; monitors = m } in
    finish ok (reply a dsock_idx (lmkd_pack_set_update_props_repl packet (result_of ok)) s')

unfoldable pub handle_start_monitoring : Answers → Server → Outcome
unfolding finish
handle_start_monitoring a s =
    if s.monitors.monitors_initialized
    then running s
    else if not a.sys_boot_completed
    then running s
    else let (ok, m) = init_monitors a.kernel a.use_psi (thresholds s.settings) s.monitors in
      finish ok (record s { monitors = m })

unfoldable pub answer_boot : Answers → ℕ → LmkdCtrlPacket → ℤ → Server → Outcome
answer_boot a dsock_idx packet result s =
    running (reply a dsock_idx (lmkd_pack_set_boot_completed_notif_repl packet result) s)

unfoldable pub handle_boot_completed : Answers → ℕ → LmkdCtrlPacket → Server → Outcome
unfolding answer_boot
handle_boot_completed a dsock_idx packet s =
    if s.boot_completed_handled
    then answer_boot a dsock_idx packet (pos 1) s
    else if not a.sys_boot_completed
    then answer_boot a dsock_idx packet (negsuc 0) s
    else let (ok, m) = init_memevent_listener_monitoring a.kernel s.monitors in
      answer_boot a dsock_idx packet (pos 0) (record s {
        monitors = m;
        settings = drop_threshold ok s.settings;
        boot_completed_handled = true;
      })

unfoldable pub handle_getkillcnt : Answers → ℕ → LmkdCtrlPacket → Server → Outcome
unfolding cmd_getkillcnt
handle_getkillcnt a dsock_idx packet s = elim (cmd_getkillcnt packet s) [
  | none ↦ undefined
  | some kill_cnt ↦ running (reply a dsock_idx (lmkd_pack_set_getkillcnt_repl packet kill_cnt) s)
]

abbrev pub with_targets : Option Targets → Server → Outcome
with_targets none s = undefined
with_targets (some t) s = running (record s { targets = t })

-- The cases of `switch (cmd)`; a wrong number of arguments changes nothing.
unfoldable pub dispatch : Answers → ℕ → ℕ → ℕ → LmkdCtrlPacket → Option LmkCmd → Server → Outcome
unfolding cmd_subscribe cmd_target cmd_procs_prio handle_update_props handle_start_monitoring
    handle_boot_completed handle_getkillcnt
dispatch a dsock_idx cred_pid nargs packet none s = running s
dispatch a dsock_idx cred_pid nargs packet (some LmkCmd.target) s =
    if nargs % 2 == 1 || ltb max_targets (nargs / 2)
    then running s
    else with_targets (cmd_target (nargs / 2) packet a.curr_tm s.targets) s
dispatch a dsock_idx cred_pid nargs packet (some LmkCmd.procprio) s =
    if ltb nargs 3 || ltb 4 nargs
    then running s
    else running (with_daemon (cmd_procprio a.host (register_config a s) packet nargs cred_pid) s)
dispatch a dsock_idx cred_pid nargs packet (some LmkCmd.procremove) s =
    if not (nargs == 1)
    then running s
    else running (with_daemon (cmd_procremove (register_config a s) packet cred_pid) s)
dispatch a dsock_idx cred_pid nargs packet (some LmkCmd.procpurge) s =
    if not (nargs == 0)
    then running s
    else running (with_daemon (cmd_procpurge (register_config a s) cred_pid) s)
dispatch a dsock_idx cred_pid nargs packet (some LmkCmd.getkillcnt) s =
    if not (nargs == 2) then running s else handle_getkillcnt a dsock_idx packet s
dispatch a dsock_idx cred_pid nargs packet (some LmkCmd.subscribe) s =
    if not (nargs == 1) then running s else cmd_subscribe dsock_idx packet s
dispatch a dsock_idx cred_pid nargs packet (some LmkCmd.prockill) s = running s
dispatch a dsock_idx cred_pid nargs packet (some LmkCmd.update_props) s =
    if not (nargs == 0) then running s else handle_update_props a dsock_idx packet s
dispatch a dsock_idx cred_pid nargs packet (some LmkCmd.stat_kill_occurred) s = running s
dispatch a dsock_idx cred_pid nargs packet (some LmkCmd.start_monitoring) s =
    if not (nargs == 0) then running s else handle_start_monitoring a s
dispatch a dsock_idx cred_pid nargs packet (some LmkCmd.boot_completed) s =
    if not (nargs == 0) then running s else handle_boot_completed a dsock_idx packet s
dispatch a dsock_idx cred_pid nargs packet (some LmkCmd.procs_prio) s =
    elim (cmd_procs_prio a (register_config a s) packet nargs cred_pid s.daemon) [
      | none ↦ undefined
      | some d ↦ running (record s { daemon = d })
    ]

abbrev pub sender : Option ℕ → ℕ
sender none = 0
sender (some pid) = pid

-- A read that gives less than one word ends the command.
unfoldable pub ctrl_command_handler : Answers → ℕ → Server → Outcome
unfolding dispatch
ctrl_command_handler a dsock_idx s =
    let (len, s') = ctrl_data_read dsock_idx a.received s in
    let packet = a.received.packet in
    if ltb_ℤ len (pos 4)
    then running s'
    else dispatch a dsock_idx (sender a.received.cred_pid) (pos_part len / 4 - 1) packet
        (command (lmkd_pack_get_cmd packet)) s'
