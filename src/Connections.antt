-- ===== src/Connections.antt =====
-- lmkd.cpp: the data connections and the commands that arrive on them, from `ctrl_data_close` to
-- `ctrl_connect_handler`. The messages to the log are left out.
pub mod Commands
pub mod Events
pub mod Order
pub mod Safety
pub mod Limits
pub mod Keeps
use android_system_memory_lm.Base.{
  ℕ, zero, suc, ◌+◌, ◌-◌, ◌*◌, ◌/◌, ◌%◌, List, [], ◌∷◌, Option, none, some, Bool, true, false, ◌&&◌,
  ◌||◌, not, ltb, leb, ◌==◌, if◌then◌else◌, ℤ, pos, negsuc, ltb_ℤ, ◌+ℤ◌, ◌-ℤ◌, eqb_ℤ, update,
}
use android_system_memory_lm.KillCount
use android_system_memory_lm.Monitors.{Monitors}
use android_system_memory_lm.Packet.{LmkdCtrlPacket, to_word, to_int, lmkd_pack_set_prockills}
use android_system_memory_lm.Polling.{Timespec}
use android_system_memory_lm.ProcTable.{remove_claims}
use android_system_memory_lm.Props.{Settings}
use android_system_memory_lm.Register.{Daemon}
use android_system_memory_lm.Stats.{Tasks, stats_get_task_name}
use android_system_memory_lm.Stats.Packet.{
  LmkKillOccurredPacket, KillStat, MemoryStat, lmkd_pack_set_kill_occurred,
}

-- `sock` is `none` for -1. A mask is known by its bits.
pub record Conn : Type 0 where
  pub sock : Option ℕ
  pub pid : ℕ
  pub async_event_mask : ℕ → Bool

abbrev pub max_data_conn : ℕ
max_data_conn = 3

-- The limits of LMK_TARGET.
pub record Targets : Type 0 where
  -- Arrays of `max_targets` entries.
  pub lowmem_adj : ℕ → ℤ
  pub lowmem_minfree : ℕ → ℤ
  pub lowmem_targets_size : ℕ
  pub last_req_tm : Timespec

pub data Payload : Type 0 where
  words : LmkdCtrlPacket → Payload
  bytes : LmkKillOccurredPacket → Payload

-- What was written to a connection: its index, the packet and the size.
pub record Message : Type 0 where
  pub dsock_idx : ℕ
  pub packet : Payload
  pub size : ℕ

-- The state of the daemon that the commands work on. `maxevents` is in the monitors.
pub record Server : Type 0 where
  pub data_sock : ℕ → Conn
  pub monitors : Monitors
  pub daemon : Daemon
  pub killcnt : KillCount.KillCnt
  pub targets : Targets
  pub settings : Settings
  pub boot_completed_handled : Bool
  -- The last one first.
  pub messages : List Message

abbrev pub set_conn : ℕ → Conn → Server → Server
set_conn i c s = record s { data_sock = update s.data_sock i c }

abbrev pub add_events : ℤ → Server → Server
add_events n s =
    let m = s.monitors in record s { monitors = record m { maxevents = m.maxevents +ℤ n } }

-- A refused EPOLL_CTL_DEL is logged only.
unfoldable pub ctrl_data_close : ℕ → Server → Server
ctrl_data_close dsock_idx s =
    let c = s.data_sock dsock_idx in
    let d = s.daemon in
    let s' = set_conn dsock_idx (record c { sock = none }) (add_events (negsuc 0) s) in
    record s' { daemon = record d { table = remove_claims c.pid d.table } }

-- What recvmsg gives: the size, -1 for an error and 0 for the end of the file, the packet, and the
-- pid of the sender, `none` where there are no credentials.
pub record Received : Type 0 where
  pub ret : ℤ
  pub packet : LmkdCtrlPacket
  pub cred_pid : Option ℕ

-- The result, which is the size only if the credentials are there. They are stored.
unfoldable pub ctrl_data_read : ℕ → Received → Server → ℤ × Server
unfolding ctrl_data_close
ctrl_data_read dsock_idx received s =
    if eqb_ℤ received.ret (negsuc 0) || eqb_ℤ received.ret (pos 0)
    then (negsuc 0, s)
    else elim received.cred_pid [
      | none ↦ (negsuc 0, ctrl_data_close dsock_idx s)
      | some pid ↦
          let c = s.data_sock dsock_idx in
          (received.ret, set_conn dsock_idx (record c { pid = pid }) s)
    ]

-- `written` is what `write` returns, of the packet and its size.
unfoldable pub ctrl_data_write : ℤ → ℕ → Payload → ℕ → Server → ℤ × Server
ctrl_data_write written dsock_idx buf bufsz s =
    if eqb_ℤ written (negsuc 0) || eqb_ℤ written (pos 0) then (negsuc 0, s) else (
      written,
      record s {
        messages = record { dsock_idx = dsock_idx; packet = buf; size = bufsz } ∷ s.messages;
      },
    )

abbrev pub is_open : Option ℕ → Bool
is_open none = false
is_open (some fd) = true

abbrev pub lmk_async_event_kill : ℕ
lmk_async_event_kill = 0

abbrev pub lmk_async_event_stat : ℕ
lmk_async_event_stat = 1

-- The loop over the connections below a number, in their order; each has its result of `write`.
unfoldable pub notify_below : ℕ → ℕ → (ℕ → ℤ) → Payload → ℕ → Server → Server
unfolding ctrl_data_write
notify_below zero event written packet len s = s
notify_below (suc i) event written packet len s =
    let before = notify_below i event written packet len s in
    let c = before.data_sock i in
    if is_open c.sock && c.async_event_mask event
    then (ctrl_data_write (written i) i packet len before).1
    else before

unfoldable pub ctrl_data_write_lmk_kill_occurred :
    (ℕ → ℤ) → LmkdCtrlPacket → ℕ → ℕ → Server → Server
unfolding notify_below
ctrl_data_write_lmk_kill_occurred written packet pid uid s =
    let (p, len) = lmkd_pack_set_prockills packet pid uid in
    notify_below max_data_conn lmk_async_event_kill written (words p) len s

unfoldable pub stats_write_lmk_kill_occurred :
    (ℕ → ℤ) → Bool → LmkKillOccurredPacket → KillStat → Option MemoryStat → Server → Server
unfolding notify_below
stats_write_lmk_kill_occurred written enable_stats_log packet kill_st mem_st s =
    let (p, len) = lmkd_pack_set_kill_occurred enable_stats_log packet kill_st mem_st in
    if len == 0 then s else notify_below max_data_conn lmk_async_event_stat written (bytes p) len s

-- The name of the task is that of the table of statslog.cpp.
unfoldable pub stats_write_lmk_kill_occurred_pid :
    (ℕ → ℤ) → Tasks → LmkKillOccurredPacket → ℕ → KillStat → Option MemoryStat → Server → Server
unfolding stats_write_lmk_kill_occurred
stats_write_lmk_kill_occurred_pid written tasks packet pid kill_st mem_st s =
    elim (stats_get_task_name tasks pid) [
      | none ↦ s
      | some name ↦
          stats_write_lmk_kill_occurred written tasks.enable_stats_log packet
            (record kill_st { taskname = name }) mem_st s
    ]

-- The first connection below a number that is not in use.
unfoldable pub free_below : ℕ → (ℕ → Conn) → Option ℕ
free_below zero data_sock = none
free_below (suc i) data_sock = elim (free_below i data_sock) [
  | some j ↦ some j
  | none ↦ if is_open (data_sock i).sock then none else some i
]

unfoldable pub get_free_dsock : Server → Option ℕ
unfolding free_below
get_free_dsock s = free_below max_data_conn s.data_sock

unfoldable pub close_below : ℕ → Server → Server
close_below zero s = s
close_below (suc i) s = ctrl_data_close i (close_below i s)

-- The connection that accept gives a descriptor, `none` for -1, and epoll takes or refuses.
unfoldable pub connect : ℕ → Option ℕ → Bool → Server → Server
connect idx accepted epoll_add s =
    let c = s.data_sock idx in
    let s' = set_conn idx (record c { sock = accepted }) s in
    elim accepted [
      | none ↦ s'
      | some fd ↦
          let s'' =
            set_conn idx (record c { sock = some fd; async_event_mask = λ bit. false }) s' in
          if epoll_add then add_events (pos 1) s'' else ctrl_data_close idx s''
    ]

unfoldable pub ctrl_connect_handler : Option ℕ → Bool → Server → Server
unfolding get_free_dsock close_below connect
ctrl_connect_handler accepted epoll_add s = elim (get_free_dsock s) [
  | some idx ↦ connect idx accepted epoll_add s
  | none ↦ connect 0 accepted epoll_add (close_below max_data_conn s)
]
