-- ===== src/Register.antt =====
-- lmkd.cpp: the commands that register and unregister processes, from `register_oom_adj_proc` to
-- `cmd_procpurge`. What the daemon asks of the kernel and of other libraries is the record Host;
-- what it writes outside its own memory is a list of effects.
pub mod Table
pub mod Purge
pub mod Apply
pub mod Batch
pub mod InOrder
pub mod Writes
pub mod Reads
pub mod Effects
use android_system_memory_lm.Base.{
  ℕ, zero, suc, ◌+◌, ◌*◌, ◌^◌, List, [], ◌∷◌, ◌++◌, Option, none, some, Bool, true, false, ◌&&◌,
  ◌||◌, not, leb, ltb, ◌==◌, if◌then◌else◌, ℤ, pos, negsuc, ltb_ℤ, leb_ℤ, eqb_ℤ,
}
use android_system_memory_lm.Packet.{
  LmkdCtrlPacket, LmkProcprio, proc_type_app, proc_type_count, to_int, lmkd_pack_get_procprio,
  lmkd_pack_get_procremove,
}
use android_system_memory_lm.Text.{Bytes, parse_status_tag}
use android_system_memory_lm.ProcTable
use android_system_memory_lm.ProcTable.{
  Proc, pidhash_sz, oom_score_adj_min, oom_score_adj_max, pid_lookup, proc_insert, proc_slot,
  proc_unslot, modify, claim_record, pid_remove,
}

-- What the kernel, the C library and libprocessgroup answer.
pub record Host : Type 0 where
  -- CgroupGetAttributePathForTask("MemSoftLimit", pid).
  pub soft_limit_path : ℕ → Bool
  -- The uid of getpwnam("system").
  pub system_uid : Option ℕ
  -- pidfd_open(pid, 0).
  pub pidfd_open : ℕ → ℤ
  -- Is there memory for one more record?
  pub calloc : Bool
  -- The text of /proc/<pid>/status, cut at 4095 bytes.
  pub proc_status : ℕ → Option Bytes
  -- Can /proc/<pid>/oom_score_adj be opened?
  pub oom_score_adj_file : ℕ → Bool

-- The settings that these commands read.
pub record Config : Type 0 where
  pub per_app_memcg : Bool
  pub pidfd_supported : Bool
  pub use_inkernel_interface : Bool

pub data Effect : Type 0 where
  -- The pid, the limit in bytes, and whether a missing file is an error.
  write_soft_limit : ℕ → ℕ → Bool → Effect
  write_oom_score_adj : ℕ → ℤ → Effect
  store_taskname : ℕ → Effect
  poll_kernel : Effect
  remove_taskname : ℕ → Effect
  purge_tasknames : Effect

pub record Daemon : Type 0 where
  pub table : ProcTable.Table
  pub last_kill_pid_or_fd : ℤ
  -- The last one first.
  pub effects : List Effect

abbrev emit : Effect → Daemon → Daemon
emit e d = record d { effects = e ∷ d.effects }

abbrev eight_mega : ℕ
eight_mega = 2 ^ 23

abbrev system_adj : ℤ
system_adj = negsuc 899

-- The ladder of scores, with the score that the record gets and the multiple of 8 MB.
unfoldable pub soft_limit : ℤ → ℤ × ℕ
soft_limit adj =
    if leb_ℤ (pos 900) adj
    then (adj, 0)
    else if leb_ℤ (pos 800) adj
    then (adj, 0)
    else if leb_ℤ (pos 700) adj
    then (adj, 0)
    else if leb_ℤ (pos 600) adj
    then (pos 200, 1)
    else if leb_ℤ (pos 500) adj
    then (adj, 0)
    else if leb_ℤ (pos 400) adj
    then (adj, 0)
    else if leb_ℤ (pos 300) adj
    then (adj, 1)
    else if leb_ℤ (pos 200) adj
    then (adj, 8)
    else if leb_ℤ (pos 100) adj
    then (adj, 10)
    else if leb_ℤ (pos 0) adj
    then (adj, 20)
    else (adj, 64)

abbrev is_uid : Option ℕ → ℕ → Bool
is_uid none uid = false
is_uid (some u) uid = uid == u

-- The first part of `register_oom_adj_proc`: the score to record and the write of the limit. `none`
-- is the early return where the path of the limit is unknown.
unfoldable pub limit_memory : Host → Config → LmkProcprio → Option (ℤ × List Effect)
unfolding soft_limit
limit_memory host config proc =
    if not (proc.ptype == proc_type_app && config.per_app_memcg)
    then some (proc.oomadj, [])
    else if not (host.soft_limit_path proc.pid)
    then none
    else let (score, mult) = soft_limit proc.oomadj in
      let is_system_server = eqb_ℤ score system_adj && is_uid host.system_uid proc.uid in
      some (score, write_soft_limit proc.pid (mult * eight_mega) (not is_system_server) ∷ [])

unfoldable pub new_record : LmkProcprio → ℤ → ℕ → ℤ → Proc
new_record proc pidfd reg_pid oom_adj_score = record {
  pid = proc.pid;
  pidfd = pidfd;
  uid = proc.uid;
  oomadj = oom_adj_score;
  reg_pid = reg_pid;
  valid = true;
}

-- The branch of a pid that has no record yet.
unfoldable pub register_new :
    Host → Config → ℕ → LmkProcprio → ℤ → ProcTable.Table → ProcTable.Table
unfolding new_record
register_new host config cred_pid proc oom_adj_score t =
    let pidfd = if config.pidfd_supported then host.pidfd_open proc.pid else negsuc 0 in
    if config.pidfd_supported && ltb_ℤ pidfd (pos 0)
    then t
    else if host.calloc
    then proc_insert (new_record proc pidfd cred_pid oom_adj_score) t
    else t

-- proc_unslot, the new score, proc_slot.
unfoldable pub reslot : Proc → ℤ → ProcTable.Table → ProcTable.Table
unfolding proc_unslot proc_slot
reslot p score t =
    proc_slot (record p { oomadj = score })
      (modify p.pid (λ q. record q { oomadj = score }) (proc_unslot p t))

-- The branch of a pid that has a record.
unfoldable pub register_known : ℕ → Proc → ℤ → ProcTable.Table → ProcTable.Table
register_known cred_pid p oom_adj_score t =
    let (claimed, t') = claim_record p cred_pid t in
    if claimed then reslot p oom_adj_score t' else t

unfoldable pub register_in : Host → Config → ℕ → LmkProcprio → ℤ → ProcTable.Table → ProcTable.Table
register_in host config cred_pid proc score t = elim (pid_lookup t proc.pid) [
  | none ↦ register_new host config cred_pid proc score t
  | some p ↦ register_known cred_pid p score t
]

unfoldable pub register_oom_adj_proc : Host → Config → ℕ → LmkProcprio → Daemon → Daemon
register_oom_adj_proc host config cred_pid proc d = elim (limit_memory host config proc) [
  | none ↦ d
  | some (score, writes) ↦ record d {
    table = register_in host config cred_pid proc score d.table;
    effects = writes ++ d.effects;
  }
]

-- "Tgid:".
abbrev pub tgid_field : Bytes
tgid_field = b'T' ∷ b'g' ∷ b'i' ∷ b'd' ∷ b':' ∷ []

-- The test for a thread that leads no group; an unreadable or odd status passes.
unfoldable pub is_other_tgid : Host → ℕ → Bool
is_other_tgid host pid = elim (host.proc_status pid) [
  | none ↦ false
  | some buf ↦ elim (parse_status_tag buf tgid_field) [
    | none ↦ false
    | some tgid ↦ not (eqb_ℤ tgid (to_int pid))
  ]
]

unfoldable pub apply_proc_prio : Host → Config → ℕ → LmkProcprio → Daemon → Daemon
apply_proc_prio host config cred_pid params d =
    if ltb_ℤ params.oomadj oom_score_adj_min || ltb_ℤ oom_score_adj_max params.oomadj
    then d
    else if leb proc_type_count params.ptype
    then d
    else if is_other_tgid host params.pid
    then d
    else if not (host.oom_score_adj_file params.pid)
    then d
    else let d' = emit (write_oom_score_adj params.pid params.oomadj) d in
      if config.use_inkernel_interface
      then emit (store_taskname params.pid) d'
      else register_oom_adj_proc host config cred_pid params d'

unfoldable pub cmd_procprio : Host → Config → LmkdCtrlPacket → ℕ → ℕ → Daemon → Daemon
cmd_procprio host config packet field_count cred_pid d =
    apply_proc_prio host config cred_pid (lmkd_pack_get_procprio packet field_count) d

-- The record is claimed first, also where it is then removed.
unfoldable pub remove_one : ℤ → ℕ → Proc → ProcTable.Table → ProcTable.Table
remove_one last_kill cred_pid p t =
    let (claimed, t') = claim_record p cred_pid t in
    if claimed then (pid_remove last_kill p.pid t').1 else t

unfoldable pub remove_pid : ℤ → ℕ → ℕ → ProcTable.Table → ProcTable.Table
remove_pid last_kill cred_pid pid t = elim (pid_lookup t pid) [
  | none ↦ t
  | some p ↦ remove_one last_kill cred_pid p t
]

unfoldable pub cmd_procremove : Config → LmkdCtrlPacket → ℕ → Daemon → Daemon
cmd_procremove config packet cred_pid d =
    let pid = lmkd_pack_get_procremove packet in
    if config.use_inkernel_interface
    then emit (remove_taskname pid) (emit poll_kernel d)
    else record d { table = remove_pid d.last_kill_pid_or_fd cred_pid pid d.table }

-- The walk along one chain: `next` is read before the record is removed, and no other record
-- changes, so the walk meets the records that the chain had at its start.
unfoldable pub purge_chain : ℤ → ℕ → List Proc → ProcTable.Table → ProcTable.Table
purge_chain last_kill cred_pid [] t = t
purge_chain last_kill cred_pid (p ∷ ps) t =
    purge_chain last_kill cred_pid ps (remove_one last_kill cred_pid p t)

-- The chains below a number, in their order.
unfoldable pub purge_below : ℕ → ℤ → ℕ → ProcTable.Table → ProcTable.Table
purge_below zero last_kill cred_pid t = t
purge_below (suc i) last_kill cred_pid t =
    let before = purge_below i last_kill cred_pid t in
    purge_chain last_kill cred_pid (before.pidhash i) before

unfoldable pub cmd_procpurge : Config → ℕ → Daemon → Daemon
cmd_procpurge config cred_pid d =
    if config.use_inkernel_interface
    then emit purge_tasknames d
    else record d { table = purge_below pidhash_sz d.last_kill_pid_or_fd cred_pid d.table }
