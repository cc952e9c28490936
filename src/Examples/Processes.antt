-- ===== src/Examples/Processes.antt =====
-- The process table and the kill counters at concrete values.
use android_system_memory_lm.Base.{
  ℕ, ◌≡◌, inr, refl, arith, List, [], ◌∷◌, ◌++◌, some, none, true, false, ◌==◌, pos, negsuc, ℤ,
}
use android_system_memory_lm.Packet.{LmkProcprio, lmkd_pack_set_procremove}
use android_system_memory_lm.ProcTable
use android_system_memory_lm.ProcTable.{
  Proc, empty, pid_lookup, pid_hashfn, find_pid, proc_insert, remove_claims, pid_remove,
}
use android_system_memory_lm.ProcTable.Lookup.{map_option}
use android_system_memory_lm.ProcTable.Invariant.{
  IsTable, empty-IsTable, proc_insert-IsTable, pid_lookup-remove,
}
use android_system_memory_lm.ProcTable.AdjSlot.{
  Ring, IsRing, adjslot_insert, adjslot_remove, adjslot_tail, adjslot_insert-IsRing,
  adjslot_list-IsRing,
}
use android_system_memory_lm.ProcTable.Claims.{drop_claim, pid_lookup-remove_claims}
use android_system_memory_lm.Register.{
  Host, Config, Daemon, Effect, write_oom_score_adj, apply_proc_prio, cmd_procpurge, cmd_procremove,
  is_other_tgid,
}
use android_system_memory_lm.Register.Table.{registered, removed}
use android_system_memory_lm.Register.Purge.{cmd_procpurge_lem}
use android_system_memory_lm.Register.Apply.{
  IsGood, InRange, IsAccepted, recorded_score, apply_proc_prio-IsGood, apply_proc_prio_registers,
  cmd_procremove_lem,
}
use android_system_memory_lm.KillCount.{get_killcnt, after_kills, initial, inc_killcnt}
use android_system_memory_lm.KillCount.Laws.{kills_between, get_killcnt-after_kills}

abbrev pub launcher : Proc
launcher = record {
  pid = 4321;
  pidfd = pos 20;
  uid = 10007;
  oomadj = pos 200;
  reg_pid = 812;
  valid = true;
}

abbrev pub one : ProcTable.Table
one = proc_insert launcher empty

pub empty-none : (q : ℕ) → pid_lookup empty q ≡ none
unfolding empty pid_lookup find_pid
empty-none q = refl

pub one-IsTable : IsTable one
one-IsTable = proc_insert-IsTable launcher empty (empty-none 4321) empty-IsTable

pub empty-IsGood : IsTable empty × InRange empty
empty-IsGood = (empty-IsTable, record { score = λ q p h. absurd (ground (arith, empty-none q)) })

abbrev pub user : Config
user = record { per_app_memcg = true; pidfd_supported = true; use_inkernel_interface = false }

abbrev started : Daemon
started = record { table = one; last_kill_pid_or_fd = negsuc 0; effects = [] }

abbrev pub fresh : Daemon
fresh = record { table = empty; last_kill_pid_or_fd = negsuc 0; effects = [] }

cmd_procpurge_example :
    (pid_lookup (cmd_procpurge user 812 started).table 4321 ≡ removed 812 (pid_lookup one 4321))
    × IsTable (cmd_procpurge user 812 started).table
cmd_procpurge_example = cmd_procpurge_lem user 812 started 4321 refl one-IsTable

abbrev pub host : Host
host = record {
  soft_limit_path = λ pid. true;
  system_uid = some 1000;
  pidfd_open = λ pid. pos 20;
  calloc = true;
  proc_status = λ pid. none;
  oom_score_adj_file = λ pid. pid == 4321;
}

abbrev pub request : LmkProcprio
request = record { pid = 4321; uid = 10007; oomadj = pos 650; ptype = 0 }

apply_proc_prio-IsGood_example : IsGood (apply_proc_prio host user 812 request fresh)
apply_proc_prio-IsGood_example = apply_proc_prio-IsGood host user 812 request fresh empty-IsGood

request-IsAccepted : IsAccepted host request
unfolding is_other_tgid
request-IsAccepted = record {
  score = omega arith;
  ptype = omega arith;
  leader = refl;
  alive = refl;
}

apply_proc_prio_registers_example :
    let after = apply_proc_prio host user 812 request fresh in
    (pid_lookup after.table 4321
      ≡ registered host user 812 request (recorded_score user request) (pid_lookup empty 4321))
    × ((written : List Effect) × (after.effects
          ≡ written ++ write_oom_score_adj 4321 (pos 650) ∷ []))
apply_proc_prio_registers_example =
    apply_proc_prio_registers host user 812 request fresh 4321 request-IsAccepted refl (inr refl)

cmd_procremove_example :
    let after = cmd_procremove user (lmkd_pack_set_procremove (λ i. 0) 4321).0 812 started in
    (pid_lookup after.table 4321 ≡ removed 812 (pid_lookup one 4321)) × IsTable after.table
cmd_procremove_example =
    cmd_procremove_lem user (λ i. 0) 4321 812 started 4321 (omega arith) refl one-IsTable

remove_claims_example :
    pid_lookup (remove_claims 812 one) 4321 ≡ map_option (drop_claim 812) (pid_lookup one 4321)
remove_claims_example = pid_lookup-remove_claims 812 one 4321

pid_lookup-remove_example : pid_lookup (pid_remove (pos 20) 4321 one).1 4321 ≡ none
pid_lookup-remove_example = pid_lookup-remove (pos 20) 4321 one 4321 one-IsTable

abbrev kills : List ℤ
kills = pos 900 ∷ pos 200 ∷ pos 900 ∷ []

get_killcnt_example : get_killcnt (pos 300) (pos 1000) (after_kills kills) ≡ some (pos 2)
unfolding after_kills inc_killcnt initial kills_between
get_killcnt_example =
    get_killcnt-after_kills kills (pos 300) (pos 1000) (omega arith) (omega arith) (omega arith)
      (omega arith) (omega arith) (omega arith)

abbrev alone : Ring
alone = record { next = λ a. a; prev = λ a. a }

alone-IsRing : IsRing 0 [] alone
alone-IsRing = record { linked = (refl, refl); distinct = λ a. ground arith }

abbrev pair : Ring
pair = adjslot_insert 0 2 (adjslot_insert 0 1 alone)

pair-IsRing : IsRing 0 (2 ∷ 1 ∷ []) pair
pair-IsRing =
    adjslot_insert-IsRing 0 2 (1 ∷ []) (adjslot_insert 0 1 alone)
      (adjslot_insert-IsRing 0 1 [] alone alone-IsRing refl) refl

adjslot_list-IsRing_example :
    (adjslot_tail 0 pair ≡ some 1)
    × IsRing 0 (3 ∷ 2 ∷ 1 ∷ []) (adjslot_insert 0 3 pair)
    × IsRing 0 (2 ∷ []) (adjslot_remove 1 pair)
adjslot_list-IsRing_example =
    adjslot_list-IsRing 0 3 1 (2 ∷ 1 ∷ []) pair pair-IsRing refl (ground arith)
