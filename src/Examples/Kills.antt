-- ===== src/Examples/Kills.antt =====
-- Kills, the watchdog and the reaper at concrete values.
use android_system_memory_lm.Base.{
  ◌<◌, none, none, ℕ, quot, ◌<ℤ◌, ◌≡◌, refl, arith, [], ◌∷◌, some, true, false, ◌==◌, ◌&&◌,
  if◌then◌else◌, pos, negsuc, eqb_ℤ, ◌+ℤ◌,
}
use android_system_memory_lm.Packet.{to_int}
use android_system_memory_lm.Text.{Bytes, parse_status_tag}
use android_system_memory_lm.Polling.{Timespec}
use android_system_memory_lm.ProcTable.{
  adj_to_slot, Proc, empty, pid_lookup, proc_insert, pid_lookup,
}
use android_system_memory_lm.ProcTable.Lookup.{pid_lookup-insert}
use android_system_memory_lm.ProcTable.Invariant.{empty-IsTable}
use android_system_memory_lm.KillCount.{initial}
use android_system_memory_lm.Kill
use android_system_memory_lm.Kill.{
  run_script, check_target, proc_get_size, find_and_kill_process, kill_at_level, do_kill,
}
use android_system_memory_lm.Kill.Progress.{Progress}
use android_system_memory_lm.Kill.Safety.{ScriptsOnly, find_and_kill_process-Progress}
use android_system_memory_lm.Kill.Levels.{Ends, kill_at_level-Ends}
use android_system_memory_lm.Kill.Failures.{do_kill-closed}
use android_system_memory_lm.Kill.Success.{AllKillable, find_and_kill_process-kills}
use android_system_memory_lm.Reaper
use android_system_memory_lm.Reaper.{TargetProc, async_kill, dequeue_request, serve}
use android_system_memory_lm.Reaper.Requests.{
  Reaches, at_start, accept, take, finish, Balanced, Reaches-Balanced, started,
}
use android_system_memory_lm.Watchdog.{find_victim, crash, watchdog_callback}
use android_system_memory_lm.Watchdog.Victims.{Fair, find_victim-crash, watchdog_callback-Fair}
use android_system_memory_lm.Examples.Processes.{empty-none, launcher, one, one-IsTable}

-- /proc/4321/status.
abbrev status : Bytes
status =
    b'T' ∷ b'g' ∷ b'i' ∷ b'd' ∷ b':' ∷ 9 ∷ b'4' ∷ b'3' ∷ b'2' ∷ b'1' ∷ 10 ∷ b'V' ∷ b'm' ∷ b'R'
    ∷ b'S' ∷ b'S' ∷ b':' ∷ 9 ∷ b'1' ∷ b'0' ∷ b'0' ∷ 32 ∷ b'k' ∷ b'B' ∷ 10 ∷ b'V' ∷ b'm' ∷ b'S'
    ∷ b'w' ∷ b'a' ∷ b'p' ∷ b':' ∷ 9 ∷ b'0' ∷ 32 ∷ b'k' ∷ b'B' ∷ 10 ∷ []

abbrev pub host : Kill.Host
host = record {
  proc_status = λ pid. some status;
  proc_name = λ pid. some (b'a' ∷ []);
  free_memory_before_kill_hook = λ pid. pos 0;
  reaper_kill = λ p. if p.pid == 4321 then pos 0 else negsuc 0;
  epoll_add = λ fd. true;
  proc_exists = λ pid. true;
  proc_get_rss = λ pid. pos 25;
  proc_get_swap = λ pid. pos 0;
  is_preferred = λ name. false;
  procfs = record {
    opendir = some (none ∷ some 1 ∷ some 77 ∷ []);
    reopendir = none;
    proc_get_vm = λ pid. pos 900;
    oom_score_adj = λ pid. some (pos 0);
    kill = λ pid. pos 0;
    curr_tm = record { tv_sec = pos 10; tv_nsec = pos 0 };
  };
}

abbrev pub config : Kill.Config
config = record {
  pidfd_supported = true;
  kill_heaviest_task = false;
  enable_preferred_apps = false;
  is_userdebug_or_eng_build = false;
  page_k = 4;
}

abbrev pub now : Timespec
now = record { tv_sec = pos 10; tv_nsec = pos 0 }

abbrev pub state : Kill.State
state = record {
  table = one;
  last_kill_pid_or_fd = negsuc 0;
  last_kill_tm = record { tv_sec = pos 0; tv_nsec = pos 0 };
  killcnt = initial;
  maxevents = pos 6;
  killed = [];
  scripts = [];
  traversal = record {
    d = none;
    retry_eligible = false;
    check_time = false;
    last_traverse_time = record { tv_sec = pos 0; tv_nsec = pos 0 };
  };
}

abbrev debug : Kill.Config
debug = record config { is_userdebug_or_eng_build = true }

-- No process is registered, so proc_get_script looks for one.
abbrev nobody : Kill.State
nobody = record state { table = empty }

find_and_kill_process-Progress_example :
    Progress 0 nobody (find_and_kill_process host debug now 0 nobody).1
    × ScriptsOnly host debug 0 nobody (find_and_kill_process host debug now 0 nobody).1
find_and_kill_process-Progress_example =
    find_and_kill_process-Progress host debug now 0 nobody empty-IsTable

kill_at_level-Ends_example :
    Ends host config now true 200
      (pos 0)
      state
      (kill_at_level host config now true 200 5 (pos 0) state)
unfolding proc_insert empty
kill_at_level-Ends_example =
    kill_at_level-Ends host config now true 200 5 (pos 0) state one-IsTable (omega arith)

one-launcher : pid_lookup one 4321 ≡ some launcher
one-launcher = pid_lookup-insert launcher empty 4321

do_kill-closed_example :
    (do_kill host config now launcher (pos 100) (pos 0) state).1.table.closed ≡ (
      if eqb_ℤ (host.reaper_kill launcher) (pos 0) && host.epoll_add (pos 20)
      then []
      else pos 20 ∷ pos 20 ∷ [])
unfolding proc_insert empty
do_kill-closed_example =
    do_kill-closed host config now launcher state one-launcher (omega arith) refl refl (pos 100)
      (pos 0)

abbrev willing : Kill.Host
willing = record host { reaper_kill = λ p. pos 0 }

only_launcher : (q : ℕ) (p : Proc) → pid_lookup one q ≡ some p → p ≡ launcher
only_launcher q p found = ground (arith, found, pid_lookup-insert launcher empty q, empty-none q)

launcher_passes : check_target willing launcher ≡ some (pos 100)
unfolding check_target parse_status_tag to_int
launcher_passes = refl

one-AllKillable : AllKillable willing config one
unfolding quot proc_get_size
one-AllKillable = record {
  target = λ q p found. (pos 100, rw (only_launcher q p found) launcher_passes, omega arith);
  hook = λ q. refl;
  kill = λ p. refl;
  size = λ q. omega arith;
}

find_and_kill_process-kills_example :
    pos 0 <ℤ (find_and_kill_process willing config now 100 state).0
find_and_kill_process-kills_example =
    find_and_kill_process-kills willing config now 100 4321 200 launcher state one-IsTable
      one-AllKillable one-launcher refl (omega arith) (omega arith)

find_victim-crash_example :
    ((0 < 4321) × (empty.procadjslot_list (adj_to_slot (pos 200)) ≡ [])
      → find_victim 200 4321 empty ≡ crash)
    × (find_victim 200 4321 empty ≡ crash
        → (0 < 4321) × (empty.procadjslot_list (adj_to_slot (pos 200)) ≡ []))
find_victim-crash_example = find_victim-crash 200 4321 empty

-- The main thread removes the process while the watchdog kills it.
watchdog_callback-Fair_example :
    Fair
      (λ n. one)
      (λ n. empty)
      (λ p. true)
      1000
      (watchdog_callback (λ n. one) (λ n. empty) (λ p. true) 1500)
watchdog_callback-Fair_example =
    watchdog_callback-Fair (λ n. one) (λ n. empty) (λ p. true) (λ n. one-IsTable) 1500

abbrev request : TargetProc
request = record { pidfd = pos 20; pid = 4321; uid = 10007 }

abbrev queued : Reaper.State
queued = record {
  thread_cnt = 2;
  active_requests = pos 1;
  queue = record { pidfd = pos 31; pid = 4321; uid = 10007 } ∷ [];
  busy = [];
  failures = [];
  closed = [];
}

abbrev taken : Reaper.State
taken = record {
  thread_cnt = 2;
  active_requests = pos 1;
  queue = [];
  busy = record { pidfd = pos 31; pid = 4321; uid = 10007 } ∷ [];
  failures = [];
  closed = [];
}

one_served :
    Reaches 2
      (serve true (record { pidfd = pos 31; pid = 4321; uid = 10007 }) (record taken { busy = [] }))
      (4321 ∷ [])
      (4321 ∷ [])
unfolding async_kill dequeue_request ◌+ℤ◌
one_served =
    finish {s = taken} [] [] (record { pidfd = pos 31; pid = 4321; uid = 10007 }) true
      (take {s = queued} {u = taken} (accept {s = started 2} (pos 31) request at_start refl) refl)
      refl

Reaches-Balanced_example :
    Balanced 2
      (serve true (record { pidfd = pos 31; pid = 4321; uid = 10007 }) (record taken { busy = [] }))
      (4321 ∷ [])
      (4321 ∷ [])
Reaches-Balanced_example = Reaches-Balanced 2 _ (4321 ∷ []) (4321 ∷ []) one_served
