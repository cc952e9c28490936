-- ===== src/Kill.antt =====
-- lmkd.cpp: killing a process, from the wait for a kill in progress to `find_and_kill_process`.
-- Logging, tracing and the statistics that a kill reports are left out; the messages that it sends
-- are in Connections.
pub mod Wait
pub mod Script
pub mod Levels
pub mod Scripts
pub mod Progress
pub mod Choice
pub mod Safety
pub mod Failures
pub mod Selection
pub mod Success
use android_system_memory_lm.Base.{
  ℕ, zero, suc, ◌+◌, ◌-◌, ◌*◌, List, [], ◌∷◌, Option, none, some, Bool, true, false, ◌&&◌, ◌||◌,
  not, ltb, leb, ◌==◌, if◌then◌else◌, ℤ, pos, negsuc, ltb_ℤ, leb_ℤ, eqb_ℤ, ◌+ℤ◌, ◌-ℤ◌, quot, length,
  get_last?,
}
use android_system_memory_lm.Text.{Bytes, parse_status_tag}
use android_system_memory_lm.Packet.{to_int}
use android_system_memory_lm.Register.{tgid_field}
use android_system_memory_lm.ProcTable
use android_system_memory_lm.ProcTable.{Proc, pid_lookup, pid_remove, proc_adj_tail, adj_to_slot}
use android_system_memory_lm.KillCount.{KillCnt, inc_killcnt}
use android_system_memory_lm.Polling.{Timespec}
use android_system_memory_lm.Kill.Script.{Procfs, Traversal, proc_get_script}

-- What the kernel, the vendor hook and the reaper answer during one kill.
pub record Host : Type 0 where
  -- Text of /proc/<pid>/status, if it can be read, and the name in /proc/<pid>/cmdline.
  pub proc_status : ℕ → Option Bytes
  pub proc_name : ℕ → Option Bytes
  -- lmkd_free_memory_before_kill_hook, by the pid.
  pub free_memory_before_kill_hook : ℕ → ℤ
  -- The result of Reaper::kill, 0 for success.
  pub reaper_kill : Proc → ℤ
  -- Does epoll_ctl add the pidfd?
  pub epoll_add : ℤ → Bool
  -- Is there a directory /proc/<pid>?
  pub proc_exists : ℤ → Bool
  -- proc_get_rss and proc_get_swap, in pages.
  pub proc_get_rss : ℕ → ℤ
  pub proc_get_swap : ℕ → ℤ
  -- Does `preferred_apps` contain the name?
  pub is_preferred : Bytes → Bool
  -- What proc_get_script meets.
  pub procfs : Procfs

pub record Config : Type 0 where
  pub pidfd_supported : Bool
  pub kill_heaviest_task : Bool
  pub enable_preferred_apps : Bool
  pub is_userdebug_or_eng_build : Bool
  -- Kilobytes to a page.
  pub page_k : ℕ

pub record State : Type 0 where
  pub table : ProcTable.Table
  pub last_kill_pid_or_fd : ℤ
  pub last_kill_tm : Timespec
  pub killcnt : KillCnt
  pub maxevents : ℤ
  -- The pids that were killed, the last one first.
  pub killed : List ℕ
  -- Those that proc_get_script killed, and its static variables.
  pub scripts : List ℕ
  pub traversal : Traversal

abbrev is_fd : ℤ → Bool
is_fd fd = leb_ℤ (pos 0) fd

unfoldable pub is_kill_pending : Host → Config → State → Bool
is_kill_pending host config s =
    if not (is_fd s.last_kill_pid_or_fd)
    then false
    else if config.pidfd_supported
    then true
    else host.proc_exists s.last_kill_pid_or_fd

unfoldable pub is_waiting_for_kill : Config → State → Bool
is_waiting_for_kill config s = config.pidfd_supported && is_fd s.last_kill_pid_or_fd

abbrev close_fd : ℤ → State → State
close_fd fd s = let t = s.table in record s { table = record t { closed = fd ∷ t.closed } }

unfoldable pub stop_wait_for_proc_kill : Config → State → State
stop_wait_for_proc_kill config s =
    if not (is_fd s.last_kill_pid_or_fd)
    then s
    else let s' =
        if config.pidfd_supported
        then record (close_fd s.last_kill_pid_or_fd s) { maxevents = s.maxevents -ℤ pos 1 }
        else s in
      record s' { last_kill_pid_or_fd = negsuc 0 }

unfoldable pub start_wait_for_proc_kill : Host → Config → ℤ → State → State
unfolding stop_wait_for_proc_kill
start_wait_for_proc_kill host config pid_or_fd s =
    let stopped = if is_fd s.last_kill_pid_or_fd then stop_wait_for_proc_kill config s else s in
    let s' = record stopped { last_kill_pid_or_fd = pid_or_fd } in
    if not config.pidfd_supported
    then s'
    else if not (host.epoll_add pid_or_fd)
    then record (close_fd pid_or_fd s') { last_kill_pid_or_fd = negsuc 0 }
    else record s' { maxevents = s'.maxevents +ℤ pos 1 }

-- "VmRSS:" and "VmSwap:".
abbrev rss_field : Bytes
rss_field = b'V' ∷ b'm' ∷ b'R' ∷ b'S' ∷ b'S' ∷ b':' ∷ []

abbrev swap_field : Bytes
swap_field = b'V' ∷ b'm' ∷ b'S' ∷ b'w' ∷ b'a' ∷ b'p' ∷ b':' ∷ []

-- The tests before a kill, in their order; the result is the resident size in kilobytes.
unfoldable pub check_target : Host → Proc → Option ℤ
check_target host p = if not p.valid then none else elim (host.proc_status p.pid) [
  | none ↦ none
  | some buf ↦ elim (parse_status_tag buf tgid_field) [
    | none ↦ none
    | some tgid ↦
        if not (eqb_ℤ tgid (to_int p.pid)) then none else elim (parse_status_tag buf rss_field) [
          | none ↦ none
          | some rss_kb ↦ elim (parse_status_tag buf swap_field) [
            | none ↦ none
            | some swap_kb ↦ elim (host.proc_name p.pid) [
              | none ↦ none
              | some taskname ↦ some rss_kb
            ]
          ]
        ]
  ]
]

-- The label `out`: the record is removed, whatever the result.
unfoldable pub finish : Proc → ℤ → State → ℤ × State
finish p result s =
    (result, record s { table = (pid_remove s.last_kill_pid_or_fd p.pid s.table).1 })

-- The kill itself, once the tests have passed and the hook has freed nothing.
unfoldable pub do_kill : Host → Config → Timespec → Proc → ℤ → ℤ → State → ℤ × State
do_kill host config tm p rss_kb hook_result s =
    let target = if ltb_ℤ p.pidfd (pos 0) then to_int p.pid else p.pidfd in
    let waiting = start_wait_for_proc_kill host config target s in
    if not (eqb_ℤ (host.reaper_kill p) (pos 0))
    then finish p hook_result (stop_wait_for_proc_kill config waiting)
    else finish p (quot rss_kb config.page_k) (record waiting {
      last_kill_tm = tm;
      killcnt = inc_killcnt p.oomadj waiting.killcnt;
      killed = p.pid ∷ waiting.killed;
    })

unfoldable pub kill_one_process : Host → Config → Timespec → Proc → State → ℤ × State
kill_one_process host config tm p s = elim (check_target host p) [
  | none ↦ finish p (negsuc 0) s
  | some rss_kb ↦
      let result = host.free_memory_before_kill_hook p.pid in
      if ltb_ℤ (pos 0) result then (result, s) else do_kill host config tm p rss_kb result s
]

unfoldable pub proc_get_size : Host → ℕ → ℤ
proc_get_size host pid =
    let size = host.proc_get_rss pid in if eqb_ℤ size (pos 0) then host.proc_get_swap pid else size

-- The heaviest task so far and the heaviest preferred one, each with its size.
pub record Heaviest : Type 0 where
  pub maxsize : ℤ
  pub maxprocp : Option ℕ
  pub maxsize_pa : ℤ
  pub maxprocp_pa : Option ℕ

unfoldable pub is_preferred_app : Host → Config → ℕ → Bool
is_preferred_app host config pid =
    config.enable_preferred_apps
    && (elim (host.proc_name pid) [ none ↦ false | some name ↦ host.is_preferred name ])

-- One task of the slot, unless it is gone.
unfoldable pub weigh : Host → Config → ℕ → Heaviest → Heaviest
weigh host config pid best =
    let size = proc_get_size host pid in
    if ltb_ℤ size (pos 0)
    then best
    else if is_preferred_app host config pid
    then (if ltb_ℤ best.maxsize_pa size
        then record best { maxsize_pa = size; maxprocp_pa = some pid }
        else best)
    else if ltb_ℤ best.maxsize size
    then record best { maxsize = size; maxprocp = some pid }
    else best

unfoldable pub drop_gone : Host → ℕ → State → State
drop_gone host pid s =
    if ltb_ℤ (proc_get_size host pid) (pos 0)
    then record s { table = (pid_remove s.last_kill_pid_or_fd pid s.table).1 }
    else s

-- The walk along a slot, which removes the processes that are gone. `next` is read before a record
-- is removed, so the walk meets the records that the slot had at its start.
unfoldable pub weigh_all : Host → Config → List ℕ → Heaviest → State → Heaviest × State
weigh_all host config [] best s = (best, s)
weigh_all host config (pid ∷ pids) best s =
    weigh_all host config pids (weigh host config pid best) (drop_gone host pid s)

unfoldable pub proc_get_heaviest : Host → Config → ℕ → State → Option ℕ × State
proc_get_heaviest host config oomadj s =
    let none_yet : Heaviest = record {
      maxsize = pos 0;
      maxprocp = none;
      maxsize_pa = pos 0;
      maxprocp_pa = none;
    } in
    let (best, s') =
      weigh_all host config (s.table.procadjslot_list (adj_to_slot (pos oomadj))) none_yet s in
    (if ltb_ℤ (pos 0) best.maxsize then best.maxprocp else best.maxprocp_pa, s')

-- The process to try next at a score. Its record is what the C++ has a pointer to.
unfoldable pub choose : Host → Config → Bool → ℕ → State → Option Proc × State
choose host config heaviest oomadj s =
    let (pid, s') =
      if heaviest
      then proc_get_heaviest host config oomadj s
      else (proc_adj_tail (pos oomadj) s.table, s) in
    (elim pid [ none ↦ none | some p ↦ pid_lookup s'.table p ], s')

-- The inner loop of `find_and_kill_process`, on fuel.
unfoldable pub kill_at_level : Host → Config → Timespec → Bool → ℕ → ℕ → ℤ → State → ℤ × State
kill_at_level host config tm heaviest oomadj zero killed_size s = (killed_size, s)
kill_at_level host config tm heaviest oomadj (suc fuel) killed_size s =
    let (procp, s₁) = choose host config heaviest oomadj s in
    elim procp [
      | none ↦ (killed_size, s₁)
      | some p ↦
          let (size, s₂) = kill_one_process host config tm p s₁ in
          elim (leb_ℤ (pos 0) size) [
            | true ↦ (size, s₂)
            | false ↦ kill_at_level host config tm heaviest oomadj fuel size s₂
          ]
    ]

-- Every round that goes on has removed a record of the slot.
abbrev pub level_fuel : ℕ → State → ℕ
level_fuel oomadj s = suc (length (s.table.procadjslot_list (adj_to_slot (pos oomadj))))

abbrev perceptible_app_adj : ℕ
perceptible_app_adj = 200

-- The outer loop, by the number of scores from `min_score_adj` on that are left. From score 200 down
-- the heaviest task is chosen.
unfoldable pub kill_from : Host → Config → Timespec → ℕ → ℕ → ℤ → State → ℤ × State
kill_from host config tm min_score_adj zero killed_size s = (killed_size, s)
kill_from host config tm min_score_adj (suc n) killed_size s =
    let i = min_score_adj + n in
    let heaviest = config.kill_heaviest_task || leb i perceptible_app_adj in
    let (size, s') = kill_at_level host config tm heaviest i (level_fuel i s) killed_size s in
    elim (eqb_ℤ size (pos 0)) [
      | false ↦ (size, s')
      | true ↦ kill_from host config tm min_score_adj n size s'
    ]

abbrev pub add_victim : Option ℕ → List ℕ → List ℕ
add_victim none pids = pids
add_victim (some pid) pids = pid ∷ pids

unfoldable pub run_script : Host → State → ℤ × State
unfolding proc_get_size
run_script host s =
    let (freed, t) = proc_get_script host.procfs (proc_get_size host) s.traversal in
    (freed.tasksize, record s { scripts = add_victim freed.victim s.scripts; traversal = t })

-- The scores that the daemon asks for are not negative.
unfoldable pub find_and_kill_process : Host → Config → Timespec → ℕ → State → ℤ × State
find_and_kill_process host config tm min_score_adj s =
    let (killed_size, s') =
      kill_from host config tm min_score_adj (1001 - min_score_adj) (pos 0) s in
    if eqb_ℤ killed_size (pos 0) && min_score_adj == 0 && config.is_userdebug_or_eng_build
    then run_script host s'
    else (killed_size, s')
