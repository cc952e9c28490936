-- ===== src/Watchdog.antt =====
-- lmkd.cpp: what the watchdog thread does when the main thread hangs, and watchdog.cpp.
-- The table is the one that the main thread has left; the thread holds the lock in `find_victim` and in
-- `pid_invalidate`, so each call of them may see another table.
pub mod Victims
use android_system_memory_lm.Base.{
  ℕ, zero, suc, ◌+◌, List, [], ◌∷◌, ◌++◌, Option, none, some, Bool, true, false, ◌&&◌, ◌||◌, not,
  ◌==◌, if◌then◌else◌, ℤ, pos,
}
use android_system_memory_lm.ProcTable
use android_system_memory_lm.ProcTable.{Proc, pid_lookup, pid_invalidate, adj_to_slot}

-- A pointer to an adjslot_list: NULL, the ring's head, or a record.
pub data Entry : Type 0 where
  null head : Entry
  record_of : ℕ → Entry

-- The records of a slot on `prev`, from the tail on.
unfoldable pub backwards : List ℕ → List ℕ
backwards [] = []
backwards (p ∷ ps) = backwards ps ++ (p ∷ [])

-- Where a pointer to one of these records, or behind the last of them to the head, goes.
abbrev pub first_of : List ℕ → Entry
first_of [] = head
first_of (p ∷ ps) = record_of p

-- `adjslot_tail`: NULL where the head's `prev` is the head itself.
abbrev pub adjslot_tail : List ℕ → Entry
adjslot_tail [] = null
adjslot_tail (p ∷ ps) = record_of p

-- The loop of `proc_adj_prev` from `curr` on, with the records behind it: it ends at the head, and
-- reads the pid of any other `curr`, which NULL has not.
pub data Walk : Type 0 where
  null_read : Walk
  returns : Entry → Walk

unfoldable pub walk_prev : ℕ → Entry → List ℕ → Walk
walk_prev pid null ps = null_read
walk_prev pid head ps = returns null
walk_prev pid (record_of q) [] = if q == pid then returns head else returns null
walk_prev pid (record_of q) (p ∷ ps) =
    let rest = walk_prev pid (record_of p) ps in if q == pid then returns (record_of p) else rest

abbrev pub behind : List ℕ → List ℕ
behind [] = []
behind (p ∷ ps) = ps

unfoldable pub proc_adj_prev : ℕ → List ℕ → Walk
unfolding walk_prev
proc_adj_prev pid ring = walk_prev pid (adjslot_tail ring) (behind ring)

-- `crash` is the read through NULL.
pub data Victim : Type 0 where
  crash no_victim : Victim
  victim : Proc → Victim

abbrev pub copy_of : ProcTable.Table → Entry → Victim
copy_of t null = no_victim
copy_of t head = no_victim
copy_of t (record_of pid) = elim (pid_lookup t pid) [ none ↦ no_victim | some p ↦ victim p ]

-- Where the pid is gone, the search restarts at the tail.
abbrev pub or_tail : List ℕ → Entry → Entry
or_tail ring null = adjslot_tail ring
or_tail ring head = head
or_tail ring (record_of p) = record_of p

unfoldable pub find_victim : ℕ → ℕ → ProcTable.Table → Victim
unfolding backwards proc_adj_prev
find_victim oom_score prev_pid t =
    let ring = backwards (t.procadjslot_list (adj_to_slot (pos oom_score))) in
    if prev_pid == 0 then copy_of t (adjslot_tail ring) else elim (proc_adj_prev prev_pid ring) [
      | null_read ↦ crash
      | returns e ↦ copy_of t (or_tail ring e)
    ]

-- How the callback ends.
pub data Bite : Type 0 where
  crashed nothing_killed out_of_fuel : Bite
  killed : Proc → ProcTable.Table → Bite

-- The loop of `watchdog_callback`. The lock is held in find_victim and again in pid_invalidate, not
-- between them: `table` is the table that the first one meets at each round, and `later` the one that
-- the second one meets. `kills` tells whether a synchronous kill of a process succeeds. The score
-- before a search is `oom_score`, and after 0 the loop ends.
unfoldable pub search_from :
    (ℕ → ProcTable.Table) → (ℕ → ProcTable.Table) → (Proc → Bool) → ℕ → ℕ → ℕ → Bite
unfolding find_victim
search_from table later kills zero oom_score prev_pid = out_of_fuel
search_from table later kills (suc fuel) oom_score prev_pid =
    elim (find_victim oom_score prev_pid (table fuel)) [
      | crash ↦ crashed
      | no_victim ↦ elim oom_score [
        | zero ↦ nothing_killed
        | suc lower ↦ search_from table later kills fuel lower 0
      ]
      | victim p ↦
          if p.valid && kills p
          then killed p (pid_invalidate p.pid (later fuel))
          else search_from table later kills fuel oom_score p.pid
    ]

unfoldable pub watchdog_callback :
    (ℕ → ProcTable.Table) → (ℕ → ProcTable.Table) → (Proc → Bool) → ℕ → Bite
watchdog_callback table later kills fuel = search_from table later kills fuel 1000 0

-- `Watchdog`: the timer, and its time in seconds, 0 where it is not armed.
pub record Watchdog : Type 0 where
  pub timer_created : Bool
  pub timeout : ℕ
  pub armed : ℕ

-- The result of timer_settime is an argument.
unfoldable pub start : Bool → Watchdog → Bool × Watchdog
start set w =
    if not w.timer_created || not set then (false, w) else (true, record w { armed = w.timeout })

unfoldable pub stop : Bool → Watchdog → Bool × Watchdog
stop set w = if not w.timer_created || not set then (false, w) else (true, record w { armed = 0 })
