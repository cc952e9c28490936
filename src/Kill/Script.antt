-- ===== src/Kill/Script.antt =====
-- lmkd.cpp: `proc_get_script`, which looks in /proc for a process with a score from 0 on that nobody
-- registered, and kills it. Its static variables are a Traversal; the directory stream stays open
-- between two calls, so it is the list of the entries that are still to be read.
use android_system_memory_lm.Base.{
  ℕ, List, [], ◌∷◌, Option, none, some, Bool, true, false, ◌&&◌, not, ◌==◌, if◌then◌else◌, ℤ, pos,
  ltb_ℤ, leb_ℤ, eqb_ℤ,
}
use android_system_memory_lm.Polling.{Timespec, get_time_diff_ms}

-- The entries of a directory: the number that `sscanf` reads from a name, if any.
abbrev pub Names : Type 0
Names = List (Option ℕ)

-- What the kernel answers during one call.
pub record Procfs : Type 0 where
  -- The entries that opendir gives, at the first and at the second time.
  pub opendir : Option Names
  pub reopendir : Option Names
  pub proc_get_vm : ℕ → ℤ
  -- What is read from /proc/<pid>/oom_score_adj, where that can be opened, read and parsed.
  pub oom_score_adj : ℕ → Option ℤ
  -- The result of kill, 0 for success.
  pub kill : ℕ → ℤ
  pub curr_tm : Timespec

pub record Traversal : Type 0 where
  pub d : Option Names
  pub retry_eligible : Bool
  pub check_time : Bool
  pub last_traverse_time : Timespec

abbrev is_adj : Option ℤ → Bool
is_adj none = false
is_adj (some oomadj) = leb_ℤ (pos 0) oomadj

-- The tests of an entry; `size` is proc_get_size.
unfoldable pub is_script : Procfs → (ℕ → ℤ) → ℕ → Bool
is_script procfs size pid =
    not (pid == 1)
    && (ltb_ℤ (pos 0) (procfs.proc_get_vm pid)
        && (is_adj (procfs.oom_score_adj pid) && ltb_ℤ (pos 0) (size pid)))

-- The loop over the entries: the first one to kill, and the entries behind it.
unfoldable pub find_script : Procfs → (ℕ → ℤ) → Names → Option (ℕ × Names)
unfolding is_script
find_script procfs size [] = none
find_script procfs size (none ∷ names) = find_script procfs size names
find_script procfs size (some pid ∷ names) =
    let rest = find_script procfs size names in
    if is_script procfs size pid then some (pid, names) else rest

-- The pages that are freed, and the pid that was killed, if any.
pub record Freed : Type 0 where
  pub tasksize : ℤ
  pub victim : Option ℕ

abbrev pub nothing : Freed
nothing = record { tasksize = pos 0; victim = none }

unfoldable pub kill_script : Procfs → (ℕ → ℤ) → ℕ → Names → Traversal → Freed × Traversal
kill_script procfs size pid names t = (
  if eqb_ℤ (procfs.kill pid) (pos 0)
      then record { tasksize = size pid; victim = some pid }
      else nothing,
  record t { d = some names; retry_eligible = true; check_time = false },
)

-- Where the directory has no more entries and there is no further round.
unfoldable pub end_traverse : Procfs → Traversal → Freed × Traversal
end_traverse procfs t =
    (nothing, record t { d = none; check_time = true; last_traverse_time = procfs.curr_tm })

-- The second round at most, after `goto repeat`; `retry_eligible` is false by then.
unfoldable pub traverse_again : Procfs → (ℕ → ℤ) → Traversal → Freed × Traversal
unfolding find_script kill_script end_traverse
traverse_again procfs size t = elim procfs.reopendir [
  | none ↦ (nothing, t)
  | some names ↦ elim (find_script procfs size names) [
    | none ↦ end_traverse procfs t
    | some found ↦ kill_script procfs size found.0 found.1 t
  ]
]

-- The stream that is open, or a new one.
abbrev pub stream : Procfs → Option Names → Option Names
stream procfs none = procfs.opendir
stream procfs (some names) = some names

unfoldable pub traverse : Procfs → (ℕ → ℤ) → Traversal → Freed × Traversal
unfolding find_script kill_script end_traverse traverse_again
traverse procfs size t = elim (stream procfs t.d) [
  | none ↦ (nothing, t)
  | some names ↦ elim (find_script procfs size names) [
    | some found ↦ kill_script procfs size found.0 found.1 t
    | none ↦
        if t.retry_eligible
        then traverse_again procfs size (record t { d = none; retry_eligible = false })
        else end_traverse procfs t
  ]
]

abbrev psi_proc_traverse_delay_ms : ℤ
psi_proc_traverse_delay_ms = pos 200

unfoldable pub proc_get_script : Procfs → (ℕ → ℤ) → Traversal → Freed × Traversal
unfolding traverse
proc_get_script procfs size t =
    if t.check_time
      && ltb_ℤ (get_time_diff_ms t.last_traverse_time procfs.curr_tm) psi_proc_traverse_delay_ms
    then (nothing, t)
    else traverse procfs size t
