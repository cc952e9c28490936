-- ===== src/Stats/Chains.antt =====
-- statslog.cpp: the chains of the task names under an insertion and a removal.
use android_system_memory_lm.Base.{
  ℕ, zero, suc, ◌+◌, ◌≤◌, ◌≡◌, refl, ap, arith, inl, inr, take, Option-cases, List, [], ◌∷◌, none,
  some, true, ◌==◌, if◌then◌else◌,
}
use android_system_memory_lm.Text.{Bytes}
use android_system_memory_lm.Stats.{
  Task, Tasks, pid_hashfn, find_task, pid_lookup, chains, proc_insert, unlink_task,
  stats_remove_taskname, cut_taskname, stats_get_task_name,
}

unfoldable pub count_task : ℕ → List Task → ℕ
count_task q [] = 0
count_task q (p ∷ ps) = (if p.pid == q then 1 else 0) + count_task q ps

-- A pid has one record at most, which stands in the chain of its hash.
abbrev pub Unique : Tasks → Type 0
Unique s = (q h : ℕ) → count_task q (chains s.pidhash h) ≤ 1

-- A stored name fits its array.
abbrev Short : Tasks → Type 0
Short s = (q : ℕ) (name : Bytes) → stats_get_task_name s q ≡ some name → cut_taskname name ≡ name

pub record IsTasks (s : Tasks) : Type 0 where
  pub enabled : s.enable_stats_log ≡ true
  pub unique : Unique s
  pub short : Short s

find_task-none : (q : ℕ) (ps : List Task) → count_task q ps ≡ 0 → find_task q ps ≡ none
unfolding find_task count_task
find_task-none q [] h = refl
find_task-none q (x ∷ ps) h = ground (arith, find_task-none q ps)

count_task-none : (q : ℕ) (ps : List Task) → find_task q ps ≡ none → count_task q ps ≡ 0
unfolding find_task count_task
count_task-none q [] h = refl
count_task-none q (x ∷ ps) h = ground (arith, count_task-none q ps)

find_task-unlink :
    (r q : ℕ) (ps : List Task)
    → count_task r ps ≤ 1
    → find_task q (unlink_task r ps) ≡ (if q == r then none else find_task q ps)
unfolding find_task unlink_task count_task
find_task-unlink r q [] h = ground arith
find_task-unlink r q (x ∷ ps) h = ground (arith, find_task-unlink r q ps, find_task-none r ps)

count_task-unlink :
    (r q : ℕ) (ps : List Task)
    → count_task r ps ≤ 1
    → count_task q (unlink_task r ps) ≡ (if q == r then 0 else count_task q ps)
unfolding unlink_task count_task
count_task-unlink r q [] h = ground arith
count_task-unlink r q (x ∷ ps) h = ground (arith, count_task-unlink r q ps)

pub take-take : (n : ℕ) (xs : Bytes) → take n (take n xs) ≡ take n xs
take-take zero xs = refl
take-take (suc n) [] = refl
take-take (suc n) (x ∷ xs) = ap (◌∷◌ x) (take-take n xs)

-- What each operation makes the lookup find.
pub get-remove :
    (r q : ℕ) (s : Tasks)
    → s.enable_stats_log ≡ true
    → Unique s
    → stats_get_task_name (stats_remove_taskname r s) q
      ≡ (if q == r then none else stats_get_task_name s q)
unfolding stats_get_task_name stats_remove_taskname
get-remove r q s on u = elim (Option-cases s.pidhash) [
  | inl e ↦ ground (arith, e)
  | inr (h, e) ↦
      ground (arith, e, find_task-unlink r q (h (pid_hashfn r)), rw e at (u r (pid_hashfn r)))
]

pub get-insert :
    (p : Task) (q : ℕ) (s : Tasks)
    → stats_get_task_name (proc_insert p s) q
      ≡ (if q == p.pid then some p.taskname else stats_get_task_name s q)
unfolding stats_get_task_name proc_insert find_task
get-insert p q s = elim (Option-cases s.pidhash) [
  | inl e ↦ ground (arith, e)
  | inr (h, e) ↦ ground (arith, e)
]

pub Unique-remove :
    (r : ℕ) (s : Tasks) → s.enable_stats_log ≡ true → Unique s → Unique (stats_remove_taskname r s)
unfolding stats_remove_taskname
Unique-remove r s on u q h = elim (Option-cases s.pidhash) [
  | inl e ↦ ground (arith, e, u q h)
  | inr (f, e) ↦ ground (
    arith,
    e,
    count_task-unlink r q (f (pid_hashfn r)),
    rw e at (u r (pid_hashfn r)),
    rw e at (u q h),
    rw e at (u q (pid_hashfn r)),
  )
]

-- The record of a pid is in the chain of its hash, so an insertion needs a look at that chain only.
pub Unique-insert :
    (p : Task) (s : Tasks)
    → count_task p.pid (chains s.pidhash (pid_hashfn p.pid)) ≡ 0
    → Unique s
    → Unique (proc_insert p s)
unfolding proc_insert count_task
Unique-insert p s fresh u q h = ground (arith, fresh, u q h, u q (pid_hashfn p.pid))

pub count-lookup :
    (pid : ℕ) (s : Tasks)
    → pid_lookup s pid ≡ none
    → count_task pid (chains s.pidhash (pid_hashfn pid)) ≡ 0
unfolding pid_lookup count_task
count-lookup pid s h = elim (Option-cases s.pidhash) [
  | inl e ↦ ground (arith, e)
  | inr (f, e) ↦ ground (arith, e, count_task-none pid (f (pid_hashfn pid)))
]

pub lookup-remove :
    (r : ℕ) (s : Tasks)
    → s.enable_stats_log ≡ true
    → Unique s
    → pid_lookup (stats_remove_taskname r s) r ≡ none
unfolding stats_get_task_name
lookup-remove r s on u = ground (arith, get-remove r r s on u)
