-- ===== src/ProcTable/Lookup.antt =====
-- lmkd.cpp: the table as a finite map from a pid to its record. Each operation is described by what
-- `pid_lookup` finds afterwards.
use android_system_memory_lm.Base.{
  ℕ, ◌+◌, ◌≤◌, ◌≡◌, refl, arith, List, [], ◌∷◌, Option, none, some, ◌==◌, if◌then◌else◌,
}
use android_system_memory_lm.ProcTable.{
  Proc, Table, pid_hashfn, find_pid, pid_lookup, proc_insert, unlink_pid, write_proc, modify,
}

-- How many records of a pid a chain has.
unfoldable pub count_pid : ℕ → List Proc → ℕ
count_pid q [] = 0
count_pid q (p ∷ ps) = (if p.pid == q then 1 else 0) + count_pid q ps

find_pid-pid : (q : ℕ) (ps : List Proc) {p : Proc} → find_pid q ps ≡ some p → p.pid ≡ q
unfolding find_pid
find_pid-pid q [] h = cc
find_pid-pid q (x ∷ ps) {p} h = ground (arith, find_pid-pid q ps {p = p})

pub count_pid-none : (q : ℕ) (ps : List Proc) → find_pid q ps ≡ none → count_pid q ps ≡ 0
unfolding find_pid count_pid
count_pid-none q [] h = refl
count_pid-none q (x ∷ ps) h = ground (arith, count_pid-none q ps)

pub find_pid-none : (q : ℕ) (ps : List Proc) → count_pid q ps ≡ 0 → find_pid q ps ≡ none
unfolding find_pid count_pid
find_pid-none q [] h = refl
find_pid-none q (x ∷ ps) h = ground (arith, find_pid-none q ps)

pub find_pid-unlink :
    (r q : ℕ) (ps : List Proc)
    → count_pid r ps ≤ 1
    → find_pid q (unlink_pid r ps) ≡ (if q == r then none else find_pid q ps)
unfolding find_pid unlink_pid count_pid
find_pid-unlink r q [] h = ground arith
find_pid-unlink r q (x ∷ ps) h = ground (arith, find_pid-unlink r q ps, find_pid-none r ps)

pub count_pid-unlink : (r q : ℕ) (ps : List Proc) → count_pid q (unlink_pid r ps) ≤ count_pid q ps
unfolding unlink_pid count_pid
count_pid-unlink r q [] = omega arith
count_pid-unlink r q (x ∷ ps) = ground (arith, count_pid-unlink r q ps)

-- A write keeps the pid of the record.
abbrev pub KeepsPid : (Proc → Proc) → Type 0
KeepsPid f = (p : Proc) → (f p).pid ≡ p.pid

abbrev pub map_option : (Proc → Proc) → Option Proc → Option Proc
map_option f none = none
map_option f (some p) = some (f p)

find_pid-write :
    (r q : ℕ) (f : Proc → Proc) (ps : List Proc)
    → KeepsPid f
    → find_pid q (write_proc r f ps)
      ≡ (if q == r then map_option f (find_pid q ps) else find_pid q ps)
unfolding find_pid write_proc
find_pid-write r q f [] h = ground arith
find_pid-write r q f (x ∷ ps) h = ground (arith, find_pid-write r q f ps, h x)

pub count_pid-write :
    (r q : ℕ) (f : Proc → Proc) (ps : List Proc)
    → KeepsPid f
    → count_pid q (write_proc r f ps) ≡ count_pid q ps
unfolding write_proc count_pid
count_pid-write r q f [] h = refl
count_pid-write r q f (x ∷ ps) h = ground (arith, count_pid-write r q f ps, h x)

pub pid_lookup-pid : (t : Table) (q : ℕ) {p : Proc} → pid_lookup t q ≡ some p → p.pid ≡ q
unfolding pid_lookup
pid_lookup-pid t q h = find_pid-pid q (t.pidhash (pid_hashfn q)) h

-- Inserting a record makes it the one that its pid finds, and changes no other.
pub pid_lookup-insert :
    (p : Proc) (t : Table) (q : ℕ)
    → pid_lookup (proc_insert p t) q ≡ (if p.pid == q then some p else pid_lookup t q)
unfolding pid_lookup proc_insert find_pid
pid_lookup-insert p t q = ground arith

-- A write through the record of a pid is seen there alone.
pub pid_lookup-modify :
    (r : ℕ) (f : Proc → Proc) (t : Table) (q : ℕ)
    → KeepsPid f
    → pid_lookup (modify r f t) q
      ≡ (if q == r then map_option f (pid_lookup t q) else pid_lookup t q)
unfolding pid_lookup modify
pid_lookup-modify r f t q h = ground (arith, find_pid-write r q f (t.pidhash (pid_hashfn q)) h)
