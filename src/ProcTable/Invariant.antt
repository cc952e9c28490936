-- ===== src/ProcTable/Invariant.antt =====
-- lmkd.cpp: what holds of the process table between two operations, and that each keeps it.
use android_system_memory_lm.Base.{
  ℕ, ◌≤◌, ◌≡◌, refl, arith, Option, none, some, ◌==◌, if◌then◌else◌, ℤ, Option-cases, inl, inr,
  count, erase, count-erase,
}
use android_system_memory_lm.ProcTable.Lookup.{
  count_pid, count_pid-none, find_pid-unlink, count_pid-unlink, KeepsPid, map_option,
  count_pid-write, pid_lookup-pid, pid_lookup-insert, pid_lookup-modify,
}
use android_system_memory_lm.ProcTable.{
  Proc, Table, pid_hashfn, find_pid, pid_lookup, proc_insert, unlink_pid, detach, pid_remove,
  modify, adj_to_slot, empty,
}

-- How often a slot has to list the pid of a record.
abbrev pub slot_count : ℕ → Option Proc → ℕ
slot_count s none = 0
slot_count s (some p) = if adj_to_slot p.oomadj == s then 1 else 0

-- A pid has at most one record, which is in the chain of its hash, and stands once in the slot of
-- its score and in no other.
pub record IsTable (t : Table) : Type 0 where
  pub chained : (h q : ℕ) → count_pid q (t.pidhash h) ≤ (if pid_hashfn q == h then 1 else 0)
  pub slotted : (s q : ℕ) → count q (t.procadjslot_list s) ≡ slot_count s (pid_lookup t q)

pub chained_le : {t : Table} → IsTable t → (h q : ℕ) → count_pid q (t.pidhash h) ≤ 1
chained_le v h q = ground (arith, v.chained h q)

-- The empty table is well formed.
pub empty-IsTable : IsTable empty
unfolding empty count_pid pid_lookup find_pid
empty-IsTable = record { chained = λ h q. omega arith; slotted = λ s q. refl }

-- A record whose pid is not registered may be inserted.
pub proc_insert-IsTable :
    (p : Proc) (t : Table) → pid_lookup t p.pid ≡ none → IsTable t → IsTable (proc_insert p t)
unfolding proc_insert
proc_insert-IsTable p t fresh v = record {
  chained = λ h q.
      unfold count_pid pid_lookup in
      ground (arith, v.chained h q, count_pid-none p.pid (t.pidhash (pid_hashfn p.pid)) fresh);
  slotted = λ s q. ground (arith, pid_lookup-insert p t q, v.slotted s q);
}

-- The parts of the table after a record was detached.
detach-pidhash :
    (last_kill : ℤ) (r : ℕ) (p : Proc) (t : Table) (h : ℕ)
    → (detach last_kill r p t).pidhash h
      ≡ (if h == pid_hashfn r then unlink_pid r (t.pidhash h) else t.pidhash h)
unfolding detach
detach-pidhash last_kill r p t h = ground arith

detach-slots :
    (last_kill : ℤ) (r : ℕ) (p : Proc) (t : Table) (s : ℕ)
    → (detach last_kill r p t).procadjslot_list s ≡ (
        if s == adj_to_slot p.oomadj
        then erase p.pid (t.procadjslot_list s)
        else t.procadjslot_list s)
unfolding detach
detach-slots last_kill r p t s = ground arith

pid_lookup-detach :
    (last_kill : ℤ) (r : ℕ) (p : Proc) (t : Table) (q : ℕ)
    → IsTable t
    → pid_lookup (detach last_kill r p t) q ≡ (if q == r then none else pid_lookup t q)
unfolding pid_lookup
pid_lookup-detach last_kill r p t q v =
    let chain = t.pidhash (pid_hashfn q) in
    ground (
      arith,
      detach-pidhash last_kill r p t (pid_hashfn q),
      find_pid-unlink r q chain (chained_le v (pid_hashfn q) r),
    )

detach-IsTable :
    (last_kill : ℤ) (r : ℕ) (p : Proc) (t : Table)
    → pid_lookup t r ≡ some p
    → IsTable t
    → IsTable (detach last_kill r p t)
detach-IsTable last_kill r p t found v = record {
  chained = λ h q.
      ground (
        arith,
        v.chained h q,
        detach-pidhash last_kill r p t h,
        count_pid-unlink r q (t.pidhash h),
      );
  slotted = λ s q. ground (
    arith,
    v.slotted s q,
    pid_lookup-pid t r found,
    detach-slots last_kill r p t s,
    pid_lookup-detach last_kill r p t q v,
    count-erase q p.pid (t.procadjslot_list s),
  );
}

-- Removing a pid makes the lookup of it fail, and changes no other lookup.
pub pid_lookup-remove :
    (last_kill : ℤ) (r : ℕ) (t : Table) (q : ℕ)
    → IsTable t
    → pid_lookup (pid_remove last_kill r t).1 q ≡ (if q == r then none else pid_lookup t q)
unfolding pid_remove
pid_lookup-remove last_kill r t q v = elim (Option-cases (pid_lookup t r)) [
  | inl e ↦ rw (e, pid_remove) (ground arith)
  | inr (p, e) ↦ rw (e, pid_remove) (pid_lookup-detach last_kill r p t q v)
]

pub pid_remove-IsTable :
    (last_kill : ℤ) (r : ℕ) (t : Table) → IsTable t → IsTable (pid_remove last_kill r t).1
unfolding pid_remove
pid_remove-IsTable last_kill r t v = elim (Option-cases (pid_lookup t r)) [
  | inl e ↦ rw (e, pid_remove) v
  | inr (p, e) ↦ rw (e, pid_remove) (detach-IsTable last_kill r p t e v)
]

modify-slots :
    (r : ℕ) (f : Proc → Proc) (t : Table) (s : ℕ)
    → (modify r f t).procadjslot_list s ≡ t.procadjslot_list s
unfolding modify
modify-slots r f t s = refl

pub modify-chains :
    (r q : ℕ) (f : Proc → Proc) (t : Table) (h : ℕ)
    → KeepsPid f
    → count_pid q ((modify r f t).pidhash h) ≡ count_pid q (t.pidhash h)
unfolding modify
modify-chains r q f t h keeps = ground (arith, count_pid-write r q f (t.pidhash h) keeps)

abbrev KeepsAdj : (Proc → Proc) → Type 0
KeepsAdj f = (p : Proc) → (f p).oomadj ≡ p.oomadj

slot_count-map :
    (s : ℕ) (f : Proc → Proc) (o : Option Proc)
    → KeepsAdj f
    → slot_count s (map_option f o) ≡ slot_count s o
slot_count-map s f none same = refl
slot_count-map s f (some p) same = rw (same p)

-- A write that keeps the pid and the score of a record keeps the table well formed.
pub modify-IsTable :
    (r : ℕ) (f : Proc → Proc) (t : Table)
    → KeepsPid f
    → ((p : Proc) → (f p).oomadj ≡ p.oomadj)
    → IsTable t
    → IsTable (modify r f t)
modify-IsTable r f t keeps same v = record {
  chained = λ h q. omega (arith, v.chained h q, modify-chains r q f t h keeps);
  slotted = λ s q. ground (
    arith,
    v.slotted s q,
    modify-slots r f t s,
    pid_lookup-modify r f t q keeps,
    slot_count-map s f (pid_lookup t q) same,
  );
}
