-- ===== src/Kill/Wait.antt =====
-- lmkd.cpp: what a kill does to the table besides the removal of records: nothing. And which records
-- may be removed.
use android_system_memory_lm.Base.{
  ℕ, ◌≤◌, ◌<◌, ◌≡◌, sym, ◌∙◌, arith, some, ℤ, pos, ◌≤ℤ◌, ◌<ℤ◌, count, Option-cases, inl, inr,
}
use android_system_memory_lm.ProcTable
use android_system_memory_lm.ProcTable.{Proc, pid_lookup, pid_remove, adj_to_slot}
use android_system_memory_lm.ProcTable.Invariant.{IsTable, pid_lookup-remove, pid_remove-IsTable}
use android_system_memory_lm.Kill.{
  Host, Config, State, stop_wait_for_proc_kill, start_wait_for_proc_kill,
}

-- Two tables with the same chains and slots.
pub record SameRecords (t u : ProcTable.Table) : Type 0 where
  pub chains : (h : ℕ) → u.pidhash h ≡ t.pidhash h
  pub slots : (s : ℕ) → u.procadjslot_list s ≡ t.procadjslot_list s

pub SameRecords-trans :
    (t u w : ProcTable.Table) → SameRecords t u → SameRecords u w → SameRecords t w
SameRecords-trans t u w a b = record {
  chains = λ h. b.chains h ∙ a.chains h;
  slots = λ k. b.slots k ∙ a.slots k;
}

pub SameRecords-lookup :
    (t u : ProcTable.Table) (q : ℕ) → SameRecords t u → pid_lookup u q ≡ pid_lookup t q
unfolding pid_lookup
SameRecords-lookup t u q same = rw (same.chains (ProcTable.pid_hashfn q))

pub SameRecords-IsTable : (t u : ProcTable.Table) → SameRecords t u → IsTable t → IsTable u
SameRecords-IsTable t u same v = record {
  chained = λ h q. rw (same.chains h) (v.chained h q);
  slotted = λ s q. rw (same.slots s, SameRecords-lookup t u q same) (v.slotted s q);
}

pub stop_wait-SameRecords :
    (config : Config) (s : State) → SameRecords s.table (stop_wait_for_proc_kill config s).table
unfolding stop_wait_for_proc_kill
stop_wait-SameRecords config s = record { chains = λ h. ground arith; slots = λ k. ground arith }

pub start_wait-SameRecords :
    (host : Host) (config : Config) (fd : ℤ) (s : State)
    → SameRecords s.table (start_wait_for_proc_kill host config fd s).table
unfolding start_wait_for_proc_kill
start_wait-SameRecords host config fd s = record {
  chains = λ h. ground arith;
  slots = λ k. ground arith;
}

pub stop_wait-killed :
    (config : Config) (s : State) → (stop_wait_for_proc_kill config s).killed ≡ s.killed
unfolding stop_wait_for_proc_kill
stop_wait-killed config s = ground arith

pub start_wait-killed :
    (host : Host) (config : Config) (fd : ℤ) (s : State)
    → (start_wait_for_proc_kill host config fd s).killed ≡ s.killed
unfolding start_wait_for_proc_kill
start_wait-killed host config fd s = ground arith

-- Only records with a score from `m` on were removed, and nothing else was changed.
pub record Shrinks (m : ℕ) (t u : ProcTable.Table) : Type 0 where
  pub well : IsTable u
  pub spared :
      (q : ℕ) (p : Proc) → pid_lookup t q ≡ some p → p.oomadj <ℤ pos m → pid_lookup u q ≡ some p
  pub old : (q : ℕ) (p : Proc) → pid_lookup u q ≡ some p → pid_lookup t q ≡ some p

pub Shrinks-refl : (m : ℕ) (t : ProcTable.Table) → IsTable t → Shrinks m t t
Shrinks-refl m t v = record { well = v; spared = λ q p h k. h; old = λ q p h. h }

pub Shrinks-trans :
    (m : ℕ) (t u w : ProcTable.Table) → Shrinks m t u → Shrinks m u w → Shrinks m t w
Shrinks-trans m t u w a b = record {
  well = b.well;
  spared = λ q p h k. b.spared q p (a.spared q p h k) k;
  old = λ q p h. a.old q p (b.old q p h);
}

pub Shrinks-mono : (m n : ℕ) (t u : ProcTable.Table) → m ≤ n → Shrinks n t u → Shrinks m t u
Shrinks-mono m n t u h a = record {
  well = a.well;
  spared = λ q p found k. a.spared q p found (omega arith);
  old = a.old;
}

pub SameRecords-Shrinks :
    (m : ℕ) (t u : ProcTable.Table) → SameRecords t u → IsTable t → Shrinks m t u
SameRecords-Shrinks m t u same v = record {
  well = SameRecords-IsTable t u same v;
  spared = λ q p h k. SameRecords-lookup t u q same ∙ h;
  old = λ q p h. sym (SameRecords-lookup t u q same) ∙ h;
}

-- A record that stands in the slot of a score that is not negative has that score.
pub slot_score :
    (i q : ℕ) (t : ProcTable.Table) (p : Proc)
    → IsTable t
    → 0 < count q (t.procadjslot_list (adj_to_slot (pos i)))
    → pid_lookup t q ≡ some p
    → p.oomadj ≡ pos i
slot_score i q t p v h found = ground (arith, v.slotted (adj_to_slot (pos i)) q)

-- What stands in a slot has a record.
pub slot_record :
    (s q : ℕ) (t : ProcTable.Table)
    → IsTable t
    → 0 < count q (t.procadjslot_list s)
    → (p : Proc) × (pid_lookup t q ≡ some p)
slot_record s q t v h = elim (Option-cases (pid_lookup t q)) [
  | inl e ↦ absurd (ground (arith, v.slotted s q))
  | inr found ↦ found
]

-- Removing a pid whose record, if any, has a score from `m` on.
pub pid_remove-Shrinks :
    (m : ℕ) (last_kill : ℤ) (r : ℕ) (t : ProcTable.Table)
    → IsTable t
    → ((p : Proc) → pid_lookup t r ≡ some p → pos m ≤ℤ p.oomadj)
    → Shrinks m t (pid_remove last_kill r t).1
pid_remove-Shrinks m last_kill r t v high = record {
  well = pid_remove-IsTable last_kill r t v;
  spared = λ q p h k. ground (arith, pid_lookup-remove last_kill r t q v, high p);
  old = λ q p h. ground (arith, pid_lookup-remove last_kill r t q v);
}
