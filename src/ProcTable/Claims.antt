-- ===== src/ProcTable/Claims.antt =====
-- lmkd.cpp: who owns a record, `claim_record` and `remove_claims`.
use android_system_memory_lm.Base.{
  ℕ, zero, suc, ◌<◌, ◌≡◌, refl, arith, List, [], ◌∷◌, Option, none, some, ◌==◌, ltb, if◌then◌else◌,
}
use android_system_memory_lm.ProcTable.Lookup.{map_option, count_pid, pid_lookup-modify}
use android_system_memory_lm.ProcTable.Invariant.{IsTable, slot_count, modify-IsTable}
use android_system_memory_lm.ProcTable.{
  Proc, Table, pid_hashfn, pidhash_sz, find_pid, pid_lookup, claimable, claim_record, drop_claims,
  drop_claims_below, remove_claims,
}

-- What `remove_claims` does to one record.
abbrev pub drop_claim : ℕ → Proc → Proc
drop_claim pid p = if p.reg_pid == pid then record p { reg_pid = 0 } else p

-- What a claim that succeeds does to the record.
abbrev pub set_owner : ℕ → Proc → Proc
set_owner pid p = record p { reg_pid = pid }

pub pid_hashfn-lt : (x : ℕ) → pid_hashfn x < pidhash_sz
unfolding pid_hashfn
pid_hashfn-lt x = omega arith

find_pid-drop_claims :
    (pid q : ℕ) (ps : List Proc)
    → find_pid q (drop_claims pid ps) ≡ map_option (drop_claim pid) (find_pid q ps)
unfolding find_pid drop_claims
find_pid-drop_claims pid q [] = refl
find_pid-drop_claims pid q (p ∷ ps) = ground (arith, find_pid-drop_claims pid q ps)

count_pid-drop_claims :
    (pid q : ℕ) (ps : List Proc) → count_pid q (drop_claims pid ps) ≡ count_pid q ps
unfolding count_pid drop_claims
count_pid-drop_claims pid q [] = refl
count_pid-drop_claims pid q (p ∷ ps) = ground (arith, count_pid-drop_claims pid q ps)

drop_claims_below-pidhash :
    (n pid : ℕ) (t : Table) (h : ℕ)
    → (drop_claims_below n pid t).pidhash h
      ≡ (if ltb h n then drop_claims pid (t.pidhash h) else t.pidhash h)
unfolding drop_claims_below
drop_claims_below-pidhash zero pid t h = ground arith
drop_claims_below-pidhash (suc n) pid t h =
    ground (arith, drop_claims_below-pidhash n pid t h, drop_claims_below-pidhash n pid t n)

drop_claims_below-slots :
    (n pid : ℕ) (t : Table) → (drop_claims_below n pid t).procadjslot_list ≡ t.procadjslot_list
unfolding drop_claims_below
drop_claims_below-slots zero pid t = refl
drop_claims_below-slots (suc n) pid t = drop_claims_below-slots n pid t

-- Dropping the claims of a registrant leaves every record in place; those that it owned are owned
-- by nobody, and the others are as they were.
pub pid_lookup-remove_claims :
    (pid : ℕ) (t : Table) (q : ℕ)
    → pid_lookup (remove_claims pid t) q ≡ map_option (drop_claim pid) (pid_lookup t q)
unfolding pid_lookup remove_claims
pid_lookup-remove_claims pid t q = ground (
  arith,
  pid_hashfn-lt q,
  drop_claims_below-pidhash pidhash_sz pid t (pid_hashfn q),
  find_pid-drop_claims pid q (t.pidhash (pid_hashfn q)),
)

slot_count-drop_claim :
    (s pid : ℕ) (o : Option Proc) → slot_count s (map_option (drop_claim pid) o) ≡ slot_count s o
slot_count-drop_claim s pid none = refl
slot_count-drop_claim s pid (some p) = ground arith

pub remove_claims-IsTable : (pid : ℕ) (t : Table) → IsTable t → IsTable (remove_claims pid t)
remove_claims-IsTable pid t v = record {
  chained = λ h q.
      unfold remove_claims in
      ground (
        arith,
        v.chained h q,
        drop_claims_below-pidhash pidhash_sz pid t h,
        count_pid-drop_claims pid q (t.pidhash h),
      );
  slotted = λ s q.
      rw (pid_lookup-remove_claims pid t q, slot_count-drop_claim s pid (pid_lookup t q))
        (unfold remove_claims in rw (drop_claims_below-slots pidhash_sz pid t) (v.slotted s q));
}

-- A claim on a registered record succeeds exactly when the registrant owns it or nobody does. The
-- registrant then owns it; a claim that is refused changes nothing.
pub claim_record_lem :
    (p : Proc) (pid : ℕ) (t : Table) (q : ℕ)
    → pid_lookup t p.pid ≡ some p
    → ((claim_record p pid t).0 ≡ claimable p pid)
      × (pid_lookup (claim_record p pid t).1 q ≡ (
          if q == p.pid
          then (if claimable p pid then some (set_owner pid p) else some p)
          else pid_lookup t q))
unfolding claim_record claimable
claim_record_lem p pid t q found =
    (ground arith, ground (arith, pid_lookup-modify p.pid (set_owner pid) t q (λ x. refl)))

pub claim_record-IsTable :
    (p : Proc) (pid : ℕ) (t : Table) → IsTable t → IsTable (claim_record p pid t).1
unfolding claim_record
claim_record-IsTable p pid t v =
    let claimed = modify-IsTable p.pid (set_owner pid) t (λ x. refl) (λ x. refl) v in
    ground (arith, claimed)
