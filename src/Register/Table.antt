-- ===== src/Register/Table.antt =====
-- lmkd.cpp: `register_oom_adj_proc` and `cmd_procremove` on the process table.
use android_system_memory_lm.Base.{
  ℕ, ◌+◌, ◌-◌, ◌≡◌, refl, ap, ◌∙◌, arith, Option, none, some, not, ◌&&◌, ◌||◌, ◌==◌, leb_ℤ,
  if◌then◌else◌, ℤ, pos, negsuc, inl, inr, Bool-cases, Option-cases, count, count-erase,
}
use android_system_memory_lm.ProcTable.Lookup.{
  map_option, pid_lookup-pid, pid_lookup-modify, pid_lookup-insert,
}
use android_system_memory_lm.ProcTable.Invariant.{
  IsTable, pid_lookup-remove, pid_remove-IsTable, proc_insert-IsTable, modify-chains,
}
use android_system_memory_lm.ProcTable.Claims.{set_owner, claim_record_lem, claim_record-IsTable}
use android_system_memory_lm.ProcTable
use android_system_memory_lm.ProcTable.{
  Proc, find_pid, pid_hashfn, pid_lookup, proc_slot, proc_unslot, proc_insert, modify, claimable,
  claim_record, pid_remove, adj_to_slot,
}
use android_system_memory_lm.Packet.{LmkProcprio}
use android_system_memory_lm.Register.{
  Host, Config, new_record, register_new, register_known, register_in, reslot, remove_one,
  remove_pid,
}

abbrev pub set_score : ℤ → Proc → Proc
set_score score p = record p { oomadj = score }

reslot-pidhash :
    (p : Proc) (score : ℤ) (t : ProcTable.Table) (h : ℕ)
    → (reslot p score t).pidhash h ≡ (modify p.pid (set_score score) t).pidhash h
unfolding reslot modify
reslot-pidhash p score t h = refl

reslot-slots :
    (p : Proc) (score : ℤ) (t : ProcTable.Table) (s q : ℕ)
    → count p.pid (t.procadjslot_list (adj_to_slot p.oomadj)) ≡ 1
    → count q ((reslot p score t).procadjslot_list s) ≡ (
        if q == p.pid
        then count q (t.procadjslot_list s)
          - (if s == adj_to_slot p.oomadj then 1 else 0)
          + (if s == adj_to_slot score then 1 else 0)
        else count q (t.procadjslot_list s))
unfolding reslot modify
reslot-slots p score t s q one = ground (
  arith,
  count-erase q p.pid (t.procadjslot_list s),
  count-erase q p.pid (t.procadjslot_list (adj_to_slot p.oomadj)),
)

-- The new score is seen in the record, and nowhere else.
pid_lookup-reslot :
    (p : Proc) (score : ℤ) (t : ProcTable.Table) (q : ℕ)
    → pid_lookup (reslot p score t) q
      ≡ (if q == p.pid then map_option (set_score score) (pid_lookup t q) else pid_lookup t q)
unfolding pid_lookup
pid_lookup-reslot p score t q =
    ap (find_pid q) (reslot-pidhash p score t (pid_hashfn q))
    ∙ pid_lookup-modify p.pid (set_score score) t q (λ x. refl)

reslot-IsTable :
    (p : Proc) (score : ℤ) (t : ProcTable.Table) (r : Proc)
    → pid_lookup t p.pid ≡ some r
    → r.oomadj ≡ p.oomadj
    → IsTable t
    → IsTable (reslot p score t)
reslot-IsTable p score t r found same v = record {
  chained = λ h q. ground (
    arith,
    v.chained h q,
    reslot-pidhash p score t h,
    modify-chains p.pid q (set_score score) t h (λ x. refl),
  );
  slotted = λ s q. ground (
    arith,
    v.slotted s q,
    v.slotted (adj_to_slot p.oomadj) p.pid,
    reslot-slots p score t s q,
    pid_lookup-reslot p score t q,
  );
}

-- What a registration leaves in the table for the pid that it names: a new record where there was
-- none and a pidfd and memory could be had; where the registrant may claim the record, the record
-- with its owner and its score set; else what was there.
unfoldable pub registered : Host → Config → ℕ → LmkProcprio → ℤ → Option Proc → Option Proc
registered host config cred_pid proc score none =
    let pidfd = if config.pidfd_supported then host.pidfd_open proc.pid else negsuc 0 in
    if (not config.pidfd_supported || leb_ℤ (pos 0) pidfd) && host.calloc
    then some (new_record proc pidfd cred_pid score)
    else none
registered host config cred_pid proc score (some p) =
    if claimable p cred_pid then some (record p { reg_pid = cred_pid; oomadj = score }) else some p

register_known_lem :
    (cred_pid : ℕ) (p : Proc) (score : ℤ) (t : ProcTable.Table) (q : ℕ)
    → pid_lookup t p.pid ≡ some p
    → pid_lookup (register_known cred_pid p score t) q ≡ (
        if q == p.pid
        then (if claimable p cred_pid
            then some (record p { reg_pid = cred_pid; oomadj = score })
            else some p)
        else pid_lookup t q)
unfolding register_known
register_known_lem cred_pid p score t q found =
    let t' = (claim_record p cred_pid t).1 in
    ground (arith, claim_record_lem p cred_pid t q found, pid_lookup-reslot p score t' q)

-- A registration acts on the pid that it names as `registered` says, and on no other pid.
pub pid_lookup-register_in :
    (host : Host) (config : Config) (cred_pid : ℕ) (proc : LmkProcprio) (score : ℤ)
    (t : ProcTable.Table) (q : ℕ)
    → pid_lookup (register_in host config cred_pid proc score t) q ≡ (
        if q == proc.pid
        then registered host config cred_pid proc score (pid_lookup t proc.pid)
        else pid_lookup t q)
unfolding register_in registered
pid_lookup-register_in host config cred_pid proc score t q =
    elim (Option-cases (pid_lookup t proc.pid)) [
      | inl e ↦
          rw (e, register_in, registered)
            (unfold register_new new_record in
              ground (
                arith,
                e,
                pid_lookup-insert
                    (new_record proc
                      (if config.pidfd_supported then host.pidfd_open proc.pid else negsuc 0)
                      cred_pid score)
                    t q,
              ))
      | inr (p, e) ↦
          rw (e, register_in, registered)
            (ground
              (arith, e, pid_lookup-pid t proc.pid e, register_known_lem cred_pid p score t q))
    ]

register_known-IsTable :
    (cred_pid : ℕ) (p : Proc) (score : ℤ) (t : ProcTable.Table)
    → pid_lookup t p.pid ≡ some p
    → IsTable t
    → IsTable (register_known cred_pid p score t)
unfolding register_known
register_known-IsTable cred_pid p score t found v =
    let t' = (claim_record p cred_pid t).1 in
    let claim = claim_record_lem p cred_pid t p.pid found in
    elim (Bool-cases (claim_record p cred_pid t).0) [
      | inl e ↦
          rw (e, register_known)
            (reslot-IsTable p score t' (set_owner cred_pid p) (ground (arith, claim.0, claim.1))
              refl (claim_record-IsTable p cred_pid t v))
      | inr e ↦ rw (e, register_known) v
    ]

register_new-IsTable :
    (host : Host) (config : Config) (cred_pid : ℕ) (proc : LmkProcprio) (score : ℤ)
    (t : ProcTable.Table)
    → pid_lookup t proc.pid ≡ none
    → IsTable t
    → IsTable (register_new host config cred_pid proc score t)
unfolding register_new new_record
register_new-IsTable host config cred_pid proc score t fresh v =
    let pidfd = if config.pidfd_supported then host.pidfd_open proc.pid else negsuc 0 in
    let inserted = proc_insert-IsTable (new_record proc pidfd cred_pid score) t fresh v in
    ground (arith, v, inserted)

-- A registration keeps the table well formed, on every branch.
pub register_in-IsTable :
    (host : Host) (config : Config) (cred_pid : ℕ) (proc : LmkProcprio) (score : ℤ)
    (t : ProcTable.Table)
    → IsTable t
    → IsTable (register_in host config cred_pid proc score t)
unfolding register_in
register_in-IsTable host config cred_pid proc score t v =
    elim (Option-cases (pid_lookup t proc.pid)) [
      | inl e ↦ rw (e, register_in) (register_new-IsTable host config cred_pid proc score t e v)
      | inr (p, e) ↦
          rw (e, register_in)
            (register_known-IsTable cred_pid p score t
              (ap (pid_lookup t) (pid_lookup-pid t proc.pid e) ∙ e) v)
    ]

-- What `cmd_procremove` and `cmd_procpurge` leave of one record.
unfoldable pub removed : ℕ → Option Proc → Option Proc
removed cred_pid none = none
removed cred_pid (some p) = if claimable p cred_pid then none else some p

pub pid_lookup-remove_one :
    (last_kill : ℤ) (cred_pid : ℕ) (p : Proc) (t : ProcTable.Table) (q : ℕ)
    → pid_lookup t p.pid ≡ some p
    → IsTable t
    → pid_lookup (remove_one last_kill cred_pid p t) q
      ≡ (if q == p.pid then removed cred_pid (some p) else pid_lookup t q)
unfolding remove_one removed
pid_lookup-remove_one last_kill cred_pid p t q found v =
    let t' = (claim_record p cred_pid t).1 in
    ground (
      arith,
      found,
      claim_record_lem p cred_pid t q found,
      pid_lookup-remove last_kill p.pid t' q (claim_record-IsTable p cred_pid t v),
    )

pub remove_one-IsTable :
    (last_kill : ℤ) (cred_pid : ℕ) (p : Proc) (t : ProcTable.Table)
    → IsTable t
    → IsTable (remove_one last_kill cred_pid p t)
unfolding remove_one
remove_one-IsTable last_kill cred_pid p t v =
    let t' = (claim_record p cred_pid t).1 in
    let after = pid_remove-IsTable last_kill p.pid t' (claim_record-IsTable p cred_pid t v) in
    ground (arith, v, after)

-- Unregistering a pid removes its record if the client may claim it, and changes no other.
pub pid_lookup-remove_pid :
    (last_kill : ℤ) (cred_pid pid : ℕ) (t : ProcTable.Table) (q : ℕ)
    → IsTable t
    → pid_lookup (remove_pid last_kill cred_pid pid t) q
      ≡ (if q == pid then removed cred_pid (pid_lookup t pid) else pid_lookup t q)
unfolding remove_pid removed
pid_lookup-remove_pid last_kill cred_pid pid t q v = elim (Option-cases (pid_lookup t pid)) [
  | inl e ↦ rw (e, remove_pid, removed) (ground arith)
  | inr (p, e) ↦
      rw (e, remove_pid, removed)
        (ground (arith, e, pid_lookup-pid t pid e, pid_lookup-remove_one last_kill cred_pid p t q))
]

pub remove_pid-IsTable :
    (last_kill : ℤ) (cred_pid pid : ℕ) (t : ProcTable.Table)
    → IsTable t
    → IsTable (remove_pid last_kill cred_pid pid t)
unfolding remove_pid
remove_pid-IsTable last_kill cred_pid pid t v = elim (Option-cases (pid_lookup t pid)) [
  | inl e ↦ rw (e, remove_pid) v
  | inr (p, e) ↦ rw (e, remove_pid) (remove_one-IsTable last_kill cred_pid p t v)
]
