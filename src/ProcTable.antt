-- ===== src/ProcTable.antt =====
-- lmkd.cpp: the table of registered processes, `pidhash` and `procadjslot_list`.
-- A chain is the list of its records in the order of `pidhash_next`. A slot is the list of the pids
-- of its records from `head->next` on, so adjslot_insert puts in front and adjslot_tail is the last
-- one, as AdjSlot shows of the links. One record is in both, so the slots hold pids, which
-- `pid_lookup` takes to the record.
pub mod Lookup
pub mod Invariant
pub mod Claims
pub mod AdjSlot
use android_system_memory_lm.Base.{
  ℕ, zero, suc, ◌+◌, ◌-◌, ◌/◌, ◌%◌, List, [], ◌∷◌, Option, none, some, Bool, true, false, ◌&&◌, not,
  ◌==◌, if◌then◌else◌, ℤ, pos, negsuc, leb_ℤ, eqb_ℤ, update, erase, get_last?,
}
use Prim.Native.Nat.{bit_xor}

-- `pid`, `uid` and `reg_pid` are 32-bit words; `pidfd` is -1 where there is none.
pub record Proc : Type 0 where
  pub pid : ℕ
  pub pidfd : ℤ
  pub uid : ℕ
  pub oomadj : ℤ
  pub reg_pid : ℕ
  pub valid : Bool

pub record Table : Type 0 where
  pub pidhash : ℕ → List Proc
  pub procadjslot_list : ℕ → List ℕ
  -- The pidfds that were closed, the last one first.
  pub closed : List ℤ

abbrev pub pidhash_sz : ℕ
pidhash_sz = 1024

abbrev pub oom_score_adj_min : ℤ
oom_score_adj_min = negsuc 999

abbrev pub oom_score_adj_max : ℤ
oom_score_adj_max = pos 1000

-- The low ten bits of a shifted word do not depend on its sign, so the shift is that of a word.
pub pid_hashfn : ℕ → ℕ
pid_hashfn x = bit_xor (x / 256) x % pidhash_sz

-- ADJTOSLOT, for the scores from -1000 on that `apply_proc_prio` admits.
abbrev pub adj_to_slot : ℤ → ℕ
adj_to_slot (pos n) = n + 1000
adj_to_slot (negsuc n) = 1000 - suc n

-- The search along `pidhash_next`.
unfoldable pub find_pid : ℕ → List Proc → Option Proc
find_pid pid [] = none
find_pid pid (p ∷ ps) = if p.pid == pid then some p else find_pid pid ps

unfoldable pub pid_lookup : Table → ℕ → Option Proc
pid_lookup t pid = find_pid pid (t.pidhash (pid_hashfn pid))

unfoldable pub proc_slot : Proc → Table → Table
proc_slot p t =
    let adjslot = adj_to_slot p.oomadj in
    record t {
      procadjslot_list = update t.procadjslot_list adjslot (p.pid ∷ t.procadjslot_list adjslot);
    }

unfoldable pub proc_unslot : Proc → Table → Table
proc_unslot p t =
    let adjslot = adj_to_slot p.oomadj in
    record t {
      procadjslot_list =
          update t.procadjslot_list adjslot (erase p.pid (t.procadjslot_list adjslot));
    }

unfoldable pub proc_insert : Proc → Table → Table
unfolding proc_slot
proc_insert p t =
    let hval = pid_hashfn p.pid in
    proc_slot p (record t { pidhash = update t.pidhash hval (p ∷ t.pidhash hval) })

-- The chain with the first record of a pid unlinked.
unfoldable pub unlink_pid : ℕ → List Proc → List Proc
unlink_pid pid [] = []
unlink_pid pid (p ∷ ps) = if p.pid == pid then ps else p ∷ unlink_pid pid ps

-- `close` of the pidfd, unless the daemon waits for that process to die.
unfoldable pub close_pidfd : ℤ → Proc → Table → Table
close_pidfd last_kill_pid_or_fd p t =
    if leb_ℤ (pos 0) p.pidfd && not (eqb_ℤ p.pidfd last_kill_pid_or_fd)
    then record t { closed = p.pidfd ∷ t.closed }
    else t

-- What `pid_remove` does with the record that it found. The freed record is unreachable, so `free`
-- and `memset` have no counterpart.
unfoldable pub detach : ℤ → ℕ → Proc → Table → Table
unfolding proc_unslot close_pidfd
detach last_kill_pid_or_fd pid p t =
    let hval = pid_hashfn pid in
    let unlinked = record t { pidhash = update t.pidhash hval (unlink_pid pid (t.pidhash hval)) } in
    close_pidfd last_kill_pid_or_fd p (proc_unslot p unlinked)

unfoldable pub pid_remove : ℤ → ℕ → Table → ℤ × Table
pid_remove last_kill_pid_or_fd pid t = elim (pid_lookup t pid) [
  | none ↦ (negsuc 0, t)
  | some p ↦ (pos 0, detach last_kill_pid_or_fd pid p t)
]

-- A write through a pointer to the record of a pid.
unfoldable pub write_proc : ℕ → (Proc → Proc) → List Proc → List Proc
write_proc pid f [] = []
write_proc pid f (p ∷ ps) = if p.pid == pid then f p ∷ ps else p ∷ write_proc pid f ps

unfoldable pub modify : ℕ → (Proc → Proc) → Table → Table
unfolding write_proc
modify pid f t =
    let hval = pid_hashfn pid in
    record t { pidhash = update t.pidhash hval (write_proc pid f (t.pidhash hval)) }

unfoldable pub pid_invalidate : ℕ → Table → Table
unfolding modify
pid_invalidate pid t = modify pid (λ p. record p { valid = false }) t

-- Does the record belong to the registrant, or may the registrant take it over?
unfoldable pub claimable : Proc → ℕ → Bool
claimable p pid = if p.reg_pid == pid then true else p.reg_pid == 0

unfoldable pub claim_record : Proc → ℕ → Table → Bool × Table
unfolding modify
claim_record p pid t =
    if p.reg_pid == pid
    then (true, t)
    else if p.reg_pid == 0
    then (true, modify p.pid (λ q. record q { reg_pid = pid }) t)
    else (false, t)

unfoldable pub drop_claims : ℕ → List Proc → List Proc
drop_claims pid [] = []
drop_claims pid (p ∷ ps) =
    (if p.reg_pid == pid then record p { reg_pid = 0 } else p) ∷ drop_claims pid ps

-- The loop over the chains below a number, in their order.
unfoldable pub drop_claims_below : ℕ → ℕ → Table → Table
unfolding drop_claims
drop_claims_below zero pid t = t
drop_claims_below (suc i) pid t =
    let before = drop_claims_below i pid t in
    record before { pidhash = update before.pidhash i (drop_claims pid (before.pidhash i)) }

unfoldable pub remove_claims : ℕ → Table → Table
remove_claims pid t = drop_claims_below pidhash_sz pid t

-- adjslot_tail and its two callers `proc_adj_lru` and `proc_adj_tail`.
unfoldable pub proc_adj_tail : ℤ → Table → Option ℕ
proc_adj_tail oomadj t = get_last? (t.procadjslot_list (adj_to_slot oomadj))

unfoldable pub empty : Table
empty = record { pidhash = λ h. []; procadjslot_list = λ s. []; closed = [] }
