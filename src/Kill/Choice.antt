-- ===== src/Kill/Choice.antt =====
-- lmkd.cpp: what the choice of a process does to the table, and which process it finds.
use android_system_memory_lm.Base.{
  ℕ, ◌<◌, ◌≡◌, ◌⊎◌, inl, inr, refl, ap, ◌∙◌, arith, List, [], ◌∷◌, Option, none, some, Bool, true,
  false, if◌then◌else◌, pos, ◌≤ℤ◌, ltb_ℤ, count, get_last?-count_pos, Bool-cases,
}
use android_system_memory_lm.ProcTable
use android_system_memory_lm.ProcTable.{Proc, pid_lookup, pid_remove, proc_adj_tail, adj_to_slot}
use android_system_memory_lm.ProcTable.Lookup.{pid_lookup-pid}
use android_system_memory_lm.ProcTable.Invariant.{IsTable}
use android_system_memory_lm.Kill.{
  Host, Config, State, Heaviest, proc_get_size, weigh, drop_gone, weigh_all, proc_get_heaviest,
  choose,
}
use android_system_memory_lm.Kill.Wait.{Shrinks, slot_score, pid_remove-Shrinks}
use android_system_memory_lm.Kill.Progress.{Progress, Progress-refl, Progress-trans}

-- The pids of some list that are registered have scores from `m` on.
abbrev AllScored : ℕ → List ℕ → ProcTable.Table → Type 0
AllScored m pids t =
    (q : ℕ) (p : Proc) → 0 < count q pids → pid_lookup t q ≡ some p → pos m ≤ℤ p.oomadj

AllScored-tail :
    (m pid : ℕ) (pids : List ℕ) (t u : ProcTable.Table)
    → Shrinks m t u
    → AllScored m (pid ∷ pids) t
    → AllScored m pids u
AllScored-tail m pid pids t u a h q p c found = h q p (omega arith) (a.old q p found)

drop_gone-Progress :
    (m : ℕ) (host : Host) (pid : ℕ) (s : State)
    → IsTable s.table
    → ((p : Proc) → pid_lookup s.table pid ≡ some p → pos m ≤ℤ p.oomadj)
    → Progress m s (drop_gone host pid s)
unfolding drop_gone
drop_gone-Progress m host pid s v h =
    let dropped = pid_remove-Shrinks m s.last_kill_pid_or_fd pid s.table v h in
    elim (Bool-cases (ltb_ℤ (proc_get_size host pid) (pos 0))) [
      | inl gone ↦ rw gone (record { shrinks = dropped; kills = λ q. inl refl })
      | inr here ↦ rw here (Progress-refl m s v)
    ]

weigh_all-Progress :
    (m : ℕ) (host : Host) (config : Config) (pids : List ℕ) (best : Heaviest) (s : State)
    → IsTable s.table
    → AllScored m pids s.table
    → Progress m s (weigh_all host config pids best s).1
unfolding weigh_all
weigh_all-Progress m host config [] best s v h = Progress-refl m s v
weigh_all-Progress m host config (pid ∷ pids) best s v h =
    let a = drop_gone-Progress m host pid s v (λ p found. h pid p (ground arith) found) in
    Progress-trans m s (drop_gone host pid s) _ a (
      weigh_all-Progress m host config pids (weigh host config pid best) (drop_gone host pid s)
        a.shrinks.well (AllScored-tail m pid pids s.table (drop_gone host pid s).table a.shrinks h))

-- Whatever the walk chooses stood in the list.
abbrev pub From : List ℕ → Heaviest → Type 0
From pids best = (q : ℕ) → (best.maxprocp ≡ some q) ⊎ (best.maxprocp_pa ≡ some q) → 0 < count q pids

weigh-From :
    (host : Host) (config : Config) (all : List ℕ) (pid : ℕ) (best : Heaviest)
    → 0 < count pid all
    → From all best
    → From all (weigh host config pid best)
unfolding weigh
weigh-From host config all pid best h f q = ground (arith, f q)

pub weigh_all-From :
    (host : Host) (config : Config) (all pids : List ℕ) (best : Heaviest) (s : State)
    → ((q : ℕ) → 0 < count q pids → 0 < count q all)
    → From all best
    → From all (weigh_all host config pids best s).0
unfolding weigh_all
weigh_all-From host config all [] best s sub f = f
weigh_all-From host config all (pid ∷ pids) best s sub f =
    weigh_all-From host config all pids (weigh host config pid best) (drop_gone host pid s)
      (λ q c. sub q (omega arith)) (weigh-From host config all pid best (sub pid (ground arith)) f)

-- The result of a choice at a score: only records of that score were removed, and the process
-- chosen, if any, is registered with that score.
abbrev pub Chosen : ℕ → State → Option Proc → State → Type 0
Chosen i s o u =
    Progress i s u
    × ((p : Proc) → o ≡ some p → (pid_lookup u.table p.pid ≡ some p) × (p.oomadj ≡ pos i))

module _ (host : Host) (config : Config) (i : ℕ) (s : State) (v : IsTable s.table) where
  slot_scored : AllScored i (s.table.procadjslot_list (adj_to_slot (pos i))) s.table
  slot_scored q p c found = ground (arith, slot_score i q s.table p v c found)

  -- A pid of the slot that is looked up after some steps.
  slot-Chosen :
      (q : ℕ) (u : State)
      → Progress i s u
      → 0 < count q (s.table.procadjslot_list (adj_to_slot (pos i)))
      → Chosen i s (pid_lookup u.table q) u
  slot-Chosen q u a c = (
    a,
    λ p e. (
      ap (pid_lookup u.table) (pid_lookup-pid u.table q e) ∙ e,
      slot_score i q s.table p v c (a.shrinks.old q p e),
    ),
  )

  looked_up-Chosen :
      (o : Option ℕ) (u : State)
      → Progress i s u
      → ((q : ℕ) → o ≡ some q → 0 < count q (s.table.procadjslot_list (adj_to_slot (pos i))))
      → Chosen i s (elim o [ none ↦ none | some q ↦ pid_lookup u.table q ]) u
  looked_up-Chosen none u a c = (a, λ p f. ground arith)
  looked_up-Chosen (some q) u a c = slot-Chosen q u a (c q refl)

  weighed : Heaviest × State
  weighed =
      weigh_all host config (s.table.procadjslot_list (adj_to_slot (pos i)))
        (record { maxsize = pos 0; maxprocp = none; maxsize_pa = pos 0; maxprocp_pa = none }) s

  pub choose-Chosen :
      (heaviest : Bool)
      → Chosen i s (choose host config heaviest i s).0 (choose host config heaviest i s).1
  unfolding choose proc_get_heaviest weighed proc_adj_tail
  choose-Chosen true =
      let from =
        weigh_all-From host config (s.table.procadjslot_list (adj_to_slot (pos i)))
          (s.table.procadjslot_list (adj_to_slot (pos i)))
          (record { maxsize = pos 0; maxprocp = none; maxsize_pa = pos 0; maxprocp_pa = none }) s
          (λ q c. c) (λ q e. ground arith) in
      looked_up-Chosen
        (if ltb_ℤ (pos 0) weighed.0.maxsize then weighed.0.maxprocp else weighed.0.maxprocp_pa)
        weighed.1
        (weigh_all-Progress i host config (s.table.procadjslot_list (adj_to_slot (pos i))) _ s v
          slot_scored)
        (λ q e. elim (Bool-cases (ltb_ℤ (pos 0) weighed.0.maxsize)) [
          | inl b ↦ from q (inl (ground (arith, b, e)))
          | inr b ↦ from q (inr (ground (arith, b, e)))
        ])
  choose-Chosen false =
      looked_up-Chosen (proc_adj_tail (pos i) s.table) s (Progress-refl i s v)
        (λ q e. get_last?-count_pos q (s.table.procadjslot_list (adj_to_slot (pos i))) e)
