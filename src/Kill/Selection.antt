-- ===== src/Kill/Selection.antt =====
-- lmkd.cpp: in a slot that is not empty, `proc_get_heaviest` and `proc_adj_tail` find a process, where
-- every process has a size.
use android_system_memory_lm.Base.{
  ℕ, ◌<◌, ◌≡◌, ◌⊎◌, inl, inr, refl, ap, ◌∙◌, arith, List, [], ◌∷◌, Option, none, some, Bool, true,
  false, if◌then◌else◌, pos, ◌≤ℤ◌, ◌<ℤ◌, ltb_ℤ, count, get_last?, get_last?-count_pos, Bool-cases,
}
use android_system_memory_lm.ProcTable.{pid_lookup, proc_adj_tail, adj_to_slot}
use android_system_memory_lm.Kill.{
  Host, Config, State, Heaviest, proc_get_size, weigh, drop_gone, weigh_all, proc_get_heaviest,
  choose,
}
use android_system_memory_lm.Kill.Choice.{weigh_all-From}

abbrev has : Option ℕ → Bool
has none = false
has (some q) = true

-- The heaviest process so far is there for each size that is not 0.
pub record IsHeaviest (best : Heaviest) : Type 0 where
  pub app : (best.maxsize ≤ℤ pos 0) ⊎ (has best.maxprocp ≡ true)
  pub preferred : (best.maxsize_pa ≤ℤ pos 0) ⊎ (has best.maxprocp_pa ≡ true)

-- One of the two is there.
abbrev IsFound : Heaviest → Type 0
IsFound best = (pos 0 <ℤ best.maxsize) ⊎ (pos 0 <ℤ best.maxsize_pa)

module _ (host : Host) (config : Config) (sizes : (q : ℕ) → pos 0 <ℤ proc_get_size host q) where
  weigh-IsHeaviest :
      (pid : ℕ) (best : Heaviest) → IsHeaviest best → IsHeaviest (weigh host config pid best)
  unfolding weigh
  weigh-IsHeaviest pid best h = record {
    app = ground (arith, h.app);
    preferred = ground (arith, h.preferred);
  }

  weigh-IsFound : (pid : ℕ) (best : Heaviest) → IsFound (weigh host config pid best)
  unfolding weigh
  weigh-IsFound pid best = ground (arith, sizes pid)

  drop_gone-same : (pid : ℕ) (s : State) → drop_gone host pid s ≡ s
  unfolding drop_gone
  drop_gone-same pid s = ground (arith, sizes pid)

  weigh_all-same :
      (pids : List ℕ) (best : Heaviest) (s : State) → (weigh_all host config pids best s).1 ≡ s
  unfolding weigh_all
  weigh_all-same [] best s = refl
  weigh_all-same (pid ∷ pids) best s =
      rw (weigh_all, drop_gone-same pid s) (weigh_all-same pids (weigh host config pid best) s)

  weigh_all-IsHeaviest :
      (pids : List ℕ) (best : Heaviest) (s : State)
      → IsHeaviest best
      → IsFound best
      → IsHeaviest (weigh_all host config pids best s).0
        × IsFound (weigh_all host config pids best s).0
  unfolding weigh_all
  weigh_all-IsHeaviest [] best s h f = (h, f)
  weigh_all-IsHeaviest (pid ∷ pids) best s h f =
      weigh_all-IsHeaviest pids (weigh host config pid best) (drop_gone host pid s)
        (weigh-IsHeaviest pid best h) (weigh-IsFound pid best)

  abbrev none_yet : Heaviest
  none_yet = record { maxsize = pos 0; maxprocp = none; maxsize_pa = pos 0; maxprocp_pa = none }

  has-some : (o : Option ℕ) → has o ≡ true → (q : ℕ) × (o ≡ some q)
  has-some none h = absurd (ground (arith, h))
  has-some (some q) h = (q, refl)

  -- A slot that is not empty has a heaviest process.
  heaviest_of_best :
      (best : Heaviest)
      → IsHeaviest best
      → IsFound best
      → (q : ℕ) × ((if ltb_ℤ (pos 0) best.maxsize then best.maxprocp else best.maxprocp_pa)
          ≡ some q)
  heaviest_of_best best h f = has-some _ (ground (arith, h.app, h.preferred, f))

  weighed_slot :
      (a : ℕ) (rest slot : List ℕ) (s : State)
      → slot ≡ a ∷ rest
      → IsHeaviest (weigh_all host config slot none_yet s).0
        × IsFound (weigh_all host config slot none_yet s).0
  unfolding weigh_all
  weighed_slot a rest slot s e = rw e (
      weigh_all-IsHeaviest rest (weigh host config a none_yet) (drop_gone host a s)
        (weigh-IsHeaviest a none_yet
          (record { app = inl (omega arith); preferred = inl (omega arith) }))
        (weigh-IsFound a none_yet))

  get_last?-some : (a : ℕ) (rest : List ℕ) → (q : ℕ) × (get_last? (a ∷ rest) ≡ some q)
  get_last?-some a [] = (a, refl)
  get_last?-some a (b ∷ rest) = get_last?-some b rest

  -- In a slot that is not empty, a choice finds a pid of the slot and changes nothing.
  pub chosen_pid :
      (heaviest : Bool) (a : ℕ) (rest : List ℕ) (i : ℕ) (s : State)
      → s.table.procadjslot_list (adj_to_slot (pos i)) ≡ a ∷ rest
      → (q : ℕ) × (0 < count q (s.table.procadjslot_list (adj_to_slot (pos i))))
        × (choose host config heaviest i s ≡ (pid_lookup s.table q, s))
  unfolding choose proc_get_heaviest proc_adj_tail
  chosen_pid true a rest i s e =
      let slot = s.table.procadjslot_list (adj_to_slot (pos i)) in
      let weighed = weigh_all host config slot none_yet s in
      let (h, f) = weighed_slot a rest slot s e in
      let from = weigh_all-From host config slot slot none_yet s (λ q c. c) (λ q e. ground arith) in
      let (q, picked) = heaviest_of_best weighed.0 h f in
      (
        q,
        elim (Bool-cases (ltb_ℤ (pos 0) weighed.0.maxsize)) [
          | inl b ↦ from q (inl (ground (arith, b, picked)))
          | inr b ↦ from q (inr (ground (arith, b, picked)))
        ],
        rw (choose, proc_get_heaviest, picked, weigh_all-same slot none_yet s) refl,
      )
  chosen_pid false a rest i s e =
      let slot = s.table.procadjslot_list (adj_to_slot (pos i)) in
      let (q, last) = get_last?-some a rest in
      let at_tail : get_last? slot ≡ some q = ap get_last? e ∙ last in
      (q, get_last?-count_pos q slot at_tail, rw (choose, proc_adj_tail, at_tail) refl)
