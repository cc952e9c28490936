-- ===== src/Kill/Success.antt =====
-- lmkd.cpp: where every registered process can be killed, `find_and_kill_process` kills one.
use android_system_memory_lm.Base.{
  ℕ, zero, suc, ◌+◌, ◌-◌, ◌≤◌, ◌<◌, ◌≡◌, ◌⊎◌, inl, inr, refl, ap, ◌∙◌, arith, List, [], ◌∷◌, none,
  some, Bool, true, false, ◌||◌, leb, ℤ, pos, ◌<ℤ◌, eqb_ℤ, leb_ℤ, quot, count, length,
}
use android_system_memory_lm.Polling.{Timespec}
use android_system_memory_lm.ProcTable
use android_system_memory_lm.ProcTable.{Proc, pid_lookup, proc_adj_tail, adj_to_slot}
use android_system_memory_lm.ProcTable.Invariant.{IsTable}
use android_system_memory_lm.Kill.{
  Host, Config, State, Heaviest, check_target, finish, do_kill, kill_one_process, proc_get_size,
  weigh_all, proc_get_heaviest, choose, kill_at_level, kill_from, find_and_kill_process,
}
use android_system_memory_lm.Kill.Wait.{slot_record}
use android_system_memory_lm.Kill.Selection.{chosen_pid}

-- Every registered process passes the tests of a kill, the hook frees nothing, the kill succeeds, and
-- the process has at least one page.
pub record AllKillable (host : Host) (config : Config) (t : ProcTable.Table) : Type 0 where
  pub target :
      (q : ℕ) (p : Proc)
      → pid_lookup t q ≡ some p
      → (rss_kb : ℤ) × (check_target host p ≡ some rss_kb) × (pos 0 <ℤ quot rss_kb config.page_k)
  pub hook : (q : ℕ) → host.free_memory_before_kill_hook q ≡ pos 0
  pub kill : (p : Proc) → host.reaper_kill p ≡ pos 0
  pub size : (q : ℕ) → pos 0 <ℤ proc_get_size host q

-- A killable process gives a positive number of pages, and is killed.
kill_one_process-kills :
    (host : Host) (config : Config) (tm : Timespec) (q : ℕ) (p : Proc) (s : State)
    → AllKillable host config s.table
    → pid_lookup s.table q ≡ some p
    → pos 0 <ℤ (kill_one_process host config tm p s).0
unfolding kill_one_process do_kill finish
kill_one_process-kills host config tm q p s all found =
    let (rss_kb, passes, page) = all.target q p found in
    rw (kill_one_process, passes, all.hook p.pid, do_kill, all.kill p) page

kill_at_level-kills :
    (host : Host) (config : Config) (tm : Timespec) (heaviest : Bool) (i fuel a : ℕ) (rest : List ℕ)
    (size : ℤ) (s : State)
    → IsTable s.table
    → AllKillable host config s.table
    → s.table.procadjslot_list (adj_to_slot (pos i)) ≡ a ∷ rest
    → pos 0 <ℤ (kill_at_level host config tm heaviest i (suc fuel) size s).0
unfolding kill_at_level
kill_at_level-kills host config tm heaviest i fuel a rest size s v all e =
    let (q, there, chosen) = chosen_pid host config all.size heaviest a rest i s e in
    let (p, found) = slot_record (adj_to_slot (pos i)) q s.table v there in
    let kills = kill_one_process-kills host config tm q p s all found in
    let stops : leb_ℤ (pos 0) (kill_one_process host config tm p s).0 ≡ true =
      ground (arith, kills) in
    let is_found : (choose host config heaviest i s).0 ≡ some p = ap (λ c. c.0) chosen ∙ found in
    let same : (choose host config heaviest i s).1 ≡ s = ap (λ c. c.1) chosen in
    rw (kill_at_level, is_found, same, stops, same) kills

weigh_all-empty :
    (host : Host) (config : Config) (slot : List ℕ) (best : Heaviest) (s : State)
    → slot ≡ []
    → weigh_all host config slot best s ≡ (best, s)
unfolding weigh_all
weigh_all-empty host config slot best s e = rw e refl

choose-empty :
    (host : Host) (config : Config) (heaviest : Bool) (i : ℕ) (s : State)
    → s.table.procadjslot_list (adj_to_slot (pos i)) ≡ []
    → choose host config heaviest i s ≡ (none, s)
unfolding choose proc_get_heaviest proc_adj_tail
choose-empty host config true i s e =
    let slot = s.table.procadjslot_list (adj_to_slot (pos i)) in
    rw
      (
        choose,
        proc_get_heaviest,
        weigh_all-empty host config slot
            (record { maxsize = pos 0; maxprocp = none; maxsize_pa = pos 0; maxprocp_pa = none }) s
            e,
      )
      refl
choose-empty host config false i s e = rw (choose, proc_adj_tail, e) refl

kill_at_level-empty :
    (host : Host) (config : Config) (tm : Timespec) (heaviest : Bool) (i fuel : ℕ) (size : ℤ)
    (s : State)
    → s.table.procadjslot_list (adj_to_slot (pos i)) ≡ []
    → kill_at_level host config tm heaviest i (suc fuel) size s ≡ (size, s)
unfolding kill_at_level
kill_at_level-empty host config tm heaviest i fuel size s e =
    let chosen = choose-empty host config heaviest i s e in
    rw (kill_at_level, ap (λ c. c.0) chosen, ap (λ c. c.1) chosen) refl

slot-cases : (xs : List ℕ) → (xs ≡ []) ⊎ ((a : ℕ) × (rest : List ℕ) × (xs ≡ a ∷ rest))
slot-cases [] = inl refl
slot-cases (a ∷ rest) = inr (a, rest, refl)

-- A score from `min` on, of the next `n`, has a slot that is not empty.
kill_from-kills :
    (host : Host) (config : Config) (tm : Timespec) (min n k q : ℕ) (s : State)
    → IsTable s.table
    → AllKillable host config s.table
    → k < n
    → 0 < count q (s.table.procadjslot_list (adj_to_slot (pos (min + k))))
    → pos 0 <ℤ (kill_from host config tm min n (pos 0) s).0
unfolding kill_from
kill_from-kills host config tm min zero k q s v all h c = absurd (omega arith)
kill_from-kills host config tm min (suc n) k q s v all h c =
    let heaviest = config.kill_heaviest_task || leb (min + n) 200 in
    let slot = s.table.procadjslot_list (adj_to_slot (pos (min + n))) in
    elim (slot-cases slot) [
      | inr (a, rest, e) ↦
          let kills =
            kill_at_level-kills host config tm heaviest (min + n) (length slot) a rest (pos 0) s v
              all e in
          let stops : eqb_ℤ
                (kill_at_level host config tm heaviest (min + n) (suc (length slot)) (pos 0) s).0
                (pos 0)
              ≡ false =
            ground (arith, kills) in
          rw (kill_from, stops) kills
      | inl e ↦
          let lower : k < n = ground (arith, e, c, h) in
          let nothing =
            kill_at_level-empty host config tm heaviest (min + n) (length slot) (pos 0) s e in
          rw (kill_from, ap (λ r. r.0) nothing, ap (λ r. r.0) nothing, ap (λ r. r.1) nothing)
            (kill_from-kills host config tm min n k q s v all lower c)
    ]

-- If the table is well formed, every registered process passes the tests of a kill, can be killed and
-- has at least one page, and some process is registered with a score from `min_score_adj` to 1000,
-- then `find_and_kill_process` frees a positive number of pages.
pub find_and_kill_process-kills :
    (host : Host) (config : Config) (tm : Timespec) (min_score_adj q k : ℕ) (p : Proc) (s : State)
    → IsTable s.table
    → AllKillable host config s.table
    → pid_lookup s.table q ≡ some p
    → p.oomadj ≡ pos k
    → min_score_adj ≤ k
    → k ≤ 1000
    → pos 0 <ℤ (find_and_kill_process host config tm min_score_adj s).0
unfolding find_and_kill_process
find_and_kill_process-kills host config tm min q k p s v all found score low high =
    let at_k : min + (k - min) ≡ k = omega (arith, low) in
    let there : 0 < count q (s.table.procadjslot_list (adj_to_slot (pos k))) =
      ground (arith, v.slotted (adj_to_slot (pos k)) q, found, score) in
    let kills =
      kill_from-kills host config tm min (1001 - min) (k - min) q s v all (omega (arith, low, high))
        (rw at_k there) in
    let stops : eqb_ℤ (kill_from host config tm min (1001 - min) (pos 0) s).0 (pos 0) ≡ false =
      ground (arith, kills) in
    rw (find_and_kill_process, stops) kills
