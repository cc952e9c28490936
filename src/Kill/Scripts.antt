-- ===== src/Kill/Scripts.antt =====
-- lmkd.cpp: whom `proc_get_script` kills, and that nothing else adds to its victims.
use android_system_memory_lm.Base.{
  sym, ap, ◌&&◌, ℕ, zero, suc, ◌+◌, ◌≡◌, ◌⊎◌, inl, inr, refl, ◌∙◌, arith, List, [], ◌∷◌, Option,
  none, some, Bool, true, false, ◌||◌, not, leb, if◌then◌else◌, ℤ, pos, eqb_ℤ, ltb_ℤ, leb_ℤ,
  Option-cases, Bool-cases,
}
use android_system_memory_lm.Packet.{to_int}
use android_system_memory_lm.Polling.{Timespec, get_time_diff_ms}
use android_system_memory_lm.ProcTable.{Proc}
use android_system_memory_lm.Kill.Script.{
  Procfs, Names, Traversal, is_script, find_script, kill_script, end_traverse, stream,
  traverse_again, traverse, proc_get_script,
}
use android_system_memory_lm.Kill.{
  Host, Config, State, Heaviest, stop_wait_for_proc_kill, start_wait_for_proc_kill, check_target,
  finish, do_kill, kill_one_process, weigh, drop_gone, weigh_all, proc_get_heaviest, choose,
  kill_at_level, level_fuel, kill_from, run_script, add_victim, proc_get_size,
}

-- A victim passes the tests.
abbrev IsFound : Procfs → (ℕ → ℤ) → Option ℕ → Type 0
IsFound procfs size none = Unit {0}
IsFound procfs size (some pid) = is_script procfs size pid ≡ true

find_script-is_script :
    (procfs : Procfs) (size : ℕ → ℤ) (names : Names) (found : ℕ × Names)
    → find_script procfs size names ≡ some found
    → is_script procfs size found.0 ≡ true
unfolding find_script
find_script-is_script procfs size [] found h = absurd (ground (arith, h))
find_script-is_script procfs size (none ∷ names) found h =
    find_script-is_script procfs size names found h
find_script-is_script procfs size (some pid ∷ names) found h =
    elim (Bool-cases (is_script procfs size pid)) [
      | inl good ↦
          let it : some (pid, names) ≡ some found = sym (rw good refl) ∙ h in
          let same : (pid, names) ≡ found = cc in
          sym (ap (λ (f : ℕ × Names). is_script procfs size f.0) same) ∙ good
      | inr bad ↦ find_script-is_script procfs size names found (rw bad at h)
    ]

module _ (procfs : Procfs) (size : ℕ → ℤ) where
  kill_script-IsFound :
      (pid : ℕ) (names : Names) (t : Traversal)
      → is_script procfs size pid ≡ true
      → IsFound procfs size (kill_script procfs size pid names t).0.victim
  unfolding kill_script
  kill_script-IsFound pid names t h = elim (Bool-cases (eqb_ℤ (procfs.kill pid) (pos 0))) [
    | inl e ↦ rw e h
    | inr e ↦ rw e tt
  ]

  again-IsFound : (t : Traversal) → IsFound procfs size (traverse_again procfs size t).0.victim
  unfolding traverse_again end_traverse
  again-IsFound t = elim (Option-cases procfs.reopendir) [
    | inl e ↦ rw (e, traverse_again) tt
    | inr (names, e) ↦ elim (Option-cases (find_script procfs size names)) [
      | inl f ↦ rw (e, traverse_again, f) tt
      | inr (found, f) ↦
          rw (e, traverse_again, f)
            (kill_script-IsFound found.0 found.1 t
              (find_script-is_script procfs size names found f))
    ]
  ]

  traverse-IsFound : (t : Traversal) → IsFound procfs size (traverse procfs size t).0.victim
  unfolding traverse end_traverse
  traverse-IsFound t = elim (Option-cases (stream procfs t.d)) [
    | inl e ↦ rw (traverse, e) tt
    | inr (names, e) ↦ elim (Option-cases (find_script procfs size names)) [
      | inr (found, f) ↦
          rw (traverse, e, f)
            (kill_script-IsFound found.0 found.1 t
              (find_script-is_script procfs size names found f))
      | inl f ↦ elim (Bool-cases t.retry_eligible) [
        | inl r ↦
            rw (traverse, e, f, r) (again-IsFound (record t { d = none; retry_eligible = false }))
        | inr r ↦ rw (traverse, e, f, r) tt
      ]
    ]
  ]

  proc_get_script-IsFound :
      (t : Traversal) → IsFound procfs size (proc_get_script procfs size t).0.victim
  unfolding proc_get_script
  proc_get_script-IsFound t =
      elim (Bool-cases
        (t.check_time && ltb_ℤ (get_time_diff_ms t.last_traverse_time procfs.curr_tm) (pos 200))) [
          | inl e ↦ rw e tt
          | inr e ↦ rw e (traverse-IsFound t)
        ]

-- The victims after a call: as before, or with one more, which passed the tests of the source: it is
-- not init, has memory of its own, and its score is not negative.
abbrev pub OneScript : Host → List ℕ → List ℕ → Type 0
OneScript host before after =
    (after ≡ before)
    ⊎ ((pid : ℕ) × (after ≡ pid ∷ before) × (is_script host.procfs (proc_get_size host) pid ≡ true))

add_victim-OneScript :
    (host : Host) (o : Option ℕ) (pids : List ℕ)
    → IsFound host.procfs (proc_get_size host) o
    → OneScript host pids (add_victim o pids)
add_victim-OneScript host none pids h = inl refl
add_victim-OneScript host (some pid) pids h = inr (pid, refl, h)

pub run_script-OneScript :
    (host : Host) (s : State) → OneScript host s.scripts (run_script host s).1.scripts
unfolding run_script
run_script-OneScript host s =
    add_victim-OneScript host _ s.scripts
      (proc_get_script-IsFound host.procfs (proc_get_size host) s.traversal)

-- Nothing else changes the victims of proc_get_script.
module _ (host : Host) (config : Config) (tm : Timespec) where
  stop_wait-scripts : (s : State) → (stop_wait_for_proc_kill config s).scripts ≡ s.scripts
  unfolding stop_wait_for_proc_kill
  stop_wait-scripts s = ground arith

  start_wait-scripts :
      (fd : ℤ) (s : State) → (start_wait_for_proc_kill host config fd s).scripts ≡ s.scripts
  unfolding start_wait_for_proc_kill
  start_wait-scripts fd s = ground (arith, stop_wait-scripts s)

  do_kill-scripts :
      (p : Proc) (rss_kb r : ℤ) (s : State)
      → (do_kill host config tm p rss_kb r s).1.scripts ≡ s.scripts
  unfolding do_kill finish
  do_kill-scripts p rss_kb r s =
      let target = if ltb_ℤ p.pidfd (pos 0) then to_int p.pid else p.pidfd in
      let waiting = start_wait_for_proc_kill host config target s in
      elim (Bool-cases (not (eqb_ℤ (host.reaper_kill p) (pos 0)))) [
        | inl e ↦ rw e (stop_wait-scripts waiting ∙ start_wait-scripts target s)
        | inr e ↦ rw e (start_wait-scripts target s)
      ]

  kill_one-scripts :
      (p : Proc) (s : State) → (kill_one_process host config tm p s).1.scripts ≡ s.scripts
  unfolding kill_one_process finish
  kill_one-scripts p s = elim (Option-cases (check_target host p)) [
    | inl e ↦ rw (e, kill_one_process) refl
    | inr (rss_kb, e) ↦
        elim (Bool-cases (ltb_ℤ (pos 0) (host.free_memory_before_kill_hook p.pid))) [
          | inl f ↦ rw (e, kill_one_process, f) refl
          | inr f ↦ rw (e, kill_one_process, f) (do_kill-scripts p rss_kb _ s)
        ]
  ]

  weigh_all-scripts :
      (pids : List ℕ) (best : Heaviest) (s : State)
      → (weigh_all host config pids best s).1.scripts ≡ s.scripts
  unfolding weigh_all drop_gone
  weigh_all-scripts [] best s = refl
  weigh_all-scripts (pid ∷ pids) best s =
      ground (arith, weigh_all-scripts pids (weigh host config pid best) (drop_gone host pid s))

  choose-scripts :
      (heaviest : Bool) (i : ℕ) (s : State)
      → (choose host config heaviest i s).1.scripts ≡ s.scripts
  unfolding choose proc_get_heaviest
  choose-scripts true i s = weigh_all-scripts _ _ s
  choose-scripts false i s = refl

  level-scripts :
      (heaviest : Bool) (i fuel : ℕ) (size : ℤ) (s : State)
      → (kill_at_level host config tm heaviest i fuel size s).1.scripts ≡ s.scripts
  unfolding kill_at_level
  level-scripts heaviest i zero size s = refl
  level-scripts heaviest i (suc fuel) size s =
      let u = (choose host config heaviest i s).1 in
      elim (Option-cases (choose host config heaviest i s).0) [
        | inl e ↦ rw (e, kill_at_level) (choose-scripts heaviest i s)
        | inr (p, e) ↦
            let round = kill_one_process host config tm p u in
            let same = kill_one-scripts p u ∙ choose-scripts heaviest i s in
            elim (Bool-cases (leb_ℤ (pos 0) round.0)) [
              | inl f ↦ rw (e, kill_at_level, f) same
              | inr f ↦
                  rw (e, kill_at_level, f) (level-scripts heaviest i fuel round.0 round.1 ∙ same)
            ]
      ]

  pub kill_from-scripts :
      (min n : ℕ) (size : ℤ) (s : State)
      → (kill_from host config tm min n size s).1.scripts ≡ s.scripts
  unfolding kill_from
  kill_from-scripts min zero size s = refl
  kill_from-scripts min (suc n) size s =
      let heaviest = config.kill_heaviest_task || leb (min + n) 200 in
      let round = kill_at_level host config tm heaviest (min + n) (level_fuel (min + n) s) size s in
      let same = level-scripts heaviest (min + n) (level_fuel (min + n) s) size s in
      elim (Bool-cases (eqb_ℤ round.0 (pos 0))) [
        | inr f ↦ rw (kill_from, f) same
        | inl f ↦ rw (kill_from, f) (kill_from-scripts min n round.0 round.1 ∙ same)
      ]
