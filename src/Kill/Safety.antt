-- ===== src/Kill/Safety.antt =====
-- lmkd.cpp: `find_and_kill_process` touches no process below the score that it is given.
use android_system_memory_lm.Base.{
  ℕ, zero, suc, ◌+◌, ◌-◌, ◌≡◌, ◌⊎◌, subst, true, List, inl, inr, arith, Bool, ◌&&◌, ◌||◌, leb, ◌==◌,
  ℤ, pos, eqb_ℤ, leb_ℤ, Option-cases, Bool-cases,
}
use android_system_memory_lm.Polling.{Timespec}
use android_system_memory_lm.ProcTable.Invariant.{IsTable}
use android_system_memory_lm.Kill.{
  Host, Config, State, kill_one_process, choose, kill_at_level, level_fuel, kill_from, run_script,
  find_and_kill_process,
}
use android_system_memory_lm.Kill.Progress.{
  Progress, Progress-refl, Progress-trans, Progress-mono, kill_one_process-Progress,
}
use android_system_memory_lm.Kill.Scripts.{OneScript, run_script-OneScript, kill_from-scripts}
use android_system_memory_lm.Kill.Choice.{choose-Chosen}

-- The inner loop removes and kills nothing but what has its score.
kill_at_level-Progress :
    (host : Host) (config : Config) (tm : Timespec) (heaviest : Bool) (i fuel : ℕ) (size : ℤ)
    (s : State)
    → IsTable s.table
    → Progress i s (kill_at_level host config tm heaviest i fuel size s).1
unfolding kill_at_level
kill_at_level-Progress host config tm heaviest i zero size s v = Progress-refl i s v
kill_at_level-Progress host config tm heaviest i (suc fuel) size s v =
    let (a, c) = choose-Chosen host config i s v heaviest in
    let u = (choose host config heaviest i s).1 in
    elim (Option-cases (choose host config heaviest i s).0) [
      | inl e ↦ rw (e, kill_at_level) a
      | inr (p, e) ↦
          let (found, score) = c p e in
          let w = (kill_one_process host config tm p u).1 in
          let b =
            kill_one_process-Progress i host config tm p u found (ground (arith, score))
              a.shrinks.well in
          let ab = Progress-trans i s u w a b in
          let rest =
            kill_at_level-Progress host config tm heaviest i fuel
              (kill_one_process host config tm p u).0 w b.shrinks.well in
          elim (Bool-cases (leb_ℤ (pos 0) (kill_one_process host config tm p u).0)) [
            | inl stop ↦ rw (e, kill_at_level, stop) ab
            | inr on ↦ rw (e, kill_at_level, on) (Progress-trans i s w _ ab rest)
          ]
    ]

run_script-Progress :
    (m : ℕ) (host : Host) (s u : State) → Progress m s u → Progress m s (run_script host u).1
unfolding run_script
run_script-Progress m host s u a = record { shrinks = a.shrinks; kills = a.kills }

kill_from-Progress :
    (host : Host) (config : Config) (tm : Timespec) (min n : ℕ) (size : ℤ) (s : State)
    → IsTable s.table
    → Progress min s (kill_from host config tm min n size s).1
unfolding kill_from
kill_from-Progress host config tm min zero size s v = Progress-refl min s v
kill_from-Progress host config tm min (suc n) size s v =
    let heaviest = config.kill_heaviest_task || leb (min + n) 200 in
    let round = kill_at_level host config tm heaviest (min + n) (level_fuel (min + n) s) size s in
    let a = Progress-mono min (min + n) s round.1 (omega arith) (
      kill_at_level-Progress host config tm heaviest (min + n) (level_fuel (min + n) s) size s v) in
    elim (Bool-cases (eqb_ℤ round.0 (pos 0))) [
      | inr stop ↦ rw (kill_from, stop) a
      | inl on ↦
          rw (kill_from, on)
            (Progress-trans min s round.1 _ a
              (kill_from-Progress host config tm min n round.0 round.1 a.shrinks.well))
    ]

-- The victims that are not registered: none, but for one that proc_get_script finds, on a build for
-- debugging and where no score is too low.
abbrev pub ScriptsOnly : Host → Config → ℕ → State → State → Type 0
ScriptsOnly host config min_score_adj s u =
    (u.scripts ≡ s.scripts)
    ⊎ ((min_score_adj ≡ 0)
        × (config.is_userdebug_or_eng_build ≡ true)
        × OneScript host s.scripts u.scripts)

-- For every host, setting, and state whose table is well formed, `find_and_kill_process` leaves the
-- table well formed; a record with a score below `min_score_adj` is still there afterwards, unchanged;
-- a record that is there afterwards was there before; and a pid that was killed was registered with
-- a score from `min_score_adj` on, but for one that proc_get_script kills: that happens only where
-- `min_score_adj` is 0 on a build for debugging, to one process at most, which is not init, has
-- memory of its own, and has a score from 0 on.
pub find_and_kill_process-Progress :
    (host : Host) (config : Config) (tm : Timespec) (min_score_adj : ℕ) (s : State)
    → IsTable s.table
    → Progress min_score_adj s (find_and_kill_process host config tm min_score_adj s).1
      × ScriptsOnly host config min_score_adj s
          (find_and_kill_process host config tm min_score_adj s).1
unfolding find_and_kill_process
find_and_kill_process-Progress host config tm min_score_adj s v =
    let a = kill_from-Progress host config tm min_score_adj (1001 - min_score_adj) (pos 0) s v in
    let same = kill_from-scripts host config tm min_score_adj (1001 - min_score_adj) (pos 0) s in
    let s' = (kill_from host config tm min_score_adj (1001 - min_score_adj) (pos 0) s).1 in
    elim (Bool-cases (
      eqb_ℤ (kill_from host config tm min_score_adj (1001 - min_score_adj) (pos 0) s).0 (pos 0)
      && min_score_adj == 0
      && config.is_userdebug_or_eng_build)) [
        | inl e ↦ rw e (
          run_script-Progress min_score_adj host s s' a,
          inr (
            ground (arith, e),
            ground (arith, e),
            subst (λ (l : List ℕ). OneScript host l (run_script host s').1.scripts) same
                (run_script-OneScript host s'),
          ),
        )
        | inr e ↦ rw e (a, inl same)
      ]
