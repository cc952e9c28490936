-- ===== src/Kill/Progress.antt =====
-- lmkd.cpp: what one kill does to the table and to the processes.
use android_system_memory_lm.Base.{
  ℕ, ◌≤◌, ◌≡◌, ◌⊎◌, inl, inr, refl, ap, ◌∙◌, arith, List, ◌∷◌, some, not, if◌then◌else◌, ℤ, pos,
  negsuc, ◌≤ℤ◌, eqb_ℤ, ltb_ℤ, count, Option-cases, Bool-cases,
}
use android_system_memory_lm.Packet.{to_int}
use android_system_memory_lm.Polling.{Timespec}
use android_system_memory_lm.ProcTable
use android_system_memory_lm.ProcTable.{Proc, pid_lookup, pid_remove, proc_adj_tail, adj_to_slot}
use android_system_memory_lm.ProcTable.Invariant.{IsTable}
use android_system_memory_lm.Kill.{
  Host, Config, State, stop_wait_for_proc_kill, start_wait_for_proc_kill, check_target, finish,
  do_kill, kill_one_process,
}
use android_system_memory_lm.Kill.Wait.{
  SameRecords, SameRecords-Shrinks, SameRecords-trans, stop_wait-killed, start_wait-killed,
  stop_wait-SameRecords, start_wait-SameRecords, Shrinks, Shrinks-refl, Shrinks-trans, Shrinks-mono,
  pid_remove-Shrinks,
}

-- A pid was registered with a score from `m` on.
abbrev pub HasScore : ℕ → ProcTable.Table → ℕ → Type 0
HasScore m t q = (p : Proc) × (pid_lookup t q ≡ some p) × (pos m ≤ℤ p.oomadj)

-- A step that removed and killed nothing below the score `m`.
pub record Progress (m : ℕ) (s u : State) : Type 0 where
  pub shrinks : Shrinks m s.table u.table
  pub kills : (q : ℕ) → (count q u.killed ≡ count q s.killed) ⊎ HasScore m s.table q

pub Progress-refl : (m : ℕ) (s : State) → IsTable s.table → Progress m s s
Progress-refl m s v = record { shrinks = Shrinks-refl m s.table v; kills = λ q. inl refl }

HasScore-old : (m q : ℕ) (t u : ProcTable.Table) → Shrinks m t u → HasScore m u q → HasScore m t q
HasScore-old m q t u a (p, found, high) = (p, a.old q p found, high)

pub Progress-trans : (m : ℕ) (s u w : State) → Progress m s u → Progress m u w → Progress m s w
Progress-trans m s u w a b = record {
  shrinks = Shrinks-trans m s.table u.table w.table a.shrinks b.shrinks;
  kills = λ q. elim (b.kills q) [
    | inr h ↦ inr (HasScore-old m q s.table u.table a.shrinks h)
    | inl e ↦ elim (a.kills q) [ inr h ↦ inr h | inl f ↦ inl (e ∙ f) ]
  ];
}

pub Progress-mono : (m n : ℕ) (s u : State) → m ≤ n → Progress n s u → Progress m s u
Progress-mono m n s u h a = record {
  shrinks = Shrinks-mono m n s.table u.table h a.shrinks;
  kills =
      λ q. elim (a.kills q) [ inl e ↦ inl e | inr (p, found, high) ↦ inr (p, found, omega arith) ];
}

-- One process, of a score from `m` on.
module _ (m : ℕ) (host : Host) (config : Config) (tm : Timespec) (p : Proc) (s : State)
    (found : pid_lookup s.table p.pid ≡ some p) (high : pos m ≤ℤ p.oomadj) where
  -- The end of a kill, from a state with the records of `s` that has killed `p` or nothing.
  finish-Progress :
      (result : ℤ) (u : State)
      → SameRecords s.table u.table
      → ((q : ℕ) → (count q u.killed ≡ count q s.killed) ⊎ (q ≡ p.pid))
      → IsTable s.table
      → Progress m s (finish p result u).1
  unfolding finish
  finish-Progress result u same kills v =
      let a = SameRecords-Shrinks m s.table u.table same v in
      record {
        shrinks = Shrinks-trans m s.table u.table _ a (
            pid_remove-Shrinks m u.last_kill_pid_or_fd p.pid u.table a.well
              (λ r h. ground (arith, a.old p.pid r h, found, high)));
        kills = λ q. elim (kills q) [
          | inl e ↦ inl e
          | inr e ↦ inr (p, ap (pid_lookup s.table) e ∙ found, high)
        ];
      }

  one_more :
      (q : ℕ) (ks : List ℕ)
      → ks ≡ s.killed
      → (count q (p.pid ∷ ks) ≡ count q s.killed) ⊎ (q ≡ p.pid)
  one_more q ks e = ground arith

  do_kill-Progress :
      (rss_kb hook_result : ℤ)
      → IsTable s.table
      → Progress m s (do_kill host config tm p rss_kb hook_result s).1
  unfolding do_kill
  do_kill-Progress rss_kb hook_result v =
      let target = if ltb_ℤ p.pidfd (pos 0) then to_int p.pid else p.pidfd in
      let waiting = start_wait_for_proc_kill host config target s in
      let same = start_wait-SameRecords host config target s in
      elim (Bool-cases (not (eqb_ℤ (host.reaper_kill p) (pos 0)))) [
        | inl e ↦ rw e (
            finish-Progress hook_result (stop_wait_for_proc_kill config waiting)
              (SameRecords-trans s.table waiting.table _ same
                (stop_wait-SameRecords config waiting))
              (λ q. inl (
                ap (count q)
                  (stop_wait-killed config waiting ∙ start_wait-killed host config target s)))
              v)
        | inr e ↦ rw e (
            finish-Progress _ _ same
              (λ q. one_more q waiting.killed (start_wait-killed host config target s)) v)
      ]

  pub kill_one_process-Progress :
      IsTable s.table → Progress m s (kill_one_process host config tm p s).1
  unfolding kill_one_process
  kill_one_process-Progress v = elim (Option-cases (check_target host p)) [
    | inl e ↦
        rw (e, kill_one_process)
          (finish-Progress (negsuc 0) s (record { chains = λ h. refl; slots = λ k. refl })
            (λ q. inl refl) v)
    | inr (rss_kb, e) ↦
        rw (e, kill_one_process)
          (elim (Bool-cases (ltb_ℤ (pos 0) (host.free_memory_before_kill_hook p.pid))) [
            | inl freed ↦ rw freed (Progress-refl m s v)
            | inr none_freed ↦
                rw none_freed (do_kill-Progress rss_kb (host.free_memory_before_kill_hook p.pid) v)
          ])
  ]
