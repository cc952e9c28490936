-- ===== src/Register/Writes.antt =====
-- lmkd.cpp: the writes of a batch and their completions, against apply_proc_prio.
use android_system_memory_lm.Base.{
  Option, Option-cases, ℕ, ◌≡◌, refl, ap, sym, ◌∙◌, arith, List, [], ◌∷◌, some, false, ltb, length,
  get_elem?, inl, inr,
}
use android_system_memory_lm.Packet.{LmkProcprio}
use android_system_memory_lm.Register.{Host, Config, Daemon, apply_proc_prio, write_oom_score_adj}
use android_system_memory_lm.Register.Batch.{
  write_score, write_scores, Completion, Fd, writing, complete_write, finish_writes,
}
use android_system_memory_lm.Connections.Commands.{apply_procs}
use android_system_memory_lm.Register.Effects.{
  scores_of, Agrees, complete_write-scores, written, apply_proc_prio-Agrees, apply_proc_prio-scores,
}
use android_system_memory_lm.Register.Reads.{records, AllOf, indices, IsSound, get_elem?-inside}

pub records-cons :
    (procs : List LmkProcprio) (c : Completion) (queue : List Completion) (p : LmkProcprio)
    → get_elem? procs c.user_data ≡ some p
    → records procs (c ∷ queue) ≡ p ∷ records procs queue
records-cons procs c queue p e = rw (records, e) refl

-- The completions of the writes register what apply_proc_prio registers, and write no score.
pub finish_writes-Agrees :
    (host : Host) (config : Config) (cred_pid : ℕ) (procs : List LmkProcprio) (fds : ℕ → Fd)
    (queue : List Completion) (d e : Daemon)
    → IsSound host procs fds
    → AllOf fds writing queue
    → Agrees d e
    → (r : Daemon) × (finish_writes host config cred_pid procs (length queue) queue d ≡ some r)
      × Agrees r (apply_procs host config cred_pid (records procs queue) e)
      × (scores_of r.effects ≡ scores_of d.effects)
unfolding finish_writes apply_procs
finish_writes-Agrees host config cred_pid procs fds [] d e s h a = (d, refl, a, refl)
finish_writes-Agrees host config cred_pid procs fds (c ∷ queue) d e s (ok, w, h) a =
    let i = c.user_data in
    let (p, f) = get_elem?-inside i procs (s.inside i w) in
    let in_range : ltb (length procs) i ≡ false = ground (arith, s.inside i w) in
    let accepted = s.accepted i p f w in
    let d' = complete_write host config cred_pid p d in
    let e' = apply_proc_prio host config cred_pid p e in
    let (r, run, agrees, scores) =
      finish_writes-Agrees host config cred_pid procs fds queue d' e' s h
        (apply_proc_prio-Agrees host config cred_pid p d e accepted a) in
    (
      r,
      simp (ok, in_range, f) run,
      rw (records-cons procs c queue p f) agrees,
      scores ∙ complete_write-scores host config cred_pid p d,
    )

-- The writes that were submitted are those of apply_proc_prio.
pub write_scores-scores :
    (host : Host) (config : Config) (cred_pid : ℕ) (procs : List LmkProcprio) (fds : ℕ → Fd)
    (queue : List Completion) (d e : Daemon)
    → IsSound host procs fds
    → AllOf fds writing queue
    → scores_of d.effects ≡ scores_of e.effects
    → scores_of (write_scores procs (indices queue) d).effects
      ≡ scores_of (apply_procs host config cred_pid (records procs queue) e).effects
unfolding write_scores apply_procs
write_scores-scores host config cred_pid procs fds [] d e s h same = same
write_scores-scores host config cred_pid procs fds (c ∷ queue) d e s (ok, w, h) same =
    let i = c.user_data in
    let (p, f) = get_elem?-inside i procs (s.inside i w) in
    let e' = apply_proc_prio host config cred_pid p e in
    let d' = written host config cred_pid p d in
    let step : scores_of d'.effects ≡ scores_of e'.effects =
      ap (◌∷◌ (write_oom_score_adj p.pid p.oomadj)) same
      ∙ sym (apply_proc_prio-scores host config cred_pid p e (s.accepted i p f w)) in
    let rest = write_scores-scores host config cred_pid procs fds queue d' e' s h step in
    rw (records-cons procs c queue p f) (
      ap
        (λ (o : Option LmkProcprio).
          scores_of (write_scores procs (indices queue) (write_score o d)).effects)
        f
      ∙ rest)

pub write_scores-Agrees :
    (procs : List LmkProcprio) (is : List ℕ) (d e : Daemon)
    → Agrees d e
    → Agrees (write_scores procs is d) e
unfolding write_scores
write_scores-Agrees procs [] d e a = a
write_scores-Agrees procs (i ∷ is) d e a = elim (Option-cases (get_elem? procs i)) [
  | inl f ↦ rw f (write_scores-Agrees procs is d e a)
  | inr (p, f) ↦ rw f (
      write_scores-Agrees procs is (write_score (some p) d) e
        (record { table = a.table; last_kill = a.last_kill; others = a.others }))
]
