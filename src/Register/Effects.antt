-- ===== src/Register/Effects.antt =====
-- lmkd.cpp: the effects of a registration, for a batch that writes all scores first.
use android_system_memory_lm.Base.{
  ℕ, ◌≡◌, refl, ap, sym, ◌∙◌, arith, List, [], ◌∷◌, ◌++◌, some, true, Option-cases, Bool-cases, inl,
  inr, ℤ,
}
use android_system_memory_lm.Packet.{LmkProcprio}
use android_system_memory_lm.Register.{
  Host, Config, Daemon, Effect, write_soft_limit, write_oom_score_adj, store_taskname, poll_kernel,
  remove_taskname, purge_tasknames, limit_memory, register_oom_adj_proc, apply_proc_prio,
}
use android_system_memory_lm.Register.Batch.{complete_write}
use android_system_memory_lm.Register.Reads.{accepts_proc}

-- The writes of scores among the effects, and all others.
abbrev pub scores_of : List Effect → List Effect
scores_of [] = []
scores_of (write_oom_score_adj pid adj ∷ es) = write_oom_score_adj pid adj ∷ scores_of es
scores_of (write_soft_limit pid limit err ∷ es) = scores_of es
scores_of (store_taskname pid ∷ es) = scores_of es
scores_of (poll_kernel ∷ es) = scores_of es
scores_of (remove_taskname pid ∷ es) = scores_of es
scores_of (purge_tasknames ∷ es) = scores_of es

abbrev pub others_of : List Effect → List Effect
others_of [] = []
others_of (write_oom_score_adj pid adj ∷ es) = others_of es
others_of (write_soft_limit pid limit err ∷ es) = write_soft_limit pid limit err ∷ others_of es
others_of (store_taskname pid ∷ es) = store_taskname pid ∷ others_of es
others_of (poll_kernel ∷ es) = poll_kernel ∷ others_of es
others_of (remove_taskname pid ∷ es) = remove_taskname pid ∷ others_of es
others_of (purge_tasknames ∷ es) = purge_tasknames ∷ others_of es

-- The same state but for the writes of scores.
pub record Agrees (d e : Daemon) : Type 0 where
  pub table : d.table ≡ e.table
  pub last_kill : d.last_kill_pid_or_fd ≡ e.last_kill_pid_or_fd
  pub others : others_of d.effects ≡ others_of e.effects

pub Agrees-refl : (d : Daemon) → Agrees d d
Agrees-refl d = record { table = refl; last_kill = refl; others = refl }

-- limit_memory writes no score: it writes nothing or one limit.
limit_memory-scores :
    (host : Host) (config : Config) (p : LmkProcprio) (score : ℤ) (writes es : List Effect)
    → limit_memory host config p ≡ some (score, writes)
    → scores_of (writes ++ es) ≡ scores_of es
unfolding limit_memory
limit_memory-scores host config p score writes es h = ground (arith, h)

limit_memory-others :
    (host : Host) (config : Config) (p : LmkProcprio) (score : ℤ) (writes es : List Effect)
    → limit_memory host config p ≡ some (score, writes)
    → others_of (writes ++ es) ≡ writes ++ others_of es
unfolding limit_memory
limit_memory-others host config p score writes es h = ground (arith, h)

module _ (host : Host) (config : Config) (cred_pid : ℕ) (p : LmkProcprio) where
  register-scores :
      (d : Daemon)
      → scores_of (register_oom_adj_proc host config cred_pid p d).effects ≡ scores_of d.effects
  unfolding register_oom_adj_proc
  register-scores d = elim (Option-cases (limit_memory host config p)) [
    | inl e ↦ rw (e, register_oom_adj_proc) refl
    | inr ((score, writes), e) ↦
        rw (e, register_oom_adj_proc) (limit_memory-scores host config p score writes d.effects e)
  ]

  register-Agrees :
      (d e : Daemon)
      → Agrees d e
      → Agrees
          (register_oom_adj_proc host config cred_pid p d)
          (register_oom_adj_proc host config cred_pid p e)
  unfolding register_oom_adj_proc
  register-Agrees d e a = elim (Option-cases (limit_memory host config p)) [
    | inl f ↦ rw (f, register_oom_adj_proc) a
    | inr ((score, writes), f) ↦
        rw (f, register_oom_adj_proc)
          (record {
            table = rw a.table refl;
            last_kill = a.last_kill;
            others =
                limit_memory-others host config p score writes d.effects f
                ∙ ap (λ (es : List Effect). writes ++ es) a.others
                ∙ sym (limit_memory-others host config p score writes e.effects f);
          })
  ]

  pub complete_write-scores :
      (d : Daemon)
      → scores_of (complete_write host config cred_pid p d).effects ≡ scores_of d.effects
  unfolding complete_write
  complete_write-scores d = elim (Bool-cases config.use_inkernel_interface) [
    | inl e ↦ simp e
    | inr e ↦ simp e (register-scores d)
  ]

  -- The state after the write of an accepted record, as apply_proc_prio does it.
  abbrev pub written : Daemon → Daemon
  written d = record d { effects = write_oom_score_adj p.pid p.oomadj ∷ d.effects }

  apply_proc_prio-write :
      (d : Daemon)
      → accepts_proc host p ≡ true
      → apply_proc_prio host config cred_pid p d ≡ complete_write host config cred_pid p (written d)
  unfolding apply_proc_prio complete_write
  apply_proc_prio-write d h = ground (arith, h)

  complete_write-Agrees :
      (d e : Daemon)
      → Agrees d e
      → Agrees (complete_write host config cred_pid p d) (complete_write host config cred_pid p e)
  unfolding complete_write
  complete_write-Agrees d e a = elim (Bool-cases config.use_inkernel_interface) [
    | inl f ↦ simp f (record {
      table = a.table;
      last_kill = a.last_kill;
      others = ap (◌∷◌ (store_taskname p.pid)) a.others;
    })
    | inr f ↦ simp f (register-Agrees d e a)
  ]

  pub apply_proc_prio-Agrees :
      (d e : Daemon)
      → accepts_proc host p ≡ true
      → Agrees d e
      → Agrees (complete_write host config cred_pid p d) (apply_proc_prio host config cred_pid p e)
  apply_proc_prio-Agrees d e h a = rw (apply_proc_prio-write e h) (
      complete_write-Agrees d (written e)
        (record { table = a.table; last_kill = a.last_kill; others = a.others }))

  pub apply_proc_prio-scores :
      (d : Daemon)
      → accepts_proc host p ≡ true
      → scores_of (apply_proc_prio host config cred_pid p d).effects
        ≡ write_oom_score_adj p.pid p.oomadj ∷ scores_of d.effects
  apply_proc_prio-scores d h = rw (apply_proc_prio-write d h) (complete_write-scores (written d))
