-- ===== src/Connections/Keeps.antt =====
-- lmkd.cpp: the commands that change the process table keep it well formed.
use android_system_memory_lm.Base.{
  zero, suc, false, ◌+◌, ◌/◌, length, ltb, ◌≤◌, ℕ, ◌≡◌, inl, inr, refl, sym, ◌∙◌, arith, List, [],
  ◌∷◌, Option, none, some, Bool-cases, Option-cases,
}
use android_system_memory_lm.Packet.{
  LmkdCtrlPacket, LmkProcprio, lmkd_pack_get_procs_prio, get_procs, lmkd_pack_get_procremove,
}
use android_system_memory_lm.ProcTable
use android_system_memory_lm.ProcTable.{Proc, oom_score_adj_min, pid_lookup, remove_claims}
use android_system_memory_lm.ProcTable.Claims.{pid_lookup-remove_claims, remove_claims-IsTable}
use android_system_memory_lm.ProcTable.Invariant.{IsTable}
use android_system_memory_lm.Register
use android_system_memory_lm.Register.{
  Host, Daemon, apply_proc_prio, cmd_procprio, cmd_procremove, cmd_procpurge, remove_pid,
}
use android_system_memory_lm.Register.Table.{removed, pid_lookup-remove_pid, remove_pid-IsTable}
use android_system_memory_lm.Register.Batch.{Ring}
use android_system_memory_lm.Register.InOrder.{SameEffect, handle_io_uring_procs_prio_in_order}
use android_system_memory_lm.Register.Reads.{IsServed, records}
use android_system_memory_lm.Register.Purge.{cmd_procpurge_lem}
use android_system_memory_lm.Register.Apply.{InRange, IsGood, apply_proc_prio-IsGood}
use android_system_memory_lm.Connections.Commands.{Answers, apply_procs, cmd_procs_prio}

-- Every record keeps its score or goes.
InRange-same :
    (t u : ProcTable.Table)
    → ((q : ℕ) (p : Proc)
        → pid_lookup u q ≡ some p
        → (r : Proc) × (pid_lookup t q ≡ some r) × (r.oomadj ≡ p.oomadj))
    → InRange t
    → InRange u
InRange-same t u h v = record {
  score = λ q p e. let (r, found, same) = h q p e in rw (← same) (v.score q r found);
}

removed-some :
    (cred_pid : ℕ) (o : Option Proc) (p : Proc) → removed cred_pid o ≡ some p → o ≡ some p
unfolding removed
removed-some cred_pid none p h = cc
removed-some cred_pid (some r) p h = ground (arith, h)

pub remove_claims-IsGood :
    (pid : ℕ) (t : ProcTable.Table)
    → IsTable t × InRange t
    → IsTable (remove_claims pid t) × InRange (remove_claims pid t)
remove_claims-IsGood pid t (v, w) = (
  remove_claims-IsTable pid t v,
  InRange-same t (remove_claims pid t)
      (λ q p h. elim (Option-cases (pid_lookup t q)) [
        | inl e ↦ absurd (ground (arith, h, e, pid_lookup-remove_claims pid t q))
        | inr (r, e) ↦ (r, e, ground (arith, h, e, pid_lookup-remove_claims pid t q))
      ])
      w,
)

pub cmd_procremove-IsGood :
    (config : Register.Config) (packet : LmkdCtrlPacket) (cred_pid : ℕ) (d : Daemon)
    → IsGood d
    → IsGood (cmd_procremove config packet cred_pid d)
unfolding cmd_procremove
cmd_procremove-IsGood config packet cred_pid d (v, w) =
    elim (Bool-cases config.use_inkernel_interface) [
      | inl kernel ↦ rw kernel (v, w)
      | inr user ↦
          let pid = lmkd_pack_get_procremove packet in
          rw user (
            remove_pid-IsTable d.last_kill_pid_or_fd cred_pid pid d.table v,
            record {
              score = λ q p h.
                  let e = pid_lookup-remove_pid d.last_kill_pid_or_fd cred_pid pid d.table q v in
                  w.score q p
                    (ground (arith, h, e, removed-some cred_pid (pid_lookup d.table pid) p));
            },
          )
    ]

pub cmd_procpurge-IsGood :
    (config : Register.Config) (cred_pid : ℕ) (d : Daemon)
    → IsGood d
    → IsGood (cmd_procpurge config cred_pid d)
cmd_procpurge-IsGood config cred_pid d (v, w) = elim (Bool-cases config.use_inkernel_interface) [
  | inl kernel ↦ unfold cmd_procpurge in rw kernel (v, w)
  | inr user ↦ (
    (cmd_procpurge_lem config cred_pid d 0 user v).1,
    record {
      score = λ q p h. w.score q p (
          removed-some cred_pid (pid_lookup d.table q) p
            (sym (cmd_procpurge_lem config cred_pid d q user v).0 ∙ h));
    },
  )
]

apply_procs-IsGood :
    (host : Host) (config : Register.Config) (cred_pid : ℕ) (ps : List LmkProcprio) (d : Daemon)
    → IsGood d
    → IsGood (apply_procs host config cred_pid ps d)
unfolding apply_procs
apply_procs-IsGood host config cred_pid [] d g = g
apply_procs-IsGood host config cred_pid (p ∷ ps) d g =
    apply_procs-IsGood host config cred_pid ps (apply_proc_prio host config cred_pid p d)
      (apply_proc_prio-IsGood host config cred_pid p d g)

-- The io_uring, where there is one, serves the requests, where the packet has them.
abbrev pub ServesBatch : Host → Option Ring → Option (List LmkProcprio) → Type 0
ServesBatch host none procs = Unit {0}
ServesBatch host (some ring) none = Unit {0}
ServesBatch host (some ring) (some procs) = IsServed host ring procs

length-get_procs : (packet : LmkdCtrlPacket) (n idx : ℕ) → length (get_procs packet n idx) ≡ n
unfolding get_procs
length-get_procs packet zero idx = refl
length-get_procs packet (suc n) idx = ground (arith, length-get_procs packet n (idx + 4))

-- A packet that fits the buffer has no more records than `params` has room for.
procs_fit :
    (packet : LmkdCtrlPacket) (field_count : ℕ) (ps : List LmkProcprio)
    → field_count ≤ 12
    → lmkd_pack_get_procs_prio packet field_count ≡ some ps
    → ltb 3 (length ps) ≡ false
unfolding lmkd_pack_get_procs_prio
procs_fit packet field_count ps h e =
    ground (arith, h, e, length-get_procs packet (field_count / 4) 1)

SameEffect-IsGood :
    (o : Option Daemon) (e : Daemon)
    → SameEffect o e
    → IsGood e
    → (d : Daemon) × (o ≡ some d) × IsGood d
SameEffect-IsGood none e h g = elim h [ ]
SameEffect-IsGood (some r) e (a, scores) g = (r, refl, rw a.table g)

pub cmd_procs_prio-IsGood :
    (a : Answers) (config : Register.Config) (packet : LmkdCtrlPacket) (field_count cred_pid : ℕ)
    (d : Daemon)
    → field_count ≤ 12
    → ServesBatch a.host a.ring (lmkd_pack_get_procs_prio packet field_count)
    → IsGood d
    → (d' : Daemon) × (cmd_procs_prio a config packet field_count cred_pid d ≡ some d') × IsGood d'
unfolding cmd_procs_prio
cmd_procs_prio-IsGood a config packet field_count cred_pid d few served g =
    elim (Option-cases (lmkd_pack_get_procs_prio packet field_count)) [
      | inl e ↦ (d, rw (e, cmd_procs_prio) refl, g)
      | inr (ps, e) ↦
          let fit = procs_fit packet field_count ps few e in
          elim (Option-cases a.ring) [
            | inl r ↦ (
              apply_procs a.host config cred_pid ps d,
              rw (e, cmd_procs_prio, fit, r) refl,
              apply_procs-IsGood a.host config cred_pid ps d g,
            )
            | inr (ring, r) ↦
                let done = records ps ring.writes in
                let (d', run, good) =
                  SameEffect-IsGood _ (apply_procs a.host config cred_pid done d)
                    ((handle_io_uring_procs_prio_in_order a.host config ring cred_pid ps d
                      (rw (r, e) at served)).0)
                    (apply_procs-IsGood a.host config cred_pid done d g) in
                (d', rw (e, cmd_procs_prio, fit, r) run, good)
          ]
    ]
