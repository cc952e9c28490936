-- ===== src/Register/Apply.antt =====
-- lmkd.cpp: `apply_proc_prio` from the request to the table, and the scores that reach the slots.
use android_system_memory_lm.Base.{
  ℕ, ◌^◌, ◌≤◌, ◌<◌, ◌≡◌, refl, arith, List, ◌∷◌, ◌++◌, Option, none, some, true, false, ◌&&◌, ◌==◌,
  ltb_ℤ, leb_ℤ, if◌then◌else◌, ◌⊎◌, ℤ, pos, negsuc, ◌≤ℤ◌, inl, inr, Bool-cases, Option-cases,
}
use android_system_memory_lm.ProcTable.Invariant.{IsTable}
use android_system_memory_lm.ProcTable
use android_system_memory_lm.ProcTable.{
  Proc, oom_score_adj_min, oom_score_adj_max, pid_lookup, adj_to_slot, claimable,
}
use android_system_memory_lm.Packet.{
  LmkProcprio, LmkdCtrlPacket, proc_type_count, lmkd_pack_get_procremove, lmkd_pack_set_procremove,
  ntohl-htonl,
}
use android_system_memory_lm.Register.{
  Host, Config, Daemon, Effect, write_oom_score_adj, soft_limit, limit_memory, new_record,
  register_oom_adj_proc, is_other_tgid, apply_proc_prio, cmd_procremove,
}
use android_system_memory_lm.Register.Table.{
  registered, removed, pid_lookup-register_in, register_in-IsTable, pid_lookup-remove_pid,
  remove_pid-IsTable,
}

abbrev pub IsScore : ℤ → Type 0
IsScore a = (oom_score_adj_min ≤ℤ a) × (a ≤ℤ oom_score_adj_max)

-- Every record has a score for which there is a slot.
pub record InRange (t : ProcTable.Table) : Type 0 where
  pub score : (q : ℕ) (p : Proc) → pid_lookup t q ≡ some p → IsScore p.oomadj

-- A score in range has one of the 2001 slots.
adj_to_slot_bound : (a : ℤ) → IsScore a → adj_to_slot a < 2001
adj_to_slot_bound (pos n) h = omega arith
adj_to_slot_bound (negsuc n) h = omega arith

-- In range, two scores share a slot only if they are the same.
adj_to_slot_injective : (a b : ℤ) → IsScore a → IsScore b → adj_to_slot a ≡ adj_to_slot b → a ≡ b
adj_to_slot_injective a b h k e = ground arith

soft_limit-IsScore : (a : ℤ) → IsScore a → IsScore (soft_limit a).0
unfolding soft_limit
soft_limit-IsScore a h = ground arith

-- The score that a request records is in range where the request's is.
limit_memory-IsScore :
    (host : Host) (config : Config) (proc : LmkProcprio) (score : ℤ) (writes : List Effect)
    → IsScore proc.oomadj
    → limit_memory host config proc ≡ some (score, writes)
    → IsScore score
unfolding limit_memory
limit_memory-IsScore host config proc score writes h e =
    ground (arith, soft_limit-IsScore proc.oomadj h)

registered-IsScore :
    (host : Host) (config : Config) (cred_pid : ℕ) (proc : LmkProcprio) (score : ℤ)
    (old : Option Proc) (p : Proc)
    → IsScore score
    → ((r : Proc) → old ≡ some r → IsScore r.oomadj)
    → registered host config cred_pid proc score old ≡ some p
    → IsScore p.oomadj
unfolding registered new_record
registered-IsScore host config cred_pid proc score none p h k e = ground arith
registered-IsScore host config cred_pid proc score (some r) p h k e = ground (arith, k r refl)

abbrev pub IsGood : Daemon → Type 0
IsGood d = IsTable d.table × InRange d.table

register_oom_adj_proc-IsGood :
    (host : Host) (config : Config) (cred_pid : ℕ) (proc : LmkProcprio) (d : Daemon)
    → IsScore proc.oomadj
    → IsGood d
    → IsGood (register_oom_adj_proc host config cred_pid proc d)
unfolding register_oom_adj_proc
register_oom_adj_proc-IsGood host config cred_pid proc d h g =
    elim (Option-cases (limit_memory host config proc)) [
      | inl e ↦ rw (e, register_oom_adj_proc) g
      | inr ((score, writes), e) ↦
          rw (e, register_oom_adj_proc)
            (
              register_in-IsTable host config cred_pid proc score d.table g.0,
              record {
                score = λ q p found. elim (Bool-cases (q == proc.pid)) [
                  | inl same ↦
                      registered-IsScore host config cred_pid proc score
                        (pid_lookup d.table proc.pid) p
                        (limit_memory-IsScore host config proc score writes h e)
                        (g.1.score proc.pid)
                        (ground
                          (arith, pid_lookup-register_in host config cred_pid proc score d.table q))
                  | inr other ↦ g.1.score q p (
                      ground
                        (arith, pid_lookup-register_in host config cred_pid proc score d.table q))
                ];
              },
            )
    ]

-- A request to set a priority, whatever its fields, keeps the table well formed, and every score in
-- it between -1000 and 1000, so that each record has a slot.
pub apply_proc_prio-IsGood :
    (host : Host) (config : Config) (cred_pid : ℕ) (params : LmkProcprio) (d : Daemon)
    → IsGood d
    → IsGood (apply_proc_prio host config cred_pid params d)
unfolding apply_proc_prio
apply_proc_prio-IsGood host config cred_pid params d g =
    let written = record d { effects = write_oom_score_adj params.pid params.oomadj ∷ d.effects } in
    ground (arith, g, register_oom_adj_proc-IsGood host config cred_pid params written)

-- A request is refused, and changes nothing, where its score is out of range, its type unknown, its
-- pid a thread that leads no group, or the score file of its process missing.
apply_proc_prio_rejects :
    (host : Host) (config : Config) (cred_pid : ℕ) (params : LmkProcprio) (d : Daemon)
    → (¬ IsScore params.oomadj)
      ⊎ (proc_type_count ≤ params.ptype)
      ⊎ (is_other_tgid host params.pid ≡ true)
      ⊎ (host.oom_score_adj_file params.pid ≡ false)
    → apply_proc_prio host config cred_pid params d ≡ d
unfolding apply_proc_prio
apply_proc_prio_rejects host config cred_pid params d why = ground arith

-- The score that the daemon records: that of the request, but 200 for an application between 600
-- and 699 where memory is limited per application.
unfoldable pub recorded_score : Config → LmkProcprio → ℤ
recorded_score config params =
    if config.per_app_memcg
      && params.ptype == 0
      && leb_ℤ (pos 600) params.oomadj
      && ltb_ℤ params.oomadj (pos 700)
    then pos 200
    else params.oomadj

limit_memory_lem :
    (host : Host) (config : Config) (params : LmkProcprio)
    → (config.per_app_memcg ≡ false) ⊎ (host.soft_limit_path params.pid ≡ true)
    → (writes : List Effect) × (limit_memory host config params
        ≡ some (recorded_score config params, writes))
unfolding limit_memory soft_limit recorded_score
limit_memory_lem host config params h = elim (Option-cases (limit_memory host config params)) [
  | inl e ↦ absurd (ground (arith, e))
  | inr ((score, writes), e) ↦ (writes, ground (arith, e))
]

-- A request passes the tests of `apply_proc_prio`.
pub record IsAccepted (host : Host) (params : LmkProcprio) : Type 0 where
  pub score : IsScore params.oomadj
  pub ptype : params.ptype < proc_type_count
  pub leader : is_other_tgid host params.pid ≡ false
  pub alive : host.oom_score_adj_file params.pid ≡ true

accepted :
    (host : Host) (config : Config) (cred_pid : ℕ) (params : LmkProcprio) (d : Daemon)
    → IsAccepted host params
    → config.use_inkernel_interface ≡ false
    → apply_proc_prio host config cred_pid params d
      ≡ register_oom_adj_proc host config cred_pid params
          (record d { effects = write_oom_score_adj params.pid params.oomadj ∷ d.effects })
unfolding apply_proc_prio
accepted host config cred_pid params d ok user = ground arith

-- A request that passes the tests, outside the in-kernel mode and where the memory limit of its
-- process can be set if it has one, writes the requested score to the process, and acts on the table
-- for its own pid as `registered` says, with the recorded score, and for no other pid.
pub apply_proc_prio_registers :
    (host : Host) (config : Config) (cred_pid : ℕ) (params : LmkProcprio) (d : Daemon) (q : ℕ)
    → IsAccepted host params
    → config.use_inkernel_interface ≡ false
    → (config.per_app_memcg ≡ false) ⊎ (host.soft_limit_path params.pid ≡ true)
    → let after = apply_proc_prio host config cred_pid params d in
      (pid_lookup after.table q ≡ (
        if q == params.pid
        then registered host config cred_pid params
            (recorded_score config params)
            (pid_lookup d.table params.pid)
        else pid_lookup d.table q))
      × ((written : List Effect) × (after.effects
            ≡ written ++ write_oom_score_adj params.pid params.oomadj ∷ d.effects))
apply_proc_prio_registers host config cred_pid params d q ok user path =
    let (writes, limit) = limit_memory_lem host config params path in
    let score = recorded_score config params in
    rw (accepted host config cred_pid params d ok user) (
      unfold register_oom_adj_proc in
      rw (limit, register_oom_adj_proc)
        (pid_lookup-register_in host config cred_pid params score d.table q, (writes, refl)))

-- Outside the in-kernel mode, an LMK_PROCREMOVE request packed for a pid removes its record if the
-- client may claim it, leaves all other records, and keeps the table well formed.
pub cmd_procremove_lem :
    (config : Config) (packet : LmkdCtrlPacket) (pid cred_pid : ℕ) (d : Daemon) (q : ℕ)
    → pid < 2 ^ 32
    → config.use_inkernel_interface ≡ false
    → IsTable d.table
    → let after = cmd_procremove config (lmkd_pack_set_procremove packet pid).0 cred_pid d in
      (pid_lookup after.table q
        ≡ (if q == pid then removed cred_pid (pid_lookup d.table pid) else pid_lookup d.table q))
      × IsTable after.table
unfolding cmd_procremove lmkd_pack_set_procremove lmkd_pack_get_procremove
cmd_procremove_lem config packet pid cred_pid d q word user v =
    rw (user, ntohl-htonl pid word)
      (
        pid_lookup-remove_pid d.last_kill_pid_or_fd cred_pid pid d.table q v,
        remove_pid-IsTable d.last_kill_pid_or_fd cred_pid pid d.table v,
      )
