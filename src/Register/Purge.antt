-- ===== src/Register/Purge.antt =====
-- lmkd.cpp: `cmd_procpurge` walks every chain and removes what the client may claim.
use android_system_memory_lm.Base.{
  ℕ, zero, suc, ◌≤◌, ◌≡◌, refl, arith, List, [], ◌∷◌, Option, none, some, false, ◌==◌, ltb,
  if◌then◌else◌, ℤ,
}
use android_system_memory_lm.ProcTable.Lookup.{count_pid, find_pid-none}
use android_system_memory_lm.ProcTable.Invariant.{IsTable, chained_le}
use android_system_memory_lm.ProcTable.Claims.{pid_hashfn-lt}
use android_system_memory_lm.ProcTable
use android_system_memory_lm.ProcTable.{Proc, find_pid, pid_hashfn, pidhash_sz, pid_lookup}
use android_system_memory_lm.Register.{
  Config, Daemon, remove_one, purge_chain, purge_below, cmd_procpurge,
}
use android_system_memory_lm.Register.Table.{removed, pid_lookup-remove_one, remove_one-IsTable}

-- The records still to be visited are in the table, as they were when the walk began.
record IsPending (ps : List Proc) (t : ProcTable.Table) : Type 0 where
  present : (q : ℕ) (p : Proc) → find_pid q ps ≡ some p → pid_lookup t q ≡ some p
  once : (q : ℕ) → count_pid q ps ≤ 1

-- What a walk over some records leaves of a pid.
abbrev visited : ℕ → Option Proc → Option Proc → Option Proc
visited cred_pid none old = old
visited cred_pid (some p) old = removed cred_pid (some p)

module _ (last_kill : ℤ) (cred_pid : ℕ) where
  head-present :
      (p : Proc) (ps : List Proc) (t : ProcTable.Table)
      → IsPending (p ∷ ps) t
      → pid_lookup t p.pid ≡ some p
  unfolding find_pid
  head-present p ps t w = w.present p.pid p (ground arith)

  IsPending-tail :
      (p : Proc) (ps : List Proc) (t : ProcTable.Table)
      → IsPending (p ∷ ps) t
      → IsTable t
      → IsPending ps (remove_one last_kill cred_pid p t)
  unfolding find_pid count_pid
  IsPending-tail p ps t w v = record {
    present = λ q r h. ground (
      arith,
      w.present q r,
      w.once q,
      find_pid-none q ps,
      pid_lookup-remove_one last_kill cred_pid p t q (head-present p ps t w) v,
    );
    once = λ q. omega (arith, w.once q);
  }

  pid_lookup-purge_chain :
      (ps : List Proc) (t : ProcTable.Table) (q : ℕ)
      → IsPending ps t
      → IsTable t
      → pid_lookup (purge_chain last_kill cred_pid ps t) q
        ≡ visited cred_pid (find_pid q ps) (pid_lookup t q)
  unfolding purge_chain find_pid count_pid
  pid_lookup-purge_chain [] t q w v = refl
  pid_lookup-purge_chain (p ∷ ps) t q w v =
      let t' = remove_one last_kill cred_pid p t in
      ground (
        arith,
        pid_lookup-purge_chain ps t' q (IsPending-tail p ps t w v)
            (remove_one-IsTable last_kill cred_pid p t v),
        pid_lookup-remove_one last_kill cred_pid p t q (head-present p ps t w) v,
        w.once q,
        find_pid-none q ps,
      )

  purge_chain-IsTable :
      (ps : List Proc) (t : ProcTable.Table)
      → IsTable t
      → IsTable (purge_chain last_kill cred_pid ps t)
  unfolding purge_chain
  purge_chain-IsTable [] t v = v
  purge_chain-IsTable (p ∷ ps) t v =
      purge_chain-IsTable ps (remove_one last_kill cred_pid p t)
        (remove_one-IsTable last_kill cred_pid p t v)

  purge_below-IsTable :
      (n : ℕ) (t : ProcTable.Table) → IsTable t → IsTable (purge_below n last_kill cred_pid t)
  unfolding purge_below
  purge_below-IsTable zero t v = v
  purge_below-IsTable (suc n) t v =
      let before = purge_below n last_kill cred_pid t in
      purge_chain-IsTable (before.pidhash n) before (purge_below-IsTable n t v)

  -- A whole chain of a well-formed table is pending.
  chain-IsPending : (n : ℕ) (t : ProcTable.Table) → IsTable t → IsPending (t.pidhash n) t
  unfolding pid_lookup
  chain-IsPending n t v = record {
    present = λ q p h. ground (arith, v.chained n q, find_pid-none q (t.pidhash n));
    once = λ q. chained_le v n q;
  }

  -- A pid is found in the chain of its hash and in no other.
  find_pid-chain :
      (n : ℕ) (t : ProcTable.Table) (q : ℕ)
      → IsTable t
      → find_pid q (t.pidhash n) ≡ (if pid_hashfn q == n then pid_lookup t q else none)
  unfolding pid_lookup
  find_pid-chain n t q v = ground (arith, v.chained n q, find_pid-none q (t.pidhash n))

  pid_lookup-purge_below :
      (n : ℕ) (t : ProcTable.Table) (q : ℕ)
      → IsTable t
      → pid_lookup (purge_below n last_kill cred_pid t) q
        ≡ (if ltb (pid_hashfn q) n then removed cred_pid (pid_lookup t q) else pid_lookup t q)
  unfolding purge_below removed
  pid_lookup-purge_below zero t q v = ground arith
  pid_lookup-purge_below (suc n) t q v =
      let before = purge_below n last_kill cred_pid t in
      let well = purge_below-IsTable n t v in
      ground (
        arith,
        pid_lookup-purge_below n t q v,
        find_pid-chain n before q well,
        pid_lookup-purge_chain (before.pidhash n) before q (chain-IsPending n before well) well,
      )

-- Outside the in-kernel mode, a purge removes exactly the records that the client may claim, its
-- own and those that nobody owns: every other record is found as before, and the table stays well
-- formed.
pub cmd_procpurge_lem :
    (config : Config) (cred_pid : ℕ) (d : Daemon) (q : ℕ)
    → config.use_inkernel_interface ≡ false
    → IsTable d.table
    → (pid_lookup (cmd_procpurge config cred_pid d).table q
        ≡ removed cred_pid (pid_lookup d.table q))
      × IsTable (cmd_procpurge config cred_pid d).table
unfolding cmd_procpurge
cmd_procpurge_lem config cred_pid d q user v = rw user (
  ground (
    arith,
    pid_hashfn-lt q,
    pid_lookup-purge_below d.last_kill_pid_or_fd cred_pid pidhash_sz d.table q v,
  ),
  purge_below-IsTable d.last_kill_pid_or_fd cred_pid pidhash_sz d.table v,
)
