-- ===== src/Stats.antt =====
-- statslog.cpp, compiled with LMKD_LOG_STATS: the names of the registered tasks. `pidhash` is `none`
-- until the first insertion allocates it, and a chain is the list of its records in the order of
-- `pidhash_next`. `malloc` and `calloc` give memory: the source uses what they return without a test.
pub mod Names
pub mod Chains
pub mod Packet
pub mod RoundTrip
pub mod Reader
pub mod Bounds
pub mod Memory
pub mod Fields
use android_system_memory_lm.Base.{
  ℕ, ◌/◌, ◌%◌, List, [], ◌∷◌, Option, none, some, Bool, true, false, not, ◌==◌, if◌then◌else◌, take,
  update,
}
use Prim.Native.Nat.{bit_xor}
use android_system_memory_lm.Text.{Bytes, str_eq}

abbrev pub max_taskname_len : ℕ
max_taskname_len = 128

pub record Task : Type 0 where
  pub pid : ℕ
  pub taskname : Bytes

pub record Tasks : Type 0 where
  pub enable_stats_log : Bool
  pub pidhash : Option (ℕ → List Task)

abbrev pidhash_sz : ℕ
pidhash_sz = 1024

pub pid_hashfn : ℕ → ℕ
pid_hashfn x = bit_xor (x / 256) x % pidhash_sz

unfoldable pub find_task : ℕ → List Task → Option Task
find_task pid [] = none
find_task pid (p ∷ ps) = if p.pid == pid then some p else find_task pid ps

unfoldable pub pid_lookup : Tasks → ℕ → Option Task
unfolding find_task
pid_lookup s pid = elim s.pidhash [ none ↦ none | some h ↦ find_task pid (h (pid_hashfn pid)) ]

-- The table, allocated where it is not there yet.
abbrev pub chains : Option (ℕ → List Task) → ℕ → List Task
chains none = λ i. []
chains (some h) = h

unfoldable pub proc_insert : Task → Tasks → Tasks
proc_insert p s =
    let h = chains s.pidhash in
    let hval = pid_hashfn p.pid in record s { pidhash = some (update h hval (p ∷ h hval)) }

-- The chain with the first record of a pid unlinked.
unfoldable pub unlink_task : ℕ → List Task → List Task
unlink_task pid [] = []
unlink_task pid (p ∷ ps) = if p.pid == pid then ps else p ∷ unlink_task pid ps

unfoldable pub stats_remove_taskname : ℕ → Tasks → Tasks
unfolding unlink_task
stats_remove_taskname pid s = if not s.enable_stats_log then s else elim s.pidhash [
  | none ↦ s
  | some h ↦
      let hval = pid_hashfn pid in
      record s { pidhash = some (update h hval (unlink_task pid (h hval))) }
]

-- The bytes that `strncpy` and the terminating zero leave of a name.
abbrev pub cut_taskname : Bytes → Bytes
cut_taskname taskname = take 127 taskname

abbrev pub is_named : Option Task → Bytes → Bool
is_named none taskname = false
is_named (some p) taskname = str_eq p.taskname taskname

abbrev pub new_task : ℕ → Bytes → Task
new_task pid taskname = record { pid = pid; taskname = cut_taskname taskname }

-- Where the pid has no record, the removal of the source is not called; it would change nothing.
abbrev pub forget : Option Task → ℕ → Tasks → Tasks
forget none pid s = s
forget (some p) pid s = stats_remove_taskname pid s

unfoldable pub stats_store_taskname : ℕ → Option Bytes → Tasks → Tasks
unfolding str_eq stats_remove_taskname pid_lookup proc_insert
stats_store_taskname pid none s = s
stats_store_taskname pid (some taskname) s =
    if not s.enable_stats_log
    then s
    else if is_named (pid_lookup s pid) taskname
    then s
    else proc_insert (new_task pid taskname) (forget (pid_lookup s pid) pid s)

unfoldable pub stats_purge_tasknames : Tasks → Tasks
stats_purge_tasknames s =
    if not s.enable_stats_log
    then s
    else elim s.pidhash [ none ↦ s | some h ↦ record s { pidhash = some (λ i. []) } ]

unfoldable pub stats_get_task_name : Tasks → ℕ → Option Bytes
unfolding pid_lookup
stats_get_task_name s pid = elim (pid_lookup s pid) [ none ↦ none | some p ↦ some p.taskname ]
