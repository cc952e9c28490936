-- ===== src/Register/Batch.antt =====
-- lmkd.cpp: `handle_io_uring_procs_prio`, which reads the status files and writes the scores of a
-- whole LMK_PROCS_PRIO request through an io_uring. What the ring answers is a parameter.
use android_system_memory_lm.Base.{
  ℕ, zero, suc, ◌+◌, List, [], ◌∷◌, ◌++◌, Option, none, some, Bool, true, false, ◌&&◌, ◌||◌, not,
  leb, ltb, ◌==◌, if◌then◌else◌, ltb_ℤ, eqb_ℤ, length, get_elem?, update,
}
use android_system_memory_lm.Packet.{LmkProcprio, proc_type_count, to_int}
use android_system_memory_lm.ProcTable.{oom_score_adj_min, oom_score_adj_max}
use android_system_memory_lm.Text.{Bytes, parse_status_tag}
use android_system_memory_lm.Register.{
  Host, Config, Daemon, emit, write_oom_score_adj, store_taskname, tgid_field,
  register_oom_adj_proc,
}

-- A completion with its `user_data`, and whether its result is not negative.
pub record Completion : Type 0 where
  pub user_data : ℕ
  pub ok : Bool

pub record Ring : Type 0 where
  pub queue_init : Bool
  -- Is there an entry for the read, or the write, of an index?
  pub read_sqe : ℕ → Bool
  pub write_sqe : ℕ → Bool
  -- Does the submission of this many requests accept them all?
  pub submit_reads : ℕ → Bool
  pub submit_writes : ℕ → Bool
  -- The completions, in their order; where there is none, the wait for one fails.
  pub reads : List Completion
  pub writes : List Completion
  -- The indices whose writes the kernel carries out, in its order.
  pub performed : List ℕ
  -- What a search from the start of a buffer on meets, up to the first zero byte: the buffer has 256
  -- bytes and no terminator of its own, so what lies behind it in memory may belong to it.
  pub buffer : ℕ → Bytes

-- What the descriptor of an index is open for.
pub data Fd : Type 0 where
  closed reading writing : Fd

abbrev pub is_valid : LmkProcprio → Bool
is_valid p =
    not (ltb_ℤ p.oomadj oom_score_adj_min || ltb_ℤ oom_score_adj_max p.oomadj)
    && not (leb proc_type_count p.ptype)

abbrev pub has_status : Option Bytes → Bool
has_status none = false
has_status (some buf) = true

abbrev pub requested : Host → Ring → ℕ → LmkProcprio → Bool
requested host ring i p = is_valid p && has_status (host.proc_status p.pid) && ring.read_sqe i

-- The first loop, from an index on: the descriptors, and the number of requests.
unfoldable pub open_reads : Host → Ring → ℕ → List LmkProcprio → (ℕ → Fd) × ℕ
open_reads host ring i [] = (λ j. closed, 0)
open_reads host ring i (p ∷ ps) =
    let (fds, n) = open_reads host ring (suc i) ps in
    if requested host ring i p then (update fds i reading, n + 1) else (fds, n)

abbrev pub is_other : Bytes → ℕ → Bool
is_other buf pid = elim (parse_status_tag buf tgid_field) [
  | none ↦ false
  | some tgid ↦ not (eqb_ℤ tgid (to_int pid))
]

unfoldable pub reopen : Host → Bytes → LmkProcprio → Fd
reopen host buf p =
    if is_other buf p.pid then closed else if host.oom_score_adj_file p.pid then writing else closed

-- After the loop over the completions of the reads: the descriptors and the completions that were not
-- marked as seen, an error, or no defined behaviour.
pub data Reads : Type 0 where
  finished : (ℕ → Fd) → List Completion → Reads
  failed : Reads
  undefined : Reads

-- A completion that is rejected is not marked as seen, so the next wait gives it again. The index
-- `procs_count` passes the test of the source, and has no record.
unfoldable pub finish_reads :
    Host → Ring → List LmkProcprio → ℕ → List Completion → (ℕ → Fd) → Reads
unfolding reopen
finish_reads host ring procs zero queue fds = finished fds queue
finish_reads host ring procs (suc n) [] fds = failed
finish_reads host ring procs (suc n) (c ∷ queue) fds =
    let again = finish_reads host ring procs n (c ∷ queue) fds in
    if not c.ok || ltb (length procs) c.user_data
    then again
    else elim (get_elem? procs c.user_data) [
      | none ↦ undefined
      | some p ↦
          finish_reads host ring procs n queue
            (update fds c.user_data (reopen host (ring.buffer c.user_data) p))
    ]

abbrev is_closed : Fd → Bool
is_closed closed = true
is_closed reading = false
is_closed writing = false

-- The number of requests of the third loop, from an index on.
unfoldable pub count_writes : Ring → (ℕ → Fd) → ℕ → List LmkProcprio → ℕ
count_writes ring fds i [] = 0
count_writes ring fds i (p ∷ ps) =
    let n = count_writes ring fds (suc i) ps in
    if is_closed (fds i) || not (ring.write_sqe i) then n else n + 1

abbrev pub write_score : Option LmkProcprio → Daemon → Daemon
write_score none d = d
write_score (some p) d = emit (write_oom_score_adj p.pid p.oomadj) d

-- The writes that were submitted, before the first completion is waited for.
unfoldable pub write_scores : List LmkProcprio → List ℕ → Daemon → Daemon
write_scores procs [] d = d
write_scores procs (i ∷ is) d = write_scores procs is (write_score (get_elem? procs i) d)

-- The completion of a write.
unfoldable pub complete_write : Host → Config → ℕ → LmkProcprio → Daemon → Daemon
complete_write host config cred_pid p d =
    if config.use_inkernel_interface
    then emit (store_taskname p.pid) d
    else register_oom_adj_proc host config cred_pid p d

-- `none` is an access outside the request; an error keeps what was done.
unfoldable pub finish_writes :
    Host → Config → ℕ → List LmkProcprio → ℕ → List Completion → Daemon → Option Daemon
unfolding complete_write
finish_writes host config cred_pid procs zero queue d = some d
finish_writes host config cred_pid procs (suc n) [] d = some d
finish_writes host config cred_pid procs (suc n) (c ∷ queue) d =
    let again = finish_writes host config cred_pid procs n (c ∷ queue) d in
    if not c.ok || ltb (length procs) c.user_data
    then again
    else elim (get_elem? procs c.user_data) [
      | none ↦ none
      | some p ↦
          finish_writes host config cred_pid procs n queue (complete_write host config cred_pid p d)
    ]

unfoldable pub batch_writes :
    Host → Config → Ring → ℕ → List LmkProcprio → Reads → Daemon → Option Daemon
unfolding count_writes finish_writes write_scores
batch_writes host config ring cred_pid procs failed d = some d
batch_writes host config ring cred_pid procs undefined d = none
batch_writes host config ring cred_pid procs (finished fds unseen) d =
    let n = count_writes ring fds 0 procs in
    let d' = write_scores procs ring.performed d in
    if n == 0
    then some d
    else if not (ring.submit_writes n)
    then some d'
    else finish_writes host config cred_pid procs n (unseen ++ ring.writes) d'

unfoldable pub handle_io_uring_procs_prio :
    Host → Config → Ring → ℕ → List LmkProcprio → Daemon → Option Daemon
unfolding open_reads finish_reads batch_writes
handle_io_uring_procs_prio host config ring cred_pid procs d =
    let (fds, n) = open_reads host ring 0 procs in
    if not ring.queue_init
    then some d
    else if n == 0 || not (ring.submit_reads n)
    then some d
    else batch_writes host config ring cred_pid procs
        (finish_reads host ring procs n ring.reads fds) d
