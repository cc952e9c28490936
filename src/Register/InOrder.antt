-- ===== src/Register/InOrder.antt =====
-- lmkd.cpp: a batch of an LMK_PROCS_PRIO request against the requests one by one.
use android_system_memory_lm.Text.{Bytes}
use android_system_memory_lm.Base.{
  Option, none, zero, suc, ◌+◌, ◌⊎◌, update, Option-cases, ℕ, ◌≡◌, refl, ap, subst, sym, ◌∙◌, arith,
  List, [], ◌∷◌, some, true, false, ltb, ◌==◌, length, get_elem?, Bool-cases, inl, inr,
}
use android_system_memory_lm.Packet.{LmkProcprio}
use android_system_memory_lm.Register.{Host, Config, Daemon, is_other_tgid}
use android_system_memory_lm.Register.Batch.{
  write_scores, Completion, Ring, Fd, reading, writing, requested, is_valid, has_status, is_other,
  reopen, Reads, open_reads, finished, finish_reads, count_writes, finish_writes, batch_writes,
  handle_io_uring_procs_prio,
}
use android_system_memory_lm.Connections.Commands.{apply_procs}
use android_system_memory_lm.Register.Effects.{scores_of, Agrees, Agrees-refl}
use android_system_memory_lm.Register.Reads.{
  Completes, Has, accepts_proc, requested_record, get_elem?-some, records, AllOf, fds_of,
  after_reads, IsServed, indices, IsSound, open_reads-IsRequest, not_writing, open_reads-IsSound,
  finish_reads-IsSound,
}
use android_system_memory_lm.Register.Writes.{
  records-cons, finish_writes-Agrees, write_scores-scores, write_scores-Agrees,
}

all_reads :
    (host : Host) (ring : Ring) (procs : List LmkProcprio)
    → IsServed host ring procs
    → (after : ℕ → Fd) × (finish_reads host ring procs
          (open_reads host ring 0 procs).1
          ring.reads
          (open_reads host ring 0 procs).0
        ≡ finished after [])
      × IsSound host procs after
all_reads host ring procs v =
    let asked = (open_reads host ring 0 procs).0 in
    let (after, done, sound) =
      finish_reads-IsSound host ring procs asked ring.reads asked
        (λ i. open_reads-IsRequest host ring 0 procs i) v.same_leader v.reads
        (open_reads-IsSound host ring procs) in
    (
      after,
      ap (λ (n : ℕ). finish_reads host ring procs n ring.reads asked) (sym v.all_read) ∙ done,
      sound,
    )

no_writes :
    (procs : List LmkProcprio) (queue : List Completion)
    → length queue ≡ 0
    → records procs queue ≡ []
no_writes procs [] h = refl
no_writes procs (c ∷ queue) h = absurd (omega arith)

none_asked :
    (host : Host) (ring : Ring) (procs : List LmkProcprio) (queue : List Completion)
    → AllOf (open_reads host ring 0 procs).0 writing queue
    → records procs queue ≡ []
none_asked host ring procs [] h = refl
none_asked host ring procs (c ∷ queue) (ok, w, h) =
    let i = c.user_data in
    absurd (not_writing _ 0 i procs (open_reads-IsRequest host ring 0 procs i) w)

-- The two states agree, and have the same writes of scores in the same order.
abbrev pub SameEffect : Option Daemon → Daemon → Type 0
SameEffect none e = ⊥
SameEffect (some r) e = Agrees r e × (scores_of r.effects ≡ scores_of e.effects)

batch_writes-SameEffect :
    (host : Host) (config : Config) (ring : Ring) (cred_pid : ℕ) (procs : List LmkProcprio)
    (after : ℕ → Fd) (d : Daemon)
    → (ring.submit_writes (count_writes ring after 0 procs) ≡ true)
    → length ring.writes ≡ count_writes ring after 0 procs
    → ring.performed ≡ indices ring.writes
    → IsSound host procs after
    → AllOf after writing ring.writes
    → SameEffect
        (batch_writes host config ring cred_pid procs (finished after []) d)
        (apply_procs host config cred_pid (records procs ring.writes) d)
unfolding batch_writes apply_procs
batch_writes-SameEffect host config ring cred_pid procs after d submits n order sound h =
    elim (Bool-cases (count_writes ring after 0 procs == 0)) [
      | inl zero_writes ↦
          let no = no_writes procs ring.writes (ground (arith, n, zero_writes)) in
          simp (zero_writes, no) (Agrees-refl d, refl)
      | inr some_writes ↦
          let d' = write_scores procs ring.performed d in
          let (r, run, agrees, scores) =
            finish_writes-Agrees host config cred_pid procs after ring.writes d' d sound h
              (write_scores-Agrees procs ring.performed d d (Agrees-refl d)) in
          let run' : finish_writes host config cred_pid procs (count_writes ring after 0 procs)
                ring.writes d'
              ≡ some r =
            ap (λ (k : ℕ). finish_writes host config cred_pid procs k ring.writes d') (sym n)
            ∙ run in
          simp (some_writes, submits, run')
            (
              agrees,
              scores
                  ∙ ap (λ (is : List ℕ). scores_of (write_scores procs is d).effects) order
                  ∙ write_scores-scores host config cred_pid procs after ring.writes d d sound h
                      refl,
            )
    ]

-- The first loop asks for every valid record whose status can be opened.
open_reads-reading :
    (host : Host) (ring : Ring) (i k : ℕ) (ps : List LmkProcprio) (p : LmkProcprio)
    → ((j : ℕ) → ring.read_sqe j ≡ true)
    → get_elem? ps k ≡ some p
    → is_valid p ≡ true
    → has_status (host.proc_status p.pid) ≡ true
    → (open_reads host ring i ps).0 (i + k) ≡ reading
unfolding open_reads
open_reads-reading host ring i k [] p sqe e v o = absurd cc
open_reads-reading host ring i zero (q ∷ ps) p sqe e v o =
    let same : q ≡ p = ground (arith, e) in
    let taken : requested host ring i q ≡ true =
      ap (requested host ring i) same ∙ simp (v, o, sqe i) in
    simp taken (ground arith)
open_reads-reading host ring i (suc k) (q ∷ ps) p sqe e v o =
    let rest = open_reads-reading host ring (suc i) k ps p sqe e v o in
    ground (arith, rest, Bool-cases (requested host ring i q))

-- The completions are good, and of records of the request.
abbrev IsGoodQueue : List LmkProcprio → List Completion → Type 0
IsGoodQueue procs [] = Unit {0}
IsGoodQueue procs (c ∷ cs) =
    (c.ok ≡ true)
    × ((q : LmkProcprio) × (get_elem? procs c.user_data ≡ some q))
    × IsGoodQueue procs cs

AllOf-IsGoodQueue :
    (host : Host) (ring : Ring) (procs : List LmkProcprio) (queue : List Completion)
    → AllOf (open_reads host ring 0 procs).0 reading queue
    → IsGoodQueue procs queue
AllOf-IsGoodQueue host ring procs [] h = tt
AllOf-IsGoodQueue host ring procs (c ∷ queue) (ok, asks, h) =
    let i = c.user_data in
    let (p, e, v) = requested_record i procs _ (open_reads-IsRequest host ring 0 procs i) asks in
    (ok, (p, e), AllOf-IsGoodQueue host ring procs queue h)

-- A record that the tests accept keeps its descriptor for the write, once its read is complete.
finish_reads-writing :
    (host : Host) (ring : Ring) (procs : List LmkProcprio) (i : ℕ) (p : LmkProcprio)
    (queue : List Completion) (fds after : ℕ → Fd)
    → get_elem? procs i ≡ some p
    → reopen host (ring.buffer i) p ≡ writing
    → (fds i ≡ writing) ⊎ Completes i queue
    → finish_reads host ring procs (length queue) queue fds ≡ finished after []
    → IsGoodQueue procs queue
    → after i ≡ writing
unfolding finish_reads
finish_reads-writing host ring procs i p [] fds after e w (inl h) done good =
    ap (λ (r : Reads). fds_of r i) (sym done) ∙ h
finish_reads-writing host ring procs i p [] fds after e w (inr h) done good = elim h [ ]
finish_reads-writing host ring procs i p (c ∷ queue) fds after e w h done (ok, (q, f), good) =
    let j = c.user_data in
    let next = update fds j (reopen host (ring.buffer j) q) in
    let in_range : ltb (length procs) j ≡ false = ground (arith, get_elem?-some j procs q f) in
    let done' : finish_reads host ring procs (length queue) queue next ≡ finished after [] =
      sym (simp (ok, in_range, f)) ∙ done in
    let there : (next i ≡ writing) ⊎ Completes i queue = elim (Bool-cases (i == j)) [
      | inl here ↦
          let same : j ≡ i = ground (arith, here) in
          let found : some q ≡ some p = sym f ∙ ap (get_elem? procs) same ∙ e in
          let q_is_p : q ≡ p = ground (arith, found) in
          let opened : reopen host (ring.buffer j) q ≡ writing =
            ap (λ (k : ℕ). reopen host (ring.buffer k) q) same
            ∙ ap (reopen host (ring.buffer i)) q_is_p
            ∙ w in
          inl (ground (arith, here, opened))
      | inr other ↦ elim h [
        | inl g ↦ inl (ground (arith, other, g))
        | inr (inl g) ↦ absurd (ground (arith, other, g))
        | inr (inr g) ↦ inr g
      ]
    ] in
    finish_reads-writing host ring procs i p queue next after e w there done' good

reopen-writing :
    (host : Host) (buf : Bytes) (p : LmkProcprio)
    → is_other buf p.pid ≡ is_other_tgid host p.pid
    → accepts_proc host p ≡ true
    → reopen host buf p ≡ writing
unfolding reopen
reopen-writing host buf p s h = ground (arith, s, h)

Completes-Has :
    (procs : List LmkProcprio) (i : ℕ) (p : LmkProcprio) (queue : List Completion)
    → get_elem? procs i ≡ some p
    → Completes i queue
    → Has p (records procs queue)
Completes-Has procs i p [] e h = elim h [ ]
Completes-Has procs i p (c ∷ queue) e (inl same) =
    rw (records-cons procs c queue p (ap (get_elem? procs) same ∙ e)) (inl refl)
Completes-Has procs i p (c ∷ queue) e (inr h) =
    let rest = Completes-Has procs i p queue e h in
    elim (Option-cases (get_elem? procs c.user_data)) [
      | inl f ↦ rw (records, f) rest
      | inr (q, f) ↦ rw (records-cons procs c queue q f) (inr rest)
    ]

-- Every record that passes the tests, and whose status can be opened, is among those registered.
accepted-Has :
    (host : Host) (ring : Ring) (procs : List LmkProcprio) (i : ℕ) (p : LmkProcprio)
    → IsServed host ring procs
    → get_elem? procs i ≡ some p
    → accepts_proc host p ≡ true
    → has_status (host.proc_status p.pid) ≡ true
    → Has p (records procs ring.writes)
accepted-Has host ring procs i p v e ok opens =
    let asked = (open_reads host ring 0 procs).0 in
    let (after, done, sound) = all_reads host ring procs v in
    let asks : asked i ≡ reading =
      ap asked (omega arith)
      ∙ open_reads-reading host ring 0 i procs p (λ j. (v.entries j).0) e (ground (arith, ok))
          opens in
    let run : finish_reads host ring procs (length ring.reads) ring.reads asked
        ≡ finished after [] =
      ap (λ (n : ℕ). finish_reads host ring procs n ring.reads asked) v.all_read ∙ done in
    let writes : after i ≡ writing =
      finish_reads-writing host ring procs i p ring.reads asked after e
        (reopen-writing host (ring.buffer i) p (v.same_leader i p e) ok)
        (inr (v.completes_reads i asks)) run
        (AllOf-IsGoodQueue host ring procs ring.reads v.reads) in
    Completes-Has procs i p ring.writes e
      (v.completes_writes i (ap (λ (r : Reads). fds_of r i) done ∙ writes))

batch-SameEffect :
    (host : Host) (config : Config) (ring : Ring) (cred_pid : ℕ) (procs : List LmkProcprio)
    (d : Daemon)
    → IsServed host ring procs
    → SameEffect
        (handle_io_uring_procs_prio host config ring cred_pid procs d)
        (apply_procs host config cred_pid (records procs ring.writes) d)
unfolding handle_io_uring_procs_prio apply_procs finish_reads
batch-SameEffect host config ring cred_pid procs d v =
    let n = (open_reads host ring 0 procs).1 in
    let (after, done, sound) = all_reads host ring procs v in
    let fds : after_reads host ring procs ≡ after = ap fds_of done in
    elim (Bool-cases (n == 0)) [
      | inl zero_reads ↦
          let asked = (open_reads host ring 0 procs).0 in
          let zero_n : n ≡ 0 = ground (arith, zero_reads) in
          let unread : after_reads host ring procs ≡ asked =
            ap (λ (k : ℕ). fds_of (finish_reads host ring procs k ring.reads asked)) zero_n in
          let none =
            none_asked host ring procs ring.writes
              (subst (λ (f : ℕ → Fd). AllOf f writing ring.writes) unread v.writes) in
          simp (v.ready, zero_reads, none) (Agrees-refl d, refl)
      | inr some_reads ↦
          simp (v.ready, some_reads, (v.accepts n).0, done)
            (batch_writes-SameEffect host config ring cred_pid procs after d
              (v.accepts (count_writes ring after 0 procs)).1
              (v.all_written ∙ ap (λ (f : ℕ → Fd). count_writes ring f 0 procs) fds) v.performed
              sound (subst (λ (f : ℕ → Fd). AllOf f writing ring.writes) fds v.writes))
    ]

-- If the ring takes and completes all requests with good results, in any order, and the writes are
-- carried out in the order of their completions, then handle_io_uring_procs_prio, which submits the
-- writes of all scores before it registers a process, ends with the table and the pidfd that
-- apply_proc_prio gives on one record after the other in that order, with the same writes of scores in
-- the same order, and with the same other effects in the same order; and every record of the request
-- that apply_proc_prio would accept, and whose status file can be opened, is among those registered.
pub handle_io_uring_procs_prio_in_order :
    (host : Host) (config : Config) (ring : Ring) (cred_pid : ℕ) (procs : List LmkProcprio)
    (d : Daemon)
    → IsServed host ring procs
    → SameEffect
        (handle_io_uring_procs_prio host config ring cred_pid procs d)
        (apply_procs host config cred_pid (records procs ring.writes) d)
      × ((i : ℕ) (p : LmkProcprio)
          → get_elem? procs i ≡ some p
          → accepts_proc host p ≡ true
          → has_status (host.proc_status p.pid) ≡ true
          → Has p (records procs ring.writes))
handle_io_uring_procs_prio_in_order host config ring cred_pid procs d v = (
  batch-SameEffect host config ring cred_pid procs d v,
  λ i p e ok opens. accepted-Has host ring procs i p v e ok opens,
)
