-- ===== src/Register/Reads.antt =====
-- lmkd.cpp: the reads of a batch, and what the completions of a good ring are.
use android_system_memory_lm.Base.{
  ℕ, zero, suc, ◌+◌, ◌<◌, ◌≡◌, ◌⊎◌, ◌≢◌, refl, ap, sym, ◌∙◌, arith, List, [], ◌∷◌, Option, none,
  some, Bool, true, false, ◌&&◌, not, ltb, ◌==◌, length, get_elem?, update, Bool-cases, inl, inr,
}
use android_system_memory_lm.Packet.{LmkProcprio}
use android_system_memory_lm.Register.{Host, is_other_tgid}
use android_system_memory_lm.Register.Batch.{
  Completion, Ring, Fd, closed, reading, writing, is_valid, requested, open_reads, is_other, reopen,
  Reads, finished, finish_reads, count_writes,
}

-- The records of the completions, in their order.
abbrev pub records : List LmkProcprio → List Completion → List LmkProcprio
records procs [] = []
records procs (c ∷ cs) = elim (get_elem? procs c.user_data) [
  | none ↦ records procs cs
  | some p ↦ p ∷ records procs cs
]

-- The completions are good, and of requests for descriptors in this state.
abbrev pub AllOf : (ℕ → Fd) → Fd → List Completion → Type 0
AllOf fds state [] = Unit {0}
AllOf fds state (c ∷ cs) = (c.ok ≡ true) × (fds c.user_data ≡ state) × AllOf fds state cs

-- A completion of the request with this index is in the queue.
abbrev pub Completes : ℕ → List Completion → Type 0
Completes i [] = ⊥
Completes i (c ∷ cs) = (c.user_data ≡ i) ⊎ Completes i cs

-- A record is among others.
abbrev pub Has : LmkProcprio → List LmkProcprio → Type 0
Has p [] = ⊥
Has p (q ∷ qs) = (q ≡ p) ⊎ Has p qs

-- The descriptors after the reads.
abbrev pub fds_of : Reads → ℕ → Fd
fds_of (finished fds unseen) = fds
fds_of _ = λ i. closed

abbrev pub after_reads : Host → Ring → List LmkProcprio → ℕ → Fd
after_reads host ring procs =
    let (fds, n) = open_reads host ring 0 procs in
    fds_of (finish_reads host ring procs n ring.reads fds)

-- The requests that the completions are of.
abbrev pub indices : List Completion → List ℕ
indices [] = []
indices (c ∷ cs) = c.user_data ∷ indices cs

-- The ring takes all requests and completes each, in any order, with a good result; the writes are
-- carried out in the order of their completions; and the start of
-- the status that it reads says the same of the group leader as the whole text.
pub record IsServed (host : Host) (ring : Ring) (procs : List LmkProcprio) : Type 0 where
  pub ready : ring.queue_init ≡ true
  pub accepts : (n : ℕ) → (ring.submit_reads n ≡ true) × (ring.submit_writes n ≡ true)
  pub all_read : length ring.reads ≡ (open_reads host ring 0 procs).1
  pub reads : AllOf (open_reads host ring 0 procs).0 reading ring.reads
  pub same_leader :
      (i : ℕ) (p : LmkProcprio)
      → get_elem? procs i ≡ some p
      → is_other (ring.buffer i) p.pid ≡ is_other_tgid host p.pid
  pub entries : (i : ℕ) → (ring.read_sqe i ≡ true) × (ring.write_sqe i ≡ true)
  pub completes_reads :
      (i : ℕ) → (open_reads host ring 0 procs).0 i ≡ reading → Completes i ring.reads
  pub completes_writes : (i : ℕ) → after_reads host ring procs i ≡ writing → Completes i ring.writes
  pub all_written : length ring.writes ≡ count_writes ring (after_reads host ring procs) 0 procs
  pub performed : ring.performed ≡ indices ring.writes
  pub writes : AllOf (after_reads host ring procs) writing ring.writes

-- What apply_proc_prio tests before the write.
abbrev pub accepts_proc : Host → LmkProcprio → Bool
accepts_proc host p =
    is_valid p && (not (is_other_tgid host p.pid) && host.oom_score_adj_file p.pid)

-- Descriptors that are open only for valid records, and for writing only for accepted ones.
pub record IsSound (host : Host) (procs : List LmkProcprio) (fds : ℕ → Fd) : Type 0 where
  pub accepted :
      (i : ℕ) (p : LmkProcprio)
      → get_elem? procs i ≡ some p
      → fds i ≡ writing
      → accepts_proc host p ≡ true
  pub inside : (i : ℕ) → fds i ≡ writing → i < length procs

reopen-accepted :
    (host : Host) (buf : List ℕ) (p : LmkProcprio)
    → is_valid p ≡ true
    → is_other buf p.pid ≡ is_other_tgid host p.pid
    → reopen host buf p ≡ writing
    → accepts_proc host p ≡ true
unfolding reopen
reopen-accepted host buf p v s h = ground (arith, v, s, h)

pub get_elem?-inside :
    (i : ℕ) (ps : List LmkProcprio) → i < length ps → (p : LmkProcprio) × (get_elem? ps i ≡ some p)
get_elem?-inside i [] h = absurd (omega arith)
get_elem?-inside zero (p ∷ ps) h = (p, refl)
get_elem?-inside (suc i) (p ∷ ps) h = get_elem?-inside i ps (omega arith)

pub get_elem?-some :
    (i : ℕ) (ps : List LmkProcprio) (p : LmkProcprio) → get_elem? ps i ≡ some p → i < length ps
get_elem?-some i [] p h = cc
get_elem?-some zero (q ∷ ps) p h = omega arith
get_elem?-some (suc i) (q ∷ ps) p h = omega (arith, get_elem?-some i ps p h)

-- What the first loop makes of one descriptor.
abbrev IsRequest : ℕ → List LmkProcprio → ℕ → Fd → Type 0
IsRequest i ps j fd =
    (fd ≡ closed)
    ⊎ ((fd ≡ reading)
        × ((k : ℕ) × (j ≡ i + k)
            × ((p : LmkProcprio) × (get_elem? ps k ≡ some p) × (is_valid p ≡ true))))

IsRequest-later :
    (i : ℕ) (p : LmkProcprio) (ps : List LmkProcprio) (j : ℕ) (fd : Fd)
    → IsRequest (suc i) ps j fd
    → IsRequest i (p ∷ ps) j fd
IsRequest-later i p ps j fd (inl e) = inl e
IsRequest-later i p ps j fd (inr (r, (k, e, q))) = inr (r, (suc k, omega (arith, e), q))

pub open_reads-IsRequest :
    (host : Host) (ring : Ring) (i : ℕ) (ps : List LmkProcprio) (j : ℕ)
    → IsRequest i ps j ((open_reads host ring i ps).0 j)
unfolding open_reads
open_reads-IsRequest host ring i [] j = inl refl
open_reads-IsRequest host ring i (p ∷ ps) j =
    let rest = open_reads-IsRequest host ring (suc i) ps j in
    let later = IsRequest-later i p ps j ((open_reads host ring (suc i) ps).0 j) rest in
    elim (Bool-cases (requested host ring i p)) [
      | inr skipped ↦ simp skipped later
      | inl taken ↦ elim (Bool-cases (j == i)) [
        | inl here ↦
            simp (taken, here)
              (inr (refl, (0, ground (arith, here), (p, refl, ground (arith, taken)))))
        | inr there ↦ simp (taken, there) later
      ]
    ]

pub not_writing : (fd : Fd) (i j : ℕ) (ps : List LmkProcprio) → IsRequest i ps j fd → fd ≢ writing
not_writing fd i j ps (inl e) h = cc
not_writing fd i j ps (inr (e, q)) h = cc

pub open_reads-IsSound :
    (host : Host) (ring : Ring) (procs : List LmkProcprio)
    → IsSound host procs (open_reads host ring 0 procs).0
open_reads-IsSound host ring procs = record {
  accepted =
      λ i p e w. absurd (not_writing _ 0 i procs (open_reads-IsRequest host ring 0 procs i) w);
  inside = λ i w. absurd (not_writing _ 0 i procs (open_reads-IsRequest host ring 0 procs i) w);
}

pub requested_record :
    (i : ℕ) (ps : List LmkProcprio) (fd : Fd)
    → IsRequest 0 ps i fd
    → fd ≡ reading
    → (p : LmkProcprio) × (get_elem? ps i ≡ some p) × (is_valid p ≡ true)
requested_record i ps fd (inl e) h = absurd cc
requested_record i ps fd (inr (r, (k, e, (p, f, v)))) h =
    (p, ap (get_elem? ps) (omega (arith, e)) ∙ f, v)

abbrev accepts_some : Host → Option LmkProcprio → Bool
accepts_some host none = true
accepts_some host (some p) = accepts_proc host p

reopen-IsSound :
    (host : Host) (ring : Ring) (procs : List LmkProcprio) (i : ℕ) (p : LmkProcprio) (fds : ℕ → Fd)
    → get_elem? procs i ≡ some p
    → is_valid p ≡ true
    → is_other (ring.buffer i) p.pid ≡ is_other_tgid host p.pid
    → IsSound host procs fds
    → IsSound host procs (update fds i (reopen host (ring.buffer i) p))
reopen-IsSound host ring procs i p fds e v same s = record {
  accepted = λ j q f w. elim (Bool-cases (j == i)) [
    | inl here ↦
        let w' : reopen host (ring.buffer i) p ≡ writing = ground (arith, w, here) in
        sym (ap (accepts_some host) f)
        ∙ ap (λ (k : ℕ). accepts_some host (get_elem? procs k)) (ground (arith, here))
        ∙ ap (accepts_some host) e
        ∙ reopen-accepted host (ring.buffer i) p v same w'
    | inr there ↦ s.accepted j q f (ground (arith, w, there))
  ];
  inside = λ j w. elim (Bool-cases (j == i)) [
    | inl here ↦ ground (arith, here, get_elem?-some i procs p e)
    | inr there ↦ s.inside j (ground (arith, w, there))
  ];
}

-- The completions of the reads, each of an index that the first loop asked for.
pub finish_reads-IsSound :
    (host : Host) (ring : Ring) (procs : List LmkProcprio) (asked : ℕ → Fd)
    (queue : List Completion) (fds : ℕ → Fd)
    → ((i : ℕ) → IsRequest 0 procs i (asked i))
    → ((i : ℕ) (p : LmkProcprio)
        → get_elem? procs i ≡ some p
        → is_other (ring.buffer i) p.pid ≡ is_other_tgid host p.pid)
    → AllOf asked reading queue
    → IsSound host procs fds
    → (after : ℕ → Fd) × (finish_reads host ring procs (length queue) queue fds ≡ finished after [])
      × IsSound host procs after
unfolding finish_reads
finish_reads-IsSound host ring procs asked [] fds r same h s = (fds, refl, s)
finish_reads-IsSound host ring procs asked (c ∷ queue) fds r same (ok, asks, h) s =
    let i = c.user_data in
    let (p, e, v) = requested_record i procs (asked i) (r i) asks in
    let (after, done, sound) =
      finish_reads-IsSound host ring procs asked queue
        (update fds i (reopen host (ring.buffer i) p)) r same h
        (reopen-IsSound host ring procs i p fds e v (same i p e) s) in
    let in_range : ltb (length procs) i ≡ false = ground (arith, get_elem?-some i procs p e) in
    (after, simp (ok, in_range, e) done, sound)
