-- ===== src/Reaper/Requests.antt =====
-- reaper.cpp: every request that the main thread hands over is served once, whatever the order in
-- which the threads take and complete them.
use android_system_memory_lm.Base.{
  ℕ, ◌+◌, ◌≤◌, ◌≡◌, ◌⊎◌, refl, arith, List, [], ◌∷◌, ◌++◌, some, Bool, true, false, ◌==◌,
  if◌then◌else◌, ℤ, pos, +ℤ_parts, -ℤ_parts, length, length-append, count, inl, inr,
}
use android_system_memory_lm.Reaper.{
  TargetProc, State, async_kill, dequeue_request, request_complete, notify_kill_failure, serve,
}

-- The reaper after `init`, before any request.
abbrev pub started : ℕ → State
started threads = record {
  thread_cnt = threads;
  active_requests = pos 0;
  queue = [];
  busy = [];
  failures = [];
  closed = [];
}

-- The states that `threads` threads and the main thread can bring about in any order of their steps,
-- with the pids of the requests that were accepted and of those that were served.
pub data Reaches (threads : ℕ) : State → List ℕ → List ℕ → Type 0 where
  at_start : Reaches threads (started threads) [] []
  accept :
      {s : State} {accepted served : List ℕ} (dup : ℤ) (target : TargetProc)
      → Reaches threads s accepted served
      → (async_kill dup target s).0 ≡ true
      → Reaches threads (async_kill dup target s).1 (target.pid ∷ accepted) served
  refuse :
      {s : State} {accepted served : List ℕ} (dup : ℤ) (target : TargetProc)
      → Reaches threads s accepted served
      → (async_kill dup target s).0 ≡ false
      → Reaches threads (async_kill dup target s).1 accepted served
  take :
      {s u : State} {accepted served : List ℕ} {target : TargetProc}
      → Reaches threads s accepted served
      → dequeue_request s ≡ some (target, u)
      → Reaches threads u accepted served
  finish :
      {s : State} {accepted served : List ℕ} (before after : List TargetProc) (target : TargetProc)
      (signal_sent : Bool)
      → Reaches threads s accepted served
      → s.busy ≡ before ++ (target ∷ after)
      → Reaches threads
          (serve signal_sent target (record s { busy = before ++ after }))
          accepted
          (target.pid ∷ served)

abbrev pub count_pid : ℕ → List TargetProc → ℕ
count_pid q [] = 0
count_pid q (t ∷ ts) = (if t.pid == q then 1 else 0) + count_pid q ts

count_pid-append :
    (q : ℕ) (ts us : List TargetProc) → count_pid q (ts ++ us) ≡ count_pid q ts + count_pid q us
count_pid-append q [] us = omega arith
count_pid-append q (t ∷ ts) us = omega (arith, count_pid-append q ts us)

-- `active_requests` counts the requests in the queue and with the threads, and each request that was
-- accepted is in the queue, with a thread, or served, as often as it was accepted.
pub record Balanced (threads : ℕ) (s : State) (accepted served : List ℕ) : Type 0 where
  pub threads_same : s.thread_cnt ≡ threads
  pub active : s.active_requests ≡ pos (length s.queue + length s.busy)
  pub limited : length s.queue + length s.busy ≤ threads
  pub conserved :
      (q : ℕ) → count q accepted ≡ count_pid q s.queue + count_pid q s.busy + count q served

async_kill-refused :
    (dup : ℤ) (target : TargetProc) (s : State)
    → (async_kill dup target s).0 ≡ false
    → (async_kill dup target s).1 ≡ s
unfolding async_kill
async_kill-refused dup target s h = ground (arith, h)

List-cases :
    (ts : List TargetProc) → (ts ≡ []) ⊎ ((t : TargetProc) × (us : List TargetProc) × (ts ≡ t ∷ us))
List-cases [] = inl refl
List-cases (t ∷ us) = inr (t, us, refl)

-- What `dequeue_request` takes is the last request that came in.
dequeue_request_lem :
    (s u : State) (target : TargetProc)
    → dequeue_request s ≡ some (target, u)
    → (rest : List TargetProc) × (s.queue ≡ target ∷ rest)
      × (u ≡ record s { queue = rest; busy = target ∷ s.busy })
unfolding dequeue_request
dequeue_request_lem s u target h = elim (List-cases s.queue) [
  | inl e ↦ absurd (ground (arith, h, e))
  | inr (t, rest, e) ↦ (rest, ground (arith, h, e), ground (arith, h, e))
]

accept-Balanced :
    (threads : ℕ) (s : State) (accepted served : List ℕ) (dup : ℤ) (target : TargetProc)
    → Balanced threads s accepted served
    → (async_kill dup target s).0 ≡ true
    → Balanced threads (async_kill dup target s).1 (target.pid ∷ accepted) served
unfolding async_kill
accept-Balanced threads s accepted served dup target b h = record {
  threads_same = ground (arith, h, b.threads_same);
  active = ground (arith, h, b.active, +ℤ_parts s.active_requests (pos 1));
  limited = ground (arith, h, b.limited, b.active, b.threads_same);
  conserved = λ q. ground (arith, h, b.conserved q);
}

take-Balanced :
    (threads : ℕ) (s u : State) (accepted served : List ℕ) (target : TargetProc)
    → Balanced threads s accepted served
    → dequeue_request s ≡ some (target, u)
    → Balanced threads u accepted served
unfolding dequeue_request
take-Balanced threads s u accepted served target b h =
    let (rest, e, f) = dequeue_request_lem s u target h in
    rw f (record {
      threads_same = b.threads_same;
      active = ground (arith, b.active, e);
      limited = ground (arith, b.limited, e);
      conserved = λ q. ground (arith, b.conserved q, e);
    })

finish-Balanced :
    (threads : ℕ) (s : State) (accepted served : List ℕ) (before after : List TargetProc)
    (target : TargetProc) (signal_sent : Bool)
    → Balanced threads s accepted served
    → s.busy ≡ before ++ (target ∷ after)
    → Balanced threads
        (serve signal_sent target (record s { busy = before ++ after }))
        accepted
        (target.pid ∷ served)
unfolding serve request_complete notify_kill_failure
finish-Balanced threads s accepted served before after target signal_sent b h = record {
  threads_same = ground (arith, b.threads_same);
  active = ground (
    arith,
    b.active,
    h,
    length-append before (target ∷ after),
    length-append before after,
    -ℤ_parts s.active_requests (pos 1),
  );
  limited =
      ground
        (arith, b.limited, h, length-append before (target ∷ after), length-append before after);
  conserved = λ q. ground (
    arith,
    b.conserved q,
    h,
    count_pid-append q before (target ∷ after),
    count_pid-append q before after,
  );
}

-- In every state that the threads and the main thread can bring about, in any order of their steps,
-- `active_requests` is the number of requests in the queue and with the threads, that number is at
-- most the number of threads, and every accepted request is served, in the queue or with a thread,
-- as many times as it was accepted: none is lost and none is served twice.
pub Reaches-Balanced :
    (threads : ℕ) (s : State) (accepted served : List ℕ)
    → Reaches threads s accepted served
    → Balanced threads s accepted served
Reaches-Balanced threads _ _ _ at_start = record {
  threads_same = refl;
  active = refl;
  limited = omega arith;
  conserved = λ q. refl;
}
Reaches-Balanced threads _ _ _ (accept {s} {accepted} {served} dup target r h) =
    accept-Balanced threads s accepted served dup target
      (Reaches-Balanced threads s accepted served r) h
Reaches-Balanced threads _ _ _ (refuse {s} {accepted} {served} dup target r h) =
    rw (async_kill-refused dup target s h) (Reaches-Balanced threads s accepted served r)
Reaches-Balanced threads _ _ _ (take {s} {u} {accepted} {served} {target} r h) =
    take-Balanced threads s u accepted served target (Reaches-Balanced threads s accepted served r)
      h
Reaches-Balanced threads _ _ _
      (finish {s} {accepted} {served} before after target signal_sent r h) =
    finish-Balanced threads s accepted served before after target signal_sent
      (Reaches-Balanced threads s accepted served r) h
