-- ===== src/Reaper.antt =====
-- reaper.cpp and reaper.h: the queue of kill requests and the threads that serve it.
-- Each function that takes the mutex is one step. The queue is a vector used from its back, which is
-- the head of the list here. `busy` holds what the threads have taken and not yet completed.
pub mod Requests
use android_system_memory_lm.Base.{
  ℕ, zero, suc, ◌+◌, List, [], ◌∷◌, Option, none, some, Bool, true, false, ◌&&◌, ◌||◌, not, ◌==◌,
  if◌then◌else◌, ℤ, pos, negsuc, ltb_ℤ, leb_ℤ, eqb_ℤ, ◌+ℤ◌, ◌-ℤ◌,
}

-- `struct target_proc`.
pub record TargetProc : Type 0 where
  pub pidfd : ℤ
  pub pid : ℕ
  pub uid : ℕ

pub record State : Type 0 where
  pub thread_cnt : ℕ
  pub active_requests : ℤ
  pub queue : List TargetProc
  pub busy : List TargetProc
  -- What went into the pipe to the main thread, and the descriptors that were closed.
  pub failures : List ℕ
  pub closed : List ℤ

-- The result of `dup` is the first argument.
unfoldable pub async_kill : ℤ → TargetProc → State → Bool × State
async_kill dup target s =
    if eqb_ℤ target.pidfd (negsuc 0)
    then (false, s)
    else if s.thread_cnt == 0
    then (false, s)
    else if leb_ℤ (pos s.thread_cnt) s.active_requests
    then (false, s)
    else (
      true,
      record s {
        active_requests = s.active_requests +ℤ pos 1;
        queue = record { pidfd = dup; pid = target.pid; uid = target.uid } ∷ s.queue;
      },
    )

-- How a kill is done: by `kill`, by a thread, or by the caller with the pidfd. The results of the two
-- system calls are the first arguments.
unfoldable pub kill : ℤ → ℤ → ℤ → TargetProc → Bool → State → ℤ × State
unfolding async_kill
kill kill_result signal_result dup target synchronous s =
    if ltb_ℤ target.pidfd (pos 0)
    then (kill_result, s)
    else let (queued, s') = if synchronous then (false, s) else async_kill dup target s in
      if queued then (pos 0, s') else (signal_result, s')

-- `none` where the thread goes on waiting.
unfoldable pub dequeue_request : State → Option (TargetProc × State)
dequeue_request s = elim s.queue [
  | [] ↦ none
  | target ∷ queue ↦ some (target, record s { queue = queue; busy = target ∷ s.busy })
]

unfoldable pub request_complete : State → State
request_complete s = record s { active_requests = s.active_requests -ℤ pos 1 }

unfoldable pub notify_kill_failure : ℕ → State → State
notify_kill_failure pid s = record s { failures = pid ∷ s.failures }

-- The body of the loop of `reaper_main` after the request was taken, by whether the signal was sent.
-- The priority of the target and the release of its memory change nothing that the daemon keeps.
unfoldable pub serve : Bool → TargetProc → State → State
unfolding request_complete notify_kill_failure
serve signal_sent target s =
    let s' = if signal_sent then s else notify_kill_failure target.pid s in
    request_complete (record s' { closed = target.pidfd ∷ s'.closed })

-- `init`, by the number of threads that could be created.
unfoldable pub init : ℕ → State → Bool × State
init created s =
    if not (s.thread_cnt == 0)
    then (false, s)
    else (not (created == 0), record s { thread_cnt = created })
