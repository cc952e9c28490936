-- ===== src/Polling/Loop.antt =====
-- lmkd.cpp: how long `mainloop` waits for events, and whether it polls then.
use android_system_memory_lm.Base.{
  ℕ, ◌≡◌, arith, Bool, true, false, ◌&&◌, not, ◌==◌, if◌then◌else◌, ℤ, pos, ltb_ℤ, leb_ℤ, ◌<ℤ◌,
  ◌≤ℤ◌, ◌+ℤ◌, ◌-ℤ◌, +ℤ_parts, -ℤ_parts,
}
use android_system_memory_lm.Polling.{
  Timespec, get_time_diff_ms, PollingUpdate, resume, start, do_not_change, pause, crit_upgrade,
  PollingParams, is_polling,
}

-- The argument of `epoll_wait`, or no call of it.
pub data Wait : Type 0 where
  no_wait forever : Wait
  milliseconds : ℤ → Wait

unfoldable pub is_resume : PollingUpdate → Bool
is_resume resume = true
is_resume start = false
is_resume do_not_change = false
is_resume pause = false
is_resume crit_upgrade = false

-- The time until the next poll.
unfoldable pub poll_delay : Timespec → PollingParams → ℤ
poll_delay now p =
    let delay = get_time_diff_ms p.last_poll_tm now in
    if ltb_ℤ delay p.polling_interval_ms
    then p.polling_interval_ms -ℤ delay
    else p.polling_interval_ms

-- The wait at the head of the loop. The last two arguments say whether a kill is waited for, and when
-- it was done.
unfoldable pub next_wait : ℕ → Timespec → PollingParams → Bool → Timespec → Wait
unfolding is_resume poll_delay
next_wait kill_timeout_ms now p waiting last_kill_tm =
    if is_polling p
    then (if is_resume p.update then no_wait else milliseconds (poll_delay now p))
    else if not (kill_timeout_ms == 0) && waiting
    then (let delay = pos kill_timeout_ms -ℤ get_time_diff_ms last_kill_tm now in
        if ltb_ℤ (pos 0) delay then milliseconds delay else no_wait)
    else forever

-- `poll_now`, at the time after the wait.
unfoldable pub poll_now : Timespec → PollingParams → Bool
unfolding is_resume
poll_now now p =
    if is_resume p.update
    then true
    else leb_ℤ p.polling_interval_ms (get_time_diff_ms p.last_poll_tm now)

-- With a positive interval, and a last poll that is not in the future, the delay until the next poll
-- is positive and at most the interval, so `epoll_wait` is never asked to wait for ever.
pub poll_delay_bounds :
    (now : Timespec) (p : PollingParams)
    → pos 0 <ℤ p.polling_interval_ms
    → pos 0 ≤ℤ get_time_diff_ms p.last_poll_tm now
    → (pos 0 <ℤ poll_delay now p) × (poll_delay now p ≤ℤ p.polling_interval_ms)
unfolding poll_delay
poll_delay_bounds now p h k =
    ground (arith, h, k, -ℤ_parts p.polling_interval_ms (get_time_diff_ms p.last_poll_tm now))

-- If the next poll was not yet due when the wait began, and the clock has gone on by at least the
-- delay when it is over, then the handler is polled.
poll_now-delay :
    (now later : Timespec) (p : PollingParams)
    → get_time_diff_ms p.last_poll_tm now <ℤ p.polling_interval_ms
    → get_time_diff_ms p.last_poll_tm now +ℤ poll_delay now p
      ≤ℤ get_time_diff_ms p.last_poll_tm later
    → poll_now later p ≡ true
unfolding poll_delay poll_now
poll_now-delay now later p h k = ground (
  arith,
  h,
  k,
  -ℤ_parts p.polling_interval_ms (get_time_diff_ms p.last_poll_tm now),
  +ℤ_parts (get_time_diff_ms p.last_poll_tm now)
      (p.polling_interval_ms -ℤ get_time_diff_ms p.last_poll_tm now),
)
