-- ===== src/Polling/Window.antt =====
-- lmkd.cpp: how polling starts, pauses, resumes and ends over several calls of `call_handler`.
use android_system_memory_lm.Base.{
  ◌≡◌, refl, arith, none, some, true, false, ◌&&◌, if◌then◌else◌, ℤ, ltb_ℤ,
}
use android_system_memory_lm.Polling.{
  Timespec, get_time_diff_ms, Handler, vmpressure, other, PollingUpdate, do_not_change, start,
  pause, resume, PollingParams, call_handler, apply_update, same_handler, resume_polling,
  polling_paused, is_polling, psi_poll_period_short_ms,
}

-- A handler that sets `update` alone.
abbrev pub asks_for : PollingUpdate → PollingParams → PollingParams
asks_for u p = record p { update = u }

-- A handler that pauses polling and a later one that resumes it, as the notification of a death does,
-- leave polling with the handler that paused it, not paused, at the short interval, and with a window
-- that starts at the later time.
call_handler-resume :
    (window : ℤ) (t₁ t₂ : Timespec) (h notified : Handler) (p : PollingParams)
    → let paused = (call_handler (asks_for pause) window t₁ h p).0 in
      let resumed = (call_handler (asks_for resume) window t₂ notified paused).0 in
      (paused.poll_handler ≡ none)
      × (polling_paused paused ≡ true)
      × (resumed.poll_handler ≡ some h)
      × (polling_paused resumed ≡ false)
      × (resumed.poll_start_tm ≡ t₂)
      × (resumed.polling_interval_ms ≡ psi_poll_period_short_ms)
unfolding call_handler apply_update resume_polling polling_paused
call_handler-resume window t₁ t₂ h notified p = (refl, refl, refl, refl, refl, refl)

-- A call of a handler that asks for nothing ends polling, and resets the boost of the watermarks, just
-- when there is polling and its window has been over at the time the handler returns; otherwise the
-- polled handler stays.
call_handler-window :
    (window : ℤ) (tm : Timespec) (h : Handler) (p : PollingParams)
    → let over = is_polling p && ltb_ℤ window (get_time_diff_ms p.poll_start_tm tm) in
      ((call_handler (asks_for do_not_change) window tm h p).1 ≡ over)
      × ((call_handler (asks_for do_not_change) window tm h p).0.poll_handler
          ≡ (if over then none else p.poll_handler))
unfolding call_handler apply_update
call_handler-window window tm h p = ground arith

same_handler_refl : (h : Handler) → same_handler h h ≡ true
unfolding same_handler
same_handler_refl (vmpressure level) = ground arith
same_handler_refl (other n) = ground arith

-- A pressure event that asks for polling is polled from then on with its own handler, whatever was
-- polled before, and the window starts at that time.
call_handler-start :
    (window : ℤ) (t₁ t₂ : Timespec) (h : Handler) (p : PollingParams)
    → ltb_ℤ window (get_time_diff_ms t₁ t₂) ≡ false
    → let started = (call_handler (asks_for start) window t₁ h p).0 in
      let later = (call_handler (asks_for do_not_change) window t₂ h started).0 in
      (started.poll_handler ≡ some h) × (later.poll_handler ≡ some h) × (later.last_poll_tm ≡ t₂)
unfolding call_handler apply_update same_handler
call_handler-start window t₁ t₂ h p within = rw (same_handler_refl h, within) (refl, refl, refl)
