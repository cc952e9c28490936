-- ===== src/Polling.antt =====
-- lmkd.cpp: times, `struct polling_params`, and the dispatch of one handler by `call_handler`.
-- A handler is known by the address of its `event_handler_info`: one for each pressure level, and
-- one for every other source of events.
pub mod Time
pub mod Window
pub mod Loop
pub use Time.{Timespec, Level, low, medium, critical, super_critical}
unfoldable pub use Time.{get_time_diff_ms, level_number}
use android_system_memory_lm.Base.{
  ℕ, ◌+◌, ◌-◌, ◌*◌, ◌/◌, Option, none, some, Bool, true, false, ◌&&◌, not, ltb, leb, ◌==◌,
  if◌then◌else◌, ℤ, pos, negsuc, ltb_ℤ, leb_ℤ, ◌-ℤ◌,
}

pub data Handler : Type 0 where
  vmpressure : Level → Handler
  -- The other handlers: control and data sockets, kill notifications, kernel events.
  other : ℕ → Handler

-- Are two `event_handler_info` the same one?
unfoldable pub same_handler : Handler → Handler → Bool
unfolding level_number
same_handler (vmpressure a) (vmpressure b) = level_number a == level_number b
same_handler (other a) (other b) = a == b
same_handler (vmpressure a) (other b) = false
same_handler (other a) (vmpressure b) = false

pub data PollingUpdate : Type 0 where
  do_not_change start crit_upgrade pause resume : PollingUpdate

pub record PollingParams : Type 0 where
  pub poll_handler : Option Handler
  pub paused_handler : Option Handler
  pub poll_start_tm : Timespec
  pub last_poll_tm : Timespec
  pub polling_interval_ms : ℤ
  pub update : PollingUpdate

abbrev pub psi_poll_period_short_ms : ℤ
psi_poll_period_short_ms = pos 10

abbrev pub psi_poll_period_long_ms : ℤ
psi_poll_period_long_ms = pos 100

unfoldable pub polling_paused : PollingParams → Bool
polling_paused p = elim p.paused_handler [ none ↦ false | some h ↦ true ]

unfoldable pub resume_polling : Timespec → PollingParams → PollingParams
resume_polling curr_tm p = record p {
  poll_start_tm = curr_tm;
  poll_handler = p.paused_handler;
  polling_interval_ms = psi_poll_period_short_ms;
  paused_handler = none;
}

abbrev is_handler : Option Handler → Handler → Bool
is_handler none h = false
is_handler (some g) h = same_handler g h

abbrev pub is_polling : PollingParams → Bool
is_polling p = elim p.poll_handler [ none ↦ false | some h ↦ true ]

-- Case POLLING_CRIT_UPGRADE: only a pressure handler asks for it.
unfoldable pub upgrade : Handler → Option Handler → Option Handler
upgrade (vmpressure super_critical) old = old
upgrade (vmpressure level) old = some (vmpressure critical)
upgrade (other n) old = old

-- The `switch` of `call_handler`. The second part of the result says whether `wbf_effective` is set
-- back to `wmark_boost_factor`.
unfoldable pub apply_update :
    PollingUpdate → ℤ → Timespec → Handler → PollingParams → PollingParams × Bool
unfolding resume_polling upgrade
apply_update start window_ms curr_tm h p =
    (record p { poll_start_tm = curr_tm; poll_handler = some h }, false)
apply_update pause window_ms curr_tm h p =
    (record p { paused_handler = some h; poll_handler = none }, false)
apply_update resume window_ms curr_tm h p = (resume_polling curr_tm p, false)
apply_update do_not_change window_ms curr_tm h p =
    if is_polling p && ltb_ℤ window_ms (get_time_diff_ms p.poll_start_tm curr_tm)
    then (record p { poll_handler = none; paused_handler = none }, true)
    else (p, false)
apply_update crit_upgrade window_ms curr_tm h p =
    (record p { poll_start_tm = curr_tm; poll_handler = upgrade h p.poll_handler }, false)

-- `call_handler`, with what the handler does to the parameters as a function, and the time at which
-- it returns. The watchdog runs from before the handler until after the `switch`.
unfoldable pub call_handler :
    (PollingParams → PollingParams) → ℤ → Timespec → Handler → PollingParams → PollingParams × Bool
unfolding same_handler apply_update
call_handler handler window_ms curr_tm h p =
    let after = handler (record p { update = do_not_change }) in
    let timed = record after {
      last_poll_tm = if is_handler after.poll_handler h then curr_tm else after.last_poll_tm;
    } in
    apply_update timed.update window_ms curr_tm h timed

-- The clock of `check_cont_lmkd_events`: its three static times.
pub record ContState : Type 0 where
  pub tmed : Timespec
  pub tcrit : Timespec
  pub tupgrad : Timespec
  pub count_upgraded_event : ℕ
  pub last_event_upgraded : Bool

abbrev store_event : Level → Timespec → ContState → Timespec × ContState
store_event medium now s = (s.tmed, record s { tmed = now })
store_event lvl now s = (s.tcrit, record s { tcrit = now })

-- `(psi_window_size_ms * 3) >> 1`, for a window that is not negative.
unfoldable pub check_cont_lmkd_events : ℕ → Level → Timespec → ContState → ContState
check_cont_lmkd_events psi_window_size_ms lvl now s =
    let (prev, s') = store_event lvl now s in
    if ltb_ℤ (get_time_diff_ms prev now) (pos (psi_window_size_ms * 3 / 2))
    then (if ltb_ℤ (pos psi_window_size_ms) (get_time_diff_ms s'.tupgrad now)
        then (if s'.last_event_upgraded
            then record s' {
              count_upgraded_event = s'.count_upgraded_event + 1;
              last_event_upgraded = false;
              tupgrad = now;
            }
            else record s' { count_upgraded_event = 0 })
        else s')
    else record s' { count_upgraded_event = 0 }
