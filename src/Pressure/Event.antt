-- ===== src/Pressure/Event.antt =====
-- lmkd.cpp: `mp_event_psi` as a whole. The event of /proc/pressure/memory is known by its level and by
-- whether it came from the kernel (`events` is not 0) or from polling. The update of the preferred
-- apps is known by its time alone, and the messages to the log are left out.
use android_system_memory_lm.Base.{
  ℕ, ◌+◌, List, Option, none, some, Bool, true, false, ◌&&◌, ◌||◌, not, leb, ◌==◌, if◌then◌else◌, ℤ,
  pos, ltb_ℤ, leb_ℤ,
}
use android_system_memory_lm.Text.{Bytes}
use android_system_memory_lm.Polling.{
  Timespec, get_time_diff_ms, Level, level_number, Handler, vmpressure, other, PollingParams, pause,
  start, crit_upgrade, psi_poll_period_short_ms, psi_poll_period_long_ms,
}
use android_system_memory_lm.Kill
use android_system_memory_lm.Kill.{
  is_kill_pending, is_waiting_for_kill, stop_wait_for_proc_kill, find_and_kill_process,
}
use android_system_memory_lm.Pressure.{
  Config, State, Vmstat, Meminfo, Zoneinfo, no_reason, ReclaimState, no_reclaim, record_wakeup_time,
  check_swap,
}
use android_system_memory_lm.Pressure.Decide.{Decision, is_direct, is_throttled, has_reason}
use android_system_memory_lm.Pressure.Reclaim.{
  Reclaim, fill_log_pgskip_stats, reset_after_kill, check_compaction, identify_reclaim,
  measure_thrashing,
}
use android_system_memory_lm.Pressure.Evaluate.{
  lower_boost, Locals, Evaluation, failed, undefined, decided, evaluate, after_kill,
}

-- What is read during one event. The zones and the full stall of memory, `avg10` in hundredths of a
-- percent, are read once more before the first kill.
pub record Readings : Type 0 where
  pub curr_tm : Option Timespec
  pub vmstat : Option Vmstat
  pub meminfo : Option Meminfo
  pub zoneinfo : Bool → Option Zoneinfo
  pub full_avg10 : Bool → Option ℤ

-- What one event works on.
pub record World : Type 0 where
  pub state : State
  pub kills : Kill.State
  pub params : PollingParams

-- `data` of a handler. Only handlers of pressure levels are ever polled.
unfoldable pub handler_data : Handler → ℕ
handler_data (vmpressure level) = level_number level
handler_data (other n) = 0

abbrev pub is_as_urgent : Level → PollingParams → Bool
is_as_urgent level p = elim p.poll_handler [
  | none ↦ true
  | some h ↦ leb (handler_data h) (level_number level)
]

unfoldable pub update_preferred : Config → Timespec → State → State
update_preferred config tm s =
    if config.enable_preferred_apps
      && leb_ℤ config.pa_update_timeout_ms (get_time_diff_ms s.last_pa_update_tm tm)
    then record s { last_pa_update_tm = tm }
    else s

unfoldable pub skip_wakeup : State → State
skip_wakeup s =
    let wi = s.wi in record s { wi = record wi { skipped_wakeups = wi.skipped_wakeups + 1 } }

-- An event of the kernel, no less urgent than the one that is polled, raises the factor.
unfoldable pub raise_boost : Config → Level → Bool → PollingParams → State → State
raise_boost config level is_event p s =
    if is_event && is_as_urgent level p
    then record s { wbf_effective = config.wmark_boost_factor }
    else s

unfoldable pub wake_up : Config → Timespec → Level → Bool → State → State
unfolding record_wakeup_time update_preferred
wake_up config tm level is_event s =
    let s' = record s { wi = record_wakeup_time tm is_event s.wi } in
    if level_number level == 1 then update_preferred config tm s' else s'

-- The label `no_kill`, with the local variables that it reads.
unfoldable pub start_polling : Config → Level → State → PollingParams → State × PollingParams
unfolding lower_boost
start_polling config level s p =
    if leb_ℤ config.psi_cont_event_thresh s.count_upgraded_event
    then (record s { count_upgraded_event = pos 0 }, record p { update = crit_upgrade })
    else if is_as_urgent level p
    then (if s.killing then s else lower_boost config s, record p { update = start })
    else (s, p)

unfoldable pub polling_interval : Config → Level → Bool → State → ℤ
polling_interval config level swap_is_low s =
    if swap_is_low || s.killing
    then psi_poll_period_short_ms
    else if level_number level == 3
    then config.psi_poll_period_scrit_ms
    else psi_poll_period_long_ms

unfoldable pub no_kill : Config → Kill.Config → Level → Bool → ReclaimState → Bool → World → World
unfolding start_polling polling_interval
no_kill config kill_config level is_event reclaim swap_is_low w =
    if is_waiting_for_kill kill_config w.kills
    then (let p = w.params in record w { params = record p { update = pause } })
    else let (s, p) =
        if is_event || w.state.killing || is_direct reclaim || is_throttled reclaim
        then start_polling config level w.state w.params
        else (w.state, w.params) in
      record w {
        state = s;
        params = record p { polling_interval_ms = polling_interval config level swap_is_low s };
      }

module _ (config : Config) (host : Kill.Host) (kill_config : Kill.Config) where
  unfoldable pub kill_for : Timespec → Decision → Bool → World → World
  unfolding after_kill
  kill_for tm d stall w =
      let min_score_adj = if stall then 0 else d.min_score_adj in
      let (pages_freed, kills) = find_and_kill_process host kill_config tm min_score_adj w.kills in
      record w {
        kills = kills;
        state = if ltb_ℤ (pos 0) pages_freed then after_kill config d w.state else w.state;
      }

module _ (config : Config) (field_names : List Bytes) (host : Kill.Host) (kill_config : Kill.Config)
    (readings : Readings) where
  -- A kill for a decision that was made, and the end of the event.
  unfoldable pub kill_and_finish : Timespec → Locals → Decision → Bool → World → World
  unfolding kill_for no_kill
  kill_and_finish tm l d stall w =
      no_kill config kill_config l.level l.is_event l.reclaim.reclaim l.swap_is_low
        (if has_reason d.kill_reason then kill_for config host kill_config tm d stall w else w)

  -- What follows the second decision, which the state `s` went into. `none` is a read past the end
  -- of the deltas.
  unfoldable pub act_again : Timespec → Locals → World → Evaluation → Option World
  unfolding kill_and_finish
  act_again tm l w failed = some w
  act_again tm l w undefined = none
  act_again tm l w (decided d stall s) =
      some (kill_and_finish tm l d stall (record w { state = s }))

  -- What follows the first decision. Before the first kill it is made once more, from what the first
  -- one has left in the variables.
  unfoldable pub act : Timespec → Locals → World → Evaluation → Option World
  unfolding evaluate act_again
  act tm l w failed = some w
  act tm l w undefined = none
  act tm l w (decided d stall s) =
      if has_reason d.kill_reason && s.first_kill
      then (let again = record s { first_kill = false } in
          act_again tm l (record w { state = again })
            (evaluate config field_names l (readings.zoneinfo true) (readings.full_avg10 true) d
              stall again))
      else some (kill_and_finish tm l d stall (record w { state = s }))

  unfoldable pub decide_and_kill : Timespec → Locals → World → Option World
  unfolding act
  decide_and_kill tm l w =
      let initial : Decision = record {
        kill_reason = no_reason;
        min_score_adj = 0;
        cut_thrashing_limit = false;
        check_filecache = w.state.check_filecache;
      } in
      act tm l w (
        evaluate config field_names l (readings.zoneinfo false) (readings.full_avg10 false) initial
          false w.state)

  -- From the state of the reclaim to the decision. Nothing is done where nothing is reclaimed,
  -- refaulted or compacted.
  unfoldable pub with_reclaim :
      Timespec → Level → Bool → Vmstat → Meminfo → Bool → Bool → Reclaim → World → Option World
  unfolding decide_and_kill no_kill update_preferred
  with_reclaim tm level is_event vs mi cycle_after_kill in_compaction r w =
      let s = if r.is_quiet then update_preferred config tm w.state else w.state in
      if r.is_quiet && not in_compaction
      then some (
          no_kill config kill_config level is_event r.reclaim (check_swap config mi)
            (record w { state = s }))
      else let (thrashing, s') = measure_thrashing config vs tm s in
        let l : Locals = record {
          level = level;
          is_event = is_event;
          cycle_after_kill = cycle_after_kill;
          reclaim = r;
          swap_is_low = check_swap config mi;
          in_compaction = in_compaction;
          thrashing = thrashing;
          vmstat = vs;
          meminfo = mi;
        } in
        decide_and_kill tm l (record w { state = s' })

  -- From the counters on.
  unfoldable pub with_counters : Timespec → Level → Bool → Vmstat → Meminfo → World → Option World
  unfolding with_reclaim
  with_counters tm level is_event vs mi w =
      let s₁ = reset_after_kill vs tm w.state in
      let deltas = fill_log_pgskip_stats s₁.mglru_status vs.pgskip s₁.init_pgskip in
      let (in_compaction, s₂) = check_compaction vs s₁ in
      let (r, s₃) = identify_reclaim config vs tm deltas s₂ in
      with_reclaim tm level is_event vs mi w.state.killing in_compaction r (record w { state = s₃ })

  -- Is the last kill still to be waited for?
  unfoldable pub is_kill_in_progress : Timespec → Kill.State → Bool
  is_kill_in_progress tm k =
      is_kill_pending host kill_config k
      && (config.kill_timeout_ms == 0
          || ltb_ℤ (get_time_diff_ms k.last_kill_tm tm) (pos config.kill_timeout_ms))

  -- From the wait for the last kill on.
  unfoldable pub with_time : Timespec → Level → Bool → World → Option World
  unfolding with_counters no_kill is_kill_in_progress skip_wakeup
  with_time tm level is_event w =
      if is_kill_in_progress tm w.kills
      then some (
          no_kill config kill_config level is_event no_reclaim false
            (record w { state = skip_wakeup w.state }))
      else let w' = record w { kills = stop_wait_for_proc_kill kill_config w.kills } in
        elim readings.vmstat [
          | none ↦ some w'
          | some vs ↦ elim readings.meminfo [
            | none ↦ some w'
            | some mi ↦ with_counters tm level is_event vs mi w'
          ]
        ]

  unfoldable pub mp_event_psi : Level → Bool → World → Option World
  unfolding with_time raise_boost wake_up
  mp_event_psi level is_event w =
      let s = raise_boost config level is_event w.params w.state in
      elim readings.curr_tm [
        | none ↦ some (record w { state = s })
        | some tm ↦
            with_time tm level is_event (record w { state = wake_up config tm level is_event s })
      ]
