-- ===== src/Pressure/Boost.antt =====
-- lmkd.cpp: the range of `wbf_effective`, the factor by which the watermarks are raised.
use android_system_memory_lm.Base.{
  ◌≡◌, inl, inr, refl, arith, List, Bool, true, false, ◌&&◌, not, if◌then◌else◌, pos, Bool-cases,
  Option-cases, ◌≤ℤ◌,
}
use android_system_memory_lm.Text.{Bytes}
use android_system_memory_lm.Polling.{PollingParams, Timespec, Level}
use android_system_memory_lm.Kill
use android_system_memory_lm.Kill.{is_waiting_for_kill, is_kill_pending, find_and_kill_process}
use android_system_memory_lm.Pressure.{check_swap, Config, State, Vmstat, Meminfo, no_reclaim}
use android_system_memory_lm.Pressure.Decide.{Decision, has_reason}
use android_system_memory_lm.Pressure.Reclaim.{
  Reclaim, reset_after_kill, check_compaction, measure_thrashing,
}
use android_system_memory_lm.Pressure.Evaluate.{Locals, Evaluation, failed, undefined, decided}
use android_system_memory_lm.Pressure.Event.{
  Readings, World, update_preferred, kill_and_finish, act_again, act, raise_boost, wake_up,
  with_reclaim, is_kill_in_progress, skip_wakeup, decide_and_kill, with_counters, with_time,
  mp_event_psi,
}
use android_system_memory_lm.Pressure.Factor.{
  InRange, Ends, Keeps, no_kill-InRange, kill_for-InRange, reset-wbf, compaction-wbf, reclaim-wbf,
  preferred-wbf, thrashing-wbf, evaluate-Keeps,
}

module _ (config : Config) (boosts : pos 1 ≤ℤ config.wmark_boost_factor)
    (steps : pos 0 ≤ℤ config.wbf_step) where
  module _ (field_names : List Bytes) (host : Kill.Host) (kill_config : Kill.Config)
      (readings : Readings) where
    kill_and_finish-InRange :
        (tm : Timespec) (l : Locals) (d : Decision) (stall : Bool) (w : World)
        → InRange config w.state
        → InRange config
            (kill_and_finish config field_names host kill_config readings tm l d stall w).state
    unfolding kill_and_finish
    kill_and_finish-InRange tm l d stall w h = elim (Bool-cases (has_reason d.kill_reason)) [
      | inl e ↦ rw e (
          no_kill-InRange config boosts steps kill_config _ _ _ _ _
            (kill_for-InRange config boosts steps host kill_config tm d stall w h))
      | inr e ↦ rw e (no_kill-InRange config boosts steps kill_config _ _ _ _ _ h)
    ]

    act_again-InRange :
        (tm : Timespec) (l : Locals) (w : World) (e : Evaluation)
        → InRange config w.state
        → Keeps config boosts steps w.state e
        → Ends
            (λ u. InRange config u.state)
            (act_again config field_names host kill_config readings tm l w e)
    unfolding act_again
    act_again-InRange tm l w failed h k = h
    act_again-InRange tm l w undefined h k = refl
    act_again-InRange tm l w (decided d stall s) h k =
        kill_and_finish-InRange tm l d stall (record w { state = s }) (rw k h)

    act-InRange :
        (tm : Timespec) (l : Locals) (w : World) (e : Evaluation)
        → InRange config w.state
        → Keeps config boosts steps w.state e
        → Ends
            (λ u. InRange config u.state)
            (act config field_names host kill_config readings tm l w e)
    unfolding act
    act-InRange tm l w failed h k = h
    act-InRange tm l w undefined h k = refl
    act-InRange tm l w (decided d stall s) h k =
        let h' : InRange config s = rw k h in
        let again = record s { first_kill = false } in
        elim (Bool-cases (has_reason d.kill_reason && s.first_kill)) [
          | inl e ↦
              rw (act, e)
                (act_again-InRange tm l (record w { state = again }) _ h'
                  (evaluate-Keeps config boosts steps field_names l (readings.zoneinfo true)
                    (readings.full_avg10 true) d stall again))
          | inr e ↦ rw (act, e) (kill_and_finish-InRange tm l d stall (record w { state = s }) h')
        ]

    decide_and_kill-InRange :
        (tm : Timespec) (l : Locals) (w : World)
        → InRange config w.state
        → Ends
            (λ u. InRange config u.state)
            (decide_and_kill config field_names host kill_config readings tm l w)
    unfolding decide_and_kill
    decide_and_kill-InRange tm l w h = act-InRange tm l w _ h (
        evaluate-Keeps config boosts steps field_names l (readings.zoneinfo false)
          (readings.full_avg10 false) _ false w.state)

    with_reclaim-InRange :
        (tm : Timespec) (level : Level) (is_event : Bool) (vs : Vmstat) (mi : Meminfo)
        (cycle in_compaction : Bool) (r : Reclaim) (w : World)
        → InRange config w.state
        → Ends
            (λ u. InRange config u.state)
            (with_reclaim config field_names host kill_config readings tm level is_event vs mi cycle
              in_compaction r w)
    unfolding with_reclaim
    with_reclaim-InRange tm level is_event vs mi cycle in_compaction r w h =
        let s = if r.is_quiet then update_preferred config tm w.state else w.state in
        let same : s.wbf_effective ≡ w.state.wbf_effective =
          ground (arith, preferred-wbf config boosts steps tm w.state) in
        elim (Bool-cases (r.is_quiet && not in_compaction)) [
          | inl e ↦
              rw (with_reclaim, e)
                (no_kill-InRange config boosts steps kill_config _ _ _ _ _ (rw same h))
          | inr e ↦
              rw (with_reclaim, e)
                (decide_and_kill-InRange tm
                  (record {
                    level = level;
                    is_event = is_event;
                    cycle_after_kill = cycle;
                    reclaim = r;
                    swap_is_low = check_swap config mi;
                    in_compaction = in_compaction;
                    thrashing = (measure_thrashing config vs tm s).0;
                    vmstat = vs;
                    meminfo = mi;
                  })
                  (record w { state = (measure_thrashing config vs tm s).1 })
                  (rw (thrashing-wbf config boosts steps vs tm s, same) h))
        ]

    with_counters-InRange :
        (tm : Timespec) (level : Level) (is_event : Bool) (vs : Vmstat) (mi : Meminfo) (w : World)
        → InRange config w.state
        → Ends
            (λ u. InRange config u.state)
            (with_counters config field_names host kill_config readings tm level is_event vs mi w)
    unfolding with_counters
    with_counters-InRange tm level is_event vs mi w h =
        let s₁ = reset_after_kill vs tm w.state in
        let s₂ = (check_compaction vs s₁).1 in
        with_reclaim-InRange tm level is_event vs mi _ _ _ _ (
          rw
            (
              reclaim-wbf config boosts steps vs tm _ s₂,
              compaction-wbf config boosts steps vs s₁,
              reset-wbf config boosts steps vs tm w.state,
            )
            h)

    with_time-InRange :
        (tm : Timespec) (level : Level) (is_event : Bool) (w : World)
        → InRange config w.state
        → Ends
            (λ u. InRange config u.state)
            (with_time config field_names host kill_config readings tm level is_event w)
    unfolding with_time skip_wakeup
    with_time-InRange tm level is_event w h =
        elim (Bool-cases
          (is_kill_in_progress config field_names host kill_config readings tm w.kills)) [
            | inl e ↦
                rw (with_time, e)
                  (no_kill-InRange config boosts steps kill_config level is_event no_reclaim false
                    (record w { state = skip_wakeup w.state }) h)
            | inr e ↦ elim (Option-cases readings.vmstat) [
              | inl no_vmstat ↦ rw (with_time, e, no_vmstat) h
              | inr (vs, v) ↦ elim (Option-cases readings.meminfo) [
                | inl no_meminfo ↦ rw (with_time, e, v, no_meminfo) h
                | inr (mi, m) ↦
                    rw (with_time, e, v, m) (with_counters-InRange tm level is_event vs mi _ h)
              ]
            ]
          ]

    raise_boost-InRange :
        (level : Level) (is_event : Bool) (p : PollingParams) (s : State)
        → InRange config s
        → InRange config (raise_boost config level is_event p s)
    unfolding raise_boost
    raise_boost-InRange level is_event p s h = ground (arith, h, boosts)

    wake_up-wbf :
        (tm : Timespec) (level : Level) (is_event : Bool) (s : State)
        → (wake_up config tm level is_event s).wbf_effective ≡ s.wbf_effective
    unfolding wake_up update_preferred
    wake_up-wbf tm level is_event s = ground arith

    -- If the factor is in its range, and the configured one is at least 1 and its step not negative,
    -- then the factor is in its range after every event that reads no delta outside the array,
    -- whatever else was read and killed.
    pub mp_event_psi-InRange :
        (level : Level) (is_event : Bool) (w : World)
        → InRange config w.state
        → Ends
            (λ u. InRange config u.state)
            (mp_event_psi config field_names host kill_config readings level is_event w)
    unfolding mp_event_psi
    mp_event_psi-InRange level is_event w h =
        let s = raise_boost config level is_event w.params w.state in
        let h₁ = raise_boost-InRange level is_event w.params w.state h in
        elim (Option-cases readings.curr_tm) [
          | inl no_time ↦ rw (no_time, mp_event_psi) h₁
          | inr (tm, t) ↦
              rw (t, mp_event_psi)
                (with_time-InRange tm level is_event _ (rw (wake_up-wbf tm level is_event s) h₁))
        ]
