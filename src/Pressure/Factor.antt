-- ===== src/Pressure/Factor.antt =====
-- lmkd.cpp: what the parts of `mp_event_psi` do to `wbf_effective`, the factor of the watermarks.
use android_system_memory_lm.Base.{
  zero, ◌≡◌, inl, inr, refl, arith, List, Option, none, some, Bool, ℤ, pos, Option-cases, ◌≤ℤ◌,
  +ℤ_parts, -ℤ_parts,
}
use android_system_memory_lm.Text.{Bytes}
use android_system_memory_lm.Polling.{Timespec, Level}
use android_system_memory_lm.Kill
use android_system_memory_lm.Kill.{is_waiting_for_kill, is_kill_pending, find_and_kill_process}
use android_system_memory_lm.Pressure.{Config, Zoneinfo, State, Vmstat, ReclaimState}
use android_system_memory_lm.Pressure.Zones.{calc_zone_watermarks}
use android_system_memory_lm.Pressure.Decide.{Decision}
use android_system_memory_lm.Pressure.Reclaim.{
  reset_after_kill, check_compaction, identify_reclaim, measure_thrashing,
}
use android_system_memory_lm.Pressure.Evaluate.{
  lower_boost, Locals, Evaluation, failed, undefined, decided, evaluate, mark_upgrade, after_kill,
}
use android_system_memory_lm.Pressure.Event.{
  World, update_preferred, start_polling, no_kill, kill_for,
}

-- The factor is at least 1, and at most `ro.lmk.wmark_boost_factor`.
abbrev pub InRange : Config → State → Type 0
InRange config s = (pos 1 ≤ℤ s.wbf_effective) × (s.wbf_effective ≤ℤ config.wmark_boost_factor)

-- The states that an event may end in.
abbrev pub Ends : (World → Type 0) → Option World → Type 0
Ends P none = some zero ≡ some zero
Ends P (some w) = P w

module _ (config : Config) (boosts : pos 1 ≤ℤ config.wmark_boost_factor)
    (steps : pos 0 ≤ℤ config.wbf_step) where
  lower_boost-InRange : (s : State) → InRange config s → InRange config (lower_boost config s)
  unfolding lower_boost
  lower_boost-InRange s h = ground (arith, -ℤ_parts s.wbf_effective config.wbf_step)

  after_kill-InRange :
      (d : Decision) (s : State) → InRange config s → InRange config (after_kill config d s)
  unfolding after_kill
  after_kill-InRange d s h =
      ground (arith, lower_boost-InRange s h, +ℤ_parts s.wbf_effective config.wbf_step)

  start_polling-InRange :
      (level : Level) (s : State) (p : _)
      → InRange config s
      → InRange config (start_polling config level s p).0
  unfolding start_polling
  start_polling-InRange level s p h = ground (arith, h, lower_boost-InRange s h)

  pub no_kill-InRange :
      (kill_config : Kill.Config) (level : Level) (is_event : Bool) (mode : ReclaimState)
      (swap_is_low : Bool) (w : World)
      → InRange config w.state
      → InRange config (no_kill config kill_config level is_event mode swap_is_low w).state
  unfolding no_kill
  no_kill-InRange kill_config level is_event mode swap_is_low w h =
      ground (arith, h, start_polling-InRange level w.state w.params h)

  pub kill_for-InRange :
      (host : Kill.Host) (kill_config : Kill.Config) (tm : Timespec) (d : Decision) (stall : Bool)
      (w : World)
      → InRange config w.state
      → InRange config (kill_for config host kill_config tm d stall w).state
  unfolding kill_for
  kill_for-InRange host kill_config tm d stall w h =
      ground (arith, h, after_kill-InRange d w.state h)

  -- The counters do not touch the factor.
  pub reset-wbf :
      (vs : Vmstat) (tm : Timespec) (s : State)
      → (reset_after_kill vs tm s).wbf_effective ≡ s.wbf_effective
  unfolding reset_after_kill
  reset-wbf vs tm s = ground arith

  pub compaction-wbf :
      (vs : Vmstat) (s : State) → (check_compaction vs s).1.wbf_effective ≡ s.wbf_effective
  unfolding check_compaction
  compaction-wbf vs s = ground arith

  pub reclaim-wbf :
      (vs : Vmstat) (tm : Timespec) (deltas : List ℤ) (s : State)
      → (identify_reclaim config vs tm deltas s).1.wbf_effective ≡ s.wbf_effective
  unfolding identify_reclaim
  reclaim-wbf vs tm deltas s = ground arith

  pub preferred-wbf :
      (tm : Timespec) (s : State) → (update_preferred config tm s).wbf_effective ≡ s.wbf_effective
  unfolding update_preferred
  preferred-wbf tm s = ground arith

  pub thrashing-wbf :
      (vs : Vmstat) (tm : Timespec) (s : State)
      → (measure_thrashing config vs tm s).1.wbf_effective ≡ s.wbf_effective
  unfolding measure_thrashing
  thrashing-wbf vs tm s = ground arith

  -- An evaluation that leaves the factor as it is in some state.
  abbrev pub Keeps : State → Evaluation → Type 0
  Keeps s failed = s ≡ s
  Keeps s undefined = s ≡ s
  Keeps s (decided d stall u) = u.wbf_effective ≡ s.wbf_effective

  pub evaluate-Keeps :
      (field_names : List Bytes) (l : Locals) (zi : Option Zoneinfo) (avg10 : Option ℤ)
      (d : Decision) (stall : Bool) (s : State)
      → Keeps s (evaluate config field_names l zi avg10 d stall s)
  unfolding evaluate mark_upgrade
  evaluate-Keeps field_names l none avg10 d stall s = refl
  evaluate-Keeps field_names l (some zi) avg10 d stall s =
      elim (Option-cases (
        calc_zone_watermarks config field_names s.mglru_status s.wbf_effective
          l.reclaim.pgskip_deltas zi)) [
            | inl e ↦ rw (evaluate, e) refl
            | inr (zmi, e) ↦ rw (evaluate, e) (ground arith)
          ]
