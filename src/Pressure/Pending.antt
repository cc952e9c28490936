-- ===== src/Pressure/Pending.antt =====
-- lmkd.cpp: `mp_event_psi` while the last kill is in progress.
use android_system_memory_lm.Base.{◌≡◌, refl, arith, List, some, Bool, true, false}
use android_system_memory_lm.Text.{Bytes}
use android_system_memory_lm.Polling.{Timespec, Level, pause}
use android_system_memory_lm.Kill
use android_system_memory_lm.Kill.{is_waiting_for_kill}
use android_system_memory_lm.Pressure.{Config, ReclaimState, no_reclaim}
use android_system_memory_lm.Pressure.Event.{
  Readings, World, no_kill, is_kill_in_progress, skip_wakeup, raise_boost, wake_up, with_time,
  mp_event_psi,
}

no_kill-kills :
    (config : Config) (kill_config : Kill.Config) (level : Level) (is_event : Bool)
    (mode : ReclaimState) (swap_is_low : Bool) (w : World)
    → (no_kill config kill_config level is_event mode swap_is_low w).kills ≡ w.kills
unfolding no_kill
no_kill-kills config kill_config level is_event mode swap_is_low w = ground arith

no_kill-pauses :
    (config : Config) (kill_config : Kill.Config) (level : Level) (is_event : Bool)
    (mode : ReclaimState) (swap_is_low : Bool) (w : World)
    → is_waiting_for_kill kill_config w.kills ≡ true
    → (no_kill config kill_config level is_event mode swap_is_low w).params.update ≡ pause
unfolding no_kill
no_kill-pauses config kill_config level is_event mode swap_is_low w h = rw (no_kill, h) refl

module _ (config : Config) (field_names : List Bytes) (host : Kill.Host) (kill_config : Kill.Config)
    (readings : Readings) (tm : Timespec) (level : Level) (is_event : Bool) (w : World) where
  -- While the last kill is in progress, and its time is not over, an event whose time can be read ends
  -- without reading a counter: it kills nothing and leaves the table and the wait for the kill as they
  -- are, and where the daemon waits for a notification of the death, it pauses polling.
  pub mp_event_psi-pending :
      readings.curr_tm ≡ some tm
      → is_kill_in_progress config field_names host kill_config readings tm w.kills ≡ true
      → (u : World) × (mp_event_psi config field_names host kill_config readings level is_event w
          ≡ some u)
        × (u.kills ≡ w.kills)
        × (is_waiting_for_kill kill_config w.kills ≡ true → u.params.update ≡ pause)
  unfolding mp_event_psi with_time
  mp_event_psi-pending t h =
      let s =
        wake_up config tm level is_event (raise_boost config level is_event w.params w.state) in
      let before = record w { state = skip_wakeup s } in
      (
        no_kill config kill_config level is_event no_reclaim false before,
        rw (t, mp_event_psi, with_time, h) refl,
        no_kill-kills config kill_config level is_event no_reclaim false before,
        λ waiting. no_kill-pauses config kill_config level is_event no_reclaim false before waiting,
      )
