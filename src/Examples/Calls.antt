-- ===== src/Examples/Calls.antt =====
-- Polling and the calls of the client library at concrete values.
use android_system_memory_lm.Base.{
  ◌≡◌, refl, arith, some, none, true, pos, ◌≤ℤ◌, ◌<ℤ◌, ◌+ℤ◌, ◌-ℤ◌, ◌*ℤ◌, quot,
}
use android_system_memory_lm.Packet.{
  LmkdCtrlPacket, htonl, to_int, to_word, lmkd_pack_set_getkillcnt_repl,
}
use android_system_memory_lm.Polling.{
  Timespec, get_time_diff_ms, medium, vmpressure, PollingParams, do_not_change,
}
use android_system_memory_lm.Polling.Loop.{poll_delay, poll_delay_bounds}
use android_system_memory_lm.Client.{lmkd_get_kill_count}
use android_system_memory_lm.Client.Replies.{lmkd_get_kill_count-repl}
use android_system_memory_lm.Examples.Kills

abbrev pub zero_tm : Timespec
zero_tm = record { tv_sec = pos 0; tv_nsec = pos 0 }

abbrev pub later : Timespec
later = record { tv_sec = pos 10; tv_nsec = pos 40000000 }

abbrev much_later : Timespec
much_later = record { tv_sec = pos 10; tv_nsec = pos 100000000 }

pub later_ms : get_time_diff_ms Kills.now later ≡ pos 40
unfolding get_time_diff_ms ◌+ℤ◌ ◌*ℤ◌ ◌-ℤ◌ quot
later_ms = refl

much_later_ms : get_time_diff_ms Kills.now much_later ≡ pos 100
unfolding get_time_diff_ms ◌+ℤ◌ ◌*ℤ◌ ◌-ℤ◌ quot
much_later_ms = refl

abbrev pub params : PollingParams
params = record {
  poll_handler = some (vmpressure medium);
  paused_handler = none;
  poll_start_tm = zero_tm;
  last_poll_tm = Kills.now;
  polling_interval_ms = pos 100;
  update = do_not_change;
}

poll_delay_bounds_example :
    (pos 0 <ℤ poll_delay later params) × (poll_delay later params ≤ℤ pos 100)
poll_delay_bounds_example = poll_delay_bounds later params (omega arith) (ground (arith, later_ms))

abbrev blank : LmkdCtrlPacket
blank = λ i. 0

lmkd_get_kill_count-repl_example :
    lmkd_get_kill_count
      (λ p. true)
      blank
      (record { min_oomadj = pos 0; max_oomadj = pos 1000 })
      (some (lmkd_pack_set_getkillcnt_repl blank (pos 1)))
    ≡ pos 16777216
unfolding to_int to_word htonl
lmkd_get_kill_count-repl_example =
    lmkd_get_kill_count-repl (λ p. true) blank blank
      (record { min_oomadj = pos 0; max_oomadj = pos 1000 }) (pos 1)
