-- ===== src/Connections/Safety.antt =====
-- lmkd.cpp: what a client can do to the process table, whatever it sends.
use android_system_memory_lm.Base.{
  ℕ, ◌≤◌, ◌≡◌, ◌⊎◌, some, Bool, true, false, if◌then◌else◌, ◌<ℤ◌, pos_part, ◌/◌, ◌-◌,
}
use android_system_memory_lm.Packet.{
  LmkdCtrlPacket, LmkCmd, command, lmkd_pack_get_cmd, lmkd_pack_get_getkillcnt,
  lmkd_pack_get_subscribe,
}
use android_system_memory_lm.ProcTable.{oom_score_adj_min}
use android_system_memory_lm.Register.Apply.{IsGood}
use android_system_memory_lm.Connections.{Server, Received, ctrl_data_read}
use android_system_memory_lm.Connections.Commands.{Outcome, running, exited, undefined}

-- The two packets for which the code has no defined behaviour: a subscription to an event from 32 on,
-- and a count of kills from a score below -1000.
abbrev pub IsUnchecked : LmkdCtrlPacket → Type 0
IsUnchecked packet =
    ((command (lmkd_pack_get_cmd packet) ≡ some LmkCmd.subscribe)
      × (32 ≤ lmkd_pack_get_subscribe packet))
    ⊎ ((command (lmkd_pack_get_cmd packet) ≡ some LmkCmd.getkillcnt)
        × ((lmkd_pack_get_getkillcnt packet).min_oomadj <ℤ oom_score_adj_min))

-- The table is well formed and its scores are in range.
pub record IsGoodServer (s : Server) : Type 0 where
  pub good : IsGood s.daemon

pub data IsSafe (packet : LmkdCtrlPacket) : Outcome → Type 0 where
  goes_on : {s : Server} → IsGoodServer s → IsSafe packet (running s)
  exits : {s : Server} → IsGoodServer s → IsSafe packet (exited s)
  unchecked : IsUnchecked packet → IsSafe packet undefined

IsSafe-if :
    (packet : LmkdCtrlPacket) (b : Bool) (x y : Outcome)
    → IsSafe packet x
    → IsSafe packet y
    → IsSafe packet (if b then x else y)
IsSafe-if packet true x y f g = f
IsSafe-if packet false x y f g = g

-- How many words stand behind the command, `nargs`.
abbrev pub nargs_of : ℕ → Received → Server → ℕ
nargs_of dsock_idx received s = pos_part (ctrl_data_read dsock_idx received s).0 / 4 - 1
