-- ===== src/Examples/Wire.antt =====
-- Packets of include/lmkd.h at concrete values.
use android_system_memory_lm.Base.{◌/◌, ◌-◌, ◌≡◌, arith, List, [], ◌∷◌, some, pos, negsuc}
use android_system_memory_lm.Packet.{
  LmkdCtrlPacket, LmkCmd, code, LmkProcprio, LmkTarget, lmkd_pack_get_cmd, lmkd_pack_get_procs_prio,
  lmkd_pack_set_procs_prio,
}
use android_system_memory_lm.Packet.RoundTrip.{
  IsProcprio, AllProcprio, lmkd_pack_get_procs_prio-set,
}

abbrev blank : LmkdCtrlPacket
blank = λ i. 0

abbrev launcher : LmkProcprio
launcher = record { pid = 4321; uid = 10007; oomadj = pos 600; ptype = 0 }

abbrev system_server : LmkProcprio
system_server = record { pid = 812; uid = 1000; oomadj = negsuc 899; ptype = 1 }

launcher-IsProcprio : IsProcprio launcher
launcher-IsProcprio = omega arith

both : AllProcprio (launcher ∷ system_server ∷ [])
both = (omega arith, (omega arith, tt))

lmkd_pack_get_procs_prio-set_example :
    let (sent, size) = lmkd_pack_set_procs_prio blank (launcher ∷ system_server ∷ []) in
    (lmkd_pack_get_procs_prio sent (size / 4 - 1) ≡ some (launcher ∷ system_server ∷ []))
    × (lmkd_pack_get_cmd sent ≡ code LmkCmd.procs_prio)
lmkd_pack_get_procs_prio-set_example =
    lmkd_pack_get_procs_prio-set blank launcher (system_server ∷ []) both

abbrev targets : List LmkTarget
targets =
    record { minfree = pos 18432; oom_adj_score = pos 0 }
    ∷ record { minfree = pos 23040; oom_adj_score = pos 100 }
    ∷ []
