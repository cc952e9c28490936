-- ===== src/Init/Commands.antt =====
-- lmkd.cpp: every command of ctrl_command_handler, and the number of events.
use android_system_memory_lm.Base.{
  ℕ, ◌-◌, ◌/◌, ◌%◌, refl, Option, none, some, Bool, true, false, ◌==◌, ◌||◌, not, ltb, leb,
  if◌then◌else◌, pos, negsuc, ltb_ℤ, eqb_ℤ, pos_part, Bool-cases, Option-cases, inl, inr,
}
use android_system_memory_lm.Packet.{
  LmkdCtrlPacket, LmkCmd, command, lmkd_pack_get_cmd, lmkd_pack_get_subscribe,
}
use android_system_memory_lm.Connections.{Targets, Server, Received, ctrl_data_read}
use android_system_memory_lm.Connections.Commands.{
  Answers, with_targets, cmd_target, Outcome, running, register_config, cmd_subscribe,
  cmd_getkillcnt, cmd_procs_prio, handle_getkillcnt, dispatch, sender, ctrl_command_handler,
}
use android_system_memory_lm.Init.MaxEvents.{IsBoundedServer, ctrl_data_close-IsBounded}
use android_system_memory_lm.Init.Replies.{
  GoesOn, reply-IsBounded, same_socks, update_props-GoesOn, start_monitoring-GoesOn,
  boot_completed-GoesOn,
}

checked :
    (extra : ℕ) (wrong : Bool) (s : Server) (o : Outcome)
    → IsBoundedServer extra s
    → GoesOn extra o
    → GoesOn extra (if wrong then running s else o)
checked extra true s o v g = v
checked extra false s o v g = g

getkillcnt-GoesOn :
    (extra : ℕ) (a : Answers) (i : ℕ) (packet : LmkdCtrlPacket) (s : Server)
    → IsBoundedServer extra s
    → GoesOn extra (handle_getkillcnt a i packet s)
unfolding handle_getkillcnt
getkillcnt-GoesOn extra a i packet s v = elim (Option-cases (cmd_getkillcnt packet s)) [
  | inl e ↦ rw (e, handle_getkillcnt) tt
  | inr (n, e) ↦ rw (e, handle_getkillcnt) (reply-IsBounded extra a i _ s v)
]

subscribe-GoesOn :
    (extra i : ℕ) (packet : LmkdCtrlPacket) (s : Server)
    → IsBoundedServer extra s
    → GoesOn extra (cmd_subscribe i packet s)
unfolding cmd_subscribe
subscribe-GoesOn extra i packet s v = elim (Bool-cases (leb 32 (lmkd_pack_get_subscribe packet))) [
  | inl big ↦ rw big tt
  | inr small ↦ rw small (same_socks extra i s.data_sock _ s.monitors refl v)
]

procs_prio-GoesOn :
    (extra : ℕ) (a : Answers) (i cred_pid nargs : ℕ) (packet : LmkdCtrlPacket) (s : Server)
    → IsBoundedServer extra s
    → GoesOn extra (dispatch a i cred_pid nargs packet (some LmkCmd.procs_prio) s)
unfolding dispatch
procs_prio-GoesOn extra a i cred_pid nargs packet s v =
    elim (Option-cases (cmd_procs_prio a (register_config a s) packet nargs cred_pid s.daemon)) [
      | inl e ↦ rw (e, dispatch) tt
      | inr (d, e) ↦ rw (e, dispatch) v
    ]

target-GoesOn :
    (extra : ℕ) (o : Option Targets) (s : Server)
    → IsBoundedServer extra s
    → GoesOn extra (with_targets o s)
target-GoesOn extra none s v = tt
target-GoesOn extra (some t) s v = v

dispatch-GoesOn :
    (extra : ℕ) (a : Answers) (i cred_pid nargs : ℕ) (packet : LmkdCtrlPacket) (c : Option LmkCmd)
    (s : Server)
    → IsBoundedServer extra s
    → GoesOn extra (dispatch a i cred_pid nargs packet c s)
unfolding dispatch
dispatch-GoesOn extra a i cred_pid nargs packet none s v = v
dispatch-GoesOn extra a i cred_pid nargs packet (some LmkCmd.target) s v =
    checked extra (nargs % 2 == 1 || ltb 6 (nargs / 2)) s _ v
      (target-GoesOn extra (cmd_target (nargs / 2) packet a.curr_tm s.targets) s v)
dispatch-GoesOn extra a i cred_pid nargs packet (some LmkCmd.procprio) s v =
    checked extra (ltb nargs 3 || ltb 4 nargs) s _ v v
dispatch-GoesOn extra a i cred_pid nargs packet (some LmkCmd.procremove) s v =
    checked extra (not (nargs == 1)) s _ v v
dispatch-GoesOn extra a i cred_pid nargs packet (some LmkCmd.procpurge) s v =
    checked extra (not (nargs == 0)) s _ v v
dispatch-GoesOn extra a i cred_pid nargs packet (some LmkCmd.getkillcnt) s v =
    checked extra (not (nargs == 2)) s _ v (getkillcnt-GoesOn extra a i packet s v)
dispatch-GoesOn extra a i cred_pid nargs packet (some LmkCmd.subscribe) s v =
    checked extra (not (nargs == 1)) s _ v (subscribe-GoesOn extra i packet s v)
dispatch-GoesOn extra a i cred_pid nargs packet (some LmkCmd.prockill) s v = v
dispatch-GoesOn extra a i cred_pid nargs packet (some LmkCmd.update_props) s v =
    checked extra (not (nargs == 0)) s _ v (update_props-GoesOn extra a i packet s v)
dispatch-GoesOn extra a i cred_pid nargs packet (some LmkCmd.stat_kill_occurred) s v = v
dispatch-GoesOn extra a i cred_pid nargs packet (some LmkCmd.start_monitoring) s v =
    checked extra (not (nargs == 0)) s _ v (start_monitoring-GoesOn extra a s v)
dispatch-GoesOn extra a i cred_pid nargs packet (some LmkCmd.boot_completed) s v =
    checked extra (not (nargs == 0)) s _ v (boot_completed-GoesOn extra a i packet s v)
dispatch-GoesOn extra a i cred_pid nargs packet (some LmkCmd.procs_prio) s v =
    procs_prio-GoesOn extra a i cred_pid nargs packet s v

ctrl_data_read-IsBounded :
    (extra i : ℕ) (received : Received) (s : Server)
    → IsBoundedServer extra s
    → IsBoundedServer extra (ctrl_data_read i received s).1
unfolding ctrl_data_read
ctrl_data_read-IsBounded extra i received s v =
    elim (Bool-cases (eqb_ℤ received.ret (negsuc 0) || eqb_ℤ received.ret (pos 0))) [
      | inl bad ↦ simp bad v
      | inr good ↦ elim (Option-cases received.cred_pid) [
        | inl e ↦ simp (good, e) (ctrl_data_close-IsBounded extra i s v)
        | inr (pid, e) ↦ simp (good, e) (same_socks extra i s.data_sock _ s.monitors refl v)
      ]
    ]

pub ctrl_command_handler-GoesOn :
    (extra : ℕ) (a : Answers) (i : ℕ) (s : Server)
    → IsBoundedServer extra s
    → GoesOn extra (ctrl_command_handler a i s)
unfolding ctrl_command_handler
ctrl_command_handler-GoesOn extra a i s v =
    let (len, s') = ctrl_data_read i a.received s in
    let w = ctrl_data_read-IsBounded extra i a.received s v in
    checked extra (ltb_ℤ len (pos 4)) s' _ w (
      dispatch-GoesOn extra a i (sender a.received.cred_pid) (pos_part len / 4 - 1)
        a.received.packet (command (lmkd_pack_get_cmd a.received.packet)) s' w)
