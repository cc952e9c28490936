-- ===== src/Packet.antt =====
-- include/lmkd.h: the control packets, an array of `int` words whose first is the command.
-- A packet is the function from an index to the word that stands there; a setter returns the
-- changed array and the size in bytes, as the C returns it.
mod Words
mod Commands
pub mod RoundTrip
pub use Commands.{LmkCmd, code, command, command-code}
pub use Words.{to_word-lt, to_int-to_word, ntohl-htonl, receive-send, IsInt}
pub use Words.{receive-send, ntohl-htonl, IsInt}
unfoldable pub use Words.{htonl, ntohl, to_word, to_int}
use android_system_memory_lm.Base.{
  ℕ, zero, suc, ◌+◌, ◌*◌, ◌/◌, ◌%◌, List, [], ◌∷◌, Option, none, some, Bool, ◌||◌, not, ltb, ◌==◌,
  if◌then◌else◌, ℤ, update,
}

abbrev pub LmkdCtrlPacket : Type 0
LmkdCtrlPacket = ℕ → ℕ

abbrev pub max_targets : ℕ
max_targets = 6

abbrev pub ctrl_packet_max_size : ℕ
ctrl_packet_max_size = 4 * (max_targets * 2 + 1)

unfoldable pub lmkd_pack_get_cmd : LmkdCtrlPacket → ℕ
lmkd_pack_get_cmd pack = ntohl (pack 0)

pub record LmkTarget : Type 0 where
  pub minfree : ℤ
  pub oom_adj_score : ℤ

unfoldable pub lmkd_pack_get_target : LmkdCtrlPacket → ℕ → LmkTarget
lmkd_pack_get_target packet target_idx = record {
  minfree = to_int (ntohl (packet (target_idx * 2 + 1)));
  oom_adj_score = to_int (ntohl (packet (target_idx * 2 + 2)));
}

unfoldable pub put_target : LmkdCtrlPacket → ℕ → LmkTarget → LmkdCtrlPacket
put_target packet idx t =
    update (update packet idx (htonl (to_word t.minfree))) (idx + 1)
      (htonl (to_word t.oom_adj_score))

-- The loop of `lmkd_pack_set_target`; the second part is the next free index.
unfoldable pub set_targets : LmkdCtrlPacket → ℕ → List LmkTarget → LmkdCtrlPacket × ℕ
unfolding put_target
set_targets packet idx [] = (packet, idx)
set_targets packet idx (t ∷ ts) = set_targets (put_target packet idx t) (idx + 2) ts

unfoldable pub lmkd_pack_set_target : LmkdCtrlPacket → List LmkTarget → LmkdCtrlPacket × ℕ
lmkd_pack_set_target packet targets =
    let (p, idx) = set_targets (update packet 0 (htonl (code LmkCmd.target))) 1 targets in
    (p, idx * 4)

-- `enum proc_type` has no negative member, so its values compare as unsigned words.
abbrev pub proc_type_app : ℕ
proc_type_app = 0

abbrev pub proc_type_count : ℕ
proc_type_count = 2

-- `pid`, `uid` and `ptype` are words.
pub record LmkProcprio : Type 0 where
  pub pid : ℕ
  pub uid : ℕ
  pub oomadj : ℤ
  pub ptype : ℕ

abbrev pub procprio_field_count : ℕ
procprio_field_count = 4

unfoldable pub lmkd_pack_get_procprio : LmkdCtrlPacket → ℕ → LmkProcprio
lmkd_pack_get_procprio packet field_count = record {
  pid = ntohl (packet 1);
  uid = ntohl (packet 2);
  oomadj = to_int (ntohl (packet 3));
  ptype = if ltb 3 field_count then ntohl (packet 4) else proc_type_app;
}

unfoldable pub put_procprio : LmkdCtrlPacket → ℕ → LmkProcprio → LmkdCtrlPacket
put_procprio packet idx p =
    update
      (update (update (update packet idx (htonl p.pid)) (idx + 1) (htonl p.uid)) (idx + 2)
        (htonl (to_word p.oomadj)))
      (idx + 3) (htonl p.ptype)

unfoldable pub lmkd_pack_set_procprio : LmkdCtrlPacket → LmkProcprio → LmkdCtrlPacket × ℕ
unfolding put_procprio
lmkd_pack_set_procprio packet params =
    (put_procprio (update packet 0 (htonl (code LmkCmd.procprio))) 1 params, 5 * 4)

unfoldable pub lmkd_pack_get_procremove : LmkdCtrlPacket → ℕ
lmkd_pack_get_procremove packet = ntohl (packet 1)

unfoldable pub lmkd_pack_set_procremove : LmkdCtrlPacket → ℕ → LmkdCtrlPacket × ℕ
lmkd_pack_set_procremove packet pid =
    (update (update packet 0 (htonl (code LmkCmd.procremove))) 1 (htonl pid), 2 * 4)

unfoldable pub lmkd_pack_set_procpurge : LmkdCtrlPacket → LmkdCtrlPacket × ℕ
lmkd_pack_set_procpurge packet = (update packet 0 (htonl (code LmkCmd.procpurge)), 4)

pub record LmkGetkillcnt : Type 0 where
  pub min_oomadj : ℤ
  pub max_oomadj : ℤ

unfoldable pub lmkd_pack_get_getkillcnt : LmkdCtrlPacket → LmkGetkillcnt
lmkd_pack_get_getkillcnt packet = record {
  min_oomadj = to_int (ntohl (packet 1));
  max_oomadj = to_int (ntohl (packet 2));
}

unfoldable pub lmkd_pack_set_getkillcnt : LmkdCtrlPacket → LmkGetkillcnt → LmkdCtrlPacket × ℕ
lmkd_pack_set_getkillcnt packet params = (
  update
      (update (update packet 0 (htonl (code LmkCmd.getkillcnt))) 1
        (htonl (to_word params.min_oomadj)))
      2 (htonl (to_word params.max_oomadj)),
  3 * 4,
)

-- The packets of one command and one `int`: replies to several commands share this shape.
abbrev put_reply : ℕ → LmkdCtrlPacket → ℤ → LmkdCtrlPacket × ℕ
put_reply cmd packet result =
    (update (update packet 0 (htonl cmd)) 1 (htonl (to_word result)), 2 * 4)

unfoldable pub lmkd_pack_set_getkillcnt_repl : LmkdCtrlPacket → ℤ → LmkdCtrlPacket × ℕ
lmkd_pack_set_getkillcnt_repl packet kill_cnt = put_reply (code LmkCmd.getkillcnt) packet kill_cnt

abbrev pub lmk_async_event_kill : ℕ
lmk_async_event_kill = 0

abbrev pub lmk_async_event_stat : ℕ
lmk_async_event_stat = 1

unfoldable pub lmkd_pack_get_subscribe : LmkdCtrlPacket → ℕ
lmkd_pack_get_subscribe packet = ntohl (packet 1)

unfoldable pub lmkd_pack_set_subscribe : LmkdCtrlPacket → ℕ → LmkdCtrlPacket × ℕ
lmkd_pack_set_subscribe packet evt_type =
    (update (update packet 0 (htonl (code LmkCmd.subscribe))) 1 (htonl evt_type), 2 * 4)

unfoldable pub lmkd_pack_set_prockills : LmkdCtrlPacket → ℕ → ℕ → LmkdCtrlPacket × ℕ
lmkd_pack_set_prockills packet pid uid = (
  update (update (update packet 0 (htonl (code LmkCmd.prockill))) 1 (htonl pid)) 2 (htonl uid),
  3 * 4,
)

unfoldable pub lmkd_pack_set_update_props : LmkdCtrlPacket → LmkdCtrlPacket × ℕ
lmkd_pack_set_update_props packet = (update packet 0 (htonl (code LmkCmd.update_props)), 4)

unfoldable pub lmkd_pack_start_monitoring : LmkdCtrlPacket → LmkdCtrlPacket × ℕ
lmkd_pack_start_monitoring packet = (update packet 0 (htonl (code LmkCmd.start_monitoring)), 4)

unfoldable pub lmkd_pack_set_update_props_repl : LmkdCtrlPacket → ℤ → LmkdCtrlPacket × ℕ
lmkd_pack_set_update_props_repl packet result = put_reply (code LmkCmd.update_props) packet result

unfoldable pub lmkd_pack_get_update_props_repl : LmkdCtrlPacket → ℤ
lmkd_pack_get_update_props_repl packet = to_int (ntohl (packet 1))

unfoldable pub lmkd_pack_set_boot_completed_notif : LmkdCtrlPacket → LmkdCtrlPacket × ℕ
lmkd_pack_set_boot_completed_notif packet =
    (update packet 0 (htonl (code LmkCmd.boot_completed)), 4)

unfoldable pub lmkd_pack_set_boot_completed_notif_repl : LmkdCtrlPacket → ℤ → LmkdCtrlPacket × ℕ
lmkd_pack_set_boot_completed_notif_repl packet result =
    put_reply (code LmkCmd.boot_completed) packet result

unfoldable pub lmkd_pack_get_boot_completed_notif_repl : LmkdCtrlPacket → ℤ
lmkd_pack_get_boot_completed_notif_repl packet = to_int (ntohl (packet 1))

-- One record of the loop of `lmkd_pack_get_procs_prio`, from `packetIdx` on.
unfoldable pub read_procprio : LmkdCtrlPacket → ℕ → LmkProcprio
read_procprio packet idx = record {
  pid = ntohl (packet idx);
  uid = ntohl (packet (idx + 1));
  oomadj = to_int (ntohl (packet (idx + 2)));
  ptype = ntohl (packet (idx + 3));
}

-- That loop, by the records left and the next index.
unfoldable pub get_procs : LmkdCtrlPacket → ℕ → ℕ → List LmkProcprio
unfolding read_procprio
get_procs packet zero idx = []
get_procs packet (suc n) idx = read_procprio packet idx ∷ get_procs packet n (idx + 4)

-- `none` is the -1 of a malformed packet; a list has `procs_count` entries.
unfoldable pub lmkd_pack_get_procs_prio : LmkdCtrlPacket → ℕ → Option (List LmkProcprio)
lmkd_pack_get_procs_prio packet field_count =
    if ltb field_count procprio_field_count || not (field_count % procprio_field_count == 0)
    then none
    else some (get_procs packet (field_count / procprio_field_count) 1)

-- As in the source nothing is checked: the caller sees to it that there are at most three records,
-- which is what a packet has words for.
unfoldable pub set_procs : LmkdCtrlPacket → ℕ → List LmkProcprio → LmkdCtrlPacket × ℕ
unfolding put_procprio
set_procs packet idx [] = (packet, idx)
set_procs packet idx (p ∷ ps) = set_procs (put_procprio packet idx p) (idx + 4) ps

unfoldable pub lmkd_pack_set_procs_prio : LmkdCtrlPacket → List LmkProcprio → LmkdCtrlPacket × ℕ
lmkd_pack_set_procs_prio packet procs =
    let (p, idx) = set_procs (update packet 0 (htonl (code LmkCmd.procs_prio))) 1 procs in
    (p, idx * 4)
