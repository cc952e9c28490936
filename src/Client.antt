-- ===== src/Client.antt =====
-- liblmkd_utils.cpp: the calls that a client makes of the daemon. Whether the write succeeds and what
-- the read gives, if it succeeds, are arguments; a packet that is read has its size in bytes.
pub mod Replies
use android_system_memory_lm.Base.{
  ℕ, ◌+◌, ◌*◌, List, Option, none, some, Bool, true, false, ◌&&◌, ◌||◌, not, ◌==◌, if◌then◌else◌, ℤ,
  pos, negsuc, eqb_ℤ, update,
}
use android_system_memory_lm.Packet.{
  LmkdCtrlPacket, LmkProcprio, LmkGetkillcnt, LmkCmd, code, to_int, lmkd_pack_get_cmd,
  lmkd_pack_set_procprio, lmkd_pack_set_procs_prio, lmkd_pack_set_procremove,
  lmkd_pack_set_update_props, lmkd_pack_get_update_props_repl, lmkd_pack_set_boot_completed_notif,
  lmkd_pack_get_boot_completed_notif_repl, lmkd_pack_set_getkillcnt,
}

pub data UpdatePropsResult : Type 0 where
  update_props_success update_props_fail update_props_send_err : UpdatePropsResult
  update_props_recv_err update_props_format_err : UpdatePropsResult

pub data BootCompletedResult : Type 0 where
  boot_completed_success boot_completed_fails boot_completed_already_handled : BootCompletedResult
  boot_completed_send_err boot_completed_recv_err boot_completed_format_err : BootCompletedResult

-- `write` of a packet, by its size: does it succeed?
abbrev pub Write : Type 0
Write = LmkdCtrlPacket × ℕ → Bool

-- What the three functions without a reply return.
abbrev send : Write → LmkdCtrlPacket × ℕ → ℤ
send write sent = if write sent then pos 0 else negsuc 0

unfoldable pub lmkd_register_proc : Write → LmkdCtrlPacket → LmkProcprio → ℤ
lmkd_register_proc write packet params = send write (lmkd_pack_set_procprio packet params)

unfoldable pub lmkd_register_procs : Write → LmkdCtrlPacket → List LmkProcprio → ℤ
lmkd_register_procs write packet params = send write (lmkd_pack_set_procs_prio packet params)

unfoldable pub lmkd_unregister_proc : Write → LmkdCtrlPacket → ℕ → ℤ
lmkd_unregister_proc write packet pid = send write (lmkd_pack_set_procremove packet pid)

-- size != 2 * sizeof(int) || lmkd_pack_get_cmd(packet) != cmd.
abbrev is_malformed : LmkdCtrlPacket × ℕ → LmkCmd → Bool
is_malformed (packet, size) cmd = not (size == 8) || not (lmkd_pack_get_cmd packet == code cmd)

unfoldable pub lmkd_update_props :
    Write → LmkdCtrlPacket → Option (LmkdCtrlPacket × ℕ) → UpdatePropsResult
lmkd_update_props write packet reply =
    if not (write (lmkd_pack_set_update_props packet)) then update_props_send_err else elim reply [
      | none ↦ update_props_recv_err
      | some (answer, size) ↦
          if is_malformed (answer, size) LmkCmd.update_props
          then update_props_format_err
          else if eqb_ℤ (lmkd_pack_get_update_props_repl answer) (pos 0)
          then update_props_success
          else update_props_fail
    ]

unfoldable pub boot_completed_result : ℤ → BootCompletedResult
boot_completed_result result =
    if eqb_ℤ result (negsuc 0)
    then boot_completed_fails
    else if eqb_ℤ result (pos 0)
    then boot_completed_success
    else if eqb_ℤ result (pos 1)
    then boot_completed_already_handled
    else boot_completed_fails

unfoldable pub lmkd_notify_boot_completed :
    Write → LmkdCtrlPacket → Option (LmkdCtrlPacket × ℕ) → BootCompletedResult
unfolding boot_completed_result
lmkd_notify_boot_completed write packet reply =
    if not (write (lmkd_pack_set_boot_completed_notif packet))
    then boot_completed_send_err
    else elim reply [
      | none ↦ boot_completed_recv_err
      | some (answer, size) ↦
          if is_malformed (answer, size) LmkCmd.boot_completed
          then boot_completed_format_err
          else boot_completed_result (lmkd_pack_get_boot_completed_notif_repl answer)
    ]

-- The count is the second word as it is.
unfoldable pub lmkd_get_kill_count :
    Write → LmkdCtrlPacket → LmkGetkillcnt → Option (LmkdCtrlPacket × ℕ) → ℤ
lmkd_get_kill_count write packet params reply =
    if not (write (lmkd_pack_set_getkillcnt packet params)) then negsuc 0 else elim reply [
      | none ↦ negsuc 1
      | some (answer, size) ↦
          if is_malformed (answer, size) LmkCmd.getkillcnt then negsuc 2 else to_int (answer 1)
    ]
