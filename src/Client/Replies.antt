-- ===== src/Client/Replies.antt =====
-- liblmkd_utils.cpp: what the client makes of the replies that the daemon packs.
use android_system_memory_lm.Base.{◌≡◌, arith, some, if◌then◌else◌, ℤ, pos, negsuc, eqb_ℤ}
use android_system_memory_lm.Packet.{
  receive-send, ntohl-htonl, IsInt, LmkdCtrlPacket, LmkGetkillcnt, htonl, to_int, to_word,
  lmkd_pack_get_cmd, lmkd_pack_set_update_props, lmkd_pack_set_boot_completed_notif,
  lmkd_pack_set_getkillcnt, lmkd_pack_set_getkillcnt_repl, lmkd_pack_set_update_props_repl,
  lmkd_pack_get_update_props_repl, lmkd_pack_set_boot_completed_notif_repl,
  lmkd_pack_get_boot_completed_notif_repl,
}
use android_system_memory_lm.Client.{
  Write, lmkd_update_props, lmkd_notify_boot_completed, lmkd_get_kill_count, boot_completed_result,
  update_props_success, update_props_fail, update_props_send_err, boot_completed_send_err,
}

-- If the daemon answers a request to update the properties with some result, then the client reports
-- a success just for the result 0, and where its write failed it reports that.
lmkd_update_props-repl :
    (write : Write) (packet buffer : LmkdCtrlPacket) (result : ℤ)
    → IsInt result
    → lmkd_update_props write packet (some (lmkd_pack_set_update_props_repl buffer result)) ≡ (
        if write (lmkd_pack_set_update_props packet)
        then (if eqb_ℤ result (pos 0) then update_props_success else update_props_fail)
        else update_props_send_err)
unfolding lmkd_update_props lmkd_pack_set_update_props_repl lmkd_pack_get_update_props_repl
    lmkd_pack_get_cmd
lmkd_update_props-repl write packet buffer result h =
    ground (arith, ntohl-htonl 7 (omega arith), receive-send result h)

-- If the daemon answers the notice of the end of the boot with some result, then the client reports
-- what `boot_completed_result` says of that result, and where its write failed it reports that.
lmkd_notify_boot_completed-repl :
    (write : Write) (packet buffer : LmkdCtrlPacket) (result : ℤ)
    → IsInt result
    → lmkd_notify_boot_completed write packet
        (some (lmkd_pack_set_boot_completed_notif_repl buffer result))
      ≡ (if write (lmkd_pack_set_boot_completed_notif packet)
          then boot_completed_result result
          else boot_completed_send_err)
unfolding lmkd_notify_boot_completed lmkd_pack_set_boot_completed_notif_repl
    lmkd_pack_get_boot_completed_notif_repl lmkd_pack_get_cmd
lmkd_notify_boot_completed-repl write packet buffer result h =
    ground (arith, ntohl-htonl 10 (omega arith), receive-send result h)

-- If the daemon answers a request for the kill count with some count, then the client that could write
-- its request returns the count with its four bytes in the opposite order.
pub lmkd_get_kill_count-repl :
    (write : Write) (packet buffer : LmkdCtrlPacket) (params : LmkGetkillcnt) (count : ℤ)
    → lmkd_get_kill_count write packet params (some (lmkd_pack_set_getkillcnt_repl buffer count))
      ≡ (if write (lmkd_pack_set_getkillcnt packet params)
          then to_int (htonl (to_word count))
          else negsuc 0)
unfolding lmkd_get_kill_count lmkd_pack_set_getkillcnt_repl lmkd_pack_get_cmd
lmkd_get_kill_count-repl write packet buffer params count =
    ground (arith, ntohl-htonl 4 (omega arith))
