-- ===== src/Connections/Limits.antt =====
-- lmkd.cpp: cmd_target stays inside its arrays and its packet.
use android_system_memory_lm.Base.{
  zero, suc, ◌+◌, ◌*◌, update, ℕ, ◌≤◌, ◌≡◌, inl, inr, refl, arith, Option, some, false, ltb, leb,
  ◌||◌, pos, ltb_ℤ, Bool-cases, Option-cases,
}
use android_system_memory_lm.Polling.{Timespec, get_time_diff_ms}
use android_system_memory_lm.Packet.{lmkd_pack_get_target, max_targets, LmkdCtrlPacket}
use android_system_memory_lm.Connections.{Targets}
use android_system_memory_lm.Connections.Commands.{
  set_targets_from, cmd_target, int_length, property_value_max,
}

set_targets_from-total :
    (n i used : ℕ) (packet : LmkdCtrlPacket) (t : Targets)
    → i + n ≤ max_targets
    → (u : Targets) × (set_targets_from n i used packet t ≡ some u)
unfolding set_targets_from
set_targets_from-total zero i used packet t h = (t, refl)
set_targets_from-total (suc n) i used packet t h =
    let target = lmkd_pack_get_target packet i in
    let t' = record t {
      lowmem_minfree = update t.lowmem_minfree i target.minfree;
      lowmem_adj = update t.lowmem_adj i target.oom_adj_score;
    } in
    let used' = used + int_length target.minfree + 1 + int_length target.oom_adj_score + 1 in
    let inside : leb 6 i || leb 13 (i * 2 + 2) ≡ false = ground (arith, h) in
    let (u, e) = set_targets_from-total n (suc i) used' packet t' (omega (arith, h)) in
    elim (Bool-cases (leb property_value_max used')) [
      | inl full ↦ (t', rw (inside, full) refl)
      | inr more ↦ (u, rw (inside, more) e)
    ]

-- cmd_target writes into its arrays and reads from the packet, whatever the number of targets.
pub cmd_target-total :
    (ntargets : ℕ) (packet : LmkdCtrlPacket) (curr_tm : Option Timespec) (t : Targets)
    → (u : Targets) × (cmd_target ntargets packet curr_tm t ≡ some u)
unfolding cmd_target
cmd_target-total ntargets packet curr_tm t =
    elim (Bool-cases (ltb ntargets 1 || ltb max_targets ntargets)) [
      | inl wrong ↦ (t, rw (cmd_target, wrong) refl)
      | inr good ↦ elim (Option-cases curr_tm) [
        | inl e ↦ (t, rw (cmd_target, good, e) refl)
        | inr (tm, e) ↦ elim (Bool-cases (ltb_ℤ (get_time_diff_ms t.last_req_tm tm) (pos 1000))) [
          | inl early ↦ (t, rw (cmd_target, good, e, early) refl)
          | inr due ↦
              let (u, f) =
                set_targets_from-total ntargets 0 0 packet (record t { last_req_tm = tm })
                  (ground (arith, good)) in
              (record u { lowmem_targets_size = ntargets }, rw (cmd_target, good, e, due, f) refl)
        ]
      ]
    ]
