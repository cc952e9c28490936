-- ===== src/Packet/RoundTrip.antt =====
-- include/lmkd.h: what a setter packs, the getter of the same command reads back.
use android_system_memory_lm.Base.{
  ℕ, zero, suc, ◌+◌, ◌-◌, ◌*◌, ◌/◌, ◌%◌, ◌^◌, ◌<◌, ◌≤◌, ◌≡◌, ◌≢◌, ◌↔◌, refl, ap, ap₂, ◌∙◌, arith,
  List, [], ◌∷◌, some, false, true, ltb, ◌==◌, length, get_elem?, update,
}
use android_system_memory_lm.Packet.{
  LmkdCtrlPacket, LmkCmd, code, IsInt, htonl, to_word, ntohl-htonl, receive-send, put_target,
  LmkTarget, LmkProcprio, lmkd_pack_get_cmd, lmkd_pack_get_target, set_targets,
  lmkd_pack_set_target, lmkd_pack_get_procprio, lmkd_pack_set_procprio, put_procprio, read_procprio,
  get_procs, lmkd_pack_get_procs_prio, set_procs, lmkd_pack_set_procs_prio, ctrl_packet_max_size,
}

-- The fields fit the words that carry them.
pub record IsProcprio (p : LmkProcprio) : Type 0 where
  pub pid_word : p.pid < 2 ^ 32
  pub uid_word : p.uid < 2 ^ 32
  pub oomadj_int : IsInt p.oomadj
  pub ptype_word : p.ptype < 2 ^ 32

abbrev pub AllProcprio : List LmkProcprio → Type 0
AllProcprio [] = Unit {0}
AllProcprio (p ∷ ps) = IsProcprio p × AllProcprio ps

update_lem {ℓ} : {A : Type ℓ} (f : ℕ → A) (k j : ℕ) (v : A) → j ≢ k → update f k v j ≡ f j
update_lem f k j v h = ground arith

put_procprio-other :
    (packet : LmkdCtrlPacket) (idx j : ℕ) (p : LmkProcprio)
    → j < idx
    → put_procprio packet idx p j ≡ packet j
unfolding put_procprio
put_procprio-other packet idx j p h = ground arith

set_procs-below :
    (packet : LmkdCtrlPacket) (idx : ℕ) (ps : List LmkProcprio) (j : ℕ)
    → j < idx
    → (set_procs packet idx ps).0 j ≡ packet j
unfolding set_procs
set_procs-below packet idx [] j h = refl
set_procs-below packet idx (p ∷ ps) j h =
    set_procs-below (put_procprio packet idx p) (idx + 4) ps j (omega arith)
    ∙ put_procprio-other packet idx j p h

set_procs-index :
    (packet : LmkdCtrlPacket) (idx : ℕ) (ps : List LmkProcprio)
    → (set_procs packet idx ps).1 ≡ idx + 4 * length ps
unfolding set_procs
set_procs-index packet idx [] = omega arith
set_procs-index packet idx (p ∷ ps) =
    omega (arith, set_procs-index (put_procprio packet idx p) (idx + 4) ps)

-- A record that was written is read back, by a reader that sees the same four words.
read-put_procprio :
    (f packet : LmkdCtrlPacket) (idx : ℕ) (p : LmkProcprio)
    → IsProcprio p
    → ((j : ℕ) → j < idx + 4 → f j ≡ put_procprio packet idx p j)
    → read_procprio f idx ≡ p
unfolding read_procprio put_procprio
read-put_procprio f packet idx p v same =
    rw
      (
        same idx (omega arith),
        same (idx + 1) (omega arith),
        same (idx + 2) (omega arith),
        same (idx + 3) (omega arith),
      )
      (ground (
        arith,
        ntohl-htonl p.pid v.pid_word,
        ntohl-htonl p.uid v.uid_word,
        receive-send p.oomadj v.oomadj_int,
        ntohl-htonl p.ptype v.ptype_word,
      ))

get_procs-set_procs :
    (packet : LmkdCtrlPacket) (idx : ℕ) (ps : List LmkProcprio)
    → AllProcprio ps
    → get_procs (set_procs packet idx ps).0 (length ps) idx ≡ ps
unfolding set_procs get_procs
get_procs-set_procs packet idx [] h = refl
get_procs-set_procs packet idx (p ∷ ps) h =
    let rest = put_procprio packet idx p in
    ap₂ ◌∷◌
      (read-put_procprio (set_procs rest (idx + 4) ps).0 packet idx p h.0
        (λ j. set_procs-below rest (idx + 4) ps j))
      (get_procs-set_procs rest (idx + 4) ps h.1)

parse_count :
    (packet : LmkdCtrlPacket) (n k : ℕ)
    → k ≡ 4 * suc n
    → lmkd_pack_get_procs_prio packet k ≡ some (get_procs packet (suc n) 1)
unfolding lmkd_pack_get_procs_prio
parse_count packet n k e =
    let fits : ltb k 4 ≡ false = ground arith in
    let whole : (k % 4 == 0) ≡ true = ground arith in
    let records : k / 4 ≡ suc n = omega arith in rw (fits, whole, records)

-- A packed LMK_PROCS_PRIO request of at least one well-formed record is read back whole by the
-- receiver, which computes the field count from the size in bytes, and carries the command's code.
pub lmkd_pack_get_procs_prio-set :
    (packet : LmkdCtrlPacket) (p : LmkProcprio) (ps : List LmkProcprio)
    → AllProcprio (p ∷ ps)
    → let (sent, size) = lmkd_pack_set_procs_prio packet (p ∷ ps) in
      (lmkd_pack_get_procs_prio sent (size / 4 - 1) ≡ some (p ∷ ps))
      × (lmkd_pack_get_cmd sent ≡ code LmkCmd.procs_prio)
unfolding lmkd_pack_set_procs_prio lmkd_pack_get_cmd
lmkd_pack_get_procs_prio-set packet p ps h =
    let start = update packet 0 (htonl (code LmkCmd.procs_prio)) in
    let sent = (set_procs start 1 (p ∷ ps)).0 in
    let size = (set_procs start 1 (p ∷ ps)).1 * 4 in
    (
      parse_count sent (length ps) (size / 4 - 1) (omega (arith, set_procs-index start 1 (p ∷ ps)))
          ∙ ap some (get_procs-set_procs start 1 (p ∷ ps) h),
      rw (set_procs-below start 1 (p ∷ ps) 0 (omega arith)) (ntohl-htonl 11 (omega arith)),
    )

-- A packed LMK_PROCS_PRIO request fits the packet exactly when it has at most three records.
procs_prio_fits :
    (packet : LmkdCtrlPacket) (ps : List LmkProcprio)
    → ((lmkd_pack_set_procs_prio packet ps).1 ≤ ctrl_packet_max_size) ↔ (length ps ≤ 3)
unfolding lmkd_pack_set_procs_prio
procs_prio_fits packet ps =
    let e = set_procs-index (update packet 0 (htonl (code LmkCmd.procs_prio))) 1 ps in
    (λ h. omega (arith, e), λ h. omega (arith, e))

put_target-other :
    (packet : LmkdCtrlPacket) (idx j : ℕ) (t : LmkTarget)
    → j < idx
    → put_target packet idx t j ≡ packet j
unfolding put_target
put_target-other packet idx j t h = ground arith

set_targets-below :
    (packet : LmkdCtrlPacket) (idx : ℕ) (ts : List LmkTarget) (j : ℕ)
    → j < idx
    → (set_targets packet idx ts).0 j ≡ packet j
unfolding set_targets
set_targets-below packet idx [] j h = refl
set_targets-below packet idx (t ∷ ts) j h =
    set_targets-below (put_target packet idx t) (idx + 2) ts j (omega arith)
    ∙ put_target-other packet idx j t h

abbrev pub IsTarget : LmkTarget → Type 0
IsTarget t = IsInt t.minfree × IsInt t.oom_adj_score

put_target_words :
    (packet : LmkdCtrlPacket) (idx k : ℕ) (u t : LmkTarget)
    → u ≡ t
    → k ≡ idx
    → (put_target packet idx u k ≡ htonl (to_word t.minfree))
      × (put_target packet idx u (k + 1) ≡ htonl (to_word t.oom_adj_score))
unfolding put_target
put_target_words packet idx k u t e f = (ground arith, ground arith)

set_targets-at :
    (packet : LmkdCtrlPacket) (idx : ℕ) (ts : List LmkTarget) (i : ℕ) (t : LmkTarget)
    → get_elem? ts i ≡ some t
    → let sent = (set_targets packet idx ts).0 in
      (sent (i * 2 + idx) ≡ htonl (to_word t.minfree))
      × (sent (i * 2 + idx + 1) ≡ htonl (to_word t.oom_adj_score))
unfolding set_targets
set_targets-at packet idx [] i t h = cc
set_targets-at packet idx (u ∷ ts) zero t h =
    let below = set_targets-below (put_target packet idx u) (idx + 2) ts in
    (
      rw (below (0 * 2 + idx) (omega arith))
          (put_target_words packet idx (0 * 2 + idx) u t (cc) (omega arith)).0,
      rw (below (0 * 2 + idx + 1) (omega arith))
          (put_target_words packet idx (0 * 2 + idx) u t (cc) (omega arith)).1,
    )
set_targets-at packet idx (u ∷ ts) (suc i) t h =
    let same : suc i * 2 + idx ≡ i * 2 + (idx + 2) = omega arith in
    rw same (set_targets-at (put_target packet idx u) (idx + 2) ts i t h)

-- Every target of a packed LMK_TARGET request is read back at its index, and the request carries
-- the command's code.
lmkd_pack_get_target-set :
    (packet : LmkdCtrlPacket) (ts : List LmkTarget) (i : ℕ) (t : LmkTarget)
    → get_elem? ts i ≡ some t
    → IsTarget t
    → let sent = (lmkd_pack_set_target packet ts).0 in
      (lmkd_pack_get_target sent i ≡ t) × (lmkd_pack_get_cmd sent ≡ code LmkCmd.target)
unfolding lmkd_pack_get_target lmkd_pack_set_target lmkd_pack_get_cmd
lmkd_pack_get_target-set packet ts i t at v =
    let start = update packet 0 (htonl (code LmkCmd.target)) in
    let words = set_targets-at start 1 ts i t at in
    (
      ground
          (arith, words.0, words.1, receive-send t.minfree v.0, receive-send t.oom_adj_score v.1),
      rw (set_targets-below start 1 ts 0 (omega arith)) (ntohl-htonl 0 (omega arith)),
    )

-- A packed LMK_PROCPRIO request of a well-formed record is read back whole when all four fields are
-- read; a reader that counts only three fields takes the process for an application.
lmkd_pack_get_procprio-set :
    (packet : LmkdCtrlPacket) (p : LmkProcprio)
    → IsProcprio p
    → let (sent, size) = lmkd_pack_set_procprio packet p in
      (lmkd_pack_get_procprio sent (size / 4 - 1) ≡ p)
      × (lmkd_pack_get_procprio sent 3 ≡ record p { ptype = 0 })
      × (lmkd_pack_get_cmd sent ≡ code LmkCmd.procprio)
unfolding lmkd_pack_get_procprio lmkd_pack_set_procprio lmkd_pack_get_cmd put_procprio
lmkd_pack_get_procprio-set packet p v =
    let a = ntohl-htonl p.pid v.pid_word in
    let b = ntohl-htonl p.uid v.uid_word in
    let c = receive-send p.oomadj v.oomadj_int in
    let d = ntohl-htonl p.ptype v.ptype_word in
    (ground (arith, a, b, c, d), ground (arith, a, b, c), ntohl-htonl 1 (omega arith))
