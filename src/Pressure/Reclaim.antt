-- ===== src/Pressure/Reclaim.antt =====
-- lmkd.cpp: the part of `mp_event_psi` from the counters to the state of the reclaim and the amount
-- of thrashing.
use android_system_memory_lm.Base.{
  ℕ, suc, ◌+◌, ◌/◌, List, [], ◌∷◌, Bool, true, false, ◌||◌, not, ltb, ◌==◌, if◌then◌else◌, ℤ, pos,
  negsuc, ltb_ℤ, leb_ℤ, eqb_ℤ, max_ℤ, ◌+ℤ◌, ◌-ℤ◌, ◌*ℤ◌, quot, shift_right, pos_part, set,
}
use android_system_memory_lm.Polling.{Timespec, get_time_diff_ms}
use android_system_memory_lm.Pressure.{
  Config, State, Vmstat, ReclaimState, no_reclaim, kswapd_reclaim, direct_reclaim,
  direct_reclaim_throttle,
}

-- `vs.field.workingset_refault ? : vs.field.workingset_refault_file`.
unfoldable pub refaults : Vmstat → ℕ
refaults vs =
    if vs.workingset_refault == 0 then vs.workingset_refault_file else vs.workingset_refault

-- The pages skipped since the last reclaim, -1 for a zone that the kernel does not list.
unfoldable pub pgskip_differences : List ℤ → List ℤ → List ℤ
pgskip_differences [] inits = []
pgskip_differences (v ∷ vs) [] = []
pgskip_differences (v ∷ vs) (init ∷ inits) =
    (if leb_ℤ (pos 0) v then v -ℤ init else negsuc 0) ∷ pgskip_differences vs inits

-- Index 2 is the Normal zone.
unfoldable pub fill_log_pgskip_stats : ℤ → List ℤ → List ℤ → List ℤ
unfolding pgskip_differences
fill_log_pgskip_stats mglru_status pgskip init_pgskip =
    let deltas = pgskip_differences pgskip init_pgskip in
    if ltb_ℤ (pos 0) mglru_status then set deltas 2 (pos 0) else deltas

-- After a kill the thrashing is counted anew.
unfoldable pub reset_after_kill : Vmstat → Timespec → State → State
unfolding refaults
reset_after_kill vs curr_tm s =
    if s.killing
    then record s {
      killing = false;
      base_file_lru = vs.nr_inactive_file + vs.nr_active_file;
      init_ws_refault = refaults vs;
      thrashing_reset_tm = curr_tm;
      prev_thrash_growth = pos 0;
    }
    else s

unfoldable pub check_compaction : Vmstat → State → Bool × State
check_compaction vs s =
    if ltb s.init_compact_stall vs.compact_stall
    then (true, record s { init_compact_stall = vs.compact_stall })
    else (false, s)

abbrev is_set : Timespec → Bool
is_set t = not (eqb_ℤ t.tv_sec (pos 0)) || not (eqb_ℤ t.tv_nsec (pos 0))

unfoldable pub in_direct_reclaim : Config → Vmstat → State → Bool
in_direct_reclaim config vs s =
    if config.memevent_listener
    then is_set s.direct_reclaim_start_tm
    else not (vs.pgscan_direct == s.init_pgscan_direct)

unfoldable pub in_kswapd_reclaim : Config → Vmstat → State → Bool
in_kswapd_reclaim config vs s =
    if config.memevent_listener
    then is_set s.kswapd_start_tm
    else not (vs.pgscan_kswapd == s.init_pgscan_kswapd) || not (vs.pgrefill == s.init_pgrefill)

-- What the identification of the reclaim finds, besides the state. `is_quiet` says that nothing
-- refaulted either.
pub record Reclaim : Type 0 where
  pub reclaim : ReclaimState
  pub direct_reclaim_duration_ms : ℤ
  pub pgskip_deltas : List ℤ
  pub is_quiet : Bool

-- Index 4 is the Movable zone.
unfoldable pub identify_reclaim : Config → Vmstat → Timespec → List ℤ → State → Reclaim × State
unfolding in_direct_reclaim in_kswapd_reclaim refaults
identify_reclaim config vs curr_tm deltas s =
    let none_found : Reclaim = record {
      reclaim = no_reclaim;
      direct_reclaim_duration_ms = pos 0;
      pgskip_deltas = deltas;
      is_quiet = false;
    } in
    if in_direct_reclaim config vs s
    then (
      record none_found {
        reclaim = direct_reclaim;
        direct_reclaim_duration_ms = get_time_diff_ms s.direct_reclaim_start_tm curr_tm;
      },
      record s {
        init_pgscan_direct = vs.pgscan_direct;
        init_pgscan_kswapd = vs.pgscan_kswapd;
        init_pgrefill = vs.pgrefill;
        init_pgskip = vs.pgskip;
      },
    )
    else if ltb s.init_direct_throttle vs.pgscan_direct_throttle
    then (
      record none_found { reclaim = direct_reclaim_throttle },
      record s { init_direct_throttle = vs.pgscan_direct_throttle },
    )
    else if in_kswapd_reclaim config vs s
    then (
      record none_found {
        reclaim = kswapd_reclaim;
        pgskip_deltas = if eqb_ℤ s.mglru_status (pos 0) then deltas else set deltas 4 (pos 1);
      },
      record s {
        init_pgscan_kswapd = vs.pgscan_kswapd;
        init_pgrefill = vs.pgrefill;
        init_pgskip = vs.pgskip;
      },
    )
    else (record none_found { is_quiet = refaults vs == s.prev_workingset_refault }, s)

abbrev pub thrashing_reset_interval_ms : ℕ
thrashing_reset_interval_ms = 1000

-- The refaults since the last reset as a percentage of the file pages at that reset.
unfoldable pub thrash_growth : Vmstat → State → ℤ
unfolding refaults
thrash_growth vs s =
    quot ((pos (refaults vs) -ℤ pos s.init_ws_refault) *ℤ pos 100) (suc s.base_file_lru)

-- `prev_thrash_growth >>= windows_passed`.
unfoldable pub decay : Config → ℤ → ℕ → ℤ
decay config growth windows_passed =
    if ltb windows_passed 64
    then shift_right growth windows_passed
    else config.long_shift growth windows_passed

-- The counter of the window that has passed, decayed unless it may ask for a kill again.
unfoldable pub carried_growth : Config → Vmstat → ℕ → State → ℤ
unfolding thrash_growth decay
carried_growth config vs windows_passed s =
    let growth = thrash_growth vs s in
    if ltb 1 windows_passed || ltb_ℤ growth s.thrashing_limit
    then decay config growth windows_passed
    else growth

-- The new amount of thrashing, and the state with its counters.
unfoldable pub measure_thrashing : Config → Vmstat → Timespec → State → ℤ × State
unfolding carried_growth thrash_growth refaults
measure_thrashing config vs curr_tm s₀ =
    let s = record s₀ { prev_workingset_refault = refaults vs } in
    let since_ms = get_time_diff_ms s.thrashing_reset_tm curr_tm in
    let crossed = ltb_ℤ (pos thrashing_reset_interval_ms) since_ms in
    let windows_passed = pos_part since_ms / thrashing_reset_interval_ms in
    let fresh = if crossed then pos 0 else thrash_growth vs s in
    let s₁ =
      if crossed
      then record s {
        prev_thrash_growth = carried_growth config vs windows_passed s;
        base_file_lru = vs.nr_inactive_file + vs.nr_active_file;
        init_ws_refault = refaults vs;
        thrashing_reset_tm = curr_tm;
        thrashing_limit = pos config.thrashing_limit_pct;
      }
      else s in
    let thrashing = fresh +ℤ s₁.prev_thrash_growth in
    (thrashing, record s₁ { max_thrashing = max_ℤ s₁.max_thrashing thrashing })
