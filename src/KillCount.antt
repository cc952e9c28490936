-- ===== src/KillCount.antt =====
-- lmkd.cpp: the kill counters, `inc_killcnt` and `get_killcnt`.
pub mod Laws
use android_system_memory_lm.Base.{
  ℕ, zero, suc, ◌+◌, ◌-◌, ◌%◌, ◌^◌, List, [], ◌∷◌, Option, none, some, Bool, true, false, ltb, leb,
  ◌==◌, if◌then◌else◌, ℤ, pos, negsuc, ltb_ℤ, leb_ℤ, update,
}
use android_system_memory_lm.Packet.{to_int}
use android_system_memory_lm.ProcTable.{adj_to_slot, oom_score_adj_min, oom_score_adj_max}

abbrev pub max_distinct_oom_adj : ℕ
max_distinct_oom_adj = 32

abbrev pub killcnt_invalid_idx : ℕ
killcnt_invalid_idx = 255

abbrev pub adj_to_slot_count : ℕ
adj_to_slot_count = 2001

pub record KillCnt : Type 0 where
  pub killcnt_idx : ℕ → ℕ  -- uint8_t, by slot
  pub killcnt : ℕ → ℕ  -- uint16_t
  pub killcnt_free_idx : ℕ
  pub killcnt_total : ℕ  -- uint32_t

unfoldable pub initial : KillCnt
initial = record {
  killcnt_idx = λ slot. killcnt_invalid_idx;
  killcnt = λ i. 0;
  killcnt_free_idx = 0;
  killcnt_total = 0;
}

-- The counter of a slot, assigned at its first kill.
unfoldable pub count_slot : ℕ → KillCnt → KillCnt
count_slot slot s =
    let idx = s.killcnt_idx slot in
    if idx == killcnt_invalid_idx
    then (if ltb s.killcnt_free_idx max_distinct_oom_adj
        then record s {
          killcnt_idx = update s.killcnt_idx slot s.killcnt_free_idx;
          killcnt = update s.killcnt s.killcnt_free_idx 1;
          killcnt_free_idx = s.killcnt_free_idx + 1;
        }
        else s)
    else record s { killcnt = update s.killcnt idx ((s.killcnt idx + 1) % 2 ^ 16) }

unfoldable pub inc_killcnt : ℤ → KillCnt → KillCnt
unfolding count_slot
inc_killcnt oomadj s =
    let s' = count_slot (adj_to_slot oomadj) s in
    record s' { killcnt_total = (s'.killcnt_total + 1) % 2 ^ 32 }

-- What one slot adds to the count.
unfoldable pub slot_killcnt : ℕ → KillCnt → ℕ
slot_killcnt slot s =
    let idx = s.killcnt_idx slot in if idx == killcnt_invalid_idx then 0 else s.killcnt idx

-- The `while` loop from a slot to the last one asked for; the first argument is the number of slots
-- up to the end of the array.
unfoldable pub sum_slots : ℕ → ℕ → ℕ → KillCnt → ℕ
unfolding slot_killcnt
sum_slots zero slot last s = 0
sum_slots (suc n) slot last s =
    let rest = sum_slots n (slot + 1) last s in
    if leb slot last then slot_killcnt slot s + rest else 0

-- `none` is a read before the beginning of `killcnt_idx`.
unfoldable pub get_killcnt : ℤ → ℤ → KillCnt → Option ℤ
get_killcnt min_oomadj max_oomadj s =
    if ltb_ℤ max_oomadj min_oomadj
    then some (pos 0)
    else if ltb_ℤ oom_score_adj_max min_oomadj
    then some (to_int s.killcnt_total)
    else if ltb_ℤ min_oomadj oom_score_adj_min
    then none
    else let slot = adj_to_slot min_oomadj in
      some (pos (sum_slots (adj_to_slot_count - slot) slot (adj_to_slot max_oomadj) s))

-- The counters after some kills, the last one first.
unfoldable pub after_kills : List ℤ → KillCnt
after_kills [] = initial
after_kills (adj ∷ ks) = inc_killcnt adj (after_kills ks)
