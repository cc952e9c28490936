-- ===== src/KillCount/Laws.antt =====
-- lmkd.cpp: the counters tell how many kills there were at each score.
use android_system_memory_lm.Base.{
  ℕ, zero, suc, ◌+◌, ◌-◌, ◌%◌, ◌^◌, ◌≤◌, ◌<◌, ◌≡◌, ◌≢◌, ◌⊎◌, inl, refl, sym, arith, List, [], ◌∷◌,
  some, ◌&&◌, ltb, leb, ◌==◌, if◌then◌else◌, ℤ, pos, ◌≤ℤ◌, ◌<ℤ◌, leb_ℤ, length,
}
use android_system_memory_lm.Packet.{to_int}
use android_system_memory_lm.ProcTable.{adj_to_slot, oom_score_adj_min, oom_score_adj_max}
use android_system_memory_lm.KillCount.{
  KillCnt, killcnt_invalid_idx, max_distinct_oom_adj, adj_to_slot_count, initial, inc_killcnt,
  slot_killcnt, sum_slots, get_killcnt, after_kills,
}

-- How many kills had a score in a slot.
pub kills_at : ℕ → List ℤ → ℕ
kills_at slot [] = 0
kills_at slot (adj ∷ ks) = (if adj_to_slot adj == slot then 1 else 0) + kills_at slot ks

-- The counters agree with a history of kills.
pub record Counts (ks : List ℤ) (s : KillCnt) : Type 0 where
  pub free_bound : s.killcnt_free_idx ≤ max_distinct_oom_adj
  pub assigned :
      (slot : ℕ)
      → ((s.killcnt_idx slot ≡ killcnt_invalid_idx)
          × ((kills_at slot ks ≡ 0) ⊎ (s.killcnt_free_idx ≡ max_distinct_oom_adj)))
        ⊎ ((s.killcnt_idx slot < s.killcnt_free_idx)
            × (s.killcnt (s.killcnt_idx slot) ≡ kills_at slot ks % 2 ^ 16))
  pub distinct :
      (a b : ℕ) → s.killcnt_idx a ≡ s.killcnt_idx b → s.killcnt_idx a ≢ killcnt_invalid_idx → a ≡ b
  pub total : s.killcnt_total ≡ length ks % 2 ^ 32

initial-Counts : Counts [] initial
unfolding initial kills_at
initial-Counts = record {
  free_bound = omega arith;
  assigned = λ slot. inl (refl, inl refl);
  distinct = λ a b e n. absurd (n refl);
  total = refl;
}

inc_killcnt-Counts :
    (adj : ℤ) (ks : List ℤ) (s : KillCnt) → Counts ks s → Counts (adj ∷ ks) (inc_killcnt adj s)
unfolding inc_killcnt kills_at
inc_killcnt-Counts adj ks s v = record {
  free_bound = ground (arith, v.free_bound);
  assigned = λ slot. ground (
    arith,
    v.free_bound,
    v.assigned slot,
    v.assigned (adj_to_slot adj),
    v.distinct slot (adj_to_slot adj),
  );
  distinct = λ a b e n. ground (arith, v.free_bound, v.assigned a, v.assigned b, v.distinct a b);
  total = ground (arith, v.total);
}

after_kills-Counts : (ks : List ℤ) → Counts ks (after_kills ks)
unfolding after_kills
after_kills-Counts [] = initial-Counts
after_kills-Counts (adj ∷ ks) = inc_killcnt-Counts adj ks (after_kills ks) (after_kills-Counts ks)

kills_at-le : (slot : ℕ) (ks : List ℤ) → kills_at slot ks ≤ length ks
unfolding kills_at
kills_at-le slot [] = omega arith
kills_at-le slot (adj ∷ ks) = ground (arith, kills_at-le slot ks)

slot_killcnt_lem :
    (slot : ℕ) (ks : List ℤ) (s : KillCnt)
    → Counts ks s
    → s.killcnt_free_idx < max_distinct_oom_adj
    → length ks < 2 ^ 16
    → slot_killcnt slot s ≡ kills_at slot ks
unfolding slot_killcnt
slot_killcnt_lem slot ks s v room few = ground (arith, v.assigned slot, kills_at-le slot ks)

-- How many kills had a score in a slot from `lo` to `hi` and below `end`.
kills_in : ℕ → ℕ → ℕ → List ℤ → ℕ
kills_in lo hi end [] = 0
kills_in lo hi end (adj ∷ ks) =
    let k = adj_to_slot adj in
    (if leb lo k && leb k hi && ltb k end then 1 else 0) + kills_in lo hi end ks

kills_in_step :
    (lo hi end : ℕ) (ks : List ℤ)
    → lo < end
    → kills_in lo hi end ks
      ≡ (if leb lo hi then kills_at lo ks + kills_in (lo + 1) hi end ks else 0)
unfolding kills_in kills_at
kills_in_step lo hi end [] h = ground arith
kills_in_step lo hi end (adj ∷ ks) h = ground (arith, kills_in_step lo hi end ks h)

kills_in_none : (lo hi end : ℕ) (ks : List ℤ) → end ≤ lo → kills_in lo hi end ks ≡ 0
unfolding kills_in
kills_in_none lo hi end [] h = refl
kills_in_none lo hi end (adj ∷ ks) h = ground (arith, kills_in_none lo hi end ks h)

module _ (ks : List ℤ) (s : KillCnt) (v : Counts ks s)
    (room : s.killcnt_free_idx < max_distinct_oom_adj) (few : length ks < 2 ^ 16) where
  sum_slots_lem :
      (n slot last end : ℕ) → end ≡ slot + n → sum_slots n slot last s ≡ kills_in slot last end ks
  unfolding sum_slots
  sum_slots_lem zero slot last end e = sym (kills_in_none slot last end ks (omega arith))
  sum_slots_lem (suc n) slot last end e = ground (
    arith,
    slot_killcnt_lem slot ks s v room few,
    kills_in_step slot last end ks,
    sum_slots_lem n (slot + 1) last end,
  )

-- How many kills had a score from `lo` to `hi`.
unfoldable pub kills_between : ℤ → ℤ → List ℤ → ℕ
kills_between lo hi [] = 0
kills_between lo hi (adj ∷ ks) =
    (if leb_ℤ lo adj && leb_ℤ adj hi then 1 else 0) + kills_between lo hi ks

abbrev pub AllScores : List ℤ → Type 0
AllScores [] = Unit {0}
AllScores (adj ∷ ks) = (oom_score_adj_min ≤ℤ adj) × (adj ≤ℤ oom_score_adj_max) × AllScores ks

kills_between_lem :
    (lo hi : ℤ) (ks : List ℤ)
    → oom_score_adj_min ≤ℤ lo
    → lo ≤ℤ hi
    → AllScores ks
    → kills_in (adj_to_slot lo) (adj_to_slot hi) adj_to_slot_count ks ≡ kills_between lo hi ks
unfolding kills_in kills_between
kills_between_lem lo hi [] l h a = refl
kills_between_lem lo hi (adj ∷ ks) l h a = ground (arith, kills_between_lem lo hi ks l h a.2)

-- After any history of fewer than 65536 kills, at scores in range and at fewer than 32 distinct
-- ones, the count for a range of scores that begins in range is the number of kills at its scores.
pub get_killcnt-after_kills :
    (ks : List ℤ) (lo hi : ℤ)
    → AllScores ks
    → length ks < 2 ^ 16
    → (after_kills ks).killcnt_free_idx < max_distinct_oom_adj
    → oom_score_adj_min ≤ℤ lo
    → lo ≤ℤ oom_score_adj_max
    → lo ≤ℤ hi
    → get_killcnt lo hi (after_kills ks) ≡ some (pos (kills_between lo hi ks))
unfolding get_killcnt
get_killcnt-after_kills ks lo hi a few room l m h =
    let slot = adj_to_slot lo in
    ground (
      arith,
      sum_slots_lem ks (after_kills ks) (after_kills-Counts ks) room few (adj_to_slot_count - slot)
          slot (adj_to_slot hi) adj_to_slot_count,
      kills_between_lem lo hi ks l h a,
    )

-- A request for scores above 1000 gives the number of all kills, as an `int`, also when the counters
-- of the scores ran out or wrapped.
get_killcnt-total :
    (ks : List ℤ) (lo hi : ℤ)
    → oom_score_adj_max <ℤ lo
    → lo ≤ℤ hi
    → get_killcnt lo hi (after_kills ks) ≡ some (to_int (length ks % 2 ^ 32))
unfolding get_killcnt
get_killcnt-total ks lo hi l h = ground (arith, (after_kills-Counts ks).total)
