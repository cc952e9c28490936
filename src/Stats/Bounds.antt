-- ===== src/Stats/Bounds.antt =====
-- statslog.cpp: where the packet about a kill is written.
use android_system_memory_lm.Base.{
  ℕ, ◌+◌, ◌<◌, ◌≤◌, ◌≡◌, refl, ◌∙◌, arith, ◌++◌, Option, true, ℤ, pos,
}
use android_system_memory_lm.Packet.{LmkCmd, code, to_word}
use android_system_memory_lm.Stats.Packet.{
  LmkKillOccurredPacket, lmkd_reply_max_size, MemoryStat, KillStat, reason_number, be16, be32, be64,
  pack_int32, pack_int64, len_proc_name, padded, pack_string, pack_memory_stat, pack_kill_stat,
  stat_or_missing, lmkd_pack_set_kill_occurred,
}
use android_system_memory_lm.Stats.RoundTrip.{write-above, length-padded, len_proc_name-le}
use android_system_memory_lm.Text.{Bytes}

-- A writer moves the index by this much, and leaves all bytes alone from some distance on.
record Reaches (moved extent : ℕ) (at after : LmkKillOccurredPacket × ℕ) : Type 0 where
  index : after.1 ≡ at.1 + moved
  kept : (j : ℕ) → at.1 + extent ≤ j → after.0 j ≡ at.0 j

Reaches-trans :
    {a b c : LmkKillOccurredPacket × ℕ} (m n e : ℕ)
    → n ≤ e
    → Reaches m m a b
    → Reaches n e b c
    → Reaches (m + n) (m + e) a c
Reaches-trans m n e l r q = record {
  index = omega (arith, r.index, q.index);
  kept = λ j h. q.kept j (omega (arith, r.index)) ∙ r.kept j (omega arith);
}

pack_int32-Reaches : (at : LmkKillOccurredPacket × ℕ) (v : ℤ) → Reaches 4 4 at (pack_int32 at v)
unfolding pack_int32 be32
pack_int32-Reaches (p, i) v = record {
  index = refl;
  kept = λ j h. write-above i (be32 (to_word v)) p j h;
}

pack_int64-Reaches : (at : LmkKillOccurredPacket × ℕ) (v : ℤ) → Reaches 8 8 at (pack_int64 at v)
unfolding pack_int64 be64 be32
pack_int64-Reaches (p, i) v = record { index = refl; kept = λ j h. write-above i (be64 v) p j h }

pack_string-Reaches :
    (at : LmkKillOccurredPacket × ℕ) (name : Bytes)
    → Reaches (3 + len_proc_name name) 130 at (pack_string at name)
unfolding pack_string
pack_string-Reaches (p, i) name = record {
  index = refl;
  kept = λ j h.
      write-above i (be16 (len_proc_name name) ++ padded name) p j
        (omega (arith, length-padded name));
}

pack_memory_stat-Reaches :
    (at : LmkKillOccurredPacket × ℕ) (m : MemoryStat) → Reaches 48 48 at (pack_memory_stat at m)
unfolding pack_memory_stat
pack_memory_stat-Reaches at m =
    let a = pack_int64 at m.pgfault in
    let b = pack_int64 a m.pgmajfault in
    let c = pack_int64 b m.rss_in_bytes in
    let d = pack_int64 c m.cache_in_bytes in
    let e = pack_int64 d m.swap_in_bytes in
    Reaches-trans 40 8 8 (omega arith)
      (Reaches-trans 32 8 8 (omega arith)
        (Reaches-trans 24 8 8 (omega arith)
          (Reaches-trans 16 8 8 (omega arith)
            (Reaches-trans 8 8 8 (omega arith) (pack_int64-Reaches at m.pgfault)
              (pack_int64-Reaches a m.pgmajfault))
            (pack_int64-Reaches b m.rss_in_bytes))
          (pack_int64-Reaches c m.cache_in_bytes))
        (pack_int64-Reaches d m.swap_in_bytes))
      (pack_int64-Reaches e m.process_start_time_ns)

pack_kill_stat-Reaches :
    (at : LmkKillOccurredPacket × ℕ) (k : KillStat) → Reaches 32 32 at (pack_kill_stat at k)
unfolding pack_kill_stat
pack_kill_stat-Reaches at k =
    let a = pack_int32 at k.uid in
    let b = pack_int32 a k.oom_score in
    let c = pack_int32 b k.min_oom_score in
    let d = pack_int32 c k.free_mem_kb in
    let e = pack_int32 d k.free_swap_kb in
    let f = pack_int32 e (reason_number k.kill_reason) in
    let g = pack_int32 f k.thrashing in
    Reaches-trans 28 4 4 (omega arith)
      (Reaches-trans 24 4 4 (omega arith)
        (Reaches-trans 20 4 4 (omega arith)
          (Reaches-trans 16 4 4 (omega arith)
            (Reaches-trans 12 4 4 (omega arith)
              (Reaches-trans 8 4 4 (omega arith)
                (Reaches-trans 4 4 4 (omega arith) (pack_int32-Reaches at k.uid)
                  (pack_int32-Reaches a k.oom_score))
                (pack_int32-Reaches b k.min_oom_score))
              (pack_int32-Reaches c k.free_mem_kb))
            (pack_int32-Reaches d k.free_swap_kb))
          (pack_int32-Reaches e (reason_number k.kill_reason)))
        (pack_int32-Reaches f k.thrashing))
      (pack_int32-Reaches g k.max_thrashing)

whole-Reaches :
    (packet : LmkKillOccurredPacket) (k : KillStat) (m : Option MemoryStat)
    → Reaches
        (87 + len_proc_name k.taskname)
        214
        (packet, 0)
        (lmkd_pack_set_kill_occurred true packet k m)
unfolding lmkd_pack_set_kill_occurred
whole-Reaches packet k m =
    let command = pos (code LmkCmd.stat_kill_occurred) in
    let head = pack_int32 (packet, 0) command in
    let memory = pack_memory_stat head (stat_or_missing m) in
    let stats = pack_kill_stat memory k in
    let w : Reaches (84 + (3 + len_proc_name k.taskname)) 214 (packet, 0)
        (pack_string stats k.taskname) =
      Reaches-trans 84 (3 + len_proc_name k.taskname) 130
        (omega (arith, len_proc_name-le k.taskname))
        (Reaches-trans 52 32 32 (omega arith)
          (Reaches-trans 4 48 48 (omega arith) (pack_int32-Reaches (packet, 0) command)
            (pack_memory_stat-Reaches head (stat_or_missing m)))
          (pack_kill_stat-Reaches memory k))
        (pack_string-Reaches stats k.taskname) in
    record { index = omega (arith, w.index); kept = w.kept }

-- The size that lmkd_pack_set_kill_occurred returns is 87 and the length of the name, of which 127
-- bytes count at most, so it stays below LMKD_REPLY_MAX_SIZE, and no byte behind the packet is
-- written, whatever the name and the statistics are.
pub lmkd_pack_set_kill_occurred_fits :
    (packet : LmkKillOccurredPacket) (k : KillStat) (m : Option MemoryStat)
    → ((lmkd_pack_set_kill_occurred true packet k m).1 ≡ 87 + len_proc_name k.taskname)
      × ((lmkd_pack_set_kill_occurred true packet k m).1 < lmkd_reply_max_size)
      × ((j : ℕ)
          → lmkd_reply_max_size ≤ j
          → (lmkd_pack_set_kill_occurred true packet k m).0 j ≡ packet j)
lmkd_pack_set_kill_occurred_fits packet k m =
    let r = whole-Reaches packet k m in
    (
      omega (arith, r.index),
      omega (arith, r.index, len_proc_name-le k.taskname),
      λ j h. r.kept j (omega arith),
    )
