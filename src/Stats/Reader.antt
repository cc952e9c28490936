-- ===== src/Stats/Reader.antt =====
-- statslog.cpp: the whole packet about a kill, packed and read again.
use mathlib.Core.List.{append_assoc, append-nil}
use android_system_memory_lm.Base.{
  ℕ, ◌≡◌, refl, ap, ◌∙◌, arith, [], ◌++◌, Option, some, true, ℤ, pos, take,
}
use android_system_memory_lm.Packet.{LmkCmd, code, to_word, to_int, IsInt, to_int-to_word}
use android_system_memory_lm.Stats.Packet.{
  LmkKillOccurredPacket, MemoryStat, KillStat, reason_number, be32, be64, pack_int32,
  pack_memory_stat, pack_kill_stat, stat_or_missing, lmkd_pack_set_kill_occurred,
}
use android_system_memory_lm.Stats.RoundTrip.{
  sent, sent_at, sent_name, pack_int32-sent, pack_int64-sent, pack_string-sent, ◌>>=◌, read_int,
  read_long, read_utf, read_int-be32, read_long-be64, read_utf-sent_name, IsLong,
}
use android_system_memory_lm.Pressure.{KillReason, no_reason}
use android_system_memory_lm.Text.{Bytes}

-- What the framework gets to know of a kill.
pub record KillOccurred : Type 0 where
  pub command : ℤ
  pub memory : MemoryStat
  pub uid : ℤ
  pub oom_score : ℤ
  pub min_oom_score : ℤ
  pub free_mem_kb : ℤ
  pub free_swap_kb : ℤ
  pub kill_reason : ℤ
  pub thrashing : ℤ
  pub max_thrashing : ℤ
  pub taskname : Bytes

unfoldable pub read_memory : Bytes → Option (MemoryStat × Bytes)
read_memory bytes = do
  (pgfault, a) ← read_long bytes
  (pgmajfault, b) ← read_long a
  (rss, c) ← read_long b
  (cache, d) ← read_long c
  (swap, e) ← read_long d
  (start, f) ← read_long e
  some (
    record {
      pgfault = pgfault;
      pgmajfault = pgmajfault;
      rss_in_bytes = rss;
      cache_in_bytes = cache;
      swap_in_bytes = swap;
      process_start_time_ns = start;
    },
    f,
  )

unfoldable pub read_kill_occurred : Bytes → Option KillOccurred
read_kill_occurred bytes = do
  (command, a) ← read_int bytes
  (memory, b) ← read_memory a
  (uid, c) ← read_int b
  (oom_score, d) ← read_int c
  (min_oom_score, e) ← read_int d
  (free_mem_kb, f) ← read_int e
  (free_swap_kb, g) ← read_int f
  (kill_reason, h) ← read_int g
  (thrashing, i) ← read_int h
  (max_thrashing, j) ← read_int i
  (taskname, k) ← read_utf j
  some (record {
    command = command;
    memory = memory;
    uid = uid;
    oom_score = oom_score;
    min_oom_score = min_oom_score;
    free_mem_kb = free_mem_kb;
    free_swap_kb = free_swap_kb;
    kill_reason = kill_reason;
    thrashing = thrashing;
    max_thrashing = max_thrashing;
    taskname = taskname;
  })

-- The statistics fit the words that carry them; the sizes in kB may be longer and are cut.
pub record IsMemoryStat (m : MemoryStat) : Type 0 where
  pub pgfault_long : IsLong m.pgfault
  pub pgmajfault_long : IsLong m.pgmajfault
  pub rss_long : IsLong m.rss_in_bytes
  pub cache_long : IsLong m.cache_in_bytes
  pub swap_long : IsLong m.swap_in_bytes
  pub start_long : IsLong m.process_start_time_ns

pub record IsKillStat (k : KillStat) : Type 0 where
  pub uid_int : IsInt k.uid
  pub oom_score_int : IsInt k.oom_score
  pub min_oom_score_int : IsInt k.min_oom_score
  pub thrashing_int : IsInt k.thrashing
  pub max_thrashing_int : IsInt k.max_thrashing

-- The bytes of the statistics, in front of what follows.
memory_bytes : MemoryStat → Bytes → Bytes
memory_bytes m rest =
    be64 m.pgfault
    ++ (be64 m.pgmajfault
        ++ (be64 m.rss_in_bytes
            ++ (be64 m.cache_in_bytes
                ++ (be64 m.swap_in_bytes ++ (be64 m.process_start_time_ns ++ rest)))))

read_memory-bytes :
    (m : MemoryStat) (rest : Bytes)
    → IsMemoryStat m
    → read_memory (memory_bytes m rest) ≡ some (m, rest)
unfolding read_memory memory_bytes
read_memory-bytes m rest v =
    rw
      (
        read_long-be64 m.pgfault _ v.pgfault_long,
        read_long-be64 m.pgmajfault _ v.pgmajfault_long,
        read_long-be64 m.rss_in_bytes _ v.rss_long,
        read_long-be64 m.cache_in_bytes _ v.cache_long,
        read_long-be64 m.swap_in_bytes _ v.swap_long,
        read_long-be64 m.process_start_time_ns _ v.start_long,
      )
      refl

pack_memory_stat-sent :
    (at : LmkKillOccurredPacket × ℕ) (m : MemoryStat)
    → sent_at (pack_memory_stat at m) ≡ sent_at at ++ memory_bytes m []
unfolding pack_memory_stat memory_bytes
pack_memory_stat-sent at m = simp (pack_int64-sent, append_assoc, append-nil)

stat_bytes : KillStat → Bytes → Bytes
stat_bytes k rest =
    be32 (to_word k.uid)
    ++ (be32 (to_word k.oom_score)
        ++ (be32 (to_word k.min_oom_score)
            ++ (be32 (to_word k.free_mem_kb)
                ++ (be32 (to_word k.free_swap_kb)
                    ++ (be32 (to_word (reason_number k.kill_reason))
                        ++ (be32 (to_word k.thrashing)
                            ++ (be32 (to_word k.max_thrashing) ++ rest)))))))

pack_kill_stat-sent :
    (at : LmkKillOccurredPacket × ℕ) (k : KillStat)
    → sent_at (pack_kill_stat at k) ≡ sent_at at ++ stat_bytes k []
unfolding pack_kill_stat stat_bytes
pack_kill_stat-sent at k = simp (pack_int32-sent, append_assoc, append-nil)

abbrev whole_bytes : KillStat → MemoryStat → Bytes
whole_bytes k m =
    be32 (to_word (pos (code LmkCmd.stat_kill_occurred)))
    ++ (memory_bytes m [] ++ (stat_bytes k [] ++ sent_name k.taskname))

regroup : (a b c d : Bytes) → (((a ++ b) ++ c) ++ d) ≡ a ++ (b ++ (c ++ d))
regroup a b c d = simp append_assoc

sent_whole :
    (packet : LmkKillOccurredPacket) (k : KillStat) (m : Option MemoryStat)
    → sent_at (lmkd_pack_set_kill_occurred true packet k m) ≡ whole_bytes k (stat_or_missing m)
unfolding lmkd_pack_set_kill_occurred sent
sent_whole packet k m =
    let head = pack_int32 (packet, 0) (pos (code LmkCmd.stat_kill_occurred)) in
    let memory = pack_memory_stat head (stat_or_missing m) in
    pack_string-sent (pack_kill_stat memory k) k.taskname
    ∙ ap (λ (a : Bytes). a ++ sent_name k.taskname)
        (pack_kill_stat-sent memory k
          ∙ ap (λ (a : Bytes). a ++ stat_bytes k [])
              (pack_memory_stat-sent head (stat_or_missing m)
                ∙ ap (λ (a : Bytes). a ++ memory_bytes (stat_or_missing m) [])
                    (pack_int32-sent (packet, 0) (pos (code LmkCmd.stat_kill_occurred)))))
    ∙ regroup (be32 (to_word (pos (code LmkCmd.stat_kill_occurred))))
        (memory_bytes (stat_or_missing m) []) (stat_bytes k []) (sent_name k.taskname)

memory_bytes-append :
    (m : MemoryStat) (rest : Bytes) → memory_bytes m [] ++ rest ≡ memory_bytes m rest
unfolding memory_bytes
memory_bytes-append m rest = simp (append_assoc, append-nil)

stat_bytes-append : (k : KillStat) (rest : Bytes) → stat_bytes k [] ++ rest ≡ stat_bytes k rest
unfolding stat_bytes
stat_bytes-append k rest = simp (append_assoc, append-nil)

reason_number-IsInt : (r : KillReason) → IsInt (reason_number r)
unfolding reason_number
reason_number-IsInt no_reason = omega arith
reason_number-IsInt _ = omega arith

-- What arrives of a kill whose statistics fit: each value, the sizes in kB as the `int` of their low
-- 32 bits, and the first 127 bytes of the name.
abbrev pub arrived : KillStat → MemoryStat → KillOccurred
arrived k m = record {
  command = pos (code LmkCmd.stat_kill_occurred);
  memory = m;
  uid = k.uid;
  oom_score = k.oom_score;
  min_oom_score = k.min_oom_score;
  free_mem_kb = to_int (to_word k.free_mem_kb);
  free_swap_kb = to_int (to_word k.free_swap_kb);
  kill_reason = reason_number k.kill_reason;
  thrashing = k.thrashing;
  max_thrashing = k.max_thrashing;
  taskname = take 127 k.taskname;
}

read_whole :
    (k : KillStat) (m : MemoryStat)
    → IsKillStat k
    → IsMemoryStat m
    → read_kill_occurred (whole_bytes k m) ≡ some (arrived k m)
unfolding read_kill_occurred stat_bytes
read_whole k m v w =
    rw
      (
        read_int-be32 (pos (code LmkCmd.stat_kill_occurred)) _,
        memory_bytes-append m _,
        stat_bytes-append k _,
        read_memory-bytes m _ w,
      )
      (rw
        (
          read_int-be32 k.uid _,
          read_int-be32 k.oom_score _,
          read_int-be32 k.min_oom_score _,
          read_int-be32 k.free_mem_kb _,
          read_int-be32 k.free_swap_kb _,
          read_int-be32 (reason_number k.kill_reason) _,
          read_int-be32 k.thrashing _,
          read_int-be32 k.max_thrashing _,
          read_utf-sent_name k.taskname,
          to_int-to_word k.uid v.uid_int,
          to_int-to_word k.oom_score v.oom_score_int,
          to_int-to_word k.min_oom_score v.min_oom_score_int,
          to_int-to_word (reason_number k.kill_reason) (reason_number-IsInt k.kill_reason),
          to_int-to_word k.thrashing v.thrashing_int,
          to_int-to_word k.max_thrashing v.max_thrashing_int,
        )
        (ap (λ (c : ℤ). some (record (arrived k m) { command = c }))
          (to_int-to_word (pos (code LmkCmd.stat_kill_occurred)) (omega arith))))

-- What lmkd_pack_set_kill_occurred packs about a kill, with statistics of the memory or without, is
-- read by the framework from the bytes that are sent: every value of the statistics that fits its
-- word, -1 for each that is missing, the sizes in kB cut to 32 bits, the number of the reason, and
-- the first 127 bytes of the name.
pub read_kill_occurred-sent :
    (packet : LmkKillOccurredPacket) (k : KillStat) (m : Option MemoryStat)
    → IsKillStat k
    → IsMemoryStat (stat_or_missing m)
    → read_kill_occurred (sent_at (lmkd_pack_set_kill_occurred true packet k m))
      ≡ some (arrived k (stat_or_missing m))
read_kill_occurred-sent packet k m v w =
    ap read_kill_occurred (sent_whole packet k m) ∙ read_whole k (stat_or_missing m) v w
