-- ===== src/Stats/Packet.antt =====
-- statslog.cpp: `lmkd_pack_set_kill_occurred` and the functions that write its fields. A packet is the
-- function from an index to the byte that stands there. `htonl`, `htonq` and `htons` followed by the
-- store of the word put the high byte first.
use android_system_memory_lm.Base.{
  ℕ, ◌+◌, ◌-◌, ◌/◌, ◌%◌, ◌^◌, [], ◌∷◌, ◌++◌, Option, none, some, Bool, true, false, ltb,
  if◌then◌else◌, ℤ, pos, negsuc, length, take, replicate, update,
}
use android_system_memory_lm.Packet.{LmkCmd, code, to_word}
use android_system_memory_lm.Pressure.{
  KillReason, no_reason, pressure_after_kill, not_responding, low_swap_and_thrashing,
  low_mem_and_swap, low_mem_and_thrashing, direct_recl_and_thrashing, low_mem_and_swap_util,
  low_filecache_after_thrashing, low_mem, compaction, direct_recl_and_throt, direct_recl_stuck,
}
use android_system_memory_lm.Text.{Bytes}

abbrev pub LmkKillOccurredPacket : Type 0
LmkKillOccurredPacket = ℕ → ℕ

abbrev pub lmkd_reply_max_size : ℕ
lmkd_reply_max_size = 222

pub record MemoryStat : Type 0 where
  pub pgfault : ℤ
  pub pgmajfault : ℤ
  pub rss_in_bytes : ℤ
  pub cache_in_bytes : ℤ
  pub swap_in_bytes : ℤ
  pub process_start_time_ns : ℤ

pub record KillStat : Type 0 where
  pub uid : ℤ
  pub taskname : Bytes
  pub kill_reason : KillReason
  pub oom_score : ℤ
  pub min_oom_score : ℤ
  pub free_mem_kb : ℤ
  pub free_swap_kb : ℤ
  pub thrashing : ℤ
  pub max_thrashing : ℤ

-- `enum kill_reasons`; the code gives 11, DIRECT_RECL_AND_LOW_MEM, to no kill.
unfoldable pub reason_number : KillReason → ℤ
reason_number no_reason = negsuc 0
reason_number pressure_after_kill = pos 0
reason_number not_responding = pos 1
reason_number low_swap_and_thrashing = pos 2
reason_number low_mem_and_swap = pos 3
reason_number low_mem_and_thrashing = pos 4
reason_number direct_recl_and_thrashing = pos 5
reason_number low_mem_and_swap_util = pos 6
reason_number low_filecache_after_thrashing = pos 7
reason_number low_mem = pos 8
reason_number compaction = pos 9
reason_number direct_recl_and_throt = pos 10
reason_number direct_recl_stuck = pos 12

-- The bytes of a word of two and of four bytes, the high one first.
unfoldable pub be16 : ℕ → Bytes
be16 w = w / 256 % 256 ∷ w % 256 ∷ []

unfoldable pub be32 : ℕ → Bytes
be32 w = w / 16777216 % 256 ∷ w / 65536 % 256 ∷ w / 256 % 256 ∷ w % 256 ∷ []

-- The bit pattern of an `int64_t`.
unfoldable pub to_long_word : ℤ → ℕ
to_long_word (pos n) = n % 2 ^ 64
to_long_word (negsuc n) = 2 ^ 64 - 1 - n % 2 ^ 64

unfoldable pub be64 : ℤ → Bytes
be64 v = be32 (to_long_word v / 2 ^ 32) ++ be32 (to_long_word v % 2 ^ 32)

-- Bytes written from an index on.
unfoldable pub write_bytes : ℕ → Bytes → LmkKillOccurredPacket → LmkKillOccurredPacket
write_bytes index [] packet = packet
write_bytes index (b ∷ bs) packet = write_bytes (index + 1) bs (update packet index b)

unfoldable pub pack_int32 : LmkKillOccurredPacket × ℕ → ℤ → LmkKillOccurredPacket × ℕ
pack_int32 (packet, index) value = (write_bytes index (be32 (to_word value)) packet, index + 4)

unfoldable pub pack_int64 : LmkKillOccurredPacket × ℕ → ℤ → LmkKillOccurredPacket × ℕ
pack_int64 (packet, index) value = (write_bytes index (be64 value) packet, index + 8)

-- MIN(strlen(value), MAX_TASKNAME_LEN - 1).
abbrev pub len_proc_name : Bytes → ℕ
len_proc_name value = if ltb (length value) 127 then length value else 127

-- What `strncpy` of 127 bytes and the terminating zero write.
abbrev pub padded : Bytes → Bytes
padded value = take 127 value ++ replicate (128 - len_proc_name value) 0

unfoldable pub pack_string : LmkKillOccurredPacket × ℕ → Bytes → LmkKillOccurredPacket × ℕ
pack_string (packet, index) value = (
  write_bytes index (be16 (len_proc_name value) ++ padded value) packet,
  index + (3 + len_proc_name value),
)

-- Six values of -1 where there are no statistics of the memory.
abbrev pub missing_stat : MemoryStat
missing_stat = record {
  pgfault = negsuc 0;
  pgmajfault = negsuc 0;
  rss_in_bytes = negsuc 0;
  cache_in_bytes = negsuc 0;
  swap_in_bytes = negsuc 0;
  process_start_time_ns = negsuc 0;
}

unfoldable pub pack_memory_stat : LmkKillOccurredPacket × ℕ → MemoryStat → LmkKillOccurredPacket × ℕ
unfolding pack_int64
pack_memory_stat at m =
    let a = pack_int64 at m.pgfault in
    let b = pack_int64 a m.pgmajfault in
    let c = pack_int64 b m.rss_in_bytes in
    let d = pack_int64 c m.cache_in_bytes in
    let e = pack_int64 d m.swap_in_bytes in pack_int64 e m.process_start_time_ns

unfoldable pub pack_kill_stat : LmkKillOccurredPacket × ℕ → KillStat → LmkKillOccurredPacket × ℕ
unfolding pack_int32 reason_number
pack_kill_stat at k =
    let a = pack_int32 at k.uid in
    let b = pack_int32 a k.oom_score in
    let c = pack_int32 b k.min_oom_score in
    let d = pack_int32 c k.free_mem_kb in
    let e = pack_int32 d k.free_swap_kb in
    let f = pack_int32 e (reason_number k.kill_reason) in
    let g = pack_int32 f k.thrashing in pack_int32 g k.max_thrashing

abbrev pub stat_or_missing : Option MemoryStat → MemoryStat
stat_or_missing none = missing_stat
stat_or_missing (some m) = m

-- The packet and its size; the size 0 says that nothing is to be sent.
unfoldable pub lmkd_pack_set_kill_occurred :
    Bool → LmkKillOccurredPacket → KillStat → Option MemoryStat → LmkKillOccurredPacket × ℕ
unfolding pack_memory_stat pack_kill_stat pack_string pack_int32
lmkd_pack_set_kill_occurred false packet kill_stat mem_stat = (packet, 0)
lmkd_pack_set_kill_occurred true packet kill_stat mem_stat =
    let head = pack_int32 (packet, 0) (pos (code LmkCmd.stat_kill_occurred)) in
    let memory = pack_memory_stat head (stat_or_missing mem_stat) in
    pack_string (pack_kill_stat memory kill_stat) kill_stat.taskname
