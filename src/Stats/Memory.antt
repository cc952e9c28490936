-- ===== src/Stats/Memory.antt =====
-- statslog.cpp: the statistics of the memory of a process, from its cgroup or from /proc/<pid>/stat.
-- A value that `sscanf` does not assign is `none`; the file of the kernel always has one.
use android_system_memory_lm.Base.{
  ℕ, List, [], ◌∷◌, Option, none, some, Bool, true, false, ltb, ◌==◌, if◌then◌else◌, ℤ, pos, ◌*ℤ◌,
}
use android_system_memory_lm.Text.{Bytes, str_eq}
use android_system_memory_lm.Text.Scan.{
  Conversion, skip_word, skip_int, read_long, scan_word, scan_int, scan,
}
use android_system_memory_lm.Stats.Packet.{MemoryStat}

-- `strcmp(s, t) < 0`.
unfoldable pub str_lt : Bytes → Bytes → Bool
str_lt [] [] = false
str_lt [] (d ∷ t) = true
str_lt (c ∷ s) [] = false
str_lt (c ∷ s) (d ∷ t) = if c == d then str_lt s t else ltb c d

abbrev total_prefix : Bytes
total_prefix = b't' ∷ b'o' ∷ b't' ∷ b'a' ∷ b'l' ∷ b'_' ∷ []

abbrev total_pgfault : Bytes
total_pgfault =
    b't' ∷ b'o' ∷ b't' ∷ b'a' ∷ b'l' ∷ b'_' ∷ b'p' ∷ b'g' ∷ b'f' ∷ b'a' ∷ b'u' ∷ b'l' ∷ b't' ∷ []

abbrev total_pgmajfault : Bytes
total_pgmajfault =
    b't' ∷ b'o' ∷ b't' ∷ b'a' ∷ b'l' ∷ b'_' ∷ b'p' ∷ b'g' ∷ b'm' ∷ b'a' ∷ b'j' ∷ b'f' ∷ b'a' ∷ b'u'
    ∷ b'l' ∷ b't' ∷ []

abbrev total_rss : Bytes
total_rss = b't' ∷ b'o' ∷ b't' ∷ b'a' ∷ b'l' ∷ b'_' ∷ b'r' ∷ b's' ∷ b's' ∷ []

abbrev total_cache : Bytes
total_cache = b't' ∷ b'o' ∷ b't' ∷ b'a' ∷ b'l' ∷ b'_' ∷ b'c' ∷ b'a' ∷ b'c' ∷ b'h' ∷ b'e' ∷ []

abbrev total_swap : Bytes
total_swap = b't' ∷ b'o' ∷ b't' ∷ b'a' ∷ b'l' ∷ b'_' ∷ b's' ∷ b'w' ∷ b'a' ∷ b'p' ∷ []

-- The chain of `strcmp`, once the key and the value are read.
unfoldable pub assign_stat : Bytes → ℤ → MemoryStat → MemoryStat
assign_stat key value mem_st =
    if str_lt key total_prefix
    then mem_st
    else if str_eq key total_pgfault
    then record mem_st { pgfault = value }
    else if str_eq key total_pgmajfault
    then record mem_st { pgmajfault = value }
    else if str_eq key total_rss
    then record mem_st { rss_in_bytes = value }
    else if str_eq key total_cache
    then record mem_st { cache_in_bytes = value }
    else if str_eq key total_swap
    then record mem_st { swap_in_bytes = value }
    else mem_st

-- "%128s  %lld"; the keys of the file are shorter than 128 bytes, so the bound cuts none.
unfoldable pub memory_stat_parse_line : Bytes → MemoryStat → Option MemoryStat
unfolding assign_stat
memory_stat_parse_line line mem_st = elim (scan_word line) [
  | none ↦ none
  | some p ↦ elim (scan_int p.1) [ none ↦ none | some v ↦ some (assign_stat p.0 v.0 mem_st) ]
]

-- The lines that `fgets` gives, one after the other.
unfoldable pub memory_stat_from_cgroup : List Bytes → MemoryStat → Option MemoryStat
unfolding memory_stat_parse_line
memory_stat_from_cgroup [] mem_st = some mem_st
memory_stat_from_cgroup (line ∷ lines) mem_st = elim (memory_stat_parse_line line mem_st) [
  | none ↦ none
  | some m ↦ memory_stat_from_cgroup lines m
]

-- Fields 10, 12 and 22 of the line are read.
abbrev pub stat_format : List Conversion
stat_format =
    skip_int ∷ skip_word ∷ skip_word ∷ skip_int ∷ skip_int ∷ skip_int ∷ skip_int ∷ skip_int
    ∷ skip_int ∷ read_long ∷ skip_int ∷ read_long ∷ skip_int ∷ skip_int ∷ skip_int ∷ skip_int
    ∷ skip_int ∷ skip_int ∷ skip_int ∷ skip_int ∷ skip_int ∷ read_long ∷ []

-- NS_PER_SEC / sysconf(_SC_CLK_TCK) is a parameter; `none` is the result -1.
unfoldable pub take_three : ℕ → List ℤ → MemoryStat → Option MemoryStat
take_three tick_ns (pgfault ∷ pgmajfault ∷ starttime ∷ []) mem_st = some (record mem_st {
  pgfault = pgfault;
  pgmajfault = pgmajfault;
  process_start_time_ns = starttime *ℤ pos tick_ns;
})
take_three tick_ns _ mem_st = none

unfoldable pub memory_stat_from_procfs : ℕ → Option Bytes → MemoryStat → Option MemoryStat
unfolding take_three
memory_stat_from_procfs tick_ns none mem_st = none
memory_stat_from_procfs tick_ns (some buffer) mem_st =
    take_three tick_ns (scan stat_format buffer) mem_st

-- What the kernel answers about a process.
pub record Answers : Type 0 where
  -- The lines of memory.stat of its cgroup, and the text of /proc/<pid>/stat, where they can be read.
  pub memory_stat : Option (List Bytes)
  pub proc_stat : Option Bytes
  pub tick_ns : ℕ

-- The new content of the static `mem_st`, and the pointer that is returned, as its content. The
-- fields that no branch sets keep what an earlier call left.
unfoldable pub stats_read_memory_stat :
    Bool → Bool → Answers → ℤ → ℤ → MemoryStat → Option (MemoryStat × Option MemoryStat)
unfolding memory_stat_from_cgroup memory_stat_from_procfs
stats_read_memory_stat false per_app_memcg answers rss_bytes swap_bytes mem_st = some (mem_st, none)
stats_read_memory_stat true true answers rss_bytes swap_bytes mem_st = elim answers.memory_stat [
  | none ↦ some (mem_st, none)
  | some lines ↦ elim (memory_stat_from_cgroup lines mem_st) [
    | none ↦ none
    | some m ↦ some (m, some m)
  ]
]
stats_read_memory_stat true false answers rss_bytes swap_bytes mem_st =
    elim (memory_stat_from_procfs answers.tick_ns answers.proc_stat mem_st) [
      | none ↦ some (mem_st, none)
      | some m ↦
          let full = record m { rss_in_bytes = rss_bytes; swap_in_bytes = swap_bytes } in
          some (full, some full)
    ]
