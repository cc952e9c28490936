-- ===== src/Examples/Stats.antt =====
-- The statistics of kills at concrete values.
use android_system_memory_lm.Base.{
  inl, inr, ℕ, ◌+◌, ◌≤◌, ◌<◌, ◌≡◌, refl, arith, List, [], ◌∷◌, none, some, true, pos, negsuc, ◌*ℤ◌,
}
use android_system_memory_lm.Text.{Bytes, read_digits}
use android_system_memory_lm.Pressure.{low_mem}
use android_system_memory_lm.Stats.{Tasks, pid_lookup, stats_get_task_name}
use android_system_memory_lm.Stats.Names.{
  Request, store, remove, serve_all, map_after, serve_all-IsMap,
}
use android_system_memory_lm.Stats.Chains.{IsTasks, count_task}
use android_system_memory_lm.Stats.Packet.{
  KillStat, MemoryStat, len_proc_name, lmkd_reply_max_size, lmkd_pack_set_kill_occurred,
}
use android_system_memory_lm.Stats.RoundTrip.{sent_at}
use android_system_memory_lm.Stats.Reader.{
  IsKillStat, IsMemoryStat, arrived, read_kill_occurred, read_kill_occurred-sent,
}
use android_system_memory_lm.Stats.Bounds.{lmkd_pack_set_kill_occurred_fits}
use android_system_memory_lm.Stats.Memory.{memory_stat_from_procfs}
use android_system_memory_lm.Stats.Fields.{
  IsWord, IsNumber, IsSigned, Fits, front_format, middle_format, line, stat_text,
  memory_stat_from_procfs-fields, memory_stat_from_procfs-space,
}

abbrev cat : Bytes
cat = b'(' ∷ b'c' ∷ b'a' ∷ b't' ∷ b')' ∷ []

abbrev nothing_stored : Tasks
nothing_stored = record { enable_stats_log = true; pidhash = none }

nothing_stored-IsTasks : IsTasks nothing_stored
unfolding stats_get_task_name pid_lookup count_task
nothing_stored-IsTasks = record {
  enabled = refl;
  unique = λ q h. omega arith;
  short = λ q name h. cc;
}

abbrev requests : List Request
requests = store 4321 (some cat) ∷ store 5345 none ∷ store 4577 (some cat) ∷ remove 4321 ∷ []

serve_all-IsMap_example :
    ((q : ℕ)
      → stats_get_task_name (serve_all requests nothing_stored) q
        ≡ map_after requests (stats_get_task_name nothing_stored) q)
    × IsTasks (serve_all requests nothing_stored)
serve_all-IsMap_example = serve_all-IsMap requests nothing_stored nothing_stored-IsTasks

abbrev kill : KillStat
kill = record {
  uid = pos 10007;
  taskname = cat;
  kill_reason = low_mem;
  oom_score = pos 905;
  min_oom_score = pos 701;
  free_mem_kb = pos 81920;
  free_swap_kb = pos 1024;
  thrashing = pos 12;
  max_thrashing = pos 30;
}

abbrev memory : MemoryStat
memory = record {
  pgfault = pos 8000;
  pgmajfault = pos 16;
  rss_in_bytes = pos 52428800;
  cache_in_bytes = negsuc 0;
  swap_in_bytes = pos 4096;
  process_start_time_ns = pos 8000000000000;
}

kill-IsKillStat : IsKillStat kill
kill-IsKillStat = record {
  uid_int = omega arith;
  oom_score_int = omega arith;
  min_oom_score_int = omega arith;
  thrashing_int = omega arith;
  max_thrashing_int = omega arith;
}

memory-IsMemoryStat : IsMemoryStat memory
memory-IsMemoryStat = record {
  pgfault_long = omega arith;
  pgmajfault_long = omega arith;
  rss_long = omega arith;
  cache_long = omega arith;
  swap_long = omega arith;
  start_long = omega arith;
}

read_kill_occurred-sent_example :
    read_kill_occurred (sent_at (lmkd_pack_set_kill_occurred true (λ i. 0) kill (some memory)))
    ≡ some (arrived kill memory)
read_kill_occurred-sent_example =
    read_kill_occurred-sent (λ i. 0) kill (some memory) kill-IsKillStat memory-IsMemoryStat

lmkd_pack_set_kill_occurred_fits_example :
    let r = lmkd_pack_set_kill_occurred true (λ i. 7) kill none in
    (r.1 ≡ 87 + len_proc_name cat)
    × (r.1 < lmkd_reply_max_size)
    × ((j : ℕ) → lmkd_reply_max_size ≤ j → r.0 j ≡ 7)
lmkd_pack_set_kill_occurred_fits_example = lmkd_pack_set_kill_occurred_fits (λ i. 7) kill none

abbrev seven : Bytes
seven = b'7' ∷ []

abbrev many : Bytes
many = b'9' ∷ b'0' ∷ b'0' ∷ []

seven-IsNumber : IsNumber seven
unfolding read_digits
seven-IsNumber = record {
  head = b'7';
  tail = [];
  split = refl;
  digits = (refl, tt);
  in_range = omega arith;
}

many-IsNumber : IsNumber many
unfolding read_digits
many-IsNumber = record {
  head = b'9';
  tail = b'0' ∷ b'0' ∷ [];
  split = refl;
  digits = (refl, (refl, (refl, tt)));
  in_range = omega arith;
}

cat-IsWord : IsWord cat
cat-IsWord = record {
  head = b'(';
  tail = b'c' ∷ b'a' ∷ b't' ∷ b')' ∷ [];
  split = refl;
  visible = (refl, (refl, (refl, (refl, (refl, tt)))));
}

-- A process without a terminal, whose group is -1, and with the priority -2.
abbrev minus_one : Bytes
minus_one = b'-' ∷ b'1' ∷ []

abbrev minus_two : Bytes
minus_two = b'-' ∷ b'2' ∷ []

abbrev front : List Bytes
front = seven ∷ cat ∷ cat ∷ seven ∷ seven ∷ seven ∷ seven ∷ minus_one ∷ seven ∷ []

abbrev middle : List Bytes
middle = many ∷ seven ∷ seven ∷ seven ∷ seven ∷ minus_two ∷ seven ∷ seven ∷ seven ∷ []

minus_one-IsSigned : IsSigned minus_one
unfolding read_digits
minus_one-IsSigned = inr (
  b'1' ∷ [],
  refl,
  record { head = b'1'; tail = []; split = refl; digits = (refl, tt); in_range = omega arith },
)

minus_two-IsSigned : IsSigned minus_two
unfolding read_digits
minus_two-IsSigned = inr (
  b'2' ∷ [],
  refl,
  record { head = b'2'; tail = []; split = refl; digits = (refl, tt); in_range = omega arith },
)

front-Fits : Fits front_format front
front-Fits =
    let n : IsSigned seven = inl seven-IsNumber in
    (n, (cat-IsWord, (cat-IsWord, (n, (n, (n, (n, (minus_one-IsSigned, (n, tt)))))))))

middle-Fits : Fits middle_format middle
middle-Fits =
    let n : IsSigned seven = inl seven-IsNumber in
    (inl many-IsNumber, (n, (n, (n, (n, (minus_two-IsSigned, (n, (n, (n, tt)))))))))

memory_stat_from_procfs-fields_example :
    memory_stat_from_procfs 10000000 (some (stat_text front many seven seven middle many [])) memory
    ≡ some (record memory {
      pgfault = pos (read_digits 0 many);
      pgmajfault = pos (read_digits 0 seven);
      process_start_time_ns = pos (read_digits 0 many) *ℤ pos 10000000;
    })
memory_stat_from_procfs-fields_example =
    memory_stat_from_procfs-fields 10000000 front middle many seven seven many [] memory refl refl
      front-Fits middle-Fits
      (many-IsNumber, (inl seven-IsNumber, (seven-IsNumber, (many-IsNumber, tt))))

memory_stat_from_procfs-space_example :
    memory_stat_from_procfs 10000000 (some (line (seven ∷ cat ∷ cat ∷ []) (b'S' ∷ []))) memory
    ≡ none
memory_stat_from_procfs-space_example =
    memory_stat_from_procfs-space 10000000 seven cat cat [] b'S' memory seven-IsNumber cat-IsWord
      cat-IsWord refl
