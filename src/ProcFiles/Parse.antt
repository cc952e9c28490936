-- ===== src/ProcFiles/Parse.antt =====
-- lmkd.cpp: the parsers of /proc/meminfo and /proc/vmstat. A `union` is its array.
use android_system_memory_lm.Base.{
  ℕ, List, [], ◌∷◌, Option, none, some, ◌&&◌, leb, if◌then◌else◌, ℤ, pos, negsuc, ◌+ℤ◌, quot,
}
use android_system_memory_lm.Text.{Bytes}
use android_system_memory_lm.Pressure.Fields.{vmstat_field_names}
use android_system_memory_lm.ProcFiles.{
  RereadData, System, ReadResult, null, content, out_of_fuel, reread_file, tokens, match_line,
  store_match, parse_lines,
}

abbrev pub meminfo_field_names : List Bytes
meminfo_field_names =
    (b'M' ∷ b'e' ∷ b'm' ∷ b'F' ∷ b'r' ∷ b'e' ∷ b'e' ∷ b':' ∷ [])
    ∷ (b'C' ∷ b'a' ∷ b'c' ∷ b'h' ∷ b'e' ∷ b'd' ∷ b':' ∷ [])
    ∷ (b'S' ∷ b'w' ∷ b'a' ∷ b'p' ∷ b'C' ∷ b'a' ∷ b'c' ∷ b'h' ∷ b'e' ∷ b'd' ∷ b':' ∷ [])
    ∷ (b'S' ∷ b'h' ∷ b'm' ∷ b'e' ∷ b'm' ∷ b':' ∷ [])
    ∷ (b'U' ∷ b'n' ∷ b'e' ∷ b'v' ∷ b'i' ∷ b'c' ∷ b't' ∷ b'a' ∷ b'b' ∷ b'l' ∷ b'e' ∷ b':' ∷ [])
    ∷ (b'S' ∷ b'w' ∷ b'a' ∷ b'p' ∷ b'T' ∷ b'o' ∷ b't' ∷ b'a' ∷ b'l' ∷ b':' ∷ [])
    ∷ (b'S' ∷ b'w' ∷ b'a' ∷ b'p' ∷ b'F' ∷ b'r' ∷ b'e' ∷ b'e' ∷ b':' ∷ [])
    ∷ (b'A' ∷ b'c' ∷ b't' ∷ b'i' ∷ b'v' ∷ b'e' ∷ b'(' ∷ b'a' ∷ b'n' ∷ b'o' ∷ b'n' ∷ b')' ∷ b':'
        ∷ [])
    ∷ (b'I' ∷ b'n' ∷ b'a' ∷ b'c' ∷ b't' ∷ b'i' ∷ b'v' ∷ b'e' ∷ b'(' ∷ b'a' ∷ b'n' ∷ b'o' ∷ b'n'
        ∷ b')' ∷ b':' ∷ [])
    ∷ (b'A' ∷ b'c' ∷ b't' ∷ b'i' ∷ b'v' ∷ b'e' ∷ b'(' ∷ b'f' ∷ b'i' ∷ b'l' ∷ b'e' ∷ b')' ∷ b':'
        ∷ [])
    ∷ (b'I' ∷ b'n' ∷ b'a' ∷ b'c' ∷ b't' ∷ b'i' ∷ b'v' ∷ b'e' ∷ b'(' ∷ b'f' ∷ b'i' ∷ b'l' ∷ b'e'
        ∷ b')' ∷ b':' ∷ [])
    ∷ (b'S' ∷ b'R' ∷ b'e' ∷ b'c' ∷ b'l' ∷ b'a' ∷ b'i' ∷ b'm' ∷ b'a' ∷ b'b' ∷ b'l' ∷ b'e' ∷ b':'
        ∷ [])
    ∷ (b'S' ∷ b'U' ∷ b'n' ∷ b'r' ∷ b'e' ∷ b'c' ∷ b'l' ∷ b'a' ∷ b'i' ∷ b'm' ∷ b':' ∷ [])
    ∷ (b'K' ∷ b'e' ∷ b'r' ∷ b'n' ∷ b'e' ∷ b'l' ∷ b'S' ∷ b't' ∷ b'a' ∷ b'c' ∷ b'k' ∷ b':' ∷ [])
    ∷ (b'P' ∷ b'a' ∷ b'g' ∷ b'e' ∷ b'T' ∷ b'a' ∷ b'b' ∷ b'l' ∷ b'e' ∷ b's' ∷ b':' ∷ [])
    ∷ (b'I' ∷ b'O' ∷ b'N' ∷ b'_' ∷ b'h' ∷ b'e' ∷ b'a' ∷ b'p' ∷ b':' ∷ [])
    ∷ (b'I' ∷ b'O' ∷ b'N' ∷ b'_' ∷ b'h' ∷ b'e' ∷ b'a' ∷ b'p' ∷ b'_' ∷ b'p' ∷ b'o' ∷ b'o' ∷ b'l'
        ∷ b':' ∷ [])
    ∷ (b'C' ∷ b'm' ∷ b'a' ∷ b'F' ∷ b'r' ∷ b'e' ∷ b'e' ∷ b':' ∷ [])
    ∷ []

-- `mi->arr[field_idx] = val / page_k`.
unfoldable pub meminfo_parse_line : ℕ → Bytes → (ℕ → ℤ) → Option (ℕ → ℤ)
meminfo_parse_line page_k line arr =
    store_match (λ val. quot val page_k) (match_line (tokens 32 line) meminfo_field_names) arr

unfoldable pub vmstat_parse_line : Bytes → (ℕ → ℤ) → Option (ℕ → ℤ)
vmstat_parse_line line arr =
    store_match (λ val. val) (match_line (tokens 32 line) vmstat_field_names) arr

-- The calculated fields, total_gpu_kb and easy_available, behind the array.
pub record MeminfoFields : Type 0 where
  pub arr : ℕ → ℤ
  pub total_gpu_kb : ℤ
  pub easy_available : ℤ

abbrev pub easy_fields : ℤ → (ℕ → ℤ) → MeminfoFields
easy_fields gpu_kb arr = record {
  arr = arr;
  total_gpu_kb = gpu_kb;
  easy_available = arr 0 +ℤ arr 10;
}

abbrev pub finish_meminfo : ℤ → Option (ℕ → ℤ) → Option MeminfoFields
finish_meminfo gpu_kb none = none
finish_meminfo gpu_kb (some arr) = some (easy_fields gpu_kb arr)

-- The loop over the lines of what was read.
abbrev pub parse_read : (Bytes → (ℕ → ℤ) → Option (ℕ → ℤ)) → (ℕ → ℤ) → ReadResult → Option (ℕ → ℤ)
parse_read parse arr null = none
parse_read parse arr out_of_fuel = none
parse_read parse arr (content buf) = parse_lines parse (tokens 10 buf) arr

-- `none` is the result -1. `gpu_kb` is read_gpu_total_kb, which asks a BPF map.
unfoldable pub meminfo_parse : ℕ → ℤ → System → RereadData → Option MeminfoFields × RereadData
unfolding meminfo_parse_line
meminfo_parse page_k gpu_kb sys file_data =
    let (read, file_data') = reread_file sys file_data in
    (finish_meminfo gpu_kb (parse_read (meminfo_parse_line page_k) (λ i. pos 0) read), file_data')

-- The counters of the zones are -EINVAL until the file has them.
abbrev pub prefilled : ℕ → ℤ
prefilled i = if leb 9 i && leb i 13 then negsuc 21 else pos 0

unfoldable pub vmstat_parse : System → RereadData → Option (ℕ → ℤ) × RereadData
unfolding vmstat_parse_line
vmstat_parse sys file_data =
    let (read, file_data') = reread_file sys file_data in
    (parse_read vmstat_parse_line prefilled read, file_data')
