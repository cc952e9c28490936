-- ===== src/ProcFiles.antt =====
-- lmkd.cpp: reading a file of /proc whole, and what the parsers of its lines share. A line is a C
-- string without its end; `strtok_r` with one delimiter drops empty tokens.
pub mod Whole
pub mod Parse
pub mod Print
use android_system_memory_lm.Base.{
  ℕ, zero, suc, ◌+◌, ◌-◌, ◌*◌, List, [], ◌∷◌, Option, none, some, Bool, true, false, ltb, ◌==◌,
  if◌then◌else◌, ℤ, pos, negsuc, quot, length, take, update,
}
use android_system_memory_lm.Text.{Bytes, str_eq, parse_int64}

-- What a file answers: its text, and how many bytes `pread` gives at an offset for a size, `none` for
-- an error.
pub record File : Type 0 where
  pub text : Bytes
  pub given : ℕ → ℕ → Option ℕ

-- The offset at the end of the loop; the first number bounds its rounds.
unfoldable pub read_from : ℕ → File → ℕ → ℕ → Option ℕ
read_from zero file offset max_len = some offset
read_from (suc f) file offset max_len =
    if max_len == 0 then some offset else elim (file.given offset max_len) [
      | none ↦ none
      | some r ↦ if r == 0 then some offset else read_from f file (offset + r) (max_len - r)
    ]

-- Every round of the source's loop that goes on lowers `max_len`.
unfoldable pub read_all : File → ℕ → Option ℕ
unfolding read_from
read_all file max_len = read_from max_len file 0 max_len

-- `reread_data` of one file with the static variables of reread_file.
pub record RereadData : Type 0 where
  pub fd : Option ℕ
  pub has_buf : Bool
  pub buf_size : ℕ

-- What the system answers.
pub record System : Type 0 where
  pub malloc : Bool
  pub realloc : ℕ → Bool
  pub open_file : Option ℕ
  pub file : File

pub data ReadResult : Type 0 where
  null : ReadResult
  content : Bytes → ReadResult
  out_of_fuel : ReadResult

-- The loop that doubles the buffer.
unfoldable pub grow : ℕ → System → RereadData → ReadResult × RereadData
unfolding read_all
grow zero sys file_data = (out_of_fuel, file_data)
grow (suc f) sys file_data =
    let more = grow f sys (record file_data { buf_size = file_data.buf_size * 2 }) in
    elim (read_all sys.file (file_data.buf_size - 1)) [
      | none ↦ (null, record file_data { fd = none })
      | some size ↦
          if ltb size (file_data.buf_size - 1)
          then (content (take size sys.file.text), file_data)
          else if sys.realloc (file_data.buf_size * 2)
          then more
          else (null, file_data)
    ]

-- A buffer and a descriptor, where they are not there yet.
unfoldable pub open_data : System → RereadData → Bool × RereadData
open_data sys file_data = elim file_data.fd [
  | some fd ↦ (true, file_data)
  | none ↦
      if file_data.has_buf
      then elim sys.open_file [
        | none ↦ (false, file_data)
        | some fd ↦ (true, record file_data { fd = some fd })
      ]
      else if sys.malloc
      then elim sys.open_file [
        | none ↦ (false, record file_data { has_buf = true })
        | some fd ↦ (true, record file_data { has_buf = true; fd = some fd })
      ]
      else (false, file_data)
]

abbrev then_grow : ℕ → System → Bool × RereadData → ReadResult × RereadData
then_grow fuel sys (ok, file_data) = if ok then grow fuel sys file_data else (null, file_data)

-- One round for each byte of the file is more than enough.
unfoldable pub reread_file : System → RereadData → ReadResult × RereadData
unfolding grow open_data
reread_file sys file_data = then_grow (suc (length sys.file.text)) sys (open_data sys file_data)

abbrev keep : Bytes × List Bytes → List Bytes
keep ([], ts) = ts
keep (c ∷ w, ts) = (c ∷ w) ∷ ts

-- The token that the text begins with, which may be empty, and the tokens after it.
unfoldable pub split_tokens : ℕ → Bytes → Bytes × List Bytes
split_tokens delim [] = ([], [])
split_tokens delim (c ∷ s) =
    let (w, ts) = split_tokens delim s in if c == delim then ([], keep (w, ts)) else (c ∷ w, ts)

unfoldable pub tokens : ℕ → Bytes → List Bytes
unfolding split_tokens
tokens delim s = keep (split_tokens delim s)

abbrev pub next_index : Option ℕ → Option ℕ
next_index none = none
next_index (some i) = some (suc i)

unfoldable pub find_field : Bytes → List Bytes → Option ℕ
unfolding str_eq
find_field name [] = none
find_field name (f ∷ fs) =
    let later = next_index (find_field name fs) in if str_eq name f then some 0 else later

pub data FieldMatchResult : Type 0 where
  no_match parse_fail : FieldMatchResult
  parse_success : ℕ → ℤ → FieldMatchResult

unfoldable pub match_field : Bytes → Bytes → List Bytes → FieldMatchResult
unfolding find_field parse_int64
match_field cp ap field_names = elim (find_field cp field_names) [
  | none ↦ no_match
  | some i ↦ elim (parse_int64 ap) [ none ↦ parse_fail | some field ↦ parse_success i field ]
]

-- `strtok_r` for the name and for the value: a line of one word fails.
unfoldable pub match_line : List Bytes → List Bytes → FieldMatchResult
unfolding match_field
match_line (cp ∷ ap ∷ ts) field_names = match_field cp ap field_names
match_line _ field_names = parse_fail

abbrev pub store_match : (ℤ → ℤ) → FieldMatchResult → (ℕ → ℤ) → Option (ℕ → ℤ)
store_match scale no_match arr = some arr
store_match scale parse_fail arr = none
store_match scale (parse_success i val) arr = some (update arr i (scale val))

-- The lines, until one fails.
unfoldable pub parse_lines :
    (Bytes → (ℕ → ℤ) → Option (ℕ → ℤ)) → List Bytes → (ℕ → ℤ) → Option (ℕ → ℤ)
parse_lines parse [] arr = some arr
parse_lines parse (line ∷ lines) arr = elim (parse line arr) [
  | none ↦ none
  | some arr' ↦ parse_lines parse lines arr'
]
