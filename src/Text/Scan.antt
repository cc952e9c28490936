-- ===== src/Text/Scan.antt =====
-- The conversions of `sscanf` that statslog.cpp, libpsi and lmkd.cpp use, on a C string. A conversion
-- skips the space in front of it; one that fails ends the scan.
use android_system_memory_lm.Base.{
  List, [], ◌∷◌, Option, none, some, Bool, true, false, ◌==◌, if◌then◌else◌, ℤ,
}
use android_system_memory_lm.Text.{Bytes, is_space, is_digit, skip_space, signed_number}

-- `%*s`, `%*d` or `%*u`, and `%ld`.
pub data Conversion : Type 0 where
  skip_word skip_int read_long : Conversion

-- A run of bytes that are no space, and the rest.
unfoldable pub span_word : Bytes → Bytes × Bytes
span_word [] = ([], [])
span_word (c ∷ s) = let (w, rest) = span_word s in if is_space c then ([], c ∷ s) else (c ∷ w, rest)

-- A run that is not empty.
unfoldable pub nonempty : Bytes × Bytes → Option (Bytes × Bytes)
nonempty ([], rest) = none
nonempty (c ∷ w, rest) = some (c ∷ w, rest)

unfoldable pub scan_word : Bytes → Option (Bytes × Bytes)
unfolding span_word nonempty
scan_word s = nonempty (span_word (skip_space s))

unfoldable pub drop_digits : Bytes → Bytes
drop_digits [] = []
drop_digits (c ∷ s) = if is_digit c then drop_digits s else c ∷ s

-- The number behind a sign, and what follows its digits.
unfoldable pub scan_digits : Bool → Bytes → Option (ℤ × Bytes)
unfolding drop_digits
scan_digits minus s = elim (signed_number minus s) [
  | none ↦ none
  | some n ↦ some (n, drop_digits s)
]

unfoldable pub scan_signed : Bytes → Option (ℤ × Bytes)
unfolding scan_digits
scan_signed [] = none
scan_signed (c ∷ s) =
    if c == b'-'
    then scan_digits true s
    else if c == b'+'
    then scan_digits false s
    else scan_digits false (c ∷ s)

-- `%d`, `%u` and `%ld` take the same texts.
unfoldable pub scan_int : Bytes → Option (ℤ × Bytes)
unfolding scan_signed
scan_int s = scan_signed (skip_space s)

-- The values that `sscanf` assigns before a conversion fails.
unfoldable pub scan : List Conversion → Bytes → List ℤ
unfolding scan_word scan_int
scan [] s = []
scan (skip_word ∷ format) s = elim (scan_word s) [ none ↦ [] | some p ↦ scan format p.1 ]
scan (skip_int ∷ format) s = elim (scan_int s) [ none ↦ [] | some p ↦ scan format p.1 ]
scan (read_long ∷ format) s = elim (scan_int s) [ none ↦ [] | some p ↦ p.0 ∷ scan format p.1 ]
