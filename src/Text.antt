-- ===== src/Text.antt =====
-- lmkd.cpp: `parse_int64` and `parse_status_tag`. A C string is the list of its bytes before the
-- terminating zero.
pub mod Scan
use android_system_memory_lm.Base.{
  ℕ, ◌+◌, ◌-◌, ◌*◌, ◌^◌, List, [], ◌∷◌, Option, none, some, Bool, true, false, ◌&&◌, ◌||◌, ltb, leb,
  ◌==◌, if◌then◌else◌, ℤ, pos, negsuc, neg_ℕ, ◌≡◌, refl, arith,
}

abbrev pub Bytes : Type 0
Bytes = List ℕ

abbrev int64_max : ℕ
int64_max = 2 ^ 63 - 1

-- `isspace` in the C locale.
abbrev pub is_space : ℕ → Bool
is_space c = c == 32 || (leb 9 c && leb c 13)

abbrev pub is_digit : ℕ → Bool
is_digit c = leb b'0' c && leb c b'9'

unfoldable pub skip_space : Bytes → Bytes
skip_space [] = []
skip_space (c ∷ s) = if is_space c then skip_space s else c ∷ s

-- The number that the leading digits stand for, after those read so far.
unfoldable pub read_digits : ℕ → Bytes → ℕ
read_digits acc [] = acc
read_digits acc (c ∷ s) = elim (is_digit c) [
  | true ↦ read_digits (acc * 10 + (c - b'0')) s
  | false ↦ acc
]

-- `none` where there is no digit.
unfoldable pub read_number : Bytes → Option ℕ
unfolding read_digits
read_number [] = none
read_number (c ∷ s) = if is_digit c then some (read_digits 0 (c ∷ s)) else none

-- A magnitude out of range gives the nearest `long long`.
unfoldable pub saturate : Bool → ℕ → ℤ
saturate true n = if ltb (int64_max + 1) n then negsuc int64_max else neg_ℕ n
saturate false n = if ltb int64_max n then pos int64_max else pos n

unfoldable pub signed_number : Bool → Bytes → Option ℤ
unfolding read_number saturate
signed_number minus s = elim (read_number s) [ none ↦ none | some n ↦ some (saturate minus n) ]

unfoldable pub after_sign : Bytes → Option ℤ
unfolding signed_number
after_sign [] = none
after_sign (c ∷ s) =
    if c == b'-'
    then signed_number true s
    else if c == b'+'
    then signed_number false s
    else signed_number false (c ∷ s)

-- `strtoll(str, &endptr, 10)`; `none` where `endptr` is `str`. Its result never exceeds INT64_MAX,
-- so the second test of the source never holds.
unfoldable pub parse_int64 : Bytes → Option ℤ
unfolding skip_space after_sign
parse_int64 str = after_sign (skip_space str)

-- What follows a prefix.
unfoldable pub strip_prefix : Bytes → Bytes → Option Bytes
strip_prefix [] s = some s
strip_prefix (t ∷ ts) [] = none
strip_prefix (t ∷ ts) (c ∷ s) = if c == t then strip_prefix ts s else none

-- The search of `parse_status_tag`, with its `strstr` written out: what follows the first occurrence
-- of the tag that stands at the beginning of a line. `fresh` is `pos == buf || pos[-1] == '\n'`.
unfoldable pub find_tag : Bytes → Bool → Bytes → Option Bytes
unfolding strip_prefix
find_tag tag fresh [] = none
find_tag tag fresh (c ∷ s) =
    let later = find_tag tag (c == 10) s in
    if fresh
    then elim (strip_prefix tag (c ∷ s)) [ some rest ↦ some rest | none ↦ later ]
    else later

unfoldable pub skip_blanks : Bytes → Bytes
skip_blanks [] = []
skip_blanks (c ∷ s) = if c == 32 then skip_blanks s else c ∷ s

unfoldable pub parse_status_tag : Bytes → Bytes → Option ℤ
unfolding find_tag skip_blanks parse_int64
parse_status_tag buf tag = elim (find_tag tag true buf) [
  | none ↦ none
  | some rest ↦ parse_int64 (skip_blanks rest)
]

-- `strcmp(s, t) == 0`.
unfoldable pub str_eq : Bytes → Bytes → Bool
str_eq [] [] = true
str_eq [] (d ∷ t) = false
str_eq (c ∷ s) [] = false
str_eq (c ∷ s) (d ∷ t) = c == d && str_eq s t

str_eq_refl : (s : Bytes) → str_eq s s ≡ true
unfolding str_eq
str_eq_refl [] = refl
str_eq_refl (c ∷ s) = ground (arith, str_eq_refl s)

pub str_eq-eq : (s t : Bytes) → str_eq s t ≡ true → s ≡ t
unfolding str_eq
str_eq-eq [] [] h = refl
str_eq-eq [] (d ∷ t) h = cc
str_eq-eq (c ∷ s) [] h = cc
str_eq-eq (c ∷ s) (d ∷ t) h = ground (arith, str_eq-eq s t)
