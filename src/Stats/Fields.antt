-- ===== src/Stats/Fields.antt =====
-- statslog.cpp: what `memory_stat_from_procfs` makes of a line of /proc/<pid>/stat.
use android_system_memory_lm.Base.{
  ◌⊎◌, inl, inr, ℕ, ◌+◌, ◌-◌, ◌*◌, ◌^◌, ◌≤◌, ◌≡◌, refl, subst, length, ap, ◌∙◌, arith, List, [],
  ◌∷◌, ◌++◌, none, some, true, false, ℤ, pos, leb, ◌*ℤ◌,
}
use android_system_memory_lm.Text.{
  Bytes, is_space, is_digit, skip_space, read_digits, read_number, saturate, signed_number,
}
use android_system_memory_lm.Text.Scan.{
  Conversion, skip_word, skip_int, read_long, span_word, scan_word, drop_digits, scan_digits,
  scan_signed, scan_int, scan,
}
use android_system_memory_lm.Stats.Memory.{take_three, memory_stat_from_procfs}
use android_system_memory_lm.Stats.Packet.{MemoryStat}

abbrev pub AllWord : Bytes → Type 0
AllWord [] = Unit {0}
AllWord (c ∷ s) = (is_space c ≡ false) × AllWord s

abbrev pub AllDigit : Bytes → Type 0
AllDigit [] = Unit {0}
AllDigit (c ∷ s) = (is_digit c ≡ true) × AllDigit s

-- A word of the line, and one that is the decimal of an `int64_t` that is not negative.
pub record IsWord (w : Bytes) : Type 0 where
  pub head : ℕ
  pub tail : Bytes
  pub split : w ≡ head ∷ tail
  pub visible : AllWord (head ∷ tail)

pub record IsNumber (w : Bytes) : Type 0 where
  pub head : ℕ
  pub tail : Bytes
  pub split : w ≡ head ∷ tail
  pub digits : AllDigit (head ∷ tail)
  pub in_range : read_digits 0 w ≤ 2 ^ 63 - 1

-- A number with an optional minus, as the terminal's group is where there is no terminal.
abbrev pub IsSigned : Bytes → Type 0
IsSigned w = IsNumber w ⊎ ((u : Bytes) × (w ≡ b'-' ∷ u) × IsNumber u)

span_word-append : (w rest : Bytes) → AllWord w → span_word (w ++ (32 ∷ rest)) ≡ (w, 32 ∷ rest)
unfolding span_word
span_word-append [] rest h = refl
span_word-append (c ∷ w) rest h = ground (arith, span_word-append w rest h.1)

read_digits-append :
    (w rest : Bytes) (acc : ℕ) → AllDigit w → read_digits acc (w ++ (32 ∷ rest)) ≡ read_digits acc w
unfolding read_digits
read_digits-append [] rest acc h = refl
read_digits-append (c ∷ w) rest acc h =
    rw (h.0, read_digits) (read_digits-append w rest (acc * 10 + (c - b'0')) h.1)

drop_digits-append : (w rest : Bytes) → AllDigit w → drop_digits (w ++ (32 ∷ rest)) ≡ 32 ∷ rest
unfolding drop_digits
drop_digits-append [] rest h = refl
drop_digits-append (c ∷ w) rest h = ground (arith, drop_digits-append w rest h.1)

scan_word-append :
    (c : ℕ) (w rest : Bytes)
    → AllWord (c ∷ w)
    → scan_word ((c ∷ w) ++ (32 ∷ rest)) ≡ some (c ∷ w, 32 ∷ rest)
unfolding scan_word skip_space
scan_word-append c w rest h = rw h.0 (rw (span_word-append (c ∷ w) rest h) refl)

signed_number-append :
    (c : ℕ) (w rest : Bytes)
    → AllDigit (c ∷ w)
    → read_digits 0 (c ∷ w) ≤ 2 ^ 63 - 1
    → signed_number false ((c ∷ w) ++ (32 ∷ rest)) ≡ some (pos (read_digits 0 (c ∷ w)))
unfolding signed_number read_number saturate
signed_number-append c w rest h l =
    let e = read_digits-append (c ∷ w) rest 0 h in ground (arith, h.0, e)

scan_signed-digit :
    (c : ℕ) (s : Bytes) → is_digit c ≡ true → scan_signed (c ∷ s) ≡ scan_digits false (c ∷ s)
unfolding scan_signed
scan_signed-digit c s h = ground arith

skip_space-digit : (c : ℕ) (s : Bytes) → is_digit c ≡ true → skip_space (c ∷ s) ≡ c ∷ s
unfolding skip_space
skip_space-digit c s h = ground arith

scan_int-append :
    (c : ℕ) (w rest : Bytes)
    → AllDigit (c ∷ w)
    → read_digits 0 (c ∷ w) ≤ 2 ^ 63 - 1
    → scan_int ((c ∷ w) ++ (32 ∷ rest)) ≡ some (pos (read_digits 0 (c ∷ w)), 32 ∷ rest)
unfolding scan_int scan_digits
scan_int-append c w rest h l =
    rw
      (
        skip_space-digit c (w ++ (32 ∷ rest)) h.0,
        scan_signed-digit c (w ++ (32 ∷ rest)) h.0,
        scan_digits,
        signed_number-append c w rest h l,
        drop_digits-append (c ∷ w) rest h,
      )
      refl

-- The words of a line, each with a space behind it.
abbrev pub line : List Bytes → Bytes → Bytes
line [] rest = rest
line (w ∷ ws) rest = w ++ (32 ∷ line ws rest)

-- The words are what the conversions want.
abbrev pub Fits : List Conversion → List Bytes → Type 0
Fits [] ws = Unit {0}
Fits (c ∷ cs) [] = ⊥
Fits (skip_word ∷ cs) (w ∷ ws) = IsWord w × Fits cs ws
Fits (skip_int ∷ cs) (w ∷ ws) = IsSigned w × Fits cs ws
Fits (read_long ∷ cs) (w ∷ ws) = IsNumber w × Fits cs ws

-- The numbers of the words that are assigned.
abbrev pub chosen : List Conversion → List Bytes → List ℤ
chosen [] ws = []
chosen (c ∷ cs) [] = []
chosen (skip_word ∷ cs) (w ∷ ws) = chosen cs ws
chosen (skip_int ∷ cs) (w ∷ ws) = chosen cs ws
chosen (read_long ∷ cs) (w ∷ ws) = pos (read_digits 0 w) ∷ chosen cs ws

-- The space behind a word is skipped by the next conversion.
scan_space : (cs : List Conversion) (s : Bytes) → scan cs (32 ∷ s) ≡ scan cs s
unfolding scan scan_word scan_int skip_space
scan_space [] s = refl
scan_space (skip_word ∷ cs) s = refl
scan_space (skip_int ∷ cs) s = refl
scan_space (read_long ∷ cs) s = refl

scan_word-IsWord : (w rest : Bytes) → IsWord w → scan_word (w ++ (32 ∷ rest)) ≡ some (w, 32 ∷ rest)
scan_word-IsWord w rest v = rw v.split (scan_word-append v.head v.tail rest v.visible)

scan_int-IsNumber :
    (w rest : Bytes)
    → IsNumber w
    → scan_int (w ++ (32 ∷ rest)) ≡ some (pos (read_digits 0 w), 32 ∷ rest)
scan_int-IsNumber w rest v = rw v.split (
    scan_int-append v.head v.tail rest v.digits
      (subst (λ a. read_digits 0 a ≤ 2 ^ 63 - 1) v.split v.in_range))

signed_number-minus :
    (c : ℕ) (w rest : Bytes)
    → AllDigit (c ∷ w)
    → (n : ℤ) × (signed_number true ((c ∷ w) ++ (32 ∷ rest)) ≡ some n)
unfolding signed_number read_number
signed_number-minus c w rest h =
    let e = read_digits-append (c ∷ w) rest 0 h in
    (saturate true (read_digits 0 (c ∷ w)), ground (arith, h.0, e))

scan_int-minus :
    (c : ℕ) (w rest : Bytes)
    → AllDigit (c ∷ w)
    → (n : ℤ) × (scan_int ((b'-' ∷ c ∷ w) ++ (32 ∷ rest)) ≡ some (n, 32 ∷ rest))
unfolding scan_int skip_space scan_signed scan_digits
scan_int-minus c w rest h =
    let r = signed_number-minus c w rest h in
    (r.0, rw (scan_digits, r.1, drop_digits-append (c ∷ w) rest h) refl)

scan_int-IsSigned :
    (w rest : Bytes) → IsSigned w → (n : ℤ) × (scan_int (w ++ (32 ∷ rest)) ≡ some (n, 32 ∷ rest))
scan_int-IsSigned w rest (inl v) = (pos (read_digits 0 w), scan_int-IsNumber w rest v)
scan_int-IsSigned w rest (inr (u, e, v)) =
    let (n, f) = scan_int-minus v.head v.tail rest v.digits in (n, rw (e, v.split) f)

-- What follows the conversions that fit.
scan-line :
    (cs more : List Conversion) (ws : List Bytes) (rest : Bytes)
    → length cs ≡ length ws
    → Fits cs ws
    → scan (cs ++ more) (line ws rest) ≡ chosen cs ws ++ scan more rest
unfolding scan
scan-line [] more [] rest n h = refl
scan-line [] more (w ∷ ws) rest n h = absurd (omega arith)
scan-line (skip_word ∷ cs) more (w ∷ ws) rest n h =
    rw (scan_word-IsWord w (line ws rest) h.0, scan)
      (scan_space (cs ++ more) (line ws rest) ∙ scan-line cs more ws rest (omega arith) h.1)
scan-line (skip_int ∷ cs) more (w ∷ ws) rest n h =
    rw ((scan_int-IsSigned w (line ws rest) h.0).1, scan)
      (scan_space (cs ++ more) (line ws rest) ∙ scan-line cs more ws rest (omega arith) h.1)
scan-line (read_long ∷ cs) more (w ∷ ws) rest n h =
    rw (scan_int-IsNumber w (line ws rest) h.0, scan)
      (ap (◌∷◌ (pos (read_digits 0 w)))
        (scan_space (cs ++ more) (line ws rest) ∙ scan-line cs more ws rest (omega arith) h.1))
scan-line (c ∷ cs) more [] rest n h = elim h [ ]

abbrev AllSkip : List Conversion → Type 0
AllSkip [] = Unit {0}
AllSkip (skip_word ∷ cs) = AllSkip cs
AllSkip (skip_int ∷ cs) = AllSkip cs
AllSkip (read_long ∷ cs) = ⊥

chosen-AllSkip : (cs : List Conversion) (ws : List Bytes) → AllSkip cs → chosen cs ws ≡ []
chosen-AllSkip [] ws h = refl
chosen-AllSkip (skip_word ∷ cs) [] h = refl
chosen-AllSkip (skip_word ∷ cs) (w ∷ ws) h = chosen-AllSkip cs ws h
chosen-AllSkip (skip_int ∷ cs) [] h = refl
chosen-AllSkip (skip_int ∷ cs) (w ∷ ws) h = chosen-AllSkip cs ws h
chosen-AllSkip (read_long ∷ cs) ws h = elim h [ ]

scan-skipped :
    (cs more : List Conversion) (ws : List Bytes) (rest : Bytes)
    → AllSkip cs
    → length cs ≡ length ws
    → Fits cs ws
    → scan (cs ++ more) (line ws rest) ≡ scan more rest
scan-skipped cs more ws rest s n h =
    scan-line cs more ws rest n h
    ∙ ap (λ (a : List ℤ). a ++ scan more rest) (chosen-AllSkip cs ws s)

-- The conversions in front of field 10, and those of the fields 13 to 21.
abbrev pub front_format : List Conversion
front_format =
    skip_int ∷ skip_word ∷ skip_word ∷ skip_int ∷ skip_int ∷ skip_int ∷ skip_int ∷ skip_int
    ∷ skip_int ∷ []

abbrev pub middle_format : List Conversion
middle_format =
    skip_int ∷ skip_int ∷ skip_int ∷ skip_int ∷ skip_int ∷ skip_int ∷ skip_int ∷ skip_int ∷ skip_int
    ∷ []

-- The text of /proc/<pid>/stat with its fields 1 to 9, 10, 11, 12, 13 to 21 and 22.
abbrev pub stat_text : List Bytes → Bytes → Bytes → Bytes → List Bytes → Bytes → Bytes → Bytes
stat_text front minflt cminflt majflt middle start rest =
    line front (line (minflt ∷ cminflt ∷ majflt ∷ []) (line middle (line (start ∷ []) rest)))

-- From a line of /proc/<pid>/stat whose command has no space, whose fields 10, 12 and 22 are not
-- negative, and whose other numbers may be, memory_stat_from_procfs takes field 10 as the page faults, field 12 as the major ones, and field
-- 22 in ticks as the start in nanoseconds, and changes no other statistic, whatever follows.
pub memory_stat_from_procfs-fields :
    (tick_ns : ℕ) (front middle : List Bytes) (minflt cminflt majflt start rest : Bytes)
    (m : MemoryStat)
    → length front ≡ 9
    → length middle ≡ 9
    → Fits front_format front
    → Fits middle_format middle
    → Fits
        (read_long ∷ skip_int ∷ read_long ∷ read_long ∷ [])
        (minflt ∷ cminflt ∷ majflt ∷ start ∷ [])
    → memory_stat_from_procfs tick_ns
        (some (stat_text front minflt cminflt majflt middle start rest))
        m
      ≡ some (record m {
        pgfault = pos (read_digits 0 minflt);
        pgmajfault = pos (read_digits 0 majflt);
        process_start_time_ns = pos (read_digits 0 start) *ℤ pos tick_ns;
      })
unfolding memory_stat_from_procfs take_three scan
memory_stat_from_procfs-fields tick_ns front middle minflt cminflt majflt start rest m n k f g h =
    let tail = line middle (line (start ∷ []) rest) in
    let late : List Conversion =
      read_long ∷ skip_int ∷ read_long ∷ (middle_format ++ (read_long ∷ [])) in
    let counts : List Conversion = read_long ∷ skip_int ∷ read_long ∷ [] in
    rw
      (
        scan-skipped front_format late front (line (minflt ∷ cminflt ∷ majflt ∷ []) tail) tt
            (omega arith) f,
        scan-line counts (middle_format ++ (read_long ∷ [])) (minflt ∷ cminflt ∷ majflt ∷ []) tail
            refl (h.0, (h.1.0, (h.1.1.0, tt))),
        scan-skipped middle_format (read_long ∷ []) middle (line (start ∷ []) rest) tt (omega arith)
            g,
        scan-line (read_long ∷ []) [] (start ∷ []) rest refl (h.1.1.1.0, tt),
      )
      refl

scan_int-letter : (c : ℕ) (s : Bytes) → leb b'A' c ≡ true → scan_int (c ∷ s) ≡ none
unfolding scan_int skip_space scan_signed scan_digits signed_number read_number
scan_int-letter c s h = ground arith

scan-letter :
    (cs : List Conversion) (c : ℕ) (s : Bytes)
    → leb b'A' c ≡ true
    → scan (skip_int ∷ cs) (c ∷ s) ≡ []
unfolding scan
scan-letter cs c s h = rw (scan_int-letter c s h, scan) refl

-- A command with one space in it shifts the fields: the fourth conversion meets the state of the
-- process, a letter, and memory_stat_from_procfs reports no statistics.
pub memory_stat_from_procfs-space :
    (tick_ns : ℕ) (pid first second rest : Bytes) (state : ℕ) (m : MemoryStat)
    → IsNumber pid
    → IsWord first
    → IsWord second
    → leb b'A' state ≡ true
    → memory_stat_from_procfs tick_ns (some (line (pid ∷ first ∷ second ∷ []) (state ∷ rest))) m
      ≡ none
unfolding memory_stat_from_procfs take_three
memory_stat_from_procfs-space tick_ns pid first second rest state m p f s letter =
    let cs : List Conversion = skip_int ∷ skip_word ∷ skip_word ∷ [] in
    let later : List Conversion =
      skip_int
      ∷ skip_int
      ∷ skip_int
      ∷ skip_int
      ∷ skip_int
      ∷ read_long
      ∷ skip_int
      ∷ read_long
      ∷ (middle_format ++ (read_long ∷ [])) in
    rw
      (
        scan-skipped cs (skip_int ∷ later) (pid ∷ first ∷ second ∷ []) (state ∷ rest) tt refl
            (inl p, (f, (s, tt))),
        scan-letter later state rest letter,
      )
      refl
