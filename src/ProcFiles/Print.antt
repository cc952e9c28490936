-- ===== src/ProcFiles/Print.antt =====
-- lmkd.cpp: what the parsers of /proc/meminfo and /proc/vmstat make of the lines that the kernel prints.
use android_system_memory_lm.Base.{
  ℕ, zero, suc, ◌-◌, ◌≤◌, ◌<◌, ◌≡◌, inl, inr, refl, ap, subst, map, length-append, ◌^◌, ◌∙◌, arith,
  List, [], ◌∷◌, ◌++◌, Option, none, some, true, false, ◌==◌, ℤ, pos, length, replicate, update,
  quot, Option-cases,
}
use android_system_memory_lm.Pressure.Fields.{vmstat_field_names}
use android_system_memory_lm.Text.{
  Bytes, skip_space, read_digits, read_number, saturate, signed_number, after_sign, parse_int64,
}
use android_system_memory_lm.Stats.Fields.{AllDigit, IsNumber}
use android_system_memory_lm.ProcFiles.{
  RereadData, System, content, open_data, reread_file, keep, split_tokens, tokens, find_field,
  match_field, match_line, store_match, parse_lines,
}
use android_system_memory_lm.ProcFiles.Whole.{IsFile, reread_file-whole}
use android_system_memory_lm.ProcFiles.Parse.{
  meminfo_field_names, meminfo_parse_line, finish_meminfo, parse_read, vmstat_parse_line,
  easy_fields, meminfo_parse, prefilled, vmstat_parse,
}

-- A line: the name, one space and `pad` more, the number, and a unit or nothing.
pub record Entry : Type 0 where
  pub name : Bytes
  pub pad : ℕ
  pub number : Bytes
  pub unit : Bytes

abbrev pub line_of : Entry → Bytes
line_of e = e.name ++ (32 ∷ (replicate e.pad 32 ++ (e.number ++ e.unit)))

abbrev pub print_lines : List Entry → Bytes
print_lines [] = []
print_lines (e ∷ es) = line_of e ++ (10 ∷ print_lines es)

abbrev pub Lacks : ℕ → Bytes → Type 0
Lacks d [] = Unit {0}
Lacks d (c ∷ s) = ((c == d) ≡ false) × Lacks d s

-- Nothing, or a space and more.
abbrev pub IsUnit : Bytes → Type 0
IsUnit [] = Unit {0}
IsUnit (c ∷ s) = (c ≡ 32) × Lacks 10 s

pub record IsEntry (e : Entry) : Type 0 where
  pub named : 0 < length e.name
  pub name_word : Lacks 32 e.name
  pub name_line : Lacks 10 e.name
  pub number : IsNumber e.number
  pub unit : IsUnit e.unit

abbrev pub AreEntries : List Entry → Type 0
AreEntries [] = Unit {0}
AreEntries (e ∷ es) = IsEntry e × AreEntries es

-- What an entry changes: the element of the array that has its name, where there is one.
abbrev store_at : Option ℕ → ℤ → (ℕ → ℤ) → ℕ → ℤ
store_at none v arr = arr
store_at (some i) v arr = update arr i v

pub store_entries : List Bytes → (ℤ → ℤ) → List Entry → (ℕ → ℤ) → ℕ → ℤ
store_entries names scale [] arr = arr
store_entries names scale (e ∷ es) arr =
    store_entries names scale es
      (store_at (find_field e.name names) (scale (pos (read_digits 0 e.number))) arr)

split-delim : (d : ℕ) (w s : Bytes) → Lacks d w → split_tokens d (w ++ (d ∷ s)) ≡ (w, tokens d s)
unfolding split_tokens tokens
split-delim d [] s h = ground arith
split-delim d (c ∷ w) s (n, h) = rw (split-delim d w s h, n) refl

split-end : (d : ℕ) (w : Bytes) → Lacks d w → split_tokens d w ≡ (w, [])
unfolding split_tokens
split-end d [] h = refl
split-end d (c ∷ w) (n, h) = rw (split-end d w h, n) refl

keep-word : (w : Bytes) (ts : List Bytes) → 0 < length w → keep (w, ts) ≡ w ∷ ts
keep-word [] ts h = absurd (omega arith)
keep-word (c ∷ w) ts h = refl

tokens-delim :
    (d : ℕ) (w s : Bytes) → 0 < length w → Lacks d w → tokens d (w ++ (d ∷ s)) ≡ w ∷ tokens d s
unfolding tokens
tokens-delim d w s p h = ap keep (split-delim d w s h) ∙ keep-word w (tokens d s) p

tokens-pad : (n : ℕ) (s : Bytes) → tokens 32 (replicate n 32 ++ s) ≡ tokens 32 s
unfolding tokens split_tokens
tokens-pad zero s = refl
tokens-pad (suc n) s = tokens-pad n s

++_nil : (s : Bytes) → s ++ [] ≡ s
++_nil [] = refl
++_nil (c ∷ s) = ap (λ (t : Bytes). c ∷ t) (++_nil s)

-- The word that a text begins with, where nothing or a space follows.
tokens-unit :
    (w u : Bytes)
    → 0 < length w
    → Lacks 32 w
    → IsUnit u
    → (ts : List Bytes) × (tokens 32 (w ++ u) ≡ w ∷ ts)
unfolding tokens
tokens-unit w [] p h v =
    ([], ap (tokens 32) (++_nil w) ∙ ap keep (split-end 32 w h) ∙ keep-word w [] p)
tokens-unit w (c ∷ u) p h (e, v) = (tokens 32 u, rw e (tokens-delim 32 w u p h))

Lacks-append : (d : ℕ) (s t : Bytes) → Lacks d s → Lacks d t → Lacks d (s ++ t)
Lacks-append d [] t h k = k
Lacks-append d (c ∷ s) t (n, h) k = (n, Lacks-append d s t h k)

Lacks-digits : (d : ℕ) (s : Bytes) → d < b'0' → AllDigit s → Lacks d s
Lacks-digits d [] l h = tt
Lacks-digits d (c ∷ s) l (x, h) = (ground (arith, x), Lacks-digits d s l h)

Lacks-pad : (n : ℕ) → Lacks 10 (replicate n 32)
Lacks-pad zero = tt
Lacks-pad (suc n) = (refl, Lacks-pad n)

parse_digits :
    (c : ℕ) (w : Bytes)
    → AllDigit (c ∷ w)
    → read_digits 0 (c ∷ w) ≤ 2 ^ 63 - 1
    → parse_int64 (c ∷ w) ≡ some (pos (read_digits 0 (c ∷ w)))
unfolding parse_int64 skip_space after_sign signed_number read_number saturate
parse_digits c w h l = ground (arith, h.0, l)

parse_int64-IsNumber : (w : Bytes) → IsNumber w → parse_int64 w ≡ some (pos (read_digits 0 w))
parse_int64-IsNumber w v = rw v.split (
    parse_digits v.head v.tail v.digits
      (subst (λ (a : Bytes). read_digits 0 a ≤ 2 ^ 63 - 1) v.split v.in_range))

IsNumber-long : (w : Bytes) → IsNumber w → 0 < length w
IsNumber-long w v = rw v.split (omega arith)

IsNumber-Lacks : (d : ℕ) (w : Bytes) → d < b'0' → IsNumber w → Lacks d w
IsNumber-Lacks d w l v = rw v.split (Lacks-digits d (v.head ∷ v.tail) l v.digits)

IsUnit-Lacks : (u : Bytes) → IsUnit u → Lacks 10 u
IsUnit-Lacks [] h = tt
IsUnit-Lacks (c ∷ u) (e, h) = (ground (arith, e), h)

line_of-Lacks : (e : Entry) → IsEntry e → Lacks 10 (line_of e)
line_of-Lacks e v =
    Lacks-append 10 e.name (32 ∷ (replicate e.pad 32 ++ (e.number ++ e.unit))) v.name_line (
      refl,
      Lacks-append 10 (replicate e.pad 32) (e.number ++ e.unit) (Lacks-pad e.pad) (
          Lacks-append 10 e.number e.unit (IsNumber-Lacks 10 e.number (omega arith) v.number)
            (IsUnit-Lacks e.unit v.unit)),
    )

line_of-long : (e : Entry) → 0 < length (line_of e)
line_of-long e =
    omega (arith, length-append e.name (32 ∷ (replicate e.pad 32 ++ (e.number ++ e.unit))))

tokens-print_lines : (es : List Entry) → AreEntries es → tokens 10 (print_lines es) ≡ map line_of es
unfolding tokens split_tokens
tokens-print_lines [] v = refl
tokens-print_lines (e ∷ es) (v, vs) =
    tokens-delim 10 (line_of e) (print_lines es) (line_of-long e) (line_of-Lacks e v)
    ∙ ap (λ (ts : List Bytes). line_of e ∷ ts) (tokens-print_lines es vs)

-- The name and the number of a line are its first tokens.
tokens-line_of :
    (e : Entry) → IsEntry e → (ts : List Bytes) × (tokens 32 (line_of e) ≡ e.name ∷ e.number ∷ ts)
tokens-line_of e v =
    let rest = e.number ++ e.unit in
    let (ts, h) =
      tokens-unit e.number e.unit (IsNumber-long e.number v.number)
        (IsNumber-Lacks 32 e.number (omega arith) v.number) v.unit in
    (
      ts,
      tokens-delim 32 e.name (replicate e.pad 32 ++ rest) v.named v.name_word
          ∙ ap (λ (us : List Bytes). e.name ∷ us) (tokens-pad e.pad rest ∙ h),
    )

store_line :
    (names : List Bytes) (scale : ℤ → ℤ) (e : Entry) (arr : ℕ → ℤ)
    → IsEntry e
    → store_match scale (match_line (tokens 32 (line_of e)) names) arr
      ≡ some (store_at (find_field e.name names) (scale (pos (read_digits 0 e.number))) arr)
unfolding match_line match_field
store_line names scale e arr v =
    let (ts, h) = tokens-line_of e v in
    elim (Option-cases (find_field e.name names)) [
      | inl none_such ↦ rw (h, match_line, match_field, none_such) refl
      | inr (i, found) ↦
          rw (h, match_line, match_field, found, parse_int64-IsNumber e.number v.number) refl
    ]

parse_lines-print :
    (names : List Bytes) (scale : ℤ → ℤ) (parse : Bytes → (ℕ → ℤ) → Option (ℕ → ℤ))
    (es : List Entry) (arr : ℕ → ℤ)
    → ((line : Bytes) (a : ℕ → ℤ)
        → parse line a ≡ store_match scale (match_line (tokens 32 line) names) a)
    → AreEntries es
    → parse_lines parse (map line_of es) arr ≡ some (store_entries names scale es arr)
unfolding parse_lines store_entries
parse_lines-print names scale parse [] arr h v = refl
parse_lines-print names scale parse (e ∷ es) arr h (v, vs) =
    rw (h (line_of e) arr ∙ store_line names scale e arr v, parse_lines)
      (parse_lines-print names scale parse es _ h vs)

parse_read-print :
    (names : List Bytes) (scale : ℤ → ℤ) (parse : Bytes → (ℕ → ℤ) → Option (ℕ → ℤ)) (arr : ℕ → ℤ)
    (sys : System) (r d : RereadData) (es : List Entry)
    → ((line : Bytes) (a : ℕ → ℤ)
        → parse line a ≡ store_match scale (match_line (tokens 32 line) names) a)
    → reread_file sys d ≡ (content sys.file.text, r)
    → sys.file.text ≡ print_lines es
    → AreEntries es
    → parse_read parse arr (reread_file sys d).0 ≡ some (store_entries names scale es arr)
parse_read-print names scale parse arr sys r d es same h text w =
    rw (h, text, tokens-print_lines es w) (parse_lines-print names scale parse es arr same w)

-- If /proc/meminfo can be read whole and has lines of a name, a number and perhaps a unit, then
-- meminfo_parse gives, for each name that it knows, the number of the last line of that name in pages
-- divided by `page_k`, 0 where there is none, and the sum of MemFree and Inactive(file), whatever
-- other lines there are.
pub meminfo_parse-print :
    (page_k : ℕ) (gpu_kb : ℤ) (sys : System) (d : RereadData) (es : List Entry)
    → IsFile sys.file
    → ((n : ℕ) → sys.realloc n ≡ true)
    → 1 < d.buf_size
    → (open_data sys d).0 ≡ true
    → sys.file.text ≡ print_lines es
    → AreEntries es
    → (meminfo_parse page_k gpu_kb sys d).0
      ≡ some (
          easy_fields gpu_kb
            (store_entries meminfo_field_names (λ v. quot v page_k) es (λ i. pos 0)))
unfolding meminfo_parse meminfo_parse_line
meminfo_parse-print page_k gpu_kb sys d es v m b ok text w =
    let (r, h, again) = reread_file-whole sys d v m b ok in
    ap (λ (o : Option (ℕ → ℤ)). finish_meminfo gpu_kb o)
      (parse_read-print meminfo_field_names (λ z. quot z page_k) (meminfo_parse_line page_k)
        (λ i. pos 0) sys r d es (λ line a. refl) h text w)

-- If /proc/vmstat can be read whole and has lines of a name and a number, then vmstat_parse gives,
-- for each name that it knows, the number of the last line of that name, and where there is none
-- -22 for a counter of skipped pages of a zone and 0 for another one.
vmstat_parse-print :
    (sys : System) (d : RereadData) (es : List Entry)
    → IsFile sys.file
    → ((n : ℕ) → sys.realloc n ≡ true)
    → 1 < d.buf_size
    → (open_data sys d).0 ≡ true
    → sys.file.text ≡ print_lines es
    → AreEntries es
    → (vmstat_parse sys d).0 ≡ some (store_entries vmstat_field_names (λ v. v) es prefilled)
unfolding vmstat_parse vmstat_parse_line
vmstat_parse-print sys d es v m b ok text w =
    let (r, h, again) = reread_file-whole sys d v m b ok in
    parse_read-print vmstat_field_names (λ z. z) vmstat_parse_line prefilled sys r d es
      (λ line a. refl) h text w
