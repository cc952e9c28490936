-- ===== src/ProcFiles/Whole.antt =====
-- lmkd.cpp: reread_file gives the whole file.
use android_system_memory_lm.Base.{
  ℕ, zero, suc, ◌+◌, ◌-◌, ◌*◌, ◌≤◌, ◌<◌, ◌≡◌, refl, ap, ap₂, ◌∙◌, arith, [], ◌∷◌, some, true, false,
  ltb, ◌==◌, if◌then◌else◌, length, take, Bool-cases, Option-cases, inl, inr, ltb→lt, lt→ltb,
}
use android_system_memory_lm.Text.{Bytes}
use android_system_memory_lm.ProcFiles.{
  File, read_from, read_all, RereadData, System, ReadResult, content, grow, open_data, reread_file,
}

-- `pread` of a regular file: it never fails, gives at most what is asked for and there, and gives
-- nothing only where nothing is asked for or there.
pub record IsFile (file : File) : Type 0 where
  pub answers :
      (offset n : ℕ)
      → (r : ℕ) × (file.given offset n ≡ some r)
        × (r ≤ n)
        × (0 < r → offset + r ≤ length file.text)
        × (offset < length file.text → 0 < n → 0 < r)

abbrev least : ℕ → ℕ → ℕ
least a b = if ltb a b then a else b

read_from-least :
    (file : File) (f offset n : ℕ)
    → IsFile file
    → n ≤ f
    → offset ≤ length file.text
    → read_from f file offset n ≡ some (least (length file.text) (offset + n))
unfolding read_from
read_from-least file zero offset n v l o = ground arith
read_from-least file (suc f) offset n v l o =
    let (r, given, at_most, there, some_given) = v.answers offset n in
    elim (Bool-cases (n == 0)) [
      | inl e ↦ ground (arith, e)
      | inr e ↦ elim (Bool-cases (r == 0)) [
        | inl stop ↦ simp (e, given, stop) (ap some (ground (arith, stop, e, some_given)))
        | inr go ↦
            simp (e, given, go)
              (read_from-least file f (offset + r) (n - r) v (ground (arith, go))
                  (there (ground (arith, go)))
                ∙ ap (λ (k : ℕ). some (least (length file.text) k)) (omega arith))
      ]
    ]

take-all : (s : Bytes) (n : ℕ) → length s ≤ n → take n s ≡ s
take-all [] zero h = refl
take-all [] (suc n) h = refl
take-all (c ∷ s) zero h = absurd (omega arith)
take-all (c ∷ s) (suc n) h = ap (λ (t : Bytes). c ∷ t) (take-all s n (omega arith))

read_all-least :
    (file : File) (n : ℕ) → IsFile file → read_all file n ≡ some (least (length file.text) n)
unfolding read_all
read_all-least file n v =
    read_from-least file n 0 n v (omega arith) (omega arith)
    ∙ ap (λ (k : ℕ). some (least (length file.text) k)) (omega arith)

-- Where the text fits the buffer with its end, one reading is enough.
grow-fits :
    (f : ℕ) (sys : System) (d : RereadData)
    → IsFile sys.file
    → length sys.file.text + 1 < d.buf_size
    → grow (suc f) sys d ≡ (content sys.file.text, d)
unfolding grow
grow-fits f sys d v l =
    let text = sys.file.text in
    let size : least (length text) (d.buf_size - 1) ≡ length text = ground arith in
    rw (grow, read_all-least sys.file (d.buf_size - 1) v, size)
      (simp (
        lt→ltb (length text) (d.buf_size - 1) (omega arith),
        take-all text (length text) (omega arith),
      ))

grow-doubles :
    (f : ℕ) (sys : System) (d : RereadData)
    → IsFile sys.file
    → sys.realloc (d.buf_size * 2) ≡ true
    → d.buf_size ≤ length sys.file.text + 1
    → grow (suc f) sys d ≡ grow f sys (record d { buf_size = d.buf_size * 2 })
unfolding grow
grow-doubles f sys d v m l =
    let text = sys.file.text in
    let size : ltb (least (length text) (d.buf_size - 1)) (d.buf_size - 1) ≡ false = ground arith in
    rw (grow, read_all-least sys.file (d.buf_size - 1) v) (simp (size, m))

-- The buffer that holds the text, and the same descriptor.
record Holds (sys : System) (d : RereadData) (r : ReadResult × RereadData) : Type 0 where
  whole : r.0 ≡ content sys.file.text
  same_fd : r.1.fd ≡ d.fd
  fits : length sys.file.text + 1 < r.1.buf_size

grow-Holds :
    (f : ℕ) (sys : System) (d : RereadData)
    → IsFile sys.file
    → ((n : ℕ) → sys.realloc n ≡ true)
    → 0 < d.buf_size
    → length sys.file.text + 2 < d.buf_size + f
    → 0 < f
    → Holds sys d (grow f sys d)
unfolding grow
grow-Holds zero sys d v m b l p = absurd (omega arith)
grow-Holds (suc f) sys d v m b l p = elim (Bool-cases (ltb (length sys.file.text + 1) d.buf_size)) [
  | inl small ↦
      let fits = ltb→lt (length sys.file.text + 1) d.buf_size small in
      rw (grow-fits f sys d v fits) (record { whole = refl; same_fd = refl; fits = fits })
  | inr large ↦
      let d' = record d { buf_size = d.buf_size * 2 } in
      let h = grow-Holds f sys d' v m (omega arith) (omega arith) (ground (arith, large)) in
      rw (grow-doubles f sys d v (m (d.buf_size * 2)) (ground (arith, large)))
        (record { whole = h.whole; same_fd = h.same_fd; fits = h.fits })
]

open_data-open :
    (sys : System) (d : RereadData)
    → (open_data sys d).0 ≡ true
    → (fd : ℕ) × ((open_data sys d).1.fd ≡ some fd)
unfolding open_data
open_data-open sys d h = elim (Option-cases d.fd) [
  | inr (fd, e) ↦ (fd, ground (arith, e))
  | inl e ↦ elim (Option-cases sys.open_file) [
    | inl o ↦ absurd (ground (arith, h, e, o))
    | inr (fd, o) ↦ (fd, ground (arith, h, e, o))
  ]
]

open_data-buf_size : (sys : System) (d : RereadData) → (open_data sys d).1.buf_size ≡ d.buf_size
unfolding open_data
open_data-buf_size sys d = ground (arith, Option-cases d.fd, Option-cases sys.open_file)

open_data-known :
    (sys : System) (d : RereadData) (fd : ℕ) → d.fd ≡ some fd → open_data sys d ≡ (true, d)
unfolding open_data
open_data-known sys d fd h = rw h refl

-- If the file can be opened and memory can be had, then reread_file gives the whole text of the file,
-- however many bytes the kernel gives for each read; and it keeps a descriptor and a buffer with which
-- it gives a later text that is not longer too, whatever open and realloc then answer.
pub reread_file-whole :
    (sys : System) (d : RereadData)
    → IsFile sys.file
    → ((n : ℕ) → sys.realloc n ≡ true)
    → 1 < d.buf_size
    → (open_data sys d).0 ≡ true
    → (r : RereadData) × (reread_file sys d ≡ (content sys.file.text, r))
      × ((later : System)
          → IsFile later.file
          → length later.file.text ≤ length sys.file.text
          → reread_file later r ≡ (content later.file.text, r))
unfolding reread_file
reread_file-whole sys d v m b ok =
    let o = (open_data sys d).1 in
    let fuel = suc (length sys.file.text) in
    let size = open_data-buf_size sys d in
    let h = grow-Holds fuel sys o v m (omega (arith, size)) (omega (arith, size)) (omega arith) in
    let (fd, e) = open_data-open sys d ok in
    let r = (grow fuel sys o).1 in
    (
      r,
      rw (reread_file, ok) (ap₂ (λ (a : ReadResult) (c : RereadData). (a, c)) h.whole refl),
      λ later w l.
          rw (reread_file, open_data-known later r fd (h.same_fd ∙ e))
            (grow-fits (length later.file.text) later r w (omega (arith, h.fits))),
    )
