-- ===== src/Stats/RoundTrip.antt =====
-- statslog.cpp: what the framework reads out of a packet about a kill. The reader is that of
-- `java.io.DataInput` (readInt, readLong, readUTF on ASCII names), as the comments of the source say.
use mathlib.Core.List.{append_assoc, append-nil}
use android_system_memory_lm.Base.{
  ℕ, zero, suc, ◌+◌, ◌-◌, ◌*◌, ◌/◌, ◌%◌, ◌^◌, ◌<◌, ◌≤◌, ◌≡◌, refl, sym, ap, ap₂, ◌∙◌, arith, [],
  ◌∷◌, ◌++◌, Option, none, some, ltb, if◌then◌else◌, ℤ, pos, negsuc, ◌≤ℤ◌, length, take, replicate,
  update, length-append, length-replicate,
}
use android_system_memory_lm.Packet.{to_word, to_int, to_word-lt}
use android_system_memory_lm.Stats.Packet.{
  LmkKillOccurredPacket, be16, be32, be64, to_long_word, write_bytes, pack_int32, pack_int64,
  len_proc_name, padded, pack_string,
}
use android_system_memory_lm.Text.{Bytes}

-- The first bytes of a packet, which `ctrl_data_write` sends.
unfoldable pub sent : LmkKillOccurredPacket → ℕ → Bytes
sent packet zero = []
sent packet (suc n) = sent packet n ++ packet n ∷ []

sent-same :
    (n : ℕ) (p q : LmkKillOccurredPacket) → ((j : ℕ) → j < n → p j ≡ q j) → sent p n ≡ sent q n
unfolding sent
sent-same zero p q h = refl
sent-same (suc n) p q h =
    ap₂ (λ (a : Bytes) (b : ℕ). a ++ b ∷ []) (sent-same n p q (λ j l. h j (omega arith)))
      (h n (omega arith))

write-below :
    (i : ℕ) (bs : Bytes) (p : LmkKillOccurredPacket) (j : ℕ) → j < i → write_bytes i bs p j ≡ p j
unfolding write_bytes
write-below i [] p j h = refl
write-below i (b ∷ bs) p j h = ground (arith, write-below (i + 1) bs (update p i b) j)

pub write-above :
    (i : ℕ) (bs : Bytes) (p : LmkKillOccurredPacket) (j : ℕ)
    → i + length bs ≤ j
    → write_bytes i bs p j ≡ p j
unfolding write_bytes
write-above i [] p j h = refl
write-above i (b ∷ bs) p j h = ground (arith, write-above (i + 1) bs (update p i b) j)

sent-next : (p : LmkKillOccurredPacket) (n : ℕ) → sent p (n + 1) ≡ sent p n ++ p n ∷ []
unfolding sent
sent-next p n = let e : n + 1 ≡ suc n = omega arith in rw e refl

sent-update :
    (p : LmkKillOccurredPacket) (i b : ℕ) → sent (update p i b) (i + 1) ≡ sent p i ++ b ∷ []
sent-update p i b =
    sent-next (update p i b) i
    ∙ ap₂ (λ (a : Bytes) (c : ℕ). a ++ c ∷ []) (sent-same i (update p i b) p (λ j l. ground arith))
        (ground arith)

-- What is sent after a write: what was there, and the bytes written, up to where the index moves.
write-sent :
    (bs : Bytes) (i k : ℕ) (p : LmkKillOccurredPacket)
    → k ≤ length bs
    → sent (write_bytes i bs p) (i + k) ≡ sent p i ++ take k bs
unfolding write_bytes
write-sent bs i zero p h =
    let e : i + 0 ≡ i = omega arith in
    rw (e, append-nil) (sent-same i (write_bytes i bs p) p (λ j l. write-below i bs p j l))
write-sent [] i (suc k) p h = absurd (omega arith)
write-sent (b ∷ bs) i (suc k) p h =
    let e : i + suc k ≡ (i + 1) + k = omega arith in
    rw e (
      write-sent bs (i + 1) k (update p i b) (omega arith)
      ∙ ap (λ (a : Bytes). a ++ take k bs) (sent-update p i b)
      ∙ append_assoc (sent p i) (b ∷ []) (take k bs))

abbrev pub sent_at : LmkKillOccurredPacket × ℕ → Bytes
sent_at (packet, index) = sent packet index

pub pack_int32-sent :
    (at : LmkKillOccurredPacket × ℕ) (v : ℤ)
    → sent_at (pack_int32 at v) ≡ sent_at at ++ be32 (to_word v)
unfolding pack_int32 be32
pack_int32-sent (p, i) v = write-sent (be32 (to_word v)) i 4 p (omega arith)

pub pack_int64-sent :
    (at : LmkKillOccurredPacket × ℕ) (v : ℤ) → sent_at (pack_int64 at v) ≡ sent_at at ++ be64 v
unfolding pack_int64 be64 be32
pack_int64-sent (p, i) v = write-sent (be64 v) i 8 p (omega arith)

-- The name as it is sent: its length, its first 127 bytes, and a zero.
abbrev pub sent_name : Bytes → Bytes
sent_name name = be16 (len_proc_name name) ++ (take 127 name ++ 0 ∷ [])

length-take :
    (n : ℕ) (xs : Bytes) → length (take n xs) ≡ (if ltb (length xs) n then length xs else n)
length-take zero xs = ground arith
length-take (suc n) [] = ground arith
length-take (suc n) (x ∷ xs) = ground (arith, length-take n xs)

take-zeros :
    (xs : Bytes) (r : ℕ) → 0 < r → take (suc (length xs)) (xs ++ replicate r 0) ≡ xs ++ 0 ∷ []
take-zeros [] zero h = absurd (omega arith)
take-zeros [] (suc r) h = refl
take-zeros (x ∷ xs) r h = ap (◌∷◌ x) (take-zeros xs r h)

pub len_proc_name-le : (name : Bytes) → len_proc_name name ≤ 127
len_proc_name-le name = ground arith

pub length-padded : (name : Bytes) → length (be16 (len_proc_name name) ++ padded name) ≡ 130
unfolding be16
length-padded name = omega (
  arith,
  length-append (take 127 name) (replicate (128 - len_proc_name name) 0),
  length-replicate (128 - len_proc_name name) zero,
  length-take 127 name,
  len_proc_name-le name,
)

take-padded :
    (name : Bytes)
    → take (3 + len_proc_name name) (be16 (len_proc_name name) ++ padded name) ≡ sent_name name
unfolding be16
take-padded name =
    let n : len_proc_name name ≡ length (take 127 name) = sym (length-take 127 name) in
    let e : 3 + len_proc_name name ≡ suc (suc (suc (length (take 127 name)))) = omega (arith, n) in
    rw e (
      ap (λ (a : Bytes). len_proc_name name / 256 % 256 ∷ len_proc_name name % 256 ∷ a)
        (take-zeros (take 127 name) (128 - len_proc_name name)
          (omega (arith, len_proc_name-le name))))

pub pack_string-sent :
    (at : LmkKillOccurredPacket × ℕ) (name : Bytes)
    → sent_at (pack_string at name) ≡ sent_at at ++ sent_name name
unfolding pack_string
pack_string-sent (p, i) name =
    write-sent (be16 (len_proc_name name) ++ padded name) i (3 + len_proc_name name) p
      (omega (arith, length-padded name, len_proc_name-le name))
    ∙ ap (λ (a : Bytes). sent p i ++ a) (take-padded name)

-- A reader takes a value from the front of what is left.
infixl 5 ◌>>=◌
abbrev pub ◌>>=◌ {ℓ κ} : {A : Type ℓ} {B : Type κ} → Option A → (A → Option B) → Option B
none >>= f = none
some a >>= f = f a

unfoldable pub read_word : Bytes → Option (ℕ × Bytes)
read_word (a ∷ b ∷ c ∷ d ∷ rest) = some (a * 16777216 + b * 65536 + c * 256 + d, rest)
read_word _ = none

unfoldable pub read_int : Bytes → Option (ℤ × Bytes)
unfolding read_word
read_int bytes = do (w, rest) ← read_word bytes; some (to_int w, rest)

-- The `long` with a given bit pattern.
unfoldable pub to_long : ℕ → ℤ
to_long w = if ltb w (2 ^ 63) then pos w else negsuc (2 ^ 64 - w - 1)

unfoldable pub read_long : Bytes → Option (ℤ × Bytes)
unfolding read_word to_long
read_long bytes = do
  (high, a) ← read_word bytes
  (low, b) ← read_word a
  some (to_long (high * 2 ^ 32 + low), b)

-- A number of bytes.
unfoldable pub read_count : ℕ → Bytes → Option (Bytes × Bytes)
read_count zero bytes = some ([], bytes)
read_count (suc n) [] = none
read_count (suc n) (b ∷ bytes) = do (name, rest) ← read_count n bytes; some (b ∷ name, rest)

unfoldable pub read_utf : Bytes → Option (Bytes × Bytes)
unfolding read_count
read_utf (a ∷ b ∷ bytes) = read_count (a * 256 + b) bytes
read_utf _ = none

read_word-be32 : (w : ℕ) (rest : Bytes) → w < 2 ^ 32 → read_word (be32 w ++ rest) ≡ some (w, rest)
unfolding read_word be32
read_word-be32 w rest h =
    let e : w / 16777216 % 256 * 16777216 + w / 65536 % 256 * 65536 + w / 256 % 256 * 256 + w % 256
        ≡ w =
      omega arith in
    ap (λ (x : ℕ). some (x, rest)) e

pub read_int-be32 :
    (v : ℤ) (rest : Bytes) → read_int (be32 (to_word v) ++ rest) ≡ some (to_int (to_word v), rest)
unfolding read_int
read_int-be32 v rest = rw (read_word-be32 (to_word v) rest (to_word-lt v)) refl

abbrev pub IsLong : ℤ → Type 0
IsLong a = (negsuc (2 ^ 63 - 1) ≤ℤ a) × (a ≤ℤ pos (2 ^ 63 - 1))

to_long_word-lt : (a : ℤ) → to_long_word a < 2 ^ 64
unfolding to_long_word
to_long_word-lt (pos n) = omega arith
to_long_word-lt (negsuc n) = omega arith

to_long-word : (a : ℤ) → IsLong a → to_long (to_long_word a) ≡ a
unfolding to_long to_long_word
to_long-word a h = ground arith

pub read_long-be64 : (v : ℤ) (rest : Bytes) → IsLong v → read_long (be64 v ++ rest) ≡ some (v, rest)
unfolding read_long be64
read_long-be64 v rest h =
    let w : ℕ = to_long_word v in
    let e : to_long_word v / 2 ^ 32 * 2 ^ 32 + to_long_word v % 2 ^ 32 ≡ to_long_word v =
      omega arith in
    rw append_assoc (
      rw
        (
          read_word-be32 (to_long_word v / 2 ^ 32) (be32 (to_long_word v % 2 ^ 32) ++ rest)
              (omega (arith, to_long_word-lt v)),
          read_word-be32 (to_long_word v % 2 ^ 32) rest (omega arith),
          e,
          to_long-word v h,
        )
        refl)

read_count-append : (xs rest : Bytes) → read_count (length xs) (xs ++ rest) ≡ some (xs, rest)
unfolding read_count
read_count-append [] rest = refl
read_count-append (x ∷ xs) rest = rw (read_count-append xs rest) refl

pub read_utf-sent_name : (name : Bytes) → read_utf (sent_name name) ≡ some (take 127 name, 0 ∷ [])
unfolding read_utf be16
read_utf-sent_name name =
    let e : len_proc_name name / 256 % 256 * 256 + len_proc_name name % 256
        ≡ length (take 127 name) =
      omega (arith, len_proc_name-le name, length-take 127 name) in
    rw e (read_count-append (take 127 name) (0 ∷ []))
