-- ===== src/Packet/Words.antt =====
-- The 32-bit words of a packet, `htonl` and `ntohl` on a little-endian machine (include/lmkd.h
-- calls them on every word), and the `int` that a word stands for.
use android_system_memory_lm.Base.{
  ℕ, ◌+◌, ◌-◌, ◌*◌, ◌/◌, ◌%◌, ◌^◌, ◌<◌, ◌≡◌, refl, arith, ltb, if◌then◌else◌, ℤ, pos, negsuc, ◌≤ℤ◌,
}

-- The four bytes of a word in the other order.
byte_swap : ℕ → ℕ
byte_swap w =
    w % 256 * 16777216 + w / 256 % 256 * 65536 + w / 65536 % 256 * 256 + w / 16777216 % 256

unfoldable pub htonl : ℕ → ℕ
unfolding byte_swap
htonl w = byte_swap w

unfoldable pub ntohl : ℕ → ℕ
unfolding byte_swap
ntohl w = byte_swap w

pub ntohl-htonl : (w : ℕ) → w < 2 ^ 32 → ntohl (htonl w) ≡ w
unfolding ntohl htonl
ntohl-htonl w h = omega arith

-- The bit pattern of an `int`.
unfoldable pub to_word : ℤ → ℕ
to_word (pos n) = n % 2 ^ 32
to_word (negsuc n) = 2 ^ 32 - 1 - n % 2 ^ 32

-- The `int` with a given bit pattern.
unfoldable pub to_int : ℕ → ℤ
to_int w = if ltb w (2 ^ 31) then pos w else negsuc (2 ^ 32 - w - 1)

abbrev pub IsInt : ℤ → Type 0
IsInt a = (negsuc (2 ^ 31 - 1) ≤ℤ a) × (a ≤ℤ pos (2 ^ 31 - 1))

pub to_word-lt : (a : ℤ) → to_word a < 2 ^ 32
unfolding to_word
to_word-lt (pos n) = omega arith
to_word-lt (negsuc n) = omega arith

pub to_int-to_word : (a : ℤ) → IsInt a → to_int (to_word a) ≡ a
unfolding to_int to_word
to_int-to_word a h = ground arith

-- An `int` sent by `htonl` and read by `ntohl` arrives.
pub receive-send : (a : ℤ) → IsInt a → to_int (ntohl (htonl (to_word a))) ≡ a
receive-send a h = rw (ntohl-htonl (to_word a) (to_word-lt a)) (to_int-to_word a h)

swapped : htonl 0x01020304 ≡ 0x04030201
unfolding htonl
swapped = refl
