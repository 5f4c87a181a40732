-- ===== src/Protocol/Utf8.antt =====
-- `websocket_protocol_is_valid_utf8`: the validator of text payloads and close reasons.
pub mod Scalar
pub mod Decode
pub mod Correct
use php_websocket.Base.{
  ℕ, zero, suc, Bool, true, false, ◌&&◌, ◌||◌, Option, none, some, List, [], ◌∷◌, Bytes, leb, ◌==◌,
  bit_and, length, drop, if◌then◌else◌,
}

-- `(b & 0xc0) == 0x80`
pub is_continuation : ℕ → Bool
is_continuation b = bit_and b 0xc0 == 0x80

-- `i + k < payload_len`, and the tests of the bytes from `i + 1` on.
abbrev pub next1 : (ℕ → Bool) → Bytes → Bool
next1 p [] = false
next1 p (b ∷ rest) = p b

abbrev pub next2 : (ℕ → Bool) → (ℕ → Bool) → Bytes → Bool
next2 p q [] = false
next2 p q (b ∷ []) = false
next2 p q (b ∷ c ∷ rest) = p b && q c

abbrev pub next3 : (ℕ → Bool) → (ℕ → Bool) → (ℕ → Bool) → Bytes → Bool
next3 p q r [] = false
next3 p q r (b ∷ []) = false
next3 p q r (b ∷ c ∷ []) = false
next3 p q r (b ∷ c ∷ d ∷ rest) = p b && q c && r d

abbrev pub within : ℕ → ℕ → ℕ → Bool
within lo hi b = leb lo b && leb b hi

abbrev pub advance : ℕ → Bool → Option ℕ
advance n fits = if fits then some n else none

-- One round of the loop at `bytes[i] = c`, with `rest` behind it: by how much `i` grows, or
-- `none` for `return false`.
pub utf8_step : ℕ → Bytes → Option ℕ
utf8_step c rest =
    if leb c 0x7f
    then some 1
    else if within 0xc2 0xdf c
    then advance 2 (next1 is_continuation rest)
    else if c == 0xe0
    then advance 3 (next2 (within 0xa0 0xbf) is_continuation rest)
    else if within 0xe1 0xec c || within 0xee 0xef c
    then advance 3 (next2 is_continuation is_continuation rest)
    else if c == 0xed
    then advance 3 (next2 (within 0x80 0x9f) is_continuation rest)
    else if c == 0xf0
    then advance 4 (next3 (within 0x90 0xbf) is_continuation is_continuation rest)
    else if within 0xf1 0xf3 c
    then advance 4 (next3 is_continuation is_continuation is_continuation rest)
    else if c == 0xf4
    then advance 4 (next3 (within 0x80 0x8f) is_continuation is_continuation rest)
    else none

-- The `while` loop on the bytes from `i` on. Each round consumes a byte, so `payload_len`
-- rounds are enough.
pub scan_utf8 : ℕ → Bytes → Bool
scan_utf8 zero [] = true
scan_utf8 zero (c ∷ rest) = false
scan_utf8 (suc fuel) [] = true
scan_utf8 (suc fuel) (c ∷ rest) = elim (utf8_step c rest) [
  | none ↦ false
  | some n ↦ scan_utf8 fuel (drop n (c ∷ rest))
]

unfoldable pub is_valid_utf8 : Bytes → Bool
unfolding scan_utf8 utf8_step is_continuation
is_valid_utf8 bytes = scan_utf8 (length bytes) bytes
