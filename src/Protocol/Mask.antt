-- ===== src/Protocol/Mask.antt =====
-- The two maskings of a payload: bytewise, as the server's `websocket_server_mask_payload` does
-- it, and by machine words, as `websocket_mask_payload_copy` does.
pub mod Words
pub mod Laws
use php_websocket.Base.{
  ℕ, zero, suc, ◌+◌, ◌*◌, ◌/◌, ◌%◌, ◌^◌, List, [], ◌∷◌, ◌++◌, Bytes, bit_or, bit_xor, length,
  get_or, take, drop, leb, if◌then◌else◌,
}

-- `for (; i < len; i++) dst[i] = src[i] ^ mask[i & 3]`, on the bytes of `src` from `i` on.
-- On an unsigned index, `i & 3` is the remainder by 4.
unfoldable pub mask_bytes : Bytes → ℕ → Bytes → Bytes
mask_bytes mask i [] = []
mask_bytes mask i (b ∷ rest) = bit_xor b (get_or mask (i % 4) 0) ∷ mask_bytes mask (i + 1) rest

-- The byte order of the machine, which `memcpy` to and from an integer shows.
pub data Endian : Type 0 where
  little big : Endian

abbrev pub rev_onto : Bytes → Bytes → Bytes
rev_onto out [] = out
rev_onto out (b ∷ rest) = rev_onto (b ∷ out) rest

-- The bytes of an integer, lowest first.
abbrev pub ordered : Endian → Bytes → Bytes
ordered little bs = bs
ordered big bs = rev_onto [] bs

abbrev pub word : Bytes → ℕ
word [] = 0
word (b ∷ rest) = word rest * 256 + b

abbrev pub word_bytes : ℕ → ℕ → Bytes
word_bytes zero w = []
word_bytes (suc n) w = w % 256 ∷ word_bytes n (w / 256)

-- `memcpy(&chunk, src, n)` and `memcpy(dst, &chunk, n)`.
pub load : Endian → Bytes → ℕ
load e bs = word (ordered e bs)

pub store : Endian → ℕ → ℕ → Bytes
store e n w = ordered e (word_bytes n w)

-- `((uint64_t) mask32 << 32) | mask32`
pub double_word : ℕ → ℕ
double_word mask32 = bit_or (mask32 * 2 ^ 32) mask32

-- One round that masks `n` bytes at once.
abbrev pub mask_chunk : Endian → ℕ → ℕ → Bytes → Bytes
mask_chunk e n mask src = store e n (bit_xor (load e (take n src)) mask)

-- The `if (i + 4 <= len)` and the bytewise rest.
pub copy_tail : Endian → Bytes → ℕ → Bytes → Bytes
copy_tail e mask i src =
    if leb 4 (length src)
    then mask_chunk e 4 (load e mask) src ++ mask_bytes mask (i + 4) (drop 4 src)
    else mask_bytes mask i src

-- The `while (i + 8 <= len)` loop, on the bytes of `src` from `i` on. A round consumes bytes,
-- so `len` rounds are enough.
pub copy_words : Endian → Bytes → ℕ → ℕ → Bytes → Bytes
copy_words e mask zero i src = copy_tail e mask i src
copy_words e mask (suc fuel) i src =
    let more =
      mask_chunk e 8 (double_word (load e mask)) src
      ++ copy_words e mask fuel (i + 8) (drop 8 src) in
    if leb 8 (length src) then more else copy_tail e mask i src

-- `websocket_mask_payload_copy`
unfoldable pub mask_payload_copy : Endian → Bytes → Bytes → Bytes
unfolding copy_words copy_tail load store double_word mask_bytes
mask_payload_copy e mask src = copy_words e mask (length src) 0 src
