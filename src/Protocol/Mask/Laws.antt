-- ===== src/Protocol/Mask/Laws.antt =====
-- The optimised masking is the bytewise one, and masking twice gives the payload back.
use php_websocket.Base.{
  ℕ, zero, suc, ◌+◌, ◌%◌, ◌<◌, ◌≡◌, refl, true, [], ◌∷◌, ◌++◌, Bytes, IsBytes, ap, ap₂, bit_xor,
  length, get_or, leb, arith,
}
use php_websocket.Base.Bits.{bit_xor_cancel, bit_xor-lt}
use php_websocket.Protocol.Mask.{
  Endian, mask_bytes, load, store, double_word, copy_tail, copy_words, mask_payload_copy,
}
use php_websocket.Protocol.Mask.Words.{store-xor4, store-xor8}

-- Only the remainder of the index by 4 counts.
mask_bytes-mod :
    (mask : Bytes) (src : Bytes) (i j : ℕ)
    → i % 4 ≡ j % 4
    → mask_bytes mask i src ≡ mask_bytes mask j src
unfolding mask_bytes
mask_bytes-mod mask [] i j e = refl
mask_bytes-mod mask (b ∷ rest) i j e =
    ap₂ ◌∷◌ (ap (λ k. bit_xor b (get_or mask k 0)) e)
      (mask_bytes-mod mask rest (i + 1) (j + 1) (omega arith))

module _ (m0 m1 m2 m3 : ℕ) (h : IsBytes (m0 ∷ m1 ∷ m2 ∷ m3 ∷ [])) (e : Endian) where
  abbrev mask_key : Bytes
  mask_key = m0 ∷ m1 ∷ m2 ∷ m3 ∷ []

  abbrev from : Bytes → Bytes
  from = mask_bytes mask_key 0

  tail-from :
      (i : ℕ) (src : Bytes) → i % 4 ≡ 0 → IsBytes src → copy_tail e mask_key i src ≡ from src
  unfolding copy_tail mask_bytes
  tail-from i (p ∷ q ∷ r ∷ s ∷ rest) z k =
      let long : leb 4 (length (p ∷ q ∷ r ∷ s ∷ rest)) ≡ true = ground arith in
      rw long (
        ap₂ ◌++◌ (store-xor4 m0 m1 m2 m3 h e p q r s (omega arith))
          (mask_bytes-mod mask_key rest (i + 4) 4 (omega arith)))
  tail-from i [] z k = refl
  tail-from i (p ∷ []) z k = mask_bytes-mod mask_key (p ∷ []) i 0 z
  tail-from i (p ∷ q ∷ []) z k = mask_bytes-mod mask_key (p ∷ q ∷ []) i 0 z
  tail-from i (p ∷ q ∷ r ∷ []) z k = mask_bytes-mod mask_key (p ∷ q ∷ r ∷ []) i 0 z

  -- A round of the word loop, on at least eight bytes.
  chunk-from :
      (p q r s t u v w : ℕ) (rest : Bytes)
      → IsBytes (p ∷ q ∷ r ∷ s ∷ t ∷ u ∷ v ∷ w ∷ [])
      → store e 8
            (bit_xor (load e (p ∷ q ∷ r ∷ s ∷ t ∷ u ∷ v ∷ w ∷ [])) (double_word (load e mask_key)))
          ++ from rest
        ≡ from (p ∷ q ∷ r ∷ s ∷ t ∷ u ∷ v ∷ w ∷ rest)
  unfolding mask_bytes
  chunk-from p q r s t u v w rest k =
      ap₂ ◌++◌ (store-xor8 m0 m1 m2 m3 h e p q r s t u v w k)
        (mask_bytes-mod mask_key rest 0 8 refl)

  words-from :
      (fuel i : ℕ) (src : Bytes)
      → i % 4 ≡ 0
      → IsBytes src
      → copy_words e mask_key fuel i src ≡ from src
  unfolding copy_words
  words-from zero i src z k = tail-from i src z k
  words-from (suc fuel) i (p ∷ q ∷ r ∷ s ∷ t ∷ u ∷ v ∷ w ∷ rest) z k =
      let long : leb 8 (length (p ∷ q ∷ r ∷ s ∷ t ∷ u ∷ v ∷ w ∷ rest)) ≡ true = ground arith in
      rw (long, words-from fuel (i + 8) rest (omega arith) k.1.1.1.1.1.1.1.1)
        (chunk-from p q r s t u v w rest (omega arith))
  words-from (suc fuel) i src z k = tail-from i src z k

-- On any machine, masking by eight and four bytes at a time gives the bytes that the bytewise
-- loop gives, at every length of the payload.
pub mask_payload_copy-mask_bytes :
    (e : Endian) (mask src : Bytes)
    → length mask ≡ 4
    → IsBytes mask
    → IsBytes src
    → mask_payload_copy e mask src ≡ mask_bytes mask 0 src
unfolding mask_payload_copy
mask_payload_copy-mask_bytes e (a ∷ b ∷ c ∷ d ∷ []) src l m k =
    words-from a b c d m e (length src) 0 src refl k
mask_payload_copy-mask_bytes e mask src l m k = absurd (omega arith)

get_or-lt : (mask : Bytes) (i : ℕ) → IsBytes mask → get_or mask i 0 < 256
get_or-lt [] i m = omega arith
get_or-lt (b ∷ rest) zero m = m.0
get_or-lt (b ∷ rest) (suc i) m = get_or-lt rest i m.1

pub mask_bytes-IsBytes :
    (mask src : Bytes) (i : ℕ) → IsBytes mask → IsBytes src → IsBytes (mask_bytes mask i src)
unfolding mask_bytes
mask_bytes-IsBytes mask [] i m k = tt
mask_bytes-IsBytes mask (b ∷ rest) i m k = (
  bit_xor-lt 8 b (get_or mask (i % 4) 0) k.0 (get_or-lt mask (i % 4) m),
  mask_bytes-IsBytes mask rest (i + 1) m k.1,
)

pub length-mask_bytes : (mask src : Bytes) (i : ℕ) → length (mask_bytes mask i src) ≡ length src
unfolding mask_bytes
length-mask_bytes mask [] i = refl
length-mask_bytes mask (b ∷ rest) i = ap suc (length-mask_bytes mask rest (i + 1))

-- Unmasking with the same key undoes masking.
pub mask_bytes-mask_bytes :
    (mask src : Bytes) (i : ℕ)
    → IsBytes mask
    → IsBytes src
    → mask_bytes mask i (mask_bytes mask i src) ≡ src
unfolding mask_bytes
mask_bytes-mask_bytes mask [] i m k = refl
mask_bytes-mask_bytes mask (b ∷ rest) i m k =
    ap₂ ◌∷◌ (bit_xor_cancel 8 b (get_or mask (i % 4) 0) k.0 (get_or-lt mask (i % 4) m))
      (mask_bytes-mask_bytes mask rest (i + 1) m k.1)
