-- ===== src/Protocol/Mask/Words.antt =====
-- Words and their bytes: exclusive disjunction of words is that of their bytes, in any byte order.
use php_websocket.Base.{
  ℕ, ◌^◌, ◌<◌, ◌≡◌, refl, [], ◌∷◌, Bytes, IsBytes, ap, ap₂, ◌∙◌, bit_xor, length, arith,
}
use php_websocket.Base.Bits.{bit_xor_fields, bit_xor-lt, bit_or_fields}
use php_websocket.Protocol.Mask.{
  Endian, little, big, word, word_bytes, rev_onto, load, store, double_word,
}

abbrev pub zip_xor : Bytes → Bytes → Bytes
zip_xor [] ys = []
zip_xor (x ∷ xs) [] = []
zip_xor (x ∷ xs) (y ∷ ys) = bit_xor x y ∷ zip_xor xs ys

-- The bytes of the exclusive disjunction of two words are those of the bytes, place by place.
word_bytes-xor :
    (xs ys : Bytes)
    → IsBytes xs
    → IsBytes ys
    → length xs ≡ length ys
    → word_bytes (length xs) (bit_xor (word xs) (word ys)) ≡ zip_xor xs ys
word_bytes-xor [] ys p q e = refl
word_bytes-xor (x ∷ xs) [] p q e = absurd (omega arith)
word_bytes-xor (x ∷ xs) (y ∷ ys) p q e =
    let fields = bit_xor_fields 8 (word xs) (word ys) x y p.0 q.0 in
    let low = bit_xor-lt 8 x y p.0 q.0 in
    ap₂ ◌∷◌ (omega arith)
      (ap (word_bytes (length xs)) (omega arith) ∙ word_bytes-xor xs ys p.1 q.1 (omega arith))

module _ (a b c d : ℕ) (h : IsBytes (a ∷ b ∷ c ∷ d ∷ [])) where
  load-lt : (e : Endian) → load e (a ∷ b ∷ c ∷ d ∷ []) < 2 ^ 32
  unfolding load
  load-lt little = omega arith
  load-lt big = omega arith

  -- `mask64` is the word of the mask's four bytes twice.
  pub double_word-load :
      (e : Endian)
      → double_word (load e (a ∷ b ∷ c ∷ d ∷ [])) ≡ load e (a ∷ b ∷ c ∷ d ∷ a ∷ b ∷ c ∷ d ∷ [])
  unfolding load double_word
  double_word-load little =
      let w : ℕ = word (a ∷ b ∷ c ∷ d ∷ []) in omega (arith, bit_or_fields 32 w w (load-lt little))
  double_word-load big =
      let w : ℕ = word (d ∷ c ∷ b ∷ a ∷ []) in omega (arith, bit_or_fields 32 w w (load-lt big))

  pub store-xor4 :
      (e : Endian) (p q r s : ℕ)
      → IsBytes (p ∷ q ∷ r ∷ s ∷ [])
      → store e 4 (bit_xor (load e (p ∷ q ∷ r ∷ s ∷ [])) (load e (a ∷ b ∷ c ∷ d ∷ [])))
        ≡ zip_xor (p ∷ q ∷ r ∷ s ∷ []) (a ∷ b ∷ c ∷ d ∷ [])
  unfolding load store
  store-xor4 little p q r s k = word_bytes-xor (p ∷ q ∷ r ∷ s ∷ []) (a ∷ b ∷ c ∷ d ∷ []) k h refl
  store-xor4 big p q r s k =
      ap (rev_onto [])
        (word_bytes-xor (s ∷ r ∷ q ∷ p ∷ []) (d ∷ c ∷ b ∷ a ∷ []) (omega arith) (omega arith) refl)

  pub store-xor8 :
      (e : Endian) (p q r s t u v w : ℕ)
      → IsBytes (p ∷ q ∷ r ∷ s ∷ t ∷ u ∷ v ∷ w ∷ [])
      → store e 8 (
          bit_xor
            (load e (p ∷ q ∷ r ∷ s ∷ t ∷ u ∷ v ∷ w ∷ []))
            (double_word (load e (a ∷ b ∷ c ∷ d ∷ []))))
        ≡ zip_xor (p ∷ q ∷ r ∷ s ∷ t ∷ u ∷ v ∷ w ∷ []) (a ∷ b ∷ c ∷ d ∷ a ∷ b ∷ c ∷ d ∷ [])
  store-xor8 little p q r s t u v w k = rw (double_word-load little) (
      unfold load store in
      word_bytes-xor (p ∷ q ∷ r ∷ s ∷ t ∷ u ∷ v ∷ w ∷ []) (a ∷ b ∷ c ∷ d ∷ a ∷ b ∷ c ∷ d ∷ []) k
        (omega arith) refl)
  store-xor8 big p q r s t u v w k = rw (double_word-load big) (
      unfold load store in
      ap (rev_onto []) (
        word_bytes-xor (w ∷ v ∷ u ∷ t ∷ s ∷ r ∷ q ∷ p ∷ []) (d ∷ c ∷ b ∷ a ∷ d ∷ c ∷ b ∷ a ∷ [])
          (omega arith) (omega arith) refl))
