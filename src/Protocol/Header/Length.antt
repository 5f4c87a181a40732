-- ===== src/Protocol/Header/Length.antt =====
-- The length field: seven bits, sixteen or sixty-four.
use php_websocket.Base.{
  ℕ, suc, ◌+◌, ◌/◌, ◌%◌, ◌^◌, ◌<◌, ◌≤◌, ◌≡◌, refl, ap, ◌∙◌, Bool, true, false, not, ◌&&◌, some, [],
  ◌∷◌, ◌++◌, Bytes, bit_and, bit_or, length, get_or, ltb, leb, ◌==◌, arith, if◌then◌else◌,
  Bool-cases, inl, inr,
}
use native.Mathlib.Nat.{div-le_self}
use php_websocket.Base.Bits.{passes_below, passes_below_at, bit_or_fields}
use php_websocket.Protocol.Frame.{has_bit, length_bytes, big_endian}
use php_websocket.Protocol.Unpack.{length16, shift_all, length64, unpack_length}

-- `header_len` of `websocket_protocol_pack_payload`.
unfoldable pub header_len : ℕ → ℕ
header_len n = if ltb n 126 then 2 else if leb n 0xffff then 4 else 10

pub header_len_bounds : (n : ℕ) → (2 ≤ header_len n) × (header_len n ≤ 10)
unfolding header_len
header_len_bounds n = ground arith

-- The second byte of a frame, over the seven bits below the mask bit.
second_byte_table :
    passes_below
      (λ n.
        bit_and (bit_or 0x80 n) 0x7f == n
        && has_bit (bit_or 0x80 n) 0x80
        && bit_and (bit_or 0 n) 0x7f == n
        && not (has_bit (bit_or 0 n) 0x80))
      128
    ≡ true
unfolding passes_below
second_byte_table = refl

pub second_byte :
    (masked : Bool) (n : ℕ)
    → n < 128
    → (bit_and (bit_or (if masked then 0x80 else 0) n) 0x7f ≡ n)
      × (has_bit (bit_or (if masked then 0x80 else 0) n) 0x80 ≡ masked)
second_byte true n h = ground (arith, passes_below_at _ 128 n second_byte_table h)
second_byte false n h = ground (arith, passes_below_at _ 128 n second_byte_table h)

-- One round of the loop that reads a 64-bit length.
shift_all-cons :
    (d acc b : ℕ) (rest : Bytes)
    → d < 2 ^ 64
    → acc ≡ d / 256
    → b ≡ d % 256
    → shift_all acc (b ∷ rest) ≡ shift_all d rest
shift_all-cons d acc b rest h e f =
    ap (λ n. shift_all n rest) (omega (arith, bit_or_fields 8 (acc % 2 ^ 56) b (omega arith)))

pub length16_lem :
    (b0 b1 n : ℕ) (rest : Bytes)
    → n ≤ 0xffff
    → length16 (b0 ∷ b1 ∷ n / 256 % 256 ∷ n % 256 ∷ rest) ≡ n
unfolding length16
length16_lem b0 b1 n rest h = omega (arith, bit_or_fields 8 (n / 256 % 256) (n % 256) (omega arith))

pub length64_lem :
    (b0 b1 n : ℕ) (rest : Bytes) → n < 2 ^ 64 → length64 (b0 ∷ b1 ∷ (big_endian 8 n ++ rest)) ≡ n
unfolding length64
length64_lem b0 b1 n rest h =
    shift_all-cons (n / 256 ^ 7) 0 (n / 256 ^ 7 % 256) (big_endian 7 n) (omega arith) (omega arith)
      refl
    ∙ shift_round 6 (n / 256 ^ 7) (omega arith)
    ∙ shift_round 5 (n / 256 ^ 6) (omega arith)
    ∙ shift_round 4 (n / 256 ^ 5) (omega arith)
    ∙ shift_round 3 (n / 256 ^ 4) (omega arith)
    ∙ shift_round 2 (n / 256 ^ 3) (omega arith)
    ∙ shift_round 1 (n / 256 ^ 2) (omega arith)
    ∙ shift_all-cons n (n / 256 ^ 1) (n / 1 % 256) [] h (omega arith) (omega arith)
  where
    shift_round :
        (k acc : ℕ)
        → acc ≡ n / 256 ^ k / 256
        → shift_all acc (big_endian (suc k) n) ≡ shift_all (n / 256 ^ k) (big_endian k n)
    shift_round k acc e =
        shift_all-cons (n / 256 ^ k) acc (n / 256 ^ k % 256) (big_endian k n)
          (omega (arith, div-le_self n (256 ^ k))) e refl

module _ (masked : Bool) (n : ℕ) where
  abbrev mask_bit : ℕ
  mask_bit = if masked then 0x80 else 0

  length_bytes_short : ltb n 126 ≡ true → length_bytes masked n ≡ bit_or mask_bit n ∷ []
  unfolding length_bytes
  length_bytes_short h = let e : n % 256 ≡ n = ground arith in rw (h, e)

  length_bytes_medium :
      ltb n 126 ≡ false
      → leb n 0xffff ≡ true
      → length_bytes masked n ≡ bit_or mask_bit 126 ∷ n / 256 % 256 ∷ n % 256 ∷ []
  unfolding length_bytes
  length_bytes_medium h k = rw (h, k)

  length_bytes_long :
      ltb n 126 ≡ false
      → leb n 0xffff ≡ false
      → length_bytes masked n ≡ bit_or mask_bit 127 ∷ big_endian 8 n
  unfolding length_bytes
  length_bytes_long h k = rw (h, k)

  -- The length field of a packed frame gives the length and the place behind it.
  abbrev pub ReadsLength : Bytes → Type 0
  ReadsLength buf =
      (unpack_length buf (bit_and (get_or buf 1 0) 0x7f) ≡ some (n, header_len n))
      × (has_bit (get_or buf 1 0) 0x80 ≡ masked)
      × (header_len n ≤ length buf)

  reads_short :
      (b0 : ℕ) (rest : Bytes) → ltb n 126 ≡ true → ReadsLength (b0 ∷ bit_or mask_bit n ∷ rest)
  unfolding unpack_length header_len
  reads_short b0 rest h =
      let (e, f) = second_byte masked n (ground arith) in
      rw (e, f, h) (ground arith, refl, omega arith)

  reads_medium :
      (b0 : ℕ) (rest : Bytes)
      → ltb n 126 ≡ false
      → leb n 0xffff ≡ true
      → ReadsLength (b0 ∷ bit_or mask_bit 126 ∷ n / 256 % 256 ∷ n % 256 ∷ rest)
  unfolding unpack_length header_len
  reads_medium b0 rest h k =
      let (e, f) = second_byte masked 126 (omega arith) in
      let value = length16_lem b0 (bit_or mask_bit 126) n rest (ground arith) in
      rw (e, f, h, k) (ground (arith, value), refl, omega arith)

  reads_long :
      (b0 : ℕ) (rest : Bytes)
      → n < 2 ^ 64
      → ltb n 126 ≡ false
      → leb n 0xffff ≡ false
      → ReadsLength (b0 ∷ bit_or mask_bit 127 ∷ (big_endian 8 n ++ rest))
  unfolding unpack_length header_len
  reads_long b0 rest l h k =
      let (e, f) = second_byte masked 127 (omega arith) in
      let value = length64_lem b0 (bit_or mask_bit 127) n rest l in
      rw (e, f, h, k) (ground (arith, value), refl, omega arith)

  pub length_bytes-ReadsLength :
      (b0 : ℕ) (rest : Bytes) → n < 2 ^ 64 → ReadsLength (b0 ∷ (length_bytes masked n ++ rest))
  length_bytes-ReadsLength b0 rest l = elim (Bool-cases (ltb n 126)) [
    | inl h ↦ rw (length_bytes_short h) (reads_short b0 rest h)
    | inr h ↦ elim (Bool-cases (leb n 0xffff)) [
      | inl k ↦ rw (length_bytes_medium h k) (reads_medium b0 rest h k)
      | inr k ↦ rw (length_bytes_long h k) (reads_long b0 rest l h k)
    ]
  ]

  pub length-length_bytes : length (length_bytes masked n) + 1 ≡ header_len n
  unfolding length_bytes header_len
  length-length_bytes = ground arith
