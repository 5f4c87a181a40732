-- ===== src/Server/Frames/RoundTrip.antt =====
-- What a client packs, the server's parser reads back.
use php_websocket.Base.{
  ℕ, ◌+◌, ◌-◌, ◌/◌, ◌%◌, ◌^◌, ◌<◌, ◌≡◌, refl, ap, ap₂, ◌∙◌, sym, Bool, true, false, not, ◌&&◌, ◌||◌,
  some, [], ◌∷◌, ◌++◌, Bytes, bit_and, length, get_or, take, drop, ltb, leb, ◌==◌,
  take-length_append, Bool-cases, inl, inr, arith,
}
use php_websocket.Base.Int.{pos}
use php_websocket.Base.Bits.{passes_below, passes_below_at}
use php_websocket.Protocol.Opcode.{
  opcode_close, opcode_is_valid, opcode_is_control, close_code_is_valid,
}
use php_websocket.Protocol.Utf8.{is_valid_utf8}
use php_websocket.Protocol.Mask.{mask_bytes}
use php_websocket.Protocol.Frame.{has_bit, length_bytes}
use php_websocket.Protocol.Unpack.{size_max, close_code, unpack_length}
use php_websocket.Protocol.Header.Length.{header_len, header_len_bounds, length_bytes-ReadsLength}
use php_websocket.Protocol.RoundTrip.Layout.{layout, length-layout, drop-behind, drop-at}
use php_websocket.Server.Frames.{
  frame_ok, field, parse_length, parse_body, masked_close_code, parse_payload, parse_frame,
}

top_bit_table : passes_below (λ b. not (has_bit b 0x80)) 128 ≡ true
unfolding passes_below
top_bit_table = refl

-- The first byte of a 64-bit length below 2 ^ 63.
top_bit :
    (masked : Bool) (n b0 : ℕ) (rest : Bytes)
    → n < 2 ^ 63
    → leb n 0xffff ≡ false
    → has_bit (get_or (b0 ∷ (length_bytes masked n ++ rest)) 2 0) 0x80 ≡ false
unfolding length_bytes
top_bit masked n b0 rest h k =
    let short : ltb n 126 ≡ false = ground arith in
    let seven : n / 256 ^ 7 % 256 < 128 = omega arith in
    let e = passes_below_at _ 128 (n / 256 ^ 7 % 256) top_bit_table seven in
    rw (short, k) (ground (arith, e))

-- The length fields that the decoder reads and that are as short as they can be, the parser reads.
parse_length-minimal :
    (buf : Bytes) (m n : ℕ)
    → unpack_length buf m ≡ some (n, header_len n)
    → (leb n 0xffff ≡ false → has_bit (get_or buf 2 0) 0x80 ≡ false)
    → parse_length buf m ≡ field n (header_len n)
unfolding parse_length unpack_length header_len
parse_length-minimal buf m n e h = elim (Bool-cases (ltb n 126)) [
  | inl s ↦ ground (arith, e, h)
  | inr s ↦ elim (Bool-cases (leb n 0xffff)) [
    | inl k ↦ ground (arith, e, h)
    | inr k ↦ ground (arith, e, h k)
  ]
]

-- What the parser asks of a frame that a client packs, besides a known opcode and no RSV bit.
pub record IsAcceptable (max_message_size opcode : ℕ) (final : Bool) (payload : Bytes)
    : Type 0 where
  pub known : opcode_is_valid (pos opcode) ≡ true
  pub control : (opcode_is_control (pos opcode) && (not final || ltb 125 (length payload))) ≡ false
  pub short :
      (not (opcode_is_control (pos opcode)) && ltb max_message_size (length payload)) ≡ false
  pub coded : (opcode == opcode_close && length payload == 1) ≡ false
  pub code :
      (opcode == opcode_close
        && leb 2 (length payload)
        && not (close_code_is_valid (pos (close_code payload))))
      ≡ false
  pub reason :
      (opcode == opcode_close && leb 2 (length payload) && not (is_valid_utf8 (drop 2 payload)))
      ≡ false

masked_close_code-lem :
    (key raw : Bytes)
    → leb 2 (length raw) ≡ true
    → masked_close_code key raw ≡ close_code (mask_bytes key 0 raw)
unfolding mask_bytes
masked_close_code-lem key [] h = absurd (ground arith)
masked_close_code-lem key (a ∷ []) h = absurd (ground arith)
masked_close_code-lem key (a ∷ b ∷ rest) h = refl

parse_payload-unmasked :
    (max opcode : ℕ) (final : Bool) (key raw payload : Bytes) (consumed : ℕ)
    → mask_bytes key 0 raw ≡ payload
    → length raw ≡ length payload
    → IsAcceptable max opcode final payload
    → parse_payload opcode final key raw consumed
      ≡ frame_ok
          (record { opcode = opcode; final = final; payload = payload; bytes_consumed = consumed })
unfolding parse_payload
parse_payload-unmasked max opcode final key raw payload consumed u l a =
    let two = leb 2 (length raw) in
    let code : ((opcode == opcode_close && two)
          && not (close_code_is_valid (pos (masked_close_code key raw))))
        ≡ false =
      elim (Bool-cases two) [
        | inr n ↦ ground (arith, n)
        | inl y ↦ rw (masked_close_code-lem key raw y, u, l) (ground (arith, a.code))
      ] in
    let reason : ((opcode == opcode_close && two) && not (is_valid_utf8 (drop 2 payload))) ≡ false =
      rw l (ground (arith, a.reason)) in
    let coded : (opcode == opcode_close && length raw == 1) ≡ false = rw l a.coded in
    rw (coded, code, u, reason) refl

module _ (max opcode b0 : ℕ) (final : Bool) (key raw payload rest : Bytes) (lk : length key ≡ 4)
    (u : mask_bytes key 0 raw ≡ payload) (l : length raw ≡ length payload)
    (fits : length payload + 14 < 2 ^ 63) (a : IsAcceptable max opcode final payload) where
  abbrev buf : Bytes
  buf = layout b0 true key raw rest

  abbrev behind : ℕ
  behind = header_len (length raw)

  key-layout : take 4 (drop behind buf) ≡ key
  key-layout =
      ap₂ take (sym lk) (drop-behind b0 true key raw rest lk) ∙ take-length_append key (raw ++ rest)

  raw-layout : take (length raw) (drop (behind + 4) buf) ≡ raw
  raw-layout =
      let at : behind + 4 ≡ behind + length key = omega arith in
      ap (λ n. take (length raw) (drop n buf)) at
      ∙ ap (take (length raw)) (drop-at b0 true key raw rest lk)
      ∙ take-length_append raw rest

  parse_body-layout :
      parse_body max buf opcode final (length raw) behind
      ≡ frame_ok (record {
        opcode = opcode;
        final = final;
        payload = payload;
        bytes_consumed = behind + 4 + length raw;
      })
  unfolding parse_body
  parse_body-layout =
      let total = length-layout b0 true key raw rest lk in
      let small = header_len_bounds (length raw) in
      let control : (opcode_is_control (pos opcode) && (not final || ltb 125 (length raw)))
          ≡ false =
        rw l a.control in
      let short : (not (opcode_is_control (pos opcode)) && ltb max (length raw)) ≡ false =
        rw l a.short in
      let s : (ltb size_max (length raw)
            || ltb (size_max - behind) (length raw)
            || ltb (length buf) (behind + 4))
          ≡ false =
        ground (arith, total, small, l, lk, fits) in
      let t : (ltb (size_max - (behind + 4)) (length raw)
            || ltb (length buf) (behind + 4 + length raw))
          ≡ false =
        ground (arith, total, small, l, lk, fits) in
      rw (control, short, s, t, key-layout, raw-layout)
        (parse_payload-unmasked max opcode final key raw payload (behind + 4 + length raw) u l a)

  pub parse_frame-layout :
      bit_and b0 0x0f ≡ opcode
      → has_bit b0 0x80 ≡ final
      → has_bit b0 0x70 ≡ false
      → parse_frame max buf
        ≡ frame_ok (record {
          opcode = opcode;
          final = final;
          payload = payload;
          bytes_consumed = behind + 4 + length raw;
        })
  unfolding parse_frame
  parse_frame-layout o f r =
      let (reads, mask_bit, there) =
        length_bytes-ReadsLength true (length raw) b0 (key ++ (raw ++ rest)) (omega arith) in
      let long : ltb (length buf) 2 ≡ false =
        ground (arith, there, header_len_bounds (length raw)) in
      let field_ok =
        parse_length-minimal buf _ (length raw) reads
          (λ k. top_bit true (length raw) b0 (key ++ (raw ++ rest)) (omega arith) k) in
      rw (long, r, mask_bit, o, a.known, f, field_ok) parse_body-layout
