-- ===== src/Protocol/RoundTrip/Close.antt =====
-- Close frames: code and reason survive `Protocol::pack` and `Protocol::unpack`.
use php_websocket.Base.{
  ℕ, ◌+◌, ◌/◌, ◌%◌, ◌<◌, ◌≤◌, ◌≡◌, inl, inr, refl, ◌∙◌, subst, Bool, true, false, Option, some, [],
  ◌++◌, Bytes, IsBytes, bit_and, length, drop, arith, ltb, ◌==◌,
}
use php_websocket.Base.Bits.{bit_or_fields}
use php_websocket.Base.Int.{ℤ, pos, negsuc}
use php_websocket.Protocol.Mask.{Endian}
use php_websocket.Protocol.Opcode.{
  opcode_close, flag_fin, flag_mask, opcode_is_valid, opcode_is_control, close_code_is_valid,
  close_reason_max_len,
}
use php_websocket.Protocol.Utf8.{is_valid_utf8}
use php_websocket.Protocol.Close.{code_bytes, close_payload}
use php_websocket.Protocol.Frame.{CloseFrame, close_frame, has_bit, first_byte, pack, pack_checked}
use php_websocket.Protocol.Unpack.{
  Decoded, close_code, unpack_flags, unpack_close, unpack_whole, unpack,
}
use php_websocket.Protocol.Result.{Result-cases, ok}
use php_websocket.Protocol.Header.FirstByte.{
  received_flags, opcode-first_byte, final-first_byte, unpack_flags-first_byte,
}
use php_websocket.Protocol.Header.Length.{header_len}
use php_websocket.Protocol.RoundTrip.Layout.{length-layout, unpack-layout}
use php_websocket.Protocol.RoundTrip.Data.{IsSendable}
use php_websocket.Protocol.RoundTrip.Packed.{
  IsMask, packed, sent_key, sent_payload, length-sent_payload, length-sent_key, unmask-sent_payload,
  pack_payload-packed, layout-append,
}
use php_websocket.Protocol.RoundTrip.Methods.{frame_flags, frame_flags_lem, pack_checked-IsSendable}

-- A close payload that is made has a valid code, which its first two bytes give back, and a short
-- reason in UTF-8 behind them.
pub close_payload_lem :
    (code : ℤ) (reason payload : Bytes)
    → close_payload code reason ≡ ok payload
    → (payload ≡ code_bytes code ++ reason)
      × (close_code_is_valid code ≡ true)
      × (length reason ≤ close_reason_max_len)
      × (is_valid_utf8 reason ≡ true)
unfolding close_payload
close_payload_lem code reason payload h = ground arith

pub close_code-code_bytes :
    (code : ℤ) (reason : Bytes)
    → close_code_is_valid code ≡ true
    → pos (close_code (code_bytes code ++ reason)) ≡ code
unfolding close_code_is_valid
close_code-code_bytes (pos n) reason h =
    ground (arith, bit_or_fields 8 (n / 256 % 256) (n % 256) (omega arith))
close_code-code_bytes (negsuc n) reason h = cc h

pub code_bytes-IsBytes :
    (code : ℤ) (reason : Bytes) → IsBytes reason → IsBytes (code_bytes code ++ reason)
code_bytes-IsBytes (pos n) reason p = (omega arith, (omega arith, p))
code_bytes-IsBytes (negsuc n) reason p = (omega arith, (omega arith, p))

pub length-code_bytes :
    (code : ℤ) (reason : Bytes) → length (code_bytes code ++ reason) ≡ length reason + 2
length-code_bytes (pos n) reason = omega arith
length-code_bytes (negsuc n) reason = omega arith

drop-code_bytes : (code : ℤ) (reason : Bytes) → drop 2 (code_bytes code ++ reason) ≡ reason
drop-code_bytes (pos n) reason = refl
drop-code_bytes (negsuc n) reason = refl

-- The close frame that a receiver is given.
abbrev pub received_close : ℤ → Bytes → ℕ → ℕ → CloseFrame
received_close code reason flags consumed = record {
  code = code;
  reason = reason;
  flags = pos flags;
  bytes_consumed = consumed;
}

unpack_close_lem :
    (code : ℤ) (reason : Bytes) (flags consumed : ℕ)
    → close_code_is_valid code ≡ true
    → is_valid_utf8 reason ≡ true
    → unpack_close (code_bytes code ++ reason) flags consumed
      ≡ ok (Decoded.close_frame (received_close code reason flags consumed))
unfolding unpack_close
unpack_close_lem code reason flags consumed valid text =
    let long : ltb 1 (length (code_bytes code ++ reason)) ≡ true =
      ground (arith, length-code_bytes code reason) in
    rw (long, drop-code_bytes code reason, text, close_code-code_bytes code reason valid)

unpack_whole-close :
    (e : Endian) (b0 at : ℕ) (masked : Bool) (key raw payload : Bytes)
    → bit_and b0 0x0f ≡ opcode_close
    → has_bit b0 0x80 ≡ true
    → sent_payload e masked key raw ≡ payload
    → length raw ≡ length payload
    → ltb 125 (length payload) ≡ false
    → (length payload == 1) ≡ false
    → unpack_whole e b0 masked key at raw
      ≡ unpack_close payload (unpack_flags b0 masked) (at + length payload)
unfolding unpack_whole opcode_is_valid opcode_is_control
unpack_whole-close e b0 at masked key raw payload is_close final unmasked same short more =
    rw (is_close, final, unmasked, same, short, more)

-- A close frame that is packed has a payload, which is packed with the close opcode.
pack-close_frame :
    (e : Endian) (random : Option Bytes) (c : CloseFrame) (opcode flags : ℤ) (bs : Bytes)
    → pack e random (close_frame c) opcode flags ≡ ok bs
    → (payload : Bytes) × (close_payload c.code c.reason ≡ ok payload)
      × (pack_checked e random payload (pos opcode_close) c.flags ≡ ok bs)
unfolding pack
pack-close_frame e random c opcode flags bs h =
    elim (Result-cases (close_payload c.code c.reason)) [
      | inl (payload, made) ↦ (payload, made, rw made at h)
      | inr (x, failed) ↦ cc (rw failed at h)
    ]

final-close_frame :
    (flags : ℕ) (payload : Bytes)
    → IsSendable opcode_close flags payload
    → has_bit flags flag_fin ≡ true
unfolding opcode_is_control
final-close_frame flags payload s = ground (arith, s.final)

module _ (e : Endian) (key rest : Bytes) (c : CloseFrame) (k : IsMask key)
    (p : IsBytes c.reason) where
  unpack-packed_close :
      (flags : ℕ) (payload : Bytes)
      → flags < 64
      → has_bit flags flag_fin ≡ true
      → close_payload c.code c.reason ≡ ok payload
      → (q : IsBytes payload)
      → unpack e (packed e key payload opcode_close flags ++ rest)
        ≡ ok (
            some (
              Decoded.close_frame (
                received_close c.code c.reason
                  (received_flags flags)
                  (length (packed e key payload opcode_close flags)))))
  unpack-packed_close flags payload hf final made q =
      let masked : Bool = has_bit flags flag_mask in
      let key' : Bytes = sent_key masked key in
      let raw : Bytes = sent_payload e masked key payload in
      let b0 : ℕ = first_byte opcode_close flags in
      let ho : opcode_close < 16 = omega arith in
      let (shape, valid, short, text) = close_payload_lem c.code c.reason payload made in
      let len : length payload ≡ length c.reason + 2 =
        rw shape (length-code_bytes c.code c.reason) in
      let lr = length-sent_payload e key payload k q masked in
      let lk = length-sent_key e key payload k q masked in
      let whole =
        unpack_whole-close e b0 (header_len (length raw) + length key') masked key' raw payload
          (opcode-first_byte opcode_close flags ho hf)
          (final-first_byte opcode_close flags ho hf ∙ final)
          (unmask-sent_payload e key payload k q masked) lr (ground arith) (ground arith) in
      let consumed : header_len (length raw) + length key' + length payload
          ≡ length (packed e key payload opcode_close flags) =
        omega (arith, length-layout b0 masked key' raw [] lk) in
      let sent_flags = unpack_flags-first_byte opcode_close flags ho hf in
      let decoded = unpack-layout b0 masked key' raw rest lk (omega arith) e in
      let value =
        unpack_close_lem c.code c.reason (received_flags flags)
          (length (packed e key payload opcode_close flags)) valid text in
      let closed : unpack_close payload (unpack_flags b0 masked)
            (header_len (length raw) + length key' + length payload)
          ≡ ok (
              Decoded.close_frame (
                received_close c.code c.reason (received_flags flags)
                  (length (packed e key payload opcode_close flags)))) =
        cc (shape, sent_flags, consumed, value) in
      rw (layout-append, decoded, whole, closed)

  -- If `Protocol::pack` accepts a close frame, then `Protocol::unpack` gives, from the result and
  -- whatever follows it, a close frame with the same code, reason and flags (COMPRESS read as
  -- RSV1), and the number of bytes that were packed.
  pub unpack-pack_close :
      (opcode flags : ℤ) (bs : Bytes)
      → pack e (some key) (close_frame c) opcode flags ≡ ok bs
      → unpack e (bs ++ rest)
        ≡ ok (
            some (
              Decoded.close_frame (
                received_close c.code c.reason (received_flags (frame_flags c.flags)) (length bs))))
  unpack-pack_close opcode flags bs h =
      let (payload, made, checked) = pack-close_frame e (some key) c opcode flags bs h in
      let (s, sent) = pack_checked-IsSendable e key payload opcode_close c.flags bs checked in
      let (shape, valid, short, text) = close_payload_lem c.code c.reason payload made in
      let q : IsBytes payload = rw shape (code_bytes-IsBytes c.code c.reason p) in
      let fl : ℕ = frame_flags c.flags in
      let same : packed e key payload opcode_close fl ≡ bs =
        cc (sent, pack_payload-packed e key payload k q opcode_close fl) in
      subst
        (λ b.
          unpack e (b ++ rest)
          ≡ ok (
              some (
                Decoded.close_frame
                  (received_close c.code c.reason (received_flags fl) (length b)))))
        same
        (unpack-packed_close fl payload (frame_flags_lem c.flags).0 (final-close_frame fl payload s)
          made q)
