-- ===== src/Protocol/RoundTrip/Data.antt =====
-- Whatever `Protocol::pack` accepts for an opcode other than close, `Protocol::unpack` reads back.
use php_websocket.Base.{
  ℕ, ◌+◌, ◌^◌, ◌<◌, ◌≡◌, ◌≢◌, Bool, true, false, not, ◌&&◌, ◌||◌, some, [], ◌++◌, Bytes, IsBytes,
  bit_and, length, arith, ltb, ◌==◌, Option-cases, inl, inr,
}
use php_websocket.Base.Int.{pos}
use php_websocket.Protocol.Mask.{Endian}
use php_websocket.Protocol.Opcode.{
  MessageType, opcode_close, opcode_text, flag_fin, flag_mask, opcode_is_valid, opcode_is_control,
  message_type_opcode, message_type_from_opcode,
}
use php_websocket.Protocol.Utf8.{is_valid_utf8}
use php_websocket.Protocol.Frame.{Frame, has_bit, first_byte, pack_payload}
use php_websocket.Protocol.Unpack.{frame, unpack_flags, unpack_whole, unpack_data, unpack}
use php_websocket.Protocol.Result.{ok}
use php_websocket.Protocol.Header.FirstByte.{
  received_flags, opcode-first_byte, final-first_byte, unpack_flags-first_byte,
}
use php_websocket.Protocol.Header.Length.{header_len}
use php_websocket.Protocol.RoundTrip.Layout.{length-layout, unpack-layout}
use php_websocket.Protocol.RoundTrip.Packed.{
  IsMask, packed, sent_key, sent_payload, length-sent_payload, length-sent_key, unmask-sent_payload,
  pack_payload-packed, layout-append,
}

-- The checks that `Protocol::pack` makes before it packs.
pub record IsSendable (opcode flags : ℕ) (payload : Bytes) : Type 0 where
  pub known : opcode_is_valid (pos opcode) ≡ true
  pub final : opcode_is_control (pos opcode) && not (has_bit flags flag_fin) ≡ false
  pub short : opcode_is_control (pos opcode) && ltb 125 (length payload) ≡ false
  pub text :
      (opcode == opcode_text && has_bit flags flag_fin && not (is_valid_utf8 payload)) ≡ false

pub opcode-lt : (opcode : ℕ) → opcode_is_valid (pos opcode) ≡ true → opcode < 16
unfolding opcode_is_valid
opcode-lt opcode h = ground arith

pub type_of_opcode :
    (opcode : ℕ)
    → opcode_is_valid (pos opcode) ≡ true
    → (t : MessageType) × (message_type_from_opcode opcode ≡ some t)
      × (message_type_opcode t ≡ opcode)
unfolding opcode_is_valid message_type_from_opcode message_type_opcode
type_of_opcode opcode h = elim (Option-cases (message_type_from_opcode opcode)) [
  | inl e ↦ absurd (ground arith)
  | inr (t, e) ↦ (t, e, ground arith)
]

-- The frame that a receiver is given.
abbrev pub received : MessageType → ℕ → Bytes → ℕ → ℕ → Frame
received t opcode payload flags consumed = record {
  type = t;
  payload = payload;
  final = has_bit flags flag_fin;
  bytes_consumed = consumed;
  opcode = pos opcode;
  flags = pos (received_flags flags);
}

unpack_data-typed :
    (opcode : ℕ) (final : Bool) (payload : Bytes) (flags consumed : ℕ) (t : MessageType)
    → message_type_from_opcode opcode ≡ some t
    → (opcode == opcode_text && final && not (is_valid_utf8 payload)) ≡ false
    → unpack_data opcode final payload flags consumed
      ≡ ok (
          frame (record {
            type = t;
            payload = payload;
            final = final;
            bytes_consumed = consumed;
            opcode = pos opcode;
            flags = pos flags;
          }))
unfolding unpack_data
unpack_data-typed opcode final payload flags consumed t e h = rw (e, unpack_data) (rw h)

module _ (e : Endian) (b0 opcode at : ℕ) (masked final : Bool) (key raw payload : Bytes)
    (is_opcode : bit_and b0 0x0f ≡ opcode) (is_final : has_bit b0 0x80 ≡ final)
    (unmasked : sent_payload e masked key raw ≡ payload) (same_length : length raw ≡ length payload)
    (known : opcode_is_valid (pos opcode) ≡ true) where
  unpack_whole-data :
      (t : MessageType)
      → opcode ≢ opcode_close
      → message_type_from_opcode opcode ≡ some t
      → opcode_is_control (pos opcode) && (not final || ltb 125 (length payload)) ≡ false
      → (opcode == opcode_text && final && not (is_valid_utf8 payload)) ≡ false
      → unpack_whole e b0 masked key at raw
        ≡ ok (
            frame (record {
              type = t;
              payload = payload;
              final = final;
              bytes_consumed = at + length payload;
              opcode = pos opcode;
              flags = pos (unpack_flags b0 masked);
            }))
  unfolding unpack_whole
  unpack_whole-data t ne is_type control text =
      let not_close : (opcode == opcode_close) ≡ false = ground arith in
      rw (
        is_opcode,
        is_final,
        unmasked,
        same_length,
        known,
        control,
        not_close,
        unpack_data-typed opcode final payload (unpack_flags b0 masked) (at + length payload) t
            is_type text,
      )

-- What `pack_payload` writes for a data, ping or pong frame that passes the checks, the decoder
-- reads back: type, opcode, payload, FIN, the flags with COMPRESS turned into RSV1, and the
-- number of bytes written. It does so whatever follows in the buffer.
pub unpack-packed :
    (e : Endian) (key payload rest : Bytes) (opcode flags : ℕ)
    → IsMask key
    → IsBytes payload
    → length payload + 14 < 2 ^ 64
    → flags < 64
    → opcode ≢ opcode_close
    → IsSendable opcode flags payload
    → (t : MessageType) × (bs : Bytes) × (pack_payload e (some key) payload opcode flags ≡ some bs)
      × (message_type_opcode t ≡ opcode)
      × (unpack e (bs ++ rest) ≡ ok (some (frame (received t opcode payload flags (length bs)))))
unpack-packed e key payload rest opcode flags k p fits hf ne s =
    let masked : Bool = has_bit flags flag_mask in
    let key' : Bytes = sent_key masked key in
    let raw : Bytes = sent_payload e masked key payload in
    let b0 : ℕ = first_byte opcode flags in
    let ho = opcode-lt opcode s.known in
    let (t, is_type, names) = type_of_opcode opcode s.known in
    let lr = length-sent_payload e key payload k p masked in
    let lk = length-sent_key e key payload k p masked in
    let whole =
      unpack_whole-data e b0 opcode (header_len (length raw) + length key') masked
        (has_bit flags flag_fin) key' raw payload (opcode-first_byte opcode flags ho hf)
        (final-first_byte opcode flags ho hf) (unmask-sent_payload e key payload k p masked) lr
        s.known t ne is_type (ground arith) s.text in
    let consumed : header_len (length raw) + length key' + length payload
        ≡ length (packed e key payload opcode flags) =
      omega (arith, length-layout b0 masked key' raw [] lk) in
    let sent_flags = unpack_flags-first_byte opcode flags ho hf in
    let decoded = unpack-layout b0 masked key' raw rest lk (omega arith) e in
    (
      t,
      packed e key payload opcode flags,
      pack_payload-packed e key payload k p opcode flags,
      names,
      rw (layout-append, decoded, whole) (cc (consumed, sent_flags)),
    )
