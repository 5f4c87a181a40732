-- ===== src/Server/Frames/Packed.antt =====
-- What `websocket_protocol_pack_payload` writes for a client, the server's parser reads back.
use php_websocket.Base.{
  ℕ, ◌+◌, ◌^◌, ◌<◌, ◌≡◌, refl, ap, ◌∙◌, true, false, some, [], ◌++◌, Bytes, IsBytes, bit_and,
  length, ◌==◌, arith,
}
use php_websocket.Protocol.Opcode.{flag_fin, flag_mask}
use php_websocket.Protocol.Mask.{mask_bytes, Endian, mask_payload_copy}
use php_websocket.Protocol.Mask.Laws.{mask_bytes-mask_bytes, mask_payload_copy-mask_bytes}
use php_websocket.Protocol.Frame.{has_bit, first_byte, pack_payload}
use php_websocket.Protocol.Header.Length.{header_len}
use php_websocket.Protocol.Header.FirstByte.{
  opcode-first_byte, final-first_byte, reserved-first_byte,
}
use php_websocket.Protocol.RoundTrip.Layout.{layout, length-layout}
use php_websocket.Protocol.RoundTrip.Packed.{
  IsMask, length-mask_payload_copy, pack_payload-packed, layout-append,
}
use php_websocket.Protocol.RoundTrip.Data.{opcode-lt}
use php_websocket.Server.Frames.{frame_ok, parse_frame}
use php_websocket.Server.Frames.RoundTrip.{IsAcceptable, parse_frame-layout}

-- A masked frame without RSV bits that `websocket_protocol_pack_payload` packs, and that meets
-- the server's rules on its opcode, length and close payload, the parser reads as a whole:
-- opcode, FIN, payload and the number of bytes packed, whatever follows in the buffer.
pub parse_frame-pack_payload :
    (e : Endian) (key payload rest : Bytes) (max_message_size opcode flags : ℕ)
    → IsMask key
    → IsBytes payload
    → length payload + 14 < 2 ^ 63
    → flags < 64
    → has_bit flags flag_mask ≡ true
    → (bit_and flags 30 == 0) ≡ true
    → IsAcceptable max_message_size opcode (has_bit flags flag_fin) payload
    → (bs : Bytes) × (pack_payload e (some key) payload opcode flags ≡ some bs)
      × (parse_frame max_message_size (bs ++ rest)
          ≡ frame_ok (record {
            opcode = opcode;
            final = has_bit flags flag_fin;
            payload = payload;
            bytes_consumed = length bs;
          }))
parse_frame-pack_payload e key payload rest max opcode flags k p fits hf masked plain a =
    let b0 : ℕ = first_byte opcode flags in
    let raw : Bytes = mask_payload_copy e key payload in
    let ho = opcode-lt opcode a.known in
    let l = length-mask_payload_copy e key payload k p in
    let u : mask_bytes key 0 raw ≡ payload =
      ap (mask_bytes key 0) (mask_payload_copy-mask_bytes e key payload k.four k.bytes p)
      ∙ mask_bytes-mask_bytes key payload 0 k.bytes p in
    let packs : pack_payload e (some key) payload opcode flags ≡ some (layout b0 true key raw []) =
      pack_payload-packed e key payload k p opcode flags ∙ rw masked refl in
    let consumed : header_len (length raw) + 4 + length raw ≡ length (layout b0 true key raw []) =
      omega (arith, length-layout b0 true key raw [] k.four, k.four) in
    let plain' : has_bit b0 0x70 ≡ false = ground (arith, reserved-first_byte opcode flags ho hf) in
    let parsed =
      parse_frame-layout max opcode b0 (has_bit flags flag_fin) key raw payload rest k.four u l fits
        a (opcode-first_byte opcode flags ho hf) (final-first_byte opcode flags ho hf) plain' in
    (layout b0 true key raw [], packs, rw (layout-append, ← consumed) parsed)
