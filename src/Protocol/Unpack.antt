-- ===== src/Protocol/Unpack.antt =====
-- `websocket_protocol_unpack`, which `Protocol::decode` and `Protocol::unpack` both are.
use php_websocket.Base.{
  ℕ, ◌+◌, ◌-◌, ◌*◌, ◌%◌, ◌^◌, Bool, not, ◌&&◌, ◌||◌, Option, none, some, [], ◌∷◌, Bytes, bit_and,
  bit_or, length, get_or, take, drop, ltb, ◌==◌, if◌then◌else◌,
}
use php_websocket.Base.Int.{pos}
use php_websocket.Protocol.Opcode.{
  opcode_text, opcode_close, flag_fin, flag_rsv1, flag_rsv2, flag_rsv3, flag_mask, close_normal,
  message_type_from_opcode, opcode_is_valid, opcode_is_control,
}
use php_websocket.Protocol.Utf8.{is_valid_utf8}
use php_websocket.Protocol.Mask.{Endian, mask_payload_copy}
use php_websocket.Protocol.Frame.{Frame, CloseFrame, has_bit, set_bit_if}
use php_websocket.Protocol.Result.{
  Result, ok, err, ◌>>=◌, ◌>>◌, throw_if, unsupported_opcode, invalid_control_frame,
  invalid_close_frame, close_reason_not_utf8, text_frame_not_utf8,
}

-- `SIZE_MAX` on a 64-bit machine.
abbrev pub size_max : ℕ
size_max = 18446744073709551615

-- `((uint64_t) in[2] << 8) | in[3]`
unfoldable pub length16 : Bytes → ℕ
length16 buf = bit_or (get_or buf 2 0 * 2 ^ 8) (get_or buf 3 0)

-- `payload_len = (payload_len << 8) | in[2 + i]`, eight times, on 64 bits.
abbrev pub shift_all : ℕ → Bytes → ℕ
shift_all n [] = n
shift_all n (b ∷ rest) = shift_all (bit_or (n % 2 ^ 56 * 2 ^ 8) b) rest

unfoldable pub length64 : Bytes → ℕ
length64 buf = shift_all 0 (take 8 (drop 2 buf))

-- The payload length and the position behind it, from the seven bits `n`; `none` where the
-- length field is not complete.
unfoldable pub unpack_length : Bytes → ℕ → Option (ℕ × ℕ)
unpack_length buf n =
    if n == 126
    then (if ltb (length buf) 4 then none else some (length16 buf, 4))
    else if n == 127
    then (if ltb (length buf) 10 then none else some (length64 buf, 10))
    else some (n, 2)

-- The mask, if there is one, and the position behind it.
unfoldable pub unpack_mask : Bytes → Bool → ℕ → Option (Bytes × ℕ)
unpack_mask buf masked at =
    if masked
    then (if ltb (length buf) (at + 4) then none else some (take 4 (drop at buf), at + 4))
    else some ([], at)

-- `flags` as it is put together from the first two bytes.
unfoldable pub unpack_flags : ℕ → Bool → ℕ
unpack_flags b0 masked =
    let f0 = set_bit_if (has_bit b0 0x80) flag_fin 0 in
    let f1 = set_bit_if (has_bit b0 0x40) flag_rsv1 f0 in
    let f2 = set_bit_if (has_bit b0 0x20) flag_rsv2 f1 in
    let f3 = set_bit_if (has_bit b0 0x10) flag_rsv3 f2 in set_bit_if masked flag_mask f3

-- `payload_len > SIZE_MAX || payload_len > SIZE_MAX - pos || len < pos + payload_len`
abbrev pub is_cut_off : Bytes → ℕ → ℕ → Bool
is_cut_off buf n at = ltb size_max n || ltb (size_max - at) n || ltb (length buf) (at + n)

pub data Decoded : Type 0 where
  frame : Frame → Decoded
  close_frame : CloseFrame → Decoded

-- `code`, if the payload has one: its first two bytes.
abbrev pub close_code : Bytes → ℕ
close_code payload = bit_or (get_or payload 0 0 * 2 ^ 8) (get_or payload 1 0)

-- The end of the function for a close frame, with `payload` unmasked.
unfoldable pub unpack_close : Bytes → ℕ → ℕ → Result Decoded
unpack_close payload flags consumed =
    if ltb 1 (length payload)
    then (do
      throw_if (not (is_valid_utf8 (drop 2 payload))) close_reason_not_utf8
      ok (
          close_frame (record {
            code = pos (close_code payload);
            reason = drop 2 payload;
            flags = pos flags;
            bytes_consumed = consumed;
          })))
    else ok (
        close_frame (record {
          code = pos close_normal;
          reason = [];
          flags = pos flags;
          bytes_consumed = consumed;
        }))

-- The end of the function for any other frame.
unfoldable pub unpack_data : ℕ → Bool → Bytes → ℕ → ℕ → Result Decoded
unpack_data opcode final payload flags consumed = elim (message_type_from_opcode opcode) [
  | none ↦ err (unsupported_opcode opcode)
  | some type ↦ do
    throw_if (opcode == opcode_text && final && not (is_valid_utf8 payload)) text_frame_not_utf8
    ok (
        frame (record {
          type = type;
          payload = payload;
          final = final;
          bytes_consumed = consumed;
          opcode = pos opcode;
          flags = pos flags;
        }))
]

-- The checks on a frame that is there as a whole, and its value. `raw` is the payload as received.
unfoldable pub unpack_whole : Endian → ℕ → Bool → Bytes → ℕ → Bytes → Result Decoded
unpack_whole e b0 masked mask at raw =
    let opcode = bit_and b0 0x0f in
    let final = has_bit b0 0x80 in
    let n = length raw in
    let payload = (if masked then mask_payload_copy e mask raw else raw) in
    let flags = unpack_flags b0 masked in
    do
      throw_if (not (opcode_is_valid (pos opcode))) (unsupported_opcode opcode)
      throw_if (opcode_is_control (pos opcode) && (not final || ltb 125 n)) invalid_control_frame
      throw_if (opcode == opcode_close && n == 1) invalid_close_frame
      (if opcode == opcode_close
          then unpack_close payload flags (at + n)
          else unpack_data opcode final payload flags (at + n))

-- `null` is `ok none`: the buffer does not hold a whole frame yet.
unfoldable pub unpack : Endian → Bytes → Result (Option Decoded)
unpack e buf =
    let b0 = get_or buf 0 0 in
    let b1 = get_or buf 1 0 in
    let masked = has_bit b1 0x80 in
    if ltb (length buf) 2 then ok none else elim (unpack_length buf (bit_and b1 0x7f)) [
      | none ↦ ok none
      | some (n, behind) ↦ elim (unpack_mask buf masked behind) [
        | none ↦ ok none
        | some (mask, at) ↦ if is_cut_off buf n at then ok none else do
          decoded ← unpack_whole e b0 masked mask at (take n (drop at buf))
          ok (some decoded)
      ]
    ]
