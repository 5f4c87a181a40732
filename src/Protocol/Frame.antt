-- ===== src/Protocol/Frame.antt =====
-- Frames, and the encoding of one: `websocket_protocol_pack_payload`, `Protocol::encode` and
-- `Protocol::pack`.
use php_websocket.Base.{
  ℕ, zero, suc, ◌/◌, ◌%◌, ◌^◌, Bool, true, false, not, ◌&&◌, Option, none, some, [], ◌∷◌, ◌++◌,
  Bytes, bit_and, bit_or, length, ltb, leb, ◌==◌, if◌then◌else◌,
}
use php_websocket.Base.Int.{ℤ, pos, negsuc, low_byte}
use php_websocket.Protocol.Opcode.{
  opcode_text, opcode_close, flag_fin, flag_compress, flag_rsv1, flag_rsv2, flag_rsv3, flag_mask,
  flags_all, MessageType, message_type_opcode, opcode_is_valid, opcode_is_control,
}
use php_websocket.Protocol.Utf8.{is_valid_utf8}
use php_websocket.Protocol.Mask.{Endian, mask_payload_copy}
use php_websocket.Protocol.Close.{check_close, close_payload}
use php_websocket.Protocol.Result.{
  Result, ok, err, ◌>>=◌, ◌>>◌, throw_if, text_not_utf8, wrong_data_type, invalid_opcode,
  control_without_fin, control_too_long, random_failed,
}

-- The properties of a `WebSocket\Frame` and of a `WebSocket\CloseFrame`.
pub record Frame : Type 0 where
  pub type : MessageType
  pub payload : Bytes
  pub final : Bool
  pub bytes_consumed : ℕ
  pub opcode : ℤ
  pub flags : ℤ

pub record CloseFrame : Type 0 where
  pub code : ℤ
  pub reason : Bytes
  pub flags : ℤ
  pub bytes_consumed : ℕ

-- `Frame::__construct`
unfoldable pub new_frame : MessageType → Bytes → Bool → Frame
new_frame type payload final = record {
  type = type;
  payload = payload;
  final = final;
  bytes_consumed = 0;
  opcode = pos (message_type_opcode type);
  flags = pos (if final then flag_fin else 0);
}

-- `CloseFrame::__construct`
unfoldable pub new_close_frame : ℤ → Bytes → Result CloseFrame
new_close_frame code reason = do
  check_close code reason
  ok (record { code = code; reason = reason; flags = pos flag_fin; bytes_consumed = 0 })

-- `(x & flag) != 0`
abbrev pub has_bit : ℕ → ℕ → Bool
has_bit x flag = not (bit_and x flag == 0)

abbrev pub set_bit_if : Bool → ℕ → ℕ → ℕ
set_bit_if test flag x = if test then bit_or x flag else x

-- `out[0]`
unfoldable pub first_byte : ℕ → ℕ → ℕ
first_byte opcode flags =
    let b0 = bit_and opcode 0x0f in
    let b1 = set_bit_if (has_bit flags flag_fin) 0x80 b0 in
    let b2 = set_bit_if (has_bit flags (bit_or flag_compress flag_rsv1)) 0x40 b1 in
    let b3 = set_bit_if (has_bit flags flag_rsv2) 0x20 b2 in
    set_bit_if (has_bit flags flag_rsv3) 0x10 b3

-- `for (i = 0; i < 8; i++) out[pos++] = (payload_len >> (56 - i * 8)) & 0xff`, from the round on
-- after which `k` rounds are left.
abbrev pub big_endian : ℕ → ℕ → Bytes
big_endian zero n = []
big_endian (suc k) n = n / 256 ^ k % 256 ∷ big_endian k n

-- The length field, from `out[1]` on.
unfoldable pub length_bytes : Bool → ℕ → Bytes
length_bytes masked n =
    let mask_bit = (if masked then 0x80 else 0) in
    if ltb n 126
    then bit_or mask_bit (n % 256) ∷ []
    else if leb n 0xffff
    then bit_or mask_bit 126 ∷ n / 256 % 256 ∷ n % 256 ∷ []
    else bit_or mask_bit 127 ∷ big_endian 8 n

-- `websocket_protocol_pack_payload`. `random` is what `websocket_protocol_random_bytes` gives:
-- the four bytes of a mask, or a failure.
unfoldable pub pack_payload : Endian → Option Bytes → Bytes → ℕ → ℕ → Option Bytes
pack_payload e random payload opcode flags =
    if has_bit flags flag_mask
    then elim random [
      | none ↦ none
      | some mask ↦ some (
          first_byte opcode flags
          ∷ (length_bytes true (length payload) ++ (mask ++ mask_payload_copy e mask payload)))
    ]
    else some (first_byte opcode flags ∷ (length_bytes false (length payload) ++ payload))

abbrev pub or_throw : Option Bytes → Result Bytes
or_throw none = err random_failed
or_throw (some frame) = ok frame

-- `opcode` of an optional message type
abbrev pub opcode_or_text : Option MessageType → ℕ
opcode_or_text none = opcode_text
opcode_or_text (some t) = message_type_opcode t

-- `Protocol::encode`
unfoldable pub encode : Endian → Option Bytes → Bytes → Option MessageType → Bool → Result Bytes
encode e random payload type masked =
    let opcode = opcode_or_text type in
    let flags = set_bit_if masked flag_mask flag_fin in
    do
      throw_if (opcode == opcode_text && not (is_valid_utf8 payload)) text_not_utf8
      or_throw (pack_payload e random payload opcode flags)

-- The first argument of `Protocol::pack`: a string, a frame, a close frame, or anything else.
pub data PackData : Type 0 where
  string : Bytes → PackData
  frame : Frame → PackData
  close_frame : CloseFrame → PackData
  other : PackData

-- The payload, the opcode and the flags that `Protocol::pack` goes on with.
pub pack_input : PackData → ℤ → ℤ → Result (Bytes × ℤ × ℤ)
pack_input (string payload) opcode flags = ok (payload, opcode, flags)
pack_input (frame f) opcode flags = ok (f.payload, f.opcode, f.flags)
pack_input (close_frame c) opcode flags = do
  payload ← close_payload c.code c.reason
  ok (payload, pos opcode_close, c.flags)
pack_input other opcode flags = err wrong_data_type

abbrev pub is_opcode : ℤ → ℕ → Bool
is_opcode (pos n) k = n == k
is_opcode (negsuc n) k = false

-- `Protocol::pack` from its checks on. Of the signed `flags` only the low bits are read.
unfoldable pub pack_checked : Endian → Option Bytes → Bytes → ℤ → ℤ → Result Bytes
pack_checked e random payload op flags = do
  throw_if (not (opcode_is_valid op)) invalid_opcode
  throw_if (opcode_is_control op && not (has_bit (low_byte flags) flag_fin)) control_without_fin
  throw_if (opcode_is_control op && ltb 125 (length payload)) control_too_long
  throw_if
      (is_opcode op opcode_text && has_bit (low_byte flags) flag_fin && not (is_valid_utf8 payload))
      text_not_utf8
  or_throw (pack_payload e random payload (low_byte op) (bit_and (low_byte flags) flags_all))

-- `Protocol::pack`
unfoldable pub pack : Endian → Option Bytes → PackData → ℤ → ℤ → Result Bytes
unfolding pack_input
pack e random input opcode flags = do
  (payload, op, fl) ← pack_input input opcode flags
  pack_checked e random payload op fl
