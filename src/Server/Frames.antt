-- ===== src/Server/Frames.antt =====
-- `websocket_server_parse_frame`: the stricter parser that the server reads its clients with.
pub mod Chunks
pub mod RoundTrip
pub mod Packed
pub mod Bounds
use php_websocket.Base.{
  ℕ, ◌+◌, ◌-◌, ◌*◌, ◌^◌, Bool, true, false, not, ◌&&◌, ◌||◌, Bytes, bit_and, bit_or, bit_xor,
  length, get_or, take, drop, ltb, leb, ◌==◌, if◌then◌else◌,
}
use php_websocket.Base.Int.{pos}
use php_websocket.Protocol.Opcode.{
  opcode_close, opcode_is_valid, opcode_is_control, close_code_is_valid,
}
use php_websocket.Protocol.Utf8.{is_valid_utf8}
use php_websocket.Protocol.Mask.{mask_bytes}
use php_websocket.Protocol.Frame.{has_bit}
use php_websocket.Protocol.Unpack.{size_max, length16, length64}

-- `websocket_server_frame`
pub record ServerFrame : Type 0 where
  pub opcode : ℕ
  pub final : Bool
  pub payload : Bytes
  pub bytes_consumed : ℕ

-- `websocket_server_frame_status`, with the frame that comes with the first of them.
pub data FrameStatus : Type 0 where
  frame_ok : ServerFrame → FrameStatus
  incomplete protocol_error message_too_big invalid_payload : FrameStatus

-- The payload length and the position behind it, or the status that is returned instead.
pub data LengthField : Type 0 where
  field : ℕ → ℕ → LengthField
  returned : FrameStatus → LengthField

unfoldable pub parse_length : Bytes → ℕ → LengthField
parse_length buf n =
    if n == 126
    then (if ltb (length buf) 4
        then returned incomplete
        else if ltb (length16 buf) 126
        then returned protocol_error
        else field (length16 buf) 4)
    else if n == 127
    then (if ltb (length buf) 10
        then returned incomplete
        else if has_bit (get_or buf 2 0) 0x80
        then returned protocol_error
        else if leb (length64 buf) 0xffff
        then returned protocol_error
        else field (length64 buf) 10)
    else field n 2

-- `((zend_long) (in[pos] ^ mask[0]) << 8) | (zend_long) (in[pos + 1] ^ mask[1])`
abbrev pub masked_close_code : Bytes → Bytes → ℕ
masked_close_code mask raw =
    bit_or (bit_xor (get_or raw 0 0) (get_or mask 0 0) * 2 ^ 8)
      (bit_xor (get_or raw 1 0) (get_or mask 1 0))

-- The end of the function, with the masked payload `raw` there as a whole.
unfoldable pub parse_payload : ℕ → Bool → Bytes → Bytes → ℕ → FrameStatus
parse_payload opcode final mask raw consumed =
    let payload = mask_bytes mask 0 raw in
    let has_code = opcode == opcode_close && leb 2 (length raw) in
    if opcode == opcode_close && length raw == 1
    then protocol_error
    else if has_code && not (close_code_is_valid (pos (masked_close_code mask raw)))
    then protocol_error
    else if has_code && not (is_valid_utf8 (drop 2 payload))
    then invalid_payload
    else frame_ok
        (record { opcode = opcode; final = final; payload = payload; bytes_consumed = consumed })

-- The checks on the length, `at` being the position behind it.
unfoldable pub parse_body : ℕ → Bytes → ℕ → Bool → ℕ → ℕ → FrameStatus
parse_body max_message_size buf opcode final n at =
    if opcode_is_control (pos opcode) && (not final || ltb 125 n)
    then protocol_error
    else if not (opcode_is_control (pos opcode)) && ltb max_message_size n
    then message_too_big
    else if ltb size_max n || ltb (size_max - at) n || ltb (length buf) (at + 4)
    then incomplete
    else if ltb (size_max - (at + 4)) n || ltb (length buf) (at + 4 + n)
    then incomplete
    else parse_payload opcode final (take 4 (drop at buf)) (take n (drop (at + 4) buf)) (at + 4 + n)

abbrev pub parse_field : ℕ → Bytes → ℕ → Bool → LengthField → FrameStatus
parse_field max_message_size buf opcode final (returned status) = status
parse_field max_message_size buf opcode final (field n at) =
    parse_body max_message_size buf opcode final n at

-- `websocket_server_parse_frame`, on the bytes of the read buffer.
unfoldable pub parse_frame : ℕ → Bytes → FrameStatus
parse_frame max_message_size buf =
    let b0 = get_or buf 0 0 in
    let b1 = get_or buf 1 0 in
    let opcode = bit_and b0 0x0f in
    let final = has_bit b0 0x80 in
    if ltb (length buf) 2
    then incomplete
    else if has_bit b0 0x70 || not (has_bit b1 0x80)
    then protocol_error
    else if not (opcode_is_valid (pos opcode))
    then protocol_error
    else parse_field max_message_size buf opcode final (parse_length buf (bit_and b1 0x7f))
