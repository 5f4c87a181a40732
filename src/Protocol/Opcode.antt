-- ===== src/Protocol/Opcode.antt =====
-- Opcodes, message types and close codes (php_websocket.h and the head of websocket_protocol.c).
use php_websocket.Base.{
  ℕ, Bool, false, ◌&&◌, ◌||◌, not, Option, none, some, leb, ◌==◌, if◌then◌else◌,
}
use php_websocket.Base.Int.{ℤ, pos, negsuc, lt_nat, gt_nat}

abbrev pub opcode_continuation : ℕ
opcode_continuation = 0x0

abbrev pub opcode_text : ℕ
opcode_text = 0x1

abbrev pub opcode_binary : ℕ
opcode_binary = 0x2

abbrev pub opcode_close : ℕ
opcode_close = 0x8

abbrev pub opcode_ping : ℕ
opcode_ping = 0x9

abbrev pub opcode_pong : ℕ
opcode_pong = 0xa

abbrev pub flag_fin : ℕ
flag_fin = 1

abbrev pub flag_compress : ℕ
flag_compress = 2

abbrev pub flag_rsv1 : ℕ
flag_rsv1 = 4

abbrev pub flag_rsv2 : ℕ
flag_rsv2 = 8

abbrev pub flag_rsv3 : ℕ
flag_rsv3 = 16

abbrev pub flag_mask : ℕ
flag_mask = 32

-- FIN, COMPRESS, RSV1, RSV2, RSV3 and MASK together.
abbrev pub flags_all : ℕ
flags_all = 63

abbrev pub close_normal : ℕ
close_normal = 1000

abbrev pub close_protocol_error : ℕ
close_protocol_error = 1002

abbrev pub close_invalid_payload : ℕ
close_invalid_payload = 1007

abbrev pub close_message_too_big : ℕ
close_message_too_big = 1009

abbrev pub close_reason_max_len : ℕ
close_reason_max_len = 123

-- The cases of the PHP enum `WebSocket\MessageType`.
pub data MessageType : Type 0 where
  continuation text binary close ping pong : MessageType

-- The source compares the name of the enum's case; the fall-through after the six names is
-- reached by no case.
unfoldable pub message_type_opcode : MessageType → ℕ
message_type_opcode continuation = opcode_continuation
message_type_opcode text = opcode_text
message_type_opcode binary = opcode_binary
message_type_opcode close = opcode_close
message_type_opcode ping = opcode_ping
message_type_opcode pong = opcode_pong

unfoldable pub message_type_from_opcode : ℕ → Option MessageType
message_type_from_opcode op =
    if op == opcode_continuation
    then some continuation
    else if op == opcode_text
    then some text
    else if op == opcode_binary
    then some binary
    else if op == opcode_close
    then some close
    else if op == opcode_ping
    then some ping
    else if op == opcode_pong
    then some pong
    else none

-- The opcode is a signed `zend_long`.
unfoldable pub opcode_is_valid : ℤ → Bool
opcode_is_valid (pos op) =
    op == opcode_continuation
    || op == opcode_text
    || op == opcode_binary
    || op == opcode_close
    || op == opcode_ping
    || op == opcode_pong
opcode_is_valid (negsuc n) = false

unfoldable pub opcode_is_control : ℤ → Bool
opcode_is_control (pos op) = leb 0x8 op && leb op 0xf
opcode_is_control (negsuc n) = false

is_reserved_code : ℤ → Bool
is_reserved_code (pos code) = code == 1004 || code == 1005 || code == 1006 || code == 1015
is_reserved_code (negsuc n) = false

unfoldable pub close_code_is_valid : ℤ → Bool
unfolding is_reserved_code
close_code_is_valid code =
    if lt_nat code 1000 || gt_nat code 4999 then false else not (is_reserved_code code)
