-- ===== src/Protocol/Close.antt =====
-- `websocket_protocol_close_payload` and `CloseFrame::__construct`.
use php_websocket.Base.{◌-◌, ◌/◌, ◌%◌, not, [], ◌∷◌, ◌++◌, Bytes, length, ltb}
use php_websocket.Base.Int.{ℤ, pos, negsuc}
use php_websocket.Protocol.Opcode.{close_code_is_valid, close_reason_max_len}
use php_websocket.Protocol.Utf8.{is_valid_utf8}
use php_websocket.Protocol.Result.{
  Result, ok, ◌>>◌, throw_if, invalid_close_code, reason_too_long, reason_not_utf8,
}

-- `(code >> 8) & 0xff` and `code & 0xff`, in two's complement.
abbrev pub code_bytes : ℤ → Bytes
code_bytes (pos n) = n / 256 % 256 ∷ n % 256 ∷ []
code_bytes (negsuc n) = (255 - n / 256 % 256) ∷ (255 - n % 256) ∷ []

-- The three checks that the close payload and the constructor of `CloseFrame` share.
pub check_close : ℤ → Bytes → Result (Unit {0})
check_close code reason = do
  throw_if (not (close_code_is_valid code)) invalid_close_code
  throw_if (ltb close_reason_max_len (length reason)) reason_too_long
  throw_if (not (is_valid_utf8 reason)) reason_not_utf8

unfoldable pub close_payload : ℤ → Bytes → Result Bytes
unfolding check_close
close_payload code reason = do check_close code reason; ok (code_bytes code ++ reason)
