-- ===== src/Connection/Methods.antt =====
-- The methods of the PHP class `WebSocket\Connection`: `send`, `close` and `isOpen`.
use php_websocket.Base.{
  Bool, true, false, not, ◌&&◌, ◌||◌, Option, none, some, [], Bytes, length, ltb, ◌==◌,
  if◌then◌else◌,
}
use php_websocket.Base.Int.{ℤ, pos}
use php_websocket.Protocol.Opcode.{
  opcode_text, opcode_continuation, close_normal, close_reason_max_len, MessageType,
  opcode_is_control, close_code_is_valid,
}
use php_websocket.Protocol.Utf8.{is_valid_utf8}
use php_websocket.Protocol.Mask.{Endian}
use php_websocket.Protocol.Frame.{opcode_or_text}
use php_websocket.Connection.State.{Net, Conn, Outcome}
use php_websocket.Connection.Queue.{close_after_write}
use php_websocket.Connection.Send.{send_frame, send_close_frame}

-- What a method throws.
pub data Thrown : Type 0 where
  closed_connection not_upgraded continuation_frame control_too_long text_not_utf8 : Thrown
  send_failed invalid_close_code reason_too_long reason_not_utf8 : Thrown

-- A method's end: `none` is a return.
abbrev pub Ended : Type 0
Ended = Option Thrown × Conn × Net

abbrev pub after_send : Outcome → Ended
after_send (true, c, net) = (none, c, net)
after_send (false, c, net) = (some send_failed, c, net)

-- `Connection::send`
unfoldable pub send : Endian → Conn → Net → Bytes → Option MessageType → Ended
send e c net payload type =
    let opcode = opcode_or_text type in
    if not c.open_state || c.close_after_write
    then (some closed_connection, c, net)
    else if not c.upgraded
    then (some not_upgraded, c, net)
    else if opcode == opcode_continuation
    then (some continuation_frame, c, net)
    else if opcode_is_control (pos opcode) && ltb 125 (length payload)
    then (some control_too_long, c, net)
    else if opcode == opcode_text && not (is_valid_utf8 payload)
    then (some text_not_utf8, c, net)
    else after_send (send_frame e c net payload opcode)

-- `Connection::close` behind its checks. `defer_close` is set while the server is at work on the
-- handshake.
unfoldable pub close_checked : Endian → Conn → Net → ℤ → Bytes → Conn × Net
close_checked e c net code reason =
    let (sent', c1, net1) = send_close_frame e c net code reason in
    if c.defer_close
    then (record c { open_state = false }, net)
    else if c.open_state && c.upgraded
    then close_after_write c1 net1
    else close_after_write c net

abbrev pub ended : Conn × Net → Ended
ended (c, net) = (none, c, net)

abbrev pub or_normal : Option ℤ → ℤ
or_normal none = pos close_normal
or_normal (some code) = code

abbrev pub or_empty : Option Bytes → Bytes
or_empty none = []
or_empty (some reason) = reason

-- `Connection::close`, with the arguments that are given.
unfoldable pub close : Endian → Conn → Net → Option ℤ → Option Bytes → Ended
close e c net code reason =
    if not (close_code_is_valid (or_normal code))
    then (some invalid_close_code, c, net)
    else if ltb close_reason_max_len (length (or_empty reason))
    then (some reason_too_long, c, net)
    else if not (is_valid_utf8 (or_empty reason))
    then (some reason_not_utf8, c, net)
    else ended (close_checked e c net (or_normal code) (or_empty reason))

-- `Connection::isOpen`
unfoldable pub is_open : Conn → Bool
is_open c = c.open_state && not c.close_after_write
