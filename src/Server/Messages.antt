-- ===== src/Server/Messages.antt =====
-- From frames to messages: fragments, the message handler, control frames and the loop over the
-- read buffer.
pub mod Steady
pub mod Delivered
pub mod Loop
pub mod Fragments
use php_websocket.Base.{
  ℕ, zero, suc, ◌+◌, ◌-◌, Bool, true, false, not, ◌&&◌, ◌||◌, Option, none, some, List, [], ◌∷◌,
  ◌++◌, Bytes, length, drop, ltb, leb, ◌==◌, if◌then◌else◌,
}
use php_websocket.Base.Int.{pos}
use php_websocket.Protocol.Opcode.{
  opcode_continuation, opcode_text, opcode_binary, opcode_close, opcode_ping, opcode_pong,
  close_protocol_error, close_message_too_big, close_invalid_payload, MessageType,
  message_type_from_opcode,
}
use php_websocket.Protocol.Utf8.{is_valid_utf8}
use php_websocket.Protocol.Mask.{Endian}
use php_websocket.Connection.State.{Net, Conn, Outcome, close_socket}
use php_websocket.Connection.Queue.{close_after_write}
use php_websocket.Connection.Send.{send_frame, send_close_frame}
use php_websocket.Server.Frames.{
  ServerFrame, FrameStatus, frame_ok, incomplete, protocol_error, message_too_big, invalid_payload,
  parse_frame,
}

-- "protocol error", "message too big" and "invalid utf-8"
abbrev pub protocol_error_text : Bytes
protocol_error_text =
    112 ∷ 114 ∷ 111 ∷ 116 ∷ 111 ∷ 99 ∷ 111 ∷ 108 ∷ 32 ∷ 101 ∷ 114 ∷ 114 ∷ 111 ∷ 114 ∷ []

abbrev pub message_too_big_text : Bytes
message_too_big_text =
    109 ∷ 101 ∷ 115 ∷ 115 ∷ 97 ∷ 103 ∷ 101 ∷ 32 ∷ 116 ∷ 111 ∷ 111 ∷ 32 ∷ 98 ∷ 105 ∷ 103 ∷ []

abbrev pub invalid_utf8_text : Bytes
invalid_utf8_text = 105 ∷ 110 ∷ 118 ∷ 97 ∷ 108 ∷ 105 ∷ 100 ∷ 32 ∷ 117 ∷ 116 ∷ 102 ∷ 45 ∷ 56 ∷ []

-- A message as the handler is given it.
pub record Message : Type 0 where
  pub payload : Bytes
  pub opcode : ℕ
  pub type : MessageType

-- The application's `onMessage` closure, if it is set. It can use the connection's methods; it
-- answers whether it returned without an exception.
abbrev pub Handler : Type 0
Handler = Option (Message → Conn → Net → Outcome)

-- The connection, what is outside of it, and the messages that the handler was called with.
pub record Session : Type 0 where
  pub conn : Conn
  pub net : Net
  pub log : List Message

abbrev pub Answer : Type 0
Answer = Bool × Session

abbrev pub on_session : List Message → Outcome → Answer
on_session log (ok', c, net) = (ok', record { conn = c; net = net; log = log })

-- `websocket_server_close_with_code`
unfoldable pub close_with_code : Endian → Conn → Net → ℕ → Bytes → Outcome
close_with_code e c net code reason =
    let (sent', c', net') = send_close_frame e c net (pos code) reason in
    let (later, later_net) = close_after_write c' net' in
    let (gone, gone_net) = close_socket c' net' in
    if sent' then (true, later, later_net) else (true, gone, gone_net)

abbrev pub called : List Message → Message → Outcome → Answer
called log m o = on_session (log ++ (m ∷ [])) o

abbrev pub call_typed :
    (Message → Conn → Net → Outcome) → Session → Bytes → ℕ → Option MessageType → Answer
call_typed handler s payload opcode none = (true, s)
call_typed handler s payload opcode (some type) =
    let m : Message = record { payload = payload; opcode = opcode; type = type } in
    called s.log m (handler m s.conn s.net)

-- `websocket_server_call_message_handler`. The engine's call of the closure does not fail itself.
unfoldable pub call_message_handler : Handler → Session → Bytes → ℕ → Answer
call_message_handler none s payload opcode = (true, s)
call_message_handler (some handler) s payload opcode =
    call_typed handler s payload opcode (message_type_from_opcode opcode)

-- `websocket_server_clear_fragment`
abbrev pub clear_fragment : Conn → Conn
clear_fragment c = record c { fragmented_payload = none; fragmented = false; fragmented_opcode = 0 }

abbrev pub or_empty : Option Bytes → Bytes
or_empty none = []
or_empty (some payload) = payload

-- `websocket_server_append_fragment`; `none` is its `false`.
unfoldable pub append_fragment : Conn → Bytes → ℕ → Option Conn
append_fragment c payload max_message_size =
    let current = or_empty c.fragmented_payload in
    if ltb max_message_size (length payload)
      || ltb (max_message_size - length payload) (length current)
    then none
    else some (record c { fragmented_payload = some (current ++ payload) })

abbrev pub clear_after : Answer → Answer
clear_after (ok', s) = (ok', record s { conn = clear_fragment s.conn })

abbrev pub fail_session : Endian → Session → Conn → ℕ → Bytes → Answer
fail_session e s c code reason = on_session s.log (close_with_code e c s.net code reason)

-- The continuation frame's part of the function, behind `websocket_server_append_fragment`.
unfoldable pub continue_message : Endian → Handler → Session → Bool → Option Conn → Answer
continue_message e handler s final none =
    fail_session e s (clear_fragment s.conn) close_message_too_big message_too_big_text
continue_message e handler s final (some c) =
    let payload = or_empty c.fragmented_payload in
    if not final
    then (true, record s { conn = c })
    else if c.fragmented_opcode == opcode_text && not (is_valid_utf8 payload)
    then fail_session e s (clear_fragment c) close_invalid_payload invalid_utf8_text
    else clear_after
        (call_message_handler handler (record s { conn = c }) payload c.fragmented_opcode)

-- `websocket_server_handle_data_frame`
unfoldable pub handle_data_frame : Endian → ℕ → Handler → Session → ServerFrame → Answer
handle_data_frame e max_message_size handler s f =
    if f.opcode == opcode_continuation
    then (if not s.conn.fragmented
        then fail_session e s s.conn close_protocol_error protocol_error_text
        else continue_message e handler s f.final
            (append_fragment s.conn f.payload max_message_size))
    else if s.conn.fragmented
    then fail_session e s (clear_fragment s.conn) close_protocol_error protocol_error_text
    else if f.final
    then (if f.opcode == opcode_text && not (is_valid_utf8 f.payload)
        then fail_session e s s.conn close_invalid_payload invalid_utf8_text
        else call_message_handler handler s f.payload f.opcode)
    else (
      true,
      record s {
        conn = record s.conn {
          fragmented = true;
          fragmented_opcode = f.opcode;
          fragmented_payload = some f.payload;
        };
      },
    )

-- A close frame is answered with its own payload.
unfoldable pub handle_close : Endian → Session → ServerFrame → Answer
handle_close e s f =
    let (replied, c, net) = send_frame e s.conn s.net f.payload opcode_close in
    let answers = s.conn.open_state && s.conn.upgraded in
    let ok' = (if answers then replied else true) in
    let c1 = clear_fragment (if answers then c else s.conn) in
    let net1 = (if answers then net else s.net) in
    let (later, later_net) = close_after_write c1 net1 in
    let (gone, gone_net) = close_socket c1 net1 in
    if ok'
    then (true, record { conn = later; net = later_net; log = s.log })
    else (true, record { conn = gone; net = gone_net; log = s.log })

-- `websocket_server_handle_frame`. An exception is pending only if the handler has thrown it.
unfoldable pub handle_frame : Endian → ℕ → Handler → Session → ServerFrame → Answer
handle_frame e max_message_size handler s f =
    if f.opcode == opcode_text || f.opcode == opcode_binary || f.opcode == opcode_continuation
    then handle_data_frame e max_message_size handler s f
    else if f.opcode == opcode_ping
    then on_session s.log (send_frame e s.conn s.net f.payload opcode_pong)
    else if f.opcode == opcode_pong
    then (true, record s { conn = record s.conn { awaiting_pong = false; last_ping_usec = 0 } })
    else if f.opcode == opcode_close
    then handle_close e s f
    else fail_session e s s.conn close_protocol_error protocol_error_text

-- `websocket_connection_discard_read_bytes`
unfoldable pub discard_read_bytes : Conn → ℕ → Conn
discard_read_bytes c n =
    if leb (length c.read_buffer) n
    then record c { read_buffer = [] }
    else record c { read_buffer = drop n c.read_buffer }

-- The test of the loop in `websocket_server_process_buffered_frames`.
abbrev pub has_frames : Conn → Bool
has_frames c = c.open_state && not c.close_after_write && c.upgraded && ltb 0 (length c.read_buffer)

-- How a round of the loop ends: with a return, or with the next round.
pub data Round : Type 0 where
  returns : Answer → Round
  continues : Session → Round

-- `if (!websocket_server_handle_frame(...)) return false`
abbrev pub or_return : Answer → Round
or_return (true, s) = continues s
or_return (false, s) = returns (false, s)

-- A status that is not OK ends the loop, and the function returns true.
abbrev pub on_status : Endian → ℕ → Handler → Session → FrameStatus → Round
on_status e max_message_size handler s incomplete = returns (true, s)
on_status e max_message_size handler s message_too_big =
    returns (fail_session e s (clear_fragment s.conn) close_message_too_big message_too_big_text)
on_status e max_message_size handler s invalid_payload =
    returns (fail_session e s (clear_fragment s.conn) close_invalid_payload invalid_utf8_text)
on_status e max_message_size handler s protocol_error =
    returns (fail_session e s (clear_fragment s.conn) close_protocol_error protocol_error_text)
on_status e max_message_size handler s (frame_ok f) = or_return (
    handle_frame e max_message_size handler
      (record s { conn = discard_read_bytes s.conn f.bytes_consumed }) f)

unfoldable pub frame_round : Endian → ℕ → Handler → Session → Round
frame_round e max_message_size handler s =
    if has_frames s.conn
    then on_status e max_message_size handler s (parse_frame max_message_size s.conn.read_buffer)
    else returns (true, s)

abbrev pub and_then : (Session → Option Answer) → Round → Option Answer
and_then rest (returns a) = some a
and_then rest (continues s) = rest s

-- `websocket_server_process_buffered_frames`; `none` is a run out of fuel.
unfoldable pub process_buffered_frames : ℕ → Endian → ℕ → Handler → Session → Option Answer
process_buffered_frames zero e max_message_size handler s = none
process_buffered_frames (suc fuel) e max_message_size handler s =
    and_then (process_buffered_frames fuel e max_message_size handler)
      (frame_round e max_message_size handler s)
