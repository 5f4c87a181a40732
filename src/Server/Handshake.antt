-- ===== src/Server/Handshake.antt =====
-- The handshake: reading the request, asking the application, answering, and the first frames.
pub mod Branches
pub mod Ends
use php_websocket.Base.{
  ℕ, suc, Bool, true, false, not, ◌&&◌, Option, none, some, List, [], ◌∷◌, ◌++◌, Bytes, length,
  if◌then◌else◌,
}
use php_websocket.Protocol.Mask.{Endian}
use php_websocket.Connection.State.{Net, Conn, Outcome}
use php_websocket.Connection.Queue.{is_again, is_interrupt}
use php_websocket.Http.Headers.{Table, request_headers}
use php_websocket.Http.Upgrade.{
  Upgrade, UpgradeResult, upgrade_ok, incomplete, invalid, max_request_size, parse_upgrade,
  upgrade_response,
}
use php_websocket.Server.Answers.Texts.{bad_request_response, forbidden_response}
use php_websocket.Server.Answers.{Response, send_bytes, response_bytes}
use php_websocket.Server.Messages.{
  Message, Handler, Session, Answer, on_session, or_empty, discard_read_bytes,
}
use php_websocket.Server.Reads.{
  ensure_read_capacity, Recv, received, ended, refused, process_all, shut,
}
use php_websocket.Server.Connections.{CloseHandler}

-- The properties of a `WebSocket\Request`.
pub record Request : Type 0 where
  pub method : Bytes
  pub target : Bytes
  pub headers : Table

-- How the application's `onHandshake` closure ends: it returns nothing, it returns a value, it
-- throws a HandshakeException, or it throws something else. The exception has a response unless
-- its constructor was not called.
pub data HandshakeAnswer : Type 0 where
  returned returned_value threw : HandshakeAnswer
  rejected : Option Response → HandshakeAnswer

abbrev pub HandshakeHandler : Type 0
HandshakeHandler = Option (Request → HandshakeAnswer)

-- A result, a second result that the function writes (`accepted` or `close_requested`), and what
-- is left of the connection and outside of it.
abbrev pub Called : Type 0
Called = Bool × Bool × Conn × Net

-- The `onOpen` closure: not set, one that takes the connection, or one without parameters, given by
-- whether it returns without an exception and whether it returns false. The first result of the
-- call is the absence of an exception, the second that the closure returned false.
pub data OpenHandler : Type 0 where
  unset : OpenHandler
  taking : (Conn → Net → Called) → OpenHandler
  plain : Bool → Bool → OpenHandler

-- The application, and what the parser of the request needs.
pub record App : Type 0 where
  pub supported : List Bytes
  pub base64_decode : Bytes → Option Bytes
  pub accept_of : Bytes → Bytes
  pub on_handshake : HandshakeHandler
  pub on_open : OpenHandler
  pub on_message : Handler
  pub on_close : CloseHandler
  pub max_message_size : ℕ

abbrev pub parse : App → Bytes → UpgradeResult
parse app buf = parse_upgrade app.supported app.base64_decode app.accept_of buf

-- `websocket_server_create_request`
abbrev pub create_request : Upgrade → Request
create_request u = record {
  method = u.method;
  target = u.target;
  headers = request_headers u.headers;
}

abbrev pub consult : HandshakeHandler → Request → HandshakeAnswer
consult none request = returned
consult (some handler) request = handler request

-- What a HandshakeException makes the server send.
abbrev pub rejection : Option Response → Bytes
rejection none = forbidden_response
rejection (some response) = response_bytes response

-- `websocket_server_handle_handshake_exception`, on a HandshakeException.
unfoldable pub handle_handshake_exception : Option Response → Conn → Net → Conn × Net
handle_handshake_exception response c net =
    (record c { open_state = false }, (send_bytes (rejection response) net).1)

abbrev pub on_answer : HandshakeAnswer → Conn → Net → Called
on_answer returned c net = (true, true, c, net)
on_answer returned_value c net = (false, true, c, net)
on_answer threw c net = (false, true, c, net)
on_answer (rejected response) c net =
    let (c', net') = handle_handshake_exception response c net in (true, false, c', net')

-- `websocket_server_call_handshake_handler`
unfoldable pub call_handshake_handler : HandshakeHandler → Request → Conn → Net → Called
call_handshake_handler handler request c net = on_answer (consult handler request) c net

-- `websocket_server_notify_connection_closed`
unfoldable pub notify_connection_closed : CloseHandler → Conn → Net → Outcome
notify_connection_closed none c net = (true, c, net)
notify_connection_closed (some handler) c net =
    if c.upgraded && not c.close_notified
    then handler (record c { close_notified = true }) net
    else (true, c, net)

-- `websocket_server_call_open_handler`
unfoldable pub call_open_handler : OpenHandler → Conn → Net → Called
call_open_handler unset c net = (true, false, c, net)
call_open_handler (taking handler) c net = handler c net
call_open_handler (plain ok' closes) c net = (ok', closes, c, net)

abbrev pub clear_defer : Called → Called
clear_defer (ok', closes, c, net) = (ok', closes, record c { defer_close = false }, net)

-- The call in `websocket_server_finish_upgrade`. A `close()` in a handler that takes the connection
-- is put off.
abbrev pub open_with : OpenHandler → Conn → Net → Called
open_with unset c net = clear_defer (call_open_handler unset (record c { defer_close = true }) net)
open_with (taking handler) c net =
    clear_defer (call_open_handler (taking handler) (record c { defer_close = true }) net)
open_with (plain ok' closes) c net = call_open_handler (plain ok' closes) c net

-- Behind the call.
abbrev pub behind_open : Endian → App → List Message → Called → Option Answer
behind_open e app log (false, closes, c, net) =
    some (false, record { conn = record c { open_state = false }; net = net; log = log })
behind_open e app log (true, closes, c, net) =
    let still_open = c.open_state && not closes in
    let c' = record c { open_state = still_open } in
    if still_open
    then process_all e app.max_message_size app.on_message
        (record { conn = c'; net = net; log = log })
    else some (on_session log (notify_connection_closed app.on_close c' net))

-- `websocket_server_finish_upgrade` behind the response.
unfoldable pub open_connection : Endian → App → Conn → Net → List Message → Option Answer
open_connection e app c net log = behind_open e app log (open_with app.on_open c net)

abbrev pub upgraded_conn : Conn → Upgrade → Conn
upgraded_conn c u =
    discard_read_bytes (record c { selected_subprotocol = u.selected_subprotocol; upgraded = true })
      u.bytes_consumed

abbrev pub after_response : Endian → App → Session → Upgrade → Bool × Net → Option Answer
after_response e app s u (false, net) =
    some (true, record s { conn = record s.conn { open_state = false }; net = net })
after_response e app s u (true, net) = open_connection e app (upgraded_conn s.conn u) net s.log

-- `websocket_server_finish_upgrade`. A request that the parser has accepted has an accept key.
unfoldable pub finish_upgrade : Endian → App → Session → Upgrade → Option Answer
finish_upgrade e app s u =
    after_response e app s u
      (send_bytes (upgrade_response (or_empty u.accept_key) u.selected_subprotocol) s.net)

-- `bad_request`: the response, and the end of the connection.
abbrev pub refuse : Session → Option Answer
refuse s = some (
  true,
  record s {
    conn = record s.conn { open_state = false };
    net = (send_bytes bad_request_response s.net).1;
  },
)

abbrev pub on_called : Endian → App → List Message → Upgrade → Called → Option Answer
on_called e app log u (false, accepted, c, net) =
    some (false, record { conn = c; net = net; log = log })
on_called e app log u (true, false, c, net) = some (true, record { conn = c; net = net; log = log })
on_called e app log u (true, true, c, net) =
    finish_upgrade e app (record { conn = c; net = net; log = log }) u

-- A round behind the parser; `rest` is the next one.
abbrev pub on_result :
    Endian → App → Session → (Session → Option Answer) → UpgradeResult → Option Answer
on_result e app s rest incomplete = rest s
on_result e app s rest invalid = refuse s
on_result e app s rest (upgrade_ok u) =
    on_called e app s.log u
      (call_handshake_handler app.on_handshake (create_request u) s.conn s.net)

-- A round that has received `chunk`, behind the test of the capacity.
abbrev pub take_request :
    Endian → App → Session → Bytes → (Session → Option Answer) → Option Conn → Option Answer
take_request e app s chunk rest none = refuse s
take_request e app s chunk rest (some c) =
    let c' = record c { read_buffer = c.read_buffer ++ chunk } in
    on_result e app (record s { conn = c' }) rest (parse app c'.read_buffer)

-- The test of the loop.
abbrev pub is_handshaking : Conn → Bool
is_handshaking c = c.open_state && not c.upgraded

-- `websocket_server_process_handshake`, on a script of `recv`'s answers; one that has run out
-- answers that the call would block.
unfoldable pub process_handshake : Endian → App → Session → List Recv → Option Answer
process_handshake e app s [] = some (true, s)
process_handshake e app s (received b bs now ∷ rest) =
    let c = record s.conn { last_activity_usec = now } in
    if is_handshaking s.conn
    then take_request e app (record s { conn = c }) (b ∷ bs) (λ s'. process_handshake e app s' rest)
        (ensure_read_capacity c (suc (length bs)) max_request_size)
    else some (true, s)
process_handshake e app s (ended ∷ rest) = if is_handshaking s.conn then shut s else some (true, s)
process_handshake e app s (refused x ∷ rest) =
    let again = process_handshake e app s rest in
    if not (is_handshaking s.conn)
    then some (true, s)
    else if is_interrupt x
    then again
    else if is_again x
    then some (true, s)
    else shut s
