-- ===== src/Server/Answers.antt =====
-- The answers to a handshake that the server writes itself: `websocket_server_send_bytes` and
-- `websocket_server_send_handshake_response`.
pub mod Texts
pub mod Sent
pub mod Lines
use php_websocket.Base.{
  ℕ, zero, suc, ◌+◌, ◌/◌, ◌%◌, Bool, true, false, ◌||◌, List, [], ◌∷◌, ◌++◌, Bytes, length, take,
  drop, min, ltb, ◌==◌, if◌then◌else◌,
}
use php_websocket.Connection.State.{Errno, eagain, SendOutcome, sent, failed, Net}
use php_websocket.Connection.Queue.{is_interrupt}
use php_websocket.Http.Words.{connection_name, crlf}
use php_websocket.Http.Text.{equals_ci}
use php_websocket.Server.Answers.Texts.{
  http_prefix, reason_ok, reason_bad_request, reason_unauthorized, reason_forbidden,
  reason_not_found, reason_too_many, reason_internal, reason_unavailable, reason_rejected,
  content_length_name, content_length_prefix, connection_close,
}

-- The loop of `websocket_server_send_bytes`, on what is left of the buffer and of the script.
unfoldable pub send_from : Bytes → List SendOutcome → Net → Bool × Net
send_from [] script net = (true, record net { sends = script })
send_from (b ∷ rest) [] net = (false, record net { sends = []; errno = eagain })
send_from (b ∷ rest) (sent n ∷ script) net =
    let k = min n (suc (length rest)) in
    let more =
      send_from (drop k (b ∷ rest)) script (record net { wire = net.wire ++ take k (b ∷ rest) }) in
    if k == 0 then (false, record net { sends = script }) else more
send_from (b ∷ rest) (failed e ∷ script) net =
    let again = send_from (b ∷ rest) script (record net { errno = e }) in
    if is_interrupt e then again else (false, record net { sends = script; errno = e })

-- `websocket_server_send_bytes`
unfoldable pub send_bytes : Bytes → Net → Bool × Net
send_bytes buffer net = send_from buffer net.sends net

-- `websocket_http_reason_phrase`
unfoldable pub reason_phrase : ℕ → Bytes
reason_phrase status =
    if status == 200
    then reason_ok
    else if status == 400
    then reason_bad_request
    else if status == 401
    then reason_unauthorized
    else if status == 403
    then reason_forbidden
    else if status == 404
    then reason_not_found
    else if status == 429
    then reason_too_many
    else if status == 500
    then reason_internal
    else if status == 503
    then reason_unavailable
    else reason_rejected

-- `%ld` and `%zu` on a number: its decimal digits, with fuel for one more digit than it can have.
unfoldable pub digits : ℕ → ℕ → Bytes
digits zero n = []
digits (suc fuel) n =
    let front = digits fuel (n / 10) in
    if ltb n 10 then (48 + n) ∷ [] else front ++ ((48 + n % 10) ∷ [])

abbrev pub decimal : ℕ → Bytes
decimal n = digits (suc n) n

-- The properties of a `WebSocket\HandshakeResponse`, whose constructor admits the statuses from
-- 100 to 599 and strings as values only.
pub record Response : Type 0 where
  pub status : ℕ
  pub headers : List (Bytes × Bytes)
  pub body : Bytes

abbrev pub header_line : Bytes × Bytes → Bytes
header_line (name, value) = name ++ (58 ∷ 32 ∷ value)

-- `has_connection` and `has_content_length`: whether one of the headers is so called.
unfoldable pub has_header : Bytes → List (Bytes × Bytes) → Bool
has_header wanted [] = false
has_header wanted ((name, value) ∷ rest) = equals_ci name wanted || has_header wanted rest

unfoldable pub header_lines : List (Bytes × Bytes) → Bytes
header_lines [] = []
header_lines (h ∷ rest) = header_line h ++ (crlf ++ header_lines rest)

abbrev pub default_connection : Response → Bytes
default_connection r = if has_header connection_name r.headers then [] else connection_close ++ crlf

-- Behind the test for a header Connection the code tests for Content-Length.
abbrev pub default_length : Response → Bytes
default_length r =
    if has_header content_length_name r.headers
    then []
    else content_length_prefix ++ (decimal (length r.body) ++ crlf)

abbrev pub status_line : ℕ → Bytes
status_line status = http_prefix ++ (decimal status ++ (32 ∷ reason_phrase status))

-- What `websocket_server_send_handshake_response` writes.
unfoldable pub response_bytes : Response → Bytes
response_bytes r =
    status_line r.status
    ++ (crlf
        ++ (header_lines r.headers
            ++ (default_connection r ++ (default_length r ++ (crlf ++ r.body)))))

-- `websocket_server_send_handshake_response`
unfoldable pub send_handshake_response : Response → Net → Bool × Net
send_handshake_response r net = send_bytes (response_bytes r) net
