-- ===== src/Connection/Send.antt =====
-- Sending a frame: `websocket_connection_send_frame` and `websocket_connection_send_close_frame`.
use php_websocket.Base.{
  ℕ, Bool, true, false, not, ◌&&◌, ◌||◌, Option, none, some, Bytes, length, ltb, is_some,
  if◌then◌else◌,
}
use php_websocket.Base.Int.{ℤ}
use php_websocket.Protocol.Opcode.{opcode_close, flag_fin}
use php_websocket.Protocol.Mask.{Endian}
use php_websocket.Protocol.Frame.{pack_payload}
use php_websocket.Protocol.Close.{close_payload}
use php_websocket.Protocol.Result.{Result, ok, err}
use php_websocket.Connection.State.{Errno, enobufs, Net, Conn, Outcome}
use php_websocket.Connection.Queue.{Wrote, write_some, after_write, has_pending_writes, queue_frame}

abbrev pub is_enobufs : Errno → Bool
is_enobufs enobufs = true
is_enobufs _ = false

-- `if (!ok && errno != ENOBUFS) intern->open = false`
unfoldable pub settle : Outcome → Outcome
settle (ok', c, net) =
    if not ok' && not (is_enobufs net.errno)
    then (ok', record c { open_state = false }, net)
    else (ok', c, net)

-- What follows `websocket_connection_write_some`.
unfoldable pub queue_rest : Conn → Net → Bytes → Wrote → Outcome
queue_rest c net frame w =
    if w.done && ltb w.offset (length frame)
    then queue_frame c (after_write net w) frame w.offset
    else (w.done, c, after_write net w)

-- `websocket_connection_send_frame` from the packed frame on.
unfoldable pub send_packed : Conn → Net → Bytes → Outcome
send_packed c net frame =
    if ltb c.max_queued_bytes (length frame)
    then (false, c, record net { errno = enobufs })
    else if has_pending_writes c
    then settle (queue_frame c net frame 0)
    else settle (queue_rest c net frame (write_some frame 0 net))

abbrev pub send_some : Conn → Net → Option Bytes → Outcome
send_some c net none = (false, c, net)
send_some c net (some frame) = send_packed c net frame

-- `websocket_connection_send_frame`. Its frames are not masked, so nothing random is asked for.
unfoldable pub send_frame : Endian → Conn → Net → Bytes → ℕ → Outcome
send_frame e c net payload opcode =
    if not c.open_state || c.close_after_write || not c.upgraded || not (is_some c.fd)
    then (false, c, net)
    else send_some c net (pack_payload e none payload opcode flag_fin)

abbrev pub send_checked : Endian → Conn → Net → Result Bytes → Outcome
send_checked e c net (err _) = (false, c, net)
send_checked e c net (ok payload) = send_frame e c net payload opcode_close

-- `websocket_connection_send_close_frame`. An exception of the payload's checks is left pending.
unfoldable pub send_close_frame : Endian → Conn → Net → ℤ → Bytes → Outcome
send_close_frame e c net code reason =
    if not c.open_state || not c.upgraded || not (is_some c.fd)
    then (false, c, net)
    else send_checked e c net (close_payload code reason)
