-- ===== src/Server/Timers.antt =====
-- Options, time limits and the heartbeat.
pub mod Queue
pub mod Limits
pub mod Heartbeat
use php_websocket.Base.{
  ℕ, zero, suc, ◌+◌, ◌-◌, ◌*◌, ◌%◌, ◌^◌, Bool, true, false, not, ◌&&◌, ◌||◌, Option, none, some, [],
  ◌∷◌, Bytes, ltb, leb, ◌==◌, if◌then◌else◌,
}
use php_websocket.Base.Int.{ℤ, pos, negsuc}
use php_websocket.Protocol.Opcode.{opcode_ping, close_normal}
use php_websocket.Protocol.Mask.{Endian}
use php_websocket.Connection.State.{Net, Conn, Outcome, close_socket}
use php_websocket.Connection.Send.{send_frame}
use php_websocket.Server.Messages.{close_with_code}

-- The options as integers; `none` is an option that is not given.
pub record Options : Type 0 where
  pub handshake_timeout_ms : Option ℤ
  pub idle_timeout_ms : Option ℤ
  pub ping_interval_ms : Option ℤ
  pub pong_timeout_ms : Option ℤ

-- `websocket_server_positive_option`
unfoldable pub positive_option : Option ℤ → ℕ → ℕ
positive_option none fallback = fallback
positive_option (some (pos zero)) fallback = fallback
positive_option (some (pos (suc n))) fallback = suc n
positive_option (some (negsuc n)) fallback = fallback

-- `websocket_server_nonnegative_option`
unfoldable pub nonnegative_option : Option ℤ → ℕ → ℕ
nonnegative_option none fallback = fallback
nonnegative_option (some (pos n)) fallback = n
nonnegative_option (some (negsuc n)) fallback = fallback

-- `(uint64_t) ms * 1000u`
abbrev pub usec : ℕ → ℕ
usec ms = ms * 1000 % 2 ^ 64

-- `websocket_server_handshake_timeout_usec`
unfoldable pub handshake_timeout_usec : Options → ℕ
handshake_timeout_usec o = usec (positive_option o.handshake_timeout_ms 10000)

-- `websocket_server_idle_timeout_usec`
unfoldable pub idle_timeout_usec : Options → ℕ
idle_timeout_usec o = usec (positive_option o.idle_timeout_ms 120000)

-- `websocket_server_ping_interval_usec`
unfoldable pub ping_interval_usec : Options → ℕ
ping_interval_usec o = usec (nonnegative_option o.ping_interval_ms 0)

-- `websocket_server_pong_timeout_usec`
unfoldable pub pong_timeout_usec : Options → ℕ
pong_timeout_usec o = usec (positive_option o.pong_timeout_ms 10000)

-- The last activity, or the time of the connection.
abbrev pub last_activity : Conn → ℕ
last_activity c = if c.last_activity_usec == 0 then c.accepted_at_usec else c.last_activity_usec

abbrev pub timeout_usec : Options → Conn → ℕ
timeout_usec o c = if not c.upgraded then handshake_timeout_usec o else idle_timeout_usec o

-- `websocket_server_connection_expired`
unfoldable pub connection_expired : Options → Conn → ℕ → Bool
connection_expired o c now =
    if now == 0
    then false
    else if last_activity c == 0 || ltb now (last_activity c)
    then false
    else ltb 0 (timeout_usec o c) && leb (timeout_usec o c) (now - last_activity c)

-- "idle timeout", "pong timeout" and "heartbeat failed"
abbrev pub idle_timeout_text : Bytes
idle_timeout_text = 105 ∷ 100 ∷ 108 ∷ 101 ∷ 32 ∷ 116 ∷ 105 ∷ 109 ∷ 101 ∷ 111 ∷ 117 ∷ 116 ∷ []

abbrev pub pong_timeout_text : Bytes
pong_timeout_text = 112 ∷ 111 ∷ 110 ∷ 103 ∷ 32 ∷ 116 ∷ 105 ∷ 109 ∷ 101 ∷ 111 ∷ 117 ∷ 116 ∷ []

abbrev pub heartbeat_failed_text : Bytes
heartbeat_failed_text =
    104 ∷ 101 ∷ 97 ∷ 114 ∷ 116 ∷ 98 ∷ 101 ∷ 97 ∷ 116 ∷ 32 ∷ 102 ∷ 97 ∷ 105 ∷ 108 ∷ 101 ∷ 100 ∷ []

-- `websocket_server_close_expired_connection`
unfoldable pub close_expired : Endian → Conn → Net → Conn × Net
close_expired e c net =
    let (done, c', net') = close_with_code e c net close_normal idle_timeout_text in
    if c.upgraded then (c', net') else close_socket c net

-- The end of the function, behind the `send_frame` of the ping.
abbrev pub after_ping : Endian → ℕ → Outcome → Outcome
after_ping e now (true, c, net) =
    (true, record c { awaiting_pong = true; last_ping_usec = now }, net)
after_ping e now (false, c, net) = close_with_code e c net close_normal heartbeat_failed_text

-- `websocket_server_process_heartbeat`
unfoldable pub process_heartbeat : Endian → Options → Conn → Net → ℕ → Outcome
process_heartbeat e o c net now =
    if ping_interval_usec o == 0
      || now == 0
      || not c.open_state
      || not c.upgraded
      || c.close_after_write
    then (true, c, net)
    else if c.awaiting_pong
    then (if ltb 0 c.last_ping_usec
          && leb c.last_ping_usec now
          && leb (pong_timeout_usec o) (now - c.last_ping_usec)
        then close_with_code e c net close_normal pong_timeout_text
        else (true, c, net))
    else if last_activity c == 0
        || ltb now (last_activity c)
        || ltb (now - last_activity c) (ping_interval_usec o)
    then (true, c, net)
    else after_ping e now (send_frame e c net [] opcode_ping)
