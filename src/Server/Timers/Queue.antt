-- ===== src/Server/Timers/Queue.antt =====
-- The operations on a connection, the heartbeat's included, keep its write queue sound.
use php_websocket.Base.{
  ℕ, ◌-◌, true, false, not, ◌&&◌, ◌||◌, Option, none, some, [], Bytes, ltb, leb, ◌==◌, is_some,
  Bool-cases, inl, inr,
}
use php_websocket.Base.Int.{ℤ, pos}
use php_websocket.Protocol.Opcode.{opcode_close, opcode_ping, flag_fin}
use php_websocket.Protocol.Mask.{Endian}
use php_websocket.Protocol.Frame.{pack_payload}
use php_websocket.Protocol.Close.{close_payload}
use php_websocket.Protocol.Result.{Result, ok, err}
use php_websocket.Connection.State.{Net, Conn, Outcome}
use php_websocket.Connection.Queue.{has_pending_writes, close_after_write}
use php_websocket.Connection.Send.{send_frame, send_some, send_checked, send_close_frame}
use php_websocket.Connection.Sound.{IsQueue, close_socket-IsQueue}
use php_websocket.Connection.Sent.{send_packed-Sends}
use php_websocket.Server.Messages.{close_with_code}
use php_websocket.Server.Timers.{
  Options, process_heartbeat, after_ping, last_activity, ping_interval_usec, pong_timeout_usec,
}

send_some-IsQueue :
    (c : Conn) (net : Net) (r : Option Bytes) → IsQueue c → IsQueue (send_some c net r).1
send_some-IsQueue c net none q = q
send_some-IsQueue c net (some frame) q = (send_packed-Sends c net frame q).0

pub send_frame-IsQueue :
    (e : Endian) (c : Conn) (net : Net) (payload : Bytes) (opcode : ℕ)
    → IsQueue c
    → IsQueue (send_frame e c net payload opcode).1
unfolding send_frame
send_frame-IsQueue e c net payload opcode q =
    elim (Bool-cases
      (not c.open_state || c.close_after_write || not c.upgraded || not (is_some c.fd))) [
        | inl t ↦ rw t q
        | inr t ↦ rw t (send_some-IsQueue c net (pack_payload e none payload opcode flag_fin) q)
      ]

send_checked-IsQueue :
    (e : Endian) (c : Conn) (net : Net) (r : Result Bytes)
    → IsQueue c
    → IsQueue (send_checked e c net r).1
send_checked-IsQueue e c net (err x) q = q
send_checked-IsQueue e c net (ok payload) q = send_frame-IsQueue e c net payload opcode_close q

pub send_close_frame-IsQueue :
    (e : Endian) (c : Conn) (net : Net) (code : ℤ) (reason : Bytes)
    → IsQueue c
    → IsQueue (send_close_frame e c net code reason).1
unfolding send_close_frame
send_close_frame-IsQueue e c net code reason q =
    elim (Bool-cases (not c.open_state || not c.upgraded || not (is_some c.fd))) [
      | inl t ↦ rw t q
      | inr t ↦ rw t (send_checked-IsQueue e c net (close_payload code reason) q)
    ]

pub close_after_write-IsQueue :
    (c : Conn) (net : Net) → IsQueue c → IsQueue (close_after_write c net).0
unfolding close_after_write
close_after_write-IsQueue c net q = elim (Bool-cases (not c.open_state)) [
  | inl o ↦ rw o q
  | inr o ↦ elim (Bool-cases (not (has_pending_writes c))) [
    | inl h ↦ rw (o, h) (close_socket-IsQueue c net q.2)
    | inr h ↦ rw (o, h) q
  ]
]

pub close_with_code-IsQueue :
    (e : Endian) (c : Conn) (net : Net) (code : ℕ) (reason : Bytes)
    → IsQueue c
    → IsQueue (close_with_code e c net code reason).1
unfolding close_with_code
close_with_code-IsQueue e c net code reason q =
    let closing = send_close_frame e c net (pos code) reason in
    let p = send_close_frame-IsQueue e c net (pos code) reason q in
    elim (Bool-cases closing.0) [
      | inl t ↦ rw t (close_after_write-IsQueue closing.1 closing.2 p)
      | inr t ↦ rw t (close_socket-IsQueue closing.1 closing.2 p.2)
    ]

after_ping-IsQueue :
    (e : Endian) (now : ℕ) (o : Outcome) → IsQueue o.1 → IsQueue (after_ping e now o).1
after_ping-IsQueue e now (true, c, net) q = q
after_ping-IsQueue e now (false, c, net) q = close_with_code-IsQueue e c net _ _ q

pub process_heartbeat-IsQueue :
    (e : Endian) (o : Options) (c : Conn) (net : Net) (now : ℕ)
    → IsQueue c
    → IsQueue (process_heartbeat e o c net now).1
unfolding process_heartbeat
process_heartbeat-IsQueue e o c net now q =
    let calm = record c { awaiting_pong = false } in
    elim (Bool-cases (
      ping_interval_usec o == 0
      || now == 0
      || not c.open_state
      || not c.upgraded
      || c.close_after_write)) [
        | inl a ↦ rw a q
        | inr a ↦ elim (Bool-cases c.awaiting_pong) [
          | inl b ↦
              elim (Bool-cases (
                ltb 0 c.last_ping_usec
                && leb c.last_ping_usec now
                && leb (pong_timeout_usec o) (now - c.last_ping_usec))) [
                  | inl d ↦
                      rw (a, b, d)
                        (close_with_code-IsQueue e (record c { awaiting_pong = true }) net _ _ q)
                  | inr d ↦ rw (a, b, d) q
                ]
          | inr b ↦
              elim (Bool-cases (
                last_activity c == 0
                || ltb now (last_activity c)
                || ltb (now - last_activity c) (ping_interval_usec o))) [
                  | inl d ↦ rw (a, b, d) q
                  | inr d ↦
                      rw (a, b, d)
                        (after_ping-IsQueue e now (send_frame e calm net [] opcode_ping)
                          (send_frame-IsQueue e calm net [] opcode_ping q))
                ]
        ]
      ]
