-- ===== src/Server/Reachable.antt =====
-- The operations that touch a write queue, as steps from a new connection.
use php_websocket.Base.{
  ℕ, ◌≡◌, refl, true, false, not, ◌&&◌, ◌||◌, Option, Bytes, length, ltb, leb, ◌==◌, Bool-cases,
  inl, inr, arith,
}
use php_websocket.Base.Int.{ℤ, pos}
use php_websocket.Protocol.Opcode.{
  MessageType, opcode_text, opcode_continuation, opcode_is_control, close_code_is_valid,
  close_reason_max_len,
}
use php_websocket.Protocol.Utf8.{is_valid_utf8}
use php_websocket.Protocol.Mask.{Endian}
use php_websocket.Protocol.Frame.{opcode_or_text}
use php_websocket.Connection.State.{
  Net, Conn, Outcome, new_conn, connection_open, clear_write_queue, close_socket,
}
use php_websocket.Connection.Queue.{flush}
use php_websocket.Connection.Send.{send_frame, send_close_frame}
use php_websocket.Connection.Methods.{send, close, close_checked, after_send, or_normal, or_empty}
use php_websocket.Connection.Sound.{IsQueue, flush-keeps, close_socket-IsQueue}
use php_websocket.Server.Messages.{close_with_code, discard_read_bytes}
use php_websocket.Http.Upgrade.{Upgrade}
use php_websocket.Server.Handshake.{is_handshaking, upgraded_conn}
use php_websocket.Server.Timers.{Options, process_heartbeat}
use php_websocket.Server.Timers.Queue.{
  send_frame-IsQueue, send_close_frame-IsQueue, close_after_write-IsQueue, close_with_code-IsQueue,
  process_heartbeat-IsQueue,
}

after_send-IsQueue : (o : Outcome) → IsQueue o.1 → IsQueue (after_send o).1
after_send-IsQueue (true, c, net) q = q
after_send-IsQueue (false, c, net) q = q

send-IsQueue :
    (e : Endian) (c : Conn) (net : Net) (payload : Bytes) (type : Option MessageType)
    → IsQueue c
    → IsQueue (send e c net payload type).1
unfolding send
send-IsQueue e c net payload type q =
    let op = opcode_or_text type in
    elim (Bool-cases (not c.open_state || c.close_after_write)) [
      | inl a ↦ rw a q
      | inr a ↦ elim (Bool-cases (not c.upgraded)) [
        | inl b ↦ rw (a, b) q
        | inr b ↦ elim (Bool-cases (op == opcode_continuation)) [
          | inl d ↦ rw (a, b, d) q
          | inr d ↦ elim (Bool-cases (opcode_is_control (pos op) && ltb 125 (length payload))) [
            | inl f ↦ rw (a, b, d, f) q
            | inr f ↦ elim (Bool-cases (op == opcode_text && not (is_valid_utf8 payload))) [
              | inl g ↦ rw (a, b, d, f, g) q
              | inr g ↦
                  rw (a, b, d, f, g)
                    (after_send-IsQueue (send_frame e c net payload op)
                      (send_frame-IsQueue e c net payload op q))
            ]
          ]
        ]
      ]
    ]

close_checked-IsQueue :
    (e : Endian) (c : Conn) (net : Net) (code : ℤ) (reason : Bytes)
    → IsQueue c
    → IsQueue (close_checked e c net code reason).0
unfolding close_checked
close_checked-IsQueue e c net code reason q =
    let here = record c { defer_close = false } in
    let closing = send_close_frame e here net code reason in
    let p = send_close_frame-IsQueue e here net code reason q in
    elim (Bool-cases c.defer_close) [
      | inl d ↦ rw d q
      | inr d ↦ elim (Bool-cases (c.open_state && c.upgraded)) [
        | inl o ↦ rw (d, o) (close_after_write-IsQueue closing.1 closing.2 p)
        | inr o ↦ rw (d, o) (close_after_write-IsQueue here net q)
      ]
    ]

close-IsQueue :
    (e : Endian) (c : Conn) (net : Net) (code : Option ℤ) (reason : Option Bytes)
    → IsQueue c
    → IsQueue (close e c net code reason).1
unfolding close
close-IsQueue e c net code reason q =
    elim (Bool-cases (not (close_code_is_valid (or_normal code)))) [
      | inl a ↦ rw a q
      | inr a ↦ elim (Bool-cases (ltb close_reason_max_len (length (or_empty reason)))) [
        | inl b ↦ rw (a, b) q
        | inr b ↦ elim (Bool-cases (not (is_valid_utf8 (or_empty reason)))) [
          | inl d ↦ rw (a, b, d) q
          | inr d ↦
              rw (a, b, d) (close_checked-IsQueue e c net (or_normal code) (or_empty reason) q)
        ]
      ]
    ]

-- `websocket_connection_open`, with the limit that the server sets behind it.
abbrev pub opened : Conn → ℕ → ℕ → Net → ℕ → Conn
opened c id fd net limit = record (connection_open c id fd net).0 { max_queued_bytes = limit }

opened-IsQueue :
    (c : Conn) (id fd : ℕ) (net : Net) (limit : ℕ) → IsQueue c → IsQueue (opened c id fd net limit)
unfolding connection_open clear_write_queue
opened-IsQueue c id fd net limit q = ((refl, tt), omega arith, omega arith)

upgraded-IsQueue : (c : Conn) (u : Upgrade) → IsQueue c → IsQueue (upgraded_conn c u)
unfolding discard_read_bytes
upgraded-IsQueue c u q = elim (Bool-cases (leb (length c.read_buffer) u.bytes_consumed)) [
  | inl t ↦ rw t q
  | inr t ↦ rw t q
]

-- A connection that some sequence of operations makes of a new one, the upgrade of the handshake
-- included, whatever the kernel and the
-- driver answer to each of them.
pub data Reachable (e : Endian) : Conn → Type 0 where
  created : Reachable e new_conn
  opens :
      {c : Conn} (id fd : ℕ) (net : Net) (limit : ℕ)
      → Reachable e c
      → Reachable e (opened c id fd net limit)
  upgrades :
      {c : Conn} (u : Upgrade)
      → is_handshaking c ≡ true
      → Reachable e c
      → Reachable e (upgraded_conn c u)
  sends :
      {c : Conn} (net : Net) (payload : Bytes) (type : Option MessageType)
      → Reachable e c
      → Reachable e (send e c net payload type).1
  replies :
      {c : Conn} (net : Net) (payload : Bytes) (opcode : ℕ)
      → Reachable e c
      → Reachable e (send_frame e c net payload opcode).1
  closes :
      {c : Conn} (net : Net) (code : Option ℤ) (reason : Option Bytes)
      → Reachable e c
      → Reachable e (close e c net code reason).1
  fails :
      {c : Conn} (net : Net) (code : ℕ) (reason : Bytes)
      → Reachable e c
      → Reachable e (close_with_code e c net code reason).1
  flushes : {c : Conn} (net : Net) → Reachable e c → Reachable e (flush c net).1
  beats :
      {c : Conn} (o : Options) (net : Net) (now : ℕ)
      → Reachable e c
      → Reachable e (process_heartbeat e o c net now).1
  drops : {c : Conn} (net : Net) → Reachable e c → Reachable e (close_socket c net).0

-- In every connection that its operations reach, the upgrade included, `queued_bytes` is the number of bytes owed, it
-- is at most `max_queued_bytes`, and the frames fit into the array allocated for them.
pub Reachable-IsQueue : (e : Endian) (c : Conn) → Reachable e c → IsQueue c
Reachable-IsQueue e _ created = ((refl, tt), omega arith, omega arith)
Reachable-IsQueue e _ (opens {c = c} id fd net limit r) =
    opened-IsQueue c id fd net limit (Reachable-IsQueue e c r)
Reachable-IsQueue e _ (upgrades {c = c} u h r) = upgraded-IsQueue c u (Reachable-IsQueue e c r)
Reachable-IsQueue e _ (sends {c = c} net payload type r) =
    send-IsQueue e c net payload type (Reachable-IsQueue e c r)
Reachable-IsQueue e _ (replies {c = c} net payload opcode r) =
    send_frame-IsQueue e c net payload opcode (Reachable-IsQueue e c r)
Reachable-IsQueue e _ (closes {c = c} net code reason r) =
    close-IsQueue e c net code reason (Reachable-IsQueue e c r)
Reachable-IsQueue e _ (fails {c = c} net code reason r) =
    close_with_code-IsQueue e c net code reason (Reachable-IsQueue e c r)
Reachable-IsQueue e _ (flushes {c = c} net r) = (flush-keeps c net (Reachable-IsQueue e c r)).0
Reachable-IsQueue e _ (beats {c = c} o net now r) =
    process_heartbeat-IsQueue e o c net now (Reachable-IsQueue e c r)
Reachable-IsQueue e _ (drops {c = c} net r) = close_socket-IsQueue c net (Reachable-IsQueue e c r).2
