-- ===== src/Server/Messages/Steady.antt =====
-- Sending and closing leave what was received alone.
use php_websocket.Base.{
  ℕ, ◌-◌, ◌≡◌, refl, Bool, true, false, not, ◌&&◌, ◌||◌, Option, none, some, List, [], ◌∷◌, Bytes,
  length, ltb, is_some, if◌then◌else◌, Bool-cases, ◌⊎◌, inl, inr,
}
use php_websocket.Base.Int.{ℤ, pos}
use php_websocket.Protocol.Opcode.{opcode_close, flag_fin}
use php_websocket.Protocol.Mask.{Endian}
use php_websocket.Protocol.Frame.{pack_payload}
use php_websocket.Protocol.Close.{close_payload}
use php_websocket.Protocol.Result.{Result, ok, err}
use php_websocket.Connection.State.{
  Errno, Net, Conn, Outcome, clear_write_queue, close_socket, tell, watch_write,
}
use php_websocket.Connection.Queue.{
  Wrote, write_some, after_write, has_pending_writes, queue_frame, push_frame,
  ensure_write_capacity, start_watch, watched, close_after_write,
}
use php_websocket.Connection.Send.{
  settle, queue_rest, send_packed, send_some, send_frame, send_checked, send_close_frame,
}
use php_websocket.Server.Messages.{close_with_code}

-- The bytes read stay, and the fragments of a message stay or are dropped.
abbrev pub Steady : Conn → Conn → Type 0
Steady c c' =
    (c'.read_buffer ≡ c.read_buffer)
    × ((c'.fragmented_payload ≡ c.fragmented_payload) ⊎ (c'.fragmented_payload ≡ none))

abbrev SteadyAt : Conn → Outcome → Type 0
SteadyAt c o = Steady c o.1

same : (c : Conn) → Steady c c
same c = (refl, inl refl)

if_Steady :
    (test : Bool) (c : Conn) (a b : Outcome)
    → SteadyAt c a
    → SteadyAt c b
    → SteadyAt c (if test then a else b)
if_Steady true c a b p q = p
if_Steady false c a b p q = q

watched-Steady :
    (answers : List (Option Errno)) (c d : Conn) (net : Net)
    → Steady c d
    → SteadyAt c (watched answers d net)
watched-Steady [] c d net p = p
watched-Steady (none ∷ rest) c d net p = p
watched-Steady (some x ∷ rest) c d net p = p

start_watch-Steady : (c d : Conn) (net : Net) → Steady c d → SteadyAt c (start_watch d net)
unfolding start_watch
start_watch-Steady c d net p =
    if_Steady d.write_watched c _ _ p (watched-Steady net.watches c d (tell net d.fd watch_write) p)

push_frame-Steady : (c : Conn) (frame : Bytes) (offset : ℕ) → Steady c (push_frame c frame offset)
unfolding push_frame ensure_write_capacity
push_frame-Steady c frame offset =
    elim (Bool-cases (ltb (length c.write_queue) c.write_queue_capacity)) [
      | inl t ↦ rw t (refl, inl refl)
      | inr t ↦ rw t (refl, inl refl)
    ]

queue_frame-Steady :
    (c : Conn) (net : Net) (frame : Bytes) (offset : ℕ)
    → SteadyAt c (queue_frame c net frame offset)
unfolding queue_frame
queue_frame-Steady c net frame offset =
    let n = length frame - offset in
    if_Steady (ltb c.max_queued_bytes n || ltb (c.max_queued_bytes - n) c.queued_bytes) c _ _
      (same c)
      (start_watch-Steady c (push_frame c frame offset) net (push_frame-Steady c frame offset))

settle-Steady : (c : Conn) (o : Outcome) → SteadyAt c o → SteadyAt c (settle o)
unfolding settle
settle-Steady c (ok', c', net') p = if_Steady _ c _ _ p p

queue_rest-Steady :
    (c : Conn) (net : Net) (frame : Bytes) (w : Wrote) → SteadyAt c (queue_rest c net frame w)
unfolding queue_rest
queue_rest-Steady c net frame w = elim (Bool-cases (w.done && ltb w.offset (length frame))) [
  | inl t ↦ rw t (queue_frame-Steady c (after_write net w) frame w.offset)
  | inr t ↦ rw t (same c)
]

send_packed-Steady : (c : Conn) (net : Net) (frame : Bytes) → SteadyAt c (send_packed c net frame)
unfolding send_packed
send_packed-Steady c net frame = elim (Bool-cases (ltb c.max_queued_bytes (length frame))) [
  | inl l ↦ rw l (same c)
  | inr l ↦ elim (Bool-cases (has_pending_writes c)) [
    | inl h ↦
        rw (l, h) (settle-Steady c (queue_frame c net frame 0) (queue_frame-Steady c net frame 0))
    | inr h ↦
        let w = write_some frame 0 net in
        rw (l, h) (settle-Steady c (queue_rest c net frame w) (queue_rest-Steady c net frame w))
  ]
]

send_some-Steady : (c : Conn) (net : Net) (o : Option Bytes) → SteadyAt c (send_some c net o)
send_some-Steady c net none = same c
send_some-Steady c net (some frame) = send_packed-Steady c net frame

pub send_frame-Steady :
    (e : Endian) (c : Conn) (net : Net) (payload : Bytes) (opcode : ℕ)
    → SteadyAt c (send_frame e c net payload opcode)
unfolding send_frame
send_frame-Steady e c net payload opcode =
    elim (Bool-cases
      (not c.open_state || c.close_after_write || not c.upgraded || not (is_some c.fd))) [
        | inl t ↦ rw t (same c)
        | inr t ↦ rw t (send_some-Steady c net (pack_payload e none payload opcode flag_fin))
      ]

send_checked-Steady :
    (e : Endian) (c : Conn) (net : Net) (r : Result Bytes) → SteadyAt c (send_checked e c net r)
send_checked-Steady e c net (err x) = same c
send_checked-Steady e c net (ok payload) = send_frame-Steady e c net payload opcode_close

send_close_frame-Steady :
    (e : Endian) (c : Conn) (net : Net) (code : ℤ) (reason : Bytes)
    → SteadyAt c (send_close_frame e c net code reason)
unfolding send_close_frame
send_close_frame-Steady e c net code reason =
    elim (Bool-cases (not c.open_state || not c.upgraded || not (is_some c.fd))) [
      | inl t ↦ rw t (same c)
      | inr t ↦ rw t (send_checked-Steady e c net (close_payload code reason))
    ]

pub close_socket-Steady : (c d : Conn) (net : Net) → Steady c d → Steady c (close_socket d net).0
unfolding close_socket clear_write_queue
close_socket-Steady c d net p = (p.0, inr refl)

pub close_after_write-Steady :
    (c d : Conn) (net : Net) → Steady c d → Steady c (close_after_write d net).0
unfolding close_after_write
close_after_write-Steady c d net p = elim (Bool-cases (not d.open_state)) [
  | inl o ↦ rw o p
  | inr o ↦ elim (Bool-cases (not (has_pending_writes d))) [
    | inl h ↦ rw (o, h) (close_socket-Steady c d net p)
    | inr h ↦ rw (o, h) p
  ]
]

pub close_with_code-Steady :
    (e : Endian) (c : Conn) (net : Net) (code : ℕ) (reason : Bytes)
    → SteadyAt c (close_with_code e c net code reason)
unfolding close_with_code
close_with_code-Steady e c net code reason =
    let closing = send_close_frame e c net (pos code) reason in
    let p = send_close_frame-Steady e c net (pos code) reason in
    elim (Bool-cases closing.0) [
      | inl t ↦ rw t (close_after_write-Steady c closing.1 closing.2 p)
      | inr t ↦ rw t (close_socket-Steady c closing.1 closing.2 p)
    ]
