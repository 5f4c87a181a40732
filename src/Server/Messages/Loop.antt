-- ===== src/Server/Messages/Loop.antt =====
-- The loop over the read buffer: it ends, and it delivers proper messages only.
use php_websocket.Base.{
  ℕ, zero, suc, ◌-◌, ◌<◌, ◌≡◌, refl, ap, ◌∙◌, true, false, ◌&&◌, ◌||◌, Option, none, some, Bytes,
  All, length, leb, length-drop, ◌==◌, Bool-cases, inl, inr, arith,
}
use php_websocket.Base.Int.{pos}
use php_websocket.Protocol.Opcode.{
  opcode_text, opcode_binary, opcode_continuation, opcode_ping, opcode_pong, opcode_close,
  opcode_is_control,
}
use php_websocket.Protocol.Mask.{Endian}
use php_websocket.Connection.State.{Conn, close_socket}
use php_websocket.Connection.Queue.{close_after_write}
use php_websocket.Connection.Send.{send_frame}
use php_websocket.Server.Frames.{
  ServerFrame, FrameStatus, frame_ok, incomplete, message_too_big, invalid_payload, protocol_error,
}
use php_websocket.Server.Frames.Bounds.{IsWithin, Within, parse_frame-Within}
use php_websocket.Server.Messages.{
  Handler, Session, Answer, clear_fragment, handle_close, handle_frame, discard_read_bytes,
  has_frames, Round, returns, continues, or_return, on_status, frame_round, and_then,
  process_buffered_frames,
}
use php_websocket.Server.Messages.Steady.{
  send_frame-Steady, close_socket-Steady, close_after_write-Steady,
}
use php_websocket.Server.Messages.Delivered.{
  IsDelivered, Gathers, UsesMethods, Sound, Gathers-Steady, fail_session-Sound,
  handle_data_frame-Sound,
}

handle_close-Sound :
    (e : Endian) (max : ℕ) (s : Session) (f : ServerFrame)
    → All (IsDelivered max) s.log
    → Sound max s.conn.read_buffer (handle_close e s f)
unfolding handle_close
handle_close-Sound e max s f p =
    let replied = send_frame e s.conn s.net f.payload opcode_close in
    let kept = send_frame-Steady e s.conn s.net f.payload opcode_close in
    let c1 = clear_fragment replied.1 in
    let c2 = clear_fragment s.conn in
    let later = close_after_write-Steady c1 c1 replied.2 (refl, inl refl) in
    let gone = close_socket-Steady c1 c1 replied.2 (refl, inl refl) in
    let plain = close_after_write-Steady c2 c2 s.net (refl, inl refl) in
    elim (Bool-cases (s.conn.open_state && s.conn.upgraded)) [
      | inr t ↦
          rw t
            (p, Gathers-Steady max c2 (close_after_write c2 s.net).0 plain (omega arith), plain.0)
      | inl t ↦ elim (Bool-cases replied.0) [
        | inl u ↦
            rw (t, u)
              (
                p,
                Gathers-Steady max c1 (close_after_write c1 replied.2).0 later (omega arith),
                later.0 ∙ kept.0,
              )
        | inr u ↦
            rw (t, u)
              (
                p,
                Gathers-Steady max c1 (close_socket c1 replied.2).0 gone (omega arith),
                gone.0 ∙ kept.0,
              )
      ]
    ]

not_control :
    (opcode : ℕ)
    → (opcode == opcode_text || opcode == opcode_binary || opcode == opcode_continuation) ≡ true
    → opcode_is_control (pos opcode) ≡ false
unfolding opcode_is_control
not_control opcode h = ground arith

handle_frame-Sound :
    (e : Endian) (max len : ℕ) (handler : Handler) (s : Session) (f : ServerFrame)
    → UsesMethods handler
    → All (IsDelivered max) s.log
    → Gathers max s.conn
    → IsWithin max len f
    → Sound max s.conn.read_buffer (handle_frame e max handler s f)
unfolding handle_frame
handle_frame-Sound e max len handler s f h p g w =
    elim (Bool-cases
      (f.opcode == opcode_text || f.opcode == opcode_binary || f.opcode == opcode_continuation)) [
        | inl d ↦
            rw d (handle_data_frame-Sound e max handler s f h p g (w.2 (not_control f.opcode d)))
        | inr d ↦ elim (Bool-cases (f.opcode == opcode_ping)) [
          | inl i ↦
              let kept = send_frame-Steady e s.conn s.net f.payload opcode_pong in
              rw (d, i)
                (
                  p,
                  Gathers-Steady max s.conn (send_frame e s.conn s.net f.payload opcode_pong).1 kept
                      g,
                  kept.0,
                )
          | inr i ↦ elim (Bool-cases (f.opcode == opcode_pong)) [
            | inl o ↦ rw (d, i, o) (p, g, refl)
            | inr o ↦ elim (Bool-cases (f.opcode == opcode_close)) [
              | inl c ↦ rw (d, i, o, c) (handle_close-Sound e max s f p)
              | inr c ↦ rw (d, i, o, c) (fail_session-Sound e max s s.conn _ _ p g)
            ]
          ]
        ]
      ]

length-discard_read_bytes :
    (c : Conn) (n : ℕ) → length (discard_read_bytes c n).read_buffer ≡ length c.read_buffer - n
unfolding discard_read_bytes
length-discard_read_bytes c n = elim (Bool-cases (leb (length c.read_buffer) n)) [
  | inl t ↦ rw t (ground arith)
  | inr t ↦ rw t (length-drop n c.read_buffer)
]

discard_read_bytes-Gathers :
    (max : ℕ) (c : Conn) (n : ℕ) → Gathers max c → Gathers max (discard_read_bytes c n)
unfolding discard_read_bytes
discard_read_bytes-Gathers max c n g = elim (Bool-cases (leb (length c.read_buffer) n)) [
  | inl t ↦ rw t g
  | inr t ↦ rw t g
]

-- What holds in every round: the messages are proper, and the fragments are within the limit.
abbrev pub Proper : ℕ → Session → Type 0
Proper max s = All (IsDelivered max) s.log × Gathers max s.conn

-- A round leaves a proper session, and if the loop goes on, the buffer is shorter than `len`.
abbrev Turned : ℕ → ℕ → Round → Type 0
Turned max len (returns a) = Proper max a.1
Turned max len (continues s) = Proper max s × (length s.conn.read_buffer < len)

or_return-Turned :
    (max len : ℕ) (buffer : Bytes) (a : Answer)
    → Sound max buffer a
    → length buffer < len
    → Turned max len (or_return a)
or_return-Turned max len buffer (true, s) (p, g, b) h = ((p, g), omega (arith, ap length b))
or_return-Turned max len buffer (false, s) (p, g, b) h = (p, g)

on_status-Turned :
    (e : Endian) (max : ℕ) (handler : Handler) (s : Session) (status : FrameStatus)
    → UsesMethods handler
    → Proper max s
    → Within max (length s.conn.read_buffer) status
    → Turned max (length s.conn.read_buffer) (on_status e max handler s status)
on_status-Turned e max handler s incomplete h p w = p
on_status-Turned e max handler s message_too_big h p w =
    let q = fail_session-Sound e max s (clear_fragment s.conn) _ _ p.0 (omega arith) in (q.0, q.1)
on_status-Turned e max handler s invalid_payload h p w =
    let q = fail_session-Sound e max s (clear_fragment s.conn) _ _ p.0 (omega arith) in (q.0, q.1)
on_status-Turned e max handler s protocol_error h p w =
    let q = fail_session-Sound e max s (clear_fragment s.conn) _ _ p.0 (omega arith) in (q.0, q.1)
on_status-Turned e max handler s (frame_ok f) h p w =
    let c = discard_read_bytes s.conn f.bytes_consumed in
    let shorter : length c.read_buffer < length s.conn.read_buffer =
      omega (arith, w.0, w.1, length-discard_read_bytes s.conn f.bytes_consumed) in
    or_return-Turned max (length s.conn.read_buffer) c.read_buffer _
      (handle_frame-Sound e max (length s.conn.read_buffer) handler (record s { conn = c }) f h p.0
        (discard_read_bytes-Gathers max s.conn f.bytes_consumed p.1) w)
      shorter

frame_round-Turned :
    (e : Endian) (max : ℕ) (handler : Handler) (s : Session)
    → UsesMethods handler
    → Proper max s
    → Turned max (length s.conn.read_buffer) (frame_round e max handler s)
unfolding frame_round
frame_round-Turned e max handler s h p = elim (Bool-cases (has_frames s.conn)) [
  | inl t ↦
      rw t (on_status-Turned e max handler s _ h p (parse_frame-Within max s.conn.read_buffer))
  | inr t ↦ rw t p
]

-- A result is there, and it is proper.
abbrev pub Ends : ℕ → Option Answer → Type 0
Ends max none = ⊥
Ends max (some a) = Proper max a.1

and_then-Ends :
    (max len : ℕ) (rest : Session → Option Answer) (r : Round)
    → Turned max len r
    → ((s : Session) → Proper max s → length s.conn.read_buffer < len → Ends max (rest s))
    → Ends max (and_then rest r)
and_then-Ends max len rest (returns a) t h = t
and_then-Ends max len rest (continues s) t h = h s t.0 t.1

-- If the handler reaches the connection through its methods only, then with more fuel than there
-- are bytes in the read buffer the loop ends with a result; every message that the handler has
-- been called with is within `max_message_size`, a text message is valid UTF-8, and the fragments
-- kept are within the limit.
pub process_buffered_frames-Ends :
    (fuel : ℕ) (e : Endian) (max_message_size : ℕ) (handler : Handler) (s : Session)
    → UsesMethods handler
    → Proper max_message_size s
    → length s.conn.read_buffer < fuel
    → Ends max_message_size (process_buffered_frames fuel e max_message_size handler s)
unfolding process_buffered_frames
process_buffered_frames-Ends zero e max handler s h p l = absurd (omega arith)
process_buffered_frames-Ends (suc fuel) e max handler s h p l =
    and_then-Ends max (length s.conn.read_buffer) (process_buffered_frames fuel e max handler)
      (frame_round e max handler s) (frame_round-Turned e max handler s h p)
      (λ s' p' l'. process_buffered_frames-Ends fuel e max handler s' h p' (omega arith))
