-- ===== src/Server/Messages/Delivered.antt =====
-- Which messages the handler is called with, and that the loop over the read buffer ends.
use php_websocket.Base.{
  ℕ, ◌-◌, ◌≤◌, ◌≡◌, refl, sym, subst, Bool, true, false, not, ◌&&◌, ◌||◌, Option, none, some, List,
  [], ◌∷◌, ◌++◌, Bytes, All, length, length-append, ltb, ◌==◌, Bool-cases, inl, inr, arith,
}
use php_websocket.Protocol.Opcode.{
  close_invalid_payload, opcode_text, opcode_continuation, MessageType, message_type_from_opcode,
}
use php_websocket.Protocol.Utf8.{is_valid_utf8}
use php_websocket.Protocol.Mask.{Endian}
use php_websocket.Connection.State.{Net, Conn, Outcome}
use php_websocket.Server.Frames.{ServerFrame}
use php_websocket.Server.Messages.{
  Message, Handler, Session, Answer, call_typed, call_message_handler, clear_fragment, or_empty,
  append_fragment, clear_after, fail_session, continue_message, handle_data_frame, close_with_code,
  invalid_utf8_text,
}
use php_websocket.Server.Messages.Steady.{Steady, close_with_code-Steady}

-- A message that may be delivered: it is within the limit, and a text is valid UTF-8.
abbrev pub IsDelivered : ℕ → Message → Type 0
IsDelivered max m =
    (length m.payload ≤ max) × (m.opcode ≡ opcode_text → is_valid_utf8 m.payload ≡ true)

-- The fragments gathered so far are within the limit.
abbrev pub Gathers : ℕ → Conn → Type 0
Gathers max c = length (or_empty c.fragmented_payload) ≤ max

-- Handlers reach the connection through its methods only, which do not touch what was received.
abbrev pub UsesMethods : Handler → Type 0
UsesMethods none = Unit
UsesMethods (some handler) = (m : Message) (c : Conn) (net : Net) → Steady c (handler m c net).1

-- What holds behind a step that began with the read buffer given.
abbrev pub Sound : ℕ → Bytes → Answer → Type 0
Sound max buffer (ok', s) =
    All (IsDelivered max) s.log × Gathers max s.conn × (s.conn.read_buffer ≡ buffer)

pub Gathers-Steady : (max : ℕ) (c c' : Conn) → Steady c c' → Gathers max c → Gathers max c'
Gathers-Steady max c c' (b, inl e) g = subst (λ p. length (or_empty p) ≤ max) (sym e) g
Gathers-Steady max c c' (b, inr e) g = subst (λ p. length (or_empty p) ≤ max) (sym e) (omega arith)

All-snoc :
    (max : ℕ) (log : List Message) (m : Message)
    → All (IsDelivered max) log
    → IsDelivered max m
    → All (IsDelivered max) (log ++ (m ∷ []))
All-snoc max [] m p q = (q, tt)
All-snoc max (x ∷ log) m p q = (p.0, All-snoc max log m p.1 q)

pub fail_session-Sound :
    (e : Endian) (max : ℕ) (s : Session) (c : Conn) (code : ℕ) (reason : Bytes)
    → All (IsDelivered max) s.log
    → Gathers max c
    → Sound max c.read_buffer (fail_session e s c code reason)
fail_session-Sound e max s c code reason p g =
    let steady = close_with_code-Steady e c s.net code reason in
    (p, Gathers-Steady max c (close_with_code e c s.net code reason).1 steady g, steady.0)

module _ (max : ℕ) (s : Session) (payload : Bytes) (opcode : ℕ) (p : All (IsDelivered max) s.log)
    (g : Gathers max s.conn) (l : length payload ≤ max)
    (u : (opcode == opcode_text && not (is_valid_utf8 payload)) ≡ false) where
  call_typed-Sound :
      (handler : Message → Conn → Net → Outcome) (t : Option MessageType)
      → UsesMethods (some handler)
      → Sound max s.conn.read_buffer (call_typed handler s payload opcode t)
  call_typed-Sound handler none h = (p, g, refl)
  call_typed-Sound handler (some type) h =
      let m : Message = record { payload = payload; opcode = opcode; type = type } in
      let steady = h m s.conn s.net in
      (
        All-snoc max s.log m p (l, λ t. ground (arith, u, t)),
        Gathers-Steady max s.conn (handler m s.conn s.net).1 steady g,
        steady.0,
      )

  call_message_handler-Sound :
      (handler : Handler)
      → UsesMethods handler
      → Sound max s.conn.read_buffer (call_message_handler handler s payload opcode)
  unfolding call_message_handler
  call_message_handler-Sound none h = (p, g, refl)
  call_message_handler-Sound (some handler) h =
      call_typed-Sound handler (message_type_from_opcode opcode) h

clear_after-Sound :
    (max : ℕ) (buffer : Bytes) (a : Answer) → Sound max buffer a → Sound max buffer (clear_after a)
clear_after-Sound max buffer (ok', s) (p, g, b) = (p, omega arith, b)

-- What `append_fragment` returns is within the limit, and leaves the read buffer alone.
abbrev Appended : ℕ → Conn → Option Conn → Type 0
Appended max c none = Unit
Appended max c (some c') = Gathers max c' × (c'.read_buffer ≡ c.read_buffer)

append_fragment-lem :
    (c : Conn) (payload : Bytes) (max : ℕ) → Appended max c (append_fragment c payload max)
unfolding append_fragment
append_fragment-lem c payload max =
    let current = or_empty c.fragmented_payload in
    let n = length payload in
    elim (Bool-cases (ltb max n || ltb (max - n) (length current))) [
      | inl t ↦ rw t tt
      | inr t ↦ rw t (ground (arith, length-append current payload), refl)
    ]

continue_message-Sound :
    (e : Endian) (max : ℕ) (handler : Handler) (s : Session) (final : Bool) (r : Option Conn)
    → UsesMethods handler
    → All (IsDelivered max) s.log
    → Appended max s.conn r
    → Sound max s.conn.read_buffer (continue_message e handler s final r)
unfolding continue_message
continue_message-Sound e max handler s final none h p a =
    fail_session-Sound e max s (clear_fragment s.conn) _ _ p (omega arith)
continue_message-Sound e max handler s false (some c) h p a = (p, a.0, a.1)
continue_message-Sound e max handler s true (some c) h p a =
    let payload = or_empty c.fragmented_payload in
    let called_back : Answer =
      call_message_handler handler (record s { conn = c }) payload c.fragmented_opcode in
    elim (Bool-cases (c.fragmented_opcode == opcode_text && not (is_valid_utf8 payload))) [
      | inl t ↦ rw t (
          subst
            (λ b.
              Sound max b
                (fail_session e s (clear_fragment c) close_invalid_payload invalid_utf8_text))
            a.1 (fail_session-Sound e max s (clear_fragment c) _ _ p (omega arith)))
      | inr t ↦ rw t (
          clear_after-Sound max s.conn.read_buffer called_back (
            subst (λ b. Sound max b called_back) a.1
              (call_message_handler-Sound max (record s { conn = c }) payload c.fragmented_opcode p
                a.0 a.0 t handler h)))
    ]

-- A data frame within the limit.
pub handle_data_frame-Sound :
    (e : Endian) (max : ℕ) (handler : Handler) (s : Session) (f : ServerFrame)
    → UsesMethods handler
    → All (IsDelivered max) s.log
    → Gathers max s.conn
    → length f.payload ≤ max
    → Sound max s.conn.read_buffer (handle_data_frame e max handler s f)
unfolding handle_data_frame
handle_data_frame-Sound e max handler s f h p g l =
    let whole = record s.conn { fragmented = true } in
    let part = record s.conn { fragmented = false } in
    elim (Bool-cases (f.opcode == opcode_continuation)) [
      | inl c ↦ elim (Bool-cases s.conn.fragmented) [
        | inl t ↦
            rw (c, t)
              (continue_message-Sound e max handler (record s { conn = whole }) f.final _ h p
                (append_fragment-lem whole f.payload max))
        | inr t ↦ rw (c, t) (fail_session-Sound e max s part _ _ p g)
      ]
      | inr c ↦ elim (Bool-cases s.conn.fragmented) [
        | inl t ↦ rw (c, t) (fail_session-Sound e max s (clear_fragment s.conn) _ _ p (omega arith))
        | inr t ↦ elim (Bool-cases f.final) [
          | inr n ↦ rw (c, t, n) (p, l, refl)
          | inl n ↦ elim (Bool-cases (f.opcode == opcode_text && not (is_valid_utf8 f.payload))) [
            | inl u ↦ rw (c, t, n, u) (fail_session-Sound e max s part _ _ p g)
            | inr u ↦
                rw (c, t, n, u)
                  (call_message_handler-Sound max (record s { conn = part }) f.payload f.opcode p g
                    l u handler h)
          ]
        ]
      ]
    ]
