-- ===== src/Server/Timers/Limits.antt =====
-- What the time limits do to a connection in its turn.
use php_websocket.Base.{
  ℕ, ◌+◌, ◌-◌, ◌≤◌, ◌<◌, ◌≡◌, ◌↔◌, refl, subst, Bool, true, false, not, ◌&&◌, ◌||◌, Bytes, ltb, leb,
  ◌==◌, if◌then◌else◌, Bool-cases, inl, inr, arith,
}
use php_websocket.Base.Int.{pos}
use php_websocket.Protocol.Mask.{Endian}
use php_websocket.Connection.State.{Net, Conn, close_socket, clear_write_queue}
use php_websocket.Connection.Queue.{close_after_write, has_pending_writes}
use php_websocket.Connection.Send.{send_close_frame}
use php_websocket.Server.Messages.{close_with_code}
use php_websocket.Server.Timers.{
  handshake_timeout_usec, idle_timeout_usec, Options, connection_expired, close_expired,
  last_activity, timeout_usec,
}

-- The limit of a connection's silence: the server's idle limit behind the upgrade, and the limit
-- of the handshake in front of it.
abbrev pub silence_limit : Options → Conn → ℕ
silence_limit o c = if c.upgraded then idle_timeout_usec o else handshake_timeout_usec o

-- The connection has seen nothing for the time that its state is given.
abbrev pub HasExpired : Options → Conn → ℕ → Type 0
HasExpired o c now =
    (0 < last_activity c) × (0 < silence_limit o c) × (last_activity c + silence_limit o c ≤ now)

same_limit : (o : Options) (c : Conn) → timeout_usec o c ≡ silence_limit o c
same_limit o c = elim (Bool-cases c.upgraded) [ inl u ↦ rw u refl | inr u ↦ rw u refl ]

-- A connection that is closed, or that closes as soon as its queue is empty.
abbrev pub is_closing : Conn → Bool
is_closing c = not c.open_state || c.close_after_write

close_after_write-closing : (c : Conn) (net : Net) → is_closing (close_after_write c net).0 ≡ true
unfolding close_after_write close_socket clear_write_queue
close_after_write-closing c net = elim (Bool-cases (not c.open_state)) [
  | inl o ↦ rw o (ground (arith, o))
  | inr o ↦ elim (Bool-cases (not (has_pending_writes c))) [
    | inl p ↦ rw (o, p) refl
    | inr p ↦ rw (o, p) (ground arith)
  ]
]

pub close_with_code-closing :
    (e : Endian) (c : Conn) (net : Net) (code : ℕ) (reason : Bytes)
    → is_closing (close_with_code e c net code reason).1 ≡ true
unfolding close_with_code close_socket clear_write_queue
close_with_code-closing e c net code reason =
    let o = send_close_frame e c net (pos code) reason in
    elim (Bool-cases o.0) [ inl t ↦ rw t (close_after_write-closing o.1 o.2) | inr t ↦ rw t refl ]

pub close_expired-closing :
    (e : Endian) (c : Conn) (net : Net) → is_closing (close_expired e c net).0 ≡ true
unfolding close_expired close_socket clear_write_queue
close_expired-closing e c net = elim (Bool-cases c.upgraded) [
  | inl u ↦ rw u (close_with_code-closing e (record c { upgraded = true }) net _ _)
  | inr u ↦ rw u refl
]

-- The test of `connection_expired` on numbers.
expired_iff :
    (now last timeout : ℕ)
    → let test =
        (if now == 0
          then false
          else if last == 0 || ltb now last
          then false
          else ltb 0 timeout && leb timeout (now - last)) in
      (test ≡ true → (0 < last) × (0 < timeout) × (last + timeout ≤ now))
      × ((0 < last) × (0 < timeout) × (last + timeout ≤ now) → test ≡ true)
expired_iff now last timeout =
    (λ h. (ground (arith, h), ground (arith, h), ground (arith, h)), λ h. ground (arith, h))

pub connection_expired_iff :
    (o : Options) (c : Conn) (now : ℕ) → (connection_expired o c now ≡ true) ↔ HasExpired o c now
unfolding connection_expired
connection_expired_iff o c now =
    subst
      (λ t.
        (connection_expired o c now ≡ true)
        ↔ ((0 < last_activity c) × (0 < t) × (last_activity c + t ≤ now)))
      (same_limit o c)
      (let both = expired_iff now (last_activity c) (timeout_usec o c) in (both.0, both.1))
