-- ===== src/Server/Round/Steady.antt =====
-- Time limits, heartbeat and flush leave what was received alone.
use php_websocket.Base.{
  ℕ, ◌-◌, ◌≡◌, refl, ◌∙◌, Bool, true, false, not, ◌&&◌, ◌||◌, List, [], ◌∷◌, Bytes, length, ltb,
  leb, ◌==◌, is_some, if◌then◌else◌, Bool-cases, inl, inr, arith,
}
use php_websocket.Protocol.Opcode.{opcode_ping, close_normal}
use php_websocket.Protocol.Mask.{Endian}
use php_websocket.Connection.State.{Net, Conn, Outcome}
use php_websocket.Connection.Queue.{
  write_some, after_write, has_pending_writes, Flushed, broken, blocked, drained, flush_loop,
  flush_done, after_loop, flush,
}
use php_websocket.Connection.Send.{send_frame}
use php_websocket.Server.Messages.{close_with_code}
use php_websocket.Server.Messages.Steady.{
  Steady, send_frame-Steady, close_socket-Steady, close_with_code-Steady,
}
use php_websocket.Server.Timers.{
  Options, connection_expired, close_expired, process_heartbeat, after_ping, last_activity,
  ping_interval_usec, pong_timeout_usec, idle_timeout_text, pong_timeout_text,
  heartbeat_failed_text,
}
use php_websocket.Server.Round.{Prepared, stops, goes, after_flush, after_heartbeat, prepare}

abbrev pub SteadyAt : Conn → Outcome → Type 0
SteadyAt c o = Steady c o.1

-- One steady step behind another.
pub Steady-trans : (a b c : Conn) → Steady a b → Steady b c → Steady a c
Steady-trans a b c (p, x) (q, inr y) = (q ∙ p, inr y)
Steady-trans a b c (p, inl x) (q, inl y) = (q ∙ p, inl (y ∙ x))
Steady-trans a b c (p, inr x) (q, inl y) = (q ∙ p, inr (y ∙ x))

if_SteadyAt :
    (test : Bool) (c : Conn) (a b : Outcome)
    → SteadyAt c a
    → SteadyAt c b
    → SteadyAt c (if test then a else b)
if_SteadyAt true c a b p q = p
if_SteadyAt false c a b p q = q

close_expired-Steady : (e : Endian) (c : Conn) (net : Net) → Steady c (close_expired e c net).0
unfolding close_expired
close_expired-Steady e c net = elim (Bool-cases c.upgraded) [
  | inl t ↦
      let d = record c { upgraded = true } in
      rw t (close_with_code-Steady e d net close_normal idle_timeout_text)
  | inr t ↦
      let d = record c { upgraded = false } in rw t (close_socket-Steady d d net (refl, inl refl))
]

after_ping-Steady :
    (e : Endian) (now : ℕ) (c : Conn) (o : Outcome) → SteadyAt c o → SteadyAt c (after_ping e now o)
after_ping-Steady e now c (true, c', net) p = p
after_ping-Steady e now c (false, c', net) p =
    Steady-trans c c' (close_with_code e c' net close_normal heartbeat_failed_text).1 p
      (close_with_code-Steady e c' net close_normal heartbeat_failed_text)

process_heartbeat-Steady :
    (e : Endian) (o : Options) (c : Conn) (net : Net) (now : ℕ)
    → SteadyAt c (process_heartbeat e o c net now)
unfolding process_heartbeat
process_heartbeat-Steady e o c net now =
    let same : Steady c c = (refl, inl refl) in
    if_SteadyAt
      (ping_interval_usec o == 0
        || now == 0
        || not c.open_state
        || not c.upgraded
        || c.close_after_write)
      c _ _ same
      (if_SteadyAt c.awaiting_pong c _ _
        (if_SteadyAt
          (ltb 0 c.last_ping_usec
            && leb c.last_ping_usec now
            && leb (pong_timeout_usec o) (now - c.last_ping_usec))
          c _ _ (close_with_code-Steady e c net close_normal pong_timeout_text) same)
        (if_SteadyAt
          (last_activity c == 0
            || ltb now (last_activity c)
            || ltb (now - last_activity c) (ping_interval_usec o))
          c _ _ same
          (after_ping-Steady e now c (send_frame e c net [] opcode_ping)
            (send_frame-Steady e c net [] opcode_ping))))

flush_loop-Steady :
    (frames : List Bytes) (c d : Conn) (net : Net)
    → Steady c d
    → Steady c (flush_loop frames d net).1
unfolding flush_loop
flush_loop-Steady [] c d net p = p
flush_loop-Steady (frame ∷ rest) c d net p =
    let w = write_some frame d.write_queue_offset net in
    let d' = record d { queued_bytes = d.queued_bytes - w.written_bytes; write_queue_offset = 0 } in
    elim (Bool-cases w.done) [
      | inr t ↦ rw t p
      | inl t ↦ elim (Bool-cases (ltb w.offset (length frame))) [
        | inl u ↦ rw (t, u) p
        | inr u ↦ rw (t, u) (flush_loop-Steady rest c d' (after_write net w) p)
      ]
    ]

flush_done-Steady : (c d : Conn) (net : Net) → Steady c d → SteadyAt c (flush_done d net)
unfolding flush_done
flush_done-Steady c d net p =
    if_SteadyAt d.close_after_write c _ _
      (close_socket-Steady c (record d { write_watched = false }) _ p) p

after_loop-Steady : (c : Conn) (r : Flushed × Conn × Net) → Steady c r.1 → SteadyAt c (after_loop r)
after_loop-Steady c (broken, d, net) p = p
after_loop-Steady c (blocked, d, net) p = p
after_loop-Steady c (drained, d, net) p = flush_done-Steady c d net p

flush-Steady : (c : Conn) (net : Net) → SteadyAt c (flush c net)
unfolding flush
flush-Steady c net =
    if_SteadyAt (not c.open_state || not (is_some c.fd)) c _ _ (refl, inl refl)
      (after_loop-Steady c (flush_loop c.write_queue c net)
        (flush_loop-Steady c.write_queue c c net (refl, inl refl)))

-- What is prepared has kept what was received, and it is read from an open connection only.
abbrev pub SteadyPrepared : Conn → Prepared → Type 0
SteadyPrepared c (stops o) = SteadyAt c o
SteadyPrepared c (goes d net) = Steady c d × (d.open_state ≡ true)

after_flush-Steady : (c : Conn) (o : Outcome) → SteadyAt c o → SteadyPrepared c (after_flush o)
after_flush-Steady c (false, d, net) p = p
after_flush-Steady c (true, d, net) p =
    elim (Bool-cases (not d.open_state || d.close_after_write)) [
      | inl t ↦ rw t p
      | inr t ↦ rw t (p, ground (arith, t))
    ]

after_heartbeat-Steady :
    (c : Conn) (o : Outcome) → SteadyAt c o → SteadyPrepared c (after_heartbeat o)
after_heartbeat-Steady c (false, d, net) p = p
after_heartbeat-Steady c (true, d, net) p = after_flush-Steady c _ (
    if_SteadyAt (has_pending_writes d) c _ _
      (Steady-trans c d (flush d net).1 p (flush-Steady d net)) p)

pub prepare-Steady :
    (e : Endian) (o : Options) (c : Conn) (net : Net) (now : ℕ)
    → SteadyPrepared c (prepare e o c net now)
unfolding prepare
prepare-Steady e o c net now = elim (Bool-cases (not c.open_state)) [
  | inl t ↦ rw t (refl, inl refl)
  | inr t ↦ elim (Bool-cases (connection_expired o c now)) [
    | inl x ↦ rw (t, x) (close_expired-Steady e c net)
    | inr x ↦
        rw (t, x)
          (after_heartbeat-Steady c (process_heartbeat e o c net now)
            (process_heartbeat-Steady e o c net now))
  ]
]
