-- ===== src/Server/Round/Timely.antt =====
-- The time limits and the heartbeat in a pass over the connections.
use php_websocket.Base.{
  ℕ, ◌-◌, ◌≡◌, ◌⊎◌, refl, ap, ◌∙◌, true, false, not, ◌||◌, List, [], ◌∷◌, Bytes, ltb, length,
  is_some, if◌then◌else◌, Bool-cases, inl, inr,
}
use php_websocket.Protocol.Mask.{Endian}
use php_websocket.Connection.State.{Net, Conn, Outcome, close_socket, clear_write_queue}
use php_websocket.Connection.Queue.{
  write_some, after_write, Flushed, broken, blocked, drained, flush_loop, flush_done, after_loop,
  flush, has_pending_writes,
}
use php_websocket.Server.Timers.{Options, connection_expired}
use php_websocket.Server.Timers.Limits.{
  HasExpired, is_closing, close_expired-closing, connection_expired_iff,
}
use php_websocket.Server.Timers.Heartbeat.{
  PongIsLate, PingIsDue, is_beating, Beats, process_heartbeat-Beats,
}
use php_websocket.Server.Round.{Prepared, stops, goes, after_flush, after_heartbeat, prepare}

abbrev StaysClosing : Conn → Flushed × Conn × Net → Type 0
StaysClosing c (broken, c', net) = is_closing c' ≡ true
StaysClosing c (_, c', net) = is_closing c' ≡ is_closing c

StaysClosing-along :
    (a b : Conn) (r : Flushed × Conn × Net)
    → is_closing a ≡ is_closing b
    → StaysClosing a r
    → StaysClosing b r
StaysClosing-along a b (broken, c', net) e h = h
StaysClosing-along a b (blocked, c', net) e h = h ∙ e
StaysClosing-along a b (drained, c', net) e h = h ∙ e

flush_loop-StaysClosing :
    (queue : List Bytes) (c : Conn) (net : Net) → StaysClosing c (flush_loop queue c net)
unfolding flush_loop
flush_loop-StaysClosing [] c net = refl
flush_loop-StaysClosing (frame ∷ rest) c net =
    let w = write_some frame c.write_queue_offset net in
    elim (Bool-cases w.done) [
      | inr d ↦ rw d refl
      | inl d ↦ elim (Bool-cases (ltb w.offset (length frame))) [
        | inl s ↦ rw (d, s) refl
        | inr s ↦
            let c' = (record c {
              queued_bytes = c.queued_bytes - w.written_bytes;
              write_queue_offset = 0;
            }) in
            let ih = flush_loop-StaysClosing rest c' (after_write net w) in
            rw (d, s) (StaysClosing-along c' c _ refl ih)
      ]
    ]

flush_done-closing :
    (c : Conn) (net : Net) → is_closing c ≡ true → is_closing (flush_done c net).1 ≡ true
unfolding flush_done close_socket clear_write_queue
flush_done-closing c net h = elim (Bool-cases c.close_after_write) [
  | inl w ↦ rw w refl
  | inr w ↦ let closed = rw w at h in rw w closed
]

after_loop-closing :
    (c : Conn) (r : Flushed × Conn × Net)
    → is_closing c ≡ true
    → StaysClosing c r
    → is_closing (after_loop r).1 ≡ true
after_loop-closing c (broken, c', net) h s = s
after_loop-closing c (blocked, c', net) h s = s ∙ h
after_loop-closing c (drained, c', net) h s = flush_done-closing c' net (s ∙ h)

flush-closing : (c : Conn) (net : Net) → is_closing c ≡ true → is_closing (flush c net).1 ≡ true
unfolding flush
flush-closing c net h = elim (Bool-cases (not c.open_state || not (is_some c.fd))) [
  | inl o ↦ rw o h
  | inr o ↦ rw o (after_loop-closing c _ h (flush_loop-StaysClosing c.write_queue c net))
]

-- The function has returned true for a connection that is closing.
abbrev IsStopped : Prepared → Type 0
IsStopped (goes c net) = ⊥
IsStopped (stops (ok', c, net)) = (ok' ≡ true) × (is_closing c ≡ true)

after_flush-IsStopped : (o : Outcome) → is_closing o.1 ≡ true → IsStopped (after_flush o)
after_flush-IsStopped (false, c, net) h = (refl, h)
after_flush-IsStopped (true, c, net) h = rw h (refl, h)

after_heartbeat-IsStopped :
    (o : Outcome) → o.0 ≡ true → is_closing o.1 ≡ true → IsStopped (after_heartbeat o)
unfolding has_pending_writes
after_heartbeat-IsStopped (false, c, net) e h = absurd (cc)
after_heartbeat-IsStopped (true, c, net) e h = elim (Bool-cases (ltb 0 (length c.write_queue))) [
  | inl p ↦ rw p (after_flush-IsStopped (flush c net) (flush-closing c net h))
  | inr p ↦ rw p (after_flush-IsStopped (true, c, net) h)
]

-- A limit has passed: the connection's own, or that of the answer to a ping.
abbrev pub TimeIsUp : Options → Conn → ℕ → Type 0
TimeIsUp o c now = HasExpired o c now ⊎ ((is_beating o c ≡ true) × PongIsLate o c now)

-- What the pass has found in front of reading.
abbrev pub IsTimely : Options → Conn → ℕ → Prepared → Type 0
IsTimely o c now (goes c' net) = (TimeIsUp o c now → ⊥) × (is_closing c' ≡ false)
IsTimely o c now (stops (ok', c', net)) =
    (ok' ≡ true) × ((TimeIsUp o c now × (is_closing c' ≡ true)) ⊎ (TimeIsUp o c now → ⊥))

stopped-IsTimely :
    (o : Options) (c : Conn) (now : ℕ) (p : Prepared)
    → TimeIsUp o c now
    → IsStopped p
    → IsTimely o c now p
stopped-IsTimely o c now (goes c' net) t h = absurd h
stopped-IsTimely o c now (stops (ok', c', net)) t h = (h.0, inl (t, h.1))

after_flush-IsTimely :
    (o : Options) (c : Conn) (now : ℕ) (out : Outcome)
    → (TimeIsUp o c now → ⊥)
    → IsTimely o c now (after_flush out)
after_flush-IsTimely o c now (false, c', net) t = (refl, inr t)
after_flush-IsTimely o c now (true, c', net) t = elim (Bool-cases (is_closing c')) [
  | inl h ↦ rw h (refl, inr t)
  | inr h ↦ rw h (t, h)
]

after_heartbeat-IsTimely :
    (o : Options) (c : Conn) (now : ℕ) (out : Outcome)
    → out.0 ≡ true
    → (TimeIsUp o c now → ⊥)
    → IsTimely o c now (after_heartbeat out)
after_heartbeat-IsTimely o c now (false, c', net) e t = absurd (cc)
after_heartbeat-IsTimely o c now (true, c', net) e t =
    after_flush-IsTimely o c now (if has_pending_writes c' then flush c' net else (true, c', net)) t

due_in_time :
    (o : Options) (c : Conn) (now : ℕ)
    → (HasExpired o c now → ⊥)
    → PingIsDue o c now
    → TimeIsUp o c now
    → ⊥
due_in_time o c now x d (inl h) = x h
due_in_time o c now x d (inr h) = let late = h.1 in let free = d.0 in cc

calm_in_time :
    (o : Options) (c : Conn) (now : ℕ)
    → (HasExpired o c now → ⊥)
    → (is_beating o c ≡ true → PongIsLate o c now ⊎ PingIsDue o c now → ⊥)
    → TimeIsUp o c now
    → ⊥
calm_in_time o c now x k (inl h) = x h
calm_in_time o c now x k (inr h) = k h.0 (inl h.1)

beaten-IsTimely :
    (e : Endian) (o : Options) (c : Conn) (net : Net) (now : ℕ) (out : Outcome)
    → (HasExpired o c now → ⊥)
    → Beats e o c net now out
    → IsTimely o c now (after_heartbeat out)
beaten-IsTimely e o c net now out x (ok', inl l) =
    stopped-IsTimely o c now _ (inr (l.0, l.1)) (after_heartbeat-IsStopped out ok' l.2)
beaten-IsTimely e o c net now out x (ok', inr (inl d)) =
    after_heartbeat-IsTimely o c now out ok' (due_in_time o c now x d.1)
beaten-IsTimely e o c net now out x (ok', inr (inr q)) =
    after_heartbeat-IsTimely o c now out ok' (calm_in_time o c now x q.0)

-- In front of reading from an open connection, the pass returns true. It goes on to read only if
-- the connection is not closing and neither its own time limit nor that for the answer to a ping
-- has passed; if one of them has, it stops, and the connection is closed or closes as soon as its
-- queue is empty.
pub prepare-IsTimely :
    (e : Endian) (o : Options) (c : Conn) (net : Net) (now : ℕ)
    → c.open_state ≡ true
    → IsTimely o c now (prepare e o c net now)
unfolding prepare
prepare-IsTimely e o c net now p =
    let open' : not c.open_state ≡ false = ap not p in
    let iff = connection_expired_iff o c now in
    elim (Bool-cases (connection_expired o c now)) [
      | inl t ↦ rw (open', t) (refl, inl (inl (iff.0 t), close_expired-closing e c net))
      | inr t ↦
          let in_time : HasExpired o c now → ⊥ = λ h. let t' = iff.1 h in cc in
          rw (open', t)
            (beaten-IsTimely e o c net now _ in_time (process_heartbeat-Beats e o c net now))
    ]
