-- ===== src/Connection/Sound.antt =====
-- The write queue as a whole: `websocket_connection_flush` and `websocket_connection_send_frame`.
use php_websocket.Base.{
  ℕ, ◌≤◌, ◌≡◌, refl, ap, subst, ◌∙◌, Bool, true, false, not, ◌||◌, ◌&&◌, [], ◌++◌, append-nil,
  Bytes, length, is_some, if◌then◌else◌, Bool-cases, inl, inr, arith, none, some, Option,
}
use php_websocket.Connection.State.{
  Net, Conn, Call, unwatch, closed, unwatch_write, Outcome, clear_write_queue, close_socket, tell,
}
use php_websocket.Connection.Queue.{
  Flushed, broken, blocked, drained, flush_loop, flush_done, flush, after_loop,
}
use php_websocket.Connection.Stream.{pending}
use php_websocket.Connection.Flush.{IsAccounted, flush_loop-keeps, Kept}

-- The state of the queue between two operations: its account is right, it is within its bound,
-- and it fits into the array.
abbrev pub IsQueue : Conn → Type 0
IsQueue c =
    IsAccounted c
    × (c.queued_bytes ≤ c.max_queued_bytes)
    × (length c.write_queue ≤ c.write_queue_capacity)

pub tell-wire : (net : Net) (fd : Option ℕ) (call : ℕ → Call) → (tell net fd call).wire ≡ net.wire
tell-wire net none call = refl
tell-wire net (some fd) call = refl

-- A connection that nothing more can be written to.
abbrev pub is_usable : Conn → Bool
is_usable c = c.open_state && is_some c.fd

-- What a flush leaves: a sound queue, and either all bytes in their order or a dead connection.
abbrev pub Flushes : Bytes → Outcome → Type 0
Flushes bytes (ok', c, net) =
    IsQueue c × (if ok' then (net.wire ++ pending c ≡ bytes) else (is_usable c ≡ false))

pub close_socket-wire : (c : Conn) (net : Net) → (close_socket c net).1.wire ≡ net.wire
unfolding close_socket clear_write_queue
close_socket-wire c net =
    let released = tell-wire (tell net c.fd unwatch) c.fd closed ∙ tell-wire net c.fd unwatch in
    elim (Bool-cases c.write_watched) [ inl w ↦ rw w released | inr w ↦ rw w released ]

pub close_socket-IsQueue :
    (c : Conn) (net : Net)
    → length c.write_queue ≤ c.write_queue_capacity
    → IsQueue (close_socket c net).0
unfolding close_socket clear_write_queue
close_socket-IsQueue c net h = ((refl, tt), omega arith, omega arith)

close_socket-Flushes :
    (c : Conn) (net : Net)
    → length c.write_queue ≤ c.write_queue_capacity
    → Flushes net.wire (true, (close_socket c net).0, (close_socket c net).1)
unfolding close_socket clear_write_queue
close_socket-Flushes c net h = (
  close_socket-IsQueue c net h,
  ap (λ r. r ++ []) (close_socket-wire c net) ∙ append-nil net.wire,
)

close_if :
    (test : Bool) (bytes : Bytes) (c : Conn) (net : Net)
    → IsQueue c
    → c.write_queue ≡ []
    → net.wire ≡ bytes
    → Flushes bytes
        (if test then (true, (close_socket c net).0, (close_socket c net).1) else (true, c, net))
close_if true bytes c net q e w =
    subst (λ b. Flushes b (true, (close_socket c net).0, (close_socket c net).1)) w
      (close_socket-Flushes c net q.2)
close_if false bytes c net q e w =
    let empty : pending c ≡ [] = rw e in
    (q, ap (λ r. net.wire ++ r) empty ∙ append-nil net.wire ∙ w)

pub tell_if-wire :
    (test : Bool) (net : Net) (fd : Option ℕ) (call : ℕ → Call)
    → (if test then tell net fd call else net).wire ≡ net.wire
tell_if-wire true net fd call = tell-wire net fd call
tell_if-wire false net fd call = refl

flush_done-keeps :
    (c : Conn) (net : Net) → IsQueue c → c.write_queue ≡ [] → Flushes net.wire (flush_done c net)
unfolding flush_done
flush_done-keeps c net q e =
    close_if c.close_after_write net.wire (record c { write_watched = false })
      (if c.write_watched then tell net c.fd unwatch_write else net) q e
      (tell_if-wire c.write_watched net c.fd unwatch_write)

after_loop-keeps :
    (bytes : Bytes) (c : Conn) (r : Flushed × Conn × Net)
    → Kept bytes c.write_queue c r
    → IsQueue c
    → Flushes bytes (after_loop r)
after_loop-keeps bytes c (broken, c', net') k q =
    ((k.1, omega (arith, k.2, k.5, q.1), omega (arith, k.3, k.4, q.2)), rw k.0)
after_loop-keeps bytes c (blocked, c', net') k q =
    ((k.1, omega (arith, k.2, k.5, q.1), omega (arith, k.3, k.4, q.2)), k.0)
after_loop-keeps bytes c (drained, c', net') k q =
    let sound : IsQueue c' = (k.1, omega (arith, k.2, k.5, q.1), omega (arith, k.3, k.4, q.2)) in
    subst (λ b. Flushes b (flush_done c' net')) k.0.0 (flush_done-keeps c' net' sound k.0.1)

unusable : (c : Conn) → (not c.open_state || not (is_some c.fd)) ≡ true → is_usable c ≡ false
unusable c h = ground arith

-- From a sound queue, `websocket_connection_flush` leaves a sound queue: `queued_bytes` counts
-- what is owed, within `max_queued_bytes`, and the frames fit into the array. If it returns true,
-- the wire and what is still owed make up the same bytes as before; if it returns false, the
-- connection is closed or has no descriptor.
pub flush-keeps : (c : Conn) (net : Net) → IsQueue c → Flushes (net.wire ++ pending c) (flush c net)
unfolding flush
flush-keeps c net q =
    let kept = flush_loop-keeps c.write_queue c net q.0.0 q.0.1 in
    elim (Bool-cases (not c.open_state || not (is_some c.fd))) [
      | inl o ↦ rw o (q, unusable c o)
      | inr o ↦ rw o (after_loop-keeps _ c (flush_loop c.write_queue c net) kept q)
    ]
