-- ===== src/Connection/Drained.antt =====
-- `websocket_connection_flush` again and again, on a kernel that takes bytes each time.
use php_websocket.Base.{
  ℕ, ◌≤◌, ◌<◌, ◌≡◌, ◌⊎◌, refl, ap, sym, subst, ◌∙◌, Bool, true, false, not, ◌||◌, List, [], ◌∷◌,
  ◌++◌, Bytes, All, length, ltb, is_some, if◌then◌else◌, Bool-cases, inl, inr, arith,
}
use php_websocket.Connection.State.{
  SendOutcome, unwatch_write, Net, Conn, Outcome, tell, close_socket, clear_write_queue,
}
use php_websocket.Connection.Queue.{
  Flushed, broken, blocked, drained, flush_loop, flush_done, after_loop, flush, has_pending_writes,
}
use php_websocket.Connection.Stream.{owed, pending}
use php_websocket.Connection.Flush.{Kept, flush_loop-keeps}
use php_websocket.Connection.Sound.{IsQueue, Flushes, flush-keeps, close_socket-wire, tell_if-wire}
use php_websocket.Connection.Progress.{Gets, GetsOn, flush_loop-Gets, flush_loop-GetsOn}
use php_websocket.Connection.Willing.{IsReady, Ready-Soft}

-- What one flush of a usable connection does on such answers: it returns true, and the queue is
-- empty, or at least one byte less is owed.
abbrev Moves : Bytes → Conn → Outcome → Type 0
Moves bytes c (ok', c', net') =
    (ok' ≡ true)
    × (((c'.write_queue ≡ []) × (net'.wire ≡ bytes) × (c'.open_state ≡ not c.close_after_write))
        ⊎ ((0 < c'.queued_bytes)
            × (c'.queued_bytes < c.queued_bytes)
            × (net'.wire ++ pending c' ≡ bytes)
            × (c'.open_state ≡ c.open_state)
            × (c'.fd ≡ c.fd)
            × (c'.close_after_write ≡ c.close_after_write)))

flush_done-closes :
    (c : Conn) (net : Net)
    → c.write_queue ≡ []
    → c.open_state ≡ true
    → let (ok', c', net') = flush_done c net in
      (ok' ≡ true)
      × (c'.write_queue ≡ [])
      × (net'.wire ≡ net.wire)
      × (c'.open_state ≡ not c.close_after_write)
unfolding flush_done close_socket clear_write_queue
flush_done-closes c net q o =
    let told = tell_if-wire c.write_watched net c.fd unwatch_write in
    elim (Bool-cases c.close_after_write) [
      | inl w ↦ rw w (
        refl,
        refl,
        close_socket-wire (record c { write_watched = false })
              (if c.write_watched then tell net c.fd unwatch_write else net)
            ∙ told,
        refl,
      )
      | inr w ↦ rw w (refl, q, told, o)
    ]

after_loop-Moves :
    (bytes : Bytes) (c : Conn) (r : Flushed × Conn × Net)
    → c.open_state ≡ true
    → Kept bytes c.write_queue c r
    → Gets c r
    → GetsOn c r
    → Moves bytes c (after_loop r)
after_loop-Moves bytes c (broken, c', net') o k g n = absurd g
after_loop-Moves bytes c (blocked, c', net') o k g n = (refl, inr (g.0, n, k.0, g.2, g.3, g.4))
after_loop-Moves bytes c (drained, c', net') o k g n =
    let (ok', queue, wire, opened) = flush_done-closes c' net' k.0.1 (g.0 ∙ o) in
    (ok', inl (queue, wire ∙ k.0.0, opened ∙ ap not g.1))

flush-Moves :
    (c : Conn) (net : Net)
    → IsQueue c
    → c.open_state ≡ true
    → is_some c.fd ≡ true
    → IsReady net.sends
    → Moves (net.wire ++ pending c) c (flush c net)
unfolding flush
flush-Moves c net q o f k =
    let kept = flush_loop-keeps c.write_queue c net q.0.0 q.0.1 in
    let got = flush_loop-Gets c.write_queue c net q.0.0 q.0.1 (Ready-Soft net.sends k) in
    let on = flush_loop-GetsOn c.write_queue c net q.0.0 q.0.1 k in
    let usable : (not c.open_state || not (is_some c.fd)) ≡ false = ground (arith, o, f) in
    rw usable (after_loop-Moves _ c (flush_loop c.write_queue c net) o kept got on)

-- What the passes over a connection do to its queue: each flushes what is pending, and the kernel
-- answers each with a script of its own.
abbrev pub passes : List (List SendOutcome) → Conn → Net → Conn × Net
passes [] c net = (c, net)
passes (sends ∷ rest) c net =
    let (ok', c', net') =
      if has_pending_writes c then flush c (record net { sends = sends }) else (true, c, net) in
    passes rest c' net'

passes-nil :
    (scripts : List (List SendOutcome)) (c : Conn) (net : Net)
    → c.write_queue ≡ []
    → passes scripts c net ≡ (c, net)
unfolding has_pending_writes
passes-nil [] c net q = refl
passes-nil (sends ∷ rest) c net q =
    let none_pending : ltb 0 (length c.write_queue) ≡ false = ground (arith, ap length q) in
    rw (passes, none_pending) (passes-nil rest c net q)

-- Nothing is owed, all is on the wire, and a connection that waited for that to close is closed.
abbrev pub IsDrained : Bytes → Bool → Conn × Net → Type 0
IsDrained bytes closing (c, net) =
    (c.write_queue ≡ []) × (net.wire ≡ bytes) × (c.open_state ≡ not closing)

flushed-IsQueue : (bytes : Bytes) (o : Outcome) → Flushes bytes o → IsQueue o.1
flushed-IsQueue bytes o f = f.0

owing : (queue : List Bytes) (offset : ℕ) → 0 < length (owed queue offset) → 0 < length queue
owing [] offset h = absurd (omega arith)
owing (frame ∷ rest) offset h = omega arith

drains :
    (scripts : List (List SendOutcome)) (bytes : Bytes) (c : Conn) (net : Net)
    → IsQueue c
    → c.open_state ≡ true
    → is_some c.fd ≡ true
    → net.wire ++ pending c ≡ bytes
    → All IsReady scripts
    → c.queued_bytes ≤ length scripts
    → 0 < length scripts
    → 0 < length c.write_queue
    → IsDrained bytes c.close_after_write (passes scripts c net)
unfolding has_pending_writes
drains [] bytes c net q o f e k n p w = absurd (omega arith)
drains (sends ∷ rest) bytes c net q o f e k n p w =
    let net' = (record net { sends = sends }) in
    let some_pending : ltb 0 (length c.write_queue) ≡ true = ground arith in
    let sound = flushed-IsQueue _ (flush c net') (flush-keeps c net' q) in
    let m = flush-Moves c net' q o f k.0 in
    rw (passes, some_pending)
      (elim (m.1) [
        | inl d ↦
            subst (IsDrained bytes c.close_after_write)
              (sym (passes-nil rest (flush c net').1 (flush c net').2 d.0)) (d.0, d.1 ∙ e, d.2)
        | inr b ↦
            let ih =
              drains rest bytes (flush c net').1 (flush c net').2 sound (b.3 ∙ o)
                (ap is_some b.4 ∙ f) (b.2 ∙ e) k.1 (omega (arith, n, b.1))
                (omega (arith, n, b.0, b.1))
                (let owes : 0 < length (pending (flush c net').1) = omega (arith, sound.0.0, b.0) in
                  owing (flush c net').1.write_queue (flush c net').1.write_queue_offset owes) in
            (ih.0, ih.1, ih.2 ∙ ap not b.5)
      ])

-- If an open connection with a sound queue has frames pending, and at each of as many flushes as
-- it owes bytes, and one at least, the kernel takes some bytes before its buffer is full, then all
-- of them are on the wire in their order, the queue is empty, and the connection is closed exactly
-- if it was to be closed after writing.
pub passes-IsDrained :
    (scripts : List (List SendOutcome)) (c : Conn) (net : Net)
    → IsQueue c
    → c.open_state ≡ true
    → is_some c.fd ≡ true
    → All IsReady scripts
    → c.queued_bytes ≤ length scripts
    → 0 < length scripts
    → 0 < length c.write_queue
    → IsDrained (net.wire ++ pending c) c.close_after_write (passes scripts c net)
passes-IsDrained scripts c net q o f k n p w = drains scripts _ c net q o f refl k n p w
