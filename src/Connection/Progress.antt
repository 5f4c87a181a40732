-- ===== src/Connection/Progress.antt =====
-- The loop of `websocket_connection_flush` on the answers of a socket that works.
use php_websocket.Base.{
  ◌-◌, ◌≤◌, ◌<◌, ◌≡◌, refl, ap, sym, subst, ◌∙◌, true, false, List, [], ◌∷◌, Bytes, All, length,
  drop, ltb, length-drop, length-append, Bool-cases, inl, inr, arith,
}
use php_websocket.Connection.State.{Net, Conn}
use php_websocket.Connection.Queue.{
  Flushed, broken, blocked, drained, write_some, after_write, flush_loop,
}
use php_websocket.Connection.Stream.{concat, owed}
use php_websocket.Connection.Flush.{Inside, Inside-zero, owed-zero, write_some-bounds}
use php_websocket.Connection.Willing.{
  IsSoft, IsReady, Ready-Soft, write_loop-Soft, write_loop-Ready,
}

-- What a loop that has not failed leaves: no more bytes than before, and one at least if it is
-- blocked.
abbrev pub Gets : Conn → Flushed × Conn × Net → Type 0
Gets c (broken, c', net) = ⊥
Gets c (blocked, c', net) =
    (0 < c'.queued_bytes)
    × (c'.queued_bytes ≤ c.queued_bytes)
    × (c'.open_state ≡ c.open_state)
    × (c'.fd ≡ c.fd)
    × (c'.close_after_write ≡ c.close_after_write)
Gets c (drained, c', net) =
    (c'.open_state ≡ c.open_state) × (c'.close_after_write ≡ c.close_after_write)

abbrev pub GetsOn : Conn → Flushed × Conn × Net → Type 0
GetsOn c (blocked, c', net) = c'.queued_bytes < c.queued_bytes
GetsOn c _ = Unit

Gets-along :
    (a b : Conn) (r : Flushed × Conn × Net)
    → a.queued_bytes ≤ b.queued_bytes
    → a.open_state ≡ b.open_state
    → a.fd ≡ b.fd
    → a.close_after_write ≡ b.close_after_write
    → Gets a r
    → Gets b r
Gets-along a b (broken, c', net) l o f w g = g
Gets-along a b (blocked, c', net) l o f w g =
    (g.0, omega (arith, g.1, l), g.2 ∙ o, g.3 ∙ f, g.4 ∙ w)
Gets-along a b (drained, c', net) l o f w g = (g.0 ∙ o, g.1 ∙ w)

GetsOn-along :
    (a b : Conn) (r : Flushed × Conn × Net)
    → a.queued_bytes < b.queued_bytes
    → Gets a r
    → GetsOn b r
GetsOn-along a b (broken, c', net) l g = tt
GetsOn-along a b (blocked, c', net) l g = omega (arith, g.1, l)
GetsOn-along a b (drained, c', net) l g = tt

GetsOn-same :
    (a b : Conn) (r : Flushed × Conn × Net)
    → a.queued_bytes ≤ b.queued_bytes
    → GetsOn a r
    → GetsOn b r
GetsOn-same a b (broken, c', net) l g = tt
GetsOn-same a b (blocked, c', net) l g = omega (arith, g, l)
GetsOn-same a b (drained, c', net) l g = tt

-- The account behind a frame that is written.
behind_owed :
    (frame : Bytes) (rest : List Bytes) (c : Conn) (net : Net)
    → c.queued_bytes ≡ length (owed (frame ∷ rest) c.write_queue_offset)
    → c.write_queue_offset ≤ length frame
    → let w = write_some frame c.write_queue_offset net in
      ltb w.offset (length frame) ≡ false → c.queued_bytes - w.written_bytes ≡ length (owed rest 0)
behind_owed frame rest c net q h s =
    let w = write_some frame c.write_queue_offset net in
    let past : length frame ≤ w.offset = ground (arith, s) in
    let moved = write_some-bounds frame c.write_queue_offset net h in
    let old = length-drop c.write_queue_offset frame in
    let sum = length-append (drop c.write_queue_offset frame) (concat rest) in
    omega (arith, q, sum, old, past, moved.0, moved.1, ap length (owed-zero rest))

-- What a blocked frame leaves: a byte at least.
blocked_owed :
    (frame : Bytes) (rest : List Bytes) (c : Conn) (net : Net)
    → c.queued_bytes ≡ length (owed (frame ∷ rest) c.write_queue_offset)
    → c.write_queue_offset ≤ length frame
    → let w = write_some frame c.write_queue_offset net in
      ltb w.offset (length frame) ≡ true
      → (0 < c.queued_bytes - w.written_bytes) × (w.written_bytes < c.queued_bytes)
blocked_owed frame rest c net q h s =
    let w = write_some frame c.write_queue_offset net in
    let inside : w.offset < length frame = ground (arith, s) in
    let moved = write_some-bounds frame c.write_queue_offset net h in
    let old = length-drop c.write_queue_offset frame in
    let sum = length-append (drop c.write_queue_offset frame) (concat rest) in
    (omega (arith, q, sum, old, inside, moved.0), omega (arith, q, sum, old, inside, moved.0))

pub flush_loop-Gets :
    (queue : List Bytes) (c : Conn) (net : Net)
    → c.queued_bytes ≡ length (owed queue c.write_queue_offset)
    → Inside queue c.write_queue_offset
    → All IsSoft net.sends
    → Gets c (flush_loop queue c net)
unfolding flush_loop write_some
flush_loop-Gets [] c net q h k = (refl, refl)
flush_loop-Gets (frame ∷ rest) c net q h k =
    let o = c.write_queue_offset in
    let w = write_some frame o net in
    let (d, soft, more) = write_loop-Soft frame o 0 net.sends net.wire net.errno k in
    elim (Bool-cases (ltb w.offset (length frame))) [
      | inl s ↦
          let left = blocked_owed frame rest c net q h s in
          rw (d, s) (left.0, omega arith, refl, refl, refl)
      | inr s ↦
          let c' = (record c {
            queued_bytes = c.queued_bytes - w.written_bytes;
            write_queue_offset = 0;
          }) in
          let ih =
            flush_loop-Gets rest c' (after_write net w) (behind_owed frame rest c net q h s)
              (Inside-zero rest) soft in
          rw (d, s) (Gets-along c' c _ (omega arith) refl refl refl ih)
    ]

pub flush_loop-GetsOn :
    (queue : List Bytes) (c : Conn) (net : Net)
    → c.queued_bytes ≡ length (owed queue c.write_queue_offset)
    → Inside queue c.write_queue_offset
    → IsReady net.sends
    → GetsOn c (flush_loop queue c net)
unfolding flush_loop write_some
flush_loop-GetsOn [] c net q h k = tt
flush_loop-GetsOn (frame ∷ rest) c net q h k =
    let o = c.write_queue_offset in
    let w = write_some frame o net in
    let (d, soft, more) =
      write_loop-Soft frame o 0 net.sends net.wire net.errno (Ready-Soft net.sends k) in
    let got = write_loop-Ready frame o 0 net.sends net.wire net.errno k in
    let moved = write_some-bounds frame o net h in
    let sum = length-append (drop o frame) (concat rest) in
    let old = length-drop o frame in
    elim (Bool-cases (ltb w.offset (length frame))) [
      | inl s ↦
          let begun : ltb o (length frame) ≡ true = ground (arith, s, moved) in
          let some_written : 0 < w.written_bytes = rw begun at got in
          let left = blocked_owed frame rest c net q h s in
          rw (d, s) (omega (arith, some_written, left.1))
      | inr s ↦
          let c' = (record c {
            queued_bytes = c.queued_bytes - w.written_bytes;
            write_queue_offset = 0;
          }) in
          let owes = behind_owed frame rest c net q h s in
          elim (Bool-cases (ltb o (length frame))) [
            | inl b ↦
                let some_written : 0 < w.written_bytes = rw b at got in
                let begun : o < length frame = ground (arith, b) in
                let fewer : c'.queued_bytes < c.queued_bytes =
                  omega (arith, q, sum, old, begun, some_written) in
                let later =
                  flush_loop-Gets rest c' (after_write net w) owes (Inside-zero rest) soft in
                rw (d, s) (GetsOn-along c' c _ fewer later)
            | inr b ↦
                let same : w.sends ≡ net.sends = rw b at got in
                let ih =
                  flush_loop-GetsOn rest c' (after_write net w) owes (Inside-zero rest)
                    (subst IsReady (sym same) k) in
                rw (d, s) (GetsOn-same c' c _ (omega arith) ih)
          ]
    ]
