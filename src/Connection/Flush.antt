-- ===== src/Connection/Flush.antt =====
-- `websocket_connection_flush`: the queue's account, and the bytes it keeps.
use php_websocket.Base.{
  ℕ, ◌+◌, ◌-◌, ◌≤◌, ◌≡◌, refl, ap, sym, subst, ◌∙◌, false, List, [], ◌∷◌, ◌++◌, append_assoc,
  append-nil, Bytes, length, drop, ltb, length-drop, drop-all, length-append, Bool-cases, inl, inr,
  arith,
}
use php_websocket.Connection.State.{Net, Conn}
use php_websocket.Connection.Queue.{
  write_some, after_write, Flushed, broken, blocked, drained, flush_loop,
}
use php_websocket.Connection.Stream.{concat, owed, pending, write_loop-wire, write_loop-bounds}

-- The first frame of the queue begins inside itself.
abbrev pub Inside : List Bytes → ℕ → Type 0
Inside [] offset = Unit
Inside (frame ∷ rest) offset = offset ≤ length frame

-- `queued_bytes` is the number of bytes that the queue still owes.
abbrev pub IsAccounted : Conn → Type 0
IsAccounted c = (c.queued_bytes ≡ length (pending c)) × Inside c.write_queue c.write_queue_offset

pub owed-zero : (queue : List Bytes) → owed queue 0 ≡ concat queue
owed-zero [] = refl
owed-zero (frame ∷ rest) = refl

pub Inside-zero : (queue : List Bytes) → Inside queue 0
Inside-zero [] = tt
Inside-zero (frame ∷ rest) = omega arith

pub write_some-wire :
    (frame : Bytes) (offset : ℕ) (net : Net)
    → let w = write_some frame offset net in
      w.wire ++ drop w.offset frame ≡ net.wire ++ drop offset frame
unfolding write_some
write_some-wire frame offset net = write_loop-wire frame offset 0 net.sends net.wire net.errno

pub write_some-bounds :
    (frame : Bytes) (offset : ℕ) (net : Net)
    → offset ≤ length frame
    → let w = write_some frame offset net in
      (w.offset ≡ offset + w.written_bytes) × (w.offset ≤ length frame)
unfolding write_some
write_some-bounds frame offset net h =
    let p = write_loop-bounds frame offset 0 net.sends net.wire net.errno h in
    (omega (arith, p.0), p.1)

-- A loop that broke off closes the connection; one that went well has put on the wire what is no
-- longer owed.
abbrev pub Streamed : Bytes → Flushed → Conn → Net → Type 0
Streamed bytes broken c net = c.open_state ≡ false
Streamed bytes blocked c net = net.wire ++ pending c ≡ bytes
Streamed bytes drained c net = (net.wire ≡ bytes) × (c.write_queue ≡ [])

Streamed-along :
    {a b : Bytes}
    → a ≡ b
    → (how : Flushed) (c : Conn) (net : Net) → Streamed a how c net
    → Streamed b how c net
Streamed-along e how c net = subst (λ x. Streamed x how c net) e

-- What a run of the loop leaves, for the bytes that were owed and the frames it began with.
abbrev pub Kept : Bytes → List Bytes → Conn → Flushed × Conn × Net → Type 0
Kept bytes queue c (how, c', net') =
    Streamed bytes how c' net'
    × IsAccounted c'
    × (c'.queued_bytes ≤ c.queued_bytes)
    × (length c'.write_queue ≤ length queue)
    × (c'.write_queue_capacity ≡ c.write_queue_capacity)
    × (c'.max_queued_bytes ≡ c.max_queued_bytes)

pub flush_loop-keeps :
    (queue : List Bytes) (c : Conn) (net : Net)
    → c.queued_bytes ≡ length (owed queue c.write_queue_offset)
    → Inside queue c.write_queue_offset
    → Kept (net.wire ++ owed queue c.write_queue_offset) queue c (flush_loop queue c net)
unfolding flush_loop
flush_loop-keeps [] c net q h =
    ((sym (append-nil net.wire), refl), (q, tt), omega arith, omega arith, refl, refl)
flush_loop-keeps (frame ∷ rest) c net q h =
    let o = c.write_queue_offset in
    let w = write_some frame o net in
    let wired = write_some-wire frame o net in
    let moved = write_some-bounds frame o net h in
    let sum = length-append (drop o frame) (concat rest) in
    let sum' = length-append (drop w.offset frame) (concat rest) in
    let old = length-drop o frame in
    let new = length-drop w.offset frame in
    let kept : w.wire ++ (drop w.offset frame ++ concat rest)
        ≡ net.wire ++ (drop o frame ++ concat rest) =
      sym (append_assoc w.wire (drop w.offset frame) (concat rest))
      ∙ ap (λ r. r ++ concat rest) wired
      ∙ append_assoc net.wire (drop o frame) (concat rest) in
    elim (Bool-cases w.done) [
      | inr d ↦ rw d (refl, (q, h), omega arith, omega arith, refl, refl)
      | inl d ↦ elim (Bool-cases (ltb w.offset (length frame))) [
        | inl s ↦
            rw (d, s)
              (
                kept,
                (omega (arith, q, sum, sum', old, new, moved.0, moved.1), moved.1),
                omega arith,
                omega arith,
                refl,
                refl,
              )
        | inr s ↦
            let past : length frame ≤ w.offset = ground arith in
            let none_left : drop w.offset frame ≡ [] = drop-all w.offset frame past in
            let zeroed = owed-zero rest in
            let rest_owed : c.queued_bytes - w.written_bytes ≡ length (owed rest 0) =
              omega (arith, q, sum, old, past, moved.0, moved.1, ap length zeroed) in
            let ih =
              flush_loop-keeps rest
                (record c {
                  queued_bytes = c.queued_bytes - w.written_bytes;
                  write_queue_offset = 0;
                })
                (after_write net w) rest_owed (Inside-zero rest) in
            let same : w.wire ++ owed rest 0 ≡ net.wire ++ (drop o frame ++ concat rest) =
              ap (λ r. w.wire ++ r) zeroed
              ∙ ap (λ r. w.wire ++ (r ++ concat rest)) (sym none_left)
              ∙ kept in
            rw (d, s)
              (
                Streamed-along same _ _ _ ih.0,
                ih.1,
                omega (arith, ih.2),
                omega (arith, ih.3),
                ih.4,
                ih.5,
              )
      ]
    ]
