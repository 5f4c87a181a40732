-- ===== src/Connection/Refused.antt =====
-- `websocket_connection_send_frame` where it returns false.
use php_websocket.Base.{
  ℕ, ◌+◌, ◌-◌, ◌≤◌, ◌≡◌, refl, ap, ◌∙◌, Bool, true, false, not, ◌||◌, ◌&&◌, List, [], ◌∷◌, ◌++◌,
  Bytes, All, length, drop, take, min, ltb, if◌then◌else◌, Bool-cases, ◌⊎◌, inl, inr, arith, none,
  some, Option, ◌==◌, nil_of_length,
}
use php_websocket.Connection.State.{
  Net, Conn, Outcome, tell, Errno, watch_write, SendOutcome, sent, failed,
}
use php_websocket.Connection.Queue.{
  Wrote, write_loop, write_some, after_write, queue_frame, push_frame, start_watch, watched,
  has_pending_writes, is_interrupt,
}
use php_websocket.Connection.Send.{send_packed, settle, queue_rest, is_enobufs}
use php_websocket.Connection.Stream.{pending}
use php_websocket.Connection.Sound.{IsQueue}

-- The kernel and the driver never fail with ENOBUFS, which the code takes for its own refusal, and
-- no earlier refusal has left it in `errno`.
abbrev IsOther : Errno → Type 0
IsOther x = is_enobufs x ≡ false

abbrev IsOtherSend : SendOutcome → Type 0
IsOtherSend (sent n) = Unit
IsOtherSend (failed x) = IsOther x

abbrev IsOtherWatch : Option Errno → Type 0
IsOtherWatch none = Unit
IsOtherWatch (some x) = IsOther x

abbrev pub NoEnobufs : Net → Type 0
NoEnobufs net = All IsOtherSend net.sends × All IsOtherWatch net.watches × IsOther net.errno

write_loop-errno :
    (frame : Bytes) (offset written : ℕ) (sends : List SendOutcome) (wire : Bytes) (x : Errno)
    → All IsOtherSend sends
    → IsOther x
    → IsOther (write_loop frame offset written sends wire x).errno
unfolding write_loop
write_loop-errno frame offset written [] wire x h k =
    elim (Bool-cases (ltb offset (length frame))) [ inl e ↦ rw e refl | inr e ↦ rw e k ]
write_loop-errno frame offset written (sent n ∷ rest) wire x h k =
    let t = min n (length (drop offset frame)) in
    let ih =
      write_loop-errno frame (offset + t) (written + t) rest (wire ++ take t (drop offset frame)) x
        h.1 k in
    elim (Bool-cases (ltb offset (length frame))) [
      | inr e ↦ rw e k
      | inl e ↦ elim (Bool-cases (t == 0)) [ inl z ↦ rw (e, z) k | inr z ↦ rw (e, z) ih ]
    ]
write_loop-errno frame offset written (failed y ∷ rest) wire x h k =
    let ih = write_loop-errno frame offset written rest wire y h.1 h.0 in
    elim (Bool-cases (ltb offset (length frame))) [
      | inr e ↦ rw e k
      | inl e ↦ elim (Bool-cases (is_interrupt y)) [ inl z ↦ rw (e, z) ih | inr z ↦ rw (e, z) h.0 ]
    ]

-- A failure that closes the connection, or one that leaves it and the wire as they were.
abbrev pub Refuses : Conn → Net → Outcome → Type 0
Refuses c net (ok', c', net') =
    ok' ≡ false → (c'.open_state ≡ false) ⊎ ((c' ≡ c) × (net'.wire ≡ net.wire))

-- The same in front of the test of `errno`.
abbrev Fails : Conn → Net → Outcome → Type 0
Fails c net (ok', c', net') = ok' ≡ false → IsOther net'.errno ⊎ ((c' ≡ c) × (net'.wire ≡ net.wire))

if_Refuses :
    (test : Bool) (c : Conn) (net : Net) (c' : Conn) (net' : Net)
    → ((c' ≡ c) × (net'.wire ≡ net.wire))
    → Refuses c net
        (if test then (false, record c' { open_state = false }, net') else (false, c', net'))
if_Refuses true c net c' net' s = λ e. inl refl
if_Refuses false c net c' net' s = λ e. inr s

settle-Refuses : (c : Conn) (net : Net) (o : Outcome) → Fails c net o → Refuses c net (settle o)
unfolding settle
settle-Refuses c net (true, c', net') p = λ e. absurd (ground arith)
settle-Refuses c net (false, c', net') p = elim (p refl) [
  | inl x ↦ rw x (λ e. inl refl)
  | inr s ↦ if_Refuses (not (is_enobufs net'.errno)) c net c' net' s
]

watched-errno :
    (answers : List (Option Errno)) (c : Conn) (net : Net)
    → All IsOtherWatch answers
    → let (ok', c', net') = watched answers c net in ok' ≡ false → IsOther net'.errno
watched-errno [] c net h = λ e. absurd (ground arith)
watched-errno (none ∷ rest) c net h = λ e. absurd (ground arith)
watched-errno (some x ∷ rest) c net h = λ e. h.0

start_watch-errno :
    (c : Conn) (net : Net)
    → All IsOtherWatch net.watches
    → let (ok', c', net') = start_watch c net in ok' ≡ false → IsOther net'.errno
unfolding start_watch
start_watch-errno c net h = elim (Bool-cases c.write_watched) [
  | inl w ↦ rw w (λ e. absurd (ground arith))
  | inr w ↦
      rw w (
        watched-errno net.watches (record c { write_watched = false }) (tell net c.fd watch_write)
          h)
]

queue_frame-Fails :
    (c : Conn) (net : Net) (frame : Bytes) (offset : ℕ)
    → All IsOtherWatch net.watches
    → Fails c net (queue_frame c net frame offset)
unfolding queue_frame
queue_frame-Fails c net frame offset h =
    let n = length frame - offset in
    elim (Bool-cases (ltb c.max_queued_bytes n || ltb (c.max_queued_bytes - n) c.queued_bytes)) [
      | inl full ↦ rw full (λ e. inr (refl, refl))
      | inr room ↦ rw room (λ e. inl (start_watch-errno (push_frame c frame offset) net h e))
    ]

-- With an empty queue there is room for the rest of any frame that is short enough.
queue_rest-Fails :
    (c : Conn) (net : Net) (frame : Bytes) (w : Wrote)
    → All IsOtherWatch net.watches
    → IsOther w.errno
    → c.queued_bytes ≡ 0
    → length frame ≤ c.max_queued_bytes
    → Fails c net (queue_rest c net frame w)
unfolding queue_rest queue_frame
queue_rest-Fails c net frame w h k z m =
    let n = length frame - w.offset in
    let room : (ltb c.max_queued_bytes n || ltb (c.max_queued_bytes - n) c.queued_bytes) ≡ false =
      ground arith in
    elim (Bool-cases (w.done && ltb w.offset (length frame))) [
      | inl t ↦
          rw (t, room)
            (λ e. inl (start_watch-errno (push_frame c frame w.offset) (after_write net w) h e))
      | inr t ↦ rw t (λ e. inl k)
    ]

-- If the queue is sound, `errno` is not ENOBUFS when the call begins, and neither the kernel nor the
-- driver fails with ENOBUFS, then a `websocket_connection_send_frame` that returns false has closed the connection, or has left it
-- and the wire as they were: no frame is cut off on a connection that stays open.
pub send_packed-Refuses :
    (c : Conn) (net : Net) (frame : Bytes)
    → IsQueue c
    → NoEnobufs net
    → Refuses c net (send_packed c net frame)
unfolding send_packed has_pending_writes write_some
send_packed-Refuses c net frame q h =
    let w = write_loop frame 0 0 net.sends net.wire net.errno in
    elim (Bool-cases (ltb c.max_queued_bytes (length frame))) [
      | inl l ↦ rw l (λ e. inr (refl, refl))
      | inr l ↦ elim (Bool-cases (ltb 0 (length c.write_queue))) [
        | inl p ↦ rw (l, p) (settle-Refuses c net _ (queue_frame-Fails c net frame 0 h.1))
        | inr p ↦
            let e : c.write_queue ≡ [] = nil_of_length c.write_queue (ground arith) in
            let empty : pending c ≡ [] = rw e in
            let idle : c.queued_bytes ≡ 0 = q.0.0 ∙ ap length empty in
            let other = write_loop-errno frame 0 0 net.sends net.wire net.errno h.0 h.2 in
            rw (l, p)
              (settle-Refuses c net _
                (queue_rest-Fails c net frame w h.1 other idle (ground arith)))
      ]
    ]
