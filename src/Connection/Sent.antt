-- ===== src/Connection/Sent.antt =====
-- What `websocket_connection_send_frame` does to the queue and to the bytes on their way.
use php_websocket.Base.{
  ℕ, suc, ◌+◌, ◌-◌, ◌≤◌, ◌≡◌, refl, ap, sym, ◌∙◌, Bool, true, false, not, ◌||◌, ◌&&◌, List, [], ◌∷◌,
  ◌++◌, append_assoc, append-nil, Bytes, length, drop, ltb, if◌then◌else◌, length-drop, drop-all,
  length-append, Bool-cases, inl, inr, arith, none, some, Option, ◌==◌, nil_of_length,
}
use php_websocket.Connection.State.{Net, Conn, Outcome, tell, Errno, watch_write}
use php_websocket.Connection.Queue.{
  Wrote, write_some, after_write, queue_frame, push_frame, ensure_write_capacity, start_watch,
  watched, has_pending_writes,
}
use php_websocket.Connection.Send.{send_packed, settle, queue_rest, is_enobufs}
use php_websocket.Connection.Stream.{concat, owed, pending}
use php_websocket.Connection.Flush.{Inside, write_some-wire, write_some-bounds}
use php_websocket.Connection.Sound.{IsQueue, tell-wire}

-- A frame that is begun can only be queued as the first.
abbrev pub Fits : List Bytes → ℕ → Type 0
Fits [] offset = Unit
Fits (frame ∷ rest) offset = offset ≡ 0

Fits-zero : (queue : List Bytes) → Fits queue 0
Fits-zero [] = tt
Fits-zero (frame ∷ rest) = refl

concat-snoc :
    (queue : List Bytes) (frame : Bytes) → concat (queue ++ (frame ∷ [])) ≡ concat queue ++ frame
concat-snoc [] frame = append-nil frame
concat-snoc (first ∷ rest) frame =
    ap (λ r. first ++ r) (concat-snoc rest frame) ∙ sym (append_assoc first (concat rest) frame)

owed-snoc :
    (queue : List Bytes) (o : ℕ) (frame : Bytes) (offset : ℕ)
    → Fits queue offset
    → owed (queue ++ (frame ∷ [])) (if length queue == 0 then offset else o)
      ≡ owed queue o ++ drop offset frame
owed-snoc [] o frame offset h = append-nil (drop offset frame)
owed-snoc (first ∷ rest) o frame offset h =
    let whole : drop offset frame ≡ frame = ap (λ n. drop n frame) h in
    let positive : (suc (length rest) == 0) ≡ false = ground arith in
    rw (positive, whole)
      (ap (λ r. drop o first ++ r) (concat-snoc rest frame)
        ∙ sym (append_assoc (drop o first) (concat rest) frame))

Inside-snoc :
    (queue : List Bytes) (o : ℕ) (frame : Bytes) (offset : ℕ)
    → Inside queue o
    → offset ≤ length frame
    → Inside (queue ++ (frame ∷ [])) (if length queue == 0 then offset else o)
Inside-snoc [] o frame offset h k = k
Inside-snoc (first ∷ rest) o frame offset h k =
    let positive : (suc (length rest) == 0) ≡ false = ground arith in rw positive h

capacity-grows :
    (c : Conn)
    → length c.write_queue ≤ c.write_queue_capacity
    → length c.write_queue + 1 ≤ (ensure_write_capacity c).write_queue_capacity
unfolding ensure_write_capacity
capacity-grows c h = ground arith

ensure-write_queue : (c : Conn) → (ensure_write_capacity c).write_queue ≡ c.write_queue
unfolding ensure_write_capacity
ensure-write_queue c = ground arith

ensure-max : (c : Conn) → (ensure_write_capacity c).max_queued_bytes ≡ c.max_queued_bytes
unfolding ensure_write_capacity
ensure-max c = ground arith

push_frame-pending :
    (c : Conn) (frame : Bytes) (offset : ℕ)
    → Fits c.write_queue offset
    → pending (push_frame c frame offset) ≡ pending c ++ drop offset frame
unfolding push_frame
push_frame-pending c frame offset h = owed-snoc c.write_queue c.write_queue_offset frame offset h

push_frame-IsQueue :
    (c : Conn) (frame : Bytes) (offset : ℕ)
    → Fits c.write_queue offset
    → offset ≤ length frame
    → c.queued_bytes + (length frame - offset) ≤ c.max_queued_bytes
    → IsQueue c
    → IsQueue (push_frame c frame offset)
unfolding push_frame
push_frame-IsQueue c frame offset h k m q =
    let owes = owed-snoc c.write_queue c.write_queue_offset frame offset h in
    let sum = length-append (pending c) (drop offset frame) in
    let longer = length-append c.write_queue (frame ∷ []) in
    (
      (
        omega (arith, q.0.0, ap length owes, sum, length-drop offset frame),
        Inside-snoc c.write_queue c.write_queue_offset frame offset q.0.1 k,
      ),
      omega (arith, m, ensure-max c),
      omega (arith, longer, capacity-grows c q.2),
    )

-- What an operation leaves that is to add bytes to the stream: a sound queue and, if it returns
-- true, exactly these bytes in the stream.
abbrev pub Sends : Bytes → Outcome → Type 0
Sends bytes (ok', c, net) = IsQueue c × (if ok' then (net.wire ++ pending c ≡ bytes) else Unit)

if_Sends :
    (bytes : Bytes) (test : Bool) (a b : Outcome)
    → Sends bytes a
    → Sends bytes b
    → Sends bytes (if test then a else b)
if_Sends bytes true a b p q = p
if_Sends bytes false a b p q = q

if_so : {A : Type 0} (test : Bool) → (test ≡ true → A) → if test then A else Unit
if_so true p = p refl
if_so false p = tt

watched-Sends :
    (answers : List (Option Errno)) (bytes : Bytes) (c : Conn) (net : Net)
    → IsQueue c
    → net.wire ++ pending c ≡ bytes
    → Sends bytes (watched answers c net)
watched-Sends [] bytes c net q e = (q, e)
watched-Sends (none ∷ rest) bytes c net q e = (q, e)
watched-Sends (some x ∷ rest) bytes c net q e = (q, tt)

start_watch-Sends :
    (bytes : Bytes) (c : Conn) (net : Net)
    → IsQueue c
    → net.wire ++ pending c ≡ bytes
    → Sends bytes (start_watch c net)
unfolding start_watch
start_watch-Sends bytes c net q e =
    let told : (tell net c.fd watch_write).wire ++ pending c ≡ bytes =
      ap (λ w. w ++ pending c) (tell-wire net c.fd watch_write) ∙ e in
    if_Sends bytes c.write_watched _ _ (q, e) (watched-Sends net.watches bytes c _ q told)

queue_frame-Sends :
    (bytes : Bytes) (c : Conn) (net : Net) (frame : Bytes) (offset : ℕ)
    → IsQueue c
    → Fits c.write_queue offset
    → offset ≤ length frame
    → (net.wire ++ pending c) ++ drop offset frame ≡ bytes
    → Sends bytes (queue_frame c net frame offset)
unfolding queue_frame
queue_frame-Sends bytes c net frame offset q h k e =
    let n = length frame - offset in
    let extended : net.wire ++ pending (push_frame c frame offset) ≡ bytes =
      ap (λ r. net.wire ++ r) (push_frame-pending c frame offset h)
      ∙ sym (append_assoc net.wire (pending c) (drop offset frame))
      ∙ e in
    elim (Bool-cases (ltb c.max_queued_bytes n || ltb (c.max_queued_bytes - n) c.queued_bytes)) [
      | inl full ↦ rw full (q, tt)
      | inr room ↦
          let within : c.queued_bytes + n ≤ c.max_queued_bytes = ground arith in
          rw room (
            start_watch-Sends bytes (push_frame c frame offset) net
              (push_frame-IsQueue c frame offset h k within q) extended)
    ]

settle-Sends : (bytes : Bytes) (o : Outcome) → Sends bytes o → Sends bytes (settle o)
unfolding settle
settle-Sends bytes (true, c, net) p = p
settle-Sends bytes (false, c, net) p = if_Sends bytes (not (is_enobufs net.errno)) _ _ p p

queue_rest-Sends :
    (bytes : Bytes) (c : Conn) (net : Net) (frame : Bytes) (w : Wrote)
    → IsQueue c
    → c.write_queue ≡ []
    → w.offset ≤ length frame
    → w.wire ++ drop w.offset frame ≡ bytes
    → Sends bytes (queue_rest c net frame w)
unfolding queue_rest
queue_rest-Sends bytes c net frame w q e k s =
    let fits : Fits c.write_queue w.offset = rw e tt in
    let empty : pending c ≡ [] = rw e in
    let all : w.done ≡ true
        → (w.done && ltb w.offset (length frame)) ≡ false
        → w.wire ++ pending c ≡ bytes =
      λ d t. ap (λ r. w.wire ++ r) (empty ∙ sym (drop-all w.offset frame (ground arith))) ∙ s in
    elim (Bool-cases (w.done && ltb w.offset (length frame))) [
      | inl t ↦ rw t (
          queue_frame-Sends bytes c (after_write net w) frame w.offset q fits k (
            ap (λ r. (w.wire ++ r) ++ drop w.offset frame) empty
            ∙ ap (λ r. r ++ drop w.offset frame) (append-nil w.wire)
            ∙ s))
      | inr t ↦ rw t (q, if_so w.done (λ d. all d t))
    ]

-- From a sound queue, `websocket_connection_send_frame`, given the packed frame, leaves a sound
-- queue on every path. If it returns true, the frame is in the stream as a whole and in order:
-- the wire and what is still owed are what they were, followed by the frame.
pub send_packed-Sends :
    (c : Conn) (net : Net) (frame : Bytes)
    → IsQueue c
    → Sends ((net.wire ++ pending c) ++ frame) (send_packed c net frame)
unfolding send_packed has_pending_writes
send_packed-Sends c net frame q =
    let bytes = (net.wire ++ pending c) ++ frame in
    let w = write_some frame 0 net in
    elim (Bool-cases (ltb c.max_queued_bytes (length frame))) [
      | inl l ↦ rw l (q, tt)
      | inr l ↦ elim (Bool-cases (ltb 0 (length c.write_queue))) [
        | inl p ↦
            rw (l, p)
              (settle-Sends bytes _ (
                queue_frame-Sends bytes c net frame 0 q (Fits-zero c.write_queue) (omega arith)
                  refl))
        | inr p ↦
            let e : c.write_queue ≡ [] = nil_of_length c.write_queue (ground arith) in
            let empty : pending c ≡ [] = rw e in
            let on_wire : w.wire ++ drop w.offset frame ≡ bytes =
              write_some-wire frame 0 net
              ∙ ap (λ r. r ++ frame)
                  (sym (append-nil net.wire) ∙ ap (λ r. net.wire ++ r) (sym empty)) in
            rw (l, p)
              (settle-Sends bytes _ (
                queue_rest-Sends bytes c net frame w q e
                  (write_some-bounds frame 0 net (omega arith)).1 on_wire))
      ]
    ]
