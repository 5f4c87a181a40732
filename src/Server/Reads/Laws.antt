-- ===== src/Server/Reads/Laws.antt =====
-- The read buffer stays within its limit, and every script of reads is worked off.
use php_websocket.Base.{
  ℕ, zero, suc, ◌+◌, ◌-◌, ◌*◌, ◌%◌, ◌^◌, ◌≤◌, ◌<◌, ◌≡◌, refl, true, false, ◌||◌, Option, none, some,
  List, [], ◌∷◌, Bytes, length, ltb, leb, if◌then◌else◌, Bool-cases, inl, inr, arith,
}
use php_websocket.Protocol.Mask.{Endian}
use php_websocket.Connection.State.{Conn}
use php_websocket.Connection.Queue.{is_again, is_interrupt}
use php_websocket.Server.Messages.{Handler, Session, Answer}
use php_websocket.Server.Messages.Delivered.{Gathers, UsesMethods, fail_session-Sound}
use php_websocket.Server.Messages.Loop.{Proper, Ends, process_buffered_frames-Ends}
use php_websocket.Server.Reads.{
  grow, min_of, ensure_read_capacity, read_limit, Recv, received, ended, refused, can_read,
  if_processed, process_all, take_chunk, process_frame_reads,
}

grow-enough :
    (fuel capacity needed : ℕ)
    → 1 ≤ capacity
    → needed ≤ capacity + fuel
    → needed ≤ 2 ^ 63
    → needed ≤ grow fuel capacity needed
unfolding grow
grow-enough zero capacity needed p h k = omega arith
grow-enough (suc fuel) capacity needed p h k = elim (Bool-cases (ltb capacity needed)) [
  | inr t ↦ rw t (ground arith)
  | inl t ↦
      let below : capacity < needed = ground arith in
      rw t (grow-enough fuel (capacity * 2 % 2 ^ 64) needed (omega arith) (omega arith) k)
]

min_of-le : (limit needed n : ℕ) → needed ≤ limit → needed ≤ n → needed ≤ min_of limit n
min_of-le limit needed n h k = ground arith

min_of-limit : (limit n : ℕ) → min_of limit n ≤ limit
min_of-limit limit n = ground arith

-- What `ensure_read_capacity` answers: room for the bytes within the limit, or that they would
-- not fit into the limit. Nothing but the capacity changes.
abbrev pub HasRoom : Conn → ℕ → ℕ → Option Conn → Type 0
HasRoom c append_len limit none = limit < length c.read_buffer + append_len
HasRoom c append_len limit (some c') =
    (c'.read_buffer ≡ c.read_buffer)
    × (length c.read_buffer + append_len ≤ c'.read_buffer_capacity)
    × (c'.read_buffer_capacity ≤ limit)
    × (c'.fragmented_payload ≡ c.fragmented_payload)

-- With a capacity and a limit of at most 2 ^ 63, `ensure_read_capacity` makes room for the bytes
-- to come, never beyond the limit, and refuses exactly if they do not fit into the limit.
pub ensure_read_capacity-HasRoom :
    (c : Conn) (append_len limit : ℕ)
    → limit ≤ 2 ^ 63
    → c.read_buffer_capacity ≤ limit
    → HasRoom c append_len limit (ensure_read_capacity c append_len limit)
unfolding ensure_read_capacity
ensure_read_capacity-HasRoom c append_len limit h k =
    let needed = length c.read_buffer + append_len in
    let start = (if ltb 0 c.read_buffer_capacity then c.read_buffer_capacity else 1024) in
    let positive : 1 ≤ start = ground arith in
    elim (Bool-cases (ltb limit append_len || ltb (limit - append_len) (length c.read_buffer))) [
      | inl t ↦ rw t (ground arith)
      | inr t ↦ elim (Bool-cases (leb needed c.read_buffer_capacity)) [
        | inl r ↦ rw (t, r) (refl, ground arith, k, refl)
        | inr r ↦
            let within : needed ≤ limit = ground arith in
            let large = grow-enough needed start needed positive (omega arith) (omega arith) in
            rw (t, r)
              (
                refl,
                min_of-le limit needed (grow needed start needed) within large,
                min_of-limit limit (grow needed start needed),
                refl,
              )
      ]
    ]

-- The fragments of a connection that is asked for room.
abbrev GathersIf : ℕ → Option Conn → Type 0
GathersIf max none = Unit
GathersIf max (some c) = Gathers max c

ensure_read_capacity-Gathers :
    (max : ℕ) (c : Conn) (append_len limit : ℕ)
    → Gathers max c
    → GathersIf max (ensure_read_capacity c append_len limit)
unfolding ensure_read_capacity
ensure_read_capacity-Gathers max c append_len limit g =
    elim (Bool-cases (ltb limit append_len || ltb (limit - append_len) (length c.read_buffer))) [
      | inl t ↦ rw t tt
      | inr t ↦ elim (Bool-cases (leb (length c.read_buffer + append_len) c.read_buffer_capacity)) [
        | inl r ↦ rw (t, r) g
        | inr r ↦ rw (t, r) g
      ]
    ]

if_processed-Ends :
    (max : ℕ) (a : Option Answer) (rest : Session → Option Answer)
    → Ends max a
    → ((s : Session) → Proper max s → Ends max (rest s))
    → Ends max (if_processed a rest)
if_processed-Ends max none rest p h = p
if_processed-Ends max (some (true, s)) rest p h = h s p
if_processed-Ends max (some (false, s)) rest p h = p

module _ (e : Endian) (max : ℕ) (handler : Handler) (h : UsesMethods handler) where
  process_all-Ends : (s : Session) → Proper max s → Ends max (process_all e max handler s)
  process_all-Ends s p =
      process_buffered_frames-Ends (suc (length s.conn.read_buffer)) e max handler s h p
        (omega arith)

  take_chunk-Ends :
      (s : Session) (c : Conn) (chunk : Bytes) (rest : Session → Option Answer) (r : Option Conn)
      → Proper max s
      → Gathers max c
      → GathersIf max r
      → ((s' : Session) → Proper max s' → Ends max (rest s'))
      → Ends max (take_chunk e max handler s c chunk rest r)
  take_chunk-Ends s c chunk rest none p g k i =
      let q = fail_session-Sound e max s c _ _ p.0 g in (q.0, q.1)
  take_chunk-Ends s c chunk rest (some c') p g k i =
      if_processed-Ends max _ rest (process_all-Ends _ (p.0, k)) i

  -- If the handler reaches the connection through its methods only, every script of reads is
  -- worked off with a result; every message that the handler has been called with is within
  -- `max_message_size`, a text message is valid UTF-8, and the fragments kept are within the limit.
  pub process_frame_reads-Ends :
      (s : Session) (script : List Recv)
      → Proper max s
      → Ends max (process_frame_reads e max handler s script)
  unfolding process_frame_reads
  process_frame_reads-Ends s [] p = elim (Bool-cases (can_read s.conn)) [
    | inl t ↦ rw t (process_all-Ends s p)
    | inr t ↦ rw t p
  ]
  process_frame_reads-Ends s (received b bs now ∷ rest) p = elim (Bool-cases (can_read s.conn)) [
    | inl t ↦
        let c = record s.conn { last_activity_usec = now } in
        let room = ensure_read_capacity c (suc (length bs)) (read_limit max) in
        rw t (
          take_chunk-Ends s c (b ∷ bs) (λ s'. process_frame_reads e max handler s' rest) room p p.1
            (ensure_read_capacity-Gathers max c (suc (length bs)) (read_limit max) p.1)
            (λ s' p'. process_frame_reads-Ends s' rest p'))
    | inr t ↦ rw t p
  ]
  process_frame_reads-Ends s (ended ∷ rest) p = elim (Bool-cases (can_read s.conn)) [
    | inl t ↦ rw t p
    | inr t ↦ rw t p
  ]
  process_frame_reads-Ends s (refused x ∷ rest) p = elim (Bool-cases (can_read s.conn)) [
    | inr t ↦ rw t p
    | inl t ↦ elim (Bool-cases (is_interrupt x)) [
      | inl i ↦ rw (t, i) (process_frame_reads-Ends s rest p)
      | inr i ↦ elim (Bool-cases (is_again x)) [
        | inl a ↦ rw (t, i, a) (process_all-Ends s p)
        | inr a ↦ rw (t, i, a) p
      ]
    ]
  ]
