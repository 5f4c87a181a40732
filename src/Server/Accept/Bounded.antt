-- ===== src/Server/Accept/Bounded.antt =====
-- The table of connections stays within its limit and its array.
use php_websocket.Base.{
  ℕ, zero, suc, ◌≤◌, ◌<◌, ◌≡◌, refl, Bool, true, false, Option, none, some, List, [], ◌∷◌, ◌++◌,
  ◌∙◌, sym, subst, ◌⊎◌, All, length, length-append, ltb, leb, ◌==◌, Bool-cases, inl, inr, arith,
}
use php_websocket.Connection.State.{Errno, Conn, connection_open, clear_write_queue}
use php_websocket.Connection.Queue.{is_again, is_interrupt}
use php_websocket.Server.Messages.{Message}
use php_websocket.Server.Accept.{
  Runtime, Limits, AcceptAnswer, no_client, client, Accepted, taken, not_taken, raised,
  ensure_connection_capacity, accepted_conn, admit, accept_connection, on_accepted, accept_from,
  accept_batch_limit, accept_pending,
}

-- The table is within the limit and within its array.
abbrev pub IsTable : Limits → Runtime → Type 0
IsTable l st = (length st.connections ≤ l.max_connections) × (length st.connections ≤ st.capacity)

-- What `accept_connection` leaves of a table: it is the same, or, if there was room for it, it has
-- one more connection at its end, which is open, not upgraded, and has sent and received nothing.
abbrev pub IsFresh : Limits → Runtime → Conn → Type 0
IsFresh l st c =
    (length st.connections < l.max_connections)
    × (c.numeric_id ≡ st.next_id)
    × (c.open_state ≡ true)
    × (c.upgraded ≡ false)
    × (c.read_buffer ≡ [])
    × (c.write_queue ≡ [])
    × (c.max_queued_bytes ≡ l.max_queued_bytes)
    × (c.fragmented_payload ≡ none)

abbrev pub Admits : Limits → Runtime → Accepted → Type 0
Admits l st (not_taken x st') = st' ≡ st
Admits l st (raised st') = IsTable l st' × (st'.log ≡ st.log) × (st'.connections ≡ st.connections)
Admits l st (taken st') =
    IsTable l st'
    × (st'.log ≡ st.log)
    × ((st'.connections ≡ st.connections)
        ⊎ ((c : Conn) × (st'.connections ≡ st.connections ++ (c ∷ [])) × IsFresh l st c))

ensure_connection_capacity-enough :
    (count capacity : ℕ) → count ≤ capacity → count < ensure_connection_capacity count capacity
unfolding ensure_connection_capacity
ensure_connection_capacity-enough count capacity h = elim (Bool-cases (ltb count capacity)) [
  | inl t ↦ rw t (ground arith)
  | inr t ↦ elim (Bool-cases (capacity == 0)) [
    | inl z ↦ rw (t, z) (ground arith)
    | inr z ↦ rw (t, z) (ground arith)
  ]
]

admit-Admits :
    (l : Limits) (st : Runtime) (fd : ℕ) (nonblocking watch : Option Errno) (now : ℕ)
    → IsTable l st
    → length st.connections < l.max_connections
    → Admits l st (admit l st fd nonblocking watch now)
unfolding connection_open clear_write_queue
admit-Admits l st fd (some x) watch now p h = (p, refl, refl)
admit-Admits l st fd none (some x) now p h =
    let room = ensure_connection_capacity-enough (length st.connections) st.capacity p.1 in
    ((p.0, omega (arith, room)), refl, refl)
admit-Admits l st fd none none now p h =
    let room = ensure_connection_capacity-enough (length st.connections) st.capacity p.1 in
    let longer = length-append st.connections (accepted_conn l st fd now ∷ []) in
    (
      (omega (arith, longer, h), omega (arith, longer, room)),
      refl,
      inr (accepted_conn l st fd now, refl, (h, refl, refl, refl, refl, refl, refl, refl)),
    )

-- `websocket_server_accept_connection` keeps the table within `maxConnections` and within its
-- array; it adds a connection only if there is room for it, at the end, and that connection is
-- open, not upgraded, with the next number and empty buffers. If it returns false without an
-- exception, nothing has changed.
pub accept_connection-Admits :
    (l : Limits) (st : Runtime) (answer : AcceptAnswer)
    → IsTable l st
    → Admits l st (accept_connection l st answer)
unfolding accept_connection
accept_connection-Admits l st (no_client x) p = refl
accept_connection-Admits l st (client fd nonblocking watch now) p =
    elim (Bool-cases (leb l.max_connections (length st.connections))) [
      | inl t ↦ rw t (p, refl, inl refl)
      | inr t ↦ rw t (admit-Admits l st fd nonblocking watch now p (ground (arith, t)))
    ]

-- A property of all connections that fresh ones have is kept, with the bounds.
module _ (l : Limits) (P : Conn → Type 0)
    (fresh : (st : Runtime) (c : Conn) → IsFresh l st c → P c) where
  -- The table is within its bounds, all connections have the property, and `log` is as it was.
  abbrev pub IsGood : List Message → Runtime → Type 0
  IsGood log st = IsTable l st × All P st.connections × (st.log ≡ log)

  abbrev pub Keeps : List Message → Bool × Runtime → Type 0
  Keeps log (ok', st) = IsGood log st

  All-snoc : (cs : List Conn) (c : Conn) → All P cs → P c → All P (cs ++ (c ∷ []))
  All-snoc [] c p q = (q, tt)
  All-snoc (x ∷ cs) c p q = (p.0, All-snoc cs c p.1 q)

  on_accepted-Keeps :
      (log : List Message) (st : Runtime) (again next : Runtime → Bool × Runtime) (r : Accepted)
      → IsGood log st
      → Admits l st r
      → ((st' : Runtime) → IsGood log st' → Keeps log (again st'))
      → ((st' : Runtime) → IsGood log st' → Keeps log (next st'))
      → Keeps log (on_accepted again next r)
  on_accepted-Keeps log st again next (taken st') (t, p, q) (t', g, inl e) h k =
      k st' (t', subst (All P) (sym e) p, g ∙ q)
  on_accepted-Keeps log st again next (taken st') (t, p, q) (t', g, inr (c, e, f)) h k =
      k st' (t', subst (All P) (sym e) (All-snoc st.connections c p (fresh st c f)), g ∙ q)
  on_accepted-Keeps log st again next (raised st') (t, p, q) (t', g, e) h k =
      (t', subst (All P) (sym e) p, g ∙ q)
  on_accepted-Keeps log st again next (not_taken x st') good e h k =
      let good' = subst (IsGood log) (sym e) good in
      elim (Bool-cases (is_again x)) [
        | inl a ↦ rw a good'
        | inr a ↦ elim (Bool-cases (is_interrupt x)) [
          | inl i ↦ rw (a, i) (h st' good')
          | inr i ↦ rw (a, i) good'
        ]
      ]

  accept_from-Keeps :
      (log : List Message) (left : ℕ) (st : Runtime) (answers : List AcceptAnswer)
      → IsGood log st
      → Keeps log (accept_from l left st answers)
  unfolding accept_from
  accept_from-Keeps log left st [] p = p
  accept_from-Keeps log zero st (answer ∷ rest) p = p
  accept_from-Keeps log (suc left) st (answer ∷ rest) p =
      on_accepted-Keeps log st (λ s. accept_from l (suc left) s rest)
        (λ s. accept_from l left s rest) (accept_connection l st answer) p
        (accept_connection-Admits l st answer p.0)
        (λ s p'. accept_from-Keeps log (suc left) s rest p')
        (λ s p'. accept_from-Keeps log left s rest p')

  pub accept_pending-Keeps :
      (log : List Message) (st : Runtime) (answers : List AcceptAnswer)
      → IsGood log st
      → Keeps log (accept_pending l st answers)
  unfolding accept_pending
  accept_pending-Keeps log st answers p = accept_from-Keeps log accept_batch_limit st answers p
