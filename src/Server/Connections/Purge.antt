-- ===== src/Server/Connections/Purge.antt =====
-- What a purge leaves in the table, and whom it notifies.
use php_websocket.Base.{
  ℕ, ◌≡◌, refl, ap, sym, subst, ◌∙◌, Bool, true, false, not, ◌&&◌, none, some, is_some, List, [],
  ◌∷◌, ◌++◌, append_assoc, append-nil, if◌then◌else◌, arith,
}
use php_websocket.Connection.State.{Net, Conn}
use php_websocket.Server.Connections.{
  CloseHandler, Closed, notify_if, close_connection, Purged, if_closed, purge_from,
  purge_closed_connections,
}

-- The connections that are open, and the ids of the closed ones whose close is still due to be
-- told.
abbrev pub open_ones : List Conn → List Conn
open_ones [] = []
open_ones (c ∷ rest) = if c.open_state then c ∷ open_ones rest else open_ones rest

abbrev pub due : Bool → Conn → List ℕ
due has_handler c =
    if has_handler && (c.upgraded && not c.close_notified) then c.numeric_id ∷ [] else []

abbrev pub notices : Bool → List Conn → List ℕ
notices has_handler [] = []
notices has_handler (c ∷ rest) =
    if c.open_state then notices has_handler rest else due has_handler c ++ notices has_handler rest

-- If all handlers returned, the open connections are left, and each due notice was given once.
abbrev pub IsPurged : List Conn → List ℕ → Purged → Type 0
IsPurged connections log (ok', connections', net', log') =
    ok' ≡ true → (connections' ≡ connections) × (log' ≡ log)

notify_if-log :
    (handler : CloseHandler) (test : Bool) (c : Conn) (net : Net) (log : List ℕ)
    → (notify_if handler test c net log).2
      ≡ log ++ (if is_some handler && test then c.numeric_id ∷ [] else [])
notify_if-log none test c net log = sym (append-nil log)
notify_if-log (some handler) false c net log = sym (append-nil log)
notify_if-log (some handler) true c net log = refl

close_connection-log :
    (handler : CloseHandler) (c : Conn) (net : Net) (log : List ℕ)
    → (close_connection handler true c net log).2 ≡ log ++ due (is_some handler) c
unfolding close_connection
close_connection-log handler c net log = notify_if-log handler _ _ _ log

if_closed-IsPurged :
    (connections : List Conn) (log : List ℕ) (left : List Conn) (r : Closed)
    (rest : Net → List ℕ → Purged)
    → ((net : Net) → IsPurged connections log (rest net r.2))
    → IsPurged connections log (if_closed left r rest)
if_closed-IsPurged connections log left (true, net, log') rest h = h net
if_closed-IsPurged connections log left (false, net, log') rest h = λ e. absurd (ground arith)

if_IsPurged :
    (test : Bool) (kept xs ys : List Conn) (log us vs : List ℕ) (a b : Purged)
    → IsPurged (kept ++ xs) (log ++ us) a
    → IsPurged (kept ++ ys) (log ++ vs) b
    → IsPurged
        (kept ++ (if test then xs else ys))
        (log ++ (if test then us else vs))
        (if test then a else b)
if_IsPurged true kept xs ys log us vs a b p q = p
if_IsPurged false kept xs ys log us vs a b p q = q

purge_from-IsPurged :
    (handler : CloseHandler) (kept connections : List Conn) (net : Net) (log : List ℕ)
    → IsPurged
        (kept ++ open_ones connections)
        (log ++ notices (is_some handler) connections)
        (purge_from handler kept connections net log)
unfolding purge_from
purge_from-IsPurged handler kept [] net log = λ e. (sym (append-nil kept), sym (append-nil log))
purge_from-IsPurged handler kept (c ∷ rest) net log =
    let told = notices (is_some handler) rest in
    let closing = close_connection handler true c net log in
    let stays = purge_from handler (kept ++ (c ∷ [])) rest net log in
    let goes = if_closed (kept ++ rest) closing (purge_from handler kept rest) in
    let same : closing.2 ++ told ≡ log ++ (due (is_some handler) c ++ told) =
      ap (λ l. l ++ told) (close_connection-log handler c net log)
      ∙ append_assoc log (due (is_some handler) c) told in
    if_IsPurged c.open_state kept (c ∷ open_ones rest) (open_ones rest) log told
      (due (is_some handler) c ++ told) stays goes
      (subst (λ l. IsPurged l (log ++ told) stays) (append_assoc kept (c ∷ []) (open_ones rest))
        (purge_from-IsPurged handler (kept ++ (c ∷ [])) rest net log))
      (if_closed-IsPurged (kept ++ open_ones rest) (log ++ (due (is_some handler) c ++ told))
        (kept ++ rest) closing (purge_from handler kept rest)
        (λ n.
          subst
            (λ l. IsPurged (kept ++ open_ones rest) l (purge_from handler kept rest n closing.2))
            same (purge_from-IsPurged handler kept rest n closing.2)))

-- If the close handler acts on no connection but the one it is called with, which is what its type
-- says here, and `websocket_server_purge_closed_connections` returns true, the open connections are
-- left in their order, and the handler, if it is set, has been called once, in their order, with
-- each closed connection that was upgraded and had not been told before, and with no other.
pub purge_closed_connections-IsPurged :
    (handler : CloseHandler) (connections : List Conn) (net : Net) (log : List ℕ)
    → IsPurged
        (open_ones connections)
        (log ++ notices (is_some handler) connections)
        (purge_closed_connections handler connections net log)
unfolding purge_closed_connections
purge_closed_connections-IsPurged handler connections net log =
    purge_from-IsPurged handler [] connections net log
