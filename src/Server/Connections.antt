-- ===== src/Server/Connections.antt =====
-- The table of connections: closing one, and purging those that are closed.
pub mod Purge
use php_websocket.Base.{
  ℕ, Bool, true, false, not, ◌&&◌, ◌||◌, Option, none, some, List, [], ◌∷◌, ◌++◌, if◌then◌else◌,
}
use php_websocket.Connection.State.{Net, Conn, Outcome, tell, unwatch, close_socket}

-- The application's `onClose` closure, if it is set; it answers whether it returned without an
-- exception. It acts on the connection that it is called with and on no other: a closure that
-- closes another connection of the table, which PHP allows, is no function of this type.
abbrev pub CloseHandler : Type 0
CloseHandler = Option (Conn → Net → Outcome)

-- What closing a connection leaves: the result, what is outside, and the ids of the connections
-- that the handler has been called with.
abbrev pub Closed : Type 0
Closed = Bool × Net × List ℕ

abbrev pub released : List ℕ → Outcome → Closed
released log (ok', c, net) = (ok', (close_socket c net).1, log)

-- The call of the handler, if there is one and it is due, and the `close` behind it.
abbrev pub notify_if : CloseHandler → Bool → Conn → Net → List ℕ → Closed
notify_if none due c net log = released log (true, c, net)
notify_if (some handler) false c net log = released log (true, c, net)
notify_if (some handler) true c net log =
    released (log ++ (c.numeric_id ∷ [])) (handler (record c { close_notified = true }) net)

-- `websocket_server_close_connection_at`, on the connection that it takes out of the table.
unfoldable pub close_connection : CloseHandler → Bool → Conn → Net → List ℕ → Closed
close_connection handler notify c net log =
    notify_if handler (notify && c.upgraded && not c.close_notified)
      (record c { open_state = false }) (tell net c.fd unwatch) log

-- The table, and what a run of a loop over it leaves.
abbrev pub Purged : Type 0
Purged = Bool × List Conn × Net × List ℕ

abbrev pub if_closed : List Conn → Closed → (Net → List ℕ → Purged) → Purged
if_closed left (true, net, log) rest = rest net log
if_closed left (false, net, log) rest = (false, left, net, log)

-- The loop of `websocket_server_purge_closed_connections`: `kept` are the connections in front of
-- the position `i`.
unfoldable pub purge_from : CloseHandler → List Conn → List Conn → Net → List ℕ → Purged
purge_from handler kept [] net log = (true, kept, net, log)
purge_from handler kept (c ∷ rest) net log =
    let goes_on = purge_from handler (kept ++ (c ∷ [])) rest net log in
    if c.open_state
    then goes_on
    else if_closed (kept ++ rest) (close_connection handler true c net log)
        (purge_from handler kept rest)

-- `websocket_server_purge_closed_connections`
unfoldable pub purge_closed_connections : CloseHandler → List Conn → Net → List ℕ → Purged
purge_closed_connections handler connections net log = purge_from handler [] connections net log
