-- ===== src/Server/Loop.antt =====
-- The server's main loop and its end: `websocket_server_runtime_run` and
-- `websocket_server_runtime_close`.
pub mod Kept
pub mod Ended
use php_websocket.Base.{
  ℕ, Bool, true, false, not, ◌&&◌, Option, none, some, List, [], ◌∷◌, ◌++◌, ◌==◌, if◌then◌else◌,
}
use php_websocket.Protocol.Mask.{Endian}
use php_websocket.Connection.State.{Errno, Net, Conn, Call, unwatch, closed, tell}
use php_websocket.Connection.Queue.{is_interrupt}
use php_websocket.Drivers.Poll.{Waited, wait_failed, timed_out, ready}
use php_websocket.Server.Messages.{Message}
use php_websocket.Server.Reads.{Recv}
use php_websocket.Server.Timers.{Options}
use php_websocket.Server.Connections.{
  CloseHandler, Closed, close_connection, Purged, if_closed, purge_closed_connections,
}
use php_websocket.Server.Handshake.{App}
use php_websocket.Server.Accept.{Runtime, Limits, AcceptAnswer, accept_pending}
use php_websocket.Server.Round.{
  Passed, has_fd, visit_ready, visit_any, process_connection_fd, process_connections,
}

-- What does not change in a run.
pub record Config : Type 0 where
  pub endian : Endian
  pub app : App
  pub options : Options
  pub limits : Limits

-- What comes from outside in one round of the loop: whether the server is `running` and not
-- `stopped`, which `stop()` in a handler or another thread of events decides; the driver's `wait`;
-- the answers of `accept`; and the times and the answers of `recv` for the ready descriptor and in
-- the pass over all of them.
pub record Turn : Type 0 where
  pub goes_on : Bool
  pub waited : Waited
  pub accepts : List AcceptAnswer
  pub ready_usec : ℕ
  pub ready_reads : ℕ → List Recv
  pub all_usec : ℕ
  pub all_reads : ℕ → List Recv

-- How a part of a round ends: with the state and whether the loop goes on; `none` is a loop that
-- has run out of fuel.
abbrev pub Turned : Type 0
Turned = Option (Bool × Runtime)

abbrev pub with_pass : Runtime → Passed → Turned
with_pass st none = none
with_pass st (some (ok', connections, net, log)) =
    some (ok', record st { connections = connections; net = net; log = log })

abbrev pub if_turned : Turned → (Runtime → Turned) → Turned
if_turned none next = none
if_turned (some (false, st)) next = some (false, st)
if_turned (some (true, st)) next = next st

-- The descriptor that is ready is the listener, or one of a connection.
unfoldable pub serve_ready : Config → Turn → Runtime → ℕ → Turned
serve_ready g t st fd =
    if has_fd st.listener_fd fd
    then some (accept_pending g.limits st t.accepts)
    else with_pass st (
        process_connection_fd (visit_ready g.endian g.app g.options t.ready_usec t.ready_reads) fd
          st.connections st.net st.log)

abbrev pub with_purge : Runtime → Purged → Turned
with_purge st (ok', connections, net, closes) =
    some (ok', record st { connections = connections; net = net; closes = closes })

unfoldable pub purge_turn : Config → Runtime → Turned
purge_turn g st =
    with_purge st (purge_closed_connections g.app.on_close st.connections st.net st.closes)

-- The second half of a round: all connections, and the purge.
unfoldable pub serve_all : Config → Turn → Runtime → Turned
serve_all g t st =
    if_turned
      (with_pass st (
        process_connections (visit_any g.endian g.app g.options t.all_usec t.all_reads)
          st.connections st.net st.log))
      (purge_turn g)

-- Behind `wait`. An interrupted wait starts the next round; another failure ends the loop.
abbrev pub on_waited : Config → Turn → Runtime → Waited → Turned
on_waited g t st (wait_failed x) = if is_interrupt x then some (true, st) else some (false, st)
on_waited g t st timed_out = serve_all g t st
on_waited g t st (ready n none) = serve_all g t st
on_waited g t st (ready n (some fd)) = if_turned (serve_ready g t st fd) (serve_all g t)

-- One round of the loop.
unfoldable pub turn : Config → Turn → Runtime → Turned
turn g t st = on_waited g t st t.waited

abbrev pub on_turned : (Runtime → Option Runtime) → Turned → Option Runtime
on_turned next none = none
on_turned next (some (false, st)) = some st
on_turned next (some (true, st)) = next st

-- The loop, on the rounds to come; they end with the loop.
unfoldable pub run_loop : Config → List Turn → Runtime → Option Runtime
run_loop g [] st = some st
run_loop g (t ∷ rest) st =
    let next = on_turned (run_loop g rest) (turn g t st) in if t.goes_on then next else some st

-- The loop of `websocket_server_close_all_connections`, on the connections from the last to the
-- first.
unfoldable pub close_each : CloseHandler → Bool → List Conn → Net → List ℕ → Purged
close_each handler notify [] net closes = (true, [], net, closes)
close_each handler notify (c ∷ rest) net closes =
    if_closed rest (close_connection handler notify c net closes) (close_each handler notify rest)

abbrev pub last_first : List Conn → List Conn
last_first [] = []
last_first (c ∷ rest) = last_first rest ++ (c ∷ [])

-- The listener is closed first.
abbrev pub close_listener : Runtime → Net
close_listener st = tell (tell st.net st.listener_fd unwatch) st.listener_fd closed

-- A handler that throws ends the first try; the second one calls none.
abbrev pub close_rest : CloseHandler → Purged → Purged
close_rest handler (true, left, net, closes) = (true, left, net, closes)
close_rest handler (false, left, net, closes) = close_each handler false left net closes

-- `websocket_server_runtime_close`
unfoldable pub runtime_close : CloseHandler → Bool → Runtime → Runtime
runtime_close handler notify st =
    let (ok', left, net, closes) =
      close_rest handler
        (close_each handler notify (last_first st.connections) (close_listener st) st.closes) in
    record st { connections = last_first left; net = net; closes = closes; listener_fd = none }

-- `websocket_server_runtime_run` behind the listener's creation; `exception` says whether an
-- exception is pending behind the loop.
abbrev pub close_behind : CloseHandler → Bool → Option Runtime → Option Runtime
close_behind handler exception none = none
close_behind handler exception (some st) = some (runtime_close handler (not exception) st)

unfoldable pub runtime_run : Config → List Turn → Bool → Runtime → Option Runtime
runtime_run g turns exception st = close_behind g.app.on_close exception (run_loop g turns st)
