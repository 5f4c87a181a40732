-- ===== src/Server/Accept.antt =====
-- Accepting connections.
pub mod Bounded
use php_websocket.Base.{
  ℕ, zero, suc, ◌+◌, ◌*◌, Bool, true, false, not, ◌&&◌, Option, none, some, List, [], ◌∷◌, ◌++◌,
  length, ltb, leb, ◌==◌, if◌then◌else◌,
}
use php_websocket.Protocol.Mask.{Endian}
use php_websocket.Connection.State.{Errno, Net, Conn, Call, closed, tell, new_conn, close_socket}
use php_websocket.Connection.Queue.{is_again, is_interrupt}
use php_websocket.Server.Answers.Texts.{service_unavailable_response}
use php_websocket.Server.Answers.{send_bytes}
use php_websocket.Server.Messages.{Message}
use php_websocket.Server.Reachable.{opened}

-- The server's state in its loop: the table of connections with its capacity, the listener, the
-- next connection's number, what is outside, the messages that the message handler has been called
-- with, and the numbers of the connections that the close handler has been called with. All
-- connections share `net`: its `wire` is what the kernel has taken of all of them, in the order of
-- the calls.
pub record Runtime : Type 0 where
  pub connections : List Conn
  pub capacity : ℕ
  pub listener_fd : Option ℕ
  pub next_id : ℕ
  pub net : Net
  pub log : List Message
  pub closes : List ℕ

-- The options that accepting reads.
pub record Limits : Type 0 where
  pub max_connections : ℕ
  pub max_queued_bytes : ℕ

-- What the system answers to `accept` and behind it: the error, or the descriptor, with the errors
-- of `websocket_server_set_nonblocking` and of the driver's `watch_read`, if there are any, and the
-- time.
pub data AcceptAnswer : Type 0 where
  no_client : Errno → AcceptAnswer
  client : ℕ → Option Errno → Option Errno → ℕ → AcceptAnswer

-- How `websocket_server_accept_connection` ends: it returns true, or false with `errno`, or false
-- with an exception.
pub data Accepted : Type 0 where
  taken : Runtime → Accepted
  not_taken : Errno → Runtime → Accepted
  raised : Runtime → Accepted

-- `websocket_server_ensure_connection_capacity`
unfoldable pub ensure_connection_capacity : ℕ → ℕ → ℕ
ensure_connection_capacity count capacity =
    if ltb count capacity then capacity else if capacity == 0 then 8 else capacity * 2

-- The connection that is made for a client.
abbrev pub accepted_conn : Limits → Runtime → ℕ → ℕ → Conn
accepted_conn l st fd now = record (opened new_conn st.next_id fd st.net l.max_queued_bytes) {
  accepted_at_usec = now;
  last_activity_usec = now;
}

-- Behind `websocket_server_ensure_connection_capacity`.
abbrev pub watch_client : Runtime → Conn → Option Errno → Accepted
watch_client st c none = taken (record st { connections = st.connections ++ (c ∷ []) })
watch_client st c (some x) = raised (record st { net = (close_socket c st.net).1 })

abbrev pub admit : Limits → Runtime → ℕ → Option Errno → Option Errno → ℕ → Accepted
admit l st fd (some x) watch now = raised (record st { net = tell st.net (some fd) closed })
admit l st fd none watch now =
    watch_client
      (record st {
        capacity = ensure_connection_capacity (length st.connections) st.capacity;
        next_id = suc st.next_id;
      })
      (accepted_conn l st fd now) watch

-- A client too many is told so, and closed.
abbrev pub turn_away : Runtime → ℕ → Runtime
turn_away st fd = record st {
  net = tell (send_bytes service_unavailable_response st.net).1 (some fd) closed;
}

-- `websocket_server_accept_connection`. A driver that fails to watch the descriptor leaves an
-- exception.
unfoldable pub accept_connection : Limits → Runtime → AcceptAnswer → Accepted
accept_connection l st (no_client x) = not_taken x st
accept_connection l st (client fd nonblocking watch now) =
    if leb l.max_connections (length st.connections)
    then taken (turn_away st fd)
    else admit l st fd nonblocking watch now

abbrev pub accept_batch_limit : ℕ
accept_batch_limit = 1024

-- What the loop of `websocket_server_accept_pending` does behind a call; `again` is the next round
-- with the same count of connections accepted, `next` the one with one more. Without an exception
-- the function returns true, whatever the error is.
abbrev pub on_accepted :
    (Runtime → Bool × Runtime) → (Runtime → Bool × Runtime) → Accepted → Bool × Runtime
on_accepted again next (taken st) = next st
on_accepted again next (raised st) = (false, st)
on_accepted again next (not_taken x st) =
    if is_again x then (true, st) else if is_interrupt x then again st else (true, st)

-- The loop, with the number of connections that it may accept still, on a script of answers; one
-- that has run out answers that the call would block. Nothing in it changes the tests of `running`
-- and `stopped`, which hold in front of it.
unfoldable pub accept_from : Limits → ℕ → Runtime → List AcceptAnswer → Bool × Runtime
accept_from l left st [] = (true, st)
accept_from l zero st (answer ∷ rest) = (true, st)
accept_from l (suc left) st (answer ∷ rest) =
    on_accepted (λ st'. accept_from l (suc left) st' rest) (λ st'. accept_from l left st' rest)
      (accept_connection l st answer)

-- `websocket_server_accept_pending`
unfoldable pub accept_pending : Limits → Runtime → List AcceptAnswer → Bool × Runtime
accept_pending l st answers = accept_from l accept_batch_limit st answers
