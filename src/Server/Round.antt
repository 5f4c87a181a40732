-- ===== src/Server/Round.antt =====
-- One round over the connections: `websocket_server_process_connection_fd` and
-- `websocket_server_process_connections`.
pub mod Steady
pub mod Kept
pub mod Timely
use php_websocket.Base.{
  ℕ, suc, Bool, true, false, not, ◌&&◌, ◌||◌, Option, none, some, List, [], ◌∷◌, length, ltb, ◌==◌,
  if◌then◌else◌,
}
use php_websocket.Protocol.Mask.{Endian}
use php_websocket.Connection.State.{other, Net, Conn, Outcome}
use php_websocket.Connection.Queue.{has_pending_writes, flush}
use php_websocket.Server.Messages.{Message, Session, Answer, on_session}
use php_websocket.Server.Reads.{Recv, refused, process_all, process_frame_reads}
use php_websocket.Server.Timers.{Options, connection_expired, close_expired, process_heartbeat}
use php_websocket.Server.Handshake.{App, process_handshake}

-- What the two functions do first with a connection: they are done with it, with a result, or they
-- go on to read.
pub data Prepared : Type 0 where
  stops : Outcome → Prepared
  goes : Conn → Net → Prepared

abbrev pub after_flush : Outcome → Prepared
after_flush (false, c, net) = stops (true, c, net)
after_flush (true, c, net) =
    if not c.open_state || c.close_after_write then stops (true, c, net) else goes c net

abbrev pub after_heartbeat : Outcome → Prepared
after_heartbeat (false, c, net) = stops (false, c, net)
after_heartbeat (true, c, net) =
    after_flush (if has_pending_writes c then flush c net else (true, c, net))

-- The part that the two functions share: time limit, heartbeat and pending writes.
unfoldable pub prepare : Endian → Options → Conn → Net → ℕ → Prepared
prepare e o c net now =
    if not c.open_state
    then stops (true, c, net)
    else if connection_expired o c now
    then (let (c', net') = close_expired e c net in stops (true, c', net'))
    else after_heartbeat (process_heartbeat e o c net now)

-- What a function makes of a connection in its turn.
abbrev pub Visit : Type 0
Visit = Conn → Net → List Message → Option Answer

-- The answers of `recv` for a descriptor; on -1 it fails with EBADF, which is 9.
abbrev pub script_of : (ℕ → List Recv) → Option ℕ → List Recv
script_of reads none = refused (other 9) ∷ []
script_of reads (some fd) = reads fd

abbrev pub read_ready : Endian → App → (ℕ → List Recv) → List Message → Prepared → Option Answer
read_ready e app reads log (stops o) = some (on_session log o)
read_ready e app reads log (goes c net) =
    let s : Session = record { conn = c; net = net; log = log } in
    if not c.upgraded
    then process_handshake e app s (script_of reads c.fd)
    else process_frame_reads e app.max_message_size app.on_message s (script_of reads c.fd)

-- The turn of a connection in `websocket_server_process_connection_fd`.
unfoldable pub visit_ready : Endian → App → Options → ℕ → (ℕ → List Recv) → Visit
visit_ready e app o now reads c net log = read_ready e app reads log (prepare e o c net now)

-- The last test of the loop in `websocket_server_process_connections`.
abbrev pub read_buffered : Endian → App → Session → Option Answer
read_buffered e app s =
    if s.conn.upgraded && ltb 0 (length s.conn.read_buffer)
    then process_all e app.max_message_size app.on_message s
    else some (true, s)

abbrev pub then_buffered : Endian → App → Option Answer → Option Answer
then_buffered e app none = none
then_buffered e app (some (false, s)) = some (false, s)
then_buffered e app (some (true, s)) = read_buffered e app s

abbrev pub read_any : Endian → App → (ℕ → List Recv) → List Message → Prepared → Option Answer
read_any e app reads log (stops o) = some (on_session log o)
read_any e app reads log (goes c net) =
    let s : Session = record { conn = c; net = net; log = log } in
    if not c.upgraded
    then then_buffered e app (process_handshake e app s (script_of reads c.fd))
    else read_buffered e app s

-- The turn of a connection in `websocket_server_process_connections`.
unfoldable pub visit_any : Endian → App → Options → ℕ → (ℕ → List Recv) → Visit
visit_any e app o now reads c net log = read_any e app reads log (prepare e o c net now)

-- The table behind a pass over it, with what is outside and the messages delivered; `none` is a
-- loop that has run out of fuel.
abbrev pub Passed : Type 0
Passed = Option (Bool × List Conn × Net × List Message)

abbrev pub keep : Conn → Passed → Passed
keep c none = none
keep c (some (ok', connections, net, log)) = some (ok', c ∷ connections, net, log)

abbrev pub put_back : List Conn → Option Answer → Passed
put_back rest none = none
put_back rest (some (ok', s)) = some (ok', s.conn ∷ rest, s.net, s.log)

abbrev pub has_fd : Option ℕ → ℕ → Bool
has_fd none fd = false
has_fd (some x) fd = x == fd

-- `websocket_server_process_connection_fd`, on the first connection of the descriptor.
unfoldable pub process_connection_fd : Visit → ℕ → List Conn → Net → List Message → Passed
process_connection_fd visit fd [] net log = some (true, [], net, log)
process_connection_fd visit fd (c ∷ rest) net log =
    let later = keep c (process_connection_fd visit fd rest net log) in
    if not (has_fd c.fd fd) then later else put_back rest (visit c net log)

abbrev pub and_others : List Conn → (Net → List Message → Passed) → Option Answer → Passed
and_others rest next none = none
and_others rest next (some (false, s)) = some (false, s.conn ∷ rest, s.net, s.log)
and_others rest next (some (true, s)) = keep s.conn (next s.net s.log)

-- `websocket_server_process_connections`
unfoldable pub process_connections : Visit → List Conn → Net → List Message → Passed
process_connections visit [] net log = some (true, [], net, log)
process_connections visit (c ∷ rest) net log =
    and_others rest (process_connections visit rest) (visit c net log)
