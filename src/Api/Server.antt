-- ===== src/Api/Server.antt =====
-- The methods of `WebSocket\Server` that are called in front of `run`, its guards, and `stop`.
pub mod Checked
pub mod Reached
use php_websocket.Base.{
  ℕ, suc, Bool, true, false, not, ◌||◌, Option, none, some, List, [], ◌∷◌, ◌++◌, Bytes, length,
  ◌==◌, if◌then◌else◌,
}
use php_websocket.Base.Int.{ℤ, pos, lt_nat, gt_nat}
use php_websocket.Http.Headers.{until_nul}
use php_websocket.Http.Tokens.{validate_subprotocol_token, is_in}
use php_websocket.Api.Values.{
  Value, string, other, Exception, error, type_error, value_error, Made, made, throws,
}

-- Of `websocket_server_object`, what these methods read and write. The keys and the values of
-- `subprotocols` are the same.
pub record Server : Type 0 where
  pub subprotocols : List Bytes
  pub host : Option Bytes
  pub port : ℤ
  pub listening : Bool
  pub running : Bool

-- `websocket_server_create_object`, with the end of the constructor.
abbrev pub new_server : Server
new_server = record {
  subprotocols = [];
  host = none;
  port = pos 0;
  listening = false;
  running = false;
}

-- A method's exception, if it throws one, and the object.
abbrev pub Thrown : Type 0
Thrown = Option Exception × Server

-- The loop of `WebSocket\Server::subprotocols`, at the argument `i`; `seen` and `normalized` hold
-- the same strings.
unfoldable pub check_protocols : ℕ → List Bytes → List Value → Made (List Bytes)
check_protocols i seen [] = made seen
check_protocols i seen (other ∷ rest) = throws (type_error (suc i))
check_protocols i seen (string name ∷ rest) =
    let more = check_protocols (suc i) (seen ++ (name ∷ [])) rest in
    if not (validate_subprotocol_token name)
    then throws (value_error (suc i))
    else if is_in name seen
    then throws (value_error (suc i))
    else more

abbrev pub store_protocols : Server → Made (List Bytes) → Thrown
store_protocols s (made names) = (none, record s { subprotocols = names })
store_protocols s (throws x) = (some x, s)

-- `WebSocket\Server::subprotocols`
unfoldable pub set_subprotocols : Server → List Value → Thrown
set_subprotocols s protocols =
    if s.running then (some error, s) else store_protocols s (check_protocols 0 [] protocols)

-- `WebSocket\Server::listen`
unfoldable pub listen : Server → Bytes → ℤ → Thrown
listen s host port =
    if lt_nat port 1 || gt_nat port 65535
    then (some (value_error 2), s)
    else if not (length (until_nul host) == length host)
    then (some (value_error 1), s)
    else (none, record s { host = some host; port = port; listening = true })

-- The globals of the extension; the driver by its name.
pub record Globals : Type 0 where
  pub running : Bool
  pub stopped : Bool
  pub driver : Option Bytes

-- `websocket_server_runtime_run`, with the exception that it leaves.
abbrev pub Loop : Type 0
Loop = Globals → Server → Option Exception × Globals × Server

abbrev pub run_with : Loop → Globals → Server → Option Bytes → Option Exception × Globals × Server
run_with loop g s none = (some error, record g { driver = none }, s)
run_with loop g s (some driver) =
    let (x, g', s') =
      loop (record { running = true; stopped = false; driver = some driver })
        (record s { running = true }) in
    (x, record g' { running = false }, record s' { running = false })

abbrev pub or_best : Option Bytes → Option Bytes → Option Bytes
or_best none best = best
or_best (some driver) best = some driver

-- `WebSocket\Server::run`; `best` is what `websocket_select_best_driver` answers.
unfoldable pub run : Loop → Option Bytes → Globals → Server → Option Exception × Globals × Server
run loop best g s =
    if g.running
    then (some error, g, s)
    else if not s.listening
    then (some error, g, s)
    else run_with loop g s (or_best g.driver best)

-- `WebSocket\Server::stop`
unfoldable pub stop : Globals → Server → Globals × Server
stop g s = (record g { stopped = true }, record s { running = false })
