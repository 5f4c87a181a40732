-- ===== src/Tests/Servers.antt =====
-- The server's objects and its loop: runs, and the theorems at concrete inputs.
use php_websocket.Base.{◌≡◌, refl, true, false, none, some, [], ◌∷◌, ◌++◌, arith}
use php_websocket.Base.Int.{pos}
use php_websocket.Protocol.Mask.{little}
use php_websocket.Connection.State.{sent, Conn, new_conn}
use php_websocket.Drivers.Poll.{ready}
use php_websocket.Http.Tokens.{valid_bytes, validate_subprotocol_token}
use php_websocket.Server.Accept.{Runtime, Limits, client, accept_connection}
use php_websocket.Server.Accept.Bounded.{Admits, accept_connection-Admits}
use php_websocket.Server.Loop.{Config, Turn, run_loop, runtime_close, last_first}
use php_websocket.Server.Loop.Kept.{EndsIn, run_loop-Ends}
use php_websocket.Server.Loop.Ended.{listener_closings, all_closings, runtime_close-closes}
use php_websocket.Api.Values.{string, value_error}
use php_websocket.Api.Options.{
  ServerOptions, default_options, construct_options, IsConstructed, construct_options-IsConstructed,
}
use php_websocket.Http.Headers.{until_nul}
use php_websocket.Api.Server.{
  Server, Globals, run, new_server, set_subprotocols, listen, check_protocols,
}
use php_websocket.Api.Server.Checked.{IsChosen, set_subprotocols-IsChosen}
use php_websocket.Api.Server.Reached.{
  created, chooses, listens, enters, Enters, IsServer, Reached-IsServer,
}
use php_websocket.Api.Responses.{construct_response}
use php_websocket.Api.Responses.Admitted.{IsResponse, construct_response-IsResponse}
use php_websocket.Tests.Requests.{chat, request}
use php_websocket.Tests.Handshakes.{app, net, chunk}

-- Options with no room for a single connection.
abbrev no_room : ServerOptions
no_room = record default_options { max_connections = pos 0 }

construct_options-IsConstructed_example : IsConstructed no_room (some 3) (construct_options no_room)
construct_options-IsConstructed_example = construct_options-IsConstructed no_room

set_subprotocols-IsChosen_example :
    IsChosen new_server
      (string chat ∷ string chat ∷ [])
      (set_subprotocols new_server (string chat ∷ string chat ∷ []))
set_subprotocols-IsChosen_example =
    set_subprotocols-IsChosen new_server (string chat ∷ string chat ∷ []) refl

twice_throws :
    set_subprotocols new_server (string chat ∷ string chat ∷ [])
    ≡ (some (value_error 2), new_server)
unfolding set_subprotocols check_protocols validate_subprotocol_token valid_bytes
twice_throws = refl

abbrev chosen : Server
chosen = (set_subprotocols new_server (string chat ∷ [])).1

-- It listens on "1", port 8080, and its loop is entered with the driver "poll".
abbrev listening : Server
listening = (listen chosen (49 ∷ []) (pos 8080)).1

abbrev before_run : Globals
before_run = record { running = false; stopped = true; driver = none }

abbrev within_run : Globals
within_run = record { running = true; stopped = false; driver = some (112 ∷ 111 ∷ 108 ∷ 108 ∷ []) }

run-Enters :
    Enters
      (some (112 ∷ 111 ∷ 108 ∷ 108 ∷ []))
      before_run
      listening
      within_run
      (record listening { running = true })
unfolding run listen until_nul
run-Enters = λ loop. refl

Reached-IsServer_example : IsServer (record listening { running = true })
Reached-IsServer_example =
    Reached-IsServer (record listening { running = true })
      (enters (some (112 ∷ 111 ∷ 108 ∷ 108 ∷ [])) before_run within_run run-Enters
        (listens (49 ∷ []) (pos 8080) (chooses (string chat ∷ []) created)))

-- A response 401 with the header "a: b" and the body "no".
construct_response-IsResponse_example :
    IsResponse
      (pos 401)
      ((some (97 ∷ []), string (98 ∷ [])) ∷ [])
      (110 ∷ 111 ∷ [])
      (construct_response (pos 401) ((some (97 ∷ []), string (98 ∷ [])) ∷ []) (110 ∷ 111 ∷ []))
construct_response-IsResponse_example =
    construct_response-IsResponse (pos 401) ((some (97 ∷ []), string (98 ∷ [])) ∷ [])
      (110 ∷ 111 ∷ [])

-- A server with the listener 3, the connection 7, and room for one more.
abbrev seven : Conn
seven = record new_conn { fd = some 7; open_state = true; numeric_id = 1 }

abbrev serving : Runtime
serving = record {
  connections = seven ∷ [];
  capacity = 8;
  listener_fd = some 3;
  next_id = 2;
  net = net (sent 500 ∷ []);
  log = [];
  closes = [];
}

abbrev two : Limits
two = record { max_connections = 2; max_queued_bytes = 1000 }

accept_connection-Admits_example :
    Admits two serving (accept_connection two serving (client 8 none none 5))
accept_connection-Admits_example =
    accept_connection-Admits two serving (client 8 none none 5) (omega arith, omega arith)

abbrev config : Config
config = record {
  endian = little;
  app = app;
  options = record {
    handshake_timeout_ms = none;
    idle_timeout_ms = none;
    ping_interval_ms = none;
    pong_timeout_ms = none;
  };
  limits = two;
}

-- The listener is ready and two clients are accepted; then the connection 7 sends its request.
abbrev accepting : Turn
accepting = record {
  goes_on = true;
  waited = ready 1 (some 3);
  accepts = client 8 none none 5 ∷ client 9 none none 5 ∷ [];
  ready_usec = 5;
  ready_reads = λ fd. [];
  all_usec = 5;
  all_reads = λ fd. [];
}

abbrev reading : Turn
reading = record accepting { waited = ready 1 (some 7); ready_reads = λ fd. chunk request ∷ [] }

run_loop-Ends_example :
    EndsIn config (tt, tt, tt) (run_loop config (accepting ∷ reading ∷ []) serving)
run_loop-Ends_example =
    run_loop-Ends config (tt, tt, tt) (accepting ∷ reading ∷ []) serving
      ((omega arith, omega arith), (omega arith, tt), tt)

runtime_close-closes_example :
    let st' = runtime_close none true serving in
    (st'.connections ≡ [])
    × (st'.listener_fd ≡ none)
    × (st'.net.calls ≡ [] ++ (listener_closings (some 3) ++ all_closings (last_first (seven ∷ []))))
runtime_close-closes_example = runtime_close-closes none true serving tt
