-- ===== src/Tests/Limits.antt =====
-- Timers: the heartbeat and the pass over a connection at concrete times.
use php_websocket.Base.{◌≡◌, refl, true, none, some, []}
use php_websocket.Base.Int.{pos}
use php_websocket.Protocol.Mask.{little}
use php_websocket.Connection.State.{success, Net, Conn, new_conn}
use php_websocket.Server.Timers.{
  Options, connection_expired, process_heartbeat, handshake_timeout_usec, idle_timeout_usec,
  positive_option,
}
use php_websocket.Server.Timers.Heartbeat.{Beats, process_heartbeat-Beats}
use php_websocket.Server.Round.{prepare}
use php_websocket.Server.Round.Timely.{IsTimely, prepare-IsTimely}

-- A ping each second, and five seconds for its answer.
abbrev beating : Options
beating = record {
  handshake_timeout_ms = none;
  idle_timeout_ms = some (pos 60000);
  ping_interval_ms = some (pos 1000);
  pong_timeout_ms = some (pos 5000);
}

-- A connection that has last been heard of after two seconds, and pinged after three.
abbrev silent : Conn
silent = record new_conn {
  fd = some 7;
  open_state = true;
  upgraded = true;
  accepted_at_usec = 1000000;
  last_activity_usec = 2000000;
  last_ping_usec = 3000000;
  awaiting_pong = true;
}

abbrev quiet : Net
quiet = record { sends = []; watches = []; wire = []; calls = []; errno = success }

expired-silent : connection_expired beating silent 62000000 ≡ true
unfolding connection_expired handshake_timeout_usec idle_timeout_usec positive_option
expired-silent = refl

process_heartbeat-Beats_example :
    Beats little beating silent quiet 8000000
      (process_heartbeat little beating silent quiet 8000000)
process_heartbeat-Beats_example = process_heartbeat-Beats little beating silent quiet 8000000

prepare-IsTimely_example :
    IsTimely beating silent 62000000 (prepare little beating silent quiet 62000000)
prepare-IsTimely_example = prepare-IsTimely little beating silent quiet 62000000 refl
