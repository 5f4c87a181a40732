-- ===== src/Tests/Queues.antt =====
-- Connection: the write queue of a connection that is accepted, upgraded and written to.
use php_websocket.Base.{◌≡◌, refl, true, some, [], ◌∷◌, List}
use php_websocket.Protocol.Opcode.{binary, opcode_is_control, message_type_opcode}
use php_websocket.Protocol.Mask.{little}
use php_websocket.Protocol.Frame.{pack_payload, first_byte, length_bytes}
use php_websocket.Connection.State.{
  success, SendOutcome, sent, Net, Conn, new_conn, connection_open, clear_write_queue,
}
use php_websocket.Connection.Queue.{
  write_some, write_loop, has_pending_writes, queue_frame, push_frame, start_watch,
  ensure_write_capacity,
}
use php_websocket.Connection.Send.{send_frame, send_packed, settle, queue_rest}
use php_websocket.Connection.Methods.{send}
use php_websocket.Connection.Sound.{IsQueue}
use php_websocket.Http.Upgrade.{Upgrade, no_upgrade}
use php_websocket.Server.Messages.{close_with_code, discard_read_bytes}
use php_websocket.Server.Handshake.{upgraded_conn, is_handshaking}
use php_websocket.Server.Reachable.{
  created, opens, upgrades, sends, fails, opened, Reachable-IsQueue,
}
use php_websocket.Tests.Frames.{hello}

abbrev outside : List SendOutcome → Net
outside script = record { sends = script; watches = []; wire = []; calls = []; errno = success }

-- An accepted connection that is upgraded, and sends "Hello" to a kernel that takes two bytes.
abbrev upgrade : Upgrade
upgrade = record no_upgrade { has_upgrade = true; has_connection = true; has_version = true }

abbrev ready_conn : Conn
ready_conn = upgraded_conn (opened new_conn 1 7 (outside []) 1000) upgrade

abbrev waiting : Conn
waiting = (send little ready_conn (outside (sent 2 ∷ [])) hello (some binary)).1

ready-open : is_handshaking (opened new_conn 1 7 (outside []) 1000) ≡ true
unfolding connection_open clear_write_queue
ready-open = refl

waiting-queued : waiting.queued_bytes ≡ 5
unfolding connection_open clear_write_queue discard_read_bytes send message_type_opcode
    opcode_is_control send_frame pack_payload first_byte length_bytes send_packed has_pending_writes
    write_some write_loop queue_rest queue_frame push_frame ensure_write_capacity start_watch settle
waiting-queued = refl

Reachable-IsQueue_example : IsQueue (close_with_code little waiting (outside []) 1000 hello).1
Reachable-IsQueue_example =
    Reachable-IsQueue little (close_with_code little waiting (outside []) 1000 hello).1 (
      fails (outside []) 1000 hello (
        sends (outside (sent 2 ∷ [])) hello (some binary)
          (upgrades upgrade ready-open (opens 1 7 (outside []) 1000 created))))
