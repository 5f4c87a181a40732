-- ===== src/Connection/State.antt =====
-- The connection object and what it sees of the kernel and of the event driver. The answers of
-- the kernel are a script: one entry for each call of `send`, in order. A script that has run out
-- answers that the call would block.
use php_websocket.Base.{
  ℕ, Bool, true, false, Option, none, some, List, [], ◌∷◌, ◌++◌, Bytes, if◌then◌else◌,
}

pub data Errno : Type 0 where
  success eintr eagain enobufs : Errno
  other : ℕ → Errno

-- `sent n`: the kernel takes at most `n` bytes. `failed`: -1, with the `errno` given.
pub data SendOutcome : Type 0 where
  sent : ℕ → SendOutcome
  failed : Errno → SendOutcome

-- What the driver is told about a descriptor, and the `close` of it.
pub data Call : Type 0 where
  watch_write unwatch_write unwatch closed : ℕ → Call

-- What the outside has answered and seen. `wire` holds the bytes that the kernel has taken;
-- `watches` are the driver's answers to `watch_write`, which succeeds when they have run out.
pub record Net : Type 0 where
  pub sends : List SendOutcome
  pub watches : List (Option Errno)
  pub wire : Bytes
  pub calls : List Call
  pub errno : Errno

-- The fields of `websocket_connection_object`. `fd` is `none` for -1. The cached strings of the id
-- and of the remote address are left out.
pub record Conn : Type 0 where
  pub numeric_id : ℕ
  pub fd : Option ℕ
  pub open_state : Bool
  pub upgraded : Bool
  pub close_notified : Bool
  pub defer_close : Bool
  pub selected_subprotocol : Option Bytes
  pub read_buffer : Bytes
  pub read_buffer_capacity : ℕ
  pub write_queue : List Bytes
  pub write_queue_capacity : ℕ
  pub write_queue_offset : ℕ
  pub queued_bytes : ℕ
  pub max_queued_bytes : ℕ
  pub write_watched : Bool
  pub close_after_write : Bool
  pub fragmented : Bool
  pub fragmented_opcode : ℕ
  pub fragmented_payload : Option Bytes
  pub accepted_at_usec : ℕ
  pub last_activity_usec : ℕ
  pub last_ping_usec : ℕ
  pub awaiting_pong : Bool

abbrev pub default_max_queued_bytes : ℕ
default_max_queued_bytes = 16777216

-- `websocket_connection_create_object`
abbrev pub new_conn : Conn
new_conn = record {
  numeric_id = 0;
  fd = none;
  open_state = false;
  upgraded = false;
  close_notified = false;
  defer_close = false;
  selected_subprotocol = none;
  read_buffer = [];
  read_buffer_capacity = 0;
  write_queue = [];
  write_queue_capacity = 0;
  write_queue_offset = 0;
  queued_bytes = 0;
  max_queued_bytes = default_max_queued_bytes;
  write_watched = false;
  close_after_write = false;
  fragmented = false;
  fragmented_opcode = 0;
  fragmented_payload = none;
  accepted_at_usec = 0;
  last_activity_usec = 0;
  last_ping_usec = 0;
  awaiting_pong = false;
}

-- A method's result, with the object and the outside as it leaves them.
abbrev pub Outcome : Type 0
Outcome = Bool × Conn × Net

abbrev pub tell : Net → Option ℕ → (ℕ → Call) → Net
tell net none call = net
tell net (some fd) call = record net { calls = net.calls ++ (call fd ∷ []) }

-- `websocket_connection_clear_write_queue`
unfoldable pub clear_write_queue : Conn → Net → Conn × Net
clear_write_queue c net = (
  record c {
    write_queue = [];
    write_queue_offset = 0;
    queued_bytes = 0;
    write_watched = false;
    close_after_write = false;
  },
  if c.write_watched then tell net c.fd unwatch_write else net,
)

-- The end of `websocket_connection_close_socket`, behind the `close` of the descriptor.
abbrev pub forget : Conn → Conn
forget c = record c {
  fragmented_payload = none;
  fragmented = false;
  fragmented_opcode = 0;
  accepted_at_usec = 0;
  last_activity_usec = 0;
  last_ping_usec = 0;
  awaiting_pong = false;
}

-- `websocket_connection_close_socket`. The descriptor is gone before the queue is cleared.
unfoldable pub close_socket : Conn → Net → Conn × Net
unfolding clear_write_queue
close_socket c net =
    let released = tell (tell net c.fd unwatch) c.fd closed in
    let (c', net') = clear_write_queue (record c { fd = none; open_state = false }) released in
    (forget c', net')

-- `websocket_connection_open`, without the address of the peer.
unfoldable pub connection_open : Conn → ℕ → ℕ → Net → Conn × Net
unfolding clear_write_queue
connection_open c id fd net =
    let c1 = record c {
      selected_subprotocol = none;
      numeric_id = id;
      fd = some fd;
      open_state = true;
      upgraded = false;
      close_notified = false;
      defer_close = false;
      read_buffer = [];
    } in
    let (c2, net') = clear_write_queue c1 net in
    (
      record c2 {
        max_queued_bytes = default_max_queued_bytes;
        fragmented_payload = none;
        fragmented = false;
        fragmented_opcode = 0;
        last_ping_usec = 0;
        awaiting_pong = false;
      },
      net',
    )
