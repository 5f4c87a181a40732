-- ===== src/Connection/Queue.antt =====
-- Writing to the socket, and the queue of what the kernel has not taken yet.
use php_websocket.Base.{
  ℕ, ◌+◌, ◌-◌, ◌*◌, Bool, true, false, not, ◌||◌, Option, none, some, List, [], ◌∷◌, ◌++◌, Bytes,
  length, take, drop, min, ltb, ◌==◌, is_some, if◌then◌else◌,
}
use php_websocket.Connection.State.{
  Errno, eintr, eagain, enobufs, SendOutcome, sent, failed, watch_write, unwatch_write, Net, Conn,
  Outcome, tell, close_socket,
}

-- What `websocket_connection_write_some` returns and leaves: `*offset`, `*written_bytes`, the
-- rest of the script, the bytes on the wire and `errno`.
pub record Wrote : Type 0 where
  pub done : Bool
  pub offset : ℕ
  pub written_bytes : ℕ
  pub sends : List SendOutcome
  pub wire : Bytes
  pub errno : Errno

abbrev pub is_again : Errno → Bool
is_again eagain = true
is_again _ = false

abbrev pub is_interrupt : Errno → Bool
is_interrupt eintr = true
is_interrupt _ = false

abbrev left : Bool → ℕ → ℕ → List SendOutcome → Bytes → Errno → Wrote
left done offset written sends wire errno = record {
  done = done;
  offset = offset;
  written_bytes = written;
  sends = sends;
  wire = wire;
  errno = errno;
}

-- The loop, at `offset` with `written` bytes taken so far. The kernel takes no more than it is
-- given, and `sent 0` is its answer 0, which leaves `errno` as it is.
unfoldable pub write_loop : Bytes → ℕ → ℕ → List SendOutcome → Bytes → Errno → Wrote
write_loop frame offset written [] wire errno =
    left true offset written [] wire (if ltb offset (length frame) then eagain else errno)
write_loop frame offset written (sent n ∷ rest) wire errno =
    let here = drop offset frame in
    let k = min n (length here) in
    let more = write_loop frame (offset + k) (written + k) rest (wire ++ take k here) errno in
    if not (ltb offset (length frame))
    then left true offset written (sent n ∷ rest) wire errno
    else if k == 0
    then left false offset written rest wire errno
    else more
write_loop frame offset written (failed e ∷ rest) wire errno =
    let again = write_loop frame offset written rest wire e in
    if not (ltb offset (length frame))
    then left true offset written (failed e ∷ rest) wire errno
    else if is_interrupt e
    then again
    else left (is_again e) offset written rest wire e

-- `websocket_connection_write_some`
unfoldable pub write_some : Bytes → ℕ → Net → Wrote
write_some frame offset net = write_loop frame offset 0 net.sends net.wire net.errno

abbrev pub after_write : Net → Wrote → Net
after_write net w = record net { sends = w.sends; wire = w.wire; errno = w.errno }

-- `websocket_connection_has_pending_writes`
unfoldable pub has_pending_writes : Conn → Bool
has_pending_writes c = ltb 0 (length c.write_queue)

-- `websocket_connection_ensure_write_capacity`
unfoldable pub ensure_write_capacity : Conn → Conn
ensure_write_capacity c =
    if ltb (length c.write_queue) c.write_queue_capacity then c else record c {
      write_queue_capacity = if ltb 0 c.write_queue_capacity then c.write_queue_capacity * 2 else 8;
    }

abbrev pub watched : List (Option Errno) → Conn → Net → Outcome
watched [] c net = (true, record c { write_watched = true }, net)
watched (none ∷ rest) c net =
    (true, record c { write_watched = true }, record net { watches = rest })
watched (some e ∷ rest) c net = (false, c, record net { watches = rest; errno = e })

-- The driver's `watch_write`, and what `websocket_connection_queue_frame` does around it.
unfoldable pub start_watch : Conn → Net → Outcome
start_watch c net =
    if c.write_watched then (true, c, net) else watched net.watches c (tell net c.fd watch_write)

-- `websocket_connection_queue_frame` behind its check.
unfoldable pub push_frame : Conn → Bytes → ℕ → Conn
push_frame c frame offset =
    let c' = ensure_write_capacity c in
    record c' {
      write_queue_offset = if length c.write_queue == 0 then offset else c.write_queue_offset;
      write_queue = c.write_queue ++ (frame ∷ []);
      queued_bytes = c.queued_bytes + (length frame - offset);
    }

-- `websocket_connection_queue_frame`
unfoldable pub queue_frame : Conn → Net → Bytes → ℕ → Outcome
queue_frame c net frame offset =
    let remaining = length frame - offset in
    if ltb c.max_queued_bytes remaining || ltb (c.max_queued_bytes - remaining) c.queued_bytes
    then (false, c, record net { errno = enobufs })
    else start_watch (push_frame c frame offset) net

-- How the loop of `websocket_connection_flush` ends.
pub data Flushed : Type 0 where
  broken blocked drained : Flushed

-- The loop, on the frames of the queue. On ℕ the subtraction stops at 0, as the code's test has it.
unfoldable pub flush_loop : List Bytes → Conn → Net → Flushed × Conn × Net
flush_loop [] c net = (drained, record c { write_queue = [] }, net)
flush_loop (frame ∷ rest) c net =
    let w = write_some frame c.write_queue_offset net in
    let net' = after_write net w in
    let c' = record c { queued_bytes = c.queued_bytes - w.written_bytes } in
    let more = flush_loop rest (record c' { write_queue_offset = 0 }) net' in
    if not w.done
    then (broken, record c { write_queue = frame ∷ rest; open_state = false }, net')
    else if ltb w.offset (length frame)
    then (blocked, record c' { write_queue = frame ∷ rest; write_queue_offset = w.offset }, net')
    else more

-- The end of the function, with the queue empty.
unfoldable pub flush_done : Conn → Net → Outcome
flush_done c net =
    let c' = record c { write_watched = false } in
    let net' = (if c.write_watched then tell net c.fd unwatch_write else net) in
    let (closed_conn, closed_net) = close_socket c' net' in
    if c.close_after_write then (true, closed_conn, closed_net) else (true, c', net')

abbrev pub after_loop : Flushed × Conn × Net → Outcome
after_loop (broken, c, net) = (false, c, net)
after_loop (blocked, c, net) = (true, c, net)
after_loop (drained, c, net) = flush_done c net

-- `websocket_connection_flush`
unfoldable pub flush : Conn → Net → Outcome
flush c net =
    if not c.open_state || not (is_some c.fd)
    then (false, c, net)
    else after_loop (flush_loop c.write_queue c net)

-- `websocket_connection_close_after_write`
unfoldable pub close_after_write : Conn → Net → Conn × Net
unfolding has_pending_writes
close_after_write c net =
    if not c.open_state
    then (c, net)
    else if not (has_pending_writes c)
    then close_socket c net
    else (record c { close_after_write = true }, net)
