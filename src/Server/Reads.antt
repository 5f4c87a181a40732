-- ===== src/Server/Reads.antt =====
-- `websocket_server_process_frame_reads`: the read buffer's growth and the loop over `recv`.
pub mod Laws
use php_websocket.Base.{
  ℕ, zero, suc, ◌+◌, ◌-◌, ◌*◌, ◌%◌, ◌^◌, Bool, true, false, not, ◌&&◌, ◌||◌, Option, none, some,
  List, [], ◌∷◌, ◌++◌, Bytes, length, ltb, leb, if◌then◌else◌,
}
use php_websocket.Protocol.Opcode.{close_message_too_big}
use php_websocket.Protocol.Mask.{Endian}
use php_websocket.Protocol.Unpack.{size_max}
use php_websocket.Connection.State.{Errno, eagain, eintr, Conn}
use php_websocket.Connection.Queue.{is_again, is_interrupt}
use php_websocket.Server.Messages.{
  Handler, Session, Answer, fail_session, message_too_big_text, process_buffered_frames,
}

-- `while (capacity < needed) capacity *= 2`, on 64 bits.
unfoldable pub grow : ℕ → ℕ → ℕ → ℕ
grow zero capacity needed = capacity
grow (suc fuel) capacity needed =
    let larger = grow fuel (capacity * 2 % 2 ^ 64) needed in
    if ltb capacity needed then larger else capacity

abbrev pub min_of : ℕ → ℕ → ℕ
min_of limit capacity = if ltb limit capacity then limit else capacity

-- The capacity behind the two tests. A doubling adds at least one, so that `needed` rounds do.
abbrev pub new_capacity : ℕ → ℕ → ℕ → ℕ
new_capacity old needed limit = min_of limit (grow needed (if ltb 0 old then old else 1024) needed)

-- `websocket_connection_ensure_read_capacity`; `none` is its `false`.
unfoldable pub ensure_read_capacity : Conn → ℕ → ℕ → Option Conn
ensure_read_capacity c append_len limit =
    let needed = length c.read_buffer + append_len in
    if ltb limit append_len || ltb (limit - append_len) (length c.read_buffer)
    then none
    else if leb needed c.read_buffer_capacity
    then some c
    else some (record c { read_buffer_capacity = new_capacity c.read_buffer_capacity needed limit })

abbrev pub chunk_size : ℕ
chunk_size = 4096

-- `read_limit`
abbrev pub read_limit : ℕ → ℕ
read_limit max_message_size =
    if ltb (size_max - chunk_size - 14) max_message_size
    then size_max
    else max_message_size + chunk_size + 14

-- What `recv` answers: at least one byte, with the time of its arrival; 0; or -1. A chunk here may
-- be longer than the 4096 bytes of the code's buffer.
pub data Recv : Type 0 where
  received : ℕ → Bytes → ℕ → Recv
  ended : Recv
  refused : Errno → Recv

abbrev pub can_read : Conn → Bool
can_read c = c.open_state && not c.close_after_write && c.upgraded

abbrev pub shut : Session → Option Answer
shut s = some (true, record s { conn = record s.conn { open_state = false } })

-- `if (!websocket_server_process_buffered_frames(...)) return false`
abbrev pub if_processed : Option Answer → (Session → Option Answer) → Option Answer
if_processed none rest = none
if_processed (some (true, s)) rest = rest s
if_processed (some (false, s)) rest = some (false, s)

-- One call, with fuel for the whole buffer.
abbrev pub process_all : Endian → ℕ → Handler → Session → Option Answer
process_all e max_message_size handler s =
    process_buffered_frames (suc (length s.conn.read_buffer)) e max_message_size handler s

-- A round that has received `chunk`, behind the test of the capacity.
abbrev pub take_chunk :
    Endian
    → ℕ
    → Handler
    → Session
    → Conn
    → Bytes
    → (Session → Option Answer)
    → Option Conn
    → Option Answer
take_chunk e max_message_size handler s c chunk rest none =
    some (fail_session e s c close_message_too_big message_too_big_text)
take_chunk e max_message_size handler s c chunk rest (some c') =
    if_processed
      (process_all e max_message_size handler
        (record s { conn = record c' { read_buffer = c'.read_buffer ++ chunk } }))
      rest

-- `websocket_server_process_frame_reads`, on a script of `recv`'s answers; one that has run out
-- answers that the call would block.
unfoldable pub process_frame_reads : Endian → ℕ → Handler → Session → List Recv → Option Answer
process_frame_reads e max_message_size handler s [] =
    if can_read s.conn then process_all e max_message_size handler s else some (true, s)
process_frame_reads e max_message_size handler s (received b bs now ∷ rest) =
    let c = record s.conn { last_activity_usec = now } in
    if can_read s.conn
    then take_chunk e max_message_size handler s c (b ∷ bs)
        (λ s'. process_frame_reads e max_message_size handler s' rest)
        (ensure_read_capacity c (suc (length bs)) (read_limit max_message_size))
    else some (true, s)
process_frame_reads e max_message_size handler s (ended ∷ rest) =
    if can_read s.conn then shut s else some (true, s)
process_frame_reads e max_message_size handler s (refused x ∷ rest) =
    let again = process_frame_reads e max_message_size handler s rest in
    if not (can_read s.conn)
    then some (true, s)
    else if is_interrupt x
    then again
    else if is_again x
    then process_all e max_message_size handler s
    else shut s
