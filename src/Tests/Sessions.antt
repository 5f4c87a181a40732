-- ===== src/Tests/Sessions.antt =====
-- Server: runs on received frames, and the theorems at concrete buffers.
use php_websocket.Base.{
  ◌≡◌, refl, ap, sym, ◌∙◌, Bool, true, false, none, some, Option, List, [], ◌∷◌, ◌++◌, Bytes,
  length, arith, inl,
}
use php_websocket.Protocol.Opcode.{
  text, message_type_from_opcode, opcode_is_valid, opcode_is_control, close_code_is_valid, flag_fin,
}
use php_websocket.Protocol.Utf8.{is_valid_utf8}
use php_websocket.Protocol.Mask.{little, mask_bytes}
use php_websocket.Protocol.Frame.{has_bit, pack_payload, first_byte, length_bytes}
use php_websocket.Connection.State.{new_conn, success, other, failed, SendOutcome}
use php_websocket.Connection.Queue.{write_some, write_loop, has_pending_writes}
use php_websocket.Connection.Send.{send_frame, send_packed, settle, queue_rest}
use php_websocket.Server.Frames.{
  ServerFrame, FrameStatus, frame_ok, incomplete, parse_frame, parse_length, parse_body,
  parse_payload,
}
use php_websocket.Server.Frames.Chunks.{parse_frame-append}
use php_websocket.Server.Frames.RoundTrip.{IsAcceptable}
use php_websocket.Server.Frames.Packed.{parse_frame-pack_payload}
use php_websocket.Server.Frames.Bounds.{Within, parse_frame-Within}
use php_websocket.Server.Messages.{
  Message, Handler, Session, Answer, process_buffered_frames, frame_round, handle_frame,
  handle_data_frame, continue_message, append_fragment, call_message_handler, discard_read_bytes,
}
use php_websocket.Server.Messages.Loop.{Ends, process_buffered_frames-Ends}
use php_websocket.Connection.State.{eintr, Net, Conn}
use php_websocket.Server.Reads.{
  Recv, received, refused, process_frame_reads, ensure_read_capacity, grow,
}
use php_websocket.Server.Reads.Laws.{
  HasRoom, ensure_read_capacity-HasRoom, process_frame_reads-Ends,
}
use php_websocket.Server.Messages.{clear_after}
use php_websocket.Server.Messages.Fragments.{gathering, handle_fragments, handle_fragments_lem}
use php_websocket.Base.{ℕ}
use php_websocket.Connection.State.{close_socket, clear_write_queue}
use php_websocket.Server.Connections.{purge_closed_connections, purge_from, close_connection}
use php_websocket.Server.Connections.Purge.{IsPurged, purge_closed_connections-IsPurged}
use php_websocket.Tests.Frames.{hello, key, key-IsMask, masked_hello}

-- "Hel" and "lo" in two fragments, with a zero mask.
abbrev fragments : Bytes
fragments =
    0x01 ∷ 0x83 ∷ 0 ∷ 0 ∷ 0 ∷ 0 ∷ 0x48 ∷ 0x65 ∷ 0x6c ∷ 0x80 ∷ 0x82 ∷ 0 ∷ 0 ∷ 0 ∷ 0 ∷ 0x6c ∷ 0x6f
    ∷ []

abbrev ping : Bytes
ping = 0x89 ∷ 0x80 ∷ 0 ∷ 0 ∷ 0 ∷ 0 ∷ []

abbrev quiet : Handler
quiet = some (λ m c net. (true, c, net))

abbrev session : Bytes → List SendOutcome → Session
session buffer sends = record {
  conn = record new_conn { fd = some 7; open_state = true; upgraded = true; read_buffer = buffer };
  net = record { sends = sends; watches = []; wire = []; calls = []; errno = success };
  log = [];
}

abbrev log_of : Option Answer → List Message
log_of none = []
log_of (some a) = a.1.log

abbrev answer_of : Option Answer → Option Bool
answer_of none = none
answer_of (some a) = some a.0

not_incomplete : FrameStatus → Bool
not_incomplete incomplete = false
not_incomplete _ = true

frame_ok≢incomplete : {f : ServerFrame} → frame_ok f ≡ incomplete → ⊥
unfolding not_incomplete
frame_ok≢incomplete e = absurd (ground (arith, ap not_incomplete e))

parse_hello :
    parse_frame 100 masked_hello
    ≡ frame_ok (record { opcode = 1; final = true; payload = hello; bytes_consumed = 11 })
unfolding parse_frame parse_length parse_body parse_payload mask_bytes opcode_is_valid
    opcode_is_control
parse_hello = refl

hello-IsAcceptable : IsAcceptable 100 1 (has_bit 33 flag_fin) hello
unfolding opcode_is_valid opcode_is_control close_code_is_valid
hello-IsAcceptable = record {
  known = refl;
  control = refl;
  short = refl;
  coded = refl;
  code = refl;
  reason = refl;
}

parse_frame-pack_payload_example :
    (bs : Bytes) × (pack_payload little (some key) hello 1 33 ≡ some bs)
    × (parse_frame 100 (bs ++ ping)
        ≡ frame_ok
            (record { opcode = 1; final = true; payload = hello; bytes_consumed = length bs }))
parse_frame-pack_payload_example =
    parse_frame-pack_payload little key hello ping 100 1 33 key-IsMask (omega arith) (omega arith)
      (omega arith) refl refl hello-IsAcceptable

parse_frame-append_example : parse_frame 100 (masked_hello ++ ping) ≡ parse_frame 100 masked_hello
parse_frame-append_example =
    parse_frame-append 100 masked_hello ping (λ e. frame_ok≢incomplete (sym parse_hello ∙ e))

parse_frame-Within_example : Within 100 11 (parse_frame 100 masked_hello)
parse_frame-Within_example = parse_frame-Within 100 masked_hello

hello-valid : is_valid_utf8 hello ≡ true
unfolding is_valid_utf8
hello-valid = refl

process-fragments :
    log_of (process_buffered_frames 18 little 100 quiet (session fragments []))
    ≡ record { payload = hello; opcode = 1; type = text } ∷ []
unfolding process_buffered_frames frame_round handle_frame handle_data_frame continue_message
    append_fragment call_message_handler discard_read_bytes parse_frame parse_length parse_body
    parse_payload mask_bytes opcode_is_valid opcode_is_control is_valid_utf8
    message_type_from_opcode
process-fragments = refl

process_buffered_frames-Ends_example :
    Ends 100 (process_buffered_frames 18 little 100 quiet (session fragments []))
process_buffered_frames-Ends_example =
    process_buffered_frames-Ends 18 little 100 quiet (session fragments [])
      (λ m c net. (refl, inl refl)) (tt, omega arith) (omega arith)

-- A pong that the kernel refuses makes the loop return false, as an exception does.
process-failed_pong :
    answer_of (process_buffered_frames 7 little 100 quiet (session ping (failed (other 104) ∷ [])))
    ≡ some false
unfolding process_buffered_frames frame_round handle_frame discard_read_bytes parse_frame
    parse_length parse_body parse_payload mask_bytes opcode_is_valid opcode_is_control send_frame
    send_packed settle queue_rest write_some write_loop has_pending_writes pack_payload first_byte
    length_bytes
process-failed_pong = refl

-- The reads of two fragments in three chunks.
abbrev reads : List Recv
reads =
    received 0x01 (0x83 ∷ 0 ∷ 0 ∷ []) 5
    ∷ refused eintr
    ∷ received 0 (0 ∷ 0x48 ∷ 0x65 ∷ 0x6c ∷ 0x80 ∷ []) 6
    ∷ received 0x82 (0 ∷ 0 ∷ 0 ∷ 0 ∷ 0x6c ∷ 0x6f ∷ []) 7
    ∷ []

process-reads :
    log_of (process_frame_reads little 100 quiet (session [] []) reads)
    ≡ record { payload = hello; opcode = 1; type = text } ∷ []
unfolding process_frame_reads ensure_read_capacity grow process_buffered_frames frame_round
    handle_frame handle_data_frame continue_message append_fragment call_message_handler
    discard_read_bytes parse_frame parse_length parse_body parse_payload mask_bytes opcode_is_valid
    opcode_is_control is_valid_utf8 message_type_from_opcode
process-reads = refl

process_frame_reads-Ends_example :
    Ends 100 (process_frame_reads little 100 quiet (session [] []) reads)
process_frame_reads-Ends_example =
    process_frame_reads-Ends little 100 quiet (λ m c net. (refl, inl refl)) (session [] []) reads
      (tt, omega arith)

ensure_read_capacity-HasRoom_example :
    HasRoom (session ping []).conn 3000 4196 (ensure_read_capacity (session ping []).conn 3000 4196)
ensure_read_capacity-HasRoom_example =
    ensure_read_capacity-HasRoom (session ping []).conn 3000 4196 (omega arith) (omega arith)

-- A connection that is opened, owes a part of a frame, and is closed with the close frame queued.
abbrev idle_net : List SendOutcome → Net
idle_net sends = record { sends = sends; watches = []; wire = []; calls = []; errno = success }

-- "Hel", nothing, and "lo".
handle_fragments_lem_example :
    handle_fragments little 100 quiet
      (session [] [])
      1
      (0x48 ∷ 0x65 ∷ 0x6c ∷ [])
      ([] ∷ [])
      (0x6c ∷ 0x6f ∷ [])
    ≡ clear_after (call_message_handler quiet (gathering (session [] []) 1 hello) hello 1)
handle_fragments_lem_example =
    handle_fragments_lem little 100 quiet (session [] []) 1 (0x48 ∷ 0x65 ∷ 0x6c ∷ []) ([] ∷ [])
      (0x6c ∷ 0x6f ∷ []) refl refl (omega arith) (ground (arith, hello-valid))

-- A table of an open connection, and of two closed ones of which the second has been told.
abbrev closed_one : ℕ → Bool → Conn
closed_one id told = record new_conn { numeric_id = id; upgraded = true; close_notified = told }

abbrev open_one : Conn
open_one = record new_conn { numeric_id = 4; open_state = true }

purge-table :
    purge_closed_connections
      (some (λ c net. (true, c, net)))
      (closed_one 1 false ∷ open_one ∷ closed_one 2 true ∷ [])
      (idle_net [])
      []
    ≡ (true, open_one ∷ [], idle_net [], 1 ∷ [])
unfolding purge_closed_connections purge_from close_connection close_socket clear_write_queue
purge-table = refl

purge_closed_connections-IsPurged_example : IsPurged (open_one ∷ []) (1 ∷ []) (
    purge_closed_connections
      (some (λ c net. (true, c, net)))
      (closed_one 1 false ∷ open_one ∷ closed_one 2 true ∷ [])
      (idle_net [])
      [])
purge_closed_connections-IsPurged_example =
    purge_closed_connections-IsPurged (some (λ c net. (true, c, net)))
      (closed_one 1 false ∷ open_one ∷ closed_one 2 true ∷ []) (idle_net []) []
