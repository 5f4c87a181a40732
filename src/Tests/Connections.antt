-- ===== src/Tests/Connections.antt =====
-- Connection: runs of the write queue, and the theorems at concrete connections.
use php_websocket.Base.{◌≡◌, refl, true, false, some, List, [], ◌∷◌, arith}
use php_websocket.Connection.State.{
  enobufs, success, eagain, eintr, other, SendOutcome, sent, failed, Net, Conn, new_conn,
}
use php_websocket.Connection.Queue.{
  flush, flush_loop, flush_done, write_some, write_loop, has_pending_writes,
}
use php_websocket.Connection.Send.{send_packed, settle, queue_rest}
use php_websocket.Connection.Stream.{pending}
use php_websocket.Connection.Sound.{IsQueue, Flushes, flush-keeps}
use php_websocket.Connection.Sent.{Sends, send_packed-Sends}
use php_websocket.Base.{length, none, Bytes, ◌++◌}
use php_websocket.Protocol.Opcode.{MessageType, message_type_opcode, flag_fin, opcode_is_control}
use php_websocket.Protocol.Utf8.{is_valid_utf8}
use php_websocket.Protocol.Mask.{little}
use php_websocket.Protocol.Result.{ok}
use php_websocket.Protocol.Frame.{pack_payload, first_byte, length_bytes}
use php_websocket.Protocol.Unpack.{frame, unpack}
use php_websocket.Protocol.RoundTrip.Data.{received}
use php_websocket.Connection.Methods.{Ended, send}
use php_websocket.Connection.Send.{send_frame}
use php_websocket.Connection.Queue.{queue_frame, push_frame, start_watch, ensure_write_capacity}
use php_websocket.Connection.Delivered.{send-IsSent}
use php_websocket.Connection.Drained.{IsDrained, passes, passes-IsDrained}
use php_websocket.Connection.Refused.{Refuses, NoEnobufs, send_packed-Refuses}

-- A connection that owes the last two bytes of a frame and a second frame.
abbrev busy : Conn
busy = record new_conn {
  fd = some 7;
  open_state = true;
  upgraded = true;
  write_queue = (1 ∷ 2 ∷ 3 ∷ []) ∷ (4 ∷ 5 ∷ []) ∷ [];
  write_queue_capacity = 8;
  write_queue_offset = 1;
  queued_bytes = 4;
  max_queued_bytes = 6;
  write_watched = true;
}

abbrev idle : Conn
idle = record new_conn { fd = some 7; open_state = true; upgraded = true; max_queued_bytes = 6 }

abbrev outside : List SendOutcome → Net
outside sends = record { sends = sends; watches = []; wire = 0 ∷ []; calls = []; errno = success }

busy-IsQueue : IsQueue busy
busy-IsQueue = ((refl, omega arith), omega arith, omega arith)

idle-IsQueue : IsQueue idle
idle-IsQueue = ((refl, tt), omega arith, omega arith)

flush-partial :
    let (ok', c, net) =
      flush busy (outside (sent 2 ∷ failed eintr ∷ sent 1 ∷ failed eagain ∷ [])) in
    (ok' ≡ true) × (net.wire ≡ 0 ∷ 2 ∷ 3 ∷ 4 ∷ []) × (c.queued_bytes ≡ 1) × (pending c ≡ 5 ∷ [])
unfolding flush flush_loop flush_done write_some write_loop
flush-partial = (refl, refl, refl, refl)

flush-keeps_example :
    Flushes (0 ∷ 2 ∷ 3 ∷ 4 ∷ 5 ∷ []) (flush busy (outside (sent 2 ∷ failed eagain ∷ [])))
flush-keeps_example = flush-keeps busy (outside (sent 2 ∷ failed eagain ∷ [])) busy-IsQueue

send_packed-Sends_example :
    Sends (0 ∷ 2 ∷ 3 ∷ 4 ∷ 5 ∷ 9 ∷ 8 ∷ []) (send_packed busy (outside []) (9 ∷ 8 ∷ []))
send_packed-Sends_example = send_packed-Sends busy (outside []) (9 ∷ 8 ∷ []) busy-IsQueue

reset-NoEnobufs : NoEnobufs (outside (failed (other 104) ∷ []))
reset-NoEnobufs = ((refl, tt), tt, refl)

send_packed-Refuses_example :
    Refuses idle
      (outside (failed (other 104) ∷ []))
      (send_packed idle (outside (failed (other 104) ∷ [])) (9 ∷ 8 ∷ []))
send_packed-Refuses_example =
    send_packed-Refuses idle (outside (failed (other 104) ∷ [])) (9 ∷ 8 ∷ []) idle-IsQueue
      reset-NoEnobufs

-- A kernel that fails with ENOBUFS behind a part of the frame leaves the connection open.
send_packed-cut_off :
    let (ok', c, net) = send_packed idle (outside (sent 1 ∷ failed enobufs ∷ [])) (9 ∷ 8 ∷ []) in
    (ok' ≡ false) × (c.open_state ≡ true) × (net.wire ≡ 0 ∷ 9 ∷ []) × (pending c ≡ [])
unfolding send_packed settle queue_rest write_some write_loop has_pending_writes
send_packed-cut_off = (refl, refl, refl, refl)

-- An ENOBUFS of an earlier refusal does so too, with a `send` that returns 0 behind a part.
send_packed-stale :
    let net = (record (outside (sent 1 ∷ sent 0 ∷ [])) { errno = enobufs }) in
    let (ok', c, net') = send_packed idle net (9 ∷ 8 ∷ []) in
    (ok' ≡ false) × (c.open_state ≡ true) × (net'.wire ≡ 0 ∷ 9 ∷ [])
unfolding send_packed settle queue_rest write_some write_loop has_pending_writes
send_packed-stale = (refl, refl, refl)

-- `send` of "é", with one byte taken by the kernel.
abbrev text_sent : Ended
text_sent = send little idle (outside (sent 1 ∷ [])) (0xc3 ∷ 0xa9 ∷ []) none

send-text : (text_sent.0 ≡ none) × (pending text_sent.1 ≡ 2 ∷ 0xc3 ∷ 0xa9 ∷ [])
unfolding send send_frame pack_payload first_byte length_bytes send_packed settle queue_rest
    write_some write_loop has_pending_writes queue_frame push_frame start_watch
    ensure_write_capacity is_valid_utf8 opcode_is_control
send-text = (refl, refl)

send-IsSent_example :
    (t : MessageType) × (bs : Bytes) × (message_type_opcode t ≡ 1)
    × (text_sent.2.wire ++ pending text_sent.1 ≡ 0 ∷ bs)
    × (unpack little (bs ++ (0x81 ∷ []))
        ≡ ok (some (frame (received t 1 (0xc3 ∷ 0xa9 ∷ []) flag_fin (length bs)))))
send-IsSent_example =
    send-IsSent little idle (outside (sent 1 ∷ [])) (0xc3 ∷ 0xa9 ∷ []) none (0x81 ∷ []) idle-IsQueue
      (omega arith) (omega arith) (omega arith) send-text.0

-- A busy connection that is to be closed, and four flushes of which each takes one byte.
abbrev leaving : Conn
leaving = record busy { close_after_write = true }

abbrev one_by_one : List (List SendOutcome)
one_by_one =
    (failed eintr ∷ sent 1 ∷ failed eagain ∷ [])
    ∷ (sent 1 ∷ [])
    ∷ (sent 1 ∷ failed eagain ∷ [])
    ∷ (sent 1 ∷ [])
    ∷ []

passes-IsDrained_example :
    IsDrained (0 ∷ 2 ∷ 3 ∷ 4 ∷ 5 ∷ []) true (passes one_by_one leaving (outside []))
passes-IsDrained_example =
    passes-IsDrained one_by_one leaving (outside []) ((refl, omega arith), omega arith, omega arith)
      refl refl
      (
        (omega arith, (tt, tt)),
        ((omega arith, tt), ((omega arith, (tt, tt)), ((omega arith, tt), tt))),
      )
      (omega arith) (omega arith) (omega arith)
