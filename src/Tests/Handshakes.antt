-- ===== src/Tests/Handshakes.antt =====
-- Server: runs of the handshake, and its theorems at a concrete request.
use php_websocket.Base.{◌≡◌, refl, true, none, some, List, [], ◌∷◌, Bytes, arith}
use php_websocket.Protocol.Mask.{little}
use php_websocket.Connection.State.{
  eagain, eintr, success, SendOutcome, sent, failed, Net, new_conn,
}
use php_websocket.Http.Headers.{header, request_headers, store_headers, find, update, until_nul}
use php_websocket.Http.Headers.Joined.{joined, values_of, header-joined}
use php_websocket.Server.Answers.{
  send_bytes, send_from, response_bytes, header_lines, has_header, digits, reason_phrase,
}
use php_websocket.Server.Answers.Texts.{forbidden_response}
use php_websocket.Server.Answers.Sent.{IsSentPart, send_bytes-IsSentPart}
use php_websocket.Server.Messages.{Session}
use php_websocket.Server.Messages.Loop.{Ends}
use php_websocket.Server.Reads.{Recv, received, refused}
use php_websocket.Server.Handshake.{App, unset, process_handshake}
use php_websocket.Server.Handshake.Branches.{Handshaken, bytes_of, process_handshake-Handshaken}
use php_websocket.Server.Handshake.Ends.{process_handshake-Ends}
use php_websocket.Tests.Requests.{chat, request, sixteen, digest}

-- An application without handlers.
abbrev pub app : App
app = record {
  supported = chat ∷ [];
  base64_decode = sixteen;
  accept_of = digest;
  on_handshake = none;
  on_open = unset;
  on_message = none;
  on_close = none;
  max_message_size = 100;
}

abbrev pub net : List SendOutcome → Net
net sends = record { sends = sends; watches = []; wire = []; calls = []; errno = success }

-- An accepted connection; the kernel takes 500 bytes.
abbrev fresh : Session
fresh = record {
  conn = record new_conn { fd = some 7; open_state = true };
  net = net (sent 500 ∷ []);
  log = [];
}

abbrev pub chunk : Bytes → Recv
chunk [] = refused eagain
chunk (b ∷ bs) = received b bs 5

process_handshake-Handshaken_example :
    Handshaken little app fresh.conn fresh.net []
      (bytes_of (chunk request ∷ []))
      (process_handshake little app fresh (chunk request ∷ []))
process_handshake-Handshaken_example =
    process_handshake-Handshaken little app fresh (chunk request ∷ []) (refl, refl)

process_handshake-Ends_example : Ends 100 (process_handshake little app fresh (chunk request ∷ []))
process_handshake-Ends_example =
    process_handshake-Ends little app (tt, tt, tt) fresh (chunk request ∷ []) (refl, refl)
      (tt, omega arith)

-- Five bytes, of which the kernel takes two, is interrupted, and then would block.
abbrev partly : Net
partly = net (sent 2 ∷ failed eintr ∷ failed eagain ∷ [])

send_bytes-part : (send_bytes (1 ∷ 2 ∷ 3 ∷ 4 ∷ 5 ∷ []) partly).1.wire ≡ 1 ∷ 2 ∷ []
unfolding send_bytes send_from
send_bytes-part = refl

send_bytes-IsSentPart_example : IsSentPart [] (1 ∷ 2 ∷ 3 ∷ []) (send_bytes (1 ∷ 2 ∷ 3 ∷ []) partly)
send_bytes-IsSentPart_example = send_bytes-IsSentPart (1 ∷ 2 ∷ 3 ∷ []) partly

-- The response of an exception without one of its own is the constant of the file.
default_response-forbidden :
    response_bytes (record { status = 403; headers = []; body = [] }) ≡ forbidden_response
unfolding response_bytes header_lines has_header digits reason_phrase
default_response-forbidden = refl

-- "A: x", "b: y" and "a: z"
abbrev headers : List (Bytes × Bytes)
headers = (65 ∷ [], 120 ∷ []) ∷ (98 ∷ [], 121 ∷ []) ∷ (97 ∷ [], 122 ∷ []) ∷ []

header-joined_example :
    header (request_headers headers) (65 ∷ []) ≡ joined (values_of (65 ∷ []) headers)
header-joined_example = header-joined headers (65 ∷ []) (omega arith)

header-values : header (request_headers headers) (65 ∷ []) ≡ some (120 ∷ 44 ∷ 32 ∷ 122 ∷ [])
unfolding header request_headers store_headers find update until_nul
header-values = refl

-- "a: x NUL y" and "a: z": the second header cuts the first one short.
header-cut_off :
    header (request_headers ((97 ∷ [], 120 ∷ 0 ∷ 121 ∷ []) ∷ (97 ∷ [], 122 ∷ []) ∷ [])) (97 ∷ [])
    ≡ some (120 ∷ 44 ∷ 32 ∷ 122 ∷ [])
unfolding header request_headers store_headers find update until_nul
header-cut_off = refl
