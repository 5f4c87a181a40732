-- ===== src/Connection/Delivered.antt =====
-- `Connection::send` from end to end: what it queues is a frame that the peer reads back.
use php_websocket.Base.{
  ℕ, ◌+◌, ◌^◌, ◌<◌, ◌≡◌, ◌≢◌, refl, sym, ◌∙◌, true, false, not, ◌&&◌, ◌||◌, Option, none, some, [],
  ◌∷◌, ◌++◌, Bytes, IsBytes, length, ltb, ◌==◌, is_some, Bool-cases, inl, inr, arith,
}
use php_websocket.Base.Int.{pos}
use php_websocket.Protocol.Opcode.{
  MessageType, continuation, text, binary, close, ping, pong, message_type_opcode, opcode_text,
  opcode_continuation, opcode_close, flag_fin, opcode_is_valid, opcode_is_control,
}
use php_websocket.Protocol.Utf8.{is_valid_utf8}
use php_websocket.Protocol.Mask.{Endian}
use php_websocket.Protocol.Frame.{pack_payload, opcode_or_text}
use php_websocket.Protocol.Unpack.{frame, unpack}
use php_websocket.Protocol.Result.{ok}
use php_websocket.Protocol.RoundTrip.Packed.{IsMask}
use php_websocket.Protocol.RoundTrip.Data.{IsSendable, received, unpack-packed}
use php_websocket.Connection.State.{Net, Conn, Outcome}
use php_websocket.Connection.Send.{send_packed, send_frame}
use php_websocket.Connection.Methods.{Ended, send, after_send}
use php_websocket.Connection.Stream.{pending}
use php_websocket.Connection.Sound.{IsQueue}
use php_websocket.Connection.Sent.{Sends, send_packed-Sends}

-- The stream has been extended by `bs`, if the operation has returned true.
abbrev Extends : Conn → Net → Bytes → Outcome → Type 0
Extends c net bs (ok', c', net') =
    ok' ≡ true → net'.wire ++ pending c' ≡ (net.wire ++ pending c) ++ bs

Sends-Extends :
    (c : Conn) (net : Net) (bs : Bytes) (o : Outcome)
    → Sends ((net.wire ++ pending c) ++ bs) o
    → Extends c net bs o
Sends-Extends c net bs (true, c', net') s = λ e. s.1
Sends-Extends c net bs (false, c', net') s = λ e. absurd (ground arith)

send_frame-Extends :
    (e : Endian) (c : Conn) (net : Net) (payload : Bytes) (opcode : ℕ) (bs : Bytes)
    → IsQueue c
    → pack_payload e none payload opcode flag_fin ≡ some bs
    → Extends c net bs (send_frame e c net payload opcode)
unfolding send_frame
send_frame-Extends e c net payload opcode bs q p =
    elim (Bool-cases
      (not c.open_state || c.close_after_write || not c.upgraded || not (is_some c.fd))) [
        | inl t ↦ rw t (λ x. absurd (ground arith))
        | inr t ↦
            rw (t, p) (Sends-Extends c net bs (send_packed c net bs) (send_packed-Sends c net bs q))
      ]

-- The same for the PHP method, which throws nothing.
abbrev pub Delivers : Conn → Net → Bytes → Ended → Type 0
Delivers c net bs (thrown, c', net') =
    thrown ≡ none → net'.wire ++ pending c' ≡ (net.wire ++ pending c) ++ bs

after_send-Delivers :
    (c : Conn) (net : Net) (bs : Bytes) (o : Outcome)
    → Extends c net bs o
    → Delivers c net bs (after_send o)
after_send-Delivers c net bs (true, c', net') h = λ e. h refl
after_send-Delivers c net bs (false, c', net') h = λ e. absurd (ground arith)

opcode_or_text-valid :
    (type : Option MessageType) → opcode_is_valid (pos (opcode_or_text type)) ≡ true
unfolding opcode_is_valid message_type_opcode
opcode_or_text-valid none = refl
opcode_or_text-valid (some continuation) = refl
opcode_or_text-valid (some text) = refl
opcode_or_text-valid (some binary) = refl
opcode_or_text-valid (some close) = refl
opcode_or_text-valid (some ping) = refl
opcode_or_text-valid (some pong) = refl

unmasked_key :
    (e : Endian) (key : Option Bytes) (payload : Bytes) (opcode : ℕ)
    → pack_payload e key payload opcode flag_fin ≡ pack_payload e none payload opcode flag_fin
unfolding pack_payload
unmasked_key e key payload opcode = refl

-- What a `send` that throws nothing has done, for the peer's buffer with `rest` behind the frame.
abbrev pub IsSent : Endian → Conn → Net → Bytes → ℕ → Bytes → Ended → Type 0
IsSent e c net payload opcode rest o =
    o.0 ≡ none
    → (t : MessageType) × (bs : Bytes) × (message_type_opcode t ≡ opcode)
      × (o.2.wire ++ pending o.1 ≡ (net.wire ++ pending c) ++ bs)
      × (unpack e (bs ++ rest) ≡ ok (some (frame (received t opcode payload flag_fin (length bs)))))

abbrev zero_key : Bytes
zero_key = 0 ∷ 0 ∷ 0 ∷ 0 ∷ []

zero_key-IsMask : IsMask zero_key
zero_key-IsMask = omega arith

send_frame-IsSent :
    (e : Endian) (c : Conn) (net : Net) (payload : Bytes) (opcode : ℕ) (rest : Bytes)
    → IsQueue c
    → IsBytes payload
    → length payload + 14 < 2 ^ 64
    → opcode ≢ opcode_close
    → IsSendable opcode flag_fin payload
    → IsSent e c net payload opcode rest (after_send (send_frame e c net payload opcode))
send_frame-IsSent e c net payload opcode rest q b l n s =
    let (t, bs, packs, names, reads) =
      unpack-packed e zero_key payload rest opcode flag_fin zero_key-IsMask b l (omega arith) n s in
    let plain = sym (unmasked_key e (some zero_key) payload opcode) ∙ packs in
    let o = send_frame e c net payload opcode in
    λ x. (
      t,
      bs,
      names,
      after_send-Delivers c net bs o (send_frame-Extends e c net payload opcode bs q plain) x,
      reads,
    )

-- If the queue is sound and `Connection::send` throws nothing for an opcode other than close, the
-- stream is what it was, followed by one frame; and the peer's `Protocol::unpack` reads from this
-- frame, whatever follows it, the type, the payload, FIN and the number of bytes sent.
pub send-IsSent :
    (e : Endian) (c : Conn) (net : Net) (payload : Bytes) (type : Option MessageType) (rest : Bytes)
    → IsQueue c
    → IsBytes payload
    → length payload + 14 < 2 ^ 64
    → opcode_or_text type ≢ opcode_close
    → IsSent e c net payload (opcode_or_text type) rest (send e c net payload type)
unfolding send
send-IsSent e c net payload type rest q b l n =
    let op = opcode_or_text type in
    elim (Bool-cases (not c.open_state || c.close_after_write)) [
      | inl a ↦ rw a (λ x. absurd (ground arith))
      | inr a ↦ elim (Bool-cases (not c.upgraded)) [
        | inl u ↦ rw (a, u) (λ x. absurd (ground arith))
        | inr u ↦ elim (Bool-cases (op == opcode_continuation)) [
          | inl d ↦ rw (a, u, d) (λ x. absurd (ground arith))
          | inr d ↦ elim (Bool-cases (opcode_is_control (pos op) && ltb 125 (length payload))) [
            | inl f ↦ rw (a, u, d, f) (λ x. absurd (ground arith))
            | inr f ↦ elim (Bool-cases (op == opcode_text && not (is_valid_utf8 payload))) [
              | inl g ↦ rw (a, u, d, f, g) (λ x. absurd (ground arith))
              | inr g ↦
                  let s : IsSendable op flag_fin payload = record {
                    known = opcode_or_text-valid type;
                    final = ground arith;
                    short = f;
                    text = ground (arith, g);
                  } in
                  rw (a, u, d, f, g) (send_frame-IsSent e c net payload op rest q b l n s)
            ]
          ]
        ]
      ]
    ]
