-- ===== src/Server/Messages/Fragments.antt =====
-- A message that arrives in fragments.
use php_websocket.Base.{
  ℕ, ◌+◌, ◌-◌, ◌≤◌, ◌≡◌, refl, ap, sym, ◌∙◌, Bool, true, false, not, ◌&&◌, ◌||◌, some, List, [],
  ◌∷◌, ◌++◌, append_assoc, Bytes, length, length-append, ltb, ◌==◌, arith,
}
use php_websocket.Protocol.Opcode.{opcode_continuation, opcode_text, opcode_binary}
use php_websocket.Protocol.Utf8.{is_valid_utf8}
use php_websocket.Protocol.Mask.{Endian}
use php_websocket.Server.Frames.{ServerFrame}
use php_websocket.Server.Messages.{
  Handler, Session, Answer, call_message_handler, clear_after, append_fragment, continue_message,
  handle_data_frame, handle_frame,
}

-- The frames of a message behind its first: `parts`, and the final part `last`.
abbrev continuation_frame : Bool → Bytes → ServerFrame
continuation_frame final part = record {
  opcode = opcode_continuation;
  final = final;
  payload = part;
  bytes_consumed = length part;
}

abbrev pub joined : List Bytes → Bytes
joined [] = []
joined (part ∷ parts) = part ++ joined parts

-- The server on one frame after the other, as long as it answers true.
abbrev pub and_more : Answer → (Session → Answer) → Answer
and_more (true, s) rest = rest s
and_more (false, s) rest = (false, s)

abbrev pub handle_rest : Endian → ℕ → Handler → List Bytes → Bytes → Session → Answer
handle_rest e max handler [] last s = handle_frame e max handler s (continuation_frame true last)
handle_rest e max handler (part ∷ parts) last s =
    and_more (handle_frame e max handler s (continuation_frame false part))
      (handle_rest e max handler parts last)

-- A session that has gathered `payload` of a message.
abbrev pub gathering : Session → ℕ → Bytes → Session
gathering s opcode payload = record s {
  conn = record s.conn {
    fragmented = true;
    fragmented_opcode = opcode;
    fragmented_payload = some payload;
  };
}

module _ (e : Endian) (max : ℕ) (handler : Handler) (s : Session) (opcode : ℕ) where
  append_fragment-gathering :
      (payload part : Bytes)
      → length payload + length part ≤ max
      → append_fragment (gathering s opcode payload).conn part max
        ≡ some (gathering s opcode (payload ++ part)).conn
  unfolding append_fragment
  append_fragment-gathering payload part h =
      let fits : (ltb max (length part) || ltb (max - length part) (length payload)) ≡ false =
        ground arith in
      rw fits refl

  handle_frame-part :
      (payload part : Bytes)
      → length payload + length part ≤ max
      → handle_frame e max handler (gathering s opcode payload) (continuation_frame false part)
        ≡ (true, gathering s opcode (payload ++ part))
  unfolding handle_frame handle_data_frame continue_message
  handle_frame-part payload part h = rw (append_fragment-gathering payload part h) refl

  handle_frame-last :
      (payload part : Bytes)
      → length payload + length part ≤ max
      → (opcode == opcode_text && not (is_valid_utf8 (payload ++ part))) ≡ false
      → handle_frame e max handler (gathering s opcode payload) (continuation_frame true part)
        ≡ clear_after (
            call_message_handler handler
              (gathering s opcode (payload ++ part))
              (payload ++ part)
              opcode)
  unfolding handle_frame handle_data_frame continue_message
  handle_frame-last payload part h u = rw (append_fragment-gathering payload part h, u) refl

  handle_rest-gathering :
      (parts : List Bytes) (last payload whole : Bytes)
      → payload ++ (joined parts ++ last) ≡ whole
      → length whole ≤ max
      → (opcode == opcode_text && not (is_valid_utf8 whole)) ≡ false
      → handle_rest e max handler parts last (gathering s opcode payload)
        ≡ clear_after (call_message_handler handler (gathering s opcode whole) whole opcode)
  handle_rest-gathering [] last payload whole w h u =
      let fits : length payload + length last ≤ max =
        omega (arith, ap length w, length-append payload last) in
      let valid : (opcode == opcode_text && not (is_valid_utf8 (payload ++ last))) ≡ false =
        rw w u in
      handle_frame-last payload last fits valid
      ∙ ap (λ b. clear_after (call_message_handler handler (gathering s opcode b) b opcode)) w
  handle_rest-gathering (part ∷ parts) last payload whole w h u =
      let w' : (payload ++ part) ++ (joined parts ++ last) ≡ whole =
        append_assoc payload part (joined parts ++ last)
        ∙ ap (λ r. payload ++ r) (sym (append_assoc part (joined parts) last))
        ∙ w in
      let fits : length payload + length part ≤ max = omega (
        arith,
        ap length w',
        length-append (payload ++ part) (joined parts ++ last),
        length-append payload part,
      ) in
      ap (λ a. and_more a (handle_rest e max handler parts last))
        (handle_frame-part payload part fits)
      ∙ handle_rest-gathering parts last (payload ++ part) whole w' h u

  -- The first frame of the message.
  abbrev first_frame : Bytes → ServerFrame
  first_frame payload = record {
    opcode = opcode;
    final = false;
    payload = payload;
    bytes_consumed = length payload;
  }

  handle_frame-first :
      (payload : Bytes)
      → (opcode == opcode_text || opcode == opcode_binary) ≡ true
      → s.conn.fragmented ≡ false
      → handle_frame e max handler s (first_frame payload) ≡ (true, gathering s opcode payload)
  unfolding handle_frame handle_data_frame
  handle_frame-first payload d f =
      let carries : (opcode == opcode_text
            || opcode == opcode_binary
            || opcode == opcode_continuation)
          ≡ true =
        ground arith in
      let begins : (opcode == opcode_continuation) ≡ false = ground arith in
      rw (carries, begins, f) refl

  -- A message in fragments: its first frame, `parts`, and the final part `last`.
  abbrev pub handle_fragments : Bytes → List Bytes → Bytes → Answer
  handle_fragments first parts last =
      and_more (handle_frame e max handler s (first_frame first))
        (handle_rest e max handler parts last)

  -- A text or binary message that arrives in any number of fragments, on a connection that gathers
  -- no other, is given to the handler once, as the fragments joined in their order, and leaves no
  -- fragments behind; if the whole is within `max_message_size` and, as a text, valid UTF-8.
  pub handle_fragments_lem :
      (first : Bytes) (parts : List Bytes) (last : Bytes)
      → (opcode == opcode_text || opcode == opcode_binary) ≡ true
      → s.conn.fragmented ≡ false
      → length (first ++ (joined parts ++ last)) ≤ max
      → (opcode == opcode_text && not (is_valid_utf8 (first ++ (joined parts ++ last)))) ≡ false
      → let whole = first ++ (joined parts ++ last) in
        handle_fragments first parts last
        ≡ clear_after (call_message_handler handler (gathering s opcode whole) whole opcode)
  handle_fragments_lem first parts last d f h u =
      ap (λ a. and_more a (handle_rest e max handler parts last)) (handle_frame-first first d f)
      ∙ handle_rest-gathering parts last first _ refl h u
