-- ===== src/Server/Frames/Bounds.antt =====
-- How long the payload of a frame that the parser returns is, and how much of the buffer it takes.
use php_websocket.Base.{
  ℕ, ◌+◌, ◌-◌, ◌≤◌, ◌≡◌, Bool, true, false, not, ◌&&◌, ◌||◌, Bytes, bit_and, length, get_or, take,
  drop, ltb, leb, ◌==◌, length-take, Bool-cases, inl, inr, arith,
}
use php_websocket.Base.Int.{pos}
use php_websocket.Protocol.Opcode.{
  opcode_close, close_code_is_valid, opcode_is_valid, opcode_is_control,
}
use php_websocket.Protocol.Utf8.{is_valid_utf8}
use php_websocket.Protocol.Mask.{mask_bytes}
use php_websocket.Protocol.Mask.Laws.{length-mask_bytes}
use php_websocket.Protocol.Frame.{has_bit}
use php_websocket.Protocol.Unpack.{size_max, length16, length64}
use php_websocket.Server.Frames.{
  ServerFrame, FrameStatus, frame_ok, LengthField, field, returned, parse_length, parse_body,
  parse_field, masked_close_code, parse_payload, parse_frame,
}

-- A frame takes at least its mask, lies inside the buffer, and carries no more data than allowed.
abbrev pub IsWithin : ℕ → ℕ → ServerFrame → Type 0
IsWithin max len f =
    (4 ≤ f.bytes_consumed)
    × (f.bytes_consumed ≤ len)
    × (opcode_is_control (pos f.opcode) ≡ false → length f.payload ≤ max)
    × (opcode_is_control (pos f.opcode) ≡ true → (length f.payload ≤ 125) × (f.final ≡ true))

abbrev pub Within : ℕ → ℕ → FrameStatus → Type 0
Within max len (frame_ok f) = IsWithin max len f
Within max len _ = Unit

parse_payload-Within :
    (max len opcode : ℕ) (final : Bool) (mask raw : Bytes) (consumed : ℕ)
    → IsWithin max len (record {
      opcode = opcode;
      final = final;
      payload = mask_bytes mask 0 raw;
      bytes_consumed = consumed;
    })
    → Within max len (parse_payload opcode final mask raw consumed)
unfolding parse_payload
parse_payload-Within max len opcode final mask raw consumed h =
    let two = leb 2 (length raw) in
    elim (Bool-cases (opcode == opcode_close && length raw == 1)) [
      | inl t ↦ rw t tt
      | inr t ↦
          elim (Bool-cases (
            (opcode == opcode_close && two)
            && not (close_code_is_valid (pos (masked_close_code mask raw))))) [
              | inl u ↦ rw (t, u) tt
              | inr u ↦
                  elim (Bool-cases (
                    (opcode == opcode_close && two)
                    && not (is_valid_utf8 (drop 2 (mask_bytes mask 0 raw))))) [
                      | inl v ↦ rw (t, u, v) tt
                      | inr v ↦ rw (t, u, v) h
                    ]
            ]
    ]

parse_body-Within :
    (max : ℕ) (buf : Bytes) (opcode : ℕ) (final : Bool) (n at : ℕ)
    → Within max (length buf) (parse_body max buf opcode final n at)
unfolding parse_body
parse_body-Within max buf opcode final n at =
    let raw = take n (drop (at + 4) buf) in
    let mask = take 4 (drop at buf) in
    let whole = length-mask_bytes mask raw 0 in
    let taken = length-take n (drop (at + 4) buf) in
    elim (Bool-cases (opcode_is_control (pos opcode) && (not final || ltb 125 n))) [
      | inl c ↦ rw c tt
      | inr c ↦ elim (Bool-cases (not (opcode_is_control (pos opcode)) && ltb max n)) [
        | inl m ↦ rw (c, m) tt
        | inr m ↦
            elim (Bool-cases
              (ltb size_max n || ltb (size_max - at) n || ltb (length buf) (at + 4))) [
                | inl s ↦ rw (c, m, s) tt
                | inr s ↦
                    elim (Bool-cases
                      (ltb (size_max - (at + 4)) n || ltb (length buf) (at + 4 + n))) [
                        | inl t ↦ rw (c, m, s, t) tt
                        | inr t ↦
                            let inside : at + 4 + n ≤ length buf = ground arith in
                            rw (c, m, s, t)
                              (parse_payload-Within max (length buf) opcode final mask raw
                                (at + 4 + n)
                                (
                                  omega arith,
                                  inside,
                                  λ d. ground (arith, d, m, whole, taken),
                                  λ d. (ground (arith, d, c, whole, taken), ground (arith, c, d)),
                                ))
                      ]
              ]
      ]
    ]

abbrev FieldWithin : ℕ → ℕ → LengthField → Type 0
FieldWithin max len (field n at) = Unit
FieldWithin max len (returned status) = Within max len status

parse_length-Within :
    (max : ℕ) (buf : Bytes) (n : ℕ) → FieldWithin max (length buf) (parse_length buf n)
unfolding parse_length
parse_length-Within max buf n = elim (Bool-cases (n == 126)) [
  | inl e ↦ elim (Bool-cases (ltb (length buf) 4)) [
    | inl s ↦ rw (e, s) tt
    | inr s ↦ elim (Bool-cases (ltb (length16 buf) 126)) [
      | inl t ↦ rw (e, s, t) tt
      | inr t ↦ rw (e, s, t) tt
    ]
  ]
  | inr e ↦ elim (Bool-cases (n == 127)) [
    | inl f ↦ elim (Bool-cases (ltb (length buf) 10)) [
      | inl s ↦ rw (e, f, s) tt
      | inr s ↦ elim (Bool-cases (has_bit (get_or buf 2 0) 0x80)) [
        | inl t ↦ rw (e, f, s, t) tt
        | inr t ↦ elim (Bool-cases (leb (length64 buf) 0xffff)) [
          | inl u ↦ rw (e, f, s, t, u) tt
          | inr u ↦ rw (e, f, s, t, u) tt
        ]
      ]
    ]
    | inr f ↦ rw (e, f) tt
  ]
]

parse_field-Within :
    (max : ℕ) (buf : Bytes) (opcode : ℕ) (final : Bool) (l : LengthField)
    → FieldWithin max (length buf) l
    → Within max (length buf) (parse_field max buf opcode final l)
parse_field-Within max buf opcode final (field n at) h = parse_body-Within max buf opcode final n at
parse_field-Within max buf opcode final (returned status) h = h

-- A frame that the parser returns takes at least four bytes and lies inside the buffer; its
-- payload is within the size limit if it carries data, and a control frame is final and carries
-- at most 125 bytes.
pub parse_frame-Within :
    (max_message_size : ℕ) (buf : Bytes)
    → Within max_message_size (length buf) (parse_frame max_message_size buf)
unfolding parse_frame
parse_frame-Within max buf = elim (Bool-cases (ltb (length buf) 2)) [
  | inl s ↦ rw s tt
  | inr s ↦
      elim (Bool-cases (has_bit (get_or buf 0 0) 0x70 || not (has_bit (get_or buf 1 0) 0x80))) [
        | inl r ↦ rw (s, r) tt
        | inr r ↦ elim (Bool-cases (not (opcode_is_valid (pos (bit_and (get_or buf 0 0) 0x0f))))) [
          | inl v ↦ rw (s, r, v) tt
          | inr v ↦
              let n = bit_and (get_or buf 1 0) 0x7f in
              rw (s, r, v)
                (parse_field-Within max buf (bit_and (get_or buf 0 0) 0x0f)
                  (has_bit (get_or buf 0 0) 0x80) (parse_length buf n)
                  (parse_length-Within max buf n))
        ]
      ]
]
