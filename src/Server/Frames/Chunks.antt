-- ===== src/Server/Frames/Chunks.antt =====
-- What the parser makes of a frame does not depend on how the bytes behind it arrive.
use php_websocket.Base.{
  ℕ, zero, suc, ◌+◌, ◌-◌, ◌≤◌, ◌<◌, ◌≡◌, ◌≢◌, refl, ap, ◌∙◌, Bool, false, not, ◌&&◌, ◌||◌, [], ◌∷◌,
  ◌++◌, Bytes, bit_and, length, get_or, take, drop, ltb, ◌==◌, length-append, length-drop,
  take-append, drop-append, Bool-cases, inl, inr, arith,
}
use php_websocket.Base.Int.{pos}
use php_websocket.Protocol.Opcode.{opcode_is_valid, opcode_is_control}
use php_websocket.Protocol.Frame.{has_bit}
use php_websocket.Protocol.Unpack.{size_max, length16, length64}
use php_websocket.Server.Frames.{
  incomplete, LengthField, field, returned, parse_length, parse_body, parse_field, parse_frame,
}

get_or-append : (xs ys : Bytes) (i d : ℕ) → i < length xs → get_or (xs ++ ys) i d ≡ get_or xs i d
get_or-append [] ys i d h = absurd (omega arith)
get_or-append (x ∷ xs) ys zero d h = refl
get_or-append (x ∷ xs) ys (suc i) d h = get_or-append xs ys i d (omega arith)

-- A part of the buffer that lies before its end stays when more bytes arrive.
part-append :
    (n at : ℕ) (xs ys : Bytes)
    → at + n ≤ length xs
    → take n (drop at (xs ++ ys)) ≡ take n (drop at xs)
part-append n at xs ys h =
    ap (take n) (drop-append at xs ys (omega arith))
    ∙ take-append n (drop at xs) ys (omega (arith, length-drop at xs))

length16-append : (buf more : Bytes) → 4 ≤ length buf → length16 (buf ++ more) ≡ length16 buf
unfolding length16
length16-append buf more h =
    rw (get_or-append buf more 2 0 (omega arith), get_or-append buf more 3 0 (omega arith)) refl

length64-append : (buf more : Bytes) → 10 ≤ length buf → length64 (buf ++ more) ≡ length64 buf
unfolding length64
length64-append buf more h = rw (part-append 8 2 buf more (omega arith)) refl

module _ (buf more : Bytes) where
  grows : length (buf ++ more) ≡ length buf + length more
  grows = length-append buf more

  kept_length : (n : ℕ) → ltb (length buf) n ≡ false → ltb (length (buf ++ more)) n ≡ false
  kept_length n h = ground (arith, grows)

  parse_length-append :
      (n : ℕ)
      → parse_length buf n ≢ returned incomplete
      → parse_length (buf ++ more) n ≡ parse_length buf n
  unfolding parse_length
  parse_length-append n h = elim (Bool-cases (n == 126)) [
    | inl e ↦ elim (Bool-cases (ltb (length buf) 4)) [
      | inl s ↦ absurd (h (rw (e, s) refl))
      | inr s ↦
          let there : 4 ≤ length buf = ground arith in
          rw (e, s, kept_length 4 s, length16-append buf more there) refl
    ]
    | inr e ↦ elim (Bool-cases (n == 127)) [
      | inl f ↦ elim (Bool-cases (ltb (length buf) 10)) [
        | inl s ↦ absurd (h (rw (e, f, s) refl))
        | inr s ↦
            let there : 10 ≤ length buf = ground arith in
            let bit = get_or-append buf more 2 0 (omega arith) in
            rw (e, f, s, kept_length 10 s, length64-append buf more there, bit) refl
      ]
      | inr f ↦ rw (e, f) refl
    ]
  ]

  parse_body-append :
      (max opcode : ℕ) (final : Bool) (n at : ℕ)
      → parse_body max buf opcode final n at ≢ incomplete
      → parse_body max (buf ++ more) opcode final n at ≡ parse_body max buf opcode final n at
  unfolding parse_body
  parse_body-append max opcode final n at h =
      elim (Bool-cases (opcode_is_control (pos opcode) && (not final || ltb 125 n))) [
        | inl c ↦ rw c refl
        | inr c ↦ elim (Bool-cases (not (opcode_is_control (pos opcode)) && ltb max n)) [
          | inl m ↦ rw (c, m) refl
          | inr m ↦
              elim (Bool-cases
                (ltb size_max n || ltb (size_max - at) n || ltb (length buf) (at + 4))) [
                  | inl s ↦ absurd (h (rw (c, m, s) refl))
                  | inr s ↦
                      elim (Bool-cases
                        (ltb (size_max - (at + 4)) n || ltb (length buf) (at + 4 + n))) [
                          | inl t ↦ absurd (h (rw (c, m, s, t) refl))
                          | inr t ↦
                              let s' : (ltb size_max n
                                    || ltb (size_max - at) n
                                    || ltb (length (buf ++ more)) (at + 4))
                                  ≡ false =
                                ground (arith, grows) in
                              let t' : (ltb (size_max - (at + 4)) n
                                    || ltb (length (buf ++ more)) (at + 4 + n))
                                  ≡ false =
                                ground (arith, grows) in
                              let there : at + 4 + n ≤ length buf = ground arith in
                              rw
                                (
                                  c,
                                  m,
                                  s,
                                  t,
                                  s',
                                  t',
                                  part-append 4 at buf more (omega arith),
                                  part-append n (at + 4) buf more there,
                                )
                                refl
                        ]
                ]
        ]
      ]

  parse_field-append :
      (max opcode : ℕ) (final : Bool) (l : LengthField)
      → parse_field max buf opcode final l ≢ incomplete
      → parse_field max (buf ++ more) opcode final l ≡ parse_field max buf opcode final l
  parse_field-append max opcode final (returned status) h = refl
  parse_field-append max opcode final (field n at) h = parse_body-append max opcode final n at h

  -- Behind the checks of the first two bytes.
  parse_rest-append :
      (max opcode : ℕ) (final : Bool) (n : ℕ)
      → parse_field max buf opcode final (parse_length buf n) ≢ incomplete
      → parse_field max (buf ++ more) opcode final (parse_length (buf ++ more) n)
        ≡ parse_field max buf opcode final (parse_length buf n)
  parse_rest-append max opcode final n h =
      ap (parse_field max (buf ++ more) opcode final)
        (parse_length-append n (λ e. h (ap (parse_field max buf opcode final) e)))
      ∙ parse_field-append max opcode final (parse_length buf n) h

-- A status other than INCOMPLETE is final: with more bytes behind it, the buffer gives the same
-- status and the same frame, for every buffer, every continuation and every size limit.
pub parse_frame-append :
    (max_message_size : ℕ) (buf more : Bytes)
    → parse_frame max_message_size buf ≢ incomplete
    → parse_frame max_message_size (buf ++ more) ≡ parse_frame max_message_size buf
unfolding parse_frame
parse_frame-append max buf more h = elim (Bool-cases (ltb (length buf) 2)) [
  | inl s ↦ absurd (h (rw s refl))
  | inr s ↦
      let there : 2 ≤ length buf = ground arith in
      let first = get_or-append buf more 0 0 (omega arith) in
      let second = get_or-append buf more 1 0 (omega arith) in
      elim (Bool-cases (has_bit (get_or buf 0 0) 0x70 || not (has_bit (get_or buf 1 0) 0x80))) [
        | inl r ↦ rw (s, kept_length buf more 2 s, first, second, r) refl
        | inr r ↦ elim (Bool-cases (not (opcode_is_valid (pos (bit_and (get_or buf 0 0) 0x0f))))) [
          | inl v ↦ rw (s, kept_length buf more 2 s, first, second, r, v) refl
          | inr v ↦
              rw (s, kept_length buf more 2 s, first, second, r, v)
                (parse_rest-append buf more max (bit_and (get_or buf 0 0) 0x0f)
                  (has_bit (get_or buf 0 0) 0x80) (bit_and (get_or buf 1 0) 0x7f)
                  (λ e. h (rw (s, r, v) e)))
        ]
      ]
]
