-- ===== src/Protocol/RoundTrip/Packed.antt =====
-- What `pack_payload` writes is a layout, with the payload masked if the flags ask for it.
use php_websocket.Base.{
  ℕ, ◌≡◌, refl, Bool, true, false, some, [], ◌++◌, Bytes, IsBytes, length, append_assoc, append-nil,
  if◌then◌else◌, Bool-cases, inl, inr,
}
use php_websocket.Protocol.Mask.{Endian, mask_bytes, mask_payload_copy}
use php_websocket.Protocol.Mask.Laws.{
  mask_payload_copy-mask_bytes, mask_bytes-mask_bytes, mask_bytes-IsBytes, length-mask_bytes,
}
use php_websocket.Protocol.Opcode.{flag_mask}
use php_websocket.Protocol.Frame.{has_bit, first_byte, pack_payload}
use php_websocket.Protocol.RoundTrip.Layout.{layout, mask_len}

-- What the random source is relied on for: four bytes.
pub record IsMask (key : Bytes) : Type 0 where
  pub four : length key ≡ 4
  pub bytes : IsBytes key

-- The mask that is sent, and the payload as it is sent.
abbrev pub sent_key : Bool → Bytes → Bytes
sent_key masked key = if masked then key else []

abbrev pub sent_payload : Endian → Bool → Bytes → Bytes → Bytes
sent_payload e masked key payload = if masked then mask_payload_copy e key payload else payload

-- The frame without what follows it.
abbrev pub packed : Endian → Bytes → Bytes → ℕ → ℕ → Bytes
packed e key payload opcode flags =
    let masked = has_bit flags flag_mask in
    layout (first_byte opcode flags) masked (sent_key masked key)
      (sent_payload e masked key payload) []

module _ (e : Endian) (key payload : Bytes) (k : IsMask key) (p : IsBytes payload) where
  pub length-mask_payload_copy : length (mask_payload_copy e key payload) ≡ length payload
  length-mask_payload_copy =
      rw (mask_payload_copy-mask_bytes e key payload k.four k.bytes p)
        (length-mask_bytes key payload 0)

  -- Unmasking by words what was masked by words.
  pub mask_payload_copy-twice : mask_payload_copy e key (mask_payload_copy e key payload) ≡ payload
  mask_payload_copy-twice =
      let masked : IsBytes (mask_bytes key 0 payload) =
        mask_bytes-IsBytes key payload 0 k.bytes p in
      rw
        (
          mask_payload_copy-mask_bytes e key payload k.four k.bytes p,
          mask_payload_copy-mask_bytes e key (mask_bytes key 0 payload) k.four k.bytes masked,
        )
        (mask_bytes-mask_bytes key payload 0 k.bytes p)

  pub length-sent_payload :
      (masked : Bool) → length (sent_payload e masked key payload) ≡ length payload
  length-sent_payload true = length-mask_payload_copy
  length-sent_payload false = refl

  pub unmask-sent_payload :
      (masked : Bool)
      → sent_payload e masked (sent_key masked key) (sent_payload e masked key payload) ≡ payload
  unmask-sent_payload true = mask_payload_copy-twice
  unmask-sent_payload false = refl

  pub length-sent_key : (masked : Bool) → length (sent_key masked key) ≡ mask_len masked
  length-sent_key true = k.four
  length-sent_key false = refl

  pub pack_payload-packed :
      (opcode flags : ℕ)
      → pack_payload e (some key) payload opcode flags ≡ some (packed e key payload opcode flags)
  unfolding pack_payload
  pack_payload-packed opcode flags = elim (Bool-cases (has_bit flags flag_mask)) [
    | inl m ↦ rw (m, length-mask_payload_copy, append-nil) refl
    | inr m ↦ rw (m, append-nil) refl
  ]

pub layout-append :
    (b0 : ℕ) (masked : Bool) (key raw rest : Bytes)
    → layout b0 masked key raw [] ++ rest ≡ layout b0 masked key raw rest
layout-append b0 masked key raw rest = simp (append_assoc, append-nil)
