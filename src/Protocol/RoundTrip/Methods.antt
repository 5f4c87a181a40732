-- ===== src/Protocol/RoundTrip/Methods.antt =====
-- The PHP methods: what `Protocol::pack` returns, `Protocol::unpack` turns back into its input.
use php_websocket.Base.{
  ℕ, ◌+◌, ◌^◌, ◌<◌, ◌≡◌, ◌≢◌, refl, true, not, ◌&&◌, some, ◌++◌, Bytes, IsBytes, bit_and, length,
  arith, ltb, if◌then◌else◌,
}
use php_websocket.Base.Bits.{passes_below, passes_below_at}
use php_websocket.Base.Int.{ℤ, pos, negsuc, low_byte}
use php_websocket.Protocol.Mask.{Endian}
use php_websocket.Protocol.Opcode.{
  MessageType, opcode_close, flag_fin, flags_all, message_type_opcode,
}
use php_websocket.Protocol.Frame.{string, has_bit, pack_payload, pack_checked, pack}
use php_websocket.Protocol.Unpack.{frame, unpack}
use php_websocket.Protocol.Result.{ok}
use php_websocket.Protocol.RoundTrip.Packed.{IsMask}
use php_websocket.Protocol.RoundTrip.Data.{IsSendable, received, opcode-lt, unpack-packed}

-- Of the signed flags, those six bits go into the frame.
abbrev pub frame_flags : ℤ → ℕ
frame_flags flags = bit_and (low_byte flags) flags_all

frame_flags_table :
    passes_below
      (λ b.
        ltb (bit_and b flags_all) 64
        && (if has_bit b flag_fin
            then has_bit (bit_and b flags_all) flag_fin
            else not (has_bit (bit_and b flags_all) flag_fin)))
      256
    ≡ true
unfolding passes_below
frame_flags_table = refl

low_byte-lt : (x : ℤ) → low_byte x < 256
low_byte-lt (pos n) = omega arith
low_byte-lt (negsuc n) = omega arith

pub frame_flags_lem :
    (flags : ℤ)
    → (frame_flags flags < 64)
      × (has_bit (frame_flags flags) flag_fin ≡ has_bit (low_byte flags) flag_fin)
frame_flags_lem flags =
    ground (arith, passes_below_at _ 256 (low_byte flags) frame_flags_table (low_byte-lt flags))

-- The checks of `Protocol::pack`, read off its success.
pub pack_checked-IsSendable :
    (e : Endian) (key payload : Bytes) (opcode : ℕ) (flags : ℤ) (bs : Bytes)
    → pack_checked e (some key) payload (pos opcode) flags ≡ ok bs
    → IsSendable opcode (frame_flags flags) payload
      × (pack_payload e (some key) payload opcode (frame_flags flags) ≡ some bs)
unfolding pack_checked
pack_checked-IsSendable e key payload opcode flags bs h =
    ground (arith, frame_flags_lem flags, opcode-lt opcode)

-- If `Protocol::pack` accepts a string for an opcode other than close, then `Protocol::unpack`
-- gives, from the result and whatever follows it, a frame of the opcode's type with the same
-- payload, FIN bit and flags (COMPRESS read as RSV1), and the number of bytes that were packed.
pub unpack-pack :
    (e : Endian) (key payload rest : Bytes) (opcode : ℕ) (flags : ℤ) (bs : Bytes)
    → IsMask key
    → IsBytes payload
    → length payload + 14 < 2 ^ 64
    → opcode ≢ opcode_close
    → pack e (some key) (string payload) (pos opcode) flags ≡ ok bs
    → (t : MessageType) × (message_type_opcode t ≡ opcode)
      × (unpack e (bs ++ rest)
          ≡ ok (some (frame (received t opcode payload (frame_flags flags) (length bs)))))
unfolding pack
unpack-pack e key payload rest opcode flags bs k p fits ne h =
    let (s, made) = pack_checked-IsSendable e key payload opcode flags bs h in
    let (t, bs', made', names, decoded) =
      unpack-packed e key payload rest opcode (frame_flags flags) k p fits (frame_flags_lem flags).0
        ne s in
    let same : bs' ≡ bs = cc (made, made') in (t, names, rw same at decoded)
