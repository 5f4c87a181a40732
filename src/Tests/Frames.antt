-- ===== src/Tests/Frames.antt =====
-- Protocol: runs on frames of RFC 6455, section 5.7, and the theorems at concrete frames.
use php_websocket.Base.{◌≡◌, ◌↔◌, refl, true, false, some, [], ◌∷◌, ◌++◌, Bytes, arith}
use php_websocket.Base.Int.{pos}
use php_websocket.Protocol.Opcode.{
  MessageType, message_type_opcode, opcode_is_valid, opcode_is_control, close_code_is_valid,
}
use php_websocket.Protocol.Utf8.{is_valid_utf8}
use php_websocket.Protocol.Utf8.Correct.{IsEncoded, is_valid_utf8_iff}
use php_websocket.Protocol.Mask.{big, little, mask_bytes, mask_payload_copy}
use php_websocket.Protocol.Mask.Laws.{mask_payload_copy-mask_bytes}
use php_websocket.Protocol.Result.{ok}
use php_websocket.Protocol.Close.{close_payload}
use php_websocket.Protocol.Frame.{
  CloseFrame, string, close_frame, pack, pack_checked, pack_payload, first_byte, length_bytes,
}
use php_websocket.Protocol.Unpack.{Decoded, frame, unpack}
use php_websocket.Protocol.RoundTrip.Packed.{IsMask}
use php_websocket.Protocol.RoundTrip.Data.{received}
use php_websocket.Protocol.RoundTrip.Methods.{frame_flags, unpack-pack}
use php_websocket.Protocol.RoundTrip.Close.{received_close, unpack-pack_close}

-- "Hello"
abbrev pub hello : Bytes
hello = 0x48 ∷ 0x65 ∷ 0x6c ∷ 0x6c ∷ 0x6f ∷ []

abbrev pub key : Bytes
key = 0x37 ∷ 0xfa ∷ 0x21 ∷ 0x3d ∷ []

abbrev pub masked_hello : Bytes
masked_hello = 0x81 ∷ 0x85 ∷ 0x37 ∷ 0xfa ∷ 0x21 ∷ 0x3d ∷ 0x7f ∷ 0x9f ∷ 0x4d ∷ 0x51 ∷ 0x58 ∷ []

pub key-IsMask : IsMask key
key-IsMask = omega arith

pack-hello : pack little (some key) (string hello) (pos 1) (pos 33) ≡ ok masked_hello
unfolding pack pack_checked pack_payload first_byte length_bytes opcode_is_valid opcode_is_control
    is_valid_utf8 mask_payload_copy
pack-hello = refl

is_valid_utf8_iff_example :
    (is_valid_utf8 (0xe2 ∷ 0x82 ∷ 0xac ∷ []) ≡ true) ↔ IsEncoded (0xe2 ∷ 0x82 ∷ 0xac ∷ [])
is_valid_utf8_iff_example = is_valid_utf8_iff (0xe2 ∷ 0x82 ∷ 0xac ∷ []) (omega arith)

overlong : is_valid_utf8 (0xc0 ∷ 0x80 ∷ []) ≡ false
unfolding is_valid_utf8
overlong = refl

mask_payload_copy-mask_bytes_example :
    mask_payload_copy big key (hello ++ hello ++ hello) ≡ mask_bytes key 0 (hello ++ hello ++ hello)
mask_payload_copy-mask_bytes_example =
    mask_payload_copy-mask_bytes big key (hello ++ hello ++ hello) refl (omega arith) (omega arith)

unpack-pack_example :
    (t : MessageType) × (message_type_opcode t ≡ 1)
    × (unpack little (masked_hello ++ (0x81 ∷ []))
        ≡ ok (some (frame (received t 1 hello (frame_flags (pos 33)) 11))))
unpack-pack_example =
    unpack-pack little key hello (0x81 ∷ []) 1 (pos 33) masked_hello key-IsMask (omega arith)
      (omega arith) (omega arith) pack-hello

abbrev going_away : CloseFrame
going_away = record { code = pos 1001; reason = hello; flags = pos 1; bytes_consumed = 0 }

abbrev going_away_bytes : Bytes
going_away_bytes = 0x88 ∷ 0x07 ∷ 0x03 ∷ 0xe9 ∷ hello

pack-going_away :
    pack little (some key) (close_frame going_away) (pos 1) (pos 1) ≡ ok going_away_bytes
unfolding pack pack_checked pack_payload first_byte length_bytes opcode_is_valid opcode_is_control
    is_valid_utf8 close_payload close_code_is_valid
pack-going_away = refl

unpack-pack_close_example :
    unpack little (going_away_bytes ++ [])
    ≡ ok (some (Decoded.close_frame (received_close (pos 1001) hello 1 9)))
unpack-pack_close_example =
    unpack-pack_close little key [] going_away key-IsMask (omega arith) (pos 1) (pos 1)
      going_away_bytes pack-going_away
