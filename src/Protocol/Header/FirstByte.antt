-- ===== src/Protocol/Header/FirstByte.antt =====
-- The first byte of a frame: opcode, FIN and reserved bits, over all opcodes and flags.
use php_websocket.Base.{
  ℕ, ◌<◌, ◌≡◌, refl, Bool, true, false, not, ◌&&◌, bit_and, bit_or, ltb, ◌==◌, arith, if◌then◌else◌,
}
use php_websocket.Base.Bits.{passes_below, passes_below_at}
use php_websocket.Protocol.Frame.{first_byte, has_bit}
use php_websocket.Protocol.Unpack.{unpack_flags}
use php_websocket.Protocol.Opcode.{flag_compress, flag_rsv1, flag_fin, flag_mask}

-- The flags as a decoder sees them: COMPRESS travels as RSV1.
abbrev pub received_flags : ℕ → ℕ
received_flags flags =
    if has_bit flags flag_compress then bit_or (bit_and flags 61) flag_rsv1 else flags

abbrev same : Bool → Bool → Bool
same true b = b
same false b = not b

abbrev reads_back : ℕ → ℕ → Bool
reads_back opcode flags =
    let b = first_byte opcode flags in
    ltb b 256
    && (bit_and b 0x0f == opcode)
    && same (has_bit b 0x80) (has_bit flags flag_fin)
    && (unpack_flags b (has_bit flags flag_mask) == received_flags flags)
    && same (bit_and b 0x70 == 0) (bit_and flags 30 == 0)

first_byte_table : passes_below (λ opcode. passes_below (reads_back opcode) 64) 16 ≡ true
unfolding passes_below first_byte unpack_flags
first_byte_table = refl

module _ (opcode flags : ℕ) (ho : opcode < 16) (hf : flags < 64) where
  reads_back_lem : reads_back opcode flags ≡ true
  reads_back_lem =
      passes_below_at (reads_back opcode) 64 flags
        (passes_below_at (λ o. passes_below (reads_back o) 64) 16 opcode first_byte_table ho) hf

  pub first_byte-lt : first_byte opcode flags < 256
  first_byte-lt = ground (arith, reads_back_lem)

  pub opcode-first_byte : bit_and (first_byte opcode flags) 0x0f ≡ opcode
  opcode-first_byte = ground (arith, reads_back_lem)

  pub final-first_byte : has_bit (first_byte opcode flags) 0x80 ≡ has_bit flags flag_fin
  final-first_byte = ground (arith, reads_back_lem)

  pub unpack_flags-first_byte :
      unpack_flags (first_byte opcode flags) (has_bit flags flag_mask) ≡ received_flags flags
  unpack_flags-first_byte = ground (arith, reads_back_lem)

  pub reserved-first_byte : (bit_and (first_byte opcode flags) 0x70 == 0) ≡ (bit_and flags 30 == 0)
  reserved-first_byte = ground (arith, reads_back_lem)
