-- ===== src/Protocol/RoundTrip/Layout.antt =====
-- The decoder on a buffer that is laid out as a frame: header, mask, payload, and what follows.
use php_websocket.Base.{
  ℕ, ◌+◌, ◌^◌, ◌<◌, ◌≡◌, Bool, false, some, ◌∷◌, ◌++◌, Bytes, length, length-append, drop,
  drop-length_append, take-length_append, nil_of_length, ltb, arith, if◌then◌else◌, append_assoc,
}
use php_websocket.Protocol.Mask.{Endian}
use php_websocket.Protocol.Frame.{length_bytes}
use php_websocket.Protocol.Unpack.{unpack_mask, is_cut_off, unpack_whole, unpack}
use php_websocket.Protocol.Result.{ok, ◌>>=◌}
use php_websocket.Protocol.Header.Length.{
  header_len, header_len_bounds, length_bytes-ReadsLength, length-length_bytes,
}

-- Header, mask and payload as they stand in the buffer.
abbrev pub layout : ℕ → Bool → Bytes → Bytes → Bytes → Bytes
layout b0 masked key raw rest = b0 ∷ (length_bytes masked (length raw) ++ (key ++ (raw ++ rest)))

abbrev pub mask_len : Bool → ℕ
mask_len masked = if masked then 4 else 0

module _ (b0 : ℕ) (masked : Bool) (key raw rest : Bytes) (lk : length key ≡ mask_len masked) where
  abbrev buf : Bytes
  buf = layout b0 masked key raw rest

  abbrev behind : ℕ
  behind = header_len (length raw)

  pub drop-behind : drop behind buf ≡ key ++ (raw ++ rest)
  drop-behind =
      let head : Bytes = b0 ∷ length_bytes masked (length raw) in
      let e : behind ≡ length head = omega (arith, length-length_bytes masked (length raw)) in
      rw e (drop-length_append head (key ++ (raw ++ rest)))

  pub drop-at : drop (behind + length key) buf ≡ raw ++ rest
  drop-at =
      let head : Bytes = b0 ∷ (length_bytes masked (length raw) ++ key) in
      let e : behind + length key ≡ length head = omega (
        arith,
        length-length_bytes masked (length raw),
        length-append (length_bytes masked (length raw)) key,
      ) in
      rw (e, ← append_assoc (length_bytes masked (length raw)) key (raw ++ rest))
        (drop-length_append head (raw ++ rest))

  pub length-layout : length buf ≡ behind + length key + length raw + length rest
  length-layout = omega (
    arith,
    length-length_bytes masked (length raw),
    length-append (length_bytes masked (length raw)) (key ++ (raw ++ rest)),
    length-append key (raw ++ rest),
    length-append raw rest,
  )

  unpack_mask-layout : unpack_mask buf masked behind ≡ some (key, behind + length key)
  unfolding unpack_mask
  unpack_mask-layout =
      ground
        (arith, length-layout, drop-behind, nil_of_length key, take-length_append key (raw ++ rest))

  module _ (fits : length raw + 14 < 2 ^ 64) where
    is_cut_off-layout : is_cut_off buf (length raw) (behind + length key) ≡ false
    is_cut_off-layout = ground (arith, length-layout, header_len_bounds (length raw))

    pub unpack-layout :
        (e : Endian)
        → unpack e buf
          ≡ (do d ← unpack_whole e b0 masked key (behind + length key) raw; ok (some d))
    unfolding unpack
    unpack-layout e =
        let (reads, mask_bit, there) =
          length_bytes-ReadsLength masked (length raw) b0 (key ++ (raw ++ rest)) (omega arith) in
        let long : ltb (length buf) 2 ≡ false =
          ground (arith, length-layout, header_len_bounds (length raw)) in
        rw (
          long,
          reads,
          mask_bit,
          unpack_mask-layout,
          is_cut_off-layout,
          drop-at,
          take-length_append raw rest,
          mask_bit,
        )
