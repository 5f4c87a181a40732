-- ===== src/Protocol/Utf8/Decode.antt =====
-- One round of the validator against one encoded scalar value.
use php_websocket.Base.{
  ℕ, suc, ◌+◌, ◌/◌, ◌%◌, ◌-◌, ◌*◌, ◌≤◌, ◌<◌, ◌≡◌, refl, Bool, true, not, some, [], ◌∷◌, ◌++◌, Bytes,
  IsBytes, leb, ◌==◌, drop, ◌&&◌, arith, Bool-cases, inl, inr, if◌then◌else◌, false,
}
use php_websocket.Base.Bits.{passes_below, passes_below_at}
use php_websocket.Protocol.Utf8.{is_continuation, utf8_step, scan_utf8, within}
use php_websocket.Protocol.Utf8.Scalar.{IsScalar, encode_scalar}

-- On a byte, `(b & 0xc0) == 0x80` is the range 0x80 to 0xbf.
is_continuation_table :
    passes_below
      (λ b. if is_continuation b then within 0x80 0xbf b else not (within 0x80 0xbf b))
      256
    ≡ true
unfolding passes_below is_continuation
is_continuation_table = refl

pub is_continuation_lem : (b : ℕ) → b < 256 → is_continuation b ≡ within 0x80 0xbf b
is_continuation_lem b h = ground (arith, passes_below_at _ 256 b is_continuation_table h)

pub continuation_byte : (c : ℕ) → c < 64 → is_continuation (0x80 + c) ≡ true
continuation_byte c h = ground (arith, is_continuation_lem (0x80 + c) (omega arith))

module _ (fuel s : ℕ) (rest : Bytes) where
  pub scan-encode1 : s < 0x80 → scan_utf8 (suc fuel) (encode_scalar s ++ rest) ≡ scan_utf8 fuel rest
  unfolding scan_utf8 utf8_step encode_scalar
  scan-encode1 h = ground arith

  pub scan-encode2 :
      0x80 ≤ s → s < 0x800 → scan_utf8 (suc fuel) (encode_scalar s ++ rest) ≡ scan_utf8 fuel rest
  unfolding scan_utf8 utf8_step encode_scalar
  scan-encode2 l h = ground (arith, continuation_byte (s % 64) (omega arith))

  pub scan-encode3 :
      0x800 ≤ s
      → s < 0x10000
      → IsScalar s
      → scan_utf8 (suc fuel) (encode_scalar s ++ rest) ≡ scan_utf8 fuel rest
  unfolding scan_utf8 utf8_step encode_scalar
  scan-encode3 l h v = ground (
    arith,
    continuation_byte (s % 64) (omega arith),
    continuation_byte (s / 64 % 64) (omega arith),
  )

  pub scan-encode4 :
      0x10000 ≤ s
      → s < 0x110000
      → scan_utf8 (suc fuel) (encode_scalar s ++ rest) ≡ scan_utf8 fuel rest
  unfolding scan_utf8 utf8_step encode_scalar
  scan-encode4 l h = ground (
    arith,
    continuation_byte (s % 64) (omega arith),
    continuation_byte (s / 64 % 64) (omega arith),
    continuation_byte (s / 4096 % 64) (omega arith),
  )

abbrev two : ℕ → ℕ → ℕ
two c b = (c - 0xc0) * 64 + (b - 0x80)

abbrev three : ℕ → ℕ → ℕ → ℕ
three c b d = (c - 0xe0) * 4096 + (b - 0x80) * 64 + (d - 0x80)

abbrev four : ℕ → ℕ → ℕ → ℕ → ℕ
four c b d e = (c - 0xf0) * 262144 + (b - 0x80) * 4096 + (d - 0x80) * 64 + (e - 0x80)

-- The scalar value that starts at `c`.
pub decoded : ℕ → Bytes → ℕ
decoded c [] = c
decoded c (b ∷ []) = if leb c 0x7f then c else two c b
decoded c (b ∷ d ∷ []) = if leb c 0x7f then c else if leb c 0xdf then two c b else three c b d
decoded c (b ∷ d ∷ e ∷ rest) =
    if leb c 0x7f
    then c
    else if leb c 0xdf
    then two c b
    else if leb c 0xef
    then three c b d
    else four c b d e

-- What one round has read, if it does not refuse, is one encoded scalar value.
abbrev pub Reads : ℕ → Bytes → ℕ → Type 0
Reads c rest n =
    IsScalar (decoded c rest) × (encode_scalar (decoded c rest) ++ drop n (c ∷ rest) ≡ c ∷ rest)

-- Each form of the encoding, taken apart and put together again.
module _ (rest : Bytes) where
  read1 : (c : ℕ) → c ≤ 0x7f → IsScalar c × (encode_scalar c ++ rest ≡ c ∷ rest)
  unfolding encode_scalar
  read1 c h = ground arith

  read2 :
      (c b : ℕ)
      → within 0xc2 0xdf c ≡ true
      → within 0x80 0xbf b ≡ true
      → IsScalar (two c b) × (encode_scalar (two c b) ++ rest ≡ c ∷ b ∷ rest)
  unfolding encode_scalar
  read2 c b h k = ground arith

  read3 :
      (c b d : ℕ)
      → within 0xe0 0xef c ≡ true
      → within 0x80 0xbf b ≡ true
      → within 0x80 0xbf d ≡ true
      → (c ≡ 0xe0 → 0xa0 ≤ b)
      → (c ≡ 0xed → b ≤ 0x9f)
      → IsScalar (three c b d) × (encode_scalar (three c b d) ++ rest ≡ c ∷ b ∷ d ∷ rest)
  unfolding encode_scalar
  read3 c b d h k l low surrogate = ground arith

  read4 :
      (c b d e : ℕ)
      → within 0xf0 0xf4 c ≡ true
      → within 0x80 0xbf b ≡ true
      → within 0x80 0xbf d ≡ true
      → within 0x80 0xbf e ≡ true
      → (c ≡ 0xf0 → 0x90 ≤ b)
      → (c ≡ 0xf4 → b ≤ 0x8f)
      → IsScalar (four c b d e) × (encode_scalar (four c b d e) ++ rest ≡ c ∷ b ∷ d ∷ e ∷ rest)
  unfolding encode_scalar
  read4 c b d e h k l m low high = ground arith

step0 : (c n : ℕ) → utf8_step c [] ≡ some n → Reads c [] n × (0 < n)
unfolding utf8_step decoded encode_scalar
step0 c n h = ground arith

step1 : (c b n : ℕ) → b < 256 → utf8_step c (b ∷ []) ≡ some n → Reads c (b ∷ []) n × (0 < n)
unfolding utf8_step decoded encode_scalar
step1 c b n lb h = ground (arith, is_continuation_lem b lb)

step2 :
    (c b d n : ℕ)
    → b < 256
    → d < 256
    → utf8_step c (b ∷ d ∷ []) ≡ some n
    → Reads c (b ∷ d ∷ []) n × (0 < n)
unfolding utf8_step decoded encode_scalar
step2 c b d n lb ld h = ground (arith, is_continuation_lem b lb, is_continuation_lem d ld)

-- The test that the second byte of a long form must pass.
abbrev second3 : ℕ → ℕ → Bool
second3 c b =
    if c == 0xe0
    then within 0xa0 0xbf b
    else if c == 0xed
    then within 0x80 0x9f b
    else is_continuation b

abbrev second4 : ℕ → ℕ → Bool
second4 c b =
    if c == 0xf0
    then within 0x90 0xbf b
    else if c == 0xf4
    then within 0x80 0x8f b
    else is_continuation b

module _ (c b d e n : ℕ) (rest : Bytes) where
  tests3 :
      0xe0 ≤ c
      → c ≤ 0xef
      → utf8_step c (b ∷ d ∷ e ∷ rest) ≡ some n
      → (second3 c b && is_continuation d ≡ true) × (n ≡ 3)
  unfolding utf8_step
  tests3 s t h = ground arith

  tests4 :
      0xf0 ≤ c
      → utf8_step c (b ∷ d ∷ e ∷ rest) ≡ some n
      → (second4 c b && is_continuation d && is_continuation e ≡ true) × (n ≡ 4) × (c ≤ 0xf4)
  unfolding utf8_step
  tests4 s h = ground arith

second3_ranges :
    (c b : ℕ)
    → b < 256
    → second3 c b ≡ true
    → (within 0x80 0xbf b ≡ true) × (c ≡ 0xe0 → 0xa0 ≤ b) × (c ≡ 0xed → b ≤ 0x9f)
second3_ranges c b lb h =
    (ground (arith, is_continuation_lem b lb), λ e. ground arith, λ e. ground arith)

second4_ranges :
    (c b : ℕ)
    → b < 256
    → second4 c b ≡ true
    → (within 0x80 0xbf b ≡ true) × (c ≡ 0xf0 → 0x90 ≤ b) × (c ≡ 0xf4 → b ≤ 0x8f)
second4_ranges c b lb h =
    (ground (arith, is_continuation_lem b lb), λ e. ground arith, λ e. ground arith)

module _ (c b d e n : ℕ) (rest : Bytes) (lb : b < 256) (ld : d < 256) (le : e < 256) where
  step3_short :
      c ≤ 0xdf → utf8_step c (b ∷ d ∷ e ∷ rest) ≡ some n → Reads c (b ∷ d ∷ e ∷ rest) n × (0 < n)
  unfolding utf8_step decoded
  step3_short s h =
      ground (arith, is_continuation_lem b lb, read1 (b ∷ d ∷ e ∷ rest) c, read2 (d ∷ e ∷ rest) c b)

  step3_middle :
      0xe0 ≤ c
      → c ≤ 0xef
      → utf8_step c (b ∷ d ∷ e ∷ rest) ≡ some n
      → Reads c (b ∷ d ∷ e ∷ rest) n × (0 < n)
  unfolding decoded
  step3_middle s t h =
      let (t3, w) = tests3 c b d e n rest s t h in
      let (q, u, v) = second3_ranges c b lb (ground arith) in
      let two_byte : leb c 0xdf ≡ false = ground arith in
      let one_byte : leb c 0x7f ≡ false = ground arith in
      let long : leb c 0xef ≡ true = ground arith in
      rw (w, one_byte, two_byte, long)
        (
          read3 (e ∷ rest) c b d (ground arith) q (ground (arith, is_continuation_lem d ld)) u v,
          omega arith,
        )

  step3_long :
      0xf0 ≤ c → utf8_step c (b ∷ d ∷ e ∷ rest) ≡ some n → Reads c (b ∷ d ∷ e ∷ rest) n × (0 < n)
  unfolding decoded
  step3_long s h =
      let (t4, m, top) = tests4 c b d e n rest s h in
      let (q, v, w) = second4_ranges c b lb (ground arith) in
      let third : within 0x80 0xbf d ≡ true = ground (arith, is_continuation_lem d ld) in
      let fourth : within 0x80 0xbf e ≡ true = ground (arith, is_continuation_lem e le) in
      let two_byte : leb c 0xdf ≡ false = ground arith in
      let one_byte : leb c 0x7f ≡ false = ground arith in
      let long : leb c 0xef ≡ false = ground arith in
      rw (m, one_byte, two_byte, long)
        (read4 rest c b d e (ground arith) q third fourth v w, omega arith)

  step3 : utf8_step c (b ∷ d ∷ e ∷ rest) ≡ some n → Reads c (b ∷ d ∷ e ∷ rest) n × (0 < n)
  step3 h = elim (Bool-cases (leb c 0xdf)) [
    | inl s ↦ step3_short (ground arith) h
    | inr l ↦ elim (Bool-cases (leb c 0xef)) [
      | inl s ↦ step3_middle (ground arith) (ground arith) h
      | inr m ↦ step3_long (ground arith) h
    ]
  ]

-- A round that does not refuse has read one encoded scalar value.
pub utf8_step-Reads :
    (c : ℕ) (rest : Bytes) (n : ℕ)
    → IsBytes rest
    → utf8_step c rest ≡ some n
    → Reads c rest n × (0 < n)
utf8_step-Reads c [] n p h = step0 c n h
utf8_step-Reads c (b ∷ []) n p h = step1 c b n p.0 h
utf8_step-Reads c (b ∷ d ∷ []) n p h = step2 c b d n p.0 p.1.0 h
utf8_step-Reads c (b ∷ d ∷ e ∷ rest) n p h = step3 c b d e n rest p.0 p.1.0 p.1.1.0 h
