-- ===== src/Protocol/Utf8/Scalar.antt =====
-- The encoding that the validator is judged by: Unicode scalar values and their UTF-8 form
-- (RFC 3629, section 3), written with no reference to the code.
use php_websocket.Base.{ℕ, ◌+◌, ◌/◌, ◌%◌, ◌<◌, ◌⊎◌, List, [], ◌∷◌, ◌++◌, Bytes, ltb, if◌then◌else◌}

-- No surrogate, and at most 0x10ffff.
abbrev pub IsScalar : ℕ → Type 0
IsScalar c = (c < 0xd800) ⊎ ((0xdfff < c) × (c < 0x110000))

unfoldable pub encode_scalar : ℕ → Bytes
encode_scalar c =
    if ltb c 0x80
    then c ∷ []
    else if ltb c 0x800
    then (0xc0 + c / 64) ∷ (0x80 + c % 64) ∷ []
    else if ltb c 0x10000
    then (0xe0 + c / 4096) ∷ (0x80 + c / 64 % 64) ∷ (0x80 + c % 64) ∷ []
    else (0xf0 + c / 262144) ∷ (0x80 + c / 4096 % 64) ∷ (0x80 + c / 64 % 64) ∷ (0x80 + c % 64) ∷ []

unfoldable pub encode_text : List ℕ → Bytes
encode_text [] = []
encode_text (c ∷ cs) = encode_scalar c ++ encode_text cs
