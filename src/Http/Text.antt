-- ===== src/Http/Text.antt =====
-- Searching, trimming and comparing pieces of a request.
use php_websocket.Base.{
  ℕ, zero, suc, ◌+◌, Bool, true, false, ◌&&◌, ◌||◌, Option, none, some, List, [], ◌∷◌, Bytes,
  length, get_or, take, ltb, leb, ◌==◌, if◌then◌else◌,
}

abbrev pub later_index : Option ℕ → Option ℕ
later_index none = none
later_index (some i) = some (suc i)

-- `memchr`: the position of the first `c`.
unfoldable pub memchr : Bytes → ℕ → Option ℕ
memchr [] c = none
memchr (b ∷ rest) c = let later = memchr rest c in if b == c then some 0 else later_index later

-- The test of the loop in `websocket_http_find_header_end`: CR LF CR LF.
abbrev pub ends_header : Bytes → Bool
ends_header buf =
    ltb 3 (length buf)
    && get_or buf 0 0 == 13
    && get_or buf 1 0 == 10
    && get_or buf 2 0 == 13
    && get_or buf 3 0 == 10

-- The loop, `i` bytes into the buffer.
unfoldable pub header_end_from : ℕ → Bytes → Option ℕ
header_end_from i [] = none
header_end_from i (b ∷ rest) =
    let later = header_end_from (suc i) rest in if ends_header (b ∷ rest) then some i else later

-- `websocket_http_find_header_end`
unfoldable pub find_header_end : Bytes → Option ℕ
find_header_end buf = if ltb (length buf) 4 then none else header_end_from 0 buf

abbrev pub is_blank : ℕ → Bool
is_blank b = b == 32 || b == 9

-- The first loop of `websocket_http_trim`.
unfoldable pub trim_start : Bytes → Bytes
trim_start [] = []
trim_start (b ∷ rest) = let more = trim_start rest in if is_blank b then more else b ∷ rest

-- The second loop, on the length.
unfoldable pub trim_len : Bytes → ℕ → ℕ
trim_len value zero = 0
trim_len value (suc n) =
    let shorter = trim_len value n in if is_blank (get_or value n 0) then shorter else suc n

-- `websocket_http_trim`
unfoldable pub trim : Bytes → Bytes
trim value = let v = trim_start value in take (trim_len v (length v)) v

-- `tolower` on ASCII.
abbrev pub lower : ℕ → ℕ
lower b = if leb 65 b && leb b 90 then b + 32 else b

-- `websocket_http_equals_ci`
unfoldable pub equals_ci : Bytes → Bytes → Bool
equals_ci [] [] = true
equals_ci [] (y ∷ ys) = false
equals_ci (x ∷ xs) [] = false
equals_ci (x ∷ xs) (y ∷ ys) = lower x == lower y && equals_ci xs ys

abbrev pub push : ℕ → List Bytes → List Bytes
push b [] = (b ∷ []) ∷ []
push b (part ∷ parts) = (b ∷ part) ∷ parts

-- The pieces of a value between its commas, which two loops of the file go through.
unfoldable pub split_commas : Bytes → List Bytes
split_commas [] = [] ∷ []
split_commas (b ∷ rest) = let more = split_commas rest in if b == 44 then [] ∷ more else push b more

abbrev pub any_part : List Bytes → Bytes → Bool
any_part [] token = false
any_part (part ∷ parts) token =
    let later = any_part parts token in if equals_ci (trim part) token then true else later

-- `websocket_http_header_contains_token`
unfoldable pub header_contains_token : Bytes → Bytes → Bool
header_contains_token value token = any_part (split_commas value) token
