-- ===== src/Http/Tokens.antt =====
-- `websocket_http_validate_subprotocol_token` and the choice of a subprotocol.
use php_websocket.Base.{
  ℕ, ◌≡◌, refl, ap, ◌∙◌, Bool, true, false, not, ◌&&◌, ◌||◌, Option, none, some, List, [], ◌∷◌,
  Bytes, IsBytes, length, leb, ◌==◌, if◌then◌else◌, arith,
}
use php_websocket.Base.Bits.{passes_below, passes_below_at}
use php_websocket.Http.Text.{split_commas, trim}

-- The characters of the `switch`.
abbrev is_separator : ℕ → Bool
is_separator b =
    b == 40
    || b == 41
    || b == 60
    || b == 62
    || b == 64
    || b == 44
    || b == 59
    || b == 58
    || b == 92
    || b == 34
    || b == 47
    || b == 91
    || b == 93
    || b == 63
    || b == 61
    || b == 123
    || b == 125

unfoldable pub valid_bytes : Bytes → Bool
valid_bytes [] = true
valid_bytes (b ∷ rest) =
    let later = valid_bytes rest in
    if leb b 32 || leb 127 b then false else if is_separator b then false else later

-- `websocket_http_validate_subprotocol_token`
unfoldable pub validate_subprotocol_token : Bytes → Bool
validate_subprotocol_token value = if length value == 0 then false else valid_bytes value

-- `zend_hash_exists` on the set of the supported names
abbrev pub same_bytes : Bytes → Bytes → Bool
same_bytes [] [] = true
same_bytes [] (y ∷ ys) = false
same_bytes (x ∷ xs) [] = false
same_bytes (x ∷ xs) (y ∷ ys) = x == y && same_bytes xs ys

abbrev pub is_in : Bytes → List Bytes → Bool
is_in name [] = false
is_in name (x ∷ xs) = same_bytes name x || is_in name xs

pub same_bytes_refl : (xs : Bytes) → same_bytes xs xs ≡ true
same_bytes_refl [] = refl
same_bytes_refl (x ∷ xs) = ground (arith, same_bytes_refl xs)

pub same_bytes_of : (xs ys : Bytes) → same_bytes xs ys ≡ true → xs ≡ ys
same_bytes_of [] [] h = refl
same_bytes_of [] (y ∷ ys) h = cc
same_bytes_of (x ∷ xs) [] h = cc
same_bytes_of (x ∷ xs) (y ∷ ys) h =
    let first : x ≡ y = ground arith in
    let others : same_bytes xs ys ≡ true = ground arith in
    ap (λ b. b ∷ xs) first ∙ ap (λ l. y ∷ l) (same_bytes_of xs ys others)

-- What is selected behind a token.
abbrev pub select_token : List Bytes → Option Bytes → Bytes → Option Bytes
select_token supported (some chosen) token = some chosen
select_token supported none token = if is_in token supported then some token else none

-- The loop of `websocket_http_select_subprotocol`; `none` is its `false`.
unfoldable pub select_from : List Bytes → List Bytes → Option Bytes → Option (Option Bytes)
select_from supported [] selected = some selected
select_from supported (part ∷ parts) selected =
    let token = trim part in
    let later = select_from supported parts (select_token supported selected token) in
    if validate_subprotocol_token token then later else none

-- `websocket_http_select_subprotocol`
unfoldable pub select_subprotocol : List Bytes → Bytes → Option Bytes → Option (Option Bytes)
select_subprotocol supported value selected = select_from supported (split_commas value) selected

if_split :
    (low sep r : Bool)
    → (if low then false else if sep then false else r) ≡ true
    → (low ≡ false) × (r ≡ true)
if_split true sep r h = absurd (cc)
if_split false true r h = absurd (cc)
if_split false false r h = (refl, h)

-- The first byte of a valid token is no control character and no blank.
pub valid_bytes-split :
    (b : ℕ) (rest : Bytes)
    → valid_bytes (b ∷ rest) ≡ true
    → ((leb b 32 || leb 127 b) ≡ false) × (valid_bytes rest ≡ true)
unfolding valid_bytes
valid_bytes-split b rest h = if_split (leb b 32 || leb 127 b) (is_separator b) (valid_bytes rest) h

-- The token characters of RFC 7230: letters, digits and ! # $ % & ' * + - . ^ _ ` | ~
abbrev is_tchar : ℕ → Bool
is_tchar b =
    (leb 48 b && leb b 57)
    || (leb 65 b && leb b 90)
    || (leb 97 b && leb b 122)
    || b == 33
    || b == 35
    || b == 36
    || b == 37
    || b == 38
    || b == 39
    || b == 42
    || b == 43
    || b == 45
    || b == 46
    || b == 94
    || b == 95
    || b == 96
    || b == 124
    || b == 126

abbrev all_tchars : Bytes → Bool
all_tchars [] = true
all_tchars (b ∷ rest) = is_tchar b && all_tchars rest

abbrev pub is_token : Bytes → Bool
is_token [] = false
is_token (b ∷ rest) = is_tchar b && all_tchars rest

abbrev agrees : ℕ → Bool
agrees b =
    let bad = (leb b 32 || leb 127 b) || is_separator b in if is_tchar b then not bad else bad

tchar_table : passes_below agrees 256 ≡ true
unfolding passes_below
tchar_table = refl

agrees_lem :
    (low sep t r : Bool)
    → (if t then not (low || sep) else (low || sep)) ≡ true
    → (if low then false else if sep then false else r) ≡ (t && r)
agrees_lem true sep true r h = absurd (ground arith)
agrees_lem false true true r h = absurd (ground arith)
agrees_lem false false true r h = refl
agrees_lem true sep false r h = refl
agrees_lem false true false r h = refl
agrees_lem false false false r h = absurd (ground arith)

valid_bytes-all_tchars : (value : Bytes) → IsBytes value → valid_bytes value ≡ all_tchars value
unfolding valid_bytes
valid_bytes-all_tchars [] h = refl
valid_bytes-all_tchars (b ∷ rest) h =
    let e = passes_below_at agrees 256 b tchar_table h.0 in
    agrees_lem (leb b 32 || leb 127 b) (is_separator b) (is_tchar b) (valid_bytes rest) e
    ∙ ap (λ r. is_tchar b && r) (valid_bytes-all_tchars rest h.1)

-- The validator accepts a byte string exactly if it is a token of RFC 7230: not empty, and of
-- token characters only.
pub validate_subprotocol_token-is_token :
    (value : Bytes) → IsBytes value → validate_subprotocol_token value ≡ is_token value
unfolding validate_subprotocol_token
validate_subprotocol_token-is_token [] h = refl
validate_subprotocol_token-is_token (b ∷ rest) h =
    let some_bytes : (length (b ∷ rest) == 0) ≡ false = ground arith in
    rw some_bytes (valid_bytes-all_tchars (b ∷ rest) h)

all_tchars-IsBytes : (value : Bytes) → all_tchars value ≡ true → IsBytes value
all_tchars-IsBytes [] h = tt
all_tchars-IsBytes (b ∷ rest) h =
    let first : is_tchar b ≡ true = ground (arith, h) in
    let later : all_tchars rest ≡ true = ground (arith, h) in
    (ground (arith, first), all_tchars-IsBytes rest later)

-- A token passes the validator.
pub is_token-valid :
    (value : Bytes) → is_token value ≡ true → validate_subprotocol_token value ≡ true
is_token-valid [] h = absurd (cc)
is_token-valid (b ∷ rest) h =
    validate_subprotocol_token-is_token (b ∷ rest) (all_tchars-IsBytes (b ∷ rest) h) ∙ h
