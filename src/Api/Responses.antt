-- ===== src/Api/Responses.antt =====
-- `WebSocket\HandshakeResponse`, its checks.
pub mod Admitted
use php_websocket.Base.{
  ℕ, ◌≤◌, ◌<◌, ◌≢◌, ◌≡◌, refl, ap, sym, subst, ◌∙◌, Bool, true, false, not, ◌&&◌, ◌||◌, Option,
  none, some, List, [], ◌∷◌, ◌++◌, append_assoc, append-nil, Bytes, All, length, leb, ◌==◌, is_some,
  if◌then◌else◌, Bool-cases, inl, inr, arith,
}
use php_websocket.Base.Int.{ℤ, pos, negsuc, lt_nat, gt_nat}
use php_websocket.Http.Text.{memchr, later_index}
use php_websocket.Http.Tokens.{validate_subprotocol_token, valid_bytes, valid_bytes-split}
use php_websocket.Server.Answers.{Response, response_bytes}
use php_websocket.Server.Answers.Lines.{
  IsLine, IsHeader, read_head, response_lines, read_head-response_bytes,
}
use php_websocket.Api.Values.{
  Value, string, other, Exception, type_error, value_error, Made, made, throws,
}

-- `websocket_header_value_is_valid`
unfoldable pub header_value_is_valid : Bytes → Bool
header_value_is_valid value = not (is_some (memchr value 13)) && not (is_some (memchr value 10))

-- The array of the headers as it is given: a key is a string, or `none` for an integer.
abbrev pub GivenHeaders : Type 0
GivenHeaders = List (Option Bytes × Value)

-- The loop of the constructor; `normalized` is what has been taken over.
unfoldable pub check_headers : List (Bytes × Bytes) → GivenHeaders → Made (List (Bytes × Bytes))
check_headers normalized [] = made normalized
check_headers normalized ((none, value) ∷ rest) = throws (value_error 2)
check_headers normalized ((some name, other) ∷ rest) =
    if not (validate_subprotocol_token name) then throws (value_error 2) else throws (type_error 2)
check_headers normalized ((some name, string value) ∷ rest) =
    let more = check_headers (normalized ++ ((name, value) ∷ [])) rest in
    if not (validate_subprotocol_token name)
    then throws (value_error 2)
    else if not (header_value_is_valid value)
    then throws (value_error 2)
    else more

abbrev pub as_nat : ℤ → ℕ
as_nat (pos n) = n
as_nat (negsuc n) = 0

abbrev pub with_headers : ℕ → Bytes → Made (List (Bytes × Bytes)) → Made Response
with_headers status body (made headers) =
    made (record { status = status; headers = headers; body = body })
with_headers status body (throws x) = throws x

-- `WebSocket\HandshakeResponse::__construct`, with `[]` for headers that are not given.
unfoldable pub construct_response : ℤ → GivenHeaders → Bytes → Made Response
construct_response status headers body =
    if lt_nat status 100 || gt_nat status 599 || (as_nat status == 101)
    then throws (value_error 1)
    else with_headers (as_nat status) body (check_headers [] headers)

-- The response of a `WebSocket\HandshakeException` that is given none.
abbrev pub default_response : Response
default_response = record { status = 403; headers = []; body = [] }
