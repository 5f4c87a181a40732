-- ===== src/Tests/Requests.antt =====
-- Http: runs on a request, and the theorems at concrete strings.
use php_websocket.Base.{◌≡◌, refl, none, some, Option, [], ◌∷◌, Bytes, arith}
use php_websocket.Http.Text.{
  memchr, trim, trim_start, trim_len, equals_ci, split_commas, header_contains_token,
  find_header_end, header_end_from,
}
use php_websocket.Http.Tokens.{
  validate_subprotocol_token, is_token, select_subprotocol, select_from, valid_bytes,
  validate_subprotocol_token-is_token,
}
use php_websocket.Http.Upgrade.{
  UpgradeResult, upgrade_ok, no_upgrade, parse_upgrade, parse_lines, parse_header_line,
  apply_header, finish, parse_request_line, validate_key,
}
use php_websocket.Http.Lines.{IsFirstEnd, find_header_end-IsFirstEnd, parse_lines-enough}

-- "chat"
abbrev pub chat : Bytes
chat = 99 ∷ 104 ∷ 97 ∷ 116 ∷ []

-- A request for the subprotocols x and chat, with the key "abc".
abbrev pub request : Bytes
request =
    71 ∷ 69 ∷ 84 ∷ 32 ∷ 47 ∷ 32 ∷ 72 ∷ 84 ∷ 84 ∷ 80 ∷ 47 ∷ 49 ∷ 46 ∷ 49 ∷ 13 ∷ 10 ∷ 85 ∷ 112 ∷ 103
    ∷ 114 ∷ 97 ∷ 100 ∷ 101 ∷ 58 ∷ 32 ∷ 119 ∷ 101 ∷ 98 ∷ 115 ∷ 111 ∷ 99 ∷ 107 ∷ 101 ∷ 116 ∷ 13 ∷ 10
    ∷ 67 ∷ 111 ∷ 110 ∷ 110 ∷ 101 ∷ 99 ∷ 116 ∷ 105 ∷ 111 ∷ 110 ∷ 58 ∷ 32 ∷ 107 ∷ 101 ∷ 101 ∷ 112 ∷ 45
    ∷ 97 ∷ 108 ∷ 105 ∷ 118 ∷ 101 ∷ 44 ∷ 32 ∷ 85 ∷ 112 ∷ 103 ∷ 114 ∷ 97 ∷ 100 ∷ 101 ∷ 13 ∷ 10 ∷ 83
    ∷ 101 ∷ 99 ∷ 45 ∷ 87 ∷ 101 ∷ 98 ∷ 83 ∷ 111 ∷ 99 ∷ 107 ∷ 101 ∷ 116 ∷ 45 ∷ 86 ∷ 101 ∷ 114 ∷ 115
    ∷ 105 ∷ 111 ∷ 110 ∷ 58 ∷ 32 ∷ 49 ∷ 51 ∷ 13 ∷ 10 ∷ 83 ∷ 101 ∷ 99 ∷ 45 ∷ 87 ∷ 101 ∷ 98 ∷ 83 ∷ 111
    ∷ 99 ∷ 107 ∷ 101 ∷ 116 ∷ 45 ∷ 75 ∷ 101 ∷ 121 ∷ 58 ∷ 32 ∷ 97 ∷ 98 ∷ 99 ∷ 13 ∷ 10 ∷ 83 ∷ 101 ∷ 99
    ∷ 45 ∷ 87 ∷ 101 ∷ 98 ∷ 83 ∷ 111 ∷ 99 ∷ 107 ∷ 101 ∷ 116 ∷ 45 ∷ 80 ∷ 114 ∷ 111 ∷ 116 ∷ 111 ∷ 99
    ∷ 111 ∷ 108 ∷ 58 ∷ 32 ∷ 120 ∷ 44 ∷ 32 ∷ 99 ∷ 104 ∷ 97 ∷ 116 ∷ 13 ∷ 10 ∷ 13 ∷ 10 ∷ []

-- A decoder that gives sixteen bytes, and a digest that gives the key back.
abbrev pub sixteen : Bytes → Option Bytes
sixteen key = some (0 ∷ 0 ∷ 0 ∷ 0 ∷ 0 ∷ 0 ∷ 0 ∷ 0 ∷ 0 ∷ 0 ∷ 0 ∷ 0 ∷ 0 ∷ 0 ∷ 0 ∷ 0 ∷ [])

abbrev pub digest : Bytes → Bytes
digest key = key

abbrev chosen : UpgradeResult → Option Bytes
chosen (upgrade_ok u) = u.selected_subprotocol
chosen _ = none

parse_request : chosen (parse_upgrade (chat ∷ []) sixteen digest request) ≡ some chat
unfolding parse_upgrade find_header_end header_end_from memchr parse_request_line parse_lines
    parse_header_line apply_header finish validate_key equals_ci header_contains_token trim
    trim_start trim_len split_commas select_subprotocol select_from validate_subprotocol_token
    valid_bytes
parse_request = refl

validate_subprotocol_token-is_token_example : validate_subprotocol_token chat ≡ is_token chat
validate_subprotocol_token-is_token_example = validate_subprotocol_token-is_token chat (omega arith)

find_header_end-IsFirstEnd_example : IsFirstEnd 0 request (find_header_end request)
find_header_end-IsFirstEnd_example = find_header_end-IsFirstEnd request

parse_lines-enough_example :
    parse_lines (chat ∷ []) sixteen digest 40 request 50 16 no_upgrade
    ≡ parse_lines (chat ∷ []) sixteen digest 200 request 50 16 no_upgrade
parse_lines-enough_example =
    parse_lines-enough (chat ∷ []) sixteen digest 40 200 request 50 16 no_upgrade (omega arith)
      (omega arith)
