-- ===== src/Http/Upgrade.antt =====
-- `websocket_http_parse_upgrade` and the answer to the request. The check and the digest of the
-- key are the engine's base64 decoder and SHA-1, which stand as parameters.
use php_websocket.Base.{
  ℕ, zero, suc, ◌+◌, ◌-◌, Bool, false, not, ◌||◌, Option, none, some, List, [], ◌∷◌, ◌++◌, Bytes,
  length, get_or, take, drop, ltb, leb, ◌==◌, if◌then◌else◌, is_some,
}
use php_websocket.Http.Words.{
  get_method, http_version, upgrade_name, websocket_token, connection_name, upgrade_token,
  version_name, version_13, key_name, protocol_name, switching, accept_line, protocol_line, crlf,
}
use php_websocket.Http.Text.{memchr, find_header_end, trim, equals_ci, header_contains_token}
use php_websocket.Http.Tokens.{select_subprotocol}

abbrev pub max_request_size : ℕ
max_request_size = 8192

-- `websocket_http_upgrade`, with the three flags of the parser.
pub record Upgrade : Type 0 where
  pub method : Bytes
  pub target : Bytes
  pub bytes_consumed : ℕ
  pub accept_key : Option Bytes
  pub selected_subprotocol : Option Bytes
  pub headers : List (Bytes × Bytes)
  pub has_upgrade : Bool
  pub has_connection : Bool
  pub has_version : Bool

-- `websocket_http_upgrade_result`
pub data UpgradeResult : Type 0 where
  upgrade_ok : Upgrade → UpgradeResult
  incomplete invalid : UpgradeResult

-- `websocket_http_upgrade_init`
abbrev pub no_upgrade : Upgrade
no_upgrade = record {
  method = [];
  target = [];
  bytes_consumed = 0;
  accept_key = none;
  selected_subprotocol = none;
  headers = [];
  has_upgrade = false;
  has_connection = false;
  has_version = false;
}

-- The target and the version, behind the method.
abbrev pub parse_target : Bytes → Bytes → Option ℕ → Option (Bytes × Bytes)
parse_target method rest none = none
parse_target method rest (some n) =
    if n == 0
    then none
    else if not (equals_ci (drop (suc n) rest) http_version)
    then none
    else some (method, take n rest)

abbrev pub parse_method : Bytes → Option ℕ → Option (Bytes × Bytes)
parse_method line none = none
parse_method line (some n) =
    let rest = drop (suc n) line in
    if not (equals_ci (take n line) get_method)
    then none
    else parse_target (take n line) rest (memchr rest 32)

-- `websocket_http_parse_request_line`: the method and the target.
unfoldable pub parse_request_line : Bytes → Option (Bytes × Bytes)
parse_request_line line = parse_method line (memchr line 32)

module _ (supported : List Bytes) (base64_decode : Bytes → Option Bytes)
    (accept_of : Bytes → Bytes) where
  abbrev pub check_decoded : Bytes → Option Bytes → Option Bytes
  check_decoded value none = none
  check_decoded value (some decoded) = if length decoded == 16 then some (accept_of value) else none

  -- `websocket_http_validate_key`
  unfoldable pub validate_key : Bytes → Option Bytes
  validate_key value = check_decoded value (base64_decode value)

  abbrev pub with_key : Upgrade → Option Bytes → Option Upgrade
  with_key u none = none
  with_key u (some key) = some (record u { accept_key = some key })

  abbrev pub with_subprotocol : Upgrade → Option (Option Bytes) → Option Upgrade
  with_subprotocol u none = none
  with_subprotocol u (some selected) = some (record u { selected_subprotocol = selected })

  -- What one header does; `none` makes the request invalid.
  unfoldable pub apply_header : Upgrade → Bytes → Bytes → Option Upgrade
  apply_header u name value =
      if equals_ci name upgrade_name
      then some (record u { has_upgrade = header_contains_token value websocket_token })
      else if equals_ci name connection_name
      then some (record u { has_connection = header_contains_token value upgrade_token })
      else if equals_ci name version_name
      then some (record u { has_version = equals_ci value version_13 })
      else if equals_ci name key_name
      then (if is_some u.accept_key then none else with_key u (validate_key value))
      else if equals_ci name protocol_name
      then with_subprotocol u (select_subprotocol supported value u.selected_subprotocol)
      else some u

  abbrev pub at_colon : Upgrade → Bytes → Option ℕ → Option Upgrade
  at_colon u line none = none
  at_colon u line (some n) =
      let name = trim (take n line) in
      let value = trim (drop (suc n) line) in
      apply_header (record u { headers = u.headers ++ ((name, value) ∷ []) }) name value

  -- One line of the header, without its end.
  unfoldable pub parse_header_line : Upgrade → Bytes → Option Upgrade
  parse_header_line u line = at_colon u line (memchr line 58)

  abbrev pub or_invalid : Option Upgrade → (Upgrade → UpgradeResult) → UpgradeResult
  or_invalid none rest = invalid
  or_invalid (some u) rest = rest u

  -- The test behind the loop.
  unfoldable pub finish : Upgrade → UpgradeResult
  finish u =
      if not u.has_upgrade
        || not u.has_connection
        || not u.has_version
        || not (is_some u.accept_key)
      then invalid
      else upgrade_ok u

  -- A round behind `memchr`, which has found the line's end `n` bytes on; `rest` is the next round.
  abbrev pub at_line_end :
      Bytes → ℕ → Upgrade → (ℕ → Upgrade → UpgradeResult) → Option ℕ → UpgradeResult
  at_line_end buf line u rest none = invalid
  at_line_end buf line u rest (some n) =
      if leb (length buf) (line + n + 1) || not (get_or buf (line + n + 1) 0 == 10)
      then invalid
      else if n == 0
      then finish u
      else or_invalid (parse_header_line u (take n (drop line buf))) (rest (line + n + 2))

  -- The loop, with `line` bytes in front of the line and the header's end at `header_end`.
  unfoldable pub parse_lines : ℕ → Bytes → ℕ → ℕ → Upgrade → UpgradeResult
  parse_lines zero buf header_end line u = finish u
  parse_lines (suc fuel) buf header_end line u =
      if not (ltb line header_end)
      then finish u
      else at_line_end buf line u (parse_lines fuel buf header_end)
          (memchr (take (header_end - line + 1) (drop line buf)) 13)

  abbrev pub on_request_line : Bytes → ℕ → ℕ → Option (Bytes × Bytes) → UpgradeResult
  on_request_line buf header_end n none = invalid
  on_request_line buf header_end n (some (method, target)) =
      parse_lines (length buf) buf header_end (n + 2)
        (record no_upgrade { method = method; target = target; bytes_consumed = header_end + 4 })

  abbrev pub at_request_end : Bytes → ℕ → Option ℕ → UpgradeResult
  at_request_end buf header_end none = invalid
  at_request_end buf header_end (some n) =
      if leb (length buf) (n + 1) || not (get_or buf (n + 1) 0 == 10)
      then invalid
      else on_request_line buf header_end n (parse_request_line (take n buf))

  abbrev pub at_header_end : Bytes → Option ℕ → UpgradeResult
  at_header_end buf none = incomplete
  at_header_end buf (some header_end) =
      at_request_end buf header_end (memchr (take header_end buf) 13)

  -- `websocket_http_parse_upgrade`
  unfoldable pub parse_upgrade : Bytes → UpgradeResult
  parse_upgrade buf =
      if ltb max_request_size (length buf) then invalid else at_header_end buf (find_header_end buf)

-- `websocket_http_upgrade_response`
unfoldable pub upgrade_response : Bytes → Option Bytes → Bytes
upgrade_response accept_key none = switching ++ (accept_line ++ (accept_key ++ (crlf ++ crlf)))
upgrade_response accept_key (some name) =
    switching
    ++ (accept_line ++ (accept_key ++ (crlf ++ (protocol_line ++ (name ++ (crlf ++ crlf))))))
