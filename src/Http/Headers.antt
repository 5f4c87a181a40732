-- ===== src/Http/Headers.antt =====
-- The headers of a request as the application sees them:
-- `websocket_http_upgrade_request_headers`, and `WebSocket\Request::header`.
pub mod Joined
use php_websocket.Base.{
  ℕ, Bool, Option, none, some, List, [], ◌∷◌, ◌++◌, Bytes, map, ◌==◌, if◌then◌else◌,
}
use php_websocket.Http.Text.{lower}
use php_websocket.Http.Tokens.{same_bytes}

-- A hash table with strings as keys, in the order of insertion.
abbrev pub Table : Type 0
Table = List (Bytes × Bytes)

-- `zend_hash_find`
unfoldable pub find : Bytes → Table → Option Bytes
find key [] = none
find key ((k, v) ∷ rest) = let later = find key rest in if same_bytes k key then some v else later

-- `zend_hash_update`
unfoldable pub update : Bytes → Bytes → Table → Table
update key value [] = (key, value) ∷ []
update key value ((k, v) ∷ rest) =
    let later = update key value rest in
    if same_bytes k key then (k, value) ∷ rest else (k, v) ∷ later

-- `websocket_http_lower_header_name`
abbrev pub lower_name : Bytes → Bytes
lower_name name = map lower name

-- What `%s` and `%.*s` write of a string: they stop at its first NUL.
unfoldable pub until_nul : Bytes → Bytes
until_nul [] = []
until_nul (b ∷ rest) = let more = until_nul rest in if b == 0 then [] else b ∷ more

-- The value that is stored for a name that has one already, or has none.
abbrev pub join : Option Bytes → Bytes → Bytes
join none value = value
join (some existing) value = until_nul existing ++ (44 ∷ 32 ∷ until_nul value)

-- The loop of `websocket_http_upgrade_request_headers`, on what has been stored.
unfoldable pub store_headers : Table → List (Bytes × Bytes) → Table
store_headers stored [] = stored
store_headers stored ((name, value) ∷ rest) =
    let key = lower_name name in
    store_headers (update key (join (find key stored) value) stored) rest

-- `websocket_http_upgrade_request_headers`
unfoldable pub request_headers : List (Bytes × Bytes) → Table
request_headers headers = store_headers [] headers

-- `WebSocket\Request::header`
unfoldable pub header : Table → Bytes → Option Bytes
header stored name = find (lower_name name) stored
