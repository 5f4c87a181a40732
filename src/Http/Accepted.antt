-- ===== src/Http/Accepted.antt =====
-- What a request is that `websocket_http_parse_upgrade` accepts.
use php_websocket.Base.{◌≡◌, true, Option, none, some, List, Bytes, is_some}
use php_websocket.Http.Words.{upgrade_name, connection_name, version_name, key_name}
use php_websocket.Http.Asked.{says, values}
use php_websocket.Http.Written.{AreWritten}
use php_websocket.Http.Upgrade.{Upgrade, UpgradeResult, upgrade_ok, incomplete, invalid}
use php_websocket.Http.Trusted.{
  names_websocket, names_upgrade, is_13, IsAccept, IsSelected, Trusted,
}

module _ (supported : List Bytes) (base64_decode : Bytes → Option Bytes)
    (accept_of : Bytes → Bytes) where
  -- What an accepted request has in its bytes.
  abbrev pub IsAccepted : Bytes → UpgradeResult → Type 0
  IsAccepted buf incomplete = Unit
  IsAccepted buf invalid = Unit
  IsAccepted buf (upgrade_ok u) =
      ((rest : Bytes) × AreWritten buf rest u.headers)
      × (says upgrade_name names_websocket u.headers ≡ true)
      × (says connection_name names_upgrade u.headers ≡ true)
      × (says version_name is_13 u.headers ≡ true)
      × (is_some u.accept_key ≡ true)
      × IsAccept supported base64_decode accept_of u.accept_key (values key_name u.headers)
      × IsSelected supported base64_decode accept_of u.selected_subprotocol

  -- The parser in front of `rest`: what it has gathered is what the bytes so far say.
  abbrev Reads : Bytes → Bytes → Upgrade → Type 0
  Reads buf rest u = Trusted supported base64_decode accept_of u × AreWritten buf rest u.headers

  abbrev ReadsIf : Bytes → Bytes → Option Upgrade → Type 0
  ReadsIf buf rest none = Unit
  ReadsIf buf rest (some u) = Reads buf rest u
