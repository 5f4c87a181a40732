-- ===== src/Http/Trusted.antt =====
-- What the parser of the upgrade request has gathered, as its headers say it.
use php_websocket.Base.{
  ◌≡◌, refl, ap, sym, subst, ◌∙◌, Bool, true, false, Option, none, some, List, [], ◌∷◌, ◌++◌, Bytes,
  length, ◌==◌, is_some, Bool-cases, inl, inr, arith,
}
use php_websocket.Http.Words.{
  upgrade_name, connection_name, version_name, key_name, protocol_name, websocket_token,
  upgrade_token, version_13,
}
use php_websocket.Http.Text.{trim, equals_ci, split_commas, header_contains_token}
use php_websocket.Http.Asked.{
  says, values, says_hit, says_skip, values_hit, values_skip, other_name,
}
use php_websocket.Http.Tokens.{
  select_subprotocol, select_from, select_token, validate_subprotocol_token, is_in,
}
use php_websocket.Http.Upgrade.{
  Upgrade, check_decoded, validate_key, with_key, with_subprotocol, apply_header,
}

-- What the headers Upgrade, Connection and Sec-WebSocket-Version must say.
abbrev pub names_websocket : Bytes → Bool
names_websocket value = header_contains_token value websocket_token

abbrev pub names_upgrade : Bytes → Bool
names_upgrade value = header_contains_token value upgrade_token

abbrev pub is_13 : Bytes → Bool
is_13 value = equals_ci value version_13

module _ (supported : List Bytes) (base64_decode : Bytes → Option Bytes)
    (accept_of : Bytes → Bytes) where
  -- The accept key is that of the one key, which decodes to 16 bytes; without an accept key there
  -- is no key.
  abbrev pub IsAccept : Option Bytes → List Bytes → Type 0
  IsAccept none keys = keys ≡ []
  IsAccept (some accept) keys =
      (key : Bytes) × (decoded : Bytes) × (keys ≡ key ∷ [])
      × (base64_decode key ≡ some decoded)
      × (length decoded ≡ 16)
      × (accept ≡ accept_of key)

  -- The subprotocol is a token that the server supports.
  abbrev pub IsSelected : Option Bytes → Type 0
  IsSelected none = Unit
  IsSelected (some name) = (is_in name supported ≡ true) × (validate_subprotocol_token name ≡ true)

  -- The flags are what the headers so far say.
  abbrev pub Flags : Upgrade → List (Bytes × Bytes) → Type 0
  Flags u headers =
      (u.has_upgrade ≡ says upgrade_name names_websocket headers)
      × (u.has_connection ≡ says connection_name names_upgrade headers)
      × (u.has_version ≡ says version_name is_13 headers)

  abbrev pub TrustedFor : List (Bytes × Bytes) → Upgrade → Type 0
  TrustedFor headers u =
      Flags u headers
      × IsAccept u.accept_key (values key_name headers)
      × IsSelected u.selected_subprotocol

  abbrev pub Trusted : Upgrade → Type 0
  Trusted u = TrustedFor u.headers u

  abbrev pub TrustedIf : Option Upgrade → Type 0
  TrustedIf none = Unit
  TrustedIf (some u) = Trusted u

  abbrev IsSelectedIf : Option (Option Bytes) → Type 0
  IsSelectedIf none = Unit
  IsSelectedIf (some selected) = IsSelected selected

  select_token-IsSelected :
      (selected : Option Bytes) (token : Bytes)
      → IsSelected selected
      → validate_subprotocol_token token ≡ true
      → IsSelected (select_token supported selected token)
  select_token-IsSelected (some name) token h v = h
  select_token-IsSelected none token h v = elim (Bool-cases (is_in token supported)) [
    | inl t ↦ rw t (t, v)
    | inr t ↦ rw t tt
  ]

  select_from-IsSelected :
      (parts : List Bytes) (selected : Option Bytes)
      → IsSelected selected
      → IsSelectedIf (select_from supported parts selected)
  unfolding select_from
  select_from-IsSelected [] selected h = h
  select_from-IsSelected (part ∷ parts) selected h =
      elim (Bool-cases (validate_subprotocol_token (trim part))) [
        | inr v ↦ rw v tt
        | inl v ↦ rw v (
            select_from-IsSelected parts (select_token supported selected (trim part))
              (select_token-IsSelected selected (trim part) h v))
      ]

  with_subprotocol-Trusted :
      (u : Upgrade) (r : Option (Option Bytes))
      → Trusted u
      → IsSelectedIf r
      → TrustedIf (with_subprotocol supported base64_decode accept_of u r)
  with_subprotocol-Trusted u none h k = tt
  with_subprotocol-Trusted u (some selected) h k = (h.0, h.1, k)

  -- A header of another name leaves what the headers say.
  module _ (u : Upgrade) (name value : Bytes) where
    abbrev more : List (Bytes × Bytes)
    more = u.headers ++ ((name, value) ∷ [])

    key_kept :
        equals_ci name key_name ≡ false
        → IsAccept u.accept_key (values key_name u.headers)
        → IsAccept u.accept_key (values key_name more)
    key_kept h k = subst (IsAccept u.accept_key) (values_skip key_name u.headers name value h) k

    upgrade_kept :
        equals_ci name upgrade_name ≡ false
        → u.has_upgrade ≡ says upgrade_name names_websocket u.headers
        → u.has_upgrade ≡ says upgrade_name names_websocket more
    upgrade_kept h k = says_skip upgrade_name u.headers name value names_websocket h k

    connection_kept :
        equals_ci name connection_name ≡ false
        → u.has_connection ≡ says connection_name names_upgrade u.headers
        → u.has_connection ≡ says connection_name names_upgrade more
    connection_kept h k = says_skip connection_name u.headers name value names_upgrade h k

    version_kept :
        equals_ci name version_name ≡ false
        → u.has_version ≡ says version_name is_13 u.headers
        → u.has_version ≡ says version_name is_13 more
    version_kept h k = says_skip version_name u.headers name value is_13 h k

    -- None of the three flags, for a name that is none of the three.
    Flags-kept :
        equals_ci name upgrade_name ≡ false
        → equals_ci name connection_name ≡ false
        → equals_ci name version_name ≡ false
        → Flags u u.headers
        → Flags u more
    Flags-kept a b c f = (upgrade_kept a f.0, connection_kept b f.1, version_kept c f.2)

    check_decoded-Trusted :
        (r : Option Bytes)
        → base64_decode value ≡ r
        → u.accept_key ≡ none
        → equals_ci name key_name ≡ true
        → Flags u more
        → Trusted u
        → TrustedIf (
            with_key supported base64_decode accept_of
              (record u { headers = more })
              (check_decoded supported base64_decode accept_of value r))
    check_decoded-Trusted none e z d f h = tt
    check_decoded-Trusted (some decoded) e z d f h =
        let no_key : values key_name u.headers ≡ [] =
          subst (λ k. IsAccept k (values key_name u.headers)) z h.1 in
        let one : values key_name more ≡ value ∷ [] =
          sym (values_hit key_name u.headers name value d) ∙ ap (λ l. l ++ (value ∷ [])) no_key in
        elim (Bool-cases (length decoded == 16)) [
          | inr t ↦ rw t tt
          | inl t ↦ rw t (f, (value, decoded, one, e, ground arith, refl), h.2)
        ]

    no_key_yet : is_some u.accept_key ≡ false → u.accept_key ≡ none
    no_key_yet h = none_of u.accept_key h
      where
        none_of : (k : Option Bytes) → is_some k ≡ false → k ≡ none
        none_of none e = refl
        none_of (some k) e = absurd (cc)

    differ :
        (a b : Bytes)
        → equals_ci name a ≡ true
        → (length a == length b) ≡ false
        → equals_ci name b ≡ false
    differ a b = other_name name a b

    pub apply_header-Trusted :
        Trusted u
        → TrustedIf (
            apply_header supported base64_decode accept_of (record u { headers = more }) name value)
    unfolding apply_header validate_key select_subprotocol
    apply_header-Trusted h = elim (Bool-cases (equals_ci name upgrade_name)) [
      | inl a ↦ rw a (
        (
          says_hit upgrade_name u.headers name value names_websocket a,
          connection_kept (differ upgrade_name connection_name a refl) h.0.1,
          version_kept (differ upgrade_name version_name a refl) h.0.2,
        ),
        key_kept (differ upgrade_name key_name a refl) h.1,
        h.2,
      )
      | inr a ↦ elim (Bool-cases (equals_ci name connection_name)) [
        | inl b ↦
            rw (a, b)
              (
                (
                  upgrade_kept a h.0.0,
                  says_hit connection_name u.headers name value names_upgrade b,
                  version_kept (differ connection_name version_name b refl) h.0.2,
                ),
                key_kept (differ connection_name key_name b refl) h.1,
                h.2,
              )
        | inr b ↦ elim (Bool-cases (equals_ci name version_name)) [
          | inl c ↦
              rw (a, b, c)
                (
                  (
                    upgrade_kept a h.0.0,
                    connection_kept b h.0.1,
                    says_hit version_name u.headers name value is_13 c,
                  ),
                  key_kept (differ version_name key_name c refl) h.1,
                  h.2,
                )
          | inr c ↦
              let f = Flags-kept a b c h.0 in
              elim (Bool-cases (equals_ci name key_name)) [
                | inl d ↦ elim (Bool-cases (is_some u.accept_key)) [
                  | inl k ↦ rw (a, b, c, d, k) tt
                  | inr k ↦
                      rw (a, b, c, d, k)
                        (check_decoded-Trusted (base64_decode value) refl (no_key_yet k) d f h)
                ]
                | inr d ↦
                    let t : TrustedFor more u = (f, key_kept d h.1, h.2) in
                    elim (Bool-cases (equals_ci name protocol_name)) [
                      | inl p ↦
                          rw (a, b, c, d, p)
                            (with_subprotocol-Trusted (record u { headers = more }) _ t
                              (select_from-IsSelected (split_commas value) u.selected_subprotocol
                                h.2))
                      | inr p ↦ rw (a, b, c, d, p) t
                    ]
              ]
        ]
      ]
    ]

  -- The headers are what they were, on every branch.
  abbrev pub KeepsHeaders : List (Bytes × Bytes) → Option Upgrade → Type 0
  KeepsHeaders headers none = Unit
  KeepsHeaders headers (some u) = u.headers ≡ headers

  with_key-KeepsHeaders :
      (u : Upgrade) (r : Option Bytes)
      → KeepsHeaders u.headers (with_key supported base64_decode accept_of u r)
  with_key-KeepsHeaders u none = tt
  with_key-KeepsHeaders u (some key) = refl

  with_subprotocol-KeepsHeaders :
      (u : Upgrade) (r : Option (Option Bytes))
      → KeepsHeaders u.headers (with_subprotocol supported base64_decode accept_of u r)
  with_subprotocol-KeepsHeaders u none = tt
  with_subprotocol-KeepsHeaders u (some selected) = refl

  pub apply_header-KeepsHeaders :
      (u : Upgrade) (name value : Bytes)
      → KeepsHeaders u.headers (apply_header supported base64_decode accept_of u name value)
  unfolding apply_header
  apply_header-KeepsHeaders u name value = elim (Bool-cases (equals_ci name upgrade_name)) [
    | inl a ↦ rw a refl
    | inr a ↦ elim (Bool-cases (equals_ci name connection_name)) [
      | inl b ↦ rw (a, b) refl
      | inr b ↦ elim (Bool-cases (equals_ci name version_name)) [
        | inl c ↦ rw (a, b, c) refl
        | inr c ↦ elim (Bool-cases (equals_ci name key_name)) [
          | inl d ↦ elim (Bool-cases (is_some u.accept_key)) [
            | inl k ↦ rw (a, b, c, d, k) tt
            | inr k ↦ rw (a, b, c, d, k) (with_key-KeepsHeaders u _)
          ]
          | inr d ↦ elim (Bool-cases (equals_ci name protocol_name)) [
            | inl p ↦ rw (a, b, c, d, p) (with_subprotocol-KeepsHeaders u _)
            | inr p ↦ rw (a, b, c, d, p) refl
          ]
        ]
      ]
    ]
  ]
