-- ===== src/Http/Headers/Joined.antt =====
-- What `WebSocket\Request::header` answers.
use php_websocket.Base.{
  ◌≢◌, ◌≡◌, refl, ap, sym, subst, ◌∙◌, true, false, ◌&&◌, Option, none, some, List, [], ◌∷◌, ◌++◌,
  append_assoc, Bytes, All, ◌==◌, if◌then◌else◌, Bool-cases, inl, inr, arith,
}
use php_websocket.Http.Text.{lower, equals_ci}
use php_websocket.Http.Tokens.{same_bytes, same_bytes_refl, same_bytes_of}
use php_websocket.Http.Headers.{
  Table, find, update, lower_name, until_nul, join, store_headers, request_headers, header,
}

abbrev pub HasNoNul : Bytes → Type 0
HasNoNul value = All (λ b. b ≢ 0) value

-- The values of the headers called `name`, whatever the case of its letters, in their order.
abbrev pub values_of : Bytes → List (Bytes × Bytes) → List Bytes
values_of name [] = []
values_of name ((n, value) ∷ rest) =
    if equals_ci n name then value ∷ values_of name rest else values_of name rest

-- The values with ", " between them; `none` if there are none.
abbrev pub with_commas : Bytes → List Bytes → Bytes
with_commas value [] = value
with_commas value (next ∷ rest) = value ++ (44 ∷ 32 ∷ with_commas next rest)

abbrev pub joined : List Bytes → Option Bytes
joined [] = none
joined (value ∷ rest) = some (with_commas value rest)

-- What is stored already, in front of the values to come.
abbrev behind : Option Bytes → List Bytes → List Bytes
behind none values = values
behind (some stored) values = stored ∷ values

equals_ci-same_bytes :
    (xs ys : Bytes) → equals_ci xs ys ≡ same_bytes (lower_name xs) (lower_name ys)
unfolding equals_ci
equals_ci-same_bytes [] [] = refl
equals_ci-same_bytes [] (y ∷ ys) = refl
equals_ci-same_bytes (x ∷ xs) [] = refl
equals_ci-same_bytes (x ∷ xs) (y ∷ ys) =
    ap (λ r. lower x == lower y && r) (equals_ci-same_bytes xs ys)

until_nul-all : (value : Bytes) → HasNoNul value → until_nul value ≡ value
unfolding until_nul
until_nul-all [] h = refl
until_nul-all (b ∷ rest) h =
    let e : (b == 0) ≡ false = ground (arith, h.0) in
    rw e (ap (λ l. b ∷ l) (until_nul-all rest h.1))

-- What `update` does to every key.
find-update :
    (key value x : Bytes) (t : Table)
    → find x (update key value t) ≡ (if same_bytes key x then some value else find x t)
unfolding find update
find-update key value x [] = refl
find-update key value x ((k, v) ∷ rest) = elim (Bool-cases (same_bytes k key)) [
  | inr e ↦ elim (Bool-cases (same_bytes k x)) [
    | inr f ↦ rw (e, f) (find-update key value x rest)
    | inl f ↦
        let other : same_bytes key x ≡ false = elim (Bool-cases (same_bytes key x)) [
          | inr g ↦ g
          | inl g ↦
              let same : k ≡ key = same_bytes_of k x f ∙ sym (same_bytes_of key x g) in
              let again : same_bytes k key ≡ true =
                ap (same_bytes k) (sym same) ∙ same_bytes_refl k in
              cc
        ] in
        rw (e, f, other) refl
  ]
  | inl e ↦
      let same = same_bytes_of k key e in
      let tests : same_bytes k x ≡ same_bytes key x = ap (λ y. same_bytes y x) same in
      elim (Bool-cases (same_bytes key x)) [
        | inl g ↦ let f : same_bytes k x ≡ true = tests ∙ g in rw (e, f, g) refl
        | inr g ↦ let f : same_bytes k x ≡ false = tests ∙ g in rw (e, f, g) refl
      ]
]

find-update_here :
    (key value x : Bytes) (t : Table)
    → same_bytes key x ≡ true
    → find x (update key value t) ≡ some value
find-update_here key value x t e =
    find-update key value x t ∙ ap (λ b. if b then some value else find x t) e

find-update_other :
    (key value x : Bytes) (t : Table)
    → same_bytes key x ≡ false
    → find x (update key value t) ≡ find x t
find-update_other key value x t e =
    find-update key value x t ∙ ap (λ b. if b then some value else find x t) e

abbrev HasNoNulIf : Option Bytes → Type 0
HasNoNulIf none = Unit
HasNoNulIf (some value) = HasNoNul value

-- No value that a table gives has a NUL.
abbrev Clean : Table → Type 0
Clean t = (x : Bytes) → HasNoNulIf (find x t)

HasNoNul-append : (xs ys : Bytes) → HasNoNul xs → HasNoNul ys → HasNoNul (xs ++ ys)
HasNoNul-append [] ys p q = q
HasNoNul-append (x ∷ xs) ys p q = (p.0, HasNoNul-append xs ys p.1 q)

until_nul-HasNoNul : (value : Bytes) → HasNoNul (until_nul value)
unfolding until_nul
until_nul-HasNoNul [] = tt
until_nul-HasNoNul (b ∷ rest) = elim (Bool-cases (b == 0)) [
  | inl t ↦ rw t tt
  | inr t ↦ rw t (ground arith, until_nul-HasNoNul rest)
]

join-HasNoNul : (o : Option Bytes) (value : Bytes) → HasNoNul value → HasNoNul (join o value)
join-HasNoNul none value h = h
join-HasNoNul (some existing) value h =
    HasNoNul-append (until_nul existing) (44 ∷ 32 ∷ until_nul value) (until_nul-HasNoNul existing)
      (HasNoNul-append (44 ∷ 32 ∷ []) (until_nul value) (omega arith) (until_nul-HasNoNul value))

update-Clean :
    (key value : Bytes) (t : Table) → Clean t → HasNoNul value → Clean (update key value t)
update-Clean key value t c h = λ x. elim (Bool-cases (same_bytes key x)) [
  | inl e ↦ subst HasNoNulIf (sym (find-update_here key value x t e)) h
  | inr e ↦ subst HasNoNulIf (sym (find-update_other key value x t e)) (c x)
]

joined-join :
    (o : Option Bytes) (value : Bytes) (values : List Bytes)
    → HasNoNulIf o
    → HasNoNul value
    → joined (join o value ∷ values) ≡ joined (behind o (value ∷ values))
joined-join none value values p h = refl
joined-join (some w) value [] p h = rw (until_nul-all w p, until_nul-all value h) refl
joined-join (some w) value (next ∷ values) p h =
    rw (until_nul-all w p, until_nul-all value h)
      (ap some (append_assoc w (44 ∷ 32 ∷ value) (44 ∷ 32 ∷ with_commas next values)))

joined-behind : (o : Option Bytes) → o ≡ joined (behind o [])
joined-behind none = refl
joined-behind (some v) = refl

store_headers-joined :
    (t : Table) (headers : List (Bytes × Bytes)) (name : Bytes)
    → Clean t
    → All (λ h. HasNoNul h.1) headers
    → find (lower_name name) (store_headers t headers)
      ≡ joined (behind (find (lower_name name) t) (values_of name headers))
unfolding store_headers
store_headers-joined t [] name c h = joined-behind (find (lower_name name) t)
store_headers-joined t ((n, value) ∷ rest) name c h =
    let key = lower_name n in
    let old = find key t in
    let t' = update key (join old value) t in
    let ih =
      store_headers-joined t' rest name
        (update-Clean key (join old value) t c (join-HasNoNul old value h.0)) h.1 in
    let tests = equals_ci-same_bytes n name in
    let wanted = lower_name name in
    elim (Bool-cases (same_bytes key (lower_name name))) [
      | inl e ↦
          let e' : equals_ci n name ≡ true = tests ∙ e in
          let same : old ≡ find (lower_name name) t =
            ap (λ k. find k t) (same_bytes_of key (lower_name name) e) in
          ih
          ∙ ap (λ o. joined (behind o (values_of name rest)))
              (find-update_here key (join old value) wanted t e)
          ∙ joined-join old value (values_of name rest) (c key) h.0
          ∙ ap (λ o. joined (behind o (value ∷ values_of name rest))) same
          ∙ rw e' refl
      | inr e ↦
          let e' : equals_ci n name ≡ false = tests ∙ e in
          ih
          ∙ ap (λ o. joined (behind o (values_of name rest)))
              (find-update_other key (join old value) wanted t e)
          ∙ rw e' refl
    ]

-- If no header's value has a NUL, `Request::header` answers with the values of all headers of that
-- name, whatever the case of its letters, in their order with ", " between them, and with null
-- exactly if there is no such header.
pub header-joined :
    (headers : List (Bytes × Bytes)) (name : Bytes)
    → All (λ h. HasNoNul h.1) headers
    → header (request_headers headers) name ≡ joined (values_of name headers)
unfolding header request_headers find
header-joined headers name h = store_headers-joined [] headers name (λ x. tt) h
