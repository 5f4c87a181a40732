-- ===== src/Api/Server/Checked.antt =====
-- Which subprotocols `WebSocket\Server::subprotocols` accepts.
use php_websocket.Base.{
  ℕ, suc, ◌≡◌, refl, ap, sym, subst, ◌∙◌, Bool, true, false, not, ◌&&◌, ◌||◌, none, some, List, [],
  ◌∷◌, ◌++◌, append_assoc, append-nil, map, Bytes, All, if◌then◌else◌, Bool-cases, ◌⊎◌, inl, inr,
  arith,
}
use php_websocket.Http.Tokens.{
  validate_subprotocol_token, is_in, same_bytes, same_bytes_refl, same_bytes_of,
}
use php_websocket.Api.Values.{
  Value, string, other, Exception, error, type_error, value_error, Made, made, throws,
}
use php_websocket.Api.Server.{Server, Thrown, check_protocols, store_protocols, set_subprotocols}

-- No name stands in the list twice.
abbrev pub is_distinct : List Bytes → Bool
is_distinct [] = true
is_distinct (x ∷ xs) = not (is_in x xs) && is_distinct xs

abbrev pub AreTokens : List Bytes → Type 0
AreTokens names = All (λ name. validate_subprotocol_token name ≡ true) names

is_in-append_here : (s : Bytes) (xs rest : List Bytes) → is_in s (xs ++ (s ∷ rest)) ≡ true
is_in-append_here s [] rest = ground (arith, same_bytes_refl s)
is_in-append_here s (x ∷ xs) rest = ground (arith, is_in-append_here s xs rest)

double :
    (s : Bytes) (seen rest : List Bytes)
    → is_in s seen ≡ true
    → is_distinct (seen ++ (s ∷ rest)) ≡ false
double s [] rest h = cc
double s (x ∷ seen) rest h = elim (Bool-cases (same_bytes s x)) [
  | inl e ↦
      let same : s ≡ x = same_bytes_of s x e in
      let twice : is_in x (seen ++ (s ∷ rest)) ≡ true =
        subst (λ y. is_in y (seen ++ (s ∷ rest)) ≡ true) same (is_in-append_here s seen rest) in
      rw twice refl
  | inr e ↦
      let later : is_in s seen ≡ true = ground (arith, h, e) in
      let ih = double s seen rest later in ground (arith, ih)
]

is_in-snoc :
    (x s : Bytes) (seen : List Bytes)
    → is_in x (seen ++ (s ∷ [])) ≡ (is_in x seen || same_bytes x s)
is_in-snoc x s [] = ground arith
is_in-snoc x s (y ∷ seen) = ground (arith, is_in-snoc x s seen)

same_bytes-sym : (x y : Bytes) → same_bytes x y ≡ same_bytes y x
same_bytes-sym [] [] = refl
same_bytes-sym [] (y ∷ ys) = refl
same_bytes-sym (x ∷ xs) [] = refl
same_bytes-sym (x ∷ xs) (y ∷ ys) = ground (arith, same_bytes-sym xs ys)

is_distinct-snoc :
    (s : Bytes) (seen : List Bytes)
    → is_distinct seen ≡ true
    → is_in s seen ≡ false
    → is_distinct (seen ++ (s ∷ [])) ≡ true
is_distinct-snoc s [] h k = refl
is_distinct-snoc s (x ∷ seen) h k =
    let ih = is_distinct-snoc s seen (ground (arith, h)) (ground (arith, k)) in
    ground (arith, h, k, ih, is_in-snoc x s seen, same_bytes-sym x s)

-- What the loop ends with: all the values are new names, or they are not.
abbrev Checked : List Bytes → List Value → Made (List Bytes) → Type 0
Checked seen values (made l) =
    (names : List Bytes) × (values ≡ map string names)
    × (l ≡ seen ++ names)
    × AreTokens names
    × (is_distinct l ≡ true)
Checked seen values (throws x) =
    (names : List Bytes)
    → values ≡ map string names
    → AreTokens names
    → is_distinct (seen ++ names) ≡ true
    → ⊥

not_strings :
    (seen : List Bytes) (rest : List Value) (x : Exception) → Checked seen (other ∷ rest) (throws x)
not_strings seen rest x [] e t d = absurd (cc)
not_strings seen rest x (name ∷ names) e t d = absurd (cc)

-- The first value stands against the list.
first_bad :
    (name : Bytes) (seen : List Bytes) (rest : List Value) (x : Exception)
    → (validate_subprotocol_token name ≡ false) ⊎ (is_in name seen ≡ true)
    → Checked seen (string name ∷ rest) (throws x)
first_bad name seen rest x b [] e t d = absurd (cc)
first_bad name seen rest x (inl b) (n ∷ names) e t d =
    let same : name ≡ n = cc in
    let valid : validate_subprotocol_token name ≡ true = ap validate_subprotocol_token same ∙ t.0 in
    absurd (cc)
first_bad name seen rest x (inr b) (n ∷ names) e t d =
    let same : name ≡ n = cc in
    let twice : is_distinct (seen ++ (n ∷ names)) ≡ false =
      double n seen names (ap (λ y. is_in y seen) (sym same) ∙ b) in
    absurd (cc)

later-Checked :
    (name : Bytes) (seen : List Bytes) (rest : List Value) (r : Made (List Bytes))
    → validate_subprotocol_token name ≡ true
    → Checked (seen ++ (name ∷ [])) rest r
    → Checked seen (string name ∷ rest) r
later-Checked name seen rest (made l) v (names, e, k, t, d) =
    (name ∷ names, ap (λ r. string name ∷ r) e, k ∙ append_assoc seen (name ∷ []) names, (v, t), d)
later-Checked name seen rest (throws x) v h = λ names. by_cases names
  where
    by_cases :
        (names : List Bytes)
        → string name ∷ rest ≡ map string names
        → AreTokens names
        → is_distinct (seen ++ names) ≡ true
        → ⊥
    by_cases [] e t d = absurd (cc)
    by_cases (n ∷ names) e t d =
        let same : name ≡ n = cc in
        let tail : rest ≡ map string names = cc in
        h names tail t.1 (
          ap is_distinct (append_assoc seen (name ∷ []) names ∙ ap (λ y. seen ++ (y ∷ names)) same)
          ∙ d)

check_protocols-Checked :
    (i : ℕ) (seen : List Bytes) (values : List Value)
    → is_distinct seen ≡ true
    → Checked seen values (check_protocols i seen values)
unfolding check_protocols
check_protocols-Checked i seen [] d = ([], refl, sym (append-nil seen), tt, d)
check_protocols-Checked i seen (other ∷ rest) d = not_strings seen rest (type_error (suc i))
check_protocols-Checked i seen (string name ∷ rest) d =
    elim (Bool-cases (validate_subprotocol_token name)) [
      | inr v ↦ rw v (first_bad name seen rest (value_error (suc i)) (inl v))
      | inl v ↦ elim (Bool-cases (is_in name seen)) [
        | inl k ↦ rw (v, k) (first_bad name seen rest (value_error (suc i)) (inr k))
        | inr k ↦
            rw (v, k)
              (later-Checked name seen rest (check_protocols (suc i) (seen ++ (name ∷ [])) rest) v (
                check_protocols-Checked (suc i) (seen ++ (name ∷ [])) rest
                  (is_distinct-snoc name seen d k)))
      ]
    ]

-- What the method ends with, on a server that is not running.
abbrev pub IsChosen : Server → List Value → Thrown → Type 0
IsChosen s values (none, s') =
    (names : List Bytes) × (values ≡ map string names)
    × AreTokens names
    × (is_distinct names ≡ true)
    × (s' ≡ record s { subprotocols = names })
IsChosen s values (some x, s') =
    (s' ≡ s)
    × ((names : List Bytes)
        → values ≡ map string names
        → AreTokens names
        → is_distinct names ≡ true
        → ⊥)

store_protocols-IsChosen :
    (s : Server) (values : List Value) (r : Made (List Bytes))
    → Checked [] values r
    → IsChosen s values (store_protocols s r)
store_protocols-IsChosen s values (made l) (names, e, k, t, d) =
    (names, e, t, subst (λ y. is_distinct y ≡ true) k d, ap (λ y. record s { subprotocols = y }) k)
store_protocols-IsChosen s values (throws x) h = (refl, h)

if_IsChosen :
    (s : Server) (values : List Value) (running : Bool) (r : Thrown)
    → running ≡ false
    → IsChosen s values r
    → IsChosen s values (if running then (some error, s) else r)
if_IsChosen s values true r h p = absurd (cc)
if_IsChosen s values false r h p = p

-- On a server that is not running, `WebSocket\Server::subprotocols` stores the strings it is given
-- if all its arguments are strings that are valid tokens and no two of them are the same; otherwise
-- it throws and leaves the server as it was.
pub set_subprotocols-IsChosen :
    (s : Server) (values : List Value)
    → s.running ≡ false
    → IsChosen s values (set_subprotocols s values)
unfolding set_subprotocols
set_subprotocols-IsChosen s values h = if_IsChosen s values s.running _ h (
    store_protocols-IsChosen s values (check_protocols 0 [] values)
      (check_protocols-Checked 0 [] values refl))
