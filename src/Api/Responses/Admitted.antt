-- ===== src/Api/Responses/Admitted.antt =====
-- What the constructor of `WebSocket\HandshakeResponse` admits, and what the server writes of it.
use php_websocket.Base.{
  ℕ, ◌≤◌, ◌<◌, ◌≢◌, ◌≡◌, refl, ap, sym, subst, ◌∙◌, Bool, true, false, not, ◌||◌, Option, none,
  some, List, [], ◌∷◌, ◌++◌, append_assoc, append-nil, Bytes, All, length, ◌==◌, is_some,
  if◌then◌else◌, Bool-cases, inl, inr, arith,
}
use php_websocket.Base.Int.{ℤ, pos, negsuc, lt_nat, gt_nat}
use php_websocket.Http.Text.{memchr, later_index}
use php_websocket.Http.Tokens.{
  is_token, is_token-valid, validate_subprotocol_token, valid_bytes, valid_bytes-split,
}
use php_websocket.Server.Answers.{Response, response_bytes}
use php_websocket.Server.Answers.Lines.{
  IsLine, IsHeader, read_head, response_lines, read_head-response_bytes,
}
use php_websocket.Api.Values.{Value, string, other, Made, made, throws}
use php_websocket.Api.Responses.{
  header_value_is_valid, GivenHeaders, check_headers, with_headers, construct_response,
}

valid_bytes-IsLine : (name : Bytes) → valid_bytes name ≡ true → IsLine name
valid_bytes-IsLine [] h = tt
valid_bytes-IsLine (b ∷ rest) h =
    let (low, later) = valid_bytes-split b rest h in
    ((ground (arith, low), ground (arith, low)), valid_bytes-IsLine rest later)

-- A name that is a token is not empty and has neither CR nor LF.
token-IsLine :
    (name : Bytes) → validate_subprotocol_token name ≡ true → (0 < length name) × IsLine name
unfolding validate_subprotocol_token
token-IsLine [] h = absurd (cc)
token-IsLine (b ∷ rest) h =
    let some_bytes : (length (b ∷ rest) == 0) ≡ false = ground arith in
    (omega arith, valid_bytes-IsLine (b ∷ rest) (rw some_bytes at h))

is_some-later : (o : Option ℕ) → is_some (later_index o) ≡ is_some o
is_some-later none = refl
is_some-later (some n) = refl

memchr-absent : (value : Bytes) (c : ℕ) → is_some (memchr value c) ≡ false → All (λ b. b ≢ c) value
unfolding memchr
memchr-absent [] c h = tt
memchr-absent (b ∷ rest) c h = elim (Bool-cases (b == c)) [
  | inl t ↦ absurd (cut (b == c) t h)
  | inr t ↦ (ground (arith, t), memchr-absent rest c (rest_absent (b == c) t h))
]
  where
    cut :
        (t : Bool)
        → t ≡ true
        → is_some (if t then some 0 else later_index (memchr rest c)) ≡ false
        → ⊥
    cut true e k = cc
    cut false e k = cc

    rest_absent :
        (t : Bool)
        → t ≡ false
        → is_some (if t then some 0 else later_index (memchr rest c)) ≡ false
        → is_some (memchr rest c) ≡ false
    rest_absent true e k = cc
    rest_absent false e k = sym (is_some-later (memchr rest c)) ∙ k

both-IsLine : (value : Bytes) → All (λ b. b ≢ 13) value → All (λ b. b ≢ 10) value → IsLine value
both-IsLine [] p q = tt
both-IsLine (b ∷ rest) p q = ((p.0, q.0), both-IsLine rest p.1 q.1)

header_value_is_valid-IsLine : (value : Bytes) → header_value_is_valid value ≡ true → IsLine value
unfolding header_value_is_valid
header_value_is_valid-IsLine value h =
    both-IsLine value (memchr-absent value 13 (ground (arith, h)))
      (memchr-absent value 10 (ground (arith, h)))

-- The headers as they were given.
abbrev pub given : List (Bytes × Bytes) → GivenHeaders
given [] = []
given ((name, value) ∷ rest) = (some name, string value) ∷ given rest

-- A value without CR and LF passes.
present : (value : Bytes) (c : ℕ) → All (λ b. b ≢ c) value → is_some (memchr value c) ≡ false
unfolding memchr
present [] c h = refl
present (b ∷ rest) c h = elim (Bool-cases (b == c)) [
  | inl t ↦ absurd (h.0 (ground (arith, t)))
  | inr t ↦ rw t (is_some-later (memchr rest c) ∙ present rest c h.1)
]

split_IsLine : (value : Bytes) → IsLine value → All (λ b. b ≢ 13) value × All (λ b. b ≢ 10) value
split_IsLine [] h = (tt, tt)
split_IsLine (b ∷ rest) h = let more = split_IsLine rest h.1 in ((h.0.0, more.0), (h.0.1, more.1))

IsLine-valid : (value : Bytes) → IsLine value → header_value_is_valid value ≡ true
unfolding header_value_is_valid
IsLine-valid value h =
    let both = split_IsLine value h in
    let no_cr = present value 13 both.0 in
    let no_lf = present value 10 both.1 in ground (arith, no_cr, no_lf)

-- A header that is to be admitted: its name is a token, and its value has neither CR nor LF.
abbrev pub IsAdmitted : Bytes × Bytes → Type 0
IsAdmitted (name, value) = (is_token name ≡ true) × IsLine value

abbrev HeadersTaken : List (Bytes × Bytes) → GivenHeaders → Made (List (Bytes × Bytes)) → Type 0
HeadersTaken normalized headers (throws x) =
    (taken : List (Bytes × Bytes)) → headers ≡ given taken → All IsAdmitted taken → ⊥
HeadersTaken normalized headers (made l) =
    (taken : List (Bytes × Bytes)) × (headers ≡ given taken)
    × (l ≡ normalized ++ taken)
    × All IsHeader taken

later_taken :
    (normalized : List (Bytes × Bytes)) (name value : Bytes) (rest : GivenHeaders)
    (r : Made (List (Bytes × Bytes)))
    → IsHeader (name, value)
    → HeadersTaken (normalized ++ ((name, value) ∷ [])) rest r
    → HeadersTaken normalized ((some name, string value) ∷ rest) r
later_taken normalized name value rest (throws x) h p = λ taken. by_cases taken
  where
    by_cases :
        (taken : List (Bytes × Bytes))
        → (some name, string value) ∷ rest ≡ given taken
        → All IsAdmitted taken
        → ⊥
    by_cases [] e a = absurd (cc)
    by_cases ((n, v) ∷ taken) e a = let tail : rest ≡ given taken = cc in p taken tail a.1
later_taken normalized name value rest (made l) h (taken, e, k, t) = (
  (name, value) ∷ taken,
  ap (λ y. (some name, string value) ∷ y) e,
  k ∙ append_assoc normalized ((name, value) ∷ []) taken,
  (h, t),
)

not_given :
    (value : Value) (rest : GivenHeaders) (taken : List (Bytes × Bytes))
    → (none, value) ∷ rest ≡ given taken
    → ⊥
not_given value rest [] e = absurd (cc)
not_given value rest ((n, v) ∷ taken) e = absurd (cc)

not_string :
    (name : Bytes) (rest : GivenHeaders) (taken : List (Bytes × Bytes))
    → (some name, other) ∷ rest ≡ given taken
    → ⊥
not_string name rest [] e = absurd (cc)
not_string name rest ((n, v) ∷ taken) e = absurd (cc)

bad_name :
    (name value : Bytes) (rest : GivenHeaders) (taken : List (Bytes × Bytes))
    → not (validate_subprotocol_token name) ≡ true
    → (some name, string value) ∷ rest ≡ given taken
    → All IsAdmitted taken
    → ⊥
bad_name name value rest [] b e a = absurd (cc)
bad_name name value rest ((n, v) ∷ taken) b e a =
    let same : name ≡ n = cc in
    let valid : validate_subprotocol_token name ≡ true =
      ap validate_subprotocol_token same ∙ is_token-valid n a.0.0 in
    ground (arith, b, valid)

bad_value :
    (name value : Bytes) (rest : GivenHeaders) (taken : List (Bytes × Bytes))
    → not (header_value_is_valid value) ≡ true
    → (some name, string value) ∷ rest ≡ given taken
    → All IsAdmitted taken
    → ⊥
bad_value name value rest [] b e a = absurd (cc)
bad_value name value rest ((n, v) ∷ taken) b e a =
    let same : value ≡ v = cc in
    let valid : header_value_is_valid value ≡ true =
      ap header_value_is_valid same ∙ IsLine-valid v a.0.1 in
    ground (arith, b, valid)

check_headers-Taken :
    (normalized : List (Bytes × Bytes)) (headers : GivenHeaders)
    → HeadersTaken normalized headers (check_headers normalized headers)
unfolding check_headers
check_headers-Taken normalized [] = ([], refl, sym (append-nil normalized), tt)
check_headers-Taken normalized ((none, value) ∷ rest) = λ taken e a. not_given value rest taken e
check_headers-Taken normalized ((some name, other) ∷ rest) =
    elim (Bool-cases (not (validate_subprotocol_token name))) [
      | inl t ↦ rw t (λ taken e a. not_string name rest taken e)
      | inr t ↦ rw t (λ taken e a. not_string name rest taken e)
    ]
check_headers-Taken normalized ((some name, string value) ∷ rest) =
    elim (Bool-cases (not (validate_subprotocol_token name))) [
      | inl t ↦ rw t (λ taken e a. bad_name name value rest taken t e a)
      | inr t ↦ elim (Bool-cases (not (header_value_is_valid value))) [
        | inl u ↦ rw (t, u) (λ taken e a. bad_value name value rest taken u e a)
        | inr u ↦
            let (full, line) = token-IsLine name (ground (arith, t)) in
            let plain = header_value_is_valid-IsLine value (ground (arith, u)) in
            rw (t, u)
              (later_taken normalized name value rest
                (check_headers (normalized ++ ((name, value) ∷ [])) rest) (full, line, plain)
                (check_headers-Taken (normalized ++ ((name, value) ∷ [])) rest))
      ]
    ]

abbrev pub IsStatus : ℕ → Type 0
IsStatus n = (100 ≤ n) × (n ≤ 599) × (n ≢ 101)

-- A response that the constructor makes: the arguments are kept, the status is as HTTP wants it, and
-- what the server writes reads back as its lines and its body.
abbrev pub IsResponse : ℤ → GivenHeaders → Bytes → Made Response → Type 0
IsResponse status headers body (throws x) =
    (n : ℕ) (taken : List (Bytes × Bytes))
    → status ≡ pos n
    → IsStatus n
    → headers ≡ given taken
    → All IsAdmitted taken
    → ⊥
IsResponse status headers body (made r) =
    (status ≡ pos r.status)
    × IsStatus r.status
    × (headers ≡ given r.headers)
    × All IsHeader r.headers
    × (r.body ≡ body)
    × (read_head [] (response_bytes r) ≡ some (response_lines r, r.body))

with_headers-IsResponse :
    (n : ℕ) (headers : GivenHeaders) (body : Bytes) (r : Made (List (Bytes × Bytes)))
    → IsStatus n
    → HeadersTaken [] headers r
    → IsResponse (pos n) headers body (with_headers n body r)
with_headers-IsResponse n headers body (throws x) p h = λ m taken e q. h taken
with_headers-IsResponse n headers body (made l) p (taken, e, k, h) =
    let r : Response = record { status = n; headers = l; body = body } in
    (
      refl,
      p,
      e ∙ ap given (sym k),
      subst (All IsHeader) (sym k) h,
      refl,
      read_head-response_bytes r (subst (All IsHeader) (sym k) h),
    )

bad_status :
    (n m : ℕ)
    → (lt_nat (pos n) 100 || gt_nat (pos n) 599 || (n == 101)) ≡ true
    → pos n ≡ pos m
    → IsStatus m
    → ⊥
bad_status n m t e p = let same : n ≡ m = cc in ground (arith, t, same, p.0, p.1, p.2)

-- The constructor of `WebSocket\HandshakeResponse` throws only if the status is not from 100 to 599
-- or is 101, or if some header has no token as its name or no string without CR and LF as its
-- value. Otherwise the response has the status, the headers and the body given, and what the
-- server writes of it reads back as the status line, exactly these headers, the default lines where
-- they are missing, and the body: no header ends the head or brings a line of its own.
pub construct_response-IsResponse :
    (status : ℤ) (headers : GivenHeaders) (body : Bytes)
    → IsResponse status headers body (construct_response status headers body)
unfolding construct_response
construct_response-IsResponse (negsuc n) headers body = λ m taken e. absurd (cc)
construct_response-IsResponse (pos n) headers body =
    elim (Bool-cases (lt_nat (pos n) 100 || gt_nat (pos n) 599 || (n == 101))) [
      | inl t ↦ rw t (λ m taken e p g a. bad_status n m t e p)
      | inr t ↦ rw t (
          with_headers-IsResponse n headers body (check_headers [] headers)
            (ground (arith, t), ground (arith, t), ground (arith, t))
            (check_headers-Taken [] headers))
    ]
