-- ===== src/Server/Answers/Lines.antt =====
-- Reading a handshake response back, line by line.
use php_websocket.Base.{
  ℕ, zero, suc, ◌+◌, ◌/◌, ◌%◌, ◌≢◌, ◌<◌, ◌≡◌, refl, ap, sym, ◌∙◌, Bool, true, false, ◌&&◌, Option,
  none, some, List, [], ◌∷◌, ◌++◌, append_assoc, append-nil, Bytes, All, length, ltb, ◌==◌,
  if◌then◌else◌, Bool-cases, inl, inr, arith,
}
use php_websocket.Http.Words.{connection_name, crlf}
use php_websocket.Server.Answers.Texts.{
  http_prefix, content_length_name, content_length_prefix, connection_close,
}
use php_websocket.Server.Answers.{
  digits, decimal, reason_phrase, Response, header_line, has_header, header_lines,
  default_connection, default_length, status_line, response_bytes,
}

-- The lines of a head and what follows the empty line behind them.
abbrev pub Head : Type 0
Head = Option (List Bytes × Bytes)

abbrev pub with_line : Bytes → Head → Head
with_line line none = none
with_line line (some (lines, body)) = some (line ∷ lines, body)

-- Lines end with CR LF; `line` is what has been read of the first one.
unfoldable pub read_head : Bytes → Bytes → Head
read_head line [] = none
read_head line (b ∷ []) = none
read_head line (b ∷ (c ∷ rest)) =
    let next = read_head [] rest in
    let longer = read_head (line ++ (b ∷ [])) (c ∷ rest) in
    if b == 13 && c == 10
    then (if length line == 0 then some ([], rest) else with_line line next)
    else longer

-- Neither CR nor LF.
abbrev pub IsPlain : ℕ → Type 0
IsPlain b = (b ≢ 13) × (b ≢ 10)

abbrev pub IsLine : Bytes → Type 0
IsLine line = All IsPlain line

pub IsLine-append : (xs ys : Bytes) → IsLine xs → IsLine ys → IsLine (xs ++ ys)
IsLine-append [] ys p q = q
IsLine-append (x ∷ xs) ys p q = (p.0, IsLine-append xs ys p.1 q)

read_end :
    (line rest : Bytes)
    → 0 < length line
    → read_head line (crlf ++ rest) ≡ with_line line (read_head [] rest)
unfolding read_head
read_end line rest l = let e : (length line == 0) ≡ false = ground arith in rw e refl

step_head :
    (line : Bytes) (b : ℕ) (rest : Bytes)
    → IsPlain b
    → 0 < length rest
    → read_head line (b ∷ rest) ≡ read_head (line ++ (b ∷ [])) rest
unfolding read_head
step_head line b [] p l = absurd (omega arith)
step_head line b (c ∷ rest) p l = let e : (b == 13 && c == 10) ≡ false = ground arith in rw e refl

length-snoc : (xs : Bytes) (x : ℕ) → 0 < length (xs ++ (x ∷ []))
length-snoc [] x = omega arith
length-snoc (y ∷ xs) x = omega arith

length-crlf : (xs ys : Bytes) → 0 < length (xs ++ (crlf ++ ys))
length-crlf [] ys = omega arith
length-crlf (x ∷ xs) ys = omega arith

-- A line is read up to its end.
pub read_line :
    (line more rest : Bytes)
    → IsLine more
    → 0 < length line
    → read_head line (more ++ (crlf ++ rest)) ≡ with_line (line ++ more) (read_head [] rest)
read_line line [] rest p l =
    read_end line rest l ∙ ap (λ x. with_line x (read_head [] rest)) (sym (append-nil line))
read_line line (b ∷ more) rest p l =
    step_head line b (more ++ (crlf ++ rest)) p.0 (length-crlf more rest)
    ∙ read_line (line ++ (b ∷ [])) more rest p.1 (length-snoc line b)
    ∙ ap (λ x. with_line x (read_head [] rest)) (append_assoc line (b ∷ []) more)

pub read_whole_line :
    (b : ℕ) (line rest : Bytes)
    → IsLine (b ∷ line)
    → read_head [] ((b ∷ line) ++ (crlf ++ rest)) ≡ with_line (b ∷ line) (read_head [] rest)
read_whole_line b line rest p =
    step_head [] b (line ++ (crlf ++ rest)) p.0 (length-crlf line rest)
    ∙ read_line (b ∷ []) line rest p.1 (omega arith)

-- What the constructor of `WebSocket\HandshakeResponse` admits as a header.
abbrev pub IsHeader : Bytes × Bytes → Type 0
IsHeader (name, value) = (0 < length name) × IsLine name × IsLine value

abbrev pub lines_of_headers : List (Bytes × Bytes) → List Bytes
lines_of_headers [] = []
lines_of_headers (h ∷ rest) = header_line h ∷ lines_of_headers rest

-- The lines that a response has in front of its body.
abbrev pub response_lines : Response → List Bytes
response_lines r =
    status_line r.status
    ∷ (lines_of_headers r.headers
        ++ ((if has_header connection_name r.headers then [] else connection_close ∷ [])
            ++ (if has_header content_length_name r.headers
                then []
                else (content_length_prefix ++ decimal (length r.body)) ∷ [])))

abbrev with_lines : List Bytes → Head → Head
with_lines [] h = h
with_lines (line ∷ lines) h = with_line line (with_lines lines h)

with_lines-append :
    (xs ys : List Bytes) (h : Head) → with_lines (xs ++ ys) h ≡ with_lines xs (with_lines ys h)
with_lines-append [] ys h = refl
with_lines-append (x ∷ xs) ys h = ap (with_line x) (with_lines-append xs ys h)

with_lines-some :
    (lines : List Bytes) (body : Bytes) → with_lines lines (some ([], body)) ≡ some (lines, body)
with_lines-some [] body = refl
with_lines-some (line ∷ lines) body = ap (with_line line) (with_lines-some lines body)

digits-IsLine : (fuel n : ℕ) → IsLine (digits fuel n)
unfolding digits
digits-IsLine zero n = tt
digits-IsLine (suc fuel) n = elim (Bool-cases (ltb n 10)) [
  | inl t ↦ rw t ((ground arith, ground arith), tt)
  | inr t ↦ rw t (
      IsLine-append (digits fuel (n / 10)) ((48 + n % 10) ∷ []) (digits-IsLine fuel (n / 10))
        ((ground arith, ground arith), tt))
]

if_IsLine : (test : Bool) (a b : Bytes) → IsLine a → IsLine b → IsLine (if test then a else b)
if_IsLine true a b p q = p
if_IsLine false a b p q = q

reason_phrase-IsLine : (status : ℕ) → IsLine (reason_phrase status)
unfolding reason_phrase
reason_phrase-IsLine status = if_IsLine (status == 200) _ _ (omega arith) (
    if_IsLine (status == 400) _ _ (omega arith) (
      if_IsLine (status == 401) _ _ (omega arith) (
        if_IsLine (status == 403) _ _ (omega arith) (
          if_IsLine (status == 404) _ _ (omega arith) (
            if_IsLine (status == 429) _ _ (omega arith) (
              if_IsLine (status == 500) _ _ (omega arith)
                (if_IsLine (status == 503) _ _ (omega arith) (omega arith))))))))

read_status :
    (status : ℕ) (rest : Bytes)
    → read_head [] (status_line status ++ (crlf ++ rest))
      ≡ with_line (status_line status) (read_head [] rest)
read_status status rest =
    let reason = reason_phrase status in
    let tail = decimal status ++ (32 ∷ reason) in
    let rest_of_line : IsLine (32 ∷ reason) =
      ((omega arith, omega arith), reason_phrase-IsLine status) in
    read_whole_line 72 (84 ∷ 84 ∷ 80 ∷ 47 ∷ 49 ∷ 46 ∷ 49 ∷ 32 ∷ tail) rest (
      IsLine-append http_prefix tail (omega arith) (
        IsLine-append (decimal status) (32 ∷ reason) (digits-IsLine (suc status) status)
          rest_of_line))

read_header :
    (h : Bytes × Bytes) (rest : Bytes)
    → IsHeader h
    → read_head [] (header_line h ++ (crlf ++ rest)) ≡ with_line (header_line h) (read_head [] rest)
read_header ([], value) rest (l, p, q) = absurd (omega arith)
read_header (b ∷ name, value) rest (l, p, q) = read_whole_line b (name ++ (58 ∷ 32 ∷ value)) rest (
  p.0,
  IsLine-append name (58 ∷ 32 ∷ value) p.1 (IsLine-append (58 ∷ 32 ∷ []) value (omega arith) q),
)

read_headers :
    (headers : List (Bytes × Bytes)) (rest : Bytes)
    → All IsHeader headers
    → read_head [] (header_lines headers ++ rest)
      ≡ with_lines (lines_of_headers headers) (read_head [] rest)
unfolding header_lines
read_headers [] rest h = refl
read_headers (x ∷ headers) rest h =
    ap (read_head []) (
      append_assoc (header_line x) (crlf ++ header_lines headers) rest
      ∙ ap (λ y. header_line x ++ y) (append_assoc crlf (header_lines headers) rest))
    ∙ read_header x (header_lines headers ++ rest) h.0
    ∙ ap (with_line (header_line x)) (read_headers headers rest h.1)

-- A line that is there if a test fails.
read_default :
    (test : Bool) (b : ℕ) (line rest : Bytes)
    → IsLine (b ∷ line)
    → read_head [] ((if test then [] else ((b ∷ line) ++ crlf)) ++ rest)
      ≡ with_lines (if test then [] else ((b ∷ line) ∷ [])) (read_head [] rest)
read_default true b line rest p = refl
read_default false b line rest p =
    ap (read_head []) (append_assoc (b ∷ line) crlf rest) ∙ read_whole_line b line rest p

read_blank : (body : Bytes) → read_head [] (crlf ++ body) ≡ some ([], body)
unfolding read_head
read_blank body = refl

-- If the response's headers are as its constructor admits them, what is written reads back as
-- the status line, the headers in their order, the two default lines where the response has no
-- such header of its own, an empty line, and the body.
pub read_head-response_bytes :
    (r : Response)
    → All IsHeader r.headers
    → read_head [] (response_bytes r) ≡ some (response_lines r, r.body)
unfolding response_bytes
read_head-response_bytes r h =
    let length_line = content_length_prefix ++ decimal (length r.body) in
    let tail1 = default_length r ++ (crlf ++ r.body) in
    let tail2 = default_connection r ++ tail1 in
    let has_close = has_header connection_name r.headers in
    let has_length = has_header content_length_name r.headers in
    let closes = (if has_close then [] else connection_close ∷ []) in
    let lengths = (if has_length then [] else length_line ∷ []) in
    let last : read_head [] tail1 ≡ some (lengths, r.body) =
      read_default has_length _ _ (crlf ++ r.body) (
        IsLine-append content_length_prefix (decimal (length r.body)) (omega arith)
          (digits-IsLine (suc (length r.body)) (length r.body)))
      ∙ ap (with_lines lengths) (read_blank r.body)
      ∙ with_lines-some lengths r.body in
    let middle : read_head [] tail2 ≡ some (closes ++ lengths, r.body) =
      read_default has_close _ _ tail1 (omega arith)
      ∙ ap (with_lines closes) (last ∙ sym (with_lines-some lengths r.body))
      ∙ sym (with_lines-append closes lengths (some ([], r.body)))
      ∙ with_lines-some (closes ++ lengths) r.body in
    read_status r.status (header_lines r.headers ++ tail2)
    ∙ ap (with_line (status_line r.status)) (
        read_headers r.headers tail2 h
        ∙ ap (with_lines (lines_of_headers r.headers))
            (middle ∙ sym (with_lines-some (closes ++ lengths) r.body))
        ∙ sym (with_lines-append (lines_of_headers r.headers) (closes ++ lengths) _)
        ∙ with_lines-some (lines_of_headers r.headers ++ (closes ++ lengths)) r.body)
