-- ===== src/Http/Written.antt =====
-- The header lines of a request, as they stand in its bytes.
use php_websocket.Base.{
  ℕ, zero, suc, ◌+◌, ◌<◌, ◌≡◌, ◌≢◌, refl, ap, ap₂, sym, subst, ◌∙◌, Option, none, some, List, [],
  ◌∷◌, ◌++◌, append_assoc, Bytes, All, length, get_or, take, drop, take-all, ◌==◌, Bool-cases, inl,
  inr, arith,
}
use php_websocket.Connection.Stream.{drop-drop}
use php_websocket.Http.Text.{memchr, later_index, trim}

-- The lines, each with CR LF behind it.
abbrev pub lines_text : List Bytes → Bytes
lines_text [] = []
lines_text (line ∷ rest) = line ++ (13 ∷ 10 ∷ lines_text rest)

-- A line is a name, a colon and a value; blanks around the two do not count, and the name has no
-- colon.
abbrev pub IsSplit : Bytes → Bytes × Bytes → Type 0
IsSplit line (name, value) =
    (before : Bytes) × (after : Bytes) × (line ≡ before ++ (58 ∷ after))
    × All (λ b. b ≢ 58) before
    × (name ≡ trim before)
    × (value ≡ trim after)

abbrev pub AreSplit : List Bytes → List (Bytes × Bytes) → Type 0
AreSplit [] [] = Unit
AreSplit [] (h ∷ hs) = ⊥
AreSplit (l ∷ ls) [] = ⊥
AreSplit (l ∷ ls) (h ∷ hs) = IsSplit l h × AreSplit ls hs

-- The headers are the lines behind the first line of the buffer, in their order, and `rest` stands
-- behind them.
abbrev pub AreWritten : Bytes → Bytes → List (Bytes × Bytes) → Type 0
AreWritten buf rest headers =
    (first : Bytes) × (lines : List Bytes) × (buf ≡ first ++ (13 ∷ 10 ∷ (lines_text lines ++ rest)))
    × AreSplit lines headers

AreSplit-snoc :
    (ls : List Bytes) (hs : List (Bytes × Bytes)) (l : Bytes) (h : Bytes × Bytes)
    → AreSplit ls hs
    → IsSplit l h
    → AreSplit (ls ++ (l ∷ [])) (hs ++ (h ∷ []))
AreSplit-snoc [] [] l h a s = (s, tt)
AreSplit-snoc [] (x ∷ hs) l h a s = absurd a
AreSplit-snoc (x ∷ ls) [] l h a s = absurd a
AreSplit-snoc (x ∷ ls) (y ∷ hs) l h a s = (a.0, AreSplit-snoc ls hs l h a.1 s)

lines_text-snoc :
    (ls : List Bytes) (l rest : Bytes)
    → lines_text ls ++ (l ++ (13 ∷ 10 ∷ rest)) ≡ lines_text (ls ++ (l ∷ [])) ++ rest
lines_text-snoc [] l rest = sym (append_assoc l (13 ∷ 10 ∷ []) rest)
lines_text-snoc (x ∷ ls) l rest =
    append_assoc x (13 ∷ 10 ∷ lines_text ls) (l ++ (13 ∷ 10 ∷ rest))
    ∙ ap (λ r. x ++ (13 ∷ 10 ∷ r)) (lines_text-snoc ls l rest)
    ∙ sym (append_assoc x (13 ∷ 10 ∷ lines_text (ls ++ (l ∷ []))) rest)

-- One more line.
pub AreWritten-line :
    (buf text rest : Bytes) (headers : List (Bytes × Bytes)) (header : Bytes × Bytes)
    → AreWritten buf (text ++ (13 ∷ 10 ∷ rest)) headers
    → IsSplit text header
    → AreWritten buf rest (headers ++ (header ∷ []))
AreWritten-line buf text rest headers header (first, lines, e, a) s = (
  first,
  lines ++ (text ∷ []),
  e ∙ ap (λ r. first ++ (13 ∷ 10 ∷ r)) (lines_text-snoc lines text rest),
  AreSplit-snoc lines headers text header a s,
)

-- Where `memchr` finds its byte among the first `k`.
abbrev pub Found : ℕ → Bytes → ℕ → Type 0
Found c xs n = (xs ≡ take n xs ++ (c ∷ drop (suc n) xs)) × All (λ b. b ≢ c) (take n xs)

Found-later :
    (c b : ℕ) (xs : Bytes) (n : ℕ) (r : Option ℕ)
    → b ≢ c
    → ((m : ℕ) → r ≡ some m → Found c xs m)
    → later_index r ≡ some n
    → Found c (b ∷ xs) n
Found-later c b xs n none d h e = absurd (cc)
Found-later c b xs zero (some m) d h e = absurd (cc)
Found-later c b xs (suc n) (some m) d h e =
    let same : m ≡ n = cc in
    let found = h n (ap some same) in (ap (λ l. b ∷ l) found.0, (d, found.1))

Found-here : (c b : ℕ) (xs : Bytes) (n : ℕ) → b ≡ c → some 0 ≡ some n → Found c (b ∷ xs) n
Found-here c b xs zero d h = (ap (λ x. x ∷ xs) d, tt)
Found-here c b xs (suc n) d h = absurd (ground (arith, h))

pub memchr-Found : (c : ℕ) (xs : Bytes) (k n : ℕ) → memchr (take k xs) c ≡ some n → Found c xs n
unfolding memchr
memchr-Found c xs zero n h = absurd (cc)
memchr-Found c [] (suc k) n h = absurd (cc)
memchr-Found c (b ∷ xs) (suc k) n h = elim (Bool-cases (b == c)) [
  | inl t ↦ Found-here c b xs n (ground (arith, t)) (rw t at h)
  | inr t ↦
      let differs : b ≢ c = ground (arith, t) in
      Found-later c b xs n (memchr (take k xs) c) differs (λ m e. memchr-Found c xs k m e)
        (rw t at h)
]

-- The colon of a line.
pub colon-IsSplit :
    (line : Bytes) (n : ℕ)
    → memchr line 58 ≡ some n
    → IsSplit line (trim (take n line), trim (drop (suc n) line))
colon-IsSplit line n h =
    let whole = take-all (length line) line (omega arith) in
    let (e, a) = memchr-Found 58 line (length line) n (ap (λ l. memchr l 58) whole ∙ h) in
    (take n line, drop (suc n) line, e, a, refl, refl)

drop-get : (i : ℕ) (xs : Bytes) → i < length xs → drop i xs ≡ get_or xs i 0 ∷ drop (suc i) xs
drop-get zero [] l = absurd (omega arith)
drop-get zero (x ∷ xs) l = refl
drop-get (suc i) [] l = absurd (omega arith)
drop-get (suc i) (x ∷ xs) l = drop-get i xs (omega arith)

-- A line that ends with CR LF, in the buffer.
pub line_end :
    (buf : Bytes) (line k n : ℕ)
    → memchr (take k (drop line buf)) 13 ≡ some n
    → line + n + 1 < length buf
    → get_or buf (line + n + 1) 0 ≡ 10
    → drop line buf ≡ take n (drop line buf) ++ (13 ∷ 10 ∷ drop (line + n + 2) buf)
line_end buf line k n h l e =
    let here = drop line buf in
    let (at, none_before) = memchr-Found 13 here k n h in
    let one : line + n + 1 ≡ line + suc n = omega arith in
    let two : suc (line + n + 1) ≡ line + n + 2 = omega arith in
    let behind : drop (suc n) here ≡ 10 ∷ drop (line + n + 2) buf =
      sym (drop-drop line (suc n) buf)
      ∙ ap (λ i. drop i buf) (sym one)
      ∙ drop-get (line + n + 1) buf l
      ∙ ap₂ (λ b i. b ∷ drop i buf) e two in
    at ∙ ap (λ r. take n here ++ (13 ∷ r)) behind

pub first_line_end :
    (buf : Bytes) (k n : ℕ)
    → memchr (take k buf) 13 ≡ some n
    → n + 1 < length buf
    → get_or buf (n + 1) 0 ≡ 10
    → buf ≡ take n buf ++ (13 ∷ 10 ∷ drop (n + 2) buf)
first_line_end buf k n h =
    let whole : 0 + n ≡ n = omega arith in
    subst
      (λ m.
        m + 1 < length buf
        → get_or buf (m + 1) 0 ≡ 10
        → buf ≡ take n buf ++ (13 ∷ 10 ∷ drop (m + 2) buf))
      whole (line_end buf 0 k n h)
