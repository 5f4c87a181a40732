-- ===== src/Http/Lines.antt =====
-- The two loops of the parser: the search for the header's end, and the header's lines.
use php_websocket.Base.{
  ℕ, zero, suc, ◌+◌, ◌≤◌, ◌<◌, ◌≡◌, refl, true, false, not, ◌||◌, Option, none, some, List, [], ◌∷◌,
  Bytes, length, get_or, drop, ltb, leb, ◌==◌, length-drop, Bool-cases, inl, inr, arith,
}
use php_websocket.Http.Text.{ends_header, header_end_from, find_header_end}
use php_websocket.Http.Upgrade.{Upgrade, UpgradeResult, or_invalid, at_line_end, parse_lines}

-- The first place, counted from `i`, at which CR LF CR LF stands.
abbrev pub IsFirstEnd : ℕ → Bytes → Option ℕ → Type 0
IsFirstEnd i buf none = (j : ℕ) → ends_header (drop j buf) ≡ false
IsFirstEnd i buf (some at) =
    (d : ℕ) × (at ≡ i + d)
    × (ends_header (drop d buf) ≡ true)
    × ((j : ℕ) → j < d → ends_header (drop j buf) ≡ false)

later-IsFirstEnd :
    (i b : ℕ) (rest : Bytes) (r : Option ℕ)
    → ends_header (b ∷ rest) ≡ false
    → IsFirstEnd (suc i) rest r
    → IsFirstEnd i (b ∷ rest) r
later-IsFirstEnd i b rest none e h = λ j. by_cases j
  where
    by_cases : (j : ℕ) → ends_header (drop j (b ∷ rest)) ≡ false
    by_cases zero = e
    by_cases (suc j) = h j
later-IsFirstEnd i b rest (some at) e (d, p, q, h) = (suc d, omega arith, q, λ j. by_cases j)
  where
    by_cases : (j : ℕ) → j < suc d → ends_header (drop j (b ∷ rest)) ≡ false
    by_cases zero l = e
    by_cases (suc j) l = h j (omega arith)

header_end_from-IsFirstEnd : (i : ℕ) (buf : Bytes) → IsFirstEnd i buf (header_end_from i buf)
unfolding header_end_from
header_end_from-IsFirstEnd i [] = λ j. by_cases j
  where
    by_cases : (j : ℕ) → ends_header (drop j []) ≡ false
    by_cases zero = refl
    by_cases (suc j) = refl
header_end_from-IsFirstEnd i (b ∷ rest) = elim (Bool-cases (ends_header (b ∷ rest))) [
  | inl t ↦ rw t (0, omega arith, t, λ j l. absurd (omega arith))
  | inr t ↦ rw t (later-IsFirstEnd i b rest _ t (header_end_from-IsFirstEnd (suc i) rest))
]

-- `websocket_http_find_header_end` finds the first CR LF CR LF in the buffer, and finds nothing
-- only if there is none.
pub find_header_end-IsFirstEnd : (buf : Bytes) → IsFirstEnd 0 buf (find_header_end buf)
unfolding find_header_end
find_header_end-IsFirstEnd buf = elim (Bool-cases (ltb (length buf) 4)) [
  | inl t ↦ rw t (λ j. ground (arith, length-drop j buf))
  | inr t ↦ rw t (header_end_from-IsFirstEnd 0 buf)
]

module _ (supported : List Bytes) (base64_decode : Bytes → Option Bytes)
    (accept_of : Bytes → Bytes) where
  or_invalid-same :
      (r : Option Upgrade) (next next' : Upgrade → UpgradeResult)
      → ((u : Upgrade) → next u ≡ next' u)
      → or_invalid supported base64_decode accept_of r next
        ≡ or_invalid supported base64_decode accept_of r next'
  or_invalid-same none next next' h = refl
  or_invalid-same (some u) next next' h = h u

  at_line_end-same :
      (buf : Bytes) (line : ℕ) (u : Upgrade) (next next' : ℕ → Upgrade → UpgradeResult)
      (r : Option ℕ)
      → ((n : ℕ) (v : Upgrade) → next (line + n + 2) v ≡ next' (line + n + 2) v)
      → at_line_end supported base64_decode accept_of buf line u next r
        ≡ at_line_end supported base64_decode accept_of buf line u next' r
  at_line_end-same buf line u next next' none h = refl
  at_line_end-same buf line u next next' (some n) h =
      elim (Bool-cases
        (leb (length buf) (line + n + 1) || not (get_or buf (line + n + 1) 0 == 10))) [
          | inl t ↦ rw t refl
          | inr t ↦ elim (Bool-cases (n == 0)) [
            | inl z ↦ rw (t, z) refl
            | inr z ↦
                rw (t, z) (or_invalid-same _ (next (line + n + 2)) (next' (line + n + 2)) (h n))
          ]
        ]

  -- With fuel for the bytes up to the header's end, more fuel changes nothing: the loop over the
  -- lines has ended by itself.
  pub parse_lines-enough :
      (fuel more : ℕ) (buf : Bytes) (header_end line : ℕ) (u : Upgrade)
      → header_end ≤ line + fuel
      → header_end ≤ line + more
      → parse_lines supported base64_decode accept_of fuel buf header_end line u
        ≡ parse_lines supported base64_decode accept_of more buf header_end line u
  unfolding parse_lines
  parse_lines-enough zero zero buf header_end line u h k = refl
  parse_lines-enough zero (suc more) buf header_end line u h k =
      let past : not (ltb line header_end) ≡ true = ground arith in rw past refl
  parse_lines-enough (suc fuel) zero buf header_end line u h k =
      let past : not (ltb line header_end) ≡ true = ground arith in rw past refl
  parse_lines-enough (suc fuel) (suc more) buf header_end line u h k =
      elim (Bool-cases (not (ltb line header_end))) [
        | inl t ↦ rw t refl
        | inr t ↦ rw t (
            at_line_end-same buf line u
              (parse_lines supported base64_decode accept_of fuel buf header_end)
              (parse_lines supported base64_decode accept_of more buf header_end) _
              (λ n v.
                parse_lines-enough fuel more buf header_end (line + n + 2) v (omega arith)
                  (omega arith)))
      ]
