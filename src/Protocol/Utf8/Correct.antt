-- ===== src/Protocol/Utf8/Correct.antt =====
-- The validator accepts exactly the UTF-8 encodings of sequences of Unicode scalar values.
use php_websocket.Base.{
  ℕ, zero, suc, ◌≤◌, ◌<◌, ◌≡◌, refl, sym, ap, ◌∙◌, ◌↔◌, inl, inr, true, false, none, some, List, [],
  ◌∷◌, ◌++◌, Bytes, IsBytes, All, length, length-append, drop, IsBytes-drop, arith, ltb, Bool-cases,
  Option-cases,
}
use php_websocket.Protocol.Utf8.{utf8_step, scan_utf8, is_valid_utf8}
use php_websocket.Protocol.Utf8.Scalar.{IsScalar, encode_scalar, encode_text}
use php_websocket.Protocol.Utf8.Decode.{
  scan-encode1, scan-encode2, scan-encode3, scan-encode4, decoded, utf8_step-Reads,
}

pub encode_scalar_nonempty : (s : ℕ) → 0 < length (encode_scalar s)
unfolding encode_scalar
encode_scalar_nonempty s = ground arith

scan-encode :
    (fuel s : ℕ) (rest : Bytes)
    → IsScalar s
    → scan_utf8 (suc fuel) (encode_scalar s ++ rest) ≡ scan_utf8 fuel rest
scan-encode fuel s rest v = elim (Bool-cases (ltb s 0x80)) [
  | inl a ↦ scan-encode1 fuel s rest (ground arith)
  | inr a ↦ elim (Bool-cases (ltb s 0x800)) [
    | inl b ↦ scan-encode2 fuel s rest (ground arith) (ground arith)
    | inr b ↦ elim (Bool-cases (ltb s 0x10000)) [
      | inl c ↦ scan-encode3 fuel s rest (ground arith) (ground arith) v
      | inr c ↦ scan-encode4 fuel s rest (ground arith) (ground arith)
    ]
  ]
]

scan-encode_text :
    (cs : List ℕ) (fuel : ℕ)
    → All IsScalar cs
    → length (encode_text cs) ≤ fuel
    → scan_utf8 fuel (encode_text cs) ≡ true
unfolding encode_text
scan-encode_text [] zero v h = unfold scan_utf8 in refl
scan-encode_text [] (suc fuel) v h = unfold scan_utf8 in refl
scan-encode_text (c ∷ cs) zero v h =
    absurd
      (omega (arith, length-append (encode_scalar c) (encode_text cs), encode_scalar_nonempty c))
scan-encode_text (c ∷ cs) (suc fuel) v h =
    scan-encode fuel c (encode_text cs) v.0
    ∙ scan-encode_text cs fuel v.1
        (omega (arith, length-append (encode_scalar c) (encode_text cs), encode_scalar_nonempty c))

-- A byte string is the encoding of some sequence of scalar values.
abbrev pub IsEncoded : Bytes → Type 0
IsEncoded bs = (cs : List ℕ) × All IsScalar cs × (encode_text cs ≡ bs)

module _ (fuel c : ℕ) (rest : Bytes) where
  scan_refuses : utf8_step c rest ≡ none → scan_utf8 (suc fuel) (c ∷ rest) ≡ false
  unfolding scan_utf8
  scan_refuses e = rw (e, scan_utf8)

  scan_goes_on :
      (n : ℕ)
      → utf8_step c rest ≡ some n
      → scan_utf8 (suc fuel) (c ∷ rest) ≡ scan_utf8 fuel (drop n (c ∷ rest))
  unfolding scan_utf8
  scan_goes_on n e = rw (e, scan_utf8)

IsEncoded-cons :
    (s : ℕ) {back bs : Bytes}
    → IsScalar s
    → encode_scalar s ++ back ≡ bs
    → IsEncoded back
    → IsEncoded bs
unfolding encode_text
IsEncoded-cons s v e (cs, all, f) = (s ∷ cs, (v, all), ap (◌++◌ (encode_scalar s)) f ∙ e)

scan-IsEncoded : (fuel : ℕ) (bs : Bytes) → IsBytes bs → scan_utf8 fuel bs ≡ true → IsEncoded bs
unfolding encode_text
scan-IsEncoded zero [] p h = ([], tt, refl)
scan-IsEncoded zero (c ∷ rest) p h = unfold scan_utf8 in cc h
scan-IsEncoded (suc fuel) [] p h = ([], tt, refl)
scan-IsEncoded (suc fuel) (c ∷ rest) p h = elim (Option-cases (utf8_step c rest)) [
  | inl e ↦ cc (h, scan_refuses fuel c rest e)
  | inr (n, e) ↦
      let ((v, split), more) = utf8_step-Reads c rest n p.1 e in
      let later =
        scan-IsEncoded fuel (drop n (c ∷ rest)) (IsBytes-drop n (c ∷ rest) p)
          (sym (scan_goes_on fuel c rest n e) ∙ h) in
      IsEncoded-cons (decoded c rest) v split later
]

-- The validator accepts a byte string exactly when it is the UTF-8 encoding of a sequence of
-- Unicode scalar values: no overlong form, no surrogate, nothing above 0x10ffff, nothing cut off.
pub is_valid_utf8_iff : (bs : Bytes) → IsBytes bs → (is_valid_utf8 bs ≡ true) ↔ IsEncoded bs
unfolding is_valid_utf8
is_valid_utf8_iff bs p = (
  scan-IsEncoded (length bs) bs p,
  λ (cs, all, e). rw (← e) (scan-encode_text cs (length (encode_text cs)) all (omega arith)),
)
