-- ===== src/Http/Asked.antt =====
-- What the headers of a request say, read off the whole list of them.
use php_websocket.Base.{
  ◌≡◌, refl, ap, sym, ◌∙◌, Bool, true, false, List, [], ◌∷◌, ◌++◌, append-nil, Bytes, length, ◌==◌,
  if◌then◌else◌, Bool-cases, inl, inr, arith,
}
use php_websocket.Http.Text.{equals_ci}

-- The test of the last header of a name, whatever the case of its letters; `b` if there is none.
abbrev pub last_says : Bytes → (Bytes → Bool) → Bool → List (Bytes × Bytes) → Bool
last_says name test b [] = b
last_says name test b ((n, v) ∷ rest) =
    last_says name test (if equals_ci n name then test v else b) rest

abbrev pub says : Bytes → (Bytes → Bool) → List (Bytes × Bytes) → Bool
says name test headers = last_says name test false headers

-- The values of all headers of a name.
abbrev pub values : Bytes → List (Bytes × Bytes) → List Bytes
values name [] = []
values name ((n, v) ∷ rest) = if equals_ci n name then v ∷ values name rest else values name rest

last_says-snoc :
    (name : Bytes) (test : Bytes → Bool) (b : Bool) (headers : List (Bytes × Bytes)) (n v : Bytes)
    → last_says name test b (headers ++ ((n, v) ∷ []))
      ≡ (if equals_ci n name then test v else last_says name test b headers)
last_says-snoc name test b [] n v = refl
last_says-snoc name test b ((m, w) ∷ rest) n v =
    last_says-snoc name test (if equals_ci m name then test w else b) rest n v

values-snoc :
    (name : Bytes) (headers : List (Bytes × Bytes)) (n v : Bytes)
    → values name (headers ++ ((n, v) ∷ []))
      ≡ values name headers ++ (if equals_ci n name then v ∷ [] else [])
values-snoc name [] n v = elim (Bool-cases (equals_ci n name)) [
  | inl t ↦ rw t refl
  | inr t ↦ rw t refl
]
values-snoc name ((m, w) ∷ rest) n v = elim (Bool-cases (equals_ci m name)) [
  | inl t ↦ rw t (ap (λ l. w ∷ l) (values-snoc name rest n v))
  | inr t ↦ rw t (values-snoc name rest n v)
]

equals_ci-length : (x y : Bytes) → equals_ci x y ≡ true → length x ≡ length y
unfolding equals_ci
equals_ci-length [] [] h = refl
equals_ci-length [] (b ∷ ys) h = absurd (cc)
equals_ci-length (a ∷ xs) [] h = absurd (cc)
equals_ci-length (a ∷ xs) (b ∷ ys) h =
    let later : equals_ci xs ys ≡ true = ground (arith, h) in
    omega (arith, equals_ci-length xs ys later)

-- A header has no two names of different lengths.
pub other_name :
    (n a b : Bytes) → equals_ci n a ≡ true → (length a == length b) ≡ false → equals_ci n b ≡ false
other_name n a b h d = elim (Bool-cases (equals_ci n b)) [
  | inr t ↦ t
  | inl t ↦
      let here = equals_ci-length n a h in
      let there = equals_ci-length n b t in absurd (ground (arith, here, there, d))
]

module _ (name : Bytes) (headers : List (Bytes × Bytes)) (n v : Bytes) where
  pub says_hit :
      (test : Bytes → Bool)
      → equals_ci n name ≡ true
      → test v ≡ says name test (headers ++ ((n, v) ∷ []))
  says_hit test h = sym (last_says-snoc name test false headers n v ∙ rw h refl)

  pub says_skip :
      (test : Bytes → Bool) {b : Bool}
      → equals_ci n name ≡ false
      → b ≡ says name test headers
      → b ≡ says name test (headers ++ ((n, v) ∷ []))
  says_skip test h e = e ∙ sym (last_says-snoc name test false headers n v ∙ rw h refl)

  pub values_hit :
      equals_ci n name ≡ true
      → values name headers ++ (v ∷ []) ≡ values name (headers ++ ((n, v) ∷ []))
  values_hit h = sym (values-snoc name headers n v ∙ rw h refl)

  pub values_skip :
      equals_ci n name ≡ false → values name headers ≡ values name (headers ++ ((n, v) ∷ []))
  values_skip h = sym (values-snoc name headers n v ∙ rw h refl ∙ append-nil (values name headers))
