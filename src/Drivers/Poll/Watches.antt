-- ===== src/Drivers/Poll/Watches.antt =====
-- The poll driver as a map from descriptors to the events they are watched for.
use php_websocket.Base.{
  ℕ, ◌≡◌, refl, ap, sym, ◌∙◌, Bool, true, false, List, [], ◌∷◌, ◌++◌, ◌==◌, if◌then◌else◌,
  Bool-cases, inl, inr, arith,
}
use php_websocket.Drivers.Poll.{PollFd, Poll, clear_out, remove}

-- Whether a descriptor is watched for reading and for writing.
abbrev pub Events : Type 0
Events = Bool × Bool

abbrev pub events_in : List PollFd → ℕ → Events
events_in [] fd = (false, false)
events_in (p ∷ rest) fd = if p.fd == fd then (p.pollin, p.pollout) else events_in rest fd

abbrev pub events : Poll → ℕ → Events
events poll fd = events_in poll.fds fd

-- No descriptor has two entries.
abbrev pub IsAbsent : ℕ → List PollFd → Type 0
IsAbsent fd [] = Unit
IsAbsent fd (p ∷ rest) = ((p.fd == fd) ≡ false) × IsAbsent fd rest

abbrev pub IsMap : List PollFd → Type 0
IsMap [] = Unit
IsMap (p ∷ rest) = IsAbsent p.fd rest × IsMap rest

pub events_in-absent :
    (fd : ℕ) (fds : List PollFd) → IsAbsent fd fds → events_in fds fd ≡ (false, false)
events_in-absent fd [] h = refl
events_in-absent fd (p ∷ rest) h = rw (h.0) (events_in-absent fd rest h.1)

-- `unwatch` forgets its descriptor and leaves every other as it was.
pub remove-events :
    (fd x : ℕ) (fds : List PollFd)
    → IsMap fds
    → events_in (remove fd fds) x ≡ (if x == fd then (false, false) else events_in fds x)
unfolding remove
remove-events fd x [] h = ground arith
remove-events fd x (p ∷ rest) h =
    let ih = remove-events fd x rest h.1 in
    elim (Bool-cases (p.fd == fd)) [
      | inl e ↦ elim (Bool-cases (x == fd)) [
        | inl t ↦
            let same : p.fd ≡ x = ground arith in
            rw (e, t) (ap (λ y. events_in rest y) (sym same) ∙ events_in-absent p.fd rest h.0)
        | inr t ↦ let other : (p.fd == x) ≡ false = ground arith in rw (e, t, other) refl
      ]
      | inr e ↦ elim (Bool-cases (p.fd == x)) [
        | inl t ↦ let other : (x == fd) ≡ false = ground arith in rw (e, t, other) refl
        | inr t ↦ rw (e, t) ih
      ]
    ]

remove-IsAbsent : (fd y : ℕ) (fds : List PollFd) → IsAbsent y fds → IsAbsent y (remove fd fds)
unfolding remove
remove-IsAbsent fd y [] h = tt
remove-IsAbsent fd y (p ∷ rest) h = elim (Bool-cases (p.fd == fd)) [
  | inl e ↦ rw e (h.1)
  | inr e ↦ rw e (h.0, remove-IsAbsent fd y rest h.1)
]

pub remove-IsMap : (fd : ℕ) (fds : List PollFd) → IsMap fds → IsMap (remove fd fds)
unfolding remove
remove-IsMap fd [] h = tt
remove-IsMap fd (p ∷ rest) h = elim (Bool-cases (p.fd == fd)) [
  | inl e ↦ rw e (h.1)
  | inr e ↦ rw e (remove-IsAbsent fd p.fd rest h.0, remove-IsMap fd rest h.1)
]

clear_out-IsAbsent : (fd y : ℕ) (fds : List PollFd) → IsAbsent y fds → IsAbsent y (clear_out fd fds)
unfolding clear_out
clear_out-IsAbsent fd y [] h = tt
clear_out-IsAbsent fd y (p ∷ rest) h = elim (Bool-cases (p.fd == fd)) [
  | inr e ↦ rw e (h.0, clear_out-IsAbsent fd y rest h.1)
  | inl e ↦ elim (Bool-cases p.pollin) [ inl i ↦ rw (e, i) h | inr i ↦ rw (e, i) (h.1) ]
]

pub clear_out-IsMap : (fd : ℕ) (fds : List PollFd) → IsMap fds → IsMap (clear_out fd fds)
unfolding clear_out
clear_out-IsMap fd [] h = tt
clear_out-IsMap fd (p ∷ rest) h = elim (Bool-cases (p.fd == fd)) [
  | inr e ↦ rw e (clear_out-IsAbsent fd p.fd rest h.0, clear_out-IsMap fd rest h.1)
  | inl e ↦ elim (Bool-cases p.pollin) [ inl i ↦ rw (e, i) h | inr i ↦ rw (e, i) (h.1) ]
]

-- `unwatch_write` clears POLLOUT of its descriptor and leaves every other as it was.
pub clear_out-events :
    (fd x : ℕ) (fds : List PollFd)
    → IsMap fds
    → events_in (clear_out fd fds) x
      ≡ (if x == fd then ((events_in fds x).0, false) else events_in fds x)
unfolding clear_out
clear_out-events fd x [] h = ground arith
clear_out-events fd x (p ∷ rest) h =
    let ih = clear_out-events fd x rest h.1 in
    elim (Bool-cases (p.fd == fd)) [
      | inl e ↦ elim (Bool-cases (x == fd)) [
        | inl t ↦
            let same : p.fd ≡ x = ground arith in
            let here : (p.fd == x) ≡ true = ground arith in
            let gone : events_in rest x ≡ (false, false) =
              ap (λ y. events_in rest y) (sym same) ∙ events_in-absent p.fd rest h.0 in
            elim (Bool-cases p.pollin) [
              | inl i ↦ rw (e, t, i, here) refl
              | inr i ↦ rw (e, t, i, here) gone
            ]
        | inr t ↦
            let other : (p.fd == x) ≡ false = ground arith in
            elim (Bool-cases p.pollin) [
              | inl i ↦ rw (e, t, i, other) refl
              | inr i ↦ rw (e, t, i, other) refl
            ]
      ]
      | inr e ↦ elim (Bool-cases (p.fd == x)) [
        | inl t ↦ let other : (x == fd) ≡ false = ground arith in rw (e, t, other) refl
        | inr t ↦ rw (e, t) ih
      ]
    ]

-- A new entry at the end.
snoc-IsAbsent :
    (y : ℕ) (fds : List PollFd) (p : PollFd)
    → IsAbsent y fds
    → (p.fd == y) ≡ false
    → IsAbsent y (fds ++ (p ∷ []))
snoc-IsAbsent y [] p h k = (k, tt)
snoc-IsAbsent y (q ∷ rest) p h k = (h.0, snoc-IsAbsent y rest p h.1 k)

pub snoc-IsMap :
    (fds : List PollFd) (p : PollFd) → IsMap fds → IsAbsent p.fd fds → IsMap (fds ++ (p ∷ []))
snoc-IsMap [] p h k = (tt, tt)
snoc-IsMap (q ∷ rest) p h k =
    (snoc-IsAbsent q.fd rest p h.0 (ground (arith, k.0)), snoc-IsMap rest p h.1 k.1)

pub snoc-events :
    (fds : List PollFd) (p : PollFd) (x : ℕ)
    → IsAbsent p.fd fds
    → events_in (fds ++ (p ∷ [])) x ≡ (if x == p.fd then (p.pollin, p.pollout) else events_in fds x)
snoc-events [] p x k = ground arith
snoc-events (q ∷ rest) p x k = elim (Bool-cases (q.fd == x)) [
  | inl t ↦ let other : (x == p.fd) ≡ false = ground (arith, k.0) in rw (t, other) refl
  | inr t ↦ rw t (snoc-events rest p x k.1)
]
