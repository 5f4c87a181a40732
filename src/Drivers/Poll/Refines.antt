-- ===== src/Drivers/Poll/Refines.antt =====
-- The four operations of the poll driver as updates of a map.
use php_websocket.Base.{
  ℕ, ◌≡◌, refl, ap, sym, subst, ◌∙◌, Bool, true, false, Option, none, some, List, [], ◌∷◌, ◌++◌,
  ◌==◌, if◌then◌else◌, Bool-cases, inl, inr, arith,
}
use php_websocket.Drivers.Poll.{
  PollFd, Poll, keep, change, or_add, set_in, set_out, watch_read, watch_write, unwatch_write,
  unwatch,
}
use php_websocket.Drivers.Poll.Watches.{
  Events, events_in, events, IsAbsent, IsMap, events_in-absent, remove-events, remove-IsMap,
  clear_out-IsMap, clear_out-events, snoc-IsMap, snoc-events,
}

-- A table without double entries in which every descriptor has the events given.
abbrev pub Sets : Poll → (ℕ → Events) → Type 0
Sets poll spec = IsMap poll.fds × ((x : ℕ) → events poll x ≡ spec x)

-- Setting a bit of a descriptor's entry, if there is one.
module _ (f : PollFd → PollFd) (g : Events → Events) (kept : (p : PollFd) → (f p).fd ≡ p.fd)
    (acts : (p : PollFd) → ((f p).pollin, (f p).pollout) ≡ g (p.pollin, p.pollout)) (fd : ℕ) where
  abbrev Changes : List PollFd → Option (List PollFd) → Type 0
  Changes fds none = IsAbsent fd fds
  Changes fds (some fds') =
      IsMap fds'
      × ((y : ℕ) → IsAbsent y fds → IsAbsent y fds')
      × ((x : ℕ) → events_in fds' x ≡ (if x == fd then g (events_in fds x) else events_in fds x))

  keep-Changes :
      (p : PollFd) (rest : List PollFd) (r : Option (List PollFd))
      → IsMap (p ∷ rest)
      → (p.fd == fd) ≡ false
      → Changes rest r
      → Changes (p ∷ rest) (keep p r)
  keep-Changes p rest none h e c = (e, c)
  keep-Changes p rest (some fds) h e c = ((c.1 p.fd h.0, c.0), λ y k. (k.0, c.1 y k.1), λ x. at x)
    where
      at :
          (x : ℕ)
          → events_in (p ∷ fds) x
            ≡ (if x == fd then g (events_in (p ∷ rest) x) else events_in (p ∷ rest) x)
      at x = elim (Bool-cases (p.fd == x)) [
        | inl t ↦ let other : (x == fd) ≡ false = ground arith in rw (t, other) refl
        | inr t ↦ rw t (c.2 x)
      ]

  change_at :
      (p : PollFd) (rest : List PollFd)
      → (p.fd == fd) ≡ true
      → (x : ℕ)
      → events_in (f p ∷ rest) x
        ≡ (if x == fd then g (events_in (p ∷ rest) x) else events_in (p ∷ rest) x)
  change_at p rest e x = elim (Bool-cases (x == fd)) [
    | inl t ↦
        let here : (p.fd == x) ≡ true = ground arith in
        let there : ((f p).fd == x) ≡ true = ap (λ n. n == x) (kept p) ∙ here in
        rw (there, t, here) (acts p)
    | inr t ↦
        let here : (p.fd == x) ≡ false = ground arith in
        let there : ((f p).fd == x) ≡ false = ap (λ n. n == x) (kept p) ∙ here in
        rw (there, t, here) refl
  ]

  change-Changes : (fds : List PollFd) → IsMap fds → Changes fds (change f fd fds)
  unfolding change
  change-Changes [] h = tt
  change-Changes (p ∷ rest) h = elim (Bool-cases (p.fd == fd)) [
    | inr e ↦ rw e (keep-Changes p rest _ h e (change-Changes rest h.1))
    | inl e ↦ rw e (
      (subst (λ n. IsAbsent n rest) (sym (kept p)) h.0, h.1),
      λ y k. (ap (λ n. n == y) (kept p) ∙ k.0, k.1),
      change_at p rest e,
    )
  ]

  or_add-Sets :
      (poll : Poll) (i o : Bool) (r : Option (List PollFd))
      → (i, o) ≡ g (false, false)
      → IsMap poll.fds
      → Changes poll.fds r
      → Sets
          (or_add poll (record { fd = fd; pollin = i; pollout = o }) r)
          (λ x. if x == fd then g (events poll x) else events poll x)
  or_add-Sets poll i o none e h c = (snoc-IsMap poll.fds _ h c, λ x. at x)
    where
      at :
          (x : ℕ)
          → events_in (poll.fds ++ (record { fd = fd; pollin = i; pollout = o } ∷ [])) x
            ≡ (if x == fd then g (events poll x) else events poll x)
      at x = elim (Bool-cases (x == fd)) [
        | inl t ↦
            let same : fd ≡ x = ground arith in
            let gone : events_in poll.fds x ≡ (false, false) =
              ap (λ y. events_in poll.fds y) (sym same) ∙ events_in-absent fd poll.fds c in
            snoc-events poll.fds _ x c ∙ rw (t, gone) e
        | inr t ↦ snoc-events poll.fds _ x c ∙ rw t refl
      ]
  or_add-Sets poll i o (some fds) e h c = (c.0, c.2)

-- What the interface of the drivers promises of the four operations on a watch set.
abbrev pub Refines : Poll → ℕ → Type 0
Refines poll fd =
    Sets (watch_read poll fd) (λ x. if x == fd then (true, (events poll x).1) else events poll x)
    × Sets (watch_write poll fd) (λ x. if x == fd then ((events poll x).0, true) else events poll x)
    × Sets (unwatch_write poll fd)
        (λ x. if x == fd then ((events poll x).0, false) else events poll x)
    × Sets (unwatch poll fd) (λ x. if x == fd then (false, false) else events poll x)

-- On a table in which no descriptor has two entries, each of the driver's four operations sets
-- the events of its own descriptor as its name says, leaves those of every other descriptor, and
-- leaves such a table.
pub Poll-Refines : (poll : Poll) (fd : ℕ) → IsMap poll.fds → Refines poll fd
unfolding watch_read watch_write unwatch_write unwatch
Poll-Refines poll fd h = (
  or_add-Sets set_in (λ v. (true, v.1)) (λ p. refl) (λ p. refl) fd poll true false _ refl h
      (change-Changes set_in (λ v. (true, v.1)) (λ p. refl) (λ p. refl) fd poll.fds h),
  or_add-Sets set_out (λ v. (v.0, true)) (λ p. refl) (λ p. refl) fd poll false true _ refl h
      (change-Changes set_out (λ v. (v.0, true)) (λ p. refl) (λ p. refl) fd poll.fds h),
  (clear_out-IsMap fd poll.fds h, λ x. clear_out-events fd x poll.fds h),
  (remove-IsMap fd poll.fds h, λ x. remove-events fd x poll.fds h),
)
