-- ===== src/Drivers/Select/Agrees.antt =====
-- The select driver does what the poll driver does.
use php_websocket.Base.{
  ℕ, ◌≤◌, ◌<◌, ◌≡◌, refl, ap, sym, ◌∙◌, true, false, ◌*◌, ltb, Option, none, some, List, [], ◌∷◌,
  ◌++◌, map, length, leb, ◌==◌, if◌then◌else◌, is_some, Bool-cases, inl, inr, arith,
}
use php_websocket.Drivers.Poll
use php_websocket.Drivers.Poll.{PollFd, Poll, keep, change, or_add, set_in, set_out, add}
use php_websocket.Drivers.Select.{
  SelectFd, Select, fd_setsize, find_fd, ensure_fd, mark, set_read, set_write, mark_in, watch_read,
  watch_write, clear_write, unwatch_write, remove, unwatch,
}

-- A table of the select driver as one of the poll driver.
abbrev pub poll_entry : SelectFd → PollFd
poll_entry p = record { fd = p.fd; pollin = p.read; pollout = p.write }

abbrev pub as_poll : Select → Poll
as_poll s = record { fds = map poll_entry s.fds; capacity = s.capacity }

abbrev pub IsSame : Option Select → Poll → Type 0
IsSame none poll = ⊥
IsSame (some s) poll = as_poll s ≡ poll

-- A first entry of the descriptor is found.
found_here :
    (fd : ℕ) (p : SelectFd) (rest : List SelectFd)
    → (p.fd == fd) ≡ true
    → is_some (if p.fd == fd then some p else find_fd fd rest) ≡ false
    → ⊥
found_here fd p rest e k = let k' = rw e at k in cc

-- Setting a bit of a descriptor's entry, in both tables.
module _ (f : SelectFd → SelectFd) (g : PollFd → PollFd)
    (acts : (p : SelectFd) → poll_entry (f p) ≡ g (poll_entry p)) (fd : ℕ) where
  -- A found entry is changed.
  change-mark :
      (fds : List SelectFd)
      → is_some (find_fd fd fds) ≡ true
      → change g fd (map poll_entry fds) ≡ some (map poll_entry (mark f fd fds))
  unfolding find_fd change mark
  change-mark [] h = cc
  change-mark (p ∷ rest) h = elim (Bool-cases (p.fd == fd)) [
    | inl e ↦ rw e (ap (λ q. some (q ∷ map poll_entry rest)) (sym (acts p)))
    | inr e ↦ rw e (ap (keep (poll_entry p)) (change-mark rest (rw e at h)))
  ]

  -- Without an entry there is nothing to change, and the new entry is the one marked.
  change-none :
      (fds : List SelectFd)
      → is_some (find_fd fd fds) ≡ false
      → change g fd (map poll_entry fds) ≡ none
  unfolding find_fd change
  change-none [] h = refl
  change-none (p ∷ rest) h = elim (Bool-cases (p.fd == fd)) [
    | inl e ↦ absurd (found_here fd p rest e h)
    | inr e ↦ rw e (ap (keep (poll_entry p)) (change-none rest (rw e at h)))
  ]

  mark-snoc :
      (fds : List SelectFd) (new : SelectFd)
      → is_some (find_fd fd fds) ≡ false
      → (new.fd == fd) ≡ true
      → map poll_entry (mark f fd (fds ++ (new ∷ [])))
        ≡ map poll_entry fds ++ (g (poll_entry new) ∷ [])
  unfolding find_fd mark
  mark-snoc [] new h e = rw e (ap (λ q. q ∷ []) (acts new))
  mark-snoc (p ∷ rest) new h e = elim (Bool-cases (p.fd == fd)) [
    | inl t ↦ absurd (found_here fd p rest t h)
    | inr t ↦ rw t (ap (λ l. poll_entry p ∷ l) (mark-snoc rest new (rw t at h) e))
  ]

length-map-poll_entry : (fds : List SelectFd) → length (map poll_entry fds) ≡ length fds
length-map-poll_entry [] = refl
length-map-poll_entry (p ∷ rest) = omega (arith, length-map-poll_entry rest)

clear_write-clear_out :
    (fd : ℕ) (fds : List SelectFd)
    → map poll_entry (clear_write fd fds) ≡ Poll.clear_out fd (map poll_entry fds)
unfolding clear_write Poll.clear_out
clear_write-clear_out fd [] = refl
clear_write-clear_out fd (p ∷ rest) = elim (Bool-cases (p.fd == fd)) [
  | inr e ↦ rw e (ap (λ l. poll_entry p ∷ l) (clear_write-clear_out fd rest))
  | inl e ↦ elim (Bool-cases p.read) [ inl r ↦ rw (e, r) refl | inr r ↦ rw (e, r) refl ]
]

remove-remove :
    (fd : ℕ) (fds : List SelectFd)
    → map poll_entry (remove fd fds) ≡ Poll.remove fd (map poll_entry fds)
unfolding remove Poll.remove
remove-remove fd [] = refl
remove-remove fd (p ∷ rest) = elim (Bool-cases (p.fd == fd)) [
  | inr e ↦ rw e (ap (λ l. poll_entry p ∷ l) (remove-remove fd rest))
  | inl e ↦ rw e refl
]

abbrev table : List PollFd → ℕ → ℕ → Poll
table fds n capacity = record {
  fds = fds;
  capacity = if n == capacity then (if ltb 0 capacity then capacity * 2 else 8) else capacity;
}

same_table :
    (xs ys : List PollFd) (m n capacity : ℕ)
    → xs ≡ ys
    → n ≡ m
    → table xs m capacity ≡ table ys n capacity
same_table xs ys m n capacity p q =
    ap (λ l. table l m capacity) p ∙ ap (λ k. table ys k capacity) (sym q)

mark-Same :
    (f : SelectFd → SelectFd) (g : PollFd → PollFd) (s : Select) (fd : ℕ) (new : PollFd)
    → ((p : SelectFd) → poll_entry (f p) ≡ g (poll_entry p))
    → g (record { fd = fd; pollin = false; pollout = false }) ≡ new
    → fd < fd_setsize
    → IsSame (mark_in f fd (ensure_fd s fd)) (or_add (as_poll s) new (change g fd (as_poll s).fds))
unfolding ensure_fd
mark-Same f g s fd new acts n l =
    let small : leb fd_setsize fd ≡ false = ground arith in
    elim (Bool-cases (is_some (find_fd fd s.fds))) [
      | inl e ↦ rw (small, e, change-mark f g acts fd s.fds e) refl
      | inr e ↦
          let here : (fd == fd) ≡ true = ground arith in
          rw (small, e, change-none f g acts fd s.fds e)
            (same_table _ _ (length s.fds) (length (map poll_entry s.fds)) s.capacity
              (mark-snoc f g acts fd s.fds (record { fd = fd; read = false; write = false }) e here
                ∙ ap (λ q. map poll_entry s.fds ++ (q ∷ [])) n)
              (length-map-poll_entry s.fds))
    ]

-- What the interface of the drivers asks of the select driver: the poll driver's answers.
abbrev pub Agrees : Select → ℕ → Type 0
Agrees s fd =
    (fd < fd_setsize → IsSame (watch_read s fd) (Poll.watch_read (as_poll s) fd))
    × (fd < fd_setsize → IsSame (watch_write s fd) (Poll.watch_write (as_poll s) fd))
    × (fd_setsize ≤ fd → (watch_read s fd ≡ none) × (watch_write s fd ≡ none))
    × (as_poll (unwatch_write s fd) ≡ Poll.unwatch_write (as_poll s) fd)
    × (as_poll (unwatch s fd) ≡ Poll.unwatch (as_poll s) fd)

refused_fd :
    (f : SelectFd → SelectFd) (s : Select) (fd : ℕ)
    → fd_setsize ≤ fd
    → mark_in f fd (ensure_fd s fd) ≡ none
unfolding ensure_fd
refused_fd f s fd l = let large : leb fd_setsize fd ≡ true = ground arith in rw large refl

-- The select driver keeps the same table as the poll driver, entries, events and capacity, on each
-- of the four operations; but it refuses to watch a descriptor from FD_SETSIZE on, and the
-- poll driver does not.
pub Select-Agrees : (s : Select) (fd : ℕ) → Agrees s fd
unfolding watch_read watch_write unwatch_write unwatch Poll.watch_read Poll.watch_write
    Poll.unwatch_write Poll.unwatch
Select-Agrees s fd = (
  mark-Same set_read set_in s fd _ (λ p. refl) refl,
  mark-Same set_write set_out s fd _ (λ p. refl) refl,
  λ l. (refused_fd set_read s fd l, refused_fd set_write s fd l),
  ap (λ l. record { fds = l; capacity = s.capacity }) (clear_write-clear_out fd s.fds),
  ap (λ l. record { fds = l; capacity = s.capacity }) (remove-remove fd s.fds),
)
