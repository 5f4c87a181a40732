-- ===== src/Drivers/Select/Ready.antt =====
-- What the select driver asks the kernel for, and the descriptor that it reports.
use php_websocket.Base.{
  ℕ, suc, ◌≤◌, ◌<◌, ◌≡◌, ◌⊎◌, refl, ap, ap₂, sym, ◌∙◌, Bool, true, false, ◌&&◌, ◌||◌, Option, none,
  some, List, [], ◌∷◌, map, All, length, nil_of_length, ltb, ◌==◌, if◌then◌else◌, Bool-cases, inl,
  inr, arith,
}
use php_websocket.Connection.State.{other}
use php_websocket.Drivers.Poll.{Waited, wait_failed, timed_out, ready}
use php_websocket.Drivers.Poll.Watches.{
  Events, events_in, events, IsAbsent, IsMap, events_in-absent,
}
use php_websocket.Drivers.Select.{
  SelectFd, Select, is_set, read_fds, write_fds, max_fd_from, is_ready, first_ready, select_ready,
  select_failed, select_timed_out, SelectAnswer, on_select, wait,
}
use php_websocket.Drivers.Select.Agrees.{poll_entry, as_poll}

abbrev pub watched_in : List SelectFd → ℕ → Events
watched_in fds x = events_in (map poll_entry fds) x

-- The kernel has found an event for which the descriptor is watched.
abbrev pub is_due : List ℕ → List ℕ → ℕ → Events → Bool
is_due reads writes fd v = (v.0 && is_set fd reads) || (v.1 && is_set fd writes)

abbrev pub IsFirst : List ℕ → List ℕ → List SelectFd → Option ℕ → Type 0
IsFirst reads writes fds none = (x : ℕ) → is_due reads writes x (watched_in fds x) ≡ false
IsFirst reads writes fds (some fd) = is_due reads writes fd (watched_in fds fd) ≡ true

module _ (reads writes : List ℕ) where
  none_due :
      (p : SelectFd) (rest : List SelectFd)
      → is_ready reads writes p ≡ false
      → IsFirst reads writes rest none
      → IsFirst reads writes (p ∷ rest) none
  none_due p rest r h = λ x. elim (Bool-cases (p.fd == x)) [
    | inr t ↦ rw t (h x)
    | inl t ↦
        let same : p.fd ≡ x = ground arith in
        rw t (ap (λ y. is_due reads writes y (p.read, p.write)) (sym same) ∙ r)
  ]

  later_due :
      (p : SelectFd) (rest : List SelectFd) (fd : ℕ)
      → IsAbsent p.fd (map poll_entry rest)
      → IsFirst reads writes rest (some fd)
      → IsFirst reads writes (p ∷ rest) (some fd)
  later_due p rest fd a h = elim (Bool-cases (p.fd == fd)) [
    | inr t ↦ rw t h
    | inl t ↦
        let same : p.fd ≡ fd = ground arith in
        let gone : watched_in rest fd ≡ (false, false) =
          ap (watched_in rest) (sym same) ∙ events_in-absent p.fd (map poll_entry rest) a in
        let due : is_due reads writes fd (false, false) ≡ true =
          ap (is_due reads writes fd) (sym gone) ∙ h in
        absurd (cc)
  ]

  if_IsFirst :
      (p : SelectFd) (rest : List SelectFd) (r : Option ℕ)
      → is_ready reads writes p ≡ false
      → IsAbsent p.fd (map poll_entry rest)
      → IsFirst reads writes rest r
      → IsFirst reads writes (p ∷ rest) r
  if_IsFirst p rest none r a h = none_due p rest r h
  if_IsFirst p rest (some fd) r a h = later_due p rest fd a h

  first_ready-IsFirst :
      (fds : List SelectFd)
      → IsMap (map poll_entry fds)
      → IsFirst reads writes fds (first_ready reads writes fds)
  unfolding first_ready
  first_ready-IsFirst [] m = λ x. refl
  first_ready-IsFirst (p ∷ rest) m = elim (Bool-cases (is_ready reads writes p)) [
    | inl t ↦ rw t (let here : (p.fd == p.fd) ≡ true = ground arith in rw here t)
    | inr t ↦ rw t (if_IsFirst p rest _ t m.0 (first_ready-IsFirst rest m.1))
  ]

-- The two sets hold exactly the descriptors that are watched for reading and for writing.
in_set :
    (test : Bool) (fd x : ℕ) (set : List ℕ) (b : Bool)
    → (fd == x) ≡ false
    → is_set x set ≡ b
    → is_set x (if test then fd ∷ set else set) ≡ b
in_set true fd x set b e h = rw e h
in_set false fd x set b e h = h

set_here :
    (test : Bool) (fd x : ℕ) (set : List ℕ)
    → (fd == x) ≡ true
    → is_set x set ≡ false
    → is_set x (if test then fd ∷ set else set) ≡ test
set_here true fd x set e h = rw e refl
set_here false fd x set e h = h

-- A descriptor without an entry is in neither set.
module _ (p : SelectFd) (rest : List SelectFd) (x : ℕ) (t : (p.fd == x) ≡ true)
    (a : IsAbsent p.fd (map poll_entry rest)) where
  absent_here : watched_in rest x ≡ (false, false)
  absent_here =
      let same : p.fd ≡ x = ground (arith, t) in
      ap (watched_in rest) (sym same) ∙ events_in-absent p.fd (map poll_entry rest) a

is_set-read_fds :
    (fds : List SelectFd) (x : ℕ)
    → IsMap (map poll_entry fds)
    → is_set x (read_fds fds) ≡ (watched_in fds x).0
unfolding read_fds
is_set-read_fds [] x m = refl
is_set-read_fds (p ∷ rest) x m = elim (Bool-cases (p.fd == x)) [
  | inl t ↦ rw t (
      set_here p.read p.fd x (read_fds rest) t
        (is_set-read_fds rest x m.1 ∙ ap (λ v. v.0) (absent_here p rest x t m.0)))
  | inr t ↦ rw t (in_set p.read p.fd x (read_fds rest) _ t (is_set-read_fds rest x m.1))
]

is_set-write_fds :
    (fds : List SelectFd) (x : ℕ)
    → IsMap (map poll_entry fds)
    → is_set x (write_fds fds) ≡ (watched_in fds x).1
unfolding write_fds
is_set-write_fds [] x m = refl
is_set-write_fds (p ∷ rest) x m = elim (Bool-cases (p.fd == x)) [
  | inl t ↦ rw t (
      set_here p.write p.fd x (write_fds rest) t
        (is_set-write_fds rest x m.1 ∙ ap (λ v. v.1) (absent_here p rest x t m.0)))
  | inr t ↦ rw t (in_set p.write p.fd x (write_fds rest) _ t (is_set-write_fds rest x m.1))
]

larger : (n : ℕ) (fds : List SelectFd) → n ≤ max_fd_from n fds
unfolding max_fd_from
larger n [] = omega arith
larger n (p ∷ rest) =
    let ih = larger (if ltb p.fd n then n else suc p.fd) rest in ground (arith, ih)

below-max_fd_from : (n : ℕ) (fds : List SelectFd) → All (λ p. p.fd < max_fd_from n fds) fds
unfolding max_fd_from
below-max_fd_from n [] = tt
below-max_fd_from n (p ∷ rest) =
    let k = (if ltb p.fd n then n else suc p.fd) in
    let le = larger k rest in (ground (arith, le), below-max_fd_from k rest)

-- What `wait` returns for the kernel's answer.
abbrev pub Reports : List SelectFd → SelectAnswer → Waited → Type 0
Reports fds (select_failed x) w = w ≡ wait_failed x
Reports fds select_timed_out w = w ≡ timed_out
Reports fds (select_ready n reads writes) (ready k fd) = (k ≡ n) × IsFirst reads writes fds fd
Reports fds (select_ready n reads writes) (wait_failed x) = ⊥
Reports fds (select_ready n reads writes) timed_out = ⊥

on_select-Reports :
    (fds : List SelectFd) (answer : SelectAnswer)
    → IsMap (map poll_entry fds)
    → Reports fds answer (on_select fds answer)
on_select-Reports fds (select_failed x) m = refl
on_select-Reports fds select_timed_out m = refl
on_select-Reports fds (select_ready n reads writes) m =
    (refl, first_ready-IsFirst reads writes fds m)

-- The arguments of a call of `select` that asks for exactly what is watched.
abbrev pub Asks : Select → ℕ → List ℕ → List ℕ → Type 0
Asks s n reads writes =
    ((x : ℕ) → (is_set x reads, is_set x writes) ≡ events (as_poll s) x) × All (λ p. p.fd < n) s.fds

-- What a wait does, with the system call that it makes.
abbrev pub Waits : Select → ((ℕ → List ℕ → List ℕ → SelectAnswer) → Waited) → Type 0
Waits s waiting =
    ((s.fds ≡ [])
      × ((select : ℕ → List ℕ → List ℕ → SelectAnswer) → waiting select ≡ wait_failed (other 9)))
    ⊎ ((n : ℕ) × (reads : List ℕ) × (writes : List ℕ) × Asks s n reads writes
        × ((select : ℕ → List ℕ → List ℕ → SelectAnswer)
            → Reports s.fds (select n reads writes) (waiting select)))

-- On a table in which no descriptor has two entries, the select driver's wait fails with EBADF
-- without a system call if the table is empty. Otherwise it calls `select` with the sets of exactly
-- the descriptors watched for reading and for writing and a bound above all of them, and returns
-- its failure or its time-out; when `select` answers with two sets, its number is returned with a
-- descriptor that is watched for an event found, and without one only if there is none.
pub wait-Waits : (s : Select) → IsMap (as_poll s).fds → Waits s (λ select. wait select s)
unfolding wait
wait-Waits s m = elim (Bool-cases (length s.fds == 0)) [
  | inl t ↦ inl (nil_of_length s.fds (ground (arith, t)), λ select. rw t refl)
  | inr t ↦ inr (
    max_fd_from 0 s.fds,
    read_fds s.fds,
    write_fds s.fds,
    (
      λ x. ap₂ (λ a b. (a, b)) (is_set-read_fds s.fds x m) (is_set-write_fds s.fds x m),
      below-max_fd_from 0 s.fds,
    ),
    λ select. rw t (on_select-Reports s.fds _ m),
  )
]
