-- ===== src/Drivers/Epoll/Watches.antt =====
-- What the epoll driver's operations do to the kernel's interest list.
use php_websocket.Base.{
  ℕ, ◌≡◌, ◌⊎◌, refl, ap, subst, ◌∙◌, Bool, true, false, Option, none, some, ◌==◌, if◌then◌else◌,
  Bool-cases, inl, inr, arith,
}
use php_websocket.Connection.State.{Errno}
use php_websocket.Drivers.Poll.Watches.{Events}
use php_websocket.Drivers.Epoll.{
  Ctl, ctl_add, ctl_mod, ctl_del, World, answered, watch_read, watch_write, unwatch_write, unwatch,
  events_read, events_both, is_exist, is_missing,
}
use php_websocket.Drivers.Epoll.Kernel.{Interest, Same, Becomes, Answers, Epoll}

-- An operation that succeeds sets the events of its descriptor, and one that fails changes nothing.
abbrev pub Sets : ℕ → Events → Interest → Bool → Interest → Type 0
Sets fd v old true new = Becomes fd (some v) old new
Sets fd v old false new = Same old new

module _ {K : Type 0} (os : Epoll K) (ep fd : ℕ) where
  abbrev list : K → Interest
  list k = os.interest ep k

  -- An answer that is known to come for a descriptor with `old` registered.
  abbrev Known : Ctl → Option Events → K → Option Errno × K → Type 0
  Known op u k (e, k') = Answers op fd u e (list k) (list k')

  known :
      (op : Ctl) (k : K) (u : Option Events)
      → list k fd ≡ u
      → Known op u k (os.epoll_ctl ep op fd k)
  known op k u e = subst (λ u'. Known op u' k (os.epoll_ctl ep op fd k)) e (os.answers ep op fd k)

  -- The second call, behind a first that has changed nothing.
  modified :
      (v u : Events) (k : K) (errno : Errno) (a : Option Errno × K)
      → Known (ctl_mod v) (some u) k a
      → let (ok', w) = answered errno a in Sets fd v (list k) ok' (list w.kernel)
  modified v u k errno (none, k') h = h
  modified v u k errno (some x, k') h = h.1

  added :
      (v : Events) (k : K) (errno : Errno) (a : Option Errno × K)
      → Known (ctl_add v) none k a
      → let (ok', w) = answered errno a in Sets fd v (list k) ok' (list w.kernel)
  added v k errno (none, k') h = h
  added v k errno (some x, k') h = h.1

  Sets-along :
      (v : Events) (old mid new : Interest) (ok' : Bool)
      → Same old mid
      → Sets fd v mid ok' new
      → Sets fd v old ok' new
  Sets-along v old mid new true s h = λ x. elim (Bool-cases (x == fd)) [
    | inl t ↦ let e = h x in rw t (rw t at e)
    | inr t ↦ let e = h x in rw t ((rw t at e) ∙ s x)
  ]
  Sets-along v old mid new false s h = λ x. h x ∙ s x

  read_Sets :
      (v : Events) (u : Option Events) (k : K) (errno : Errno) (a : Option Errno × K)
      → list k fd ≡ u
      → Known (ctl_add v) u k a
      → let (ok', w') = answered errno a in
        let again = answered w'.errno (os.epoll_ctl ep (ctl_mod v) fd w'.kernel) in
        let (ok'', w'') =
          if ok' then (true, w') else if is_exist w'.errno then again else (false, w') in
        Sets fd v (list k) ok'' (list w''.kernel)
  read_Sets v none k errno (none, k') e h = h
  read_Sets v none k errno (some x, k') e h = rw (h.0) (h.1)
  read_Sets v (some u) k errno (none, k') e h = absurd (cc)
  read_Sets v (some u) k errno (some x, k') e h = elim (Bool-cases (is_exist x)) [
    | inl t ↦ rw t (
        Sets-along v (list k) (list k') _ _ h.1 (
          modified v u k' x (os.epoll_ctl ep (ctl_mod v) fd k')
            (known (ctl_mod v) k' (some u) (h.1 fd ∙ e))))
    | inr t ↦ rw t (h.1)
  ]

  write_Sets :
      (v : Events) (u : Option Events) (k : K) (errno : Errno) (a : Option Errno × K)
      → list k fd ≡ u
      → Known (ctl_mod v) u k a
      → let (ok', w') = answered errno a in
        let again = answered w'.errno (os.epoll_ctl ep (ctl_add v) fd w'.kernel) in
        let (ok'', w'') =
          if ok' then (true, w') else if is_missing w'.errno then again else (false, w') in
        Sets fd v (list k) ok'' (list w''.kernel)
  write_Sets v (some u) k errno (none, k') e h = h
  write_Sets v (some u) k errno (some x, k') e h = rw (h.0) (h.1)
  write_Sets v none k errno (none, k') e h = absurd (cc)
  write_Sets v none k errno (some x, k') e h = elim (Bool-cases (is_missing x)) [
    | inl t ↦ rw t (
        Sets-along v (list k) (list k') _ _ h.1 (
          added v k' x (os.epoll_ctl ep (ctl_add v) fd k')
            (known (ctl_add v) k' none (h.1 fd ∙ e))))
    | inr t ↦ rw t (h.1)
  ]

  -- `unwatch_write` changes what is registered, or nothing.
  abbrev pub Clears : Option Events → Interest → Interest → Type 0
  Clears none old new = Same old new
  Clears (some u) old new = Becomes fd (some events_read) old new ⊎ Same old new

  cleared :
      (u : Option Events) (k : K) (errno : Errno) (a : Option Errno × K)
      → Known (ctl_mod events_read) u k a
      → Clears u (list k) (list (answered errno a).1.kernel)
  cleared none k errno (none, k') h = h.1
  cleared none k errno (some x, k') h = h.1
  cleared (some u) k errno (none, k') h = inl h
  cleared (some u) k errno (some x, k') h = inr h.1

  removed_old : (old new : Interest) → old fd ≡ none → Same old new → Becomes fd none old new
  removed_old old new e h = λ x. elim (Bool-cases (x == fd)) [
    | inl t ↦ let same : x ≡ fd = ground (arith, t) in rw t (h x ∙ ap old same ∙ e)
    | inr t ↦ rw t (h x)
  ]

  removed :
      (u : Option Events) (k : K) (errno : Errno) (a : Option Errno × K)
      → list k fd ≡ u
      → Known ctl_del u k a
      → Becomes fd none (list k) (list (answered errno a).1.kernel)
  removed none k errno (none, k') e h = removed_old (list k) (list k') e h.1
  removed none k errno (some x, k') e h = removed_old (list k) (list k') e h.1
  removed (some u) k errno (none, k') e h = h.1
  removed (some u) k errno (some x, k') e h = h.1

  -- What the four operations do, for the interest list that they find.
  abbrev pub Refines : World K → Type 0
  Refines w =
      let old = list w.kernel in
      (let (ok', w') = watch_read os.epoll_ctl (some ep) fd w in
        Sets fd events_read old ok' (list w'.kernel))
      × (let (ok', w') = watch_write os.epoll_ctl (some ep) fd w in
          Sets fd events_both old ok' (list w'.kernel))
      × (let w' = unwatch_write os.epoll_ctl (some ep) fd w in
          Clears (old fd) old (list w'.kernel) × (w'.errno ≡ w.errno))
      × (let w' = unwatch os.epoll_ctl (some ep) fd w in
          Becomes fd none old (list w'.kernel) × (w'.errno ≡ w.errno))

  -- On a kernel whose `epoll_ctl` behaves as documented, whatever is registered and whatever it
  -- refuses: `watch_read` that succeeds leaves its descriptor watched for reading only, `watch_write`
  -- that succeeds for both, also where it was not watched before, and either changes nothing if it
  -- fails; `unwatch_write` leaves a descriptor that is registered watched for reading only, or as it
  -- was, and registers none; `unwatch` always removes it; neither changes `errno`; and no operation
  -- touches another descriptor.
  pub Epoll-Refines : (w : World K) → Refines w
  unfolding watch_read watch_write unwatch_write unwatch
  Epoll-Refines w =
      let k = w.kernel in
      let u = list k fd in
      let at : (op : Ctl) → Known op u k (os.epoll_ctl ep op fd k) = λ op. os.answers ep op fd k in
      let ctl = λ (op : Ctl). os.epoll_ctl ep op fd k in
      (
        read_Sets events_read u k w.errno (ctl (ctl_add events_read)) refl
            (at (ctl_add events_read)),
        write_Sets events_both u k w.errno (ctl (ctl_mod events_both)) refl
            (at (ctl_mod events_both)),
        (cleared u k w.errno (ctl (ctl_mod events_read)) (at (ctl_mod events_read)), refl),
        (removed u k w.errno (ctl ctl_del) refl (at ctl_del), refl),
      )
