-- ===== src/Drivers/Kqueue/Watches.antt =====
-- What the kqueue driver's operations do to the kernel's filters.
use php_websocket.Base.{
  ℕ, ◌<◌, ◌≡◌, ◌⊎◌, refl, ap, ap₂, ◌∙◌, Bool, true, false, Option, none, some, ◌==◌, if◌then◌else◌,
  Bool-cases, inl, inr, arith,
}
use php_websocket.Connection.State.{Errno}
use php_websocket.Drivers.Poll.Watches.{Events}
use php_websocket.Drivers.Epoll.{World}
use php_websocket.Drivers.Kqueue.{
  filter_read, filter_write, Change, ev_add, ev_delete, world_of, restore, watch_read, watch_write,
  unwatch_event, unwatch_write, then_write, unwatch,
}
use php_websocket.Drivers.Kqueue.Kernel.{Knotes, Same, Becomes, Kqueue}
use php_websocket.Drivers.Kqueue.Loop.{list, Ends, change_loop-Ends}

-- The events that a descriptor is watched for.
abbrev pub events : Knotes → ℕ → Events
events k x = (k x filter_read, k x filter_write)

-- The events of one descriptor are set, and those of every other are kept.
abbrev pub Sets : ℕ → (Events → Events) → Knotes → Knotes → Type 0
Sets fd g old new = (x : ℕ) → events new x ≡ (if x == fd then g (events old x) else events old x)

abbrev pub Keeps : Knotes → Knotes → Type 0
Keeps old new = (x : ℕ) → events new x ≡ events old x

module _ (fd : ℕ) (b : Bool) (old new : Knotes) where
  set_read : Becomes fd filter_read b old new → Sets fd (λ v. (b, v.1)) old new
  set_read h x =
      let r = h x filter_read in
      let w = h x filter_write in
      elim (Bool-cases (x == fd)) [
        | inl t ↦ rw t (ap₂ (λ i o. (i, o)) (rw t at r) (rw t at w))
        | inr t ↦ rw t (ap₂ (λ i o. (i, o)) (rw t at r) (rw t at w))
      ]

  set_write : Becomes fd filter_write b old new → Sets fd (λ v. (v.0, b)) old new
  set_write h x =
      let r = h x filter_read in
      let w = h x filter_write in
      elim (Bool-cases (x == fd)) [
        | inl t ↦ rw t (ap₂ (λ i o. (i, o)) (rw t at r) (rw t at w))
        | inr t ↦ rw t (ap₂ (λ i o. (i, o)) (rw t at r) (rw t at w))
      ]

keeps : (old new : Knotes) → Same old new → Keeps old new
keeps old new s x = ap₂ (λ i o. (i, o)) (s x filter_read) (s x filter_write)

set_both :
    (fd : ℕ) (old mid new : Knotes)
    → Sets fd (λ v. (false, v.1)) old mid
    → Sets fd (λ v. (v.0, false)) mid new
    → Sets fd (λ v. (false, false)) old new
set_both fd old mid new p q x =
    let e = p x in
    let d = q x in
    elim (Bool-cases (x == fd)) [
      | inl t ↦ rw t ((rw t at d) ∙ ap (λ v. (v.0, false)) (rw t at e))
      | inr t ↦ rw t ((rw t at d) ∙ (rw t at e))
    ]

module _ {K : Type 0} (os : Kqueue K) (kq fd : ℕ) where
  -- A watch that succeeds sets the events; one that fails has perhaps set them.
  abbrev Watched : (Events → Events) → K → Option (Bool × World K) → Type 0
  Watched g k none = ⊥
  Watched g k (some (true, w)) = Sets fd g (list os kq k) (list os kq w.kernel)
  Watched g k (some (false, w)) =
      Keeps (list os kq k) (list os kq w.kernel) ⊎ Sets fd g (list os kq k) (list os kq w.kernel)

  abbrev Unwatched : (Events → Events) → K → Errno → Option (World K) → Type 0
  Unwatched g k errno none = ⊥
  Unwatched g k errno (some w) = Sets fd g (list os kq k) (list os kq w.kernel) × (w.errno ≡ errno)

  read_Watched :
      (k : K) (r : Option (Bool × World K))
      → Ends os kq (ev_add fd filter_read) k r
      → Watched (λ v. (true, v.1)) k r
  read_Watched k none h = h
  read_Watched k (some (true, w)) h = set_read fd true _ _ h.0
  read_Watched k (some (false, w)) (inl s, l) = inl (keeps _ _ s)
  read_Watched k (some (false, w)) (inr p, l) = inr (set_read fd true _ _ p)

  write_Watched :
      (k : K) (r : Option (Bool × World K))
      → Ends os kq (ev_add fd filter_write) k r
      → Watched (λ v. (v.0, true)) k r
  write_Watched k none h = h
  write_Watched k (some (true, w)) h = set_write fd true _ _ h.0
  write_Watched k (some (false, w)) (inl s, l) = inl (keeps _ _ s)
  write_Watched k (some (false, w)) (inr p, l) = inr (set_write fd true _ _ p)

  write_Unwatched :
      (k : K) (errno : Errno) (r : Option (Bool × World K))
      → Ends os kq (ev_delete fd filter_write) k r
      → Unwatched (λ v. (v.0, false)) k errno (restore errno (world_of r))
  write_Unwatched k errno none h = h
  write_Unwatched k errno (some (ok', w)) h = (set_write fd false _ _ h.0, refl)

  both_ended :
      (k : K) (errno : Errno) (w : World K) (r : Option (World K))
      → Sets fd (λ v. (false, v.1)) (list os kq k) (list os kq w.kernel)
      → Unwatched (λ v. (v.0, false)) w.kernel errno r
      → Unwatched (λ v. (false, false)) k errno r
  both_ended k errno w none p q = q
  both_ended k errno w (some w') p q =
      (set_both fd (list os kq k) (list os kq w.kernel) (list os kq w'.kernel) p q.0, q.1)

  both_Unwatched :
      (fuel : ℕ) (k : K) (errno : Errno) (r : Option (Bool × World K))
      → os.interrupts k < fuel
      → Ends os kq (ev_delete fd filter_read) k r
      → Unwatched
          (λ v. (false, false))
          k
          errno
          (restore errno (then_write os.kevent fuel (some kq) fd (world_of r)))
  unfolding unwatch_event
  both_Unwatched fuel k errno none l h = h
  both_Unwatched fuel k errno (some (ok', w)) l h =
      both_ended k errno w _ (set_read fd false _ _ h.0) (
        write_Unwatched w.kernel errno _
          (change_loop-Ends os kq fuel (ev_delete fd filter_write) w (omega (arith, l, h.1))))

  -- What the four operations do, on fuel.
  abbrev pub Refines : ℕ → World K → Type 0
  Refines fuel w =
      Watched (λ v. (true, v.1)) w.kernel (watch_read os.kevent fuel (some kq) fd w)
      × Watched (λ v. (v.0, true)) w.kernel (watch_write os.kevent fuel (some kq) fd w)
      × Unwatched (λ v. (v.0, false)) w.kernel w.errno (unwatch_write os.kevent fuel (some kq) fd w)
      × Unwatched (λ v. (false, false)) w.kernel w.errno (unwatch os.kevent fuel (some kq) fd w)

  -- On a kernel whose `kevent` behaves as documented, and with fuel for more than the interrupts
  -- that can still come, the loops end. `watch_read` and `watch_write` that succeed set the event of
  -- their name for their descriptor, and if they fail, they have set it or changed nothing;
  -- `unwatch_write` clears writing and `unwatch` both, whatever `kevent` answers, and neither
  -- changes `errno`; no operation touches another descriptor.
  pub Kqueue-Refines : (fuel : ℕ) (w : World K) → os.interrupts w.kernel < fuel → Refines fuel w
  unfolding watch_read watch_write unwatch_event unwatch_write unwatch
  Kqueue-Refines fuel w l =
      let ends = λ (change : Change). change_loop-Ends os kq fuel change w l in
      (
        read_Watched w.kernel _ (ends (ev_add fd filter_read)),
        write_Watched w.kernel _ (ends (ev_add fd filter_write)),
        write_Unwatched w.kernel w.errno _ (ends (ev_delete fd filter_write)),
        both_Unwatched fuel w.kernel w.errno _ l (ends (ev_delete fd filter_read)),
      )
