-- ===== src/Tests/Kernels.antt =====
-- Drivers: the epoll and the kqueue driver on kernels that behave as documented.
use php_websocket.Base.{
  ℕ, zero, suc, ◌<◌, ◌≡◌, refl, Bool, true, false, ◌&&◌, Option, none, some, [], ◌∷◌, ◌==◌,
  if◌then◌else◌, inr, arith,
}
use php_websocket.Connection.State.{Errno, success, eintr, other}
use php_websocket.Drivers.Poll.Watches.{Events}
use php_websocket.Drivers.Epoll.{Ctl, ctl_add, ctl_mod, ctl_del, World}
use php_websocket.Drivers.Epoll.Kernel.{Interest, Epoll}
use php_websocket.Drivers.Epoll.Kernel as EpollKernel
use php_websocket.Drivers.Epoll.Watches as EpollWatches
use php_websocket.Drivers.Epoll.Watches.{Epoll-Refines}
use php_websocket.Drivers.Poll.{wait_failed, timed_out, ready}
use php_websocket.Drivers.Epoll as EpollDriver
use php_websocket.Drivers.Epoll.{epoll_ready, close_loop}
use php_websocket.Drivers.Kqueue as KqueueDriver
use php_websocket.Drivers.Kqueue.{kqueue_error, kqueue_timed_out}
use php_websocket.Drivers.Kqueue.{Filter, filter_read, Change, ev_add, ev_delete}
use php_websocket.Drivers.Choice.{
  Driver, epoll, kqueue, poll, select, Build, select_best_driver, best_driver_name, get_driver,
}
use php_websocket.Drivers.Kqueue.Kernel.{Knotes, is_same, Answers, interrupted, Kqueue}
use php_websocket.Drivers.Kqueue.Watches as KqueueWatches
use php_websocket.Drivers.Kqueue.Watches.{Kqueue-Refines}

-- An epoll that has room for every descriptor; its one interest list is the kernel's state.
abbrev set_interest : Interest → ℕ → Option Events → Interest
set_interest k fd v x = if x == fd then v else k x

abbrev ctl_at : Ctl → ℕ → Option Events → Interest → Option Errno × Interest
ctl_at (ctl_add v) fd none k = (none, set_interest k fd (some v))
ctl_at (ctl_add v) fd (some u) k = (some (other 17), k)
ctl_at (ctl_mod v) fd none k = (some (other 2), k)
ctl_at (ctl_mod v) fd (some u) k = (none, set_interest k fd (some v))
ctl_at ctl_del fd none k = (some (other 2), k)
ctl_at ctl_del fd (some u) k = (none, set_interest k fd none)

ctl_at_lem :
    (op : Ctl) (fd : ℕ) (u : Option Events) (k : Interest)
    → let (e, k') = ctl_at op fd u k in EpollKernel.Answers op fd u e k k'
ctl_at_lem (ctl_add v) fd none k = λ x. refl
ctl_at_lem (ctl_add v) fd (some u) k = (refl, λ x. refl)
ctl_at_lem (ctl_mod v) fd none k = (refl, λ x. refl)
ctl_at_lem (ctl_mod v) fd (some u) k = λ x. refl
ctl_at_lem ctl_del fd none k = (refl, λ x. refl)
ctl_at_lem ctl_del fd (some u) k = (refl, λ x. refl)

abbrev roomy : Epoll Interest
roomy = record {
  epoll_ctl = λ ep op fd k. ctl_at op fd (k fd) k;
  interest = λ ep k. k;
  answers = λ ep op fd k. ctl_at_lem op fd (k fd) k;
}

-- 5 is registered for reading.
abbrev one_registered : World Interest
one_registered = record {
  kernel = λ x. if x == 5 then some (true, false) else none;
  errno = success;
}

Epoll-Refines_example : EpollWatches.Refines roomy 3 5 one_registered
Epoll-Refines_example = Epoll-Refines roomy 3 5 one_registered

-- A queue whose next calls are interrupted behind their change, as often as the number says.
abbrev set_knote : Knotes → ℕ → Filter → Bool → Knotes
set_knote k fd f b x g = if (x == fd) && is_same g f then b else k x g

abbrev made : Change → Knotes → Knotes
made (ev_add fd f) k = set_knote k fd f true
made (ev_delete fd f) k = set_knote k fd f false

abbrev calm : Change → Bool → Knotes → Option Errno × Knotes
calm (ev_add fd f) found k = (none, set_knote k fd f true)
calm (ev_delete fd f) true k = (none, set_knote k fd f false)
calm (ev_delete fd f) false k = (some (other 2), k)

abbrev found : Change → Knotes → Bool
found (ev_add fd f) k = k fd f
found (ev_delete fd f) k = k fd f

abbrev interrupted_kevent : Change → ℕ × Knotes → Option Errno × (ℕ × Knotes)
interrupted_kevent change (suc n, k) = (some eintr, (n, made change k))
interrupted_kevent change (zero, k) =
    let (e, k') = calm change (found change k) k in (e, (zero, k'))

calm_lem :
    (change : Change) (b : Bool) (k : Knotes)
    → found change k ≡ b
    → let (e, k') = calm change b k in Answers change e k k' × (interrupted e ≡ false)
calm_lem (ev_add fd f) b k h = (λ x g. refl, refl)
calm_lem (ev_delete fd f) true k h = (λ x g. refl, refl)
calm_lem (ev_delete fd f) false k h = ((h, λ x g. refl), refl)

interrupted_kevent-Answers :
    (change : Change) (s : ℕ × Knotes)
    → let (e, s') = interrupted_kevent change s in Answers change e s.1 s'.1
interrupted_kevent-Answers (ev_add fd f) (suc n, k) = inr (λ x g. refl)
interrupted_kevent-Answers (ev_delete fd f) (suc n, k) = inr (λ x g. refl)
interrupted_kevent-Answers change (zero, k) = (calm_lem change (found change k) k refl).0

interrupted_kevent_ends :
    (change : Change) (s : ℕ × Knotes)
    → let (e, s') = interrupted_kevent change s in
      if interrupted e then (s'.0 < s.0) else (s'.0 ≡ s.0)
interrupted_kevent_ends change (suc n, k) = omega arith
interrupted_kevent_ends change (zero, k) =
    let calm_now = (calm_lem change (found change k) k refl).1 in rw calm_now refl

abbrev restless : Kqueue (ℕ × Knotes)
restless = record {
  kevent = λ kq change s. interrupted_kevent change s;
  knotes = λ kq s. s.1;
  interrupts = λ s. s.0;
  answers = λ kq change s. interrupted_kevent-Answers change s;
  interrupts_end = λ kq change s. interrupted_kevent_ends change s;
}

-- 5 is registered for reading, and two interrupts are to come.
abbrev two_interrupts : World (ℕ × Knotes)
two_interrupts = record { kernel = (2, λ x g. (x == 5) && is_same g filter_read); errno = success }

Kqueue-Refines_example : KqueueWatches.Refines restless 3 5 3 two_interrupts
Kqueue-Refines_example = Kqueue-Refines restless 3 5 3 two_interrupts (omega arith)

-- The descriptors of the two kernels from their making to their end.
epoll-made :
    (EpollDriver.init (some 3) ≡ (true, some 3))
    × (EpollDriver.shutdown (some 3) (some eintr ∷ none ∷ none ∷ []) ≡ (none ∷ [], none))
    × (EpollDriver.wait (λ ep msec. epoll_ready msec) (some 3) 250999 ≡ ready 1 (some 250))
unfolding EpollDriver.init EpollDriver.shutdown EpollDriver.wait close_loop
epoll-made = (refl, refl, refl)

kqueue-made :
    (KqueueDriver.init none ≡ (false, none))
    × (KqueueDriver.shutdown (some 3) (some (other 5) ∷ none ∷ []) ≡ (none ∷ [], none))
    × (KqueueDriver.wait (λ kq sec nsec. kqueue_error none) (some 3) 250000 ≡ wait_failed (other 5))
    × (KqueueDriver.wait (λ kq sec nsec. kqueue_timed_out) (some 3) 250000 ≡ timed_out)
unfolding KqueueDriver.init KqueueDriver.shutdown KqueueDriver.wait close_loop
kqueue-made = (refl, refl, refl, refl)

-- A build with epoll and poll, on which `epoll_create1` fails.
abbrev with_epoll : Build
with_epoll epoll = true
with_epoll kqueue = false
with_epoll poll = true
with_epoll select = true

abbrev no_epoll : Driver → Bool
no_epoll epoll = false
no_epoll _ = true

-- The run takes the next driver; in front of it, `getDriver` names epoll.
next-driver :
    (select_best_driver with_epoll no_epoll ≡ some poll)
    × (get_driver with_epoll (some poll) ≡ 112 ∷ 111 ∷ 108 ∷ 108 ∷ [])
    × (get_driver with_epoll none ≡ 101 ∷ 112 ∷ 111 ∷ 108 ∷ 108 ∷ [])
unfolding select_best_driver best_driver_name get_driver
next-driver = (refl, refl, refl)
