-- ===== src/Drivers/Kqueue.antt =====
-- drivers/kqueue.c: the kqueue driver. The watch set is the kernel's.
pub mod Kernel
pub mod Loop
pub mod Watches
use php_websocket.Base.{
  ℕ, zero, suc, ◌*◌, ◌/◌, ◌%◌, Bool, true, false, Option, none, some, List, ◌==◌, is_some,
  if◌then◌else◌,
}
use php_websocket.Connection.State.{Errno, other}
use php_websocket.Connection.Queue.{is_interrupt}
use php_websocket.Drivers.Poll.{Waited, wait_failed, timed_out, ready}
use php_websocket.Drivers.Epoll.{World, ebadf, close_loop}

-- EVFILT_READ and EVFILT_WRITE.
pub data Filter : Type 0 where
  filter_read filter_write : Filter

-- A change: EV_ADD, with EV_ENABLE and EV_CLEAR, or EV_DELETE.
pub data Change : Type 0 where
  ev_add ev_delete : ℕ → Filter → Change

-- `websocket_kqueue_init`, from what `kqueue` returns: the result, and `kqueue_fd`.
unfoldable pub init : Option ℕ → Bool × Option ℕ
init created = (is_some created, created)

-- `websocket_kqueue_shutdown`: the answers of `close` that are left, and `kqueue_fd`.
unfoldable pub shutdown : Option ℕ → List (Option Errno) → List (Option Errno) × Option ℕ
shutdown none answers = (answers, none)
shutdown (some kq) answers = (close_loop answers, none)

abbrev pub bad : {K : Type 0} → World K → Option (Bool × World K)
bad w = some (false, record w { errno = ebadf })

-- An answer to a change: 0, an interrupt, after which the change is made again, or an error.
abbrev pub or_again :
    {K : Type 0}
    → (World K → Option (Bool × World K))
    → Errno
    → Option Errno × K
    → Option (Bool × World K)
or_again again errno (none, k) = some (true, record { kernel = k; errno = errno })
or_again again errno (some x, k) =
    let more = again (record { kernel = k; errno = x }) in
    if is_interrupt x then more else some (false, record { kernel = k; errno = x })

abbrev pub world_of : {K : Type 0} → Option (Bool × World K) → Option (World K)
world_of none = none
world_of (some (ok', w)) = some w

abbrev pub restore : {K : Type 0} → Errno → Option (World K) → Option (World K)
restore errno none = none
restore errno (some w) = some (record w { errno = errno })

-- `kevent` with one change is a function of the queue's descriptor, the change and the kernel. It
-- answers 0 or an `errno`.
module _ {K : Type 0} (kevent : ℕ → Change → K → Option Errno × K) where
  -- The loops over `kevent`, on fuel: whether it has answered 0 at last.
  unfoldable pub change_loop : ℕ → ℕ → Change → World K → Option (Bool × World K)
  change_loop zero kq change w = none
  change_loop (suc fuel) kq change w =
      or_again (λ w'. change_loop fuel kq change w') w.errno (kevent kq change w.kernel)

  -- `websocket_kqueue_watch_read`
  unfoldable pub watch_read : ℕ → Option ℕ → ℕ → World K → Option (Bool × World K)
  watch_read fuel none fd w = bad w
  watch_read fuel (some kq) fd w = change_loop fuel kq (ev_add fd filter_read) w

  -- `websocket_kqueue_watch_write`
  unfoldable pub watch_write : ℕ → Option ℕ → ℕ → World K → Option (Bool × World K)
  watch_write fuel none fd w = bad w
  watch_write fuel (some kq) fd w = change_loop fuel kq (ev_add fd filter_write) w

  -- `websocket_kqueue_unwatch_event`
  unfoldable pub unwatch_event : ℕ → Option ℕ → ℕ → Filter → World K → Option (World K)
  unwatch_event fuel none fd filter w = some w
  unwatch_event fuel (some kq) fd filter w = world_of (change_loop fuel kq (ev_delete fd filter) w)

  -- `websocket_kqueue_unwatch_write`
  unfoldable pub unwatch_write : ℕ → Option ℕ → ℕ → World K → Option (World K)
  unwatch_write fuel kq fd w = restore w.errno (unwatch_event fuel kq fd filter_write w)

  abbrev pub then_write : ℕ → Option ℕ → ℕ → Option (World K) → Option (World K)
  then_write fuel kq fd none = none
  then_write fuel kq fd (some w) = unwatch_event fuel kq fd filter_write w

  -- `websocket_kqueue_unwatch`
  unfoldable pub unwatch : ℕ → Option ℕ → ℕ → World K → Option (World K)
  unwatch fuel kq fd w =
      restore w.errno (then_write fuel kq fd (unwatch_event fuel kq fd filter_read w))

-- What `kevent` answers for one event: -1, 0, or 1 with `ident`, or with EV_ERROR and the error in
-- `data`, `none` for 0.
pub data KqueueAnswer : Type 0 where
  kqueue_failed : Errno → KqueueAnswer
  kqueue_timed_out : KqueueAnswer
  kqueue_ready : ℕ → KqueueAnswer
  kqueue_error : Option Errno → KqueueAnswer

-- EIO is 5.
abbrev pub on_kevent : KqueueAnswer → Waited
on_kevent (kqueue_failed x) = wait_failed x
on_kevent kqueue_timed_out = timed_out
on_kevent (kqueue_ready fd) = ready 1 (some fd)
on_kevent (kqueue_error none) = wait_failed (other 5)
on_kevent (kqueue_error (some x)) = wait_failed x

-- `websocket_kqueue_wait`, with `kevent` as a function of the descriptor, the seconds and the
-- nanoseconds.
unfoldable pub wait : (ℕ → ℕ → ℕ → KqueueAnswer) → Option ℕ → ℕ → Waited
wait kevent none timeout_usec = wait_failed ebadf
wait kevent (some kq) timeout_usec =
    on_kevent (kevent kq (timeout_usec / 1000000) (timeout_usec % 1000000 * 1000))
