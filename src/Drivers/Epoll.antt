-- ===== src/Drivers/Epoll.antt =====
-- drivers/epoll.c: the epoll driver. The watch set is the kernel's.
pub mod Kernel
pub mod Watches
use php_websocket.Base.{
  ℕ, ◌/◌, Bool, true, false, Option, none, some, List, [], ◌∷◌, ◌==◌, is_some, if◌then◌else◌,
}
use php_websocket.Connection.State.{Errno, eintr, other}
use php_websocket.Connection.Queue.{is_interrupt}
use php_websocket.Drivers.Poll.{Waited, wait_failed, timed_out, ready}
use php_websocket.Drivers.Poll.Watches.{Events}

-- EBADF, EEXIST and ENOENT of Linux.
abbrev pub ebadf : Errno
ebadf = other 9

abbrev pub is_exist : Errno → Bool
is_exist (other n) = n == 17
is_exist _ = false

abbrev pub is_missing : Errno → Bool
is_missing (other n) = n == 2
is_missing _ = false

-- The operations of `epoll_ctl`, with EPOLLIN and EPOLLOUT of the event.
pub data Ctl : Type 0 where
  ctl_add ctl_mod : Events → Ctl
  ctl_del : Ctl

abbrev pub events_read : Events
events_read = (true, false)

abbrev pub events_both : Events
events_both = (true, true)

-- `websocket_epoll_init`, from what `epoll_create1` returns: the result, and `epoll_fd`.
unfoldable pub init : Option ℕ → Bool × Option ℕ
init created = (is_some created, created)

-- The loop over `close`, for its answers: what is left of them.
unfoldable pub close_loop : List (Option Errno) → List (Option Errno)
close_loop [] = []
close_loop (none ∷ rest) = rest
close_loop (some x ∷ rest) = let again = close_loop rest in if is_interrupt x then again else rest

-- `websocket_epoll_shutdown`: the answers of `close` that are left, and `epoll_fd`.
unfoldable pub shutdown : Option ℕ → List (Option Errno) → List (Option Errno) × Option ℕ
shutdown none answers = (answers, none)
shutdown (some ep) answers = (close_loop answers, none)

-- What a driver's function leaves: the kernel and `errno`.
pub record World (K : Type 0) : Type 0 where
  pub kernel : K
  pub errno : Errno

abbrev pub answered : {K : Type 0} → Errno → Option Errno × K → Bool × World K
answered errno (none, k) = (true, record { kernel = k; errno = errno })
answered errno (some x, k) = (false, record { kernel = k; errno = x })

abbrev pub bad : {K : Type 0} → World K → Bool × World K
bad w = (false, record w { errno = ebadf })

-- `epoll_ctl` is a function of the epoll descriptor, the operation, the descriptor and the
-- kernel. It answers 0 or an `errno`.
module _ {K : Type 0} (epoll_ctl : ℕ → Ctl → ℕ → K → Option Errno × K) where
  abbrev pub call : ℕ → Ctl → ℕ → World K → Bool × World K
  call ep op fd w = answered w.errno (epoll_ctl ep op fd w.kernel)

  -- `websocket_epoll_watch_read`
  unfoldable pub watch_read : Option ℕ → ℕ → World K → Bool × World K
  watch_read none fd w = bad w
  watch_read (some ep) fd w =
      let (ok', w') = call ep (ctl_add events_read) fd w in
      let again = call ep (ctl_mod events_read) fd w' in
      if ok' then (true, w') else if is_exist w'.errno then again else (false, w')

  -- `websocket_epoll_watch_write`
  unfoldable pub watch_write : Option ℕ → ℕ → World K → Bool × World K
  watch_write none fd w = bad w
  watch_write (some ep) fd w =
      let (ok', w') = call ep (ctl_mod events_both) fd w in
      let again = call ep (ctl_add events_both) fd w' in
      if ok' then (true, w') else if is_missing w'.errno then again else (false, w')

  -- `websocket_epoll_unwatch_write`
  unfoldable pub unwatch_write : Option ℕ → ℕ → World K → World K
  unwatch_write none fd w = w
  unwatch_write (some ep) fd w = record (call ep (ctl_mod events_read) fd w).1 { errno = w.errno }

  -- `websocket_epoll_unwatch`
  unfoldable pub unwatch : Option ℕ → ℕ → World K → World K
  unwatch none fd w = w
  unwatch (some ep) fd w = record (call ep ctl_del fd w).1 { errno = w.errno }

-- What `epoll_wait` answers for one event: -1, 0, or 1 with the descriptor of the event.
pub data EpollAnswer : Type 0 where
  epoll_failed : Errno → EpollAnswer
  epoll_timed_out : EpollAnswer
  epoll_ready : ℕ → EpollAnswer

abbrev pub on_epoll : EpollAnswer → Waited
on_epoll (epoll_failed x) = wait_failed x
on_epoll epoll_timed_out = timed_out
on_epoll (epoll_ready fd) = ready 1 (some fd)

-- `websocket_epoll_wait`, with `epoll_wait` as a function of the descriptor and the milliseconds.
unfoldable pub wait : (ℕ → ℕ → EpollAnswer) → Option ℕ → ℕ → Waited
wait epoll_wait none timeout_usec = wait_failed ebadf
wait epoll_wait (some ep) timeout_usec = on_epoll (epoll_wait ep (timeout_usec / 1000))
