-- ===== src/Drivers/Poll.antt =====
-- drivers/poll.c: the set of descriptors that the poll driver watches, and its wait.
pub mod Watches
pub mod Refines
use php_websocket.Base.{
  ℕ, zero, suc, ◌+◌, ◌*◌, Bool, true, false, not, ◌&&◌, ◌||◌, Option, none, some, List, [], ◌∷◌,
  ◌++◌, length, ltb, ◌==◌, if◌then◌else◌,
}
use php_websocket.Connection.State.{Errno, other}

-- An entry of `poll_fds`: POLLIN and POLLOUT of its `events`.
pub record PollFd : Type 0 where
  pub fd : ℕ
  pub pollin : Bool
  pub pollout : Bool

-- `poll_fds`, with `poll_fd_count` its length, and `poll_fd_capacity`.
pub record Poll : Type 0 where
  pub fds : List PollFd
  pub capacity : ℕ

-- `websocket_poll_init`
abbrev pub poll_init : Poll
poll_init = record { fds = []; capacity = 0 }

-- `websocket_poll_shutdown`
abbrev pub shutdown : Poll → Poll
shutdown poll = record { fds = []; capacity = 0 }

abbrev pub keep : PollFd → Option (List PollFd) → Option (List PollFd)
keep p none = none
keep p (some fds) = some (p ∷ fds)

-- The first entry of the descriptor is changed; `none` if there is none.
unfoldable pub change : (PollFd → PollFd) → ℕ → List PollFd → Option (List PollFd)
change f fd [] = none
change f fd (p ∷ rest) =
    let later = change f fd rest in if p.fd == fd then some (f p ∷ rest) else keep p later

-- A new entry, with room made for it.
abbrev pub add : Poll → PollFd → Poll
add poll p = record {
  fds = poll.fds ++ (p ∷ []);
  capacity =
      if length poll.fds == poll.capacity
      then (if ltb 0 poll.capacity then poll.capacity * 2 else 8)
      else poll.capacity;
}

abbrev pub or_add : Poll → PollFd → Option (List PollFd) → Poll
or_add poll p none = add poll p
or_add poll p (some fds) = record poll { fds = fds }

abbrev pub set_in : PollFd → PollFd
set_in p = record p { pollin = true }

abbrev pub set_out : PollFd → PollFd
set_out p = record p { pollout = true }

-- `websocket_poll_watch_read`
unfoldable pub watch_read : Poll → ℕ → Poll
watch_read poll fd =
    or_add poll (record { fd = fd; pollin = true; pollout = false }) (change set_in fd poll.fds)

-- `websocket_poll_watch_write`
unfoldable pub watch_write : Poll → ℕ → Poll
watch_write poll fd =
    or_add poll (record { fd = fd; pollin = false; pollout = true }) (change set_out fd poll.fds)

-- The loop of `websocket_poll_unwatch_write`: an entry without events is removed.
unfoldable pub clear_out : ℕ → List PollFd → List PollFd
clear_out fd [] = []
clear_out fd (p ∷ rest) =
    let later = clear_out fd rest in
    if not (p.fd == fd)
    then p ∷ later
    else if p.pollin
    then record p { pollout = false } ∷ rest
    else rest

-- `websocket_poll_unwatch_write`
unfoldable pub unwatch_write : Poll → ℕ → Poll
unwatch_write poll fd = record poll { fds = clear_out fd poll.fds }

-- The loop of `websocket_poll_unwatch`, with `websocket_poll_remove_fd_at`.
unfoldable pub remove : ℕ → List PollFd → List PollFd
remove fd [] = []
remove fd (p ∷ rest) = let later = remove fd rest in if not (p.fd == fd) then p ∷ later else rest

-- `websocket_poll_unwatch`
unfoldable pub unwatch : Poll → ℕ → Poll
unwatch poll fd = record poll { fds = remove fd poll.fds }

-- What a driver's `wait` ends with: -1 with its `errno`, 0, or the system call's number and the
-- descriptor that it has written to `ready_fd`, if it has.
pub data Waited : Type 0 where
  wait_failed : Errno → Waited
  timed_out : Waited
  ready : ℕ → Option ℕ → Waited

-- What `poll` answers: -1, 0, or the number of entries marked, with the mark of each of them
-- (`revents != 0`).
pub data PollAnswer : Type 0 where
  poll_failed : Errno → PollAnswer
  poll_timed_out : PollAnswer
  poll_ready : ℕ → List Bool → PollAnswer

-- The loop of `websocket_poll_wait`.
unfoldable pub first_marked : List Bool → List PollFd → Option ℕ
first_marked marks [] = none
first_marked [] (p ∷ rest) = none
first_marked (mark ∷ marks) (p ∷ rest) =
    let later = first_marked marks rest in if mark then some p.fd else later

abbrev pub on_poll : List PollFd → PollAnswer → Waited
on_poll fds (poll_failed x) = wait_failed x
on_poll fds poll_timed_out = timed_out
on_poll fds (poll_ready n marks) = ready n (first_marked marks fds)

-- `websocket_poll_wait`, with `poll` as a function of the table. EBADF is 9.
unfoldable pub wait : (List PollFd → PollAnswer) → Poll → Waited
wait poll_call poll =
    if length poll.fds == 0 then wait_failed (other 9) else on_poll poll.fds (poll_call poll.fds)
