-- ===== src/Drivers/Select.antt =====
-- drivers/select.c: the set of descriptors that the select driver watches, and its wait.
pub mod Agrees
pub mod Ready
use php_websocket.Base.{
  ℕ, suc, ◌*◌, Bool, true, false, not, ◌&&◌, ◌||◌, Option, none, some, List, [], ◌∷◌, ◌++◌, length,
  ltb, leb, ◌==◌, if◌then◌else◌, is_some,
}
use php_websocket.Connection.State.{Errno, other}
use php_websocket.Drivers.Poll.{Waited, wait_failed, timed_out, ready}

-- `websocket_select_fd`
pub record SelectFd : Type 0 where
  pub fd : ℕ
  pub read : Bool
  pub write : Bool

-- `select_fds`, with `select_fd_count` its length, and `select_fd_capacity`.
pub record Select : Type 0 where
  pub fds : List SelectFd
  pub capacity : ℕ

-- `websocket_select_init`
abbrev pub select_init : Select
select_init = record { fds = []; capacity = 0 }

-- `websocket_select_shutdown`
abbrev pub shutdown : Select → Select
shutdown s = record { fds = []; capacity = 0 }

-- `FD_SETSIZE`, the size of the C library's bit sets.
abbrev pub fd_setsize : ℕ
fd_setsize = 1024

-- `websocket_select_find_fd`
unfoldable pub find_fd : ℕ → List SelectFd → Option SelectFd
find_fd fd [] = none
find_fd fd (p ∷ rest) = let later = find_fd fd rest in if p.fd == fd then some p else later

-- `websocket_select_ensure_fd`: the table with an entry of the descriptor; `none` is its `NULL`,
-- with `errno` EMFILE.
unfoldable pub ensure_fd : Select → ℕ → Option Select
ensure_fd s fd =
    if leb fd_setsize fd
    then none
    else if is_some (find_fd fd s.fds)
    then some s
    else some (record {
      fds = s.fds ++ (record { fd = fd; read = false; write = false } ∷ []);
      capacity =
          if length s.fds == s.capacity
          then (if ltb 0 s.capacity then s.capacity * 2 else 8)
          else s.capacity;
    })

-- A write to the entry that `websocket_select_ensure_fd` has returned.
unfoldable pub mark : (SelectFd → SelectFd) → ℕ → List SelectFd → List SelectFd
mark f fd [] = []
mark f fd (p ∷ rest) = let later = mark f fd rest in if p.fd == fd then f p ∷ rest else p ∷ later

abbrev pub set_read : SelectFd → SelectFd
set_read p = record p { read = true }

abbrev pub set_write : SelectFd → SelectFd
set_write p = record p { write = true }

abbrev pub mark_in : (SelectFd → SelectFd) → ℕ → Option Select → Option Select
mark_in f fd none = none
mark_in f fd (some s) = some (record s { fds = mark f fd s.fds })

-- `websocket_select_watch_read`; `none` is FAILURE.
unfoldable pub watch_read : Select → ℕ → Option Select
watch_read s fd = mark_in set_read fd (ensure_fd s fd)

-- `websocket_select_watch_write`; `none` is FAILURE.
unfoldable pub watch_write : Select → ℕ → Option Select
watch_write s fd = mark_in set_write fd (ensure_fd s fd)

-- The loop of `websocket_select_unwatch_write`, with `websocket_select_remove_fd_at`.
unfoldable pub clear_write : ℕ → List SelectFd → List SelectFd
clear_write fd [] = []
clear_write fd (p ∷ rest) =
    let later = clear_write fd rest in
    if not (p.fd == fd)
    then p ∷ later
    else if not p.read
    then rest
    else record p { write = false } ∷ rest

-- `websocket_select_unwatch_write`
unfoldable pub unwatch_write : Select → ℕ → Select
unwatch_write s fd = record s { fds = clear_write fd s.fds }

-- The loop of `websocket_select_unwatch`, with `websocket_select_remove_fd_at`.
unfoldable pub remove : ℕ → List SelectFd → List SelectFd
remove fd [] = []
remove fd (p ∷ rest) = let later = remove fd rest in if p.fd == fd then rest else p ∷ later

-- `websocket_select_unwatch`
unfoldable pub unwatch : Select → ℕ → Select
unwatch s fd = record s { fds = remove fd s.fds }

-- `FD_ISSET`, on a set given by its members.
abbrev pub is_set : ℕ → List ℕ → Bool
is_set fd [] = false
is_set fd (x ∷ set) = x == fd || is_set fd set

-- `read_fds`, `write_fds` and `max_fd + 1`, as the first loop of `websocket_select_wait` leaves
-- them.
unfoldable pub read_fds : List SelectFd → List ℕ
read_fds [] = []
read_fds (p ∷ rest) = if p.read then p.fd ∷ read_fds rest else read_fds rest

unfoldable pub write_fds : List SelectFd → List ℕ
write_fds [] = []
write_fds (p ∷ rest) = if p.write then p.fd ∷ write_fds rest else write_fds rest

unfoldable pub max_fd_from : ℕ → List SelectFd → ℕ
max_fd_from n [] = n
max_fd_from n (p ∷ rest) = max_fd_from (if ltb p.fd n then n else suc p.fd) rest

-- What `select` answers: -1, 0, or the number of bits set, with the two sets.
pub data SelectAnswer : Type 0 where
  select_failed : Errno → SelectAnswer
  select_timed_out : SelectAnswer
  select_ready : ℕ → List ℕ → List ℕ → SelectAnswer

abbrev pub is_ready : List ℕ → List ℕ → SelectFd → Bool
is_ready reads writes p = (p.read && is_set p.fd reads) || (p.write && is_set p.fd writes)

-- The second loop.
unfoldable pub first_ready : List ℕ → List ℕ → List SelectFd → Option ℕ
first_ready reads writes [] = none
first_ready reads writes (p ∷ rest) =
    let later = first_ready reads writes rest in
    if is_ready reads writes p then some p.fd else later

abbrev pub on_select : List SelectFd → SelectAnswer → Waited
on_select fds (select_failed x) = wait_failed x
on_select fds select_timed_out = timed_out
on_select fds (select_ready n reads writes) = ready n (first_ready reads writes fds)

-- `websocket_select_wait`, with `select` as a function of the number of descriptors and the two
-- sets. EBADF is 9.
unfoldable pub wait : (ℕ → List ℕ → List ℕ → SelectAnswer) → Select → Waited
wait select s =
    if length s.fds == 0
    then wait_failed (other 9)
    else on_select s.fds (select (max_fd_from 0 s.fds) (read_fds s.fds) (write_fds s.fds))
