-- ===== src/Drivers/Epoll/Kernel.antt =====
-- What `epoll_ctl` is documented to do to an interest list.
use php_websocket.Base.{ℕ, ◌≡◌, true, false, Option, none, some, is_some, ◌==◌, if◌then◌else◌}
use php_websocket.Connection.State.{Errno}
use php_websocket.Drivers.Poll.Watches.{Events}
use php_websocket.Drivers.Epoll.{Ctl, ctl_add, ctl_mod, ctl_del, is_exist, is_missing}

-- An interest list: the events of the descriptors that are registered.
abbrev pub Interest : Type 0
Interest = ℕ → Option Events

abbrev pub Same : Interest → Interest → Type 0
Same old new = (x : ℕ) → new x ≡ old x

abbrev pub Becomes : ℕ → Option Events → Interest → Interest → Type 0
Becomes fd v old new = (x : ℕ) → new x ≡ (if x == fd then v else old x)

-- Any error, and nothing has changed.
abbrev pub Refused : Option Errno → Interest → Interest → Type 0
Refused e old new = (is_some e ≡ true) × Same old new

-- The answer to an operation on `fd`, by what is registered for it: to add what is there, and to
-- change or remove what is not there, is an error (EEXIST and ENOENT, if the arguments are good);
-- what is not there is added, or an error other than EEXIST changes nothing; what is there is
-- changed, or an error other than ENOENT changes nothing; and what is there is removed.
abbrev pub Answers : Ctl → ℕ → Option Events → Option Errno → Interest → Interest → Type 0
Answers (ctl_add v) fd none none old new = Becomes fd (some v) old new
Answers (ctl_add v) fd none (some x) old new = (is_exist x ≡ false) × Same old new
Answers (ctl_add v) fd (some u) e old new = Refused e old new
Answers (ctl_mod v) fd (some u) none old new = Becomes fd (some v) old new
Answers (ctl_mod v) fd (some u) (some x) old new = (is_missing x ≡ false) × Same old new
Answers (ctl_mod v) fd none e old new = Refused e old new
Answers ctl_del fd (some u) e old new = (e ≡ none) × Becomes fd none old new
Answers ctl_del fd none e old new = Refused e old new

-- A kernel: `epoll_ctl`, and the interest list of each epoll descriptor.
pub record Epoll (K : Type 0) : Type 0 where
  pub epoll_ctl : ℕ → Ctl → ℕ → K → Option Errno × K
  pub interest : ℕ → K → Interest
  pub answers :
      (ep : ℕ) (op : Ctl) (fd : ℕ) (k : K)
      → let (e, k') = epoll_ctl ep op fd k in
        Answers op fd (interest ep k fd) e (interest ep k) (interest ep k')
