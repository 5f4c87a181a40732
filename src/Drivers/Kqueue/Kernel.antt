-- ===== src/Drivers/Kqueue/Kernel.antt =====
-- What `kevent` is documented to do with a change.
use php_websocket.Base.{
  ℕ, ◌<◌, ◌≡◌, ◌⊎◌, Bool, true, false, ◌&&◌, Option, none, some, ◌==◌, if◌then◌else◌,
}
use php_websocket.Connection.State.{Errno}
use php_websocket.Connection.Queue.{is_interrupt}
use php_websocket.Drivers.Kqueue.{Filter, filter_read, filter_write, Change, ev_add, ev_delete}

-- The filters that are registered for each descriptor.
abbrev pub Knotes : Type 0
Knotes = ℕ → Filter → Bool

abbrev pub is_same : Filter → Filter → Bool
is_same filter_read filter_read = true
is_same filter_write filter_write = true
is_same _ _ = false

abbrev pub Same : Knotes → Knotes → Type 0
Same old new = (x : ℕ) (g : Filter) → new x g ≡ old x g

abbrev pub Becomes : ℕ → Filter → Bool → Knotes → Knotes → Type 0
Becomes fd f b old new =
    (x : ℕ) (g : Filter) → new x g ≡ (if (x == fd) && is_same g f then b else old x g)

abbrev pub Perhaps : ℕ → Filter → Bool → Knotes → Knotes → Type 0
Perhaps fd f b old new = Same old new ⊎ Becomes fd f b old new

-- The answer to a change. An interrupt may come before or after it is made; an error leaves
-- everything as it is, and to remove is an error only if nothing is there.
abbrev pub Answers : Change → Option Errno → Knotes → Knotes → Type 0
Answers (ev_add fd f) none old new = Becomes fd f true old new
Answers (ev_add fd f) (some x) old new =
    if is_interrupt x then Perhaps fd f true old new else Same old new
Answers (ev_delete fd f) none old new = Becomes fd f false old new
Answers (ev_delete fd f) (some x) old new =
    if is_interrupt x then Perhaps fd f false old new else (old fd f ≡ false) × Same old new

abbrev pub interrupted : Option Errno → Bool
interrupted none = false
interrupted (some x) = is_interrupt x

-- A kernel: `kevent`, the filters registered in each queue, and the number of interrupts that may
-- still come, which are finitely many.
pub record Kqueue (K : Type 0) : Type 0 where
  pub kevent : ℕ → Change → K → Option Errno × K
  pub knotes : ℕ → K → Knotes
  pub interrupts : K → ℕ
  pub answers :
      (kq : ℕ) (change : Change) (k : K)
      → let (e, k') = kevent kq change k in Answers change e (knotes kq k) (knotes kq k')
  pub interrupts_end :
      (kq : ℕ) (change : Change) (k : K)
      → let (e, k') = kevent kq change k in
        if interrupted e then (interrupts k' < interrupts k) else (interrupts k' ≡ interrupts k)
