-- ===== src/Drivers/Choice.antt =====
-- websocket.c: the choice of the event driver, and `WebSocket\Server::getDriver`.
use php_websocket.Base.{
  ◌≡◌, refl, Bool, true, ◌&&◌, Option, none, some, [], ◌∷◌, Bytes, if◌then◌else◌, is_some,
  Bool-cases, inl, inr,
}

pub data Driver : Type 0 where
  epoll kqueue poll select : Driver

-- The `name` of a driver's table.
abbrev pub name : Driver → Bytes
name epoll = 101 ∷ 112 ∷ 111 ∷ 108 ∷ 108 ∷ []
name kqueue = 107 ∷ 113 ∷ 117 ∷ 101 ∷ 117 ∷ 101 ∷ []
name poll = 112 ∷ 111 ∷ 108 ∷ 108 ∷ []
name select = 115 ∷ 101 ∷ 108 ∷ 101 ∷ 99 ∷ 116 ∷ []

-- The drivers of which the build has HAVE_WEBSOCKET_EPOLL, HAVE_WEBSOCKET_KQUEUE and
-- HAVE_WEBSOCKET_POLL.
abbrev pub Build : Type 0
Build = Driver → Bool

-- A driver that is compiled in, if its `init` succeeds; otherwise the next.
abbrev pub or_next : Build → (Driver → Bool) → Driver → Option Driver → Option Driver
or_next build init d next = if build d && init d then some d else next

-- `websocket_select_best_driver`
unfoldable pub select_best_driver : Build → (Driver → Bool) → Option Driver
select_best_driver build init = or_next build init epoll (
    or_next build init kqueue (or_next build init poll (if init select then some select else none)))

-- `websocket_best_driver_name`
unfoldable pub best_driver_name : Build → Driver
best_driver_name build =
    if build epoll
    then epoll
    else if build kqueue
    then kqueue
    else if build poll
    then poll
    else select

-- `WebSocket\Server::getDriver`, for the driver chosen by a `run`, if there was one.
unfoldable pub get_driver : Build → Option Driver → Bytes
get_driver build none = name (best_driver_name build)
get_driver build (some d) = name d

or_next-is_some :
    (build : Build) (init : Driver → Bool) (d : Driver) (next : Option Driver)
    → is_some next ≡ true
    → is_some (or_next build init d next) ≡ true
or_next-is_some build init d next h = elim (Bool-cases (build d && init d)) [
  | inl t ↦ rw t refl
  | inr t ↦ rw t h
]

-- Since the `init` of the select driver succeeds, a driver is always chosen.
chosen_is_some :
    (build : Build) (init : Driver → Bool)
    → init select ≡ true
    → is_some (select_best_driver build init) ≡ true
unfolding select_best_driver
chosen_is_some build init h =
    let last = (if init select then some select else none) in
    let found : is_some last ≡ true = rw h refl in
    let poll_next = or_next build init poll last in
    let kqueue_next = or_next build init kqueue poll_next in
    or_next-is_some build init epoll kqueue_next
      (or_next-is_some build init kqueue poll_next (or_next-is_some build init poll last found))

-- What `getDriver` names in front of a run is what the run chooses, if that driver's `init`
-- succeeds.
best_is_chosen :
    (build : Build) (init : Driver → Bool)
    → init (best_driver_name build) ≡ true
    → select_best_driver build init ≡ some (best_driver_name build)
unfolding select_best_driver best_driver_name
best_is_chosen build init h = elim (Bool-cases (build epoll)) [
  | inl a ↦ let i = rw a at h in rw (a, i) refl
  | inr a ↦ elim (Bool-cases (build kqueue)) [
    | inl b ↦ let i = rw (a, b) at h in rw (a, b, i) refl
    | inr b ↦ elim (Bool-cases (build poll)) [
      | inl c ↦ let i = rw (a, b, c) at h in rw (a, b, c, i) refl
      | inr c ↦ let i = rw (a, b, c) at h in rw (a, b, c, i) refl
    ]
  ]
]
