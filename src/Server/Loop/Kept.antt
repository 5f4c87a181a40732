-- ===== src/Server/Loop/Kept.antt =====
-- The loop keeps the table within its bounds, and every run of it ends.
use php_websocket.Base.{
  ℕ, suc, ◌+◌, ◌≤◌, refl, sym, subst, Bool, true, false, Option, none, some, List, [], ◌∷◌, ◌++◌,
  All, length, length-append, if◌then◌else◌, Bool-cases, inl, inr, arith,
}
use php_websocket.Connection.State.{Net, Conn}
use php_websocket.Connection.Queue.{is_interrupt}
use php_websocket.Drivers.Poll.{Waited, wait_failed, timed_out, ready}
use php_websocket.Server.Messages.{or_empty}
use php_websocket.Server.Messages.Delivered.{Gathers}
use php_websocket.Server.Connections.{
  CloseHandler, Closed, close_connection, Purged, if_closed, purge_from, purge_closed_connections,
}
use php_websocket.Server.Handshake.Ends.{AppUsesMethods}
use php_websocket.Server.Accept.{Runtime, Limits, AcceptAnswer, accept_pending}
use php_websocket.Server.Accept.Bounded.{IsTable, IsFresh, accept_pending-Keeps}
use php_websocket.Server.Round.{Passed, has_fd}
use php_websocket.Server.Round.Kept.{
  Delivers, PassKeeps, visit_ready-IsVisit, visit_any-IsVisit, process_connection_fd-PassKeeps,
  process_connections-PassKeeps,
}
use php_websocket.Server.Loop.{
  Config, Turn, Turned, with_pass, if_turned, serve_ready, with_purge, purge_turn, serve_all,
  on_waited, turn, on_turned, run_loop,
}

-- A purge leaves some of the connections.
abbrev Within : (Conn → Type 0) → ℕ → Purged → Type 0
Within P n (ok', connections, net, closes) = (length connections ≤ n) × All P connections

All-append : (P : Conn → Type 0) (xs ys : List Conn) → All P xs → All P ys → All P (xs ++ ys)
All-append P [] ys p q = q
All-append P (x ∷ xs) ys p q = (p.0, All-append P xs ys p.1 q)

if_closed-Within :
    (P : Conn → Type 0) (n : ℕ) (left : List Conn) (r : Closed) (next : Net → List ℕ → Purged)
    → length left ≤ n
    → All P left
    → ((net : Net) (log : List ℕ) → Within P n (next net log))
    → Within P n (if_closed left r next)
if_closed-Within P n left (true, net, log) next l p h = h net log
if_closed-Within P n left (false, net, log) next l p h = (l, p)

if_Within :
    (P : Conn → Type 0) (n : ℕ) (test : Bool) (a b : Purged)
    → Within P n a
    → Within P n b
    → Within P n (if test then a else b)
if_Within P n true a b p q = p
if_Within P n false a b p q = q

Within-le : (P : Conn → Type 0) (m n : ℕ) (r : Purged) → m ≤ n → Within P m r → Within P n r
Within-le P m n (ok', connections, net, closes) h p = (omega (arith, h, p.0), p.1)

purge_from-Within :
    (P : Conn → Type 0) (handler : CloseHandler) (kept connections : List Conn) (net : Net)
    (log : List ℕ)
    → All P kept
    → All P connections
    → Within P (length kept + length connections) (purge_from handler kept connections net log)
unfolding purge_from
purge_from-Within P handler kept [] net log p q = (omega arith, p)
purge_from-Within P handler kept (c ∷ rest) net log p q =
    let n = length kept + suc (length rest) in
    let longer = length-append kept (c ∷ []) in
    if_Within P n c.open_state _ _
      (Within-le P (length (kept ++ (c ∷ [])) + length rest) n
        (purge_from handler (kept ++ (c ∷ [])) rest net log) (omega (arith, longer))
        (purge_from-Within P handler (kept ++ (c ∷ [])) rest net log
          (All-append P kept (c ∷ []) p (q.0, tt)) q.1))
      (if_closed-Within P n (kept ++ rest) (close_connection handler true c net log)
        (purge_from handler kept rest) (omega (arith, length-append kept rest))
        (All-append P kept rest p q.1)
        (λ n' l'.
          Within-le P (length kept + length rest) n (purge_from handler kept rest n' l')
            (omega arith) (purge_from-Within P handler kept rest n' l' p q.1)))

-- A fresh connection has gathered no fragments.
fresh-Gathers : (max : ℕ) (l : Limits) (st : Runtime) (c : Conn) → IsFresh l st c → Gathers max c
fresh-Gathers max l st c f = subst (λ o. length (or_empty o) ≤ max) (sym f.7) (omega arith)

-- The state of the server between two parts of a round: the table is within `maxConnections` and
-- within its array, every connection's fragments are within `max_message_size`, and so were all
-- messages delivered, of which the texts were valid UTF-8.
abbrev pub IsRuntime : Config → Runtime → Type 0
IsRuntime g st =
    IsTable g.limits st
    × All (Gathers g.app.max_message_size) st.connections
    × Delivers g.app.max_message_size st.log

abbrev TurnKeeps : Config → Turned → Type 0
TurnKeeps g none = ⊥
TurnKeeps g (some (ok', st)) = IsRuntime g st

module _ (g : Config) (m : AppUsesMethods g.app) where
  with_pass-Keeps :
      (st : Runtime) (r : Passed)
      → IsTable g.limits st
      → PassKeeps g.app.max_message_size (length st.connections) r
      → TurnKeeps g (with_pass st r)
  with_pass-Keeps st none t p = p
  with_pass-Keeps st (some (ok', connections, net, log)) t (n, a, d) =
      ((omega (arith, n, t.0), omega (arith, n, t.1)), a, d)

  if_turned-Keeps :
      (r : Turned) (next : Runtime → Turned)
      → TurnKeeps g r
      → ((st : Runtime) → IsRuntime g st → TurnKeeps g (next st))
      → TurnKeeps g (if_turned r next)
  if_turned-Keeps none next p h = p
  if_turned-Keeps (some (false, st)) next p h = p
  if_turned-Keeps (some (true, st)) next p h = h st p

  with_purge-Keeps :
      (st : Runtime) (r : Purged)
      → IsRuntime g st
      → Within (Gathers g.app.max_message_size) (length st.connections) r
      → TurnKeeps g (with_purge st r)
  with_purge-Keeps st (ok', connections, net, closes) p w =
      ((omega (arith, w.0, p.0), omega (arith, w.0, p.0)), w.1, p.2)

  purge_turn-Keeps : (st : Runtime) → IsRuntime g st → TurnKeeps g (purge_turn g st)
  unfolding purge_turn purge_closed_connections
  purge_turn-Keeps st p =
      with_purge-Keeps st (purge_from g.app.on_close [] st.connections st.net st.closes) p (
        Within-le (Gathers g.app.max_message_size) (0 + length st.connections)
          (length st.connections) (purge_from g.app.on_close [] st.connections st.net st.closes)
          (omega arith)
          (purge_from-Within (Gathers g.app.max_message_size) g.app.on_close [] st.connections
            st.net st.closes tt p.1))

  serve_all-Keeps : (t : Turn) (st : Runtime) → IsRuntime g st → TurnKeeps g (serve_all g t st)
  unfolding serve_all
  serve_all-Keeps t st p =
      if_turned-Keeps _ (purge_turn g)
        (with_pass-Keeps st _ p.0 (
          process_connections-PassKeeps g.app.max_message_size _
            (visit_any-IsVisit g.endian g.app g.options m t.all_usec t.all_reads) st.connections
            st.net st.log p.1 p.2))
        purge_turn-Keeps

  accepting-Keeps :
      (st : Runtime) (answers : List AcceptAnswer)
      → IsRuntime g st
      → TurnKeeps g (some (accept_pending g.limits st answers))
  accepting-Keeps st answers (t, a, d) =
      let max = g.app.max_message_size in
      let kept =
        accept_pending-Keeps g.limits (Gathers max) (fresh-Gathers max g.limits) st.log st answers
          (t, a, refl) in
      (kept.0, kept.1, subst (Delivers max) (sym kept.2) d)

  serve_ready-Keeps :
      (t : Turn) (st : Runtime) (fd : ℕ) → IsRuntime g st → TurnKeeps g (serve_ready g t st fd)
  unfolding serve_ready
  serve_ready-Keeps t st fd p = elim (Bool-cases (has_fd st.listener_fd fd)) [
    | inr e ↦ rw e (
        with_pass-Keeps st _ p.0 (
          process_connection_fd-PassKeeps g.app.max_message_size _
            (visit_ready-IsVisit g.endian g.app g.options m t.ready_usec t.ready_reads) fd
            st.connections st.net st.log p.1 p.2))
    | inl e ↦ rw e (accepting-Keeps st t.accepts p)
  ]

  on_waited-Keeps :
      (t : Turn) (st : Runtime) (w : Waited) → IsRuntime g st → TurnKeeps g (on_waited g t st w)
  on_waited-Keeps t st (wait_failed x) p = elim (Bool-cases (is_interrupt x)) [
    | inl i ↦ rw i p
    | inr i ↦ rw i p
  ]
  on_waited-Keeps t st timed_out p = serve_all-Keeps t st p
  on_waited-Keeps t st (ready n none) p = serve_all-Keeps t st p
  on_waited-Keeps t st (ready n (some fd)) p =
      if_turned-Keeps (serve_ready g t st fd) (serve_all g t) (serve_ready-Keeps t st fd p)
        (serve_all-Keeps t)

  abbrev pub EndsIn : Option Runtime → Type 0
  EndsIn none = ⊥
  EndsIn (some st) = IsRuntime g st

  if_Ends :
      (test : Bool) (a b : Option Runtime) → EndsIn a → EndsIn b → EndsIn (if test then a else b)
  if_Ends true a b p q = p
  if_Ends false a b p q = q

  on_turned-Ends :
      (next : Runtime → Option Runtime) (r : Turned)
      → TurnKeeps g r
      → ((st : Runtime) → IsRuntime g st → EndsIn (next st))
      → EndsIn (on_turned next r)
  on_turned-Ends next none p h = p
  on_turned-Ends next (some (false, st)) p h = p
  on_turned-Ends next (some (true, st)) p h = h st p

  -- If the application's handlers use the connection's methods only, then whatever comes from
  -- outside, every round of the server's loop ends with a result, and so does a run of any number
  -- of rounds; it never has more than `maxConnections` connections, nor more than its array has
  -- room for; every message delivered is within `maxMessageSize`, and texts are valid UTF-8.
  pub run_loop-Ends :
      (turns : List Turn) (st : Runtime) → IsRuntime g st → EndsIn (run_loop g turns st)
  unfolding run_loop turn
  run_loop-Ends [] st p = p
  run_loop-Ends (t ∷ rest) st p =
      if_Ends t.goes_on (on_turned (run_loop g rest) (turn g t st)) (some st)
        (on_turned-Ends (run_loop g rest) (turn g t st) (on_waited-Keeps t st t.waited p)
          (λ st' p'. run_loop-Ends rest st' p'))
        p
