-- ===== src/Server/Loop/Ended.antt =====
-- What `websocket_server_runtime_close` leaves.
use php_websocket.Base.{
  ℕ, ◌≡◌, refl, ap, sym, subst, ◌∙◌, Bool, true, false, not, ◌&&◌, Option, none, some, List, [],
  ◌∷◌, ◌++◌, append_assoc, append-nil, Bool-cases, inl, inr,
}
use php_websocket.Connection.State.{
  Net, Conn, Call, unwatch, closed, tell, clear_write_queue, close_socket,
}
use php_websocket.Server.Connections.{
  CloseHandler, Closed, notify_if, close_connection, Purged, if_closed,
}
use php_websocket.Server.Accept.{Runtime}
use php_websocket.Server.Loop.{close_each, last_first, close_listener, close_rest, runtime_close}

-- The close handler keeps the descriptor, and watches and closes nothing.
abbrev pub IsQuiet : CloseHandler → Type 0
IsQuiet none = Unit
IsQuiet (some handler) =
    (c : Conn) (net : Net) → ((handler c net).1.fd ≡ c.fd) × ((handler c net).2.calls ≡ net.calls)

-- What the driver and the system are told of a connection that is closed.
abbrev pub closings : Option ℕ → List Call
closings none = []
closings (some fd) = unwatch fd ∷ unwatch fd ∷ closed fd ∷ []

abbrev pub all_closings : List Conn → List Call
all_closings [] = []
all_closings (c ∷ rest) = closings c.fd ++ all_closings rest

abbrev pub listener_closings : Option ℕ → List Call
listener_closings none = []
listener_closings (some fd) = unwatch fd ∷ closed fd ∷ []

tell_twice :
    (fd : Option ℕ) (net : Net)
    → (tell (tell net fd unwatch) fd closed).calls ≡ net.calls ++ listener_closings fd
tell_twice none net = sym (append-nil net.calls)
tell_twice (some fd) net = append_assoc net.calls (unwatch fd ∷ []) (closed fd ∷ [])

close_socket-calls :
    (c : Conn) (net : Net) → (close_socket c net).1.calls ≡ net.calls ++ listener_closings c.fd
unfolding close_socket clear_write_queue
close_socket-calls c net = elim (Bool-cases c.write_watched) [
  | inl t ↦ rw t (tell_twice c.fd net)
  | inr t ↦ rw t (tell_twice c.fd net)
]

closed_by :
    (fd : Option ℕ) (net net' : Net) (c : Conn)
    → c.fd ≡ fd
    → net'.calls ≡ (tell net fd unwatch).calls
    → (close_socket c net').1.calls ≡ net.calls ++ closings fd
closed_by none net net' c e k =
    close_socket-calls c net' ∙ ap (λ o. net'.calls ++ listener_closings o) e ∙ ap (λ l. l ++ []) k
closed_by (some fd) net net' c e k =
    close_socket-calls c net'
    ∙ ap (λ o. net'.calls ++ listener_closings o) e
    ∙ ap (λ l. l ++ listener_closings (some fd)) k
    ∙ append_assoc net.calls (unwatch fd ∷ []) (unwatch fd ∷ closed fd ∷ [])

notify_if-calls :
    (handler : CloseHandler) (due : Bool) (c : Conn) (net : Net) (log : List ℕ)
    → IsQuiet handler
    → (notify_if handler due c (tell net c.fd unwatch) log).1.calls ≡ net.calls ++ closings c.fd
notify_if-calls none due c net log q = closed_by c.fd net (tell net c.fd unwatch) c refl refl
notify_if-calls (some handler) false c net log q =
    closed_by c.fd net (tell net c.fd unwatch) c refl refl
notify_if-calls (some handler) true c net log q =
    let r = handler (record c { close_notified = true }) (tell net c.fd unwatch) in
    let quiet = q (record c { close_notified = true }) (tell net c.fd unwatch) in
    closed_by c.fd net r.2 r.1 quiet.0 quiet.1

close_connection-calls :
    (handler : CloseHandler) (notify : Bool) (c : Conn) (net : Net) (log : List ℕ)
    → IsQuiet handler
    → (close_connection handler notify c net log).1.calls ≡ net.calls ++ closings c.fd
unfolding close_connection
close_connection-calls handler notify c net log q =
    notify_if-calls handler (notify && c.upgraded && not c.close_notified)
      (record c { open_state = false }) net log q

-- What a try to close them all leaves: those that are left are still to be closed.
abbrev IsClosing : List Call → Purged → Type 0
IsClosing calls (ok', left, net, closes) =
    (net.calls ++ all_closings left ≡ calls) × (ok' ≡ true → left ≡ [])

if_closed-Closing :
    (calls : List Call) (left : List Conn) (r : Closed) (next : Net → List ℕ → Purged)
    → r.1.calls ++ all_closings left ≡ calls
    → ((log : List ℕ) → IsClosing calls (next r.1 log))
    → IsClosing calls (if_closed left r next)
if_closed-Closing calls left (true, net, log) next e h = h log
if_closed-Closing calls left (false, net, log) next e h = (e, λ k. absurd (cc))

close_each-Closing :
    (handler : CloseHandler) (notify : Bool) (connections : List Conn) (net : Net) (closes : List ℕ)
    → IsQuiet handler
    → IsClosing
        (net.calls ++ all_closings connections)
        (close_each handler notify connections net closes)
unfolding close_each
close_each-Closing handler notify [] net closes q = (refl, λ k. refl)
close_each-Closing handler notify (c ∷ rest) net closes q =
    let r = close_connection handler notify c net closes in
    let total = net.calls ++ (closings c.fd ++ all_closings rest) in
    let e : r.1.calls ++ all_closings rest ≡ total =
      ap (λ l. l ++ all_closings rest) (close_connection-calls handler notify c net closes q)
      ∙ append_assoc net.calls (closings c.fd) (all_closings rest) in
    if_closed-Closing total rest r (close_each handler notify rest) e (λ log.
      subst (λ l. IsClosing l (close_each handler notify rest r.1 log)) e
        (close_each-Closing handler notify rest r.1 log q))

-- Without a call of the handler, closing goes through.
notify_if-silent :
    (handler : CloseHandler) (c : Conn) (net : Net) (log : List ℕ)
    → (notify_if handler false c net log).0 ≡ true
notify_if-silent none c net log = refl
notify_if-silent (some handler) c net log = refl

if_closed-Done :
    (left : List Conn) (r : Closed) (next : Net → List ℕ → Purged)
    → r.0 ≡ true
    → ((net : Net) (log : List ℕ) → (next net log).0 ≡ true)
    → (if_closed left r next).0 ≡ true
if_closed-Done left (true, net, log) next e h = h net log
if_closed-Done left (false, net, log) next e h = absurd (cc)

close_each-silent :
    (handler : CloseHandler) (connections : List Conn) (net : Net) (closes : List ℕ)
    → (close_each handler false connections net closes).0 ≡ true
unfolding close_each close_connection
close_each-silent handler [] net closes = refl
close_each-silent handler (c ∷ rest) net closes =
    if_closed-Done rest (close_connection handler false c net closes)
      (close_each handler false rest)
      (notify_if-silent handler (record c { open_state = false }) (tell net c.fd unwatch) closes)
      (close_each-silent handler rest)

-- Both tries together.
abbrev IsOver : List Call → Purged → Type 0
IsOver calls (ok', left, net, closes) = (left ≡ []) × (net.calls ≡ calls)

over :
    (calls : List Call) (left : List Conn) (net : Net)
    → left ≡ []
    → net.calls ++ all_closings left ≡ calls
    → net.calls ≡ calls
over calls left net e k =
    sym (append-nil net.calls) ∙ ap (λ l. net.calls ++ all_closings l) (sym e) ∙ k

close_rest-Over :
    (handler : CloseHandler) (calls : List Call) (r : Purged)
    → IsQuiet handler
    → IsClosing calls r
    → IsOver calls (close_rest handler r)
close_rest-Over handler calls (true, left, net, closes) q c =
    let empty = c.1 refl in (empty, over calls left net empty c.0)
close_rest-Over handler calls (false, left, net, closes) q c =
    let second = close_each handler false left net closes in
    let p = close_each-Closing handler false left net closes q in
    let empty = p.1 (close_each-silent handler left net closes) in
    (empty, over _ second.1 second.2 empty p.0 ∙ c.0)

close_listener-calls :
    (st : Runtime) → (close_listener st).calls ≡ st.net.calls ++ listener_closings st.listener_fd
close_listener-calls st = tell_twice st.listener_fd st.net

-- If the close handler watches and closes nothing itself, `websocket_server_runtime_close` leaves
-- no listener and no connection, whether the handler throws or not; the listener's descriptor has
-- been unwatched and closed first, and then, from the last connection to the first, each descriptor
-- that a connection has has been unwatched, unwatched again by the end of its socket, and closed
-- once.
pub runtime_close-closes :
    (handler : CloseHandler) (notify : Bool) (st : Runtime)
    → IsQuiet handler
    → let st' = runtime_close handler notify st in
      (st'.connections ≡ [])
      × (st'.listener_fd ≡ none)
      × (st'.net.calls
          ≡ st.net.calls
            ++ (listener_closings st.listener_fd ++ all_closings (last_first st.connections)))
unfolding runtime_close
runtime_close-closes handler notify st q =
    let first =
      close_each handler notify (last_first st.connections) (close_listener st) st.closes in
    let o = close_rest-Over handler _ first q (
      close_each-Closing handler notify (last_first st.connections) (close_listener st) st.closes
        q) in
    (
      ap last_first o.0,
      refl,
      o.1
          ∙ ap (λ l. l ++ all_closings (last_first st.connections)) (close_listener-calls st)
          ∙ append_assoc st.net.calls (listener_closings st.listener_fd)
              (all_closings (last_first st.connections)),
    )
