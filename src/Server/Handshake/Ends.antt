-- ===== src/Server/Handshake/Ends.antt =====
-- The handshake ends, and leaves a session as the loop over the frames wants it.
use php_websocket.Base.{
  suc, ◌≤◌, ◌≡◌, refl, sym, subst, Bool, true, false, not, ◌&&◌, Option, none, some, List, Bytes,
  All, length, if◌then◌else◌, Bool-cases, inl, inr, arith,
}
use php_websocket.Protocol.Mask.{Endian}
use php_websocket.Connection.State.{Net, Conn}
use php_websocket.Server.Messages.{Message, Session, Answer, or_empty}
use php_websocket.Server.Messages.Steady.{Steady}
use php_websocket.Server.Messages.Delivered.{IsDelivered, Gathers, UsesMethods, Gathers-Steady}
use php_websocket.Server.Messages.Loop.{Proper, Ends, process_buffered_frames-Ends}
use php_websocket.Server.Reads.{Recv}
use php_websocket.Server.Connections.{CloseHandler}
use php_websocket.Server.Handshake.{
  OpenHandler, unset, taking, plain, App, Called, call_open_handler, open_with, behind_open,
  open_connection, notify_connection_closed, process_handshake,
}
use php_websocket.Server.Handshake.Branches.{
  Handshaken, waits, hangs_up, refuses, rejects, raises, breaks, upgrades, IsHandshaking, bytes_of,
  process_handshake-Handshaken,
}

-- The application's handlers use the connection's methods only.
abbrev pub OpensByMethods : OpenHandler → Type 0
OpensByMethods unset = Unit
OpensByMethods (taking handler) = (c : Conn) (net : Net) → Steady c (handler c net).2
OpensByMethods (plain ok' closes) = Unit

abbrev pub ClosesByMethods : CloseHandler → Type 0
ClosesByMethods none = Unit
ClosesByMethods (some handler) = (c : Conn) (net : Net) → Steady c (handler c net).1

abbrev pub AppUsesMethods : App → Type 0
AppUsesMethods app =
    UsesMethods app.on_message × OpensByMethods app.on_open × ClosesByMethods app.on_close

open_with-Steady :
    (h : OpenHandler) (c : Conn) (net : Net) → OpensByMethods h → Steady c (open_with h c net).2
unfolding call_open_handler
open_with-Steady unset c net m = (refl, inl refl)
open_with-Steady (taking handler) c net m = m (record c { defer_close = true }) net
open_with-Steady (plain ok' closes) c net m = (refl, inl refl)

notify-Steady :
    (h : CloseHandler) (c : Conn) (net : Net)
    → ClosesByMethods h
    → Steady c (notify_connection_closed h c net).1
unfolding notify_connection_closed
notify-Steady none c net m = (refl, inl refl)
notify-Steady (some handler) c net m = elim (Bool-cases (c.upgraded && not c.close_notified)) [
  | inl t ↦ rw t (m (record c { close_notified = true }) net)
  | inr t ↦ rw t (refl, inl refl)
]

module _ (e : Endian) (app : App) (m : AppUsesMethods app) where
  abbrev Done : Option Answer → Type 0
  Done r = Ends app.max_message_size r

  if_Done : (test : Bool) (a b : Option Answer) → Done a → Done b → Done (if test then a else b)
  if_Done true a b p q = p
  if_Done false a b p q = q

  behind_open-Ends :
      (log : List Message) (r : Called)
      → Proper app.max_message_size (record { conn = r.2; net = r.3; log = log })
      → Done (behind_open e app log r)
  behind_open-Ends log (false, closes, c, net) p = p
  behind_open-Ends log (true, closes, c, net) p =
      let c' = record c { open_state = c.open_state && not closes } in
      let s : Session = record { conn = c'; net = net; log = log } in
      let told = notify-Steady app.on_close c' net m.2 in
      if_Done (c.open_state && not closes) _ _
        (process_buffered_frames-Ends (suc (length c.read_buffer)) e app.max_message_size
          app.on_message s m.0 p (omega arith))
        (
          p.0,
          Gathers-Steady app.max_message_size c' (notify_connection_closed app.on_close c' net).1
              told p.1,
        )

  open_connection-Ends :
      (c : Conn) (net : Net) (log : List Message)
      → Proper app.max_message_size (record { conn = c; net = net; log = log })
      → Done (open_connection e app c net log)
  unfolding open_connection
  open_connection-Ends c net log p = behind_open-Ends log (open_with app.on_open c net) (
    p.0,
    Gathers-Steady app.max_message_size c (open_with app.on_open c net).2
        (open_with-Steady app.on_open c net m.1) p.1,
  )

  -- The fragments of a connection are those of the one it was.
  same-Gathers :
      (c c' : Conn)
      → c'.fragmented_payload ≡ c.fragmented_payload
      → Gathers app.max_message_size c
      → Gathers app.max_message_size c'
  same-Gathers c c' f g = subst (λ o. length (or_empty o) ≤ app.max_message_size) (sym f) g

  done :
      (c : Conn) (net : Net) (log : List Message) (s : Session)
      → Proper app.max_message_size (record { conn = c; net = net; log = log })
      → s.conn.fragmented_payload ≡ c.fragmented_payload
      → s.log ≡ log
      → Proper app.max_message_size s
  done c net log s p f l =
      (subst (All (IsDelivered app.max_message_size)) (sym l) p.0, same-Gathers c s.conn f p.1)

  Handshaken-Ends :
      (c : Conn) (net : Net) (log : List Message) (coming : Bytes) (r : Option Answer)
      → Proper app.max_message_size (record { conn = c; net = net; log = log })
      → Handshaken e app c net log coming r
      → Done r
  Handshaken-Ends c net log coming _ p (waits {s = s} more q n (o, u, t, g) w l) =
      done c net log s p g l
  Handshaken-Ends c net log coming _ p (hangs_up {s = s} more q n (o, u, g) w l) =
      done c net log s p g l
  Handshaken-Ends c net log coming _ p (refuses {s = s} more whole q n (o, u, g) w l) =
      done c net log s p g l
  Handshaken-Ends c net log coming _ p (rejects {s = s} more whole u' a' q n a (o, u, g) w l) =
      done c net log s p g l
  Handshaken-Ends c net log coming _ p (raises {s = s} more u q n a o g w l) =
      done c net log s p g l
  Handshaken-Ends c net log coming _ p (breaks {s = s} more u' q n a (o, u, g) w l) =
      done c net log s p g l
  Handshaken-Ends c net log coming r p (upgrades more u c' net' q n a (o, v, k, t, g) w l) =
      subst Done (sym l) (open_connection-Ends c' net' log (p.0, same-Gathers c c' g p.1))

  -- If the application's handlers use the connection's methods only, the handshake on a connection
  -- that is open and not upgraded ends with a result on every script of reads, the frames behind
  -- the request included; every message that the handler has been called with is within
  -- `max_message_size`, a text message is valid UTF-8, and the fragments kept are within the limit.
  pub process_handshake-Ends :
      (s : Session) (script : List Recv)
      → IsHandshaking s.conn
      → Proper app.max_message_size s
      → Ends app.max_message_size (process_handshake e app s script)
  process_handshake-Ends s script i p =
      Handshaken-Ends s.conn s.net s.log (bytes_of script) (process_handshake e app s script) p
        (process_handshake-Handshaken e app s script i)
