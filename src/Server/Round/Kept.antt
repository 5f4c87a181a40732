-- ===== src/Server/Round/Kept.antt =====
-- A round over the connections ends, and keeps the table.
use php_websocket.Base.{
  ℕ, suc, ◌≡◌, refl, ap, true, false, not, ◌&&◌, Option, none, some, List, [], ◌∷◌, All, length,
  ltb, Bool-cases, inl, inr, arith,
}
use php_websocket.Protocol.Mask.{Endian}
use php_websocket.Connection.State.{Net, Conn}
use php_websocket.Server.Messages.{Message, Session, Answer}
use php_websocket.Server.Messages.Steady.{Steady}
use php_websocket.Server.Messages.Delivered.{IsDelivered, Gathers, Gathers-Steady}
use php_websocket.Server.Messages.Loop.{Proper, Ends, process_buffered_frames-Ends}
use php_websocket.Server.Reads.{Recv}
use php_websocket.Server.Reads.Laws.{process_frame_reads-Ends}
use php_websocket.Server.Timers.{Options}
use php_websocket.Server.Handshake.{App, process_handshake}
use php_websocket.Server.Handshake.Ends.{AppUsesMethods, process_handshake-Ends}
use php_websocket.Server.Round.{
  Prepared, stops, goes, prepare, Visit, script_of, read_ready, visit_ready, read_buffered,
  then_buffered, read_any, visit_any, Passed, keep, put_back, has_fd, process_connection_fd,
  and_others, process_connections,
}
use php_websocket.Server.Round.Steady.{SteadyPrepared, prepare-Steady}

abbrev pub Delivers : ℕ → List Message → Type 0
Delivers max log = All (IsDelivered max) log

-- A visit ends with a result, and leaves proper messages and fragments.
abbrev pub IsVisit : ℕ → Visit → Type 0
IsVisit max visit =
    (c : Conn) (net : Net) (log : List Message)
    → Gathers max c
    → Delivers max log
    → Ends max (visit c net log)

module _ (e : Endian) (app : App) (o : Options) (m : AppUsesMethods app) where
  abbrev Done : Option Answer → Type 0
  Done r = Ends app.max_message_size r

  handshake-Done :
      (s : Session) (script : List Recv)
      → s.conn.open_state ≡ true
      → s.conn.upgraded ≡ false
      → Proper app.max_message_size s
      → Done (process_handshake e app s script)
  handshake-Done s script o' v p = process_handshake-Ends e app m s script (o', v) p

  buffered-Done : (s : Session) → Proper app.max_message_size s → Done (read_buffered e app s)
  buffered-Done s p = elim (Bool-cases (s.conn.upgraded && ltb 0 (length s.conn.read_buffer))) [
    | inr t ↦ rw t p
    | inl t ↦ rw t (
        process_buffered_frames-Ends (suc (length s.conn.read_buffer)) e app.max_message_size
          app.on_message s m.0 p (omega arith))
  ]

  then_buffered-Done : (r : Option Answer) → Done r → Done (then_buffered e app r)
  then_buffered-Done none d = d
  then_buffered-Done (some (false, s)) d = d
  then_buffered-Done (some (true, s)) d = buffered-Done s d

  module _ (reads : ℕ → List Recv) (log : List Message) where
    -- What is done with a prepared connection.
    prepared-Proper :
        (c d : Conn) (net : Net)
        → Gathers app.max_message_size c
        → Delivers app.max_message_size log
        → Steady c d
        → Proper app.max_message_size (record { conn = d; net = net; log = log })
    prepared-Proper c d net g l s = (l, Gathers-Steady app.max_message_size c d s g)

    read_ready-Done :
        (c : Conn) (r : Prepared)
        → Gathers app.max_message_size c
        → Delivers app.max_message_size log
        → SteadyPrepared c r
        → Done (read_ready e app reads log r)
    read_ready-Done c (stops (ok', d, net)) g l s = prepared-Proper c d net g l s
    read_ready-Done c (goes d net) g l (s, o') =
        let p = prepared-Proper c d net g l s in
        elim (Bool-cases (not d.upgraded)) [
          | inl t ↦ rw t (handshake-Done _ (script_of reads d.fd) o' (ground (arith, t)) p)
          | inr t ↦ rw t (
              process_frame_reads-Ends e app.max_message_size app.on_message m.0
                (record { conn = d; net = net; log = log }) (script_of reads d.fd) p)
        ]

    read_any-Done :
        (c : Conn) (r : Prepared)
        → Gathers app.max_message_size c
        → Delivers app.max_message_size log
        → SteadyPrepared c r
        → Done (read_any e app reads log r)
    read_any-Done c (stops (ok', d, net)) g l s = prepared-Proper c d net g l s
    read_any-Done c (goes d net) g l (s, o') =
        let session : Session = record { conn = d; net = net; log = log } in
        let p = prepared-Proper c d net g l s in
        elim (Bool-cases (not d.upgraded)) [
          | inl t ↦ rw t (
              then_buffered-Done _
                (handshake-Done session (script_of reads d.fd) o' (ground (arith, t)) p))
          | inr t ↦ rw t (buffered-Done session p)
        ]

  pub visit_ready-IsVisit :
      (now : ℕ) (reads : ℕ → List Recv)
      → IsVisit app.max_message_size (visit_ready e app o now reads)
  unfolding visit_ready
  visit_ready-IsVisit now reads c net log g l =
      read_ready-Done reads log c (prepare e o c net now) g l (prepare-Steady e o c net now)

  pub visit_any-IsVisit :
      (now : ℕ) (reads : ℕ → List Recv) → IsVisit app.max_message_size (visit_any e app o now reads)
  unfolding visit_any
  visit_any-IsVisit now reads c net log g l =
      read_any-Done reads log c (prepare e o c net now) g l (prepare-Steady e o c net now)

-- A pass over the table ends with a result, leaves as many connections as there were, and proper
-- messages and fragments.
abbrev pub PassKeeps : ℕ → ℕ → Passed → Type 0
PassKeeps max n none = ⊥
PassKeeps max n (some (ok', connections, net, log)) =
    (length connections ≡ n) × All (Gathers max) connections × Delivers max log

module _ (max : ℕ) where
  keep-PassKeeps :
      (n : ℕ) (c : Conn) (r : Passed)
      → Gathers max c
      → PassKeeps max n r
      → PassKeeps max (suc n) (keep c r)
  keep-PassKeeps n c none g p = p
  keep-PassKeeps n c (some (ok', connections, net, log)) g p = (ap suc p.0, (g, p.1), p.2)

  put_back-PassKeeps :
      (rest : List Conn) (r : Option Answer)
      → All (Gathers max) rest
      → Ends max r
      → PassKeeps max (suc (length rest)) (put_back rest r)
  put_back-PassKeeps rest none g p = p
  put_back-PassKeeps rest (some (ok', s)) g p = (refl, (p.1, g), p.0)

  and_others-PassKeeps :
      (rest : List Conn) (next : Net → List Message → Passed) (r : Option Answer)
      → All (Gathers max) rest
      → Ends max r
      → ((net : Net) (log : List Message)
          → Delivers max log
          → PassKeeps max (length rest) (next net log))
      → PassKeeps max (suc (length rest)) (and_others rest next r)
  and_others-PassKeeps rest next none g p h = p
  and_others-PassKeeps rest next (some (false, s)) g p h = (refl, (p.1, g), p.0)
  and_others-PassKeeps rest next (some (true, s)) g p h =
      keep-PassKeeps (length rest) s.conn (next s.net s.log) p.1 (h s.net s.log p.0)

  module _ (visit : Visit) (v : IsVisit max visit) where
    pub process_connection_fd-PassKeeps :
        (fd : ℕ) (connections : List Conn) (net : Net) (log : List Message)
        → All (Gathers max) connections
        → Delivers max log
        → PassKeeps max (length connections) (process_connection_fd visit fd connections net log)
    unfolding process_connection_fd
    process_connection_fd-PassKeeps fd [] net log g l = (refl, tt, l)
    process_connection_fd-PassKeeps fd (c ∷ rest) net log g l =
        elim (Bool-cases (not (has_fd c.fd fd))) [
          | inl t ↦ rw t (
              keep-PassKeeps (length rest) c _ g.0
                (process_connection_fd-PassKeeps fd rest net log g.1 l))
          | inr t ↦ rw t (put_back-PassKeeps rest (visit c net log) g.1 (v c net log g.0 l))
        ]

    pub process_connections-PassKeeps :
        (connections : List Conn) (net : Net) (log : List Message)
        → All (Gathers max) connections
        → Delivers max log
        → PassKeeps max (length connections) (process_connections visit connections net log)
    unfolding process_connections
    process_connections-PassKeeps [] net log g l = (refl, tt, l)
    process_connections-PassKeeps (c ∷ rest) net log g l =
        and_others-PassKeeps rest (process_connections visit rest) (visit c net log) g.1
          (v c net log g.0 l) (λ n' l' d. process_connections-PassKeeps rest n' l' g.1 d)
