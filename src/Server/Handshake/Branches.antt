-- ===== src/Server/Handshake/Branches.antt =====
-- Every way in which a handshake goes.
use php_websocket.Base.{
  ℕ, suc, ◌+◌, ◌-◌, ◌<◌, ◌≡◌, refl, ap, sym, subst, ◌∙◌, Bool, true, false, not, ◌||◌, Option, none,
  some, List, [], ◌∷◌, ◌++◌, append_assoc, append-nil, Bytes, length, length-append, drop, drop-all,
  ltb, leb, Bool-cases, ◌⊎◌, inl, inr, arith,
}
use php_websocket.Protocol.Mask.{Endian}
use php_websocket.Connection.State.{Net, Conn}
use php_websocket.Connection.Queue.{is_again, is_interrupt}
use php_websocket.Http.Upgrade.{
  Upgrade, UpgradeResult, upgrade_ok, incomplete, invalid, max_request_size, upgrade_response,
}
use php_websocket.Server.Answers.Texts.{bad_request_response}
use php_websocket.Server.Answers.{Response}
use php_websocket.Server.Answers.Sent.{IsSentPart, send_bytes-IsSentPart}
use php_websocket.Server.Messages.{Message, Session, Answer, or_empty, discard_read_bytes}
use php_websocket.Server.Reads.{ensure_read_capacity, Recv, received, ended, refused, shut}
use php_websocket.Server.Handshake.{
  HandshakeAnswer, returned, returned_value, threw, rejected, App, parse, create_request, consult,
  rejection, handle_handshake_exception, on_answer, call_handshake_handler, open_connection,
  upgraded_conn, after_response, finish_upgrade, refuse, on_called, on_result, take_request,
  is_handshaking, process_handshake,
}

-- The bytes that a script brings.
abbrev pub bytes_of : List Recv → Bytes
bytes_of [] = []
bytes_of (received b bs now ∷ rest) = (b ∷ bs) ++ bytes_of rest
bytes_of (ended ∷ rest) = bytes_of rest
bytes_of (refused x ∷ rest) = bytes_of rest

-- Of the bytes to come, `more` are the first.
abbrev pub Brings : Bytes → Bytes → Type 0
Brings coming more = (rest : Bytes) × (coming ≡ more ++ rest)

-- No request yet: nothing has come, or what has come is not all of one.
abbrev pub NoRequest : App → Bytes → Bytes → Type 0
NoRequest app buffer more = (more ≡ []) ⊎ (parse app (buffer ++ more) ≡ incomplete)

-- The connection is closed and was not upgraded.
abbrev pub IsShut : Conn → Session → Type 0
IsShut c s =
    (s.conn.open_state ≡ false)
    × (s.conn.upgraded ≡ false)
    × (s.conn.fragmented_payload ≡ c.fragmented_payload)

-- The upgraded connection that the open handler is called with: the bytes behind the request are
-- in the read buffer.
abbrev pub IsUpgraded : Conn → Upgrade → Bytes → Conn → Type 0
IsUpgraded c u buffer c' =
    (c'.open_state ≡ true)
    × (c'.upgraded ≡ true)
    × (c'.selected_subprotocol ≡ u.selected_subprotocol)
    × (c'.read_buffer ≡ drop u.bytes_consumed buffer)
    × (c'.fragmented_payload ≡ c.fragmented_payload)

abbrev pub answer_of : App → Upgrade → HandshakeAnswer
answer_of app u = consult app.on_handshake (create_request u)

abbrev pub switching_to : Upgrade → Bytes
switching_to u = upgrade_response (or_empty u.accept_key) u.selected_subprotocol

-- What a run of the loop leaves, from the connection `c` that is open and not upgraded:
-- * `waits`: there is no request yet, and nothing has been written;
-- * `hangs_up`: the peer is gone before there was one;
-- * `refuses`: what has come is no valid request, or is too long, and is answered with 400;
-- * `rejects`: the application has thrown a HandshakeException, whose response is sent;
-- * `raises`: the application has thrown something else or returned a value;
-- * `breaks`: the response 101 could not be sent as a whole;
-- * `upgrades`: the request was valid and the application agreed, and behind the whole response
--   101 the open handler is called and the frames are read.
pub data Handshaken (e : Endian) (app : App) (c : Conn) (net : Net) (log : List Message)
    (coming : Bytes) : Option Answer → Type 0 where
  waits :
      {s : Session} (more : Bytes)
      → Brings coming more
      → NoRequest app c.read_buffer more
      → (s.conn.open_state ≡ true)
        × (s.conn.upgraded ≡ false)
        × (s.conn.read_buffer ≡ c.read_buffer ++ more)
        × (s.conn.fragmented_payload ≡ c.fragmented_payload)
      → s.net ≡ net
      → s.log ≡ log
      → Handshaken e app c net log coming (some (true, s))
  hangs_up :
      {s : Session} (more : Bytes)
      → Brings coming more
      → NoRequest app c.read_buffer more
      → IsShut c s
      → s.net ≡ net
      → s.log ≡ log
      → Handshaken e app c net log coming (some (true, s))
  refuses :
      {s : Session} (more : Bytes) (whole : Bool)
      → Brings coming more
      → (parse app (c.read_buffer ++ more) ≡ invalid)
        ⊎ (max_request_size < length (c.read_buffer ++ more))
      → IsShut c s
      → IsSentPart net.wire bad_request_response (whole, s.net)
      → s.log ≡ log
      → Handshaken e app c net log coming (some (true, s))
  rejects :
      {s : Session} (more : Bytes) (whole : Bool) (u : Upgrade) (answer : Option Response)
      → Brings coming more
      → parse app (c.read_buffer ++ more) ≡ upgrade_ok u
      → answer_of app u ≡ rejected answer
      → IsShut c s
      → IsSentPart net.wire (rejection answer) (whole, s.net)
      → s.log ≡ log
      → Handshaken e app c net log coming (some (true, s))
  raises :
      {s : Session} (more : Bytes) (u : Upgrade)
      → Brings coming more
      → parse app (c.read_buffer ++ more) ≡ upgrade_ok u
      → (answer_of app u ≡ threw) ⊎ (answer_of app u ≡ returned_value)
      → s.conn.upgraded ≡ false
      → s.conn.fragmented_payload ≡ c.fragmented_payload
      → s.net ≡ net
      → s.log ≡ log
      → Handshaken e app c net log coming (some (false, s))
  breaks :
      {s : Session} (more : Bytes) (u : Upgrade)
      → Brings coming more
      → parse app (c.read_buffer ++ more) ≡ upgrade_ok u
      → answer_of app u ≡ returned
      → IsShut c s
      → IsSentPart net.wire (switching_to u) (false, s.net)
      → s.log ≡ log
      → Handshaken e app c net log coming (some (true, s))
  upgrades :
      {r : Option Answer} (more : Bytes) (u : Upgrade) (c' : Conn) (net' : Net)
      → Brings coming more
      → parse app (c.read_buffer ++ more) ≡ upgrade_ok u
      → answer_of app u ≡ returned
      → IsUpgraded c u (c.read_buffer ++ more) c'
      → net'.wire ≡ net.wire ++ switching_to u
      → r ≡ open_connection e app c' net' log
      → Handshaken e app c net log coming r

-- What came before one more round.
module _ (e : Endian) (app : App) (c : Conn) (net : Net) (log : List Message) (chunk : Bytes)
    (c1 : Conn) (b : c1.read_buffer ≡ c.read_buffer ++ chunk)
    (f : c1.fragmented_payload ≡ c.fragmented_payload) (n : parse app c1.read_buffer ≡ incomplete)
    (coming coming1 : Bytes) (k : coming ≡ chunk ++ coming1) where
  same_buffer : (more : Bytes) → c1.read_buffer ++ more ≡ c.read_buffer ++ (chunk ++ more)
  same_buffer more = ap (λ x. x ++ more) b ∙ append_assoc c.read_buffer chunk more

  later-Brings : (more : Bytes) → Brings coming1 more → Brings coming (chunk ++ more)
  later-Brings more (rest, q) =
      (rest, k ∙ ap (λ x. chunk ++ x) q ∙ sym (append_assoc chunk more rest))

  later-parse :
      (more : Bytes) (r : UpgradeResult)
      → parse app (c1.read_buffer ++ more) ≡ r
      → parse app (c.read_buffer ++ (chunk ++ more)) ≡ r
  later-parse more r q = ap (parse app) (sym (same_buffer more)) ∙ q

  later-NoRequest :
      (more : Bytes)
      → NoRequest app c1.read_buffer more
      → NoRequest app c.read_buffer (chunk ++ more)
  later-NoRequest more (inr q) = inr (later-parse more incomplete q)
  later-NoRequest more (inl q) = inr (
      ap (λ x. parse app (c.read_buffer ++ (chunk ++ x))) q
      ∙ ap (λ x. parse app (c.read_buffer ++ x)) (append-nil chunk)
      ∙ ap (parse app) (sym b)
      ∙ n)

  later-IsShut : (s : Session) → IsShut c1 s → IsShut c s
  later-IsShut s (o, u, g) = (o, u, g ∙ f)

  later-Handshaken :
      (r : Option Answer)
      → Handshaken e app c1 net log coming1 r
      → Handshaken e app c net log coming r
  later-Handshaken _ (waits {s = s} more q m (o, u, t, g) w l) =
      waits (chunk ++ more) (later-Brings more q) (later-NoRequest more m)
        (o, u, t ∙ same_buffer more, g ∙ f) w l
  later-Handshaken _ (hangs_up {s = s} more q m h w l) =
      hangs_up (chunk ++ more) (later-Brings more q) (later-NoRequest more m) (later-IsShut s h) w l
  later-Handshaken _ (refuses {s = s} more whole q (inl m) h w l) =
      refuses (chunk ++ more) whole (later-Brings more q) (inl (later-parse more invalid m))
        (later-IsShut s h) w l
  later-Handshaken _ (refuses {s = s} more whole q (inr m) h w l) =
      refuses (chunk ++ more) whole (later-Brings more q)
        (inr (subst (λ x. max_request_size < length x) (same_buffer more) m)) (later-IsShut s h) w l
  later-Handshaken _ (rejects {s = s} more whole u answer q m a h w l) =
      rejects (chunk ++ more) whole u answer (later-Brings more q) (later-parse more _ m) a
        (later-IsShut s h) w l
  later-Handshaken _ (raises {s = s} more u q m a o g w l) =
      raises (chunk ++ more) u (later-Brings more q) (later-parse more _ m) a o (g ∙ f) w l
  later-Handshaken _ (breaks {s = s} more u q m a h w l) =
      breaks (chunk ++ more) u (later-Brings more q) (later-parse more _ m) a (later-IsShut s h) w l
  later-Handshaken r (upgrades more u c' net' q m a (o, v, p, t, g) w l) =
      upgrades (chunk ++ more) u c' net' (later-Brings more q) (later-parse more _ m) a
        (o, v, p, t ∙ ap (drop u.bytes_consumed) (same_buffer more), g ∙ f) w l

-- What is left of the read buffer behind the request.
upgraded_conn-IsUpgraded :
    (c : Conn) (u : Upgrade)
    → c.open_state ≡ true
    → IsUpgraded c u c.read_buffer (upgraded_conn c u)
unfolding discard_read_bytes
upgraded_conn-IsUpgraded c u o = elim (Bool-cases (leb (length c.read_buffer) u.bytes_consumed)) [
  | inl t ↦ rw t (o, refl, refl, sym (drop-all u.bytes_consumed c.read_buffer (ground arith)), refl)
  | inr t ↦ rw t (o, refl, refl, refl, refl)
]

-- A round in which the request is whole, in the read buffer of the session.
module _ (e : Endian) (app : App) (c : Conn) (s : Session) (coming more : Bytes)
    (q : Brings coming more) (b : s.conn.read_buffer ≡ c.read_buffer ++ more)
    (o : s.conn.open_state ≡ true) (v : s.conn.upgraded ≡ false)
    (f : s.conn.fragmented_payload ≡ c.fragmented_payload) where
  refused_now :
      (parse app (c.read_buffer ++ more) ≡ invalid)
        ⊎ (max_request_size < length (c.read_buffer ++ more))
      → Handshaken e app c s.net s.log coming (refuse s)
  refused_now m =
      refuses more _ q m (refl, v, f) (send_bytes-IsSentPart bad_request_response s.net) refl

  module _ (u : Upgrade) (m : parse app (c.read_buffer ++ more) ≡ upgrade_ok u) where
    after_response-Handshaken :
        (r : Bool × Net)
        → answer_of app u ≡ returned
        → IsSentPart s.net.wire (switching_to u) r
        → Handshaken e app c s.net s.log coming (after_response e app s u r)
    after_response-Handshaken (false, net) a w = breaks more u q m a (refl, v, f) w refl
    after_response-Handshaken (true, net) a w =
        let (o', v', p, t, g) = upgraded_conn-IsUpgraded s.conn u o in
        upgrades more u (upgraded_conn s.conn u) net q m a
          (o', v', p, t ∙ ap (drop u.bytes_consumed) b, g ∙ f) w refl

    on_called-Handshaken :
        (answer : HandshakeAnswer)
        → answer_of app u ≡ answer
        → Handshaken e app c s.net s.log coming
            (on_called e app s.log u (on_answer answer s.conn s.net))
    unfolding handle_handshake_exception finish_upgrade
    on_called-Handshaken returned a =
        after_response-Handshaken _ a (send_bytes-IsSentPart (switching_to u) s.net)
    on_called-Handshaken returned_value a = raises more u q m (inr a) v f refl refl
    on_called-Handshaken threw a = raises more u q m (inl a) v f refl refl
    on_called-Handshaken (rejected answer) a =
        rejects more _ u answer q m a (refl, v, f) (send_bytes-IsSentPart (rejection answer) s.net)
          refl

-- What a round that has received `chunk` starts from.
abbrev Room : Conn → ℕ → Option Conn → Type 0
Room c n none = max_request_size < length c.read_buffer + n
Room c n (some c') =
    (c'.read_buffer ≡ c.read_buffer)
    × (c'.open_state ≡ c.open_state)
    × (c'.upgraded ≡ c.upgraded)
    × (c'.fragmented_payload ≡ c.fragmented_payload)

ensure_read_capacity-Room :
    (c : Conn) (n : ℕ) → Room c n (ensure_read_capacity c n max_request_size)
unfolding ensure_read_capacity
ensure_read_capacity-Room c n =
    elim (Bool-cases
      (ltb max_request_size n || ltb (max_request_size - n) (length c.read_buffer))) [
        | inl t ↦ rw t (ground arith)
        | inr t ↦ elim (Bool-cases (leb (length c.read_buffer + n) c.read_buffer_capacity)) [
          | inl r ↦ rw (t, r) (refl, refl, refl, refl)
          | inr r ↦ rw (t, r) (refl, refl, refl, refl)
        ]
      ]

-- The hypotheses on the session in front of the loop.
abbrev pub IsHandshaking : Conn → Type 0
IsHandshaking c = (c.open_state ≡ true) × (c.upgraded ≡ false)

module _ (e : Endian) (app : App) where
  abbrev Runs : Session → Bytes → Option Answer → Type 0
  Runs s coming r = Handshaken e app s.conn s.net s.log coming r

  on_result-Handshaken :
      (c : Conn) (s : Session) (chunk : Bytes) (coming1 coming : Bytes)
      (rest : Session → Option Answer) (r : UpgradeResult)
      → coming ≡ chunk ++ coming1
      → s.conn.read_buffer ≡ c.read_buffer ++ chunk
      → IsHandshaking s.conn
      → s.conn.fragmented_payload ≡ c.fragmented_payload
      → parse app s.conn.read_buffer ≡ r
      → Runs s coming1 (rest s)
      → Handshaken e app c s.net s.log coming (on_result e app s rest r)
  unfolding call_handshake_handler
  on_result-Handshaken c s chunk coming1 coming rest incomplete k b i f m ih =
      later-Handshaken e app c s.net s.log chunk s.conn b f m coming coming1 k (rest s) ih
  on_result-Handshaken c s chunk coming1 coming rest invalid k b i f m ih =
      refused_now e app c s coming chunk (coming1, k) b i.0 i.1 f (inl (ap (parse app) (sym b) ∙ m))
  on_result-Handshaken c s chunk coming1 coming rest (upgrade_ok u) k b i f m ih =
      on_called-Handshaken e app c s coming chunk (coming1, k) b i.0 i.1 f u
        (ap (parse app) (sym b) ∙ m) (answer_of app u) refl

  take_request-Handshaken :
      (c : Conn) (s : Session) (chunk : Bytes) (coming1 coming : Bytes)
      (rest : Session → Option Answer) (r : Option Conn)
      → coming ≡ chunk ++ coming1
      → IsHandshaking s.conn
      → s.conn.read_buffer ≡ c.read_buffer
      → s.conn.fragmented_payload ≡ c.fragmented_payload
      → Room s.conn (length chunk) r
      → ((s' : Session) → IsHandshaking s'.conn → Runs s' coming1 (rest s'))
      → Handshaken e app c s.net s.log coming (take_request e app s chunk rest r)
  take_request-Handshaken c s chunk coming1 coming rest none k i b f room h =
      let long : max_request_size < length (c.read_buffer ++ chunk) =
        omega (arith, room, ap length b, length-append c.read_buffer chunk) in
      refuses chunk _ (coming1, k) (inr long) (refl, i.1, f)
        (send_bytes-IsSentPart bad_request_response s.net) refl
  take_request-Handshaken c s chunk coming1 coming rest (some c1) k i b f (b1, o1, v1, f1) h =
      let c2 = record c1 { read_buffer = c1.read_buffer ++ chunk } in
      let s2 : Session = record s { conn = c2 } in
      let i2 : IsHandshaking c2 = (o1 ∙ i.0, v1 ∙ i.1) in
      on_result-Handshaken c s2 chunk coming1 coming rest (parse app c2.read_buffer) k
        (ap (λ x. x ++ chunk) (b1 ∙ b)) i2 (f1 ∙ f) refl (h s2 i2)

  idle-Handshaken :
      (s : Session) (coming : Bytes) → IsHandshaking s.conn → Runs s coming (some (true, s))
  idle-Handshaken s coming i =
      waits [] (coming, refl) (inl refl) (i.0, i.1, sym (append-nil s.conn.read_buffer), refl) refl
        refl

  shut-Handshaken : (s : Session) (coming : Bytes) → IsHandshaking s.conn → Runs s coming (shut s)
  shut-Handshaken s coming i = hangs_up [] (coming, refl) (inl refl) (refl, i.1, refl) refl refl

  -- On a connection that is open and not upgraded, `websocket_server_process_handshake` goes one of
  -- the ways of `Handshaken`, whatever the script of reads, the kernel and the application do: the
  -- connection is upgraded only if the bytes received in front of the end of the request, behind
  -- those that were in the read buffer, are a request that the parser accepts and that the
  -- application agrees to, and if the whole response 101 is on the wire; the open handler is then
  -- called with the bytes behind the request in the read buffer. In every other case the connection
  -- is not upgraded, and it is closed unless it waits for more of the request or the application
  -- has raised an error.
  pub process_handshake-Handshaken :
      (s : Session) (script : List Recv)
      → IsHandshaking s.conn
      → Runs s (bytes_of script) (process_handshake e app s script)
  unfolding process_handshake
  process_handshake-Handshaken s [] i = idle-Handshaken s [] i
  process_handshake-Handshaken s (received b bs now ∷ rest) i =
      let going : is_handshaking s.conn ≡ true = ground (arith, i.0, i.1) in
      let c = record s.conn { last_activity_usec = now } in
      rw going (
        take_request-Handshaken s.conn (record s { conn = c }) (b ∷ bs) (bytes_of rest)
          ((b ∷ bs) ++ bytes_of rest) (λ s'. process_handshake e app s' rest)
          (ensure_read_capacity c (suc (length bs)) max_request_size) refl i refl refl
          (ensure_read_capacity-Room c (suc (length bs)))
          (λ s' i'. process_handshake-Handshaken s' rest i'))
  process_handshake-Handshaken s (ended ∷ rest) i =
      let going : is_handshaking s.conn ≡ true = ground (arith, i.0, i.1) in
      rw going (shut-Handshaken s (bytes_of rest) i)
  process_handshake-Handshaken s (refused x ∷ rest) i =
      let going : not (is_handshaking s.conn) ≡ false = ground (arith, i.0, i.1) in
      elim (Bool-cases (is_interrupt x)) [
        | inl t ↦ rw (going, t) (process_handshake-Handshaken s rest i)
        | inr t ↦ elim (Bool-cases (is_again x)) [
          | inl a ↦ rw (going, t, a) (idle-Handshaken s (bytes_of rest) i)
          | inr a ↦ rw (going, t, a) (shut-Handshaken s (bytes_of rest) i)
        ]
      ]
