-- ===== src/Api/Server/Reached.antt =====
-- The servers that sequences of method calls make.
use php_websocket.Base.{
  ℕ, ◌≤◌, ◌≡◌, refl, ap, sym, subst, ◌∙◌, Bool, true, false, not, ◌||◌, Option, none, some, List,
  [], ◌∷◌, Bytes, length, ◌==◌, if◌then◌else◌, Bool-cases, inl, inr, arith,
}
use php_websocket.Base.Int.{ℤ, pos, negsuc, lt_nat, gt_nat}
use php_websocket.Http.Headers.{until_nul}
use php_websocket.Http.Headers.Joined.{HasNoNul}
use php_websocket.Api.Values.{Value, Exception, error}
use php_websocket.Api.Server.{
  Server, Thrown, new_server, set_subprotocols, check_protocols, store_protocols, listen, Globals,
  Loop, run, run_with, or_best, stop,
}
use php_websocket.Api.Server.Checked.{AreTokens, is_distinct, IsChosen, set_subprotocols-IsChosen}

-- What `run` makes of what its loop leaves.
abbrev left_by : Option Exception × Globals × Server → Option Exception × Globals × Server
left_by (x, g, s) = (x, record g { running = false }, record s { running = false })

-- `run` gets to its loop, and enters it with the globals `h` and the server `t`: whatever the loop
-- does from there, the result of `run` is what that leaves.
abbrev pub Enters : Option Bytes → Globals → Server → Globals → Server → Type 0
Enters best g s h t = (loop : Loop) → run loop best g s ≡ left_by (loop h t)

-- A server behind any sequence of calls of its methods, those that the application's handlers make
-- during a run included: a run enters its loop, and leaves it with the server as it is then.
pub data Reached : Server → Type 0 where
  created : Reached new_server
  chooses : {s : Server} (values : List Value) → Reached s → Reached (set_subprotocols s values).1
  listens : {s : Server} (host : Bytes) (port : ℤ) → Reached s → Reached (listen s host port).1
  enters :
      {s t : Server} (best : Option Bytes) (g h : Globals)
      → Enters best g s h t
      → Reached s
      → Reached t
  leaves : {s : Server} → Reached s → Reached (record s { running = false })
  stops : {s : Server} (g : Globals) → Reached s → Reached (stop g s).1

-- A run that is refused does not enter its loop.
refused_run :
    (best : Option Bytes) (g : Globals) (s : Server) (h : Globals) (t : Server)
    → ((loop : Loop) → (run loop best g s).0 ≡ some error)
    → Enters best g s h t
    → ⊥
refused_run best g s h t r e =
    let silent : Loop = λ g' s'. (none, g', s') in
    let clash : none ≡ some error = sym (ap (λ o. o.0) (e silent)) ∙ r silent in cc

-- The server that a run enters its loop with is the one it was called on, and it is listening.
abbrev IsEntered : Server → Server → Type 0
IsEntered s t = (s.listening ≡ true) × (record t { running = false } ≡ record s { running = false })

run_with-IsEntered :
    (g : Globals) (s : Server) (best : Option Bytes) (h : Globals) (t : Server)
    → ((loop : Loop) → run_with loop g s best ≡ left_by (loop h t))
    → record t { running = false } ≡ record s { running = false }
run_with-IsEntered g s none h t e =
    let silent : Loop = λ g' s'. (none, g', s') in
    let clash : none ≡ some error = sym (ap (λ o. o.0) (e silent)) in absurd (cc)
run_with-IsEntered g s (some driver) h t e =
    let silent : Loop = λ g' s'. (none, g', s') in sym (ap (λ o. o.2) (e silent))

if_true : {A : Type 0} (test : Bool) (x y : A) → test ≡ true → (if test then x else y) ≡ x
if_true true x y h = refl
if_true false x y h = absurd (cc)

if_false : {A : Type 0} (test : Bool) (x y : A) → test ≡ false → (if test then x else y) ≡ y
if_false true x y h = absurd (cc)
if_false false x y h = refl

-- The branches of `run` in front of the choice of the driver.
running_run :
    (loop : Loop) (best : Option Bytes) (g : Globals) (s : Server)
    → g.running ≡ true
    → run loop best g s ≡ (some error, g, s)
unfolding run
running_run loop best g s h = if_true g.running _ _ h

deaf_run :
    (loop : Loop) (best : Option Bytes) (g : Globals) (s : Server)
    → g.running ≡ false
    → not s.listening ≡ true
    → run loop best g s ≡ (some error, g, s)
unfolding run
deaf_run loop best g s h l = if_false g.running _ _ h ∙ if_true (not s.listening) _ _ l

listening_run :
    (loop : Loop) (best : Option Bytes) (g : Globals) (s : Server)
    → g.running ≡ false
    → not s.listening ≡ false
    → run loop best g s ≡ run_with loop g s (or_best g.driver best)
unfolding run
listening_run loop best g s h l = if_false g.running _ _ h ∙ if_false (not s.listening) _ _ l

Enters-IsEntered :
    (best : Option Bytes) (g : Globals) (s : Server) (h : Globals) (t : Server)
    → Enters best g s h t
    → IsEntered s t
Enters-IsEntered best g s h t e = elim (Bool-cases g.running) [
  | inl r ↦
      absurd (refused_run best g s h t (λ loop. ap (λ o. o.0) (running_run loop best g s r)) e)
  | inr r ↦ elim (Bool-cases (not s.listening)) [
    | inl l ↦
        absurd (refused_run best g s h t (λ loop. ap (λ o. o.0) (deaf_run loop best g s r l)) e)
    | inr l ↦ (
      ground (arith, l),
      run_with-IsEntered g s (or_best g.driver best) h t
          (λ loop. sym (listening_run loop best g s r l) ∙ e loop),
    )
  ]
]

-- An address that a listener can be made for.
abbrev pub HasAddress : Server → Type 0
HasAddress s =
    (port : ℕ) × (host : Bytes) × (s.port ≡ pos port)
    × (1 ≤ port)
    × (port ≤ 65535)
    × (s.host ≡ some host)
    × HasNoNul host

abbrev pub IsServer : Server → Type 0
IsServer s =
    AreTokens s.subprotocols
    × (is_distinct s.subprotocols ≡ true)
    × (s.listening ≡ true → HasAddress s)
    × (s.running ≡ true → s.listening ≡ true)

length-until_nul : (host : Bytes) → length (until_nul host) ≤ length host
unfolding until_nul
length-until_nul [] = omega arith
length-until_nul (b ∷ rest) = elim (Bool-cases (b == 0)) [
  | inl t ↦ rw t (omega arith)
  | inr t ↦ rw t (omega (arith, length-until_nul rest))
]

whole-HasNoNul : (host : Bytes) → length (until_nul host) ≡ length host → HasNoNul host
unfolding until_nul
whole-HasNoNul [] h = tt
whole-HasNoNul (b ∷ rest) h = by_test (b == 0) refl h (whole-HasNoNul rest)
  where
    by_test :
        (t : Bool)
        → (b == 0) ≡ t
        → length (if t then [] else b ∷ until_nul rest) ≡ length (b ∷ rest)
        → (length (until_nul rest) ≡ length rest → HasNoNul rest)
        → HasNoNul (b ∷ rest)
    by_test true e k ih = absurd (omega (arith, k))
    by_test false e k ih = (ground (arith, e), ih (omega (arith, k)))

abbrev IsPort : ℤ → Type 0
IsPort port = (n : ℕ) × (port ≡ pos n) × (1 ≤ n) × (n ≤ 65535)

lt_nat-IsPort : (port : ℤ) → (lt_nat port 1 || gt_nat port 65535) ≡ false → IsPort port
lt_nat-IsPort (pos n) h = (n, refl, ground arith, ground arith)
lt_nat-IsPort (negsuc n) h = absurd (cc)

listen-IsServer :
    (s : Server) (host : Bytes) (port : ℤ) → IsServer s → IsServer (listen s host port).1
unfolding listen
listen-IsServer s host port p = elim (Bool-cases (lt_nat port 1 || gt_nat port 65535)) [
  | inl t ↦ rw t p
  | inr t ↦ elim (Bool-cases (not (length (until_nul host) == length host))) [
    | inl u ↦ rw (t, u) p
    | inr u ↦
        let (n, e, low, high) = lt_nat-IsPort port t in
        let clean = whole-HasNoNul host (ground (arith, u)) in
        rw (t, u) (p.0, p.1, λ _. (n, host, e, low, high, refl, clean), λ _. refl)
  ]
]

IsChosen-IsServer :
    (s : Server) (values : List Value) (r : Thrown)
    → IsServer s
    → IsChosen s values r
    → IsServer r.1
IsChosen-IsServer s values (none, s') p (names, e, t, d, k) =
    subst IsServer (sym k) (t, d, p.2, p.3)
IsChosen-IsServer s values (some x, s') p (k, h) = subst IsServer (sym k) p

set_subprotocols-running :
    (s : Server) (values : List Value)
    → s.running ≡ true
    → set_subprotocols s values ≡ (some error, s)
unfolding set_subprotocols
set_subprotocols-running s values h =
    ap (λ b. if b then (some error, s) else store_protocols s (check_protocols 0 [] values)) h

set_subprotocols-IsServer :
    (s : Server) (values : List Value) → IsServer s → IsServer (set_subprotocols s values).1
set_subprotocols-IsServer s values p = elim (Bool-cases s.running) [
  | inl t ↦ subst (λ r. IsServer r.1) (sym (set_subprotocols-running s values t)) p
  | inr t ↦
      IsChosen-IsServer s values (set_subprotocols s values) p
        (set_subprotocols-IsChosen s values t)
]

entered-IsServer : (s t : Server) → IsEntered s t → IsServer s → IsServer t
entered-IsServer s t (l, e) p =
    let same : t.listening ≡ s.listening = ap (λ u. u.listening) e in
    let q =
      subst (λ u. IsServer (record u { running = false })) (sym e)
        (p.0, p.1, p.2, λ h. absurd (cc)) in
    (q.0, q.1, q.2, λ _. same ∙ l)

-- In every server that its methods reach, those called while `run` is in its loop included, the
-- subprotocols are valid tokens, and no two of them are the same; a server that is listening has a
-- port from 1 to 65535 and a host without NUL; and a server that is running, with which `run`
-- enters its loop, is listening.
pub Reached-IsServer : (s : Server) → Reached s → IsServer s
unfolding stop
Reached-IsServer _ created = (tt, refl, λ h. absurd (cc), λ h. absurd (cc))
Reached-IsServer _ (chooses {s = s} values r) =
    set_subprotocols-IsServer s values (Reached-IsServer s r)
Reached-IsServer _ (listens {s = s} host port r) =
    listen-IsServer s host port (Reached-IsServer s r)
Reached-IsServer _ (enters {s = s} {t = t} best g h e r) =
    entered-IsServer s t (Enters-IsEntered best g s h t e) (Reached-IsServer s r)
Reached-IsServer _ (leaves {s = s} r) =
    let p = Reached-IsServer s r in (p.0, p.1, p.2, λ h. absurd (cc))
Reached-IsServer _ (stops {s = s} g r) =
    let p = Reached-IsServer s r in (p.0, p.1, p.2, λ h. absurd (cc))
