-- ===== src/Server/Answers/Sent.antt =====
-- What `websocket_server_send_bytes` has written when it returns.
use php_websocket.Base.{
  suc, ◌<◌, ◌≡◌, refl, ap, sym, subst, ◌∙◌, if◌then◌else◌, Bool, true, false, List, [], ◌∷◌, ◌++◌,
  append_assoc, append-nil, Bytes, length, take, drop, min, ◌==◌, take-append-drop, arith,
}
use php_websocket.Connection.State.{eagain, SendOutcome, sent, failed, Net}
use php_websocket.Connection.Queue.{is_interrupt}
use php_websocket.Server.Answers.{send_from, send_bytes}

-- All of the bytes behind what was written before, or a part of them that is not all.
abbrev pub IsSentPart : Bytes → Bytes → Bool × Net → Type 0
IsSentPart wire buffer (true, net) = net.wire ≡ wire ++ buffer
IsSentPart wire buffer (false, net) =
    (part : Bytes) × (rest : Bytes) × (buffer ≡ part ++ rest)
    × (0 < length rest)
    × (net.wire ≡ wire ++ part)

if_IsSentPart :
    (test : Bool) (wire buffer : Bytes) (a b : Bool × Net)
    → (test ≡ true → IsSentPart wire buffer a)
    → (test ≡ false → IsSentPart wire buffer b)
    → IsSentPart wire buffer (if test then a else b)
if_IsSentPart true wire buffer a b p q = p refl
if_IsSentPart false wire buffer a b p q = q refl

-- What was taken in one call, in front of what the others take.
later-IsSentPart :
    (wire taken left : Bytes) (r : Bool × Net)
    → IsSentPart (wire ++ taken) left r
    → IsSentPart wire (taken ++ left) r
later-IsSentPart wire taken left (true, net) p = p ∙ append_assoc wire taken left
later-IsSentPart wire taken left (false, net) (part, rest, e, l, w) = (
  taken ++ part,
  rest,
  ap (λ x. taken ++ x) e ∙ sym (append_assoc taken part rest),
  l,
  w ∙ append_assoc wire taken part,
)

nothing_sent :
    (wire buffer : Bytes) (net : Net)
    → 0 < length buffer
    → net.wire ≡ wire
    → IsSentPart wire buffer (false, net)
nothing_sent wire buffer net l e = ([], buffer, refl, l, e ∙ sym (append-nil wire))

pub send_from-IsSentPart :
    (buffer : Bytes) (script : List SendOutcome) (net : Net)
    → IsSentPart net.wire buffer (send_from buffer script net)
unfolding send_from
send_from-IsSentPart [] script net = sym (append-nil net.wire)
send_from-IsSentPart (b ∷ rest) [] net =
    nothing_sent net.wire (b ∷ rest) (record net { sends = []; errno = eagain }) (omega arith) refl
send_from-IsSentPart (b ∷ rest) (sent n ∷ script) net =
    let k = min n (suc (length rest)) in
    let net' = record net { wire = net.wire ++ take k (b ∷ rest) } in
    let ih = send_from-IsSentPart (drop k (b ∷ rest)) script net' in
    if_IsSentPart (k == 0) net.wire (b ∷ rest) _ _
      (λ _. nothing_sent net.wire (b ∷ rest) (record net { sends = script }) (omega arith) refl)
      (λ _.
        subst (λ x. IsSentPart net.wire x (send_from (drop k (b ∷ rest)) script net'))
          (take-append-drop k (b ∷ rest))
          (later-IsSentPart net.wire (take k (b ∷ rest)) (drop k (b ∷ rest)) _ ih))
send_from-IsSentPart (b ∷ rest) (failed e ∷ script) net =
    if_IsSentPart (is_interrupt e) net.wire (b ∷ rest) _ _
      (λ _. send_from-IsSentPart (b ∷ rest) script (record net { errno = e }))
      (λ _.
        nothing_sent net.wire (b ∷ rest) (record net { sends = script; errno = e }) (omega arith)
          refl)

-- If `websocket_server_send_bytes` returns true, all bytes are on the wire, behind those that
-- were there before; if it returns false, a part of them is that leaves at least one byte out.
pub send_bytes-IsSentPart :
    (buffer : Bytes) (net : Net) → IsSentPart net.wire buffer (send_bytes buffer net)
unfolding send_bytes
send_bytes-IsSentPart buffer net = send_from-IsSentPart buffer net.sends net
