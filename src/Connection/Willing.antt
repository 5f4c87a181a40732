-- ===== src/Connection/Willing.antt =====
-- The write loop on the answers of a socket that works.
use php_websocket.Base.{
  ℕ, ◌+◌, ◌≤◌, ◌<◌, ◌≡◌, refl, true, false, List, [], ◌∷◌, ◌++◌, Bytes, All, length, take, drop,
  min, ltb, ◌==◌, if◌then◌else◌, length-drop, Bool-cases, inl, inr, arith,
}
use php_websocket.Connection.State.{
  Errno, success, eintr, eagain, enobufs, other, SendOutcome, sent, failed,
}
use php_websocket.Connection.Queue.{write_loop}

-- An answer of a socket that works: some bytes, an interrupt, or that it is full.
abbrev pub IsSoft : SendOutcome → Type 0
IsSoft (sent n) = 0 < n
IsSoft (failed eintr) = Unit
IsSoft (failed eagain) = Unit
IsSoft (failed _) = ⊥

-- The answers of a socket that can be written to: it takes some bytes first.
abbrev pub IsReady : List SendOutcome → Type 0
IsReady [] = ⊥
IsReady (sent n ∷ rest) = (0 < n) × All IsSoft rest
IsReady (failed eintr ∷ rest) = IsReady rest
IsReady (failed _ ∷ rest) = ⊥

pub Ready-Soft : (sends : List SendOutcome) → IsReady sends → All IsSoft sends
Ready-Soft [] h = absurd h
Ready-Soft (sent n ∷ rest) h = h
Ready-Soft (failed eintr ∷ rest) h = (tt, Ready-Soft rest h)
Ready-Soft (failed success ∷ rest) h = absurd h
Ready-Soft (failed eagain ∷ rest) h = absurd h
Ready-Soft (failed enobufs ∷ rest) h = absurd h
Ready-Soft (failed (other x) ∷ rest) h = absurd h

-- The kernel takes a byte at least of what is left of a frame.
takes_some :
    (frame : Bytes) (offset n : ℕ)
    → 0 < n
    → ltb offset (length frame) ≡ true
    → (min n (length (drop offset frame)) == 0) ≡ false
takes_some frame offset n h e =
    let left = length-drop offset frame in
    let inside : offset < length frame = ground (arith, e) in
    let positive : 0 < min n (length (drop offset frame)) = omega (arith, left, inside, h) in
    ground (arith, positive)

-- The write loop does not fail on such answers, and leaves such answers.
pub write_loop-Soft :
    (frame : Bytes) (offset written : ℕ) (sends : List SendOutcome) (wire : Bytes) (errno : Errno)
    → All IsSoft sends
    → let w = write_loop frame offset written sends wire errno in
      (w.done ≡ true) × All IsSoft w.sends × (written ≤ w.written_bytes)
unfolding write_loop
write_loop-Soft frame offset written [] wire errno h = (refl, tt, omega arith)
write_loop-Soft frame offset written (sent n ∷ rest) wire errno h =
    let here = drop offset frame in
    let k = min n (length here) in
    let ih =
      write_loop-Soft frame (offset + k) (written + k) rest (wire ++ take k here) errno h.1 in
    elim (Bool-cases (ltb offset (length frame))) [
      | inr e ↦ rw e (refl, h, omega arith)
      | inl e ↦ rw (e, takes_some frame offset n h.0 e) (ih.0, ih.1, omega (arith, ih.2))
    ]
write_loop-Soft frame offset written (failed eintr ∷ rest) wire errno h =
    let ih = write_loop-Soft frame offset written rest wire eintr h.1 in
    elim (Bool-cases (ltb offset (length frame))) [
      | inr e ↦ rw e (refl, h, omega arith)
      | inl e ↦ rw e ih
    ]
write_loop-Soft frame offset written (failed eagain ∷ rest) wire errno h =
    elim (Bool-cases (ltb offset (length frame))) [
      | inr e ↦ rw e (refl, h, omega arith)
      | inl e ↦ rw e (refl, h.1, omega arith)
    ]
write_loop-Soft frame offset written (failed success ∷ rest) wire errno h = absurd h.0
write_loop-Soft frame offset written (failed enobufs ∷ rest) wire errno h = absurd h.0
write_loop-Soft frame offset written (failed (other x) ∷ rest) wire errno h = absurd h.0

-- A frame of which something is left gets on; a frame that is written leaves the answers.
pub write_loop-Ready :
    (frame : Bytes) (offset written : ℕ) (sends : List SendOutcome) (wire : Bytes) (errno : Errno)
    → IsReady sends
    → let w = write_loop frame offset written sends wire errno in
      if ltb offset (length frame) then (written < w.written_bytes) else (w.sends ≡ sends)
unfolding write_loop
write_loop-Ready frame offset written [] wire errno h = absurd h
write_loop-Ready frame offset written (sent n ∷ rest) wire errno h =
    let here = drop offset frame in
    let k = min n (length here) in
    let later =
      write_loop-Soft frame (offset + k) (written + k) rest (wire ++ take k here) errno h.1 in
    elim (Bool-cases (ltb offset (length frame))) [
      | inr e ↦ rw e refl
      | inl e ↦
          let some_taken = takes_some frame offset n h.0 e in
          let positive : 0 < k = ground (arith, some_taken) in
          rw (e, some_taken) (omega (arith, later.2, positive))
    ]
write_loop-Ready frame offset written (failed eintr ∷ rest) wire errno h =
    let ih = write_loop-Ready frame offset written rest wire eintr h in
    elim (Bool-cases (ltb offset (length frame))) [
      | inr e ↦ rw e refl
      | inl e ↦ let more = rw e at ih in rw e more
    ]
write_loop-Ready frame offset written (failed success ∷ rest) wire errno h = absurd h
write_loop-Ready frame offset written (failed eagain ∷ rest) wire errno h = absurd h
write_loop-Ready frame offset written (failed enobufs ∷ rest) wire errno h = absurd h
write_loop-Ready frame offset written (failed (other x) ∷ rest) wire errno h = absurd h
