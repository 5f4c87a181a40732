-- ===== src/Connection/Stream.antt =====
-- The bytes that a connection still owes to the socket, and what the write loop does to them.
use php_websocket.Base.{
  ℕ, zero, suc, ◌+◌, ◌≤◌, ◌≡◌, refl, ap, sym, ◌∙◌, List, [], ◌∷◌, ◌++◌, append_assoc, Bytes, length,
  take, drop, min, ltb, ◌==◌, take-append-drop, length-drop, Bool-cases, inl, inr, arith,
}
use php_websocket.Connection.State.{Errno, SendOutcome, sent, failed, Conn}
use php_websocket.Connection.Queue.{write_loop, is_interrupt}

abbrev pub concat : List Bytes → Bytes
concat [] = []
concat (frame ∷ rest) = frame ++ concat rest

-- What is left of the frames, the first of them from `offset` on.
abbrev pub owed : List Bytes → ℕ → Bytes
owed [] offset = []
owed (frame ∷ rest) offset = drop offset frame ++ concat rest

abbrev pub pending : Conn → Bytes
pending c = owed c.write_queue c.write_queue_offset

drop-nil : (n : ℕ) → drop {A = ℕ} n [] ≡ []
drop-nil zero = refl
drop-nil (suc n) = refl

pub drop-drop : (m n : ℕ) (xs : Bytes) → drop (m + n) xs ≡ drop n (drop m xs)
drop-drop zero n xs = ap (λ k. drop k xs) (omega arith)
drop-drop (suc m) n [] = drop-nil (suc m + n) ∙ sym (drop-nil n)
drop-drop (suc m) n (x ∷ xs) =
    let e : suc m + n ≡ suc (m + n) = omega arith in ap (λ k. drop k (x ∷ xs)) e ∙ drop-drop m n xs

-- Nothing is lost and nothing is sent twice: the wire and the rest of the frame make up the same
-- bytes behind the loop as before it.
pub write_loop-wire :
    (frame : Bytes) (offset written : ℕ) (sends : List SendOutcome) (wire : Bytes) (errno : Errno)
    → let w = write_loop frame offset written sends wire errno in
      w.wire ++ drop w.offset frame ≡ wire ++ drop offset frame
unfolding write_loop
write_loop-wire frame offset written [] wire errno = refl
write_loop-wire frame offset written (sent n ∷ rest) wire errno =
    let here = drop offset frame in
    let k = min n (length here) in
    let ih = write_loop-wire frame (offset + k) (written + k) rest (wire ++ take k here) errno in
    let joined : (wire ++ take k here) ++ drop (offset + k) frame ≡ wire ++ here =
      append_assoc wire (take k here) (drop (offset + k) frame)
      ∙ ap (λ r. wire ++ r)
          (ap (λ r. take k here ++ r) (drop-drop offset k frame) ∙ take-append-drop k here) in
    elim (Bool-cases (ltb offset (length frame))) [
      | inr e ↦ rw e
      | inl e ↦ elim (Bool-cases (k == 0)) [ inl z ↦ rw (e, z) | inr z ↦ rw (e, z) (ih ∙ joined) ]
    ]
write_loop-wire frame offset written (failed x ∷ rest) wire errno =
    let ih = write_loop-wire frame offset written rest wire x in
    elim (Bool-cases (ltb offset (length frame))) [
      | inr e ↦ rw e
      | inl e ↦ elim (Bool-cases (is_interrupt x)) [ inl z ↦ rw (e, z) (ih) | inr z ↦ rw (e, z) ]
    ]

-- What the loop counts is what it moved on by, and it stays inside the frame.
pub write_loop-bounds :
    (frame : Bytes) (offset written : ℕ) (sends : List SendOutcome) (wire : Bytes) (errno : Errno)
    → offset ≤ length frame
    → let w = write_loop frame offset written sends wire errno in
      (w.offset + written ≡ offset + w.written_bytes) × (w.offset ≤ length frame)
unfolding write_loop
write_loop-bounds frame offset written [] wire errno h = (omega arith, h)
write_loop-bounds frame offset written (sent n ∷ rest) wire errno h =
    let here = drop offset frame in
    let k = min n (length here) in
    let inside : offset + k ≤ length frame = omega (arith, length-drop offset frame) in
    let ih =
      write_loop-bounds frame (offset + k) (written + k) rest (wire ++ take k here) errno inside in
    elim (Bool-cases (ltb offset (length frame))) [
      | inr e ↦ rw e ((omega arith, h))
      | inl e ↦ elim (Bool-cases (k == 0)) [
        | inl z ↦ rw (e, z) ((omega arith, h))
        | inr z ↦ rw (e, z) ((omega (arith, ih.0), ih.1))
      ]
    ]
write_loop-bounds frame offset written (failed x ∷ rest) wire errno h =
    let ih = write_loop-bounds frame offset written rest wire x h in
    elim (Bool-cases (ltb offset (length frame))) [
      | inr e ↦ rw e ((omega arith, h))
      | inl e ↦ elim (Bool-cases (is_interrupt x)) [
        | inl z ↦ rw (e, z) (ih)
        | inr z ↦ rw (e, z) ((omega arith, h))
      ]
    ]
