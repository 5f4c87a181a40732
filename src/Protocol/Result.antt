-- ===== src/Protocol/Result.antt =====
-- The exceptions that the protocol code throws, and results that may be one.
use php_websocket.Base.{ℕ, ◌≡◌, ◌⊎◌, inl, inr, refl, Bool, true, false}

pub data ProtocolError : Type 0 where
  invalid_close_code reason_too_long reason_not_utf8 : ProtocolError
  text_not_utf8 wrong_data_type invalid_opcode : ProtocolError
  control_without_fin control_too_long random_failed : ProtocolError
  unsupported_opcode : ℕ → ProtocolError
  invalid_control_frame invalid_close_frame : ProtocolError
  close_reason_not_utf8 text_frame_not_utf8 : ProtocolError

pub data Result {ℓ} (A : Type ℓ) : Type ℓ where
  ok : A → Result A
  err : ProtocolError → Result A

module _ {ℓ κ} {A : Type ℓ} {B : Type κ} where
  infixl 5 ◌>>=◌
  abbrev pub ◌>>=◌ : Result A → (A → Result B) → Result B
  err e >>= rest = err e
  ok a >>= rest = rest a

infixl 5 ◌>>◌
abbrev pub ◌>>◌ {ℓ} : {A : Type ℓ} → Result (Unit {0}) → Result A → Result A
check >> rest = check >>= λ _. rest

pub Result-cases {ℓ} :
    {A : Type ℓ} (r : Result A) → ((a : A) × (r ≡ ok a)) ⊎ ((e : ProtocolError) × (r ≡ err e))
Result-cases (ok a) = inl (a, refl)
Result-cases (err e) = inr (e, refl)

-- `if (test) { throw e; }`
abbrev pub throw_if : Bool → ProtocolError → Result (Unit {0})
throw_if true e = err e
throw_if false e = ok tt
