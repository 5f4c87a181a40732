-- ===== src/Api/Values.antt =====
-- What the methods are given, and how their checks of it end.
use php_websocket.Base.{ℕ, Bytes}

-- A PHP value, as far as the methods tell them apart.
pub data Value : Type 0 where
  string : Bytes → Value
  other : Value

-- An exception: an Error of the engine, or a TypeError or ValueError on the argument of that
-- number.
pub data Exception : Type 0 where
  error : Exception
  type_error value_error : ℕ → Exception

-- What a constructor ends with.
pub data Made {ℓ} (A : Type ℓ) : Type ℓ where
  made : A → Made A
  throws : Exception → Made A
