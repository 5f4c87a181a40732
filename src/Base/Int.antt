-- ===== src/Base/Int.antt =====
-- `zend_long`, PHP's signed integer. It is only compared, narrowed and read bit by bit here.
use Prim.Native.Nat.{ℕ, ◌-◌, ◌%◌}
use mathlib.Core.Bool.{Bool, true, false}
use php_websocket.Base.Tests.{ltb}

-- `negsuc n` is -(n + 1).
pub data ℤ : Type 0 where
  pos : ℕ → ℤ
  negsuc : ℕ → ℤ

-- The comparisons of a signed integer with a nonnegative constant.
abbrev pub lt_nat : ℤ → ℕ → Bool
lt_nat (pos n) k = ltb n k
lt_nat (negsuc n) k = true

abbrev pub gt_nat : ℤ → ℕ → Bool
gt_nat (pos n) k = ltb k n
gt_nat (negsuc n) k = false

-- The low eight bits of the two's complement representation: `(uint8_t) x`.
abbrev pub low_byte : ℤ → ℕ
low_byte (pos n) = n % 256
low_byte (negsuc n) = 255 - n % 256

-- `(size_t) x`, on 64 bits.
abbrev pub to_size : ℤ → ℕ
to_size (pos n) = n
to_size (negsuc n) = 18446744073709551615 - n
