-- ===== src/Base/Bits.antt =====
-- Bit operations on bytes and words: tables over the bytes, and the digit laws of xor and or.
use Prim.Native.Nat.{
  ℕ, zero, suc, ◌+◌, ◌-◌, ◌*◌, ◌/◌, ◌%◌, ◌^◌, ◌≤◌, ◌<◌, max, bit_or, bit_xor, differ, digits,
  bitwise, bit_xor-bitwise, bit_or-bitwise,
}
use mathlib.Core.Path.{◌≡◌, refl, ap, ◌∙◌}
use mathlib.Core.Bool.{Bool, true, false}
use native.Mathlib.Nat.{le_refl, pow-suc}
use native.Mathlib.Omega.{arith}
use php_websocket.Base.Tests.{if◌then◌else◌}

-- Whether a test passes at every number below a bound, by evaluation.
unfoldable pub passes_below : (ℕ → Bool) → ℕ → Bool
passes_below test zero = true
passes_below test (suc n) = if test n then passes_below test n else false

pub passes_below_at :
    (test : ℕ → Bool) (n x : ℕ) → passes_below test n ≡ true → x < n → test x ≡ true
unfolding passes_below
passes_below_at test zero x h lt = absurd (omega arith)
passes_below_at test (suc n) x h lt = ground (arith, passes_below_at test n x)

-- The digits of a bit operation do not depend on fuel that is left over.
module _ (op : ℕ → ℕ → ℕ) where
  abbrev run : ℕ → ℕ → ℕ → ℕ
  run = digits (λ y. y) op

  run_more : (n a b : ℕ) → a ≤ n → run (suc n) a b ≡ run n a b
  run_more zero zero b h = refl
  run_more zero (suc a) b h = absurd (omega arith)
  run_more (suc n) zero b h = refl
  run_more (suc n) (suc a) b h =
      ap (λ d. d * 2 + op (suc a % 2) (b % 2)) (run_more n (suc a / 2) (b / 2) (omega arith))

  run_plus : (spare m n a b : ℕ) → m ≡ spare + n → a ≤ n → run m a b ≡ run n a b
  run_plus zero m n a b e h = ap (λ f. run f a b) (omega arith)
  run_plus (suc spare) zero n a b e h = absurd (omega arith)
  run_plus (suc spare) (suc m) n a b e h =
      run_more m a b (omega arith) ∙ run_plus spare m n a b (omega arith) h

  -- The lowest digit, for an operation that keeps its second argument at 0.
  module _ (keeps : (y : ℕ) → op 0 y ≡ y) where
    lowest_digit :
        (m n : ℕ)
        → bitwise (λ y. y) op m n ≡ op (m % 2) (n % 2) + 2 * bitwise (λ y. y) op (m / 2) (n / 2)
    lowest_digit zero n = omega (arith, keeps (n % 2))
    lowest_digit (suc m) n = omega (
      arith,
      run_plus (m - suc m / 2) m (suc m / 2) (suc m / 2) (n / 2) (omega arith) (le_refl _),
    )

differ_digits : (x y : ℕ) → x < 2 → y < 2 → differ x y ≡ (x + y) % 2
differ_digits zero y hx hy = omega arith
differ_digits (suc zero) zero hx hy = refl
differ_digits (suc zero) (suc zero) hx hy = refl
differ_digits (suc zero) (suc (suc y)) hx hy = absurd (omega arith)
differ_digits (suc (suc x)) y hx hy = absurd (omega arith)

differ-mod : (a b : ℕ) → differ (a % 2) (b % 2) ≡ (a + b) % 2
differ-mod a b = omega (arith, differ_digits (a % 2) (b % 2) (omega arith) (omega arith))

xor_zeros : (a b : ℕ) → a < 1 → b < 1 → bit_xor a b ≡ 0
xor_zeros zero zero ha hb = refl
xor_zeros zero (suc b) ha hb = absurd (omega arith)
xor_zeros (suc a) b ha hb = absurd (omega arith)

-- The lowest binary digit of a disjunction and of an exclusive disjunction.
pub bit_or_digit : (m n : ℕ) → bit_or m n ≡ max (m % 2) (n % 2) + 2 * bit_or (m / 2) (n / 2)
bit_or_digit m n = omega (
  arith,
  bit_or-bitwise m n,
  bit_or-bitwise (m / 2) (n / 2),
  lowest_digit max (λ y. omega arith) m n,
)

pub bit_xor_digit : (m n : ℕ) → bit_xor m n ≡ (m + n) % 2 + 2 * bit_xor (m / 2) (n / 2)
bit_xor_digit m n = omega (
  arith,
  bit_xor-bitwise m n,
  bit_xor-bitwise (m / 2) (n / 2),
  differ-mod m n,
  lowest_digit differ (λ y. refl) m n,
)

-- Exclusive disjunction works on each field of a word, and stays within the field's width.
pub bit_xor_fields :
    (k p q a b : ℕ)
    → a < 2 ^ k
    → b < 2 ^ k
    → bit_xor (p * 2 ^ k + a) (q * 2 ^ k + b) ≡ bit_xor p q * 2 ^ k + bit_xor a b
bit_xor_fields zero p q a b ha hb = ground (arith, xor_zeros a b)
bit_xor_fields (suc k) p q a b ha hb = ground (
  arith,
  bit_xor_digit (p * 2 ^ suc k + a) (q * 2 ^ suc k + b),
  bit_xor_digit a b,
  ap (λ (t : ℕ). p * t) (pow-suc 2 k),
  ap (λ (t : ℕ). q * t) (pow-suc 2 k),
  ap (λ (t : ℕ). bit_xor p q * t) (pow-suc 2 k),
  pow-suc 2 k,
  bit_xor_fields k p q (a / 2) (b / 2) (omega (arith, pow-suc 2 k)) (omega (arith, pow-suc 2 k)),
)

pub bit_xor-lt : (k a b : ℕ) → a < 2 ^ k → b < 2 ^ k → bit_xor a b < 2 ^ k
bit_xor-lt zero a b ha hb = omega (arith, xor_zeros a b)
bit_xor-lt (suc k) a b ha hb = omega (
  arith,
  bit_xor_digit a b,
  pow-suc 2 k,
  bit_xor-lt k (a / 2) (b / 2) (omega (arith, pow-suc 2 k)) (omega (arith, pow-suc 2 k)),
)

pub bit_xor_cancel : (k a b : ℕ) → a < 2 ^ k → b < 2 ^ k → bit_xor (bit_xor a b) b ≡ a
bit_xor_cancel zero a b ha hb = omega (arith, xor_zeros a b, xor_zeros (bit_xor a b) b)
bit_xor_cancel (suc k) a b ha hb = ground (
  arith,
  bit_xor_digit (bit_xor a b) b,
  bit_xor_digit a b,
  bit_xor_cancel k (a / 2) (b / 2) (omega (arith, pow-suc 2 k)) (omega (arith, pow-suc 2 k)),
)

pub bit_or-zero_fuel : (n a : ℕ) → a ≤ n → bit_or a 0 ≡ a
bit_or-zero_fuel n zero h = refl
bit_or-zero_fuel zero (suc a) h = absurd (omega arith)
bit_or-zero_fuel (suc n) (suc a) h =
    omega (arith, bit_or_digit (suc a) 0, bit_or-zero_fuel n (suc a / 2) (omega arith))

-- A disjunction of disjoint fields is a sum.
pub bit_or_fields : (k q r : ℕ) → r < 2 ^ k → bit_or (q * 2 ^ k) r ≡ q * 2 ^ k + r
bit_or_fields zero q r h = ground (arith, bit_or-zero_fuel q q (le_refl q))
bit_or_fields (suc k) q r h = ground (
  arith,
  bit_or_digit (q * 2 ^ suc k) r,
  ap (λ (t : ℕ). q * t) (pow-suc 2 k),
  pow-suc 2 k,
  bit_or_fields k q (r / 2) (omega (arith, pow-suc 2 k)),
)
