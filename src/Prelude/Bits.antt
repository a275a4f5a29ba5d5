-- ===== src/Prelude/Bits.antt =====
-- `|` of two words with no bit in common is their sum.
use Prim.Native.Nat.{
  ℕ, zero, suc, ◌+◌, ◌*◌, ◌/◌, ◌%◌, ◌^◌, ◌≤◌, ◌<◌, min, max, bit_or, bit_and, bit_xor, differ,
  digits, bit_or-bitwise, bit_and-bitwise, bit_xor-bitwise,
}
use mathlib.Core.Path.{◌≡◌, refl, ap}
use native.Mathlib.Nat.{pow-suc}
use native.Mathlib.Omega.{arith}

abbrev or_digits : ℕ → ℕ → ℕ → ℕ
or_digits n a b = digits (λ b. b) max n a b

or_digits_fuel : (n m a b : ℕ) → a ≤ n → a ≤ m → or_digits n a b ≡ or_digits m a b
or_digits_fuel zero zero a b p q = refl
or_digits_fuel zero (suc m) zero b p q = refl
or_digits_fuel zero (suc m) (suc a) b p q = absurd (omega arith)
or_digits_fuel (suc n) zero zero b p q = refl
or_digits_fuel (suc n) zero (suc a) b p q = absurd (omega arith)
or_digits_fuel (suc n) (suc m) zero b p q = refl
or_digits_fuel (suc n) (suc m) (suc a) b p q =
    omega (arith, or_digits_fuel n m (suc a / 2) (b / 2) (omega arith) (omega arith))

zero-bit_or : (b : ℕ) → bit_or 0 b ≡ b
zero-bit_or b = bit_or-bitwise 0 b

-- The law for the lowest digit.
bit_or_step : (a b : ℕ) → bit_or a b ≡ bit_or (a / 2) (b / 2) * 2 + max (a % 2) (b % 2)
bit_or_step zero b = omega (arith, zero-bit_or b, zero-bit_or (b / 2))
bit_or_step (suc a) b = omega (
  arith,
  bit_or-bitwise (suc a) b,
  bit_or-bitwise (suc a / 2) (b / 2),
  or_digits_fuel a (suc a / 2) (suc a / 2) (b / 2) (omega arith) (omega arith),
)

bit_or-zero_fuel : (n a : ℕ) → a ≤ n → bit_or a 0 ≡ a
bit_or-zero_fuel n zero h = refl
bit_or-zero_fuel zero (suc a) h = absurd (omega arith)
bit_or-zero_fuel (suc n) (suc a) h =
    omega (arith, bit_or_step (suc a) 0, bit_or-zero_fuel n (suc a / 2) (omega arith))

bit_or-zero : (a : ℕ) → bit_or a 0 ≡ a
bit_or-zero a = bit_or-zero_fuel a a (omega arith)

double_shift : (q k : ℕ) → q * 2 ^ suc k ≡ 2 * (q * 2 ^ k)
double_shift q k = omega (arith, ap (λ (t : ℕ). q * t) (pow-suc 2 k))

-- `(q << k) | r` for an `r` of `k` bits
pub shifted-bit_or : (k q r : ℕ) → r < 2 ^ k → bit_or (q * 2 ^ k) r ≡ q * 2 ^ k + r
shifted-bit_or zero q r h = ground (arith, bit_or-zero q)
shifted-bit_or (suc k) q r h = ground (
  arith,
  bit_or_step (q * 2 ^ suc k) r,
  double_shift q k,
  shifted-bit_or k q (r / 2) (omega (arith, pow-suc 2 k)),
)

-- `r | (q << k)` for an `r` of `k` bits
pub bit_or-shifted : (k q r : ℕ) → r < 2 ^ k → bit_or r (q * 2 ^ k) ≡ r + q * 2 ^ k
bit_or-shifted zero q r h = ground (arith, zero-bit_or q)
bit_or-shifted (suc k) q r h = ground (
  arith,
  bit_or_step r (q * 2 ^ suc k),
  double_shift q k,
  bit_or-shifted k q (r / 2) (omega (arith, pow-suc 2 k)),
)

-- An operation on digits whose results are digits stays within the bits of its arguments.
digits_bound :
    (z : ℕ → ℕ) (f : ℕ → ℕ → ℕ)
    → ((b : ℕ) → z b ≤ b)
    → ((x y : ℕ) → x < 2 → y < 2 → f x y < 2)
    → (n k a b : ℕ) → a < 2 ^ k
    → b < 2 ^ k
    → digits z f n a b < 2 ^ k
digits_bound z f p q zero k a b h g = omega (arith, p b)
digits_bound z f p q (suc n) k zero b h g = omega (arith, p b)
digits_bound z f p q (suc n) zero (suc a) b h g = absurd (omega arith)
digits_bound z f p q (suc n) (suc k) (suc a) b h g =
    let rest =
      digits_bound z f p q n k (suc a / 2) (b / 2) (omega (arith, pow-suc 2 k))
        (omega (arith, pow-suc 2 k)) in
    let digit = q (suc a % 2) (b % 2) (omega arith) (omega arith) in
    omega (arith, pow-suc 2 k, rest, digit)

differ_bound : (x y : ℕ) → x < 2 → y < 2 → differ x y < 2
differ_bound zero y h g = g
differ_bound (suc x) zero h g = h
differ_bound (suc x) (suc y) h g = differ_bound x y (omega arith) (omega arith)

pub bit_or_bound : (k a b : ℕ) → a < 2 ^ k → b < 2 ^ k → bit_or a b < 2 ^ k
bit_or_bound k a b h g = omega (
  arith,
  bit_or-bitwise a b,
  digits_bound (λ b. b) max (λ b. omega arith) (λ x y p q. omega arith) a k a b h g,
)

pub bit_and_bound : (k a b : ℕ) → a < 2 ^ k → b < 2 ^ k → bit_and a b < 2 ^ k
bit_and_bound k a b h g = omega (
  arith,
  bit_and-bitwise a b,
  digits_bound (λ b. 0) min (λ b. omega arith) (λ x y p q. omega arith) a k a b h g,
)

pub bit_xor_bound : (k a b : ℕ) → a < 2 ^ k → b < 2 ^ k → bit_xor a b < 2 ^ k
bit_xor_bound k a b h g = omega (
  arith,
  bit_xor-bitwise a b,
  digits_bound (λ b. b) differ (λ b. omega arith) differ_bound a k a b h g,
)
