-- ===== src/Base/Bits.antt =====
-- `&` with low and high masks and `|` of disjoint fields, as arithmetic at every width.
use Prim.Native.Nat.{ℕ, zero, suc, ◌+◌, ◌-◌, ◌*◌, ◌/◌, ◌%◌, ◌^◌, ◌≤◌, ◌<◌, min, max}
use Prim.Native.Nat.{bit_and, bit_or, digits, bit_and-bitwise, bit_or-bitwise}
use mathlib.Core.Path.{◌≡◌, refl, ap}
use native.Mathlib.Nat.{pow-suc, one-le-pow}
use native.Mathlib.Omega.{arith}

module _ (z : ℕ → ℕ) (f : ℕ → ℕ → ℕ) where
  -- Any two fuels that cover the first number give the same digits.
  fuel_irrelevant : (k l a b : ℕ) → a ≤ k → a ≤ l → digits z f k a b ≡ digits z f l a b
  fuel_irrelevant zero zero a b p q = refl
  fuel_irrelevant zero (suc l) zero b p q = refl
  fuel_irrelevant zero (suc l) (suc a) b p q = absurd (omega arith)
  fuel_irrelevant (suc k) zero zero b p q = refl
  fuel_irrelevant (suc k) zero (suc a) b p q = absurd (omega arith)
  fuel_irrelevant (suc k) (suc l) zero b p q = refl
  fuel_irrelevant (suc k) (suc l) (suc a) b p q =
      rw (fuel_irrelevant k l (suc a / 2) (b / 2) (omega arith) (omega arith))

-- The lowest digit first.
and_digit : (a b : ℕ) → bit_and a b ≡ bit_and (a / 2) (b / 2) * 2 + min (a % 2) (b % 2)
and_digit zero b = omega (arith, bit_and-bitwise 0 b, bit_and-bitwise 0 (b / 2))
and_digit (suc a) b = omega (
  arith,
  bit_and-bitwise (suc a) b,
  bit_and-bitwise (suc a / 2) (b / 2),
  fuel_irrelevant (λ _. zero) min a (suc a / 2) (suc a / 2) (b / 2) (omega arith) (omega arith),
)

pub or_digit : (a b : ℕ) → bit_or a b ≡ bit_or (a / 2) (b / 2) * 2 + max (a % 2) (b % 2)
or_digit zero b = omega (arith, bit_or-bitwise 0 b, bit_or-bitwise 0 (b / 2))
or_digit (suc a) b = omega (
  arith,
  bit_or-bitwise (suc a) b,
  bit_or-bitwise (suc a / 2) (b / 2),
  fuel_irrelevant (λ d. d) max a (suc a / 2) (suc a / 2) (b / 2) (omega arith) (omega arith),
)

and_zero_below : (n a : ℕ) → a ≤ n → bit_and a 0 ≡ 0
and_zero_below n zero h = refl
and_zero_below zero (suc a) h = absurd (omega arith)
and_zero_below (suc n) (suc a) h =
    omega (arith, and_digit (suc a) 0, and_zero_below n (suc a / 2) (omega arith))

or_zero_below : (n a : ℕ) → a ≤ n → bit_or a 0 ≡ a
or_zero_below n zero h = refl
or_zero_below zero (suc a) h = absurd (omega arith)
or_zero_below (suc n) (suc a) h =
    omega (arith, or_digit (suc a) 0, or_zero_below n (suc a / 2) (omega arith))

double_field : (q k : ℕ) → q * 2 ^ suc k ≡ 2 * (q * 2 ^ k)
double_field q k = omega (arith, ap (λ (t : ℕ). q * t) (pow-suc 2 k))

-- `a & (2^k - 1)` keeps the low field of `a`.
pub and_low : (k q r : ℕ) → r < 2 ^ k → bit_and (q * 2 ^ k + r) (2 ^ k - 1) ≡ r
and_low zero q r h = ground (arith, and_zero_below (q * 1 + r) (q * 1 + r))
and_low (suc k) q r h = ground (
  arith,
  and_digit (q * 2 ^ suc k + r) (2 ^ suc k - 1),
  double_field q k,
  pow-suc 2 k,
  and_low k q (r / 2),
)

-- A mask of high bits ignores the low field of `a`.
pub and_high : (k q r m : ℕ) → r < 2 ^ k → bit_and (q * 2 ^ k + r) (m * 2 ^ k) ≡ bit_and q m * 2 ^ k
and_high zero q r m h =
    let e : q * 2 ^ 0 + r ≡ q = omega arith in
    let e' : m * 2 ^ 0 ≡ m = omega arith in rw (e, e') (omega arith)
and_high (suc k) q r m h = ground (
  arith,
  and_digit (q * 2 ^ suc k + r) (m * 2 ^ suc k),
  double_field q k,
  double_field m k,
  double_field (bit_and q m) k,
  pow-suc 2 k,
  and_high k q (r / 2) m,
)

-- `q << k | r` is a sum when `r` fits `k` bits.
pub or_low : (k q r : ℕ) → r < 2 ^ k → bit_or (q * 2 ^ k) r ≡ q * 2 ^ k + r
or_low zero q r h = ground (arith, or_zero_below (q * 1) (q * 1))
or_low (suc k) q r h =
    ground (arith, or_digit (q * 2 ^ suc k) r, double_field q k, pow-suc 2 k, or_low k q (r / 2))

-- A low mask takes a remainder.
pub and_mask : (k a : ℕ) → bit_and a (2 ^ k - 1) ≡ a % 2 ^ k
and_mask k a = ground (arith, one-le-pow k 2, and_low k (a / 2 ^ k) (a % 2 ^ k))

or_zero_left : (n a : ℕ) → a ≤ n → bit_or 0 a ≡ a
or_zero_left n zero h = refl
or_zero_left zero (suc a) h = absurd (omega arith)
or_zero_left (suc n) (suc a) h =
    omega (arith, or_digit 0 (suc a), or_zero_left n (suc a / 2) (omega arith))

-- The same with the low field in front.
pub or_high : (k q r : ℕ) → r < 2 ^ k → bit_or r (q * 2 ^ k) ≡ q * 2 ^ k + r
or_high zero q r h = ground (arith, or_zero_left (q * 1) (q * 1))
or_high (suc k) q r h =
    ground (arith, or_digit r (q * 2 ^ suc k), double_field q k, pow-suc 2 k, or_high k q (r / 2))
