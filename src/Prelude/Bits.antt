-- ===== src/Prelude/Bits.antt =====
-- `&` and `|` at variables: both operations go field by field, for every split of the word.
use Prim.Native.Nat.{
  ℕ, zero, suc, ◌+◌, ◌-◌, ◌*◌, ◌/◌, ◌%◌, ◌^◌, ◌≤◌, ◌<◌, min, max, bit_and, bit_or, digits,
  bit_and-bitwise, bit_or-bitwise,
}
use mathlib.Core.Path.{◌≡◌, refl, ap}
use native.Mathlib.Omega.{arith}
use native.Mathlib.Nat.{pow-suc, one-le-pow}

-- The recursion on binary digits needs no more fuel than the number itself.
module _ (z : ℕ → ℕ) (f : ℕ → ℕ → ℕ) where
  more_fuel : (n m a b : ℕ) → a ≤ n → a ≤ m → digits z f n a b ≡ digits z f m a b
  more_fuel zero zero a b p q = refl
  more_fuel zero (suc m) zero b p q = refl
  more_fuel zero (suc m) (suc a) b p q = absurd (omega arith)
  more_fuel (suc n) zero zero b p q = refl
  more_fuel (suc n) zero (suc a) b p q = absurd (omega arith)
  more_fuel (suc n) (suc m) zero b p q = refl
  more_fuel (suc n) (suc m) (suc a) b p q =
      omega (arith, more_fuel n m (suc a / 2) (b / 2) (omega arith) (omega arith))

pub bit_and-digit : (a b : ℕ) → bit_and a b ≡ bit_and (a / 2) (b / 2) * 2 + min (a % 2) (b % 2)
bit_and-digit zero b = omega (arith, bit_and-bitwise 0 b, bit_and-bitwise 0 (b / 2))
bit_and-digit (suc a) b = omega (
  arith,
  bit_and-bitwise (suc a) b,
  bit_and-bitwise (suc a / 2) (b / 2),
  more_fuel (λ y. 0) min a (suc a / 2) (suc a / 2) (b / 2) (omega arith) (omega arith),
)

pub bit_or-digit : (a b : ℕ) → bit_or a b ≡ bit_or (a / 2) (b / 2) * 2 + max (a % 2) (b % 2)
bit_or-digit zero b = omega (arith, bit_or-bitwise 0 b, bit_or-bitwise 0 (b / 2))
bit_or-digit (suc a) b = omega (
  arith,
  bit_or-bitwise (suc a) b,
  bit_or-bitwise (suc a / 2) (b / 2),
  more_fuel (λ y. y) max a (suc a / 2) (suc a / 2) (b / 2) (omega arith) (omega arith),
)

bit_and-zero_bound : (n a : ℕ) → a ≤ n → bit_and a 0 ≡ 0
bit_and-zero_bound n zero h = refl
bit_and-zero_bound zero (suc a) h = absurd (omega arith)
bit_and-zero_bound (suc n) (suc a) h =
    omega (arith, bit_and-digit (suc a) 0, bit_and-zero_bound n (suc a / 2) (omega arith))

pub bit_and-zero : (a : ℕ) → bit_and a 0 ≡ 0
bit_and-zero a = bit_and-zero_bound a a (omega arith)

bit_or-zero_bound : (n a : ℕ) → a ≤ n → bit_or a 0 ≡ a
bit_or-zero_bound n zero h = refl
bit_or-zero_bound zero (suc a) h = absurd (omega arith)
bit_or-zero_bound (suc n) (suc a) h =
    omega (arith, bit_or-digit (suc a) 0, bit_or-zero_bound n (suc a / 2) (omega arith))

pub bit_or-zero : (a : ℕ) → bit_or a 0 ≡ a
bit_or-zero a = bit_or-zero_bound a a (omega arith)

pub zero-bit_or : (a : ℕ) → bit_or 0 a ≡ a
zero-bit_or a = bit_or-bitwise 0 a

pub zero-bit_and : (a : ℕ) → bit_and 0 a ≡ 0
zero-bit_and a = bit_and-bitwise 0 a

double_field : (q k : ℕ) → q * 2 ^ suc k ≡ 2 * (q * 2 ^ k)
double_field q k = omega (arith, ap (λ (t : ℕ). q * t) (pow-suc 2 k))

-- Two words split at bit `k`: the parts are combined on their own.
pub bit_and-split :
    (k a b r s : ℕ)
    → r < 2 ^ k
    → s < 2 ^ k
    → bit_and (a * 2 ^ k + r) (b * 2 ^ k + s) ≡ bit_and a b * 2 ^ k + bit_and r s
bit_and-split zero a b r s hr hs = ground (arith, bit_and-zero 0)
bit_and-split (suc k) a b r s hr hs = ground (
  arith,
  pow-suc 2 k,
  double_field a k,
  double_field b k,
  double_field (bit_and a b) k,
  bit_and-digit (a * 2 ^ suc k + r) (b * 2 ^ suc k + s),
  bit_and-digit r s,
  bit_and-split k a b (r / 2) (s / 2) (omega arith) (omega arith),
)

pub bit_or-split :
    (k a b r s : ℕ)
    → r < 2 ^ k
    → s < 2 ^ k
    → bit_or (a * 2 ^ k + r) (b * 2 ^ k + s) ≡ bit_or a b * 2 ^ k + bit_or r s
bit_or-split zero a b r s hr hs = ground (arith, bit_or-zero 0)
bit_or-split (suc k) a b r s hr hs = ground (
  arith,
  pow-suc 2 k,
  double_field a k,
  double_field b k,
  double_field (bit_or a b) k,
  bit_or-digit (a * 2 ^ suc k + r) (b * 2 ^ suc k + s),
  bit_or-digit r s,
  bit_or-split k a b (r / 2) (s / 2) (omega arith) (omega arith),
)

bit_and-all_ones : (k r : ℕ) → r < 2 ^ k → bit_and r (2 ^ k - 1) ≡ r
bit_and-all_ones zero r h = ground (arith, bit_and-zero r)
bit_and-all_ones (suc k) r h = ground (
  arith,
  pow-suc 2 k,
  one-le-pow k 2,
  bit_and-digit r (2 ^ suc k - 1),
  bit_and-all_ones k (r / 2),
)

-- `&` with the `k` low bits set is the remainder.
pub bit_and-mask : (k a : ℕ) → bit_and a (2 ^ k - 1) ≡ a % 2 ^ k
bit_and-mask k a = ground (
  arith,
  one-le-pow k 2,
  bit_and-split k (a / 2 ^ k) 0 (a % 2 ^ k) (2 ^ k - 1),
  bit_and-all_ones k (a % 2 ^ k),
  bit_and-zero (a / 2 ^ k),
)

-- The words written as fields of `k` bits.
pub bit_or-fields : (k q r : ℕ) → r < 2 ^ k → bit_or (q * 2 ^ k) r ≡ q * 2 ^ k + r
bit_or-fields k q r h = ground (arith, bit_or-split k q 0 0 r, bit_or-zero q, zero-bit_or r)
