-- ===== src/Base/Bits.antt =====
-- Laws of `&` and `|` on native numbers: masks as remainders, and disjoint fields as sums.
use Prim.Native.Nat.{
  ℕ, zero, suc, ◌+◌, ◌-◌, ◌*◌, ◌/◌, ◌%◌, ◌^◌, ◌≤◌, ◌<◌, min, max, bit_and, bit_or, bitwise, digits,
  bit_and-bitwise, bit_or-bitwise,
}
use mathlib.Core.Path.{◌≡◌, refl, ap, ◌∙◌}
use native.Mathlib.Nat.{pow-suc, one-le-pow, div-div-eq-div-mul}
use native.Mathlib.Omega.{arith}

module _ (z : ℕ → ℕ) (f : ℕ → ℕ → ℕ) where
  -- The digit recursion does not depend on its fuel once that covers the number.
  digits-enough : (n m a b : ℕ) → a ≤ n → a ≤ m → digits z f n a b ≡ digits z f m a b
  digits-enough zero zero a b p q = refl
  digits-enough zero (suc m) (suc a) b p q = absurd (omega arith)
  digits-enough zero (suc m) zero b p q = refl
  digits-enough (suc n) zero zero b p q = refl
  digits-enough (suc n) zero (suc a) b p q = absurd (omega arith)
  digits-enough (suc n) (suc m) zero b p q = refl
  digits-enough (suc n) (suc m) (suc a) b p q =
      rw (digits-enough n m (suc a / 2) (b / 2) (omega arith) (omega arith))

  bitwise_digit :
      (a b : ℕ)
      → bitwise z f (suc a) b ≡ f (suc a % 2) (b % 2) + 2 * bitwise z f (suc a / 2) (b / 2)
  bitwise_digit a b =
      omega (arith, digits-enough a (suc a / 2) (suc a / 2) (b / 2) (omega arith) (omega arith))

pub bit_and_digit : (a b : ℕ) → bit_and a b ≡ min (a % 2) (b % 2) + 2 * bit_and (a / 2) (b / 2)
bit_and_digit zero b = simp bit_and-bitwise (omega arith)
bit_and_digit (suc a) b = simp bit_and-bitwise (bitwise_digit (λ y. 0) min a b)

pub bit_or_digit : (a b : ℕ) → bit_or a b ≡ max (a % 2) (b % 2) + 2 * bit_or (a / 2) (b / 2)
bit_or_digit zero b = simp bit_or-bitwise (omega arith)
bit_or_digit (suc a) b = simp bit_or-bitwise (bitwise_digit (λ y. y) max a b)

-- Halving below a bound `k` steps deep reaches zero.
bit_and-zero_below : (k a : ℕ) → a ≤ k → bit_and a 0 ≡ 0
bit_and-zero_below k zero h = refl
bit_and-zero_below zero (suc a) h = absurd (omega arith)
bit_and-zero_below (suc k) (suc a) h =
    omega (arith, bit_and_digit (suc a) 0, bit_and-zero_below k (suc a / 2) (omega arith))

bit_or-zero_below : (k a : ℕ) → a ≤ k → bit_or a 0 ≡ a
bit_or-zero_below k zero h = refl
bit_or-zero_below zero (suc a) h = absurd (omega arith)
bit_or-zero_below (suc k) (suc a) h =
    omega (arith, bit_or_digit (suc a) 0, bit_or-zero_below k (suc a / 2) (omega arith))

pub bit_and-zero : (a : ℕ) → bit_and a 0 ≡ 0
bit_and-zero a = bit_and-zero_below a a (omega arith)

pub bit_or-zero : (a : ℕ) → bit_or a 0 ≡ a
bit_or-zero a = bit_or-zero_below a a (omega arith)

pub zero-bit_or : (a : ℕ) → bit_or 0 a ≡ a
zero-bit_or a = simp bit_or-bitwise refl

mod_double : (a m : ℕ) → 0 < m → a % (2 * m) ≡ a / 2 % m * 2 + a % 2
mod_double a m h = grind arith

-- A mask of `k` low ones takes the remainder by `2 ^ k`.
pub bit_and-mask : (k a : ℕ) → bit_and a (2 ^ k - 1) ≡ a % 2 ^ k
bit_and-mask zero a = omega (arith, bit_and-zero a)
bit_and-mask (suc k) a = ground (
  arith,
  pow-suc 2 k,
  one-le-pow k 2,
  bit_and_digit a (2 ^ suc k - 1),
  bit_and-mask k (a / 2),
  mod_double a (2 ^ k),
)

shift_double : (q k : ℕ) → q * 2 ^ suc k ≡ 2 * (q * 2 ^ k)
shift_double q k = omega (arith, ap (λ (t : ℕ). q * t) (pow-suc 2 k))

-- `(q << k) | r` is a sum where `r` fits the `k` low bits.
pub bit_or-shifted : (k q r : ℕ) → r < 2 ^ k → bit_or (q * 2 ^ k) r ≡ q * 2 ^ k + r
bit_or-shifted zero q r h = ground (arith, bit_or-zero q)
bit_or-shifted (suc k) q r h = ground (
  arith,
  pow-suc 2 k,
  shift_double q k,
  bit_or_digit (q * 2 ^ suc k) r,
  bit_or-shifted k q (r / 2) (omega arith),
)

half_power : (k a : ℕ) → a / 2 / 2 ^ k ≡ a / 2 ^ suc k
half_power k a = div-div-eq-div-mul a 2 (2 ^ k) ∙ ap (λ t. a / t) (omega (arith, pow-suc 2 k))

-- A mask `m << k` takes the bits from `k` on that `m` takes of them.
pub bit_and-shifted : (k a m : ℕ) → bit_and a (m * 2 ^ k) ≡ bit_and (a / 2 ^ k) m * 2 ^ k
bit_and-shifted zero a m =
    let mask : m * 1 ≡ m = omega arith in
    let whole : a / 1 ≡ a = omega arith in rw (mask, whole) (omega arith)
bit_and-shifted (suc k) a m =
    let half : m * 2 ^ suc k / 2 ≡ m * 2 ^ k = omega (arith, shift_double m k) in
    omega (
      arith,
      shift_double m k,
      ap (bit_and (a / 2)) half,
      bit_and_digit a (m * 2 ^ suc k),
      bit_and-shifted k (a / 2) m ∙ ap (λ t. bit_and t m * 2 ^ k) (half_power k a),
      shift_double (bit_and (a / 2 ^ suc k) m) k,
    )

pub power-add : (k m : ℕ) → 2 ^ (k + m) ≡ 2 ^ k * 2 ^ m
power-add k zero = grind arith
power-add k (suc m) = grind (arith, pow-suc 2 (k + m), pow-suc 2 m, power-add k m)
