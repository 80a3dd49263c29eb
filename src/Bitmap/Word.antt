-- ===== src/Bitmap/Word.antt =====
-- The bits of a word, and what the masks of one bit do to them.
use Prim.Native.Nat.{min, max}
use kwokka.Base.{
  ℕ, zero, suc, ◌-◌, ◌*◌, ◌/◌, ◌%◌, ◌^◌, ◌<◌, ◌≤◌, ◌≡◌, ◌≢◌, refl, ap, true, false, bit_and, bit_or,
  ◌==◌, u64_mod, arith,
}
use native.Mathlib.Nat.{pow-suc, one-le-pow, pow-le-pow_right}
use kwokka.Base.Bits.{bit_and_digit, bit_or_digit, bit_and-zero}
use kwokka.Bitmap.{has_bit, set_bit, clear_bit}

abbrev pub bit : ℕ → ℕ → ℕ
bit zero w = w % 2
bit (suc c) w = bit c (w / 2)

pub bit-bit_and : (c a b : ℕ) → bit c (bit_and a b) ≡ min (bit c a) (bit c b)
bit-bit_and zero a b = omega (arith, bit_and_digit a b)
bit-bit_and (suc c) a b =
    let half : bit_and a b / 2 ≡ bit_and (a / 2) (b / 2) = omega (arith, bit_and_digit a b) in
    rw half (bit-bit_and c (a / 2) (b / 2))

bit-bit_or : (c a b : ℕ) → bit c (bit_or a b) ≡ max (bit c a) (bit c b)
bit-bit_or zero a b = omega (arith, bit_or_digit a b)
bit-bit_or (suc c) a b =
    let half : bit_or a b / 2 ≡ bit_or (a / 2) (b / 2) = omega (arith, bit_or_digit a b) in
    rw half (bit-bit_or c (a / 2) (b / 2))

pub bit-lt : (c w : ℕ) → bit c w < 2
bit-lt zero w = omega arith
bit-lt (suc c) w = bit-lt c (w / 2)

half_power : (b : ℕ) → (2 ^ suc b / 2 ≡ 2 ^ b) × (2 ^ suc b % 2 ≡ 0)
half_power b = omega (arith, pow-suc 2 b)

pub bit-zero : (c : ℕ) → bit c 0 ≡ 0
bit-zero zero = refl
bit-zero (suc c) = bit-zero c

bit-power_self : (b : ℕ) → bit b (2 ^ b) ≡ 1
bit-power_self zero = refl
bit-power_self (suc b) = rw (half_power b).0 (bit-power_self b)

bit-power_ne : (c b : ℕ) → c ≢ b → bit c (2 ^ b) ≡ 0
bit-power_ne zero zero h = absurd (h refl)
bit-power_ne zero (suc b) h = (half_power b).1
bit-power_ne (suc c) zero h = bit-zero c
bit-power_ne (suc c) (suc b) h = rw (half_power b).0 (bit-power_ne c b (omega arith))

power_below : (n b : ℕ) → b < n → 2 * 2 ^ b ≤ 2 ^ n
power_below n b h =
    omega (arith, pow-suc 2 b, pow-le-pow_right {n = 2} (omega arith) {i = suc b} {j = n} h)

half_mask : (n b : ℕ) → b < n → (2 ^ suc n - 1 - 2 ^ suc b) / 2 ≡ 2 ^ n - 1 - 2 ^ b
half_mask n b h = omega (arith, pow-suc 2 n, pow-suc 2 b, power_below n b h, one-le-pow b 2)

pub bit-ones : (n c : ℕ) → c < n → bit c (2 ^ n - 1) ≡ 1
bit-ones zero c h = elim h [ ]
bit-ones (suc n) zero h = omega (arith, pow-suc 2 n, one-le-pow n 2)
bit-ones (suc n) (suc c) h =
    let half : (2 ^ suc n - 1) / 2 ≡ 2 ^ n - 1 = omega (arith, pow-suc 2 n, one-le-pow n 2) in
    rw half (bit-ones n c (omega arith))

-- The bits of `2 ^ n - 1 - 2 ^ b`.
bit-mask_self : (n b : ℕ) → b < n → bit b (2 ^ n - 1 - 2 ^ b) ≡ 0
bit-mask_self zero b h = elim h [ ]
bit-mask_self (suc n) zero h = omega (arith, pow-suc 2 n, one-le-pow n 2)
bit-mask_self (suc n) (suc b) h = rw (half_mask n b (omega arith)) (bit-mask_self n b (omega arith))

bit-mask_ne : (n c b : ℕ) → c < n → b < n → c ≢ b → bit c (2 ^ n - 1 - 2 ^ b) ≡ 1
bit-mask_ne zero c b h l ne = elim h [ ]
bit-mask_ne (suc n) zero zero h l ne = absurd (ne refl)
bit-mask_ne (suc n) zero (suc b) h l ne =
    omega (arith, pow-suc 2 n, pow-suc 2 b, one-le-pow b 2, power_below n b (omega arith))
bit-mask_ne (suc n) (suc c) zero h l ne =
    let half : (2 ^ suc n - 1 - 1) / 2 ≡ 2 ^ n - 1 = omega (arith, pow-suc 2 n, one-le-pow n 2) in
    rw half (bit-ones n c (omega arith))
bit-mask_ne (suc n) (suc c) (suc b) h l ne =
    rw (half_mask n b (omega arith)) (bit-mask_ne n c b (omega arith) (omega arith) (omega arith))

bit_and-power : (b w : ℕ) → bit_and w (2 ^ b) ≡ bit b w * 2 ^ b
bit_and-power zero w = omega (arith, bit_and_digit w 1, bit_and-zero (w / 2))
bit_and-power (suc b) w = grind (
  arith,
  bit_and_digit w (2 ^ suc b),
  ap (bit_and (w / 2)) (half_power b).0,
  half_power b,
  bit_and-power b (w / 2),
  pow-suc 2 b,
)

pub has_bit-bit : (w b : ℕ) → has_bit w b ≡ (bit b w == 1)
unfolding has_bit
has_bit-bit w b = ground (arith, bit_and-power b w, bit-lt b w, one-le-pow b 2)

pub has_bit-set_self : (w b : ℕ) → has_bit (set_bit w b) b ≡ true
unfolding set_bit
has_bit-set_self w b =
    rw has_bit-bit (ground (arith, bit-bit_or b w (2 ^ b), bit-power_self b, bit-lt b w))

pub has_bit-set_ne : (w b c : ℕ) → c ≢ b → has_bit (set_bit w b) c ≡ has_bit w c
unfolding set_bit
has_bit-set_ne w b c h =
    let same : bit c (bit_or w (2 ^ b)) ≡ bit c w =
      omega (arith, bit-bit_or c w (2 ^ b), bit-power_ne c b h) in
    rw (has_bit-bit w c, has_bit-bit (bit_or w (2 ^ b)) c, same) refl

pub has_bit-clear_self : (w b : ℕ) → b < 64 → has_bit (clear_bit w b) b ≡ false
unfolding clear_bit
has_bit-clear_self w b h =
    rw has_bit-bit (ground (arith, bit-bit_and b w (u64_mod - 1 - 2 ^ b), bit-mask_self 64 b h))

pub has_bit-clear_ne :
    (w b c : ℕ) → c < 64 → b < 64 → c ≢ b → has_bit (clear_bit w b) c ≡ has_bit w c
unfolding clear_bit
has_bit-clear_ne w b c l h ne =
    let mask = u64_mod - 1 - 2 ^ b in
    let same : bit c (bit_and w mask) ≡ bit c w =
      omega (arith, bit-bit_and c w mask, bit-mask_ne 64 c b l h ne, bit-lt c w) in
    rw (has_bit-bit w c, has_bit-bit (bit_and w mask) c, same) refl
