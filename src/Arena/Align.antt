-- ===== src/Arena/Align.antt =====
-- The rounding of crates/kwokka-core/src/arena/bump.rs, and powers of two.
use kwokka.Base.{
  ℕ, zero, suc, ◌+◌, ◌-◌, ◌*◌, ◌/◌, ◌%◌, ◌^◌, ◌<◌, ◌≤◌, ◌≡◌, ◌≢◌, refl, sym, ap, ◌∙◌, true, bit_and,
  u64_mod, arith, ◌==◌, ==_iff, ==_false, Bool-cases, inl, inr,
}
use native.Mathlib.Nat.{
  pow-suc, one-le-pow, mod-add-div, mul-mod_left, mul_comm, div-lt_iff_lt-mul, mod-lt, mod-eq_of_lt,
}
use kwokka.Base.Bits.{bit_and_digit, bit_and-mask, bit_and-shifted, power-add}
use kwokka.Arena.{align_up, is_power_of_two}

bit_and_self : (n a : ℕ) → a ≤ n → bit_and a a ≡ a
bit_and_self n zero h = refl
bit_and_self zero (suc a) h = absurd (omega arith)
bit_and_self (suc n) (suc a) h =
    omega (arith, bit_and_digit (suc a) (suc a), bit_and_self n (suc a / 2) (omega arith))

-- What the test for a power of two accepts is one.
power_of_two : (n a : ℕ) → a ≤ n → a ≢ 0 → bit_and a (a - 1) ≡ 0 → (k : ℕ) × (a ≡ 2 ^ k)
power_of_two zero a h ne e = absurd (ne (omega arith))
power_of_two (suc n) a h ne e = elim (Bool-cases (a % 2 == 1)) [
  | inl o ↦
      let odd : a % 2 ≡ 1 = (==_iff (a % 2) 1).0 o in
      let half : (a - 1) / 2 ≡ a / 2 = omega arith in
      let none : a / 2 ≡ 0 = omega (
        arith,
        e,
        bit_and_digit a (a - 1),
        ap (bit_and (a / 2)) half,
        bit_and_self (a / 2) (a / 2) (omega arith),
      ) in
      (0, omega arith)
  | inr o ↦
      let even : a % 2 ≡ 0 = omega (arith, ==_false (a % 2) 1 o) in
      let half : (a - 1) / 2 ≡ a / 2 - 1 = omega arith in
      let (k, p) =
        power_of_two n (a / 2) (omega arith) (omega arith)
          (omega (arith, e, bit_and_digit a (a - 1), ap (bit_and (a / 2)) half)) in
      (suc k, omega (arith, p, pow-suc 2 k))
]

not_power : (a : ℕ) → is_power_of_two a ≡ true → a ≢ 0
not_power a h e = ground (arith, h, e)

pub is_power_of_two-power : (a : ℕ) → is_power_of_two a ≡ true → (k : ℕ) × (a ≡ 2 ^ k)
is_power_of_two-power a h =
    power_of_two a a (omega arith) (λ e. not_power a h e) (ground (arith, h))

pred_mul : (n m : ℕ) → 1 ≤ n → (n - 1) * m + m ≡ n * m
pred_mul zero m h = absurd (omega arith)
pred_mul (suc n) m h = grind arith

-- The mask of the high bits rounds down.
round_down :
    (x k : ℕ) → k ≤ 63 → x < u64_mod → bit_and x (u64_mod - 1 - (2 ^ k - 1)) ≡ x / 2 ^ k * 2 ^ k
round_down x k small fits =
    let whole : 2 ^ k * 2 ^ (64 - k) ≡ u64_mod =
      sym (power-add k (64 - k)) ∙ ap (λ t. 2 ^ t) {y = 64} (omega arith) in
    let high : u64_mod - 1 - (2 ^ k - 1) ≡ (2 ^ (64 - k) - 1) * 2 ^ k = omega (
      arith,
      whole,
      one-le-pow k 2,
      pred_mul (2 ^ (64 - k)) (2 ^ k) (one-le-pow (64 - k) 2 (omega arith)),
      mul_comm (2 ^ k) (2 ^ (64 - k)),
    ) in
    let below : x / 2 ^ k < 2 ^ (64 - k) =
      (div-lt_iff_lt-mul (one-le-pow k 2 (omega arith))).1
        (omega (arith, whole, mul_comm (2 ^ k) (2 ^ (64 - k)))) in
    ap (bit_and x) high
    ∙ bit_and-shifted k x (2 ^ (64 - k) - 1)
    ∙ ap (λ t. t * 2 ^ k) (bit_and-mask (64 - k) (x / 2 ^ k) ∙ mod-eq_of_lt below)

-- Rounding up to a power of two gives the next multiple of it.
pub align_up-next :
    (addr k : ℕ)
    → k ≤ 63
    → addr + 2 ^ k < u64_mod
    → (addr ≤ align_up addr (2 ^ k))
      × (align_up addr (2 ^ k) < addr + 2 ^ k)
      × (align_up addr (2 ^ k) % 2 ^ k ≡ 0)
unfolding align_up
align_up-next addr k small fits =
    let x = addr + 2 ^ k - 1 in
    let down = round_down x k small (omega arith) in
    let parts = mod-add-div x (2 ^ k) in
    let low = mod-lt x {m = 2 ^ k} (one-le-pow k 2 (omega arith)) in
    let flip : x / 2 ^ k * 2 ^ k ≡ 2 ^ k * (x / 2 ^ k) = mul_comm (x / 2 ^ k) (2 ^ k) in
    (
      omega (arith, down, parts, low, flip),
      omega (arith, down, parts, low, flip, one-le-pow k 2 (omega arith)),
      rw down (mul-mod_left (x / 2 ^ k) (2 ^ k)),
    )
