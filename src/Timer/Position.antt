-- ===== src/Timer/Position.antt =====
-- The place that `position` of crates/kwokka-runtime/src/timer/wheel/hierarchy.rs gives a deadline,
-- and the ticks at which the wheel looks there.
use Prim.Native.Nat.{min}
use kwokka.Base.{
  ℕ, zero, suc, ◌+◌, ◌-◌, ◌*◌, ◌/◌, ◌%◌, ◌^◌, ◌≤◌, ◌<◌, ◌≡◌, refl, sym, ap, ◌∙◌, ◌⊎◌, inl, inr,
  false, ◌==◌, leb, bit_and, u64_mod, arith, Bool-cases,
}
use mathlib.Core.Path.{subst}
use native.Mathlib.Nat.{
  pow-le-pow_right, one-le-pow, div-add-mod', mul-div_left, mul-mod_left, mod-lt, le-div_iff_mul-le,
  div-lt_iff_lt-mul, add-mul,
}
use native.Mathlib.Decide.{dec_lt}
use kwokka.Base.Bits.{bit_and-mask, power-add}
use kwokka.Timer.{leading_zeros, slot_at, position}

-- The highest bit of a word stands after its leading zeros.
leading_zeros-bit :
    (width n : ℕ)
    → 0 < n
    → n < 2 ^ width
    → (k : ℕ) × (leading_zeros width n + suc k ≡ width) × (2 ^ k ≤ n) × (n < 2 ^ suc k)
unfolding leading_zeros
leading_zeros-bit zero n positive small = absurd (omega (arith, positive, small))
leading_zeros-bit (suc width) n positive small = elim (Bool-cases (leb (2 ^ width) n)) [
  | inl f ↦ (width, rw f (omega arith), ground (arith, f), small)
  | inr f ↦
      let (k, e, low, high) = leading_zeros-bit width n positive (ground (arith, f)) in
      (k, rw f (omega (arith, e)), low, high)
]

below_power : (k m : ℕ) → 2 ^ k < 2 ^ m → k < m
below_power k m h = elim (dec_lt k m) [
  | yes lt ↦ lt
  | no ge ↦
      absurd (
        omega
          (arith, h, pow-le-pow_right {n = 2} (omega arith) {i = m} {j = k} (omega (arith, ge))))
]

slot_at-mod : (t level : ℕ) → slot_at t level ≡ t / 2 ^ (level * 6) % 64
slot_at-mod t level = bit_and-mask 6 (t / 2 ^ (level * 6))

-- The level that `position` chooses is the highest whose ticks are not longer than the time left.
position_level :
    (d c : ℕ)
    → c < d
    → d < u64_mod
    → (l : ℕ) × (position d c ≡ (l, slot_at d l))
      × (l < 6)
      × (2 ^ (l * 6) ≤ d - c)
      × (d - c < 2 ^ 36 → d - c < 64 * 2 ^ (l * 6))
unfolding position
position_level d c later small =
    let (k, e, low, high) = leading_zeros-bit 64 (d - c) (omega arith) (omega arith) in
    let l = min ((63 - leading_zeros 64 (d - c)) / 6) 5 in
    let left_over : ((d - c) == 0) ≡ false = ground arith in
    let is_k : 63 - leading_zeros 64 (d - c) ≡ k = omega (arith, e) in
    (
      l,
      rw left_over refl,
      omega arith,
      omega (
        arith,
        is_k,
        low,
        pow-le-pow_right {n = 2} (omega arith) {i = l * 6} {j = k} (omega (arith, is_k)),
      ),
      λ short.
          let below = below_power k 36 (omega (arith, low, short)) in
          omega (
            arith,
            high,
            power-add 6 (l * 6),
            pow-le-pow_right {n = 2} (omega arith) {i = suc k} {j = 6 + l * 6}
                (omega (arith, is_k, below)),
          ),
    )

-- The tick at which the wheel looks at the slot of a deadline: the last one of the slot's length.
visit :
    (d c l : ℕ)
    → c < d
    → 2 ^ (l * 6) ≤ d - c
    → (t : ℕ) × (c < t)
      × (t ≤ d)
      × (t % 2 ^ (l * 6) ≡ 0)
      × (slot_at t l ≡ slot_at d l)
      × (d < t + 2 ^ (l * 6))
visit d c l later reach =
    let p = 2 ^ (l * 6) in
    let q = d / p in
    let whole = div-add-mod' d p in
    let positive : 0 < p = one-le-pow (l * 6) 2 (omega arith) in
    let rest = mod-lt d {m = p} positive in
    (
      q * p,
      omega (arith, whole, rest, reach, later),
      omega (arith, whole, rest),
      mul-mod_left q p,
      ap (λ x. bit_and x 63) (mul-div_left q {n = p} positive),
      omega (arith, whole, rest),
    )

-- Closer to the deadline than a tick of a level, `position` chooses a lower level.
descends : (d t l : ℕ) → t < d → d < u64_mod → d < t + 2 ^ (l * 6) → (position d t).0 < l
descends d t l early small near =
    let (m, e, below, reach, short) = position_level d t early small in
    let lower = below_power (m * 6) (l * 6) (omega (arith, reach, near, early)) in
    subst (λ (p : ℕ × ℕ). p.0 < l) (sym e) (omega (arith, lower))

-- A deadline that is still ahead is given a level of the wheel, and a slot there that the wheel
-- looks at when a tick of that level begins, after the present tick and not after the deadline; what
-- is then left is less than one tick of the level, so the deadline has come, or it goes to a lower
-- level.
pub position-visit :
    (d c : ℕ)
    → c < d
    → d < u64_mod
    → ((position d c).0 < 6)
      × ((t : ℕ) × (c < t)
          × (t ≤ d)
          × (t % 2 ^ ((position d c).0 * 6) ≡ 0)
          × (slot_at t (position d c).0 ≡ (position d c).1)
          × ((t ≡ d) ⊎ ((position d t).0 < (position d c).0)))
position-visit d c later small =
    let (l, e, below, reach, short) = position_level d c later small in
    let (t, after, within, begins, here, near) = visit d c l later reach in
    let ends : (t ≡ d) ⊎ ((position d t).0 < l) = elim (dec_lt t d) [
      | yes early ↦ inr (descends d t l early small near)
      | no late ↦ inl (omega (arith, late, within))
    ] in
    subst
      (λ (p : ℕ × ℕ).
        (p.0 < 6)
        × ((t : ℕ) × (c < t)
            × (t ≤ d)
            × (t % 2 ^ (p.0 * 6) ≡ 0)
            × (slot_at t p.0 ≡ p.1)
            × ((t ≡ d) ⊎ ((position d t).0 < p.0))))
      (sym e) (below, (t, after, within, begins, here, ends))

-- A multiple of a tick's length, and a later number that is less than 64 of them away.
quotients_near :
    (t d p : ℕ)
    → 0 < p
    → t % p ≡ 0
    → t ≤ d
    → d < t + 64 * p
    → (t / p ≤ d / p) × (d / p < t / p + 64)
quotients_near t d p positive begins within near =
    let whole = div-add-mod' t p in
    (
      (le-div_iff_mul-le {k = p} positive).1 (omega (arith, whole, within)),
      (div-lt_iff_lt-mul {k = p} positive).1
          (omega (arith, whole, begins, near, add-mul (t / p) 64 p)),
    )

-- Two quotients less than 64 apart with the same remainder by 64 are the same.
same_round : (a b : ℕ) → a ≤ b → b < a + 64 → a % 64 ≡ b % 64 → a ≡ b
same_round a b le near same = omega (arith, same)

-- For a deadline less than 2 ^ 36 ticks ahead, no tick before the last that `position-visit` names
-- begins one of the level's ticks and looks at the slot: whenever the wheel looks there, less than
-- one tick of the level is left.
pub position-once :
    (d c t : ℕ)
    → c < t
    → t ≤ d
    → d < u64_mod
    → d - c < 2 ^ 36
    → t % 2 ^ ((position d c).0 * 6) ≡ 0
    → slot_at t (position d c).0 ≡ (position d c).1
    → d < t + 2 ^ ((position d c).0 * 6)
position-once d c t after within small short begins here =
    let (l, e, below, reach, near) = position_level d c (omega arith) small in
    let p = 2 ^ (l * 6) in
    let positive : 0 < p = one-le-pow (l * 6) 2 (omega arith) in
    let level : (position d c).0 ≡ l = ap (λ (x : ℕ × ℕ). x.0) e in
    let begins' : t % p ≡ 0 = rw level at begins in
    let here' : slot_at t l ≡ slot_at d l = subst (λ (x : ℕ × ℕ). slot_at t x.0 ≡ x.1) e here in
    let rounds = sym (slot_at-mod t l) ∙ here' ∙ slot_at-mod d l in
    let whole_t = div-add-mod' t p in
    let whole_d = div-add-mod' d p in
    let rest = mod-lt d {m = p} positive in
    let (ordered, close) =
      quotients_near t d p positive begins' within (omega (arith, near short, after)) in
    let equal = same_round (t / p) (d / p) ordered close rounds in
    rw level (omega (arith, begins', whole_t, whole_d, rest, ap (λ x. x * p) equal))
