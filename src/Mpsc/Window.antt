-- ===== src/Mpsc/Window.antt =====
-- What the slots of the ring of crates/kwokka-runtime/src/sync/mpsc.rs hold between two calls.
use kwokka.Base.{
  ℕ, ◌+◌, ◌-◌, ◌*◌, ◌%◌, ◌^◌, ◌<◌, ◌≤◌, ◌≡◌, ◌≢◌, ◌⊎◌, inl, inr, sym, ap, ◌∙◌, Option, none, some,
  List, length, get_elem?, arith, bit_and, u64_mod,
}
use Prim.Native.Nat.{◌∣◌}
use kwokka.Base.Bits.{bit_and-mask, power-add}
use native.Mathlib.Nat.{
  mod-add-mod, mod-eq_of_lt, mod-eq-sub-mod, mod-mod_of_dvd, mod-lt, dvd-mul_right,
}
use native.Mathlib.Decide.{dec_lt}
use kwokka.Mpsc.{MpscRing}

power_divides : (k : ℕ) → k ≤ 64 → 2 ^ k ∣ u64_mod
power_divides k h =
    let whole : 2 ^ k * 2 ^ (64 - k) ≡ u64_mod =
      sym (power-add k (64 - k)) ∙ ap (λ t. 2 ^ t) {y = 64} (omega arith) in
    rw (← whole) (dvd-mul_right (2 ^ k) (2 ^ (64 - k)))

-- A word's index is that of the position it is cut from.
pub mask_position : (k p : ℕ) → k ≤ 64 → bit_and (p % u64_mod) (2 ^ k - 1) ≡ p % 2 ^ k
mask_position k p h = bit_and-mask k (p % u64_mod) ∙ mod-mod_of_dvd (2 ^ k) p (power_divides k h)

-- Below twice the divisor a remainder takes it off once at most.
mod_near : (n x : ℕ) → x < n + n → (x % n ≡ x) ⊎ (x % n + n ≡ x)
mod_near n x h = elim (dec_lt x n) [
  | yes l ↦ inl (mod-eq_of_lt l)
  | no g ↦ inr (
      omega (
        arith,
        mod-eq-sub-mod {n = x} {m = n} (omega arith),
        mod-eq_of_lt {n = x - n} {m = n} (omega arith),
      ))
]

-- Two positions less than `n` apart have different indices.
index-ne : (n p i j : ℕ) → i < j → j < n → (p + j) % n ≢ (p + i) % n
index-ne n p i j h l e =
    let r : p % n < n = mod-lt p {m = n} (omega arith) in
    omega (
      arith,
      r,
      mod_near n (p % n + i) (omega arith),
      mod_near n (p % n + j) (omega arith),
      mod-add-mod p n i,
      mod-add-mod p n j,
    )

pub index-distinct : (n p i j : ℕ) → i < n → j < n → i ≢ j → (p + j) % n ≢ (p + i) % n
index-distinct n p i j hi hj ne e = elim (dec_lt i j) [
  | yes l ↦ index-ne n p i j l hj e
  | no g ↦ index-ne n p j i (omega arith) hi (sym e)
]

-- Two different positions of one round have different indices.
pub window-ne : (n d p q : ℕ) → d ≤ p → p < d + n → d ≤ q → q < d + n → p ≢ q → p % n ≢ q % n
window-ne n d p q lp up lq uq ne e =
    let to_p : d + (p - d) ≡ p = omega arith in
    let to_q : d + (q - d) ≡ q = omega arith in
    index-distinct n d (q - d) (p - d) (omega arith) (omega arith) (omega arith) (rw (to_p, to_q) e)

module _ {ℓ} {A : Type ℓ} where
  -- The slot of position `p` holds `cell`, and its sequence is the word of `next`.
  abbrev pub Holds : MpscRing A → ℕ → ℕ → Option A → Type ℓ
  Holds r p next cell =
      get_elem? r.slots (p % length r.slots)
      ≡ some (record { sequence = next % u64_mod; cell = cell })

  -- The ring of `2 ^ k` slots whose consumer has taken `d` values since it was made, and which
  -- holds `q`, oldest first.
  pub record Represents (k : ℕ) (r : MpscRing A) (d : ℕ) (q : List A) : Type ℓ where
    pub room : length r.slots ≡ 2 ^ k
    pub enqueue : r.enqueue_pos ≡ (d + length q) % u64_mod
    pub dequeue : r.dequeue_pos ≡ d % u64_mod
    pub fits : length q ≤ 2 ^ k
    pub held : (j : ℕ) (v : A) → get_elem? q j ≡ some v → Holds r (d + j) (d + j + 1) (some v)
    pub free : (j : ℕ) → length q ≤ j → j < 2 ^ k → Holds r (d + j) (d + j) none
