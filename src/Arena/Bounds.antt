-- ===== src/Arena/Bounds.antt =====
-- What an allocation of crates/kwokka-core/src/arena/bump.rs gives.
use kwokka.Base.{
  ℕ, suc, ◌+◌, ◌-◌, ◌*◌, ◌%◌, ◌^◌, ◌≤◌, ◌≡◌, inl, inr, refl, sym, ap, ◌∙◌, some, length, ltb, arith,
  Bool-cases, Option-cases, checked_add, ltb_false→le,
}
use mathlib.Core.Path.{subst}
use Prim.Native.Nat.{◌∣◌}
use native.Mathlib.Nat.{
  pow-suc, one-le-pow, pow-le-pow_right, mod-mod_of_dvd, dvd-mul_right, add-mod, zero-mod,
}
use native.Mathlib.Decide.{dec_lt}
use kwokka.Base.Bits.{power-add}
use kwokka.Arena.{ok, Layout, BumpAllocator, align_up, alloc_aligned}
use kwokka.Arena.Align.{align_up-next}

-- A layout as Rust has them: its alignment is a power of two.
pub record IsLayout (l : Layout) : Type 0 where
  pub exponent : ℕ
  pub power : l.align ≡ 2 ^ exponent

divides_smaller : (j k : ℕ) → 2 ^ j ≤ 2 ^ k → 2 ^ j ∣ 2 ^ k
divides_smaller j k h = elim (dec_lt k j) [
  | yes l ↦ absurd (
      omega (
        arith,
        pow-suc 2 k,
        one-le-pow k 2,
        pow-le-pow_right {n = 2} (omega arith) {i = suc k} {j = j} l,
      ))
  | no g ↦
      let whole : 2 ^ j * 2 ^ (k - j) ≡ 2 ^ k =
        sym (power-add j (k - j)) ∙ ap (λ t. 2 ^ t) {y = k} (omega arith) in
      rw (← whole) (dvd-mul_right (2 ^ j) (2 ^ (k - j)))
]

small_power : (j : ℕ) → 2 ^ j ≤ 2 ^ 63 → j ≤ 63
small_power j h = elim (dec_lt 63 j) [
  | yes l ↦ absurd (omega (arith, pow-le-pow_right {n = 2} (omega arith) {i = 64} {j = j} l))
  | no g ↦ omega arith
]

-- A sum of two multiples, the first of a larger power.
sum-aligned :
    (j k base a : ℕ) → 2 ^ j ≤ 2 ^ k → base % 2 ^ k ≡ 0 → a % 2 ^ j ≡ 0 → (base + a) % 2 ^ j ≡ 0
sum-aligned j k base a h placed low =
    let first : base % 2 ^ j ≡ 0 =
      sym (mod-mod_of_dvd (2 ^ j) base (divides_smaller j k h))
      ∙ ap (λ t. t % 2 ^ j) placed
      ∙ zero-mod (2 ^ j) in
    add-mod base a (2 ^ j) ∙ rw (first, low) (zero-mod (2 ^ j))

checked_add-sum : (a b c : ℕ) → checked_add a b ≡ some c → c ≡ a + b
checked_add-sum a b c e = ground (arith, e)

module _ {D : Type 0} where
  pub record IsValid (s : BumpAllocator D) : Type 0 where
    pub exponent : ℕ
    pub power : s.alignment ≡ 2 ^ exponent
    pub placed : s.buffer % s.alignment ≡ 0
    pub within : s.cursor ≤ s.capacity
    pub small : s.capacity + s.alignment ≤ 2 ^ 63
    pub room : length s.drops ≤ s.drop_capacity

  -- The arena `t` after an allocation at `p` in the arena `s`.
  pub record Placed (s t : BumpAllocator D) (l : Layout) (p : ℕ) : Type 0 where
    pub aligned : p % l.align ≡ 0
    pub above : s.buffer + s.cursor ≤ p
    pub ends : p + l.size ≡ t.buffer + t.cursor
    pub inside : t.cursor ≤ s.capacity
    pub moved : t ≡ record s { cursor = t.cursor }

  pub alloc_aligned-Placed :
      (s t : BumpAllocator D) (l : Layout) (p : ℕ)
      → IsValid s
      → IsLayout l
      → alloc_aligned s l ≡ ok (t, p)
      → Placed s t l p
  unfolding alloc_aligned
  alloc_aligned-Placed s t l p w v e = elim (Bool-cases (ltb s.alignment l.align)) [
    | inl f ↦ let failed = rw f at e in absurd cc
    | inr f ↦
        let aligned = align_up s.cursor l.align in
        let e' = rw f at e in
        elim (Option-cases (checked_add aligned l.size)) [
          | inl g ↦ let failed = rw g at e' in absurd cc
          | inr (c, g) ↦
              let e'' = rw g at e' in
              elim (Bool-cases (ltb s.capacity c)) [
                | inl h ↦ let failed = rw h at e'' in absurd cc
                | inr h ↦
                    let given = rw h at e'' in
                    let answer : BumpAllocator D × ℕ =
                      (record s { cursor = c }, s.buffer + aligned) in
                    let same : answer ≡ (t, p) = cc in
                    let below : l.align ≤ s.alignment = ltb_false→le s.alignment l.align f in
                    let smaller : 2 ^ v.exponent ≤ 2 ^ w.exponent =
                      omega (arith, v.power, w.power) in
                    let sum = checked_add-sum aligned l.size c g in
                    let (up, near, multiple) =
                      align_up-next s.cursor v.exponent
                        (small_power v.exponent (omega (arith, w.small, w.power)))
                        (omega (arith, w.small, w.within, w.power)) in
                    let rounded : aligned ≡ align_up s.cursor (2 ^ v.exponent) =
                      ap (align_up s.cursor) v.power in
                    subst (λ r. Placed s r.0 l r.1) same
                      (record {
                        aligned =
                            ap (λ m. (s.buffer + aligned) % m) v.power
                            ∙ sum-aligned v.exponent w.exponent s.buffer aligned smaller
                                (sym (ap (λ m. s.buffer % m) w.power) ∙ w.placed)
                                (ap (λ a. a % 2 ^ v.exponent) rounded ∙ multiple);
                        above = omega arith;
                        ends = omega arith;
                        inside = ltb_false→le s.capacity c h;
                        moved = refl;
                      })
              ]
        ]
  ]
