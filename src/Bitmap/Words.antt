-- ===== src/Bitmap/Words.antt =====
-- The loop over the words of a bitmap, in terms of the test of one slot.
use kwokka.Base.{
  ℕ, zero, suc, ◌+◌, ◌-◌, ◌*◌, ◌/◌, ◌%◌, ◌^◌, ◌<◌, ◌≤◌, ◌≡◌, refl, sym, ap, ◌∙◌, Bool, true, false,
  Option, none, some, List, [], ◌∷◌, length, get_or, u64_mod, arith, ==_iff, Option-cases, inl, inr,
  set, bit_or,
}
use native.Mathlib.Nat.{pow-suc, pow-le-pow_right}
use kwokka.Base.Bits.{bit_or_digit, bit_or-zero}
use native.Mathlib.Decide.{dec_lt}
use kwokka.Bitmap.{scan_word, scan, test, has_bit, word_bit, mark, unmark, set_bit, clear_bit}
use kwokka.Bitmap.Word.{bit, has_bit-bit}
use kwokka.Bitmap.Scan.{Scanned, scan_word-Scanned, bit_and-le}

-- Every word of the bitmap fits a machine word.
abbrev pub AllWords : List ℕ → Type 0
AllWords [] = Unit
AllWords (w ∷ m) = (w < u64_mod) × AllWords m

pub has_bit-one : (w b : ℕ) → has_bit w b ≡ true → bit b w ≡ 1
has_bit-one w b h = (==_iff (bit b w) 1).0 (sym (has_bit-bit w b) ∙ h)

pub one-has_bit : (w b : ℕ) → bit b w ≡ 1 → has_bit w b ≡ true
one-has_bit w b h = has_bit-bit w b ∙ (==_iff (bit b w) 1).1 h

pub test-head : (w : ℕ) (m : List ℕ) (s : ℕ) → s < 64 → test (w ∷ m) s ≡ has_bit w s
unfolding test word_bit
test-head w m s h =
    let first : s / 64 ≡ 0 = omega arith in
    let same : s % 64 ≡ s = omega arith in rw (first, same) refl

pub test-tail : (w : ℕ) (m : List ℕ) (s : ℕ) → test (w ∷ m) (64 + s) ≡ test m s
unfolding test word_bit
test-tail w m s =
    let next : (64 + s) / 64 ≡ suc (s / 64) = omega arith in
    let same : (64 + s) % 64 ≡ s % 64 = omega arith in rw (next, same) refl

module _ (stops : ℕ → Bool) where
  -- What a scan of a bitmap from `base` on says of its slots.
  abbrev pub Found : ℕ → List ℕ → Option ℕ → Type 0
  Found base m none = (s : ℕ) → s < 64 * length m → test m s ≡ true → stops (base + s) ≡ false
  Found base m (some t) =
      (s : ℕ) × (s < 64 * length m)
      × (t ≡ base + s)
      × (test m s ≡ true)
      × (stops t ≡ true)
      × ((d : ℕ) → d < s → test m d ≡ true → stops (base + d) ≡ false)

  word-clear :
      (base w : ℕ) (m : List ℕ)
      → Scanned base stops w none
      → (s : ℕ) → s < 64
      → test (w ∷ m) s ≡ true
      → stops (base + s) ≡ false
  word-clear base w m h s l on = h s l (has_bit-one w s (sym (test-head w m s l) ∙ on))

  tail-clear :
      (base w : ℕ) (m : List ℕ) (s : ℕ)
      → 64 ≤ s
      → (test m (s - 64) ≡ true → stops (base + 64 + (s - 64)) ≡ false)
      → test (w ∷ m) s ≡ true
      → stops (base + s) ≡ false
  tail-clear base w m s l h on =
      let split : 64 + (s - 64) ≡ s = omega arith in
      let moved : base + 64 + (s - 64) ≡ base + s = omega arith in
      rw (moved) at (h (sym (test-tail w m (s - 64)) ∙ ap (test (w ∷ m)) split ∙ on))

  later :
      (base w : ℕ) (m : List ℕ) (r : Option ℕ)
      → Scanned base stops w none
      → Found (base + 64) m r
      → Found base (w ∷ m) r
  later base w m none first rest = λ s l on. elim (dec_lt s 64) [
    | yes k ↦ word-clear base w m first s k on
    | no g ↦ tail-clear base w m s (omega arith) (rest (s - 64) (omega arith)) on
  ]
  later base w m (some t) first (s, l, at, on, stop, before) = (
    64 + s,
    omega arith,
    omega arith,
    test-tail w m s ∙ on,
    stop,
    λ d k e. elim (dec_lt d 64) [
      | yes j ↦ word-clear base w m first d j e
      | no g ↦ tail-clear base w m d (omega arith) (before (d - 64) (omega arith)) e
    ],
  )

  sooner : (base w t : ℕ) (m : List ℕ) → Scanned base stops w (some t) → Found base (w ∷ m) (some t)
  sooner base w t m (c, k, set, at, stop, before) = (
    c,
    omega arith,
    at,
    test-head w m c k ∙ one-has_bit w c set,
    stop,
    λ d l e. before d l (has_bit-one w d (sym (test-head w m d (omega arith)) ∙ e)),
  )

  -- The loop stops at the lowest set slot of which the condition holds, and at none if there is no
  -- such slot.
  pub scan-Found : (base : ℕ) (m : List ℕ) → AllWords m → Found base m (scan base stops m)
  unfolding scan
  scan-Found base [] all = λ s l on. elim l [ ]
  scan-Found base (w ∷ m) (l, all) =
      let first = scan_word-Scanned base stops 64 0 w l (λ c k. elim k [ ]) (omega arith) in
      let rest = scan-Found (base + 64) m all in
      elim (Option-cases (scan_word 64 base stops w)) [
        | inl e ↦ rw (scan, e) (later base w m (scan (base + 64) stops m) (rw e at first) rest)
        | inr (t, e) ↦ rw (scan, e) (sooner base w t m (rw e at first))
      ]

bit_or-lt : (n a b : ℕ) → a < 2 ^ n → b < 2 ^ n → bit_or a b < 2 ^ n
bit_or-lt zero a b h l =
    let za : a ≡ 0 = omega arith in
    let zb : b ≡ 0 = omega arith in omega (arith, ap (bit_or a) zb, bit_or-zero a)
bit_or-lt (suc n) a b h l = omega (
  arith,
  bit_or_digit a b,
  pow-suc 2 n,
  bit_or-lt n (a / 2) (b / 2) (omega (arith, pow-suc 2 n)) (omega (arith, pow-suc 2 n)),
)

pub AllWords-get : (m : List ℕ) (i : ℕ) → AllWords m → get_or m i 0 < u64_mod
AllWords-get [] i all = omega arith
AllWords-get (w ∷ m) zero (l, all) = l
AllWords-get (w ∷ m) (suc i) (l, all) = AllWords-get m i all

pub AllWords-set : (m : List ℕ) (i w : ℕ) → AllWords m → w < u64_mod → AllWords (set m i w)
AllWords-set [] i w all l = tt
AllWords-set (x ∷ m) zero w (k, all) l = (l, all)
AllWords-set (x ∷ m) (suc i) w (k, all) l = (k, AllWords-set m i w all l)

pub mark-AllWords : (m : List ℕ) (s : ℕ) → AllWords m → AllWords (mark m s)
unfolding mark word_bit set_bit
mark-AllWords m s all =
    let low : 2 ^ (s % 64) < 2 ^ 64 = omega (
      arith,
      pow-suc 2 (s % 64),
      pow-le-pow_right {n = 2} (omega arith) {i = suc (s % 64)} {j = 64} (omega arith),
    ) in
    AllWords-set m (s / 64) _ all (bit_or-lt 64 _ (2 ^ (s % 64)) (AllWords-get m (s / 64) all) low)

pub unmark-AllWords : (m : List ℕ) (s : ℕ) → AllWords m → AllWords (unmark m s)
unfolding unmark word_bit clear_bit
unmark-AllWords m s all =
    let w = get_or m (s / 64) 0 in
    let below = bit_and-le w w (u64_mod - 1 - 2 ^ (s % 64)) (omega arith) in
    AllWords-set m (s / 64) _ all (omega (arith, below, AllWords-get m (s / 64) all))
