-- ===== src/Bitmap/Scan.antt =====
-- The loop over the set bits of a bitmap finds the lowest slot at which it is to stop.
use Prim.Native.Nat.{bit_and-bitwise}
use kwokka.Base.{
  ℕ, zero, suc, ◌+◌, ◌-◌, ◌/◌, ◌%◌, ◌^◌, ◌<◌, ◌≤◌, ◌≡◌, ◌≢◌, inl, inr, refl, sym, ap, ◌∙◌, Bool,
  true, false, Option, none, some, bit_and, u64_mod, arith, ◌==◌, ==_iff, ==_false, Bool-cases,
}
use native.Mathlib.Nat.{pow-suc}
use native.Mathlib.Decide.{dec_lt, ℕ_discrete}
use kwokka.Base.Bits.{bit_and_digit}
use kwokka.Bitmap.{trailing_zeros, scan_word}
use kwokka.Bitmap.Word.{bit, bit-bit_and, bit-zero}

low_clear :
    (w t : ℕ)
    → w % 2 ≡ 0
    → ((c : ℕ) → c < t → bit c (w / 2) ≡ 0)
    → (c : ℕ) → c < suc t
    → bit c w ≡ 0
low_clear w t even clear zero k = even
low_clear w t even clear (suc c) k = clear c (omega arith)

-- The count of trailing zeros is the place of the lowest set bit.
pub trailing_zeros-lowest :
    (n w : ℕ)
    → w ≢ 0
    → w < 2 ^ n
    → (trailing_zeros n w < n)
      × (bit (trailing_zeros n w) w ≡ 1)
      × ((c : ℕ) → c < trailing_zeros n w → bit c w ≡ 0)
unfolding trailing_zeros
trailing_zeros-lowest zero w h l = absurd (h (omega arith))
trailing_zeros-lowest (suc n) w h l = elim (Bool-cases (w % 2 == 1)) [
  | inl e ↦ rw (trailing_zeros, e) (omega arith, (==_iff (w % 2) 1).0 e, λ c k. elim k [ ])
  | inr e ↦
      let even : w % 2 ≡ 0 = omega (arith, ==_false (w % 2) 1 e) in
      let (below, set, clear) =
        trailing_zeros-lowest n (w / 2) (omega (arith, even, h)) (omega (arith, pow-suc 2 n)) in
      rw (trailing_zeros, e)
        (omega arith, set, λ c k. low_clear w (trailing_zeros n (w / 2)) even clear c k)
]

before_half : (w : ℕ) → w % 2 ≡ 0 → w ≢ 0 → (w - 1) / 2 ≡ w / 2 - 1
before_half w even h = omega arith

odd_rest : (w : ℕ) → w % 2 ≡ 1 → (c : ℕ) → c ≢ 0 → bit c (bit_and w (w - 1)) ≡ bit c w
odd_rest w odd zero ne = absurd (ne refl)
odd_rest w odd (suc c) ne =
    let same : (w - 1) / 2 ≡ w / 2 = omega arith in
    omega (arith, bit-bit_and (suc c) w (w - 1), ap (bit c) same)

even_rest :
    (w t : ℕ)
    → w % 2 ≡ 0
    → bit_and w (w - 1) / 2 ≡ bit_and (w / 2) (w / 2 - 1)
    → ((c : ℕ) → c ≢ t → bit c (bit_and (w / 2) (w / 2 - 1)) ≡ bit c (w / 2))
    → (c : ℕ) → c ≢ suc t
    → bit c (bit_and w (w - 1)) ≡ bit c w
even_rest w t even half kept zero ne = omega (arith, bit_and_digit w (w - 1))
even_rest w t even half kept (suc c) ne = rw half (kept c (omega arith))

-- `w & (w - 1)` clears the lowest set bit and no other.
drop_lowest :
    (n w : ℕ)
    → w ≢ 0
    → w < 2 ^ n
    → (bit (trailing_zeros n w) (bit_and w (w - 1)) ≡ 0)
      × ((c : ℕ) → c ≢ trailing_zeros n w → bit c (bit_and w (w - 1)) ≡ bit c w)
unfolding trailing_zeros
drop_lowest zero w h l = absurd (h (omega arith))
drop_lowest (suc n) w h l = elim (Bool-cases (w % 2 == 1)) [
  | inl e ↦
      let odd : w % 2 ≡ 1 = (==_iff (w % 2) 1).0 e in
      rw (trailing_zeros, e) (omega (arith, bit_and_digit w (w - 1)), odd_rest w odd)
  | inr e ↦
      let even : w % 2 ≡ 0 = omega (arith, ==_false (w % 2) 1 e) in
      let half : bit_and w (w - 1) / 2 ≡ bit_and (w / 2) (w / 2 - 1) =
        omega (arith, bit_and_digit w (w - 1), ap (bit_and (w / 2)) (before_half w even h)) in
      let (gone, kept) =
        drop_lowest n (w / 2) (omega (arith, even, h)) (omega (arith, pow-suc 2 n)) in
      let low = trailing_zeros n (w / 2) in
      rw (trailing_zeros, e) (ap (bit low) half ∙ gone, even_rest w low even half kept)
]

zero-ne-one : {a : ℕ} → a ≡ 0 → a ≢ 1
zero-ne-one e f = omega arith

not_below : (low t w : ℕ) → ((c : ℕ) → c < low → bit c w ≡ 0) → bit t w ≡ 1 → low ≤ t
not_below low t w clear set = elim (dec_lt t low) [
  | yes l ↦ absurd (omega (arith, clear t l, set))
  | no g ↦ omega arith
]

pub bit_and-le : (n a b : ℕ) → a ≤ n → bit_and a b ≤ a
bit_and-le n zero b h = simp bit_and-bitwise (omega arith)
bit_and-le zero (suc a) b h = absurd (omega arith)
bit_and-le (suc n) (suc a) b h =
    omega (arith, bit_and_digit (suc a) b, bit_and-le n (suc a / 2) (b / 2) (omega arith))

module _ (base : ℕ) (stops : ℕ → Bool) where
  -- What a scan of a word says of its bits.
  abbrev pub Scanned : ℕ → Option ℕ → Type 0
  Scanned w none = (c : ℕ) → c < 64 → bit c w ≡ 1 → stops (base + c) ≡ false
  Scanned w (some s) =
      (c : ℕ) × (c < 64)
      × (bit c w ≡ 1)
      × (s ≡ base + c)
      × (stops s ≡ true)
      × ((d : ℕ) → d < c → bit d w ≡ 1 → stops (base + d) ≡ false)

  -- Dropping a bit at which the loop did not stop.
  lift :
      (w t w' : ℕ)
      → t < 64
      → stops (base + t) ≡ false
      → bit t w' ≡ 0
      → ((c : ℕ) → c ≢ t → bit c w' ≡ bit c w)
      → (r : Option ℕ) → Scanned w' r
      → Scanned w r
  lift w t w' below f gone kept none h =
      λ c k e. elim (ℕ_discrete c t) [ yes same ↦ rw same f | no apart ↦ h c k (kept c apart ∙ e) ]
  lift w t w' below f gone kept (some s) (c, k, set, at, stop, before) =
      let apart : c ≢ t = λ same. zero-ne-one (ap (λ x. bit x w') same ∙ gone) set in
      (
        c,
        k,
        sym (kept c apart) ∙ set,
        at,
        stop,
        λ d l e. elim (ℕ_discrete d t) [
          | yes same ↦ rw same f
          | no other ↦ before d l (kept d other ∙ e)
        ],
      )

  pub scan_word-Scanned :
      (fuel low w : ℕ)
      → w < u64_mod
      → ((c : ℕ) → c < low → bit c w ≡ 0)
      → 64 ≤ low + fuel
      → Scanned w (scan_word fuel base stops w)
  unfolding scan_word
  scan_word-Scanned zero low w l clear enough =
      λ c k e. absurd (omega (arith, clear c (omega arith)))
  scan_word-Scanned (suc fuel) low w l clear enough = elim (Bool-cases (w == 0)) [
    | inl e ↦
        let zero_word : w ≡ 0 = (==_iff w 0).0 e in
        rw (scan_word, e) (λ c k set. absurd (omega (arith, set, ap (bit c) zero_word, bit-zero c)))
    | inr e ↦
        let ne : w ≢ 0 = ==_false w 0 e in
        let t = trailing_zeros 64 w in
        let (below, set, under) = trailing_zeros-lowest 64 w ne l in
        elim (Bool-cases (stops (base + t))) [
          | inl f ↦
              rw (scan_word, e, f)
                (t, below, set, refl, f, λ d k on. absurd (omega (arith, under d k, on)))
          | inr f ↦
              let (gone, kept) = drop_lowest 64 w ne l in
              let w' = bit_and w (w - 1) in
              rw (scan_word, e, f)
                (lift w t w' below f gone kept (scan_word fuel base stops w') (
                  scan_word-Scanned fuel (suc t) w'
                    (omega (arith, bit_and-le w w (w - 1) (omega arith)))
                    (λ c k. elim (ℕ_discrete c t) [
                      | yes same ↦ rw same gone
                      | no apart ↦ kept c apart ∙ under c (omega arith)
                    ])
                    (omega (arith, not_below low t w clear set))))
        ]
  ]
