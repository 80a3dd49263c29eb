-- ===== src/Inflight/Free.antt =====
-- `first_free` of crates/kwokka-io/src/buffer/oneshot/inflight.rs: the lowest free slot below the
-- capacity.
use kwokka.Base.{
  ℕ, zero, suc, ◌+◌, ◌-◌, ◌*◌, ◌/◌, ◌%◌, ◌^◌, ◌<◌, ◌≤◌, ◌≡◌, ◌≢◌, ◌⊎◌, inl, inr, refl, sym, ap, ◌∙◌,
  true, false, ◌&&◌, Option, none, some, List, [], ◌∷◌, length, bit_and, u64_mod, u16_mod, arith,
  ◌==◌, ==_iff, ltb, lt→ltb, le→ltb_false,
}
use native.Mathlib.Nat.{pow-suc, one-le-pow}
use native.Mathlib.Decide.{dec_lt, ℕ_discrete}
use kwokka.Bitmap.{test, trailing_zeros}
use kwokka.Bitmap.Word.{bit, bit-bit_and, bit-lt, bit-ones, bit-zero, has_bit-bit}
use kwokka.Bitmap.Scan.{trailing_zeros-lowest, bit_and-le}
use kwokka.Bitmap.Words.{AllWords, test-head, test-tail, one-has_bit}
use kwokka.Inflight.{first_free_in, first_free_from}

==_true : {a b : ℕ} → a ≡ b → (a == b) ≡ true
==_true {a} {b} e = (==_iff a b).1 e

==_ne : {a b : ℕ} → a ≢ b → (a == b) ≡ false
==_ne {a} {b} ne = ground arith

bit-not : (n c w : ℕ) → w < 2 ^ n → c < n → bit c (2 ^ n - 1 - w) ≡ 1 - bit c w
bit-not zero c w l h = elim h [ ]
bit-not (suc n) zero w l h = omega (arith, pow-suc 2 n, one-le-pow n 2)
bit-not (suc n) (suc c) w l h =
    let half : (2 ^ suc n - 1 - w) / 2 ≡ 2 ^ n - 1 - w / 2 =
      omega (arith, pow-suc 2 n, one-le-pow n 2) in
    rw half (bit-not n c (w / 2) (omega (arith, pow-suc 2 n)) (omega arith))

bit-ones_above : (n c : ℕ) → n ≤ c → bit c (2 ^ n - 1) ≡ 0
bit-ones_above zero c h = bit-zero c
bit-ones_above (suc n) zero h = absurd (omega arith)
bit-ones_above (suc n) (suc c) h =
    let half : (2 ^ suc n - 1) / 2 ≡ 2 ^ n - 1 = omega (arith, pow-suc 2 n, one-le-pow n 2) in
    rw half (bit-ones_above n c (omega arith))

-- What `first_free` says of the slots below `limit` of a bitmap whose first slot is `base`.
abbrev pub FirstFree : ℕ → ℕ → List ℕ → Option ℕ → Type 0
FirstFree base limit m none = (s : ℕ) → s < 64 * length m → base + s < limit → test m s ≡ true
FirstFree base limit m (some t) =
    (s : ℕ) × (s < 64 * length m)
    × (t ≡ base + s)
    × (t < limit)
    × (test m s ≡ false)
    × ((d : ℕ) → d < s → test m d ≡ true)

-- The free bits of a word below `k`.
available-bit :
    (w k c : ℕ)
    → w < u64_mod
    → c < 64
    → ((c < k → bit c (bit_and (u64_mod - 1 - w) (2 ^ k - 1)) ≡ 1 - bit c w)
        × (k ≤ c → bit c (bit_and (u64_mod - 1 - w) (2 ^ k - 1)) ≡ 0))
available-bit w k c l h =
    let both = bit-bit_and c (u64_mod - 1 - w) (2 ^ k - 1) in
    let flip = bit-not 64 c w l h in
    (
      λ below. omega (arith, both, flip, bit-ones k c below),
      λ above. omega (arith, both, bit-ones_above k c above),
    )

set-test : (w : ℕ) (m : List ℕ) (c : ℕ) → c < 64 → bit c w ≡ 1 → test (w ∷ m) c ≡ true
set-test w m c l e = test-head w m c l ∙ one-has_bit w c e

clear-test : (w : ℕ) (m : List ℕ) (c : ℕ) → c < 64 → bit c w ≡ 0 → test (w ∷ m) c ≡ false
clear-test w m c l e = test-head w m c l ∙ has_bit-bit w c ∙ ground (arith, e)

-- One word: its lowest free bit below `k`, or all of them are set.
word-free :
    (k w : ℕ) (m : List ℕ)
    → w < u64_mod
    → k ≤ 64
    → let available = bit_and (u64_mod - 1 - w) (2 ^ k - 1) in
      ((available ≡ 0) × ((c : ℕ) → c < k → test (w ∷ m) c ≡ true))
      ⊎ ((available ≢ 0)
          × (trailing_zeros 64 available < k)
          × (test (w ∷ m) (trailing_zeros 64 available) ≡ false)
          × ((d : ℕ) → d < trailing_zeros 64 available → test (w ∷ m) d ≡ true))
word-free k w m l h =
    let available = bit_and (u64_mod - 1 - w) (2 ^ k - 1) in
    elim (ℕ_discrete available 0) [
      | yes e ↦ inl (
        e,
        λ c below. set-test w m c (omega arith) (
            omega (
              arith,
              (available-bit w k c l (omega arith)).0 below,
              ap (bit c) e,
              bit-zero c,
              bit-lt c w,
            )),
      )
      | no ne ↦
          let bound : available < 2 ^ 64 =
            omega
              (arith, bit_and-le (u64_mod - 1 - w) (u64_mod - 1 - w) (2 ^ k - 1) (omega arith)) in
          let (below, set, under) = trailing_zeros-lowest 64 available ne bound in
          let t = trailing_zeros 64 available in
          let inside : t < k = elim (dec_lt t k) [
            | yes b ↦ b
            | no g ↦ absurd (omega (arith, (available-bit w k t l below).1 (omega arith), set))
          ] in
          inr (
            ne,
            inside,
            clear-test w m t below
                (omega (arith, (available-bit w k t l below).0 inside, set, bit-lt t w)),
            λ d before. set-test w m d (omega arith) (
                omega (
                  arith,
                  (available-bit w k d l (omega arith)).0 (omega arith),
                  under d before,
                  bit-lt d w,
                )),
          )
    ]

later :
    (base limit w : ℕ) (m : List ℕ) (r : Option ℕ)
    → ((c : ℕ) → c < 64 → base + c < limit → test (w ∷ m) c ≡ true)
    → FirstFree (base + 64) limit m r
    → FirstFree base limit (w ∷ m) r
later base limit w m none first rest = λ s l k. elim (dec_lt s 64) [
  | yes h ↦ first s h k
  | no g ↦
      let split : 64 + (s - 64) ≡ s = omega arith in
      ap (test (w ∷ m)) (sym split)
      ∙ test-tail w m (s - 64)
      ∙ rest (s - 64) (omega arith) (omega arith)
]
later base limit w m (some t) first (s, l, at, below, clear, before) = (
  64 + s,
  omega arith,
  omega arith,
  below,
  test-tail w m s ∙ clear,
  λ d k. elim (dec_lt d 64) [
    | yes h ↦ first d h (omega arith)
    | no g ↦
        let split : 64 + (d - 64) ≡ d = omega arith in
        ap (test (w ∷ m)) (sym split) ∙ test-tail w m (d - 64) ∙ before (d - 64) (omega arith)
  ],
)

first_free_in-FirstFree :
    (cap index k w : ℕ) (m : List ℕ) (rest : Option ℕ)
    → w < u64_mod
    → k ≤ 64
    → 64 * index + k ≤ cap
    → cap ≤ u16_mod
    → (k ≡ 64) ⊎ (cap ≡ 64 * index + k)
    → FirstFree (64 * suc index) cap m rest
    → FirstFree (64 * index) cap (w ∷ m) (first_free_in index w (2 ^ k - 1) rest)
unfolding first_free_in
first_free_in-FirstFree cap index k w m rest l h within small end after =
    let available = bit_and (u64_mod - 1 - w) (2 ^ k - 1) in
    let next : 64 * suc index ≡ 64 * index + 64 = omega arith in
    elim (word-free k w m l h) [
      | inl (e, full) ↦
          rw (first_free_in, ==_true e)
            (later (64 * index) cap w m rest (λ c b u. full c (omega arith)) (rw next at after))
      | inr (ne, inside, clear, before) ↦
          let t = trailing_zeros 64 available in
          let fits : ltb (index * 64 + t) u16_mod ≡ true = lt→ltb _ _ (omega arith) in
          rw (first_free_in, ==_ne ne, fits)
            (t, omega arith, omega arith, omega arith, clear, before)
    ]

pub first_free_from-FirstFree :
    (cap index : ℕ) (m : List ℕ)
    → AllWords m
    → cap ≤ u16_mod
    → FirstFree (64 * index) cap m (first_free_from cap index m)
unfolding first_free_from
first_free_from-FirstFree cap index [] all small = λ s l k. elim l [ ]
first_free_from-FirstFree cap index (w ∷ m) (l, all) small =
    let after = first_free_from-FirstFree cap (suc index) m all small in
    let rest = first_free_from cap (suc index) m in
    elim (dec_lt index (cap / 64)) [
      | yes h ↦
          rw (first_free_from, lt→ltb index (cap / 64) h)
            (first_free_in-FirstFree cap index 64 w m rest l (omega arith) (omega arith) small
              (inl refl) after)
      | no g ↦ elim (dec_lt (64 * index) cap) [
        | yes k ↦
            let same : (index == cap / 64) ≡ true = ==_true (omega arith) in
            rw
              (
                first_free_from,
                le→ltb_false index (cap / 64) (omega arith),
                same,
                lt→ltb 0 (cap % 64) (omega arith),
              )
              (first_free_in-FirstFree cap index (cap % 64) w m rest l (omega arith) (omega arith)
                small (inr (omega arith)) after)
        | no k ↦
            let past : ((index == cap / 64) && ltb 0 (cap % 64)) ≡ false = ground arith in
            rw (first_free_from, le→ltb_false index (cap / 64) (omega arith), past)
              (λ s b u. absurd (omega arith))
      ]
    ]
