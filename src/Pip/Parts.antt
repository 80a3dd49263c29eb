-- ===== src/Pip/Parts.antt =====
-- The fields of a packed identifier (crates/kwokka-core/src/id/generate.rs and pip.rs).
use kwokka.Base.{
  ◌⊎◌, inl, inr, true, Bool-cases, leb, leb→le, none, some, ℕ, ◌+◌, ◌-◌, ◌*◌, ◌/◌, ◌%◌, ◌^◌, ◌<◌,
  ◌≡◌, ◌≢◌, refl, ap, sym, ◌∙◌, arith, bit_and, bit_or,
}
use kwokka.Base.Bits.{bit_and-mask, bit_or-shifted, bit_or-zero, bit_and-shifted}
use kwokka.Pip.{depth, seq, worker_id, pack, issue, child, next_seq, is_parent_of, is_ancestor_of}

pack_lem : (s d w : ℕ) → d < 2 ^ 16 → pack s d w ≡ s % 2 ^ 48 * 2 ^ 80 + d * 2 ^ 64 + w % 2 ^ 38 * 4
unfolding pack
pack_lem s d w h =
    let q = s % 2 ^ 48 in
    let m : bit_and w (2 ^ 38 - 1) ≡ w % 2 ^ 38 = bit_and-mask 38 w in
    let high : s * 2 ^ 80 % 2 ^ 128 ≡ q * 2 ^ 80 = omega arith in
    let mid : d * 2 ^ 64 % 2 ^ 128 ≡ d * 2 ^ 64 = omega arith in
    let low : bit_and w (2 ^ 38 - 1) * 2 ^ 2 % 2 ^ 128 ≡ w % 2 ^ 38 * 4 = omega (arith, m) in
    let one : bit_or (q * 2 ^ 80) (d * 2 ^ 64) ≡ q * 2 ^ 80 + d * 2 ^ 64 =
      bit_or-shifted 80 q (d * 2 ^ 64) (omega arith) in
    let two : (q * 2 ^ 16 + d) * 2 ^ 64 ≡ q * 2 ^ 80 + d * 2 ^ 64 = omega arith in
    let three = bit_or-shifted 64 (q * 2 ^ 16 + d) (w % 2 ^ 38 * 4) (omega arith) in
    rw (high, mid, low, one, bit_or-zero (q * 2 ^ 80 + d * 2 ^ 64))
      (ap (λ t. bit_or t (w % 2 ^ 38 * 4)) (sym two) ∙ three ∙ omega arith)

depth_lem : (p : ℕ) → depth p ≡ p / 2 ^ 64 % 2 ^ 16
unfolding depth
depth_lem p = omega (arith, bit_and-shifted 64 p (2 ^ 16 - 1), bit_and-mask 16 (p / 2 ^ 64))

seq_lem : (p : ℕ) → seq p ≡ p / 2 ^ 80 % 2 ^ 48
unfolding seq
seq_lem p = omega (arith, bit_and-shifted 80 p (2 ^ 48 - 1), bit_and-mask 48 (p / 2 ^ 80))

worker_id_lem : (p : ℕ) → worker_id p ≡ p / 4 % 2 ^ 38
unfolding worker_id
worker_id_lem p = omega (arith, bit_and-shifted 2 p (2 ^ 38 - 1), bit_and-mask 38 (p / 4))

-- A packed identifier gives back its depth and worker, and its sequence number, each cut to the
-- field's width: the sequence number to 48 bits, the worker to 38.
pub pack_parts :
    (s d w : ℕ)
    → d < 2 ^ 16
    → (seq (pack s d w) ≡ s % 2 ^ 48)
      × (depth (pack s d w) ≡ d)
      × (worker_id (pack s d w) ≡ w % 2 ^ 38)
pack_parts s d w h = (
  omega (arith, seq_lem (pack s d w), pack_lem s d w h),
  omega (arith, depth_lem (pack s d w), pack_lem s d w h),
  omega (arith, worker_id_lem (pack s d w), pack_lem s d w h),
)

-- Identifiers that workers issue from their own counters are the same only for the same worker and
-- number, and none is the reserved 0, as long as the numbers start at 1 and fit 48 bits and the
-- workers fit 38.
pub issue_unique :
    (v w s t : ℕ)
    → v < 2 ^ 38
    → w < 2 ^ 38
    → 0 < s
    → s < 2 ^ 48
    → t < 2 ^ 48
    → issue v s ≡ issue w t
    → (v ≡ w) × (s ≡ t) × (issue v s ≢ 0)
unfolding issue
issue_unique v w s t hv hw pos hs ht e =
    let a = pack_parts s 0 v (omega arith) in
    let b = pack_parts t 0 w (omega arith) in
    (
      omega (arith, a.2, b.2, ap worker_id e),
      omega (arith, a.0, b.0, ap seq e),
      λ z. absurd (omega (arith, pack_lem s 0 v (omega arith), z)),
    )

-- `child` fails exactly at depth 65535, and then hands out no number. Otherwise the child is one
-- deeper, keeps the parent's worker and takes the counter's number; `is_parent_of` and
-- `is_ancestor_of` recognise it. The parent's number is below the counter's, which fits 48 bits.
pub child_lem :
    (p counter : ℕ)
    → seq p < counter
    → counter < 2 ^ 48
    → ((depth p ≡ 2 ^ 16 - 1) × (child p counter ≡ (none, counter)))
      ⊎ ((q : ℕ) × (child p counter ≡ (some q, counter + 1))
          × (depth q ≡ depth p + 1)
          × (worker_id q ≡ worker_id p)
          × (seq q ≡ counter)
          × (is_parent_of p q ≡ true)
          × (is_ancestor_of p q ≡ true))
unfolding child next_seq is_parent_of is_ancestor_of
child_lem p counter older fits = elim (Bool-cases (leb (2 ^ 16) (depth p + 1))) [
  | inl t ↦ inl (omega (arith, depth_lem p, leb→le _ _ t), rw t refl)
  | inr f ↦
      let shallow : depth p + 1 < 2 ^ 16 = ground arith in
      let q = pack counter (depth p + 1) (worker_id p) in
      let parts = pack_parts counter (depth p + 1) (worker_id p) shallow in
      inr (
        q,
        rw f (ap (λ n. (some q, n)) (omega arith)),
        parts.1,
        omega (arith, parts.2, worker_id_lem p),
        omega (arith, parts.0),
        ground (arith, parts.0, parts.1),
        ground (arith, parts.0, parts.1),
      )
]
