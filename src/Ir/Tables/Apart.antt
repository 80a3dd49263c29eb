-- ===== src/Ir/Tables/Apart.antt =====
-- What the overlap tests of crates/kwokka-ir/src/conductor/check.rs mean for the bytes of a body.
use kwokka.Base.{ℕ, ◌+◌, ◌<◌, ◌≤◌, ◌≡◌, true, false, List, [], ◌∷◌, arith}
use kwokka.Ir.Tables.{Span, ranges_overlap, overlaps_any}

-- Byte `k` of the body belongs to the span.
abbrev pub Inside : ℕ → Span → Type 0
Inside k s = (s.offset ≤ k) × (k < s.offset + s.len)

-- No byte belongs to both.
abbrev pub Apart : Span → Span → Type 0
Apart a b = (k : ℕ) → Inside k a → Inside k b → ⊥

abbrev pub ApartFromAll : Span → List Span → Type 0
ApartFromAll a [] = Unit {0}
ApartFromAll a (b ∷ bs) = Apart a b × ApartFromAll a bs

abbrev pub PairwiseApart : List Span → Type 0
PairwiseApart [] = Unit {0}
PairwiseApart (a ∷ rest) = ApartFromAll a rest × PairwiseApart rest

pub ranges_overlap-Apart : (a b : Span) → ranges_overlap a b ≡ false → Apart a b
unfolding ranges_overlap
ranges_overlap-Apart a b h k in_a in_b = ground arith

-- A byte in two spans makes the test fire: the test is exact for spans that are not empty.
pub Inside-ranges_overlap :
    (a b : Span) (k : ℕ) → Inside k a → Inside k b → ranges_overlap a b ≡ true
unfolding ranges_overlap
Inside-ranges_overlap a b k in_a in_b = ground arith

pub overlaps_any-Apart : (a : Span) (bs : List Span) → overlaps_any a bs ≡ false → ApartFromAll a bs
unfolding overlaps_any
overlaps_any-Apart a [] h = tt
overlaps_any-Apart a (b ∷ bs) h =
    let parts : (ranges_overlap a b ≡ false) × (overlaps_any a bs ≡ false) = ground arith in
    (ranges_overlap-Apart a b parts.0, overlaps_any-Apart a bs parts.1)
