-- ===== src/Ir/Sections/Disjoint.antt =====
-- `check_sections_disjoint` of crates/kwokka-ir/src/conductor/check.rs compares every pair.
use kwokka.Base.{◌≡◌, List, [], ◌∷◌, Bool-cases, inl, inr}
use kwokka.Ir.Fault.{ok, >>=-eq-ok}
use kwokka.Ir.Tables.{Span, ranges_overlap}
use kwokka.Ir.Tables.Apart.{ApartFromAll, PairwiseApart, ranges_overlap-Apart}
use kwokka.Ir.Sections.{disjoint_from, check_sections_disjoint}

disjoint_from-Apart : (a : Span) (bs : List Span) → disjoint_from a bs ≡ ok tt → ApartFromAll a bs
unfolding disjoint_from
disjoint_from-Apart a [] h = tt
disjoint_from-Apart a (b ∷ bs) h = elim (Bool-cases (ranges_overlap a b)) [
  | inl t ↦ cc (rw t at h)
  | inr t ↦ (ranges_overlap-Apart a b t, disjoint_from-Apart a bs (rw t at h))
]

pub check_sections_disjoint-Apart :
    (sections : List Span) → check_sections_disjoint sections ≡ ok tt → PairwiseApart sections
unfolding check_sections_disjoint
check_sections_disjoint-Apart [] h = tt
check_sections_disjoint-Apart (a ∷ rest) h =
    let r = >>=-eq-ok (disjoint_from a rest) _ h in
    (disjoint_from-Apart a rest r.1, check_sections_disjoint-Apart rest r.2)
