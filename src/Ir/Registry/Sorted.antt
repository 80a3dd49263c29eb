-- ===== src/Ir/Registry/Sorted.antt =====
-- What `check_sorted_order` of crates/kwokka-ir/src/conductor/check.rs says of the sorted index.
use kwokka.Base.{ℕ, zero, suc, ◌+◌, ◌<◌, ◌≤◌, ◌≡◌, sym, true, List, Option, none, some, arith}
use native.Mathlib.Decide.{ℕ_discrete}
use mathlib.Core.Path.{subst}
use kwokka.Ir.Fault.{
  ok, out_of_bounds, registry_unsorted, ok_or, require, >>=-eq-ok, ok_or-eq-ok, require-eq-ok,
}
use kwokka.Ir.Registry.{RegistryView, name, sorted_ordinal}
use kwokka.Ir.Registry.Order.{Before, Before-self, Before-trans}
use kwokka.Ir.Sections.{in_order, sorted_order_from, check_sorted_order}

-- The name at a rank of the sorted index.
pub record Ranked (r : RegistryView) (rank : ℕ) (n : List ℕ) : Type 0 where
  pub ordinal : ℕ
  pub indexed : sorted_ordinal r rank ≡ some ordinal
  pub named : name r ordinal ≡ some n

same_name : (r : RegistryView) (rank : ℕ) (a b : List ℕ) → Ranked r rank a → Ranked r rank b → a ≡ b
same_name r rank a b x y =
    let same : x.ordinal ≡ y.ordinal = cc (x.indexed, y.indexed) in cc (x.named, y.named)

-- One round of the check.
sorted_round :
    (rounds : ℕ) (r : RegistryView) (rank : ℕ) (previous : Option (List ℕ))
    → sorted_order_from (suc rounds) r rank previous ≡ ok tt
    → (n : List ℕ) × Ranked r rank n
      × (in_order previous n ≡ true)
      × (sorted_order_from rounds r (rank + 1) (some n) ≡ ok tt)
unfolding sorted_order_from
sorted_round rounds r rank previous h =
    let a = >>=-eq-ok (ok_or (sorted_ordinal r rank) out_of_bounds) _ h in
    let b = >>=-eq-ok (ok_or (name r a.0) out_of_bounds) _ a.2 in
    let c = >>=-eq-ok (require (in_order previous b.0) registry_unsorted) _ b.2 in
    (
      b.0,
      record { ordinal = a.0; indexed = ok_or-eq-ok _ _ a.1; named = ok_or-eq-ok _ _ b.1 },
      require-eq-ok _ _ c.1,
      c.2,
    )

in_order-Before : (p n : List ℕ) → in_order (some p) n ≡ true → Before p n
unfolding in_order
in_order-Before p n h = ground arith

-- Every rank that the check passes has a name, and the name before it is not behind it.
sorted-Before :
    (rounds : ℕ) (r : RegistryView) (rank j : ℕ) (p n : List ℕ)
    → sorted_order_from rounds r rank (some p) ≡ ok tt
    → rank ≤ j
    → j < rank + rounds
    → Ranked r j n
    → Before p n
sorted-Before zero r rank j p n h le lt at_j = absurd (omega arith)
sorted-Before (suc rounds) r rank j p n h le lt at_j =
    let (m, at_rank, ordered, rest) = sorted_round rounds r rank (some p) h in
    elim (ℕ_discrete rank j) [
      | yes e ↦
          let here : Ranked r rank n = subst (λ k. Ranked r k n) (sym e) at_j in
          subst (Before p) (same_name r rank m n at_rank here) (in_order-Before p m ordered)
      | no e ↦
          Before-trans p m n (in_order-Before p m ordered)
            (sorted-Before rounds r (rank + 1) j m n rest (omega arith) (omega arith) at_j)
    ]

pub sorted-Ranked :
    (rounds : ℕ) (r : RegistryView) (rank j : ℕ) (previous : Option (List ℕ))
    → sorted_order_from rounds r rank previous ≡ ok tt
    → rank ≤ j
    → j < rank + rounds
    → (n : List ℕ) × Ranked r j n
sorted-Ranked zero r rank j previous h le lt = absurd (omega arith)
sorted-Ranked (suc rounds) r rank j previous h le lt =
    let (m, at_rank, ordered, rest) = sorted_round rounds r rank previous h in
    elim (ℕ_discrete rank j) [
      | yes e ↦ (m, subst (λ k. Ranked r k m) e at_rank)
      | no e ↦ sorted-Ranked rounds r (rank + 1) j (some m) rest (omega arith) (omega arith)
    ]

sorted_pair-Before :
    (rounds : ℕ) (r : RegistryView) (rank i j : ℕ) (previous : Option (List ℕ)) (a b : List ℕ)
    → sorted_order_from rounds r rank previous ≡ ok tt
    → rank ≤ i
    → i < j
    → j < rank + rounds
    → Ranked r i a
    → Ranked r j b
    → Before a b
sorted_pair-Before zero r rank i j previous a b h le lt top at_i at_j = absurd (omega arith)
sorted_pair-Before (suc rounds) r rank i j previous a b h le lt top at_i at_j =
    let (m, at_rank, ordered, rest) = sorted_round rounds r rank previous h in
    elim (ℕ_discrete rank i) [
      | yes e ↦
          let here : Ranked r rank a = subst (λ k. Ranked r k a) (sym e) at_i in
          subst (λ x. Before x b) (same_name r rank m a at_rank here)
            (sorted-Before rounds r (rank + 1) j m b rest (omega arith) (omega arith) at_j)
      | no e ↦
          sorted_pair-Before rounds r (rank + 1) i j (some m) a b rest (omega arith) lt
            (omega arith) at_i at_j
    ]

-- The two names at ranks in order, whether or not the ranks differ.
pub ranks-Before :
    (r : RegistryView) (i j : ℕ) (a b : List ℕ)
    → check_sorted_order r r.count ≡ ok tt
    → i ≤ j
    → j < r.count
    → Ranked r i a
    → Ranked r j b
    → Before a b
unfolding check_sorted_order
ranks-Before r i j a b h le lt at_i at_j = elim (ℕ_discrete i j) [
  | yes e ↦
      subst (Before a) (same_name r j a b (subst (λ k. Ranked r k a) e at_i) at_j) (Before-self a)
  | no e ↦
      sorted_pair-Before r.count r 0 i j none a b h (omega arith) (omega arith) (omega arith) at_i
        at_j
]
