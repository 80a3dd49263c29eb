-- ===== src/Ir/Registry/Search.antt =====
-- The binary search `lookup` of crates/kwokka-ir/src/registry/name.rs, on an index that
-- `check_sorted_order` of crates/kwokka-ir/src/conductor/check.rs has passed.
use kwokka.Base.{
  ℕ, zero, suc, ◌+◌, ◌-◌, ◌/◌, ◌<◌, ◌≤◌, ◌≡◌, refl, ap, sym, ◌∙◌, Bool, true, false, List, Option,
  none, some, arith, inl, inr, lt→ltb, ltb→lt, ltb, Bool-cases, Option-cases, ◌⊎◌,
}
use Prim.Native.Nat.{Ordering}
use kwokka.Ir.Fault.{ok}
use kwokka.Ir.Registry.{RegistryView, name, sorted_ordinal, compare_bytes, lookup_loop, lookup}
use kwokka.Ir.Registry.Order.{compare_bytes-eq, compare_bytes-gt}
use kwokka.Ir.Sections.{check_sorted_order}
use kwokka.Ir.Registry.Sorted.{Ranked, sorted-Ranked, ranks-Before}

-- One probe of the search: it finds the key, or says on which side of `mid` the key's ranks are.
probe_side :
    (r : RegistryView) (key probe : List ℕ) (mid j : ℕ)
    → check_sorted_order r r.count ≡ ok tt
    → mid < r.count
    → j < r.count
    → Ranked r mid probe
    → Ranked r j key
    → (compare_bytes key probe ≡ Ordering.lt → j < mid)
      × (compare_bytes key probe ≡ Ordering.gt → mid < j)
probe_side r key probe mid j h m_lt j_lt at_mid at_j = (
  λ lt. elim (le_or_lt mid j) [
    | inl le ↦ cc (ap is_lt lt, ranks-Before r mid j probe key h le j_lt at_mid at_j)
    | inr g ↦ g
  ],
  λ gt. elim (le_or_lt j mid) [
    | inl le ↦
        cc (compare_bytes-gt key probe gt, ranks-Before r j mid key probe h le m_lt at_j at_mid)
    | inr g ↦ g
  ],
)
  where
    is_lt : Ordering → Bool
    is_lt o = elim o as (λ _. Bool) [ Ordering.lt ↦ true | _ ↦ false ]

    le_or_lt : (a b : ℕ) → (a ≤ b) ⊎ (b < a)
    le_or_lt a b = ground arith

Ordering-cases : (o : Ordering) → (o ≡ Ordering.lt) ⊎ ((o ≡ Ordering.eq) ⊎ (o ≡ Ordering.gt))
Ordering-cases Ordering.lt = inl refl
Ordering-cases Ordering.eq = inr (inl refl)
Ordering-cases Ordering.gt = inr (inr refl)

-- A round of the loop in terms of the probe's outcome.
lookup_loop-probe :
    (fuel : ℕ) (r : RegistryView) (key probe : List ℕ) (low high : ℕ) (o : Ordering)
    → low < high
    → (at_mid : Ranked r (low + (high - low) / 2) probe) → compare_bytes key probe ≡ o
    → lookup_loop (suc fuel) r key low high ≡ (elim o [
      | Ordering.eq ↦ some at_mid.ordinal
      | Ordering.lt ↦ lookup_loop fuel r key low (low + (high - low) / 2)
      | Ordering.gt ↦ lookup_loop fuel r key (low + (high - low) / 2 + 1) high
    ])
unfolding lookup_loop
lookup_loop-probe fuel r key probe low high o lt at_mid e =
    rw (lt→ltb low high lt, lookup_loop, at_mid.indexed, at_mid.named)
      (ap
        (λ (side : Ordering). elim side as (λ _. Option ℕ) [
          | Ordering.eq ↦ some at_mid.ordinal
          | Ordering.lt ↦ lookup_loop fuel r key low (low + (high - low) / 2)
          | Ordering.gt ↦ lookup_loop fuel r key (low + (high - low) / 2 + 1) high
        ])
        e)

lookup_loop-finds :
    (fuel : ℕ) (r : RegistryView) (key : List ℕ) (low high j : ℕ)
    → check_sorted_order r r.count ≡ ok tt
    → high ≤ r.count
    → low ≤ j
    → j < high
    → high - low ≤ fuel
    → Ranked r j key
    → (found : ℕ) × (lookup_loop fuel r key low high ≡ some found) × (name r found ≡ some key)
unfolding lookup_loop check_sorted_order
lookup_loop-finds zero r key low high j h top le lt enough at_j = absurd (omega arith)
lookup_loop-finds (suc fuel) r key low high j h top le lt enough at_j =
    let mid = low + (high - low) / 2 in
    let inside : (low ≤ mid) × (mid < high) = (omega arith, omega arith) in
    let (probe, at_mid) =
      sorted-Ranked r.count r 0 mid none h (omega arith) (omega (arith, inside.1)) in
    let side = probe_side r key probe mid j h (omega (arith, inside.1)) (omega arith) at_mid at_j in
    let o : Ordering = compare_bytes key probe in
    elim (Ordering-cases o) [
      | inl e ↦
          let r' =
            lookup_loop-finds fuel r key low mid j h (omega (arith, inside.1)) le (side.0 e)
              (omega (arith, inside.1)) at_j in
          (
            r'.0,
            lookup_loop-probe fuel r key probe low high Ordering.lt (omega arith) at_mid e ∙ r'.1,
            r'.2,
          )
      | inr (inl e) ↦ (
        at_mid.ordinal,
        lookup_loop-probe fuel r key probe low high Ordering.eq (omega arith) at_mid e,
        at_mid.named ∙ ap some (sym (compare_bytes-eq key probe e)),
      )
      | inr (inr e) ↦
          let r' =
            lookup_loop-finds fuel r key (mid + 1) high j h top (omega (arith, side.1 e)) lt
              (omega (arith, inside.0)) at_j in
          (
            r'.0,
            lookup_loop-probe fuel r key probe low high Ordering.gt (omega arith) at_mid e ∙ r'.1,
            r'.2,
          )
    ]

lookup_loop-names :
    (fuel : ℕ) (r : RegistryView) (key : List ℕ) (low high found : ℕ)
    → lookup_loop fuel r key low high ≡ some found
    → name r found ≡ some key
unfolding lookup_loop
lookup_loop-names zero r key low high found h = cc
lookup_loop-names (suc fuel) r key low high found h =
    let mid = low + (high - low) / 2 in
    elim (Bool-cases (ltb low high)) [
      | inr f ↦ cc (rw (lookup_loop, f) at h)
      | inl t ↦ elim (Option-cases (sorted_ordinal r mid)) [
        | inl e ↦ cc (rw (lookup_loop, t, e) at h)
        | inr (o, e) ↦ elim (Option-cases (name r o)) [
          | inl e' ↦ cc (rw (lookup_loop, t, e, e') at h)
          | inr (probe, e') ↦
              let at_mid : Ranked r mid probe = record { ordinal = o; indexed = e; named = e' } in
              let lt = ltb→lt low high t in
              elim (Ordering-cases (compare_bytes key probe)) [
                | inl s ↦
                    lookup_loop-names fuel r key low mid found (
                      sym (lookup_loop-probe fuel r key probe low high Ordering.lt lt at_mid s) ∙ h)
                | inr (inl s) ↦
                    let same : o ≡ found = some_inj (
                      sym (lookup_loop-probe fuel r key probe low high Ordering.eq lt at_mid s)
                      ∙ h) in
                    ap (name r) (sym same) ∙ e' ∙ ap some (sym (compare_bytes-eq key probe s))
                | inr (inr s) ↦
                    lookup_loop-names fuel r key (mid + 1) high found (
                      sym (lookup_loop-probe fuel r key probe low high Ordering.gt lt at_mid s) ∙ h)
              ]
        ]
      ]
    ]
  where
    some_inj : {a b : ℕ} → some a ≡ some b → a ≡ b
    some_inj e = cc

-- An ordinal that `lookup` answers has the name that was asked for, in any registry.
pub lookup-names :
    (r : RegistryView) (key : List ℕ) (found : ℕ)
    → lookup r key ≡ some found
    → name r found ≡ some key
unfolding lookup
lookup-names r key found h = lookup_loop-names r.count r key 0 r.count found h

-- On an index that `check_sorted_order` passes, `lookup` of a name that the index lists at some rank
-- answers an ordinal with that name.
pub lookup-finds :
    (r : RegistryView) (key : List ℕ) (rank ordinal : ℕ)
    → check_sorted_order r r.count ≡ ok tt
    → rank < r.count
    → sorted_ordinal r rank ≡ some ordinal
    → name r ordinal ≡ some key
    → (answer : ℕ) × (lookup r key ≡ some answer) × (name r answer ≡ some key)
unfolding lookup
lookup-finds r key rank ordinal h lt indexed named =
    lookup_loop-finds r.count r key 0 r.count rank h (omega arith) (omega arith) lt (omega arith)
      (record { ordinal = ordinal; indexed = indexed; named = named })
