-- ===== src/Ir/Registry/Tests.antt =====
-- A registry of two names for crates/kwokka-ir/src/registry: "b" at ordinal 0 and "a" at ordinal 1.
use kwokka.Base.{ℕ, ◌≡◌, refl, arith, some, [], ◌∷◌}
use kwokka.Ir.Fault.{ok}
use kwokka.Ir.Bytes.{get_range}
use kwokka.Ir.Registry.{RegistryView, name, sorted_ordinal, compare_bytes, lookup, lookup_loop}
use kwokka.Ir.Registry.Search.{lookup-finds, lookup-names}
use kwokka.Ir.Sections.{check_sorted_order, sorted_order_from, in_order}

abbrev registry : RegistryView
registry = record {
  body = b'b' ∷ b'a' ∷ [];
  name_table = 0 ∷ 0 ∷ 0 ∷ 0 ∷ 1 ∷ 0 ∷ 0 ∷ 0 ∷ 1 ∷ 0 ∷ 0 ∷ 0 ∷ 1 ∷ 0 ∷ 0 ∷ 0 ∷ [];
  sorted_index = 1 ∷ 0 ∷ 0 ∷ 0 ∷ [];
  count = 2;
}

registry-sorted : check_sorted_order registry 2 ≡ ok tt
unfolding check_sorted_order sorted_order_from in_order sorted_ordinal name get_range compare_bytes
registry-sorted = refl

last_rank : sorted_ordinal registry 1 ≡ some 0
unfolding sorted_ordinal get_range
last_rank = refl

name_first : name registry 0 ≡ some (b'b' ∷ [])
unfolding name get_range
name_first = refl

lookup_b : lookup registry (b'b' ∷ []) ≡ some 0
unfolding lookup lookup_loop sorted_ordinal name get_range compare_bytes
lookup_b = refl

lookup-finds_example :
    (answer : ℕ) × (lookup registry (b'b' ∷ []) ≡ some answer)
    × (name registry answer ≡ some (b'b' ∷ []))
lookup-finds_example =
    lookup-finds registry (b'b' ∷ []) 1 0 registry-sorted (omega arith) last_rank name_first

lookup-names_example : name registry 0 ≡ some (b'b' ∷ [])
lookup-names_example = lookup-names registry (b'b' ∷ []) 0 lookup_b
