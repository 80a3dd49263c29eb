-- ===== src/Ir/Registry.antt =====
-- crates/kwokka-ir/src/registry: the name table and the name-sorted index. Counts, ordinals and
-- offsets are `u32`, so no product or sum of them overflows `usize`; the checks are kept.
pub mod Order
pub mod Sorted
pub mod Search
mod Tests
use kwokka.Base.{
  ℕ, zero, suc, ◌+◌, ◌-◌, ◌/◌, leb, ltb, if◌then◌else◌, Option, none, some, List, [], ◌∷◌, take,
  drop, checked_add, checked_mul,
}
use Prim.Native.Nat.{Ordering, compare}
use kwokka.Base.Maybe.{◌>>=◌}
use kwokka.Ir.Bytes.{get_range, from_le_bytes}

pub record RegistryView : Type 0 where
  pub body : List ℕ
  pub name_table : List ℕ
  pub sorted_index : List ℕ
  pub count : ℕ

abbrev pub name_entry_len : ℕ
name_entry_len = 8

abbrev pub sorted_entry_len : ℕ
sorted_entry_len = 2

-- `RegistryView::name`.
unfoldable pub name : RegistryView → ℕ → Option (List ℕ)
name r ordinal = if leb r.count ordinal then none else do
  offset ← checked_mul ordinal name_entry_len
  end ← checked_add offset name_entry_len
  entry ← get_range r.name_table offset end
  let str_offset = from_le_bytes (take 4 entry)
  let str_len = from_le_bytes (drop 4 entry)
  str_end ← checked_add str_offset str_len
  get_range r.body str_offset str_end

-- `RegistryView::sorted_ordinal`.
unfoldable pub sorted_ordinal : RegistryView → ℕ → Option ℕ
sorted_ordinal r rank = do
  offset ← checked_mul rank sorted_entry_len
  end ← checked_add offset sorted_entry_len
  entry ← get_range r.sorted_index offset end
  some (from_le_bytes entry)

-- `cmp` of byte slices.
unfoldable pub compare_bytes : List ℕ → List ℕ → Ordering
compare_bytes [] [] = Ordering.eq
compare_bytes [] (y ∷ ys) = Ordering.lt
compare_bytes (x ∷ xs) [] = Ordering.gt
compare_bytes (x ∷ xs) (y ∷ ys) = elim (compare x y) [
  | Ordering.lt ↦ Ordering.lt
  | Ordering.eq ↦ compare_bytes xs ys
  | Ordering.gt ↦ Ordering.gt
]

-- The loop of `lookup`. The fuel bounds `high - low`, which falls in every round.
unfoldable pub lookup_loop : ℕ → RegistryView → List ℕ → ℕ → ℕ → Option ℕ
lookup_loop zero r key low high = none
lookup_loop (suc fuel) r key low high =
    let mid = low + (high - low) / 2 in
    let probing : Option ℕ = (do
      ordinal ← sorted_ordinal r mid
      probe ← name r ordinal
      elim (compare_bytes key probe) [
        | Ordering.eq ↦ some ordinal
        | Ordering.lt ↦ lookup_loop fuel r key low mid
        | Ordering.gt ↦ lookup_loop fuel r key (mid + 1) high
      ]) in
    if ltb low high then probing else none

-- `RegistryView::lookup`.
unfoldable pub lookup : RegistryView → List ℕ → Option ℕ
unfolding lookup_loop
lookup r key = lookup_loop r.count r key 0 r.count
