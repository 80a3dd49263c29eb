-- ===== src/Ir/Sections.antt =====
-- crates/kwokka-ir/src/conductor/check.rs: the registry and config sections, and the string heap.
pub mod Disjoint
pub mod Placed
use kwokka.Base.{
  ℕ, zero, suc, ◌+◌, ◌/◌, Bool, true, false, not, ◌==◌, leb, ltb, if◌then◌else◌, Option, none, some,
  List, [], ◌∷◌, length, checked_add, checked_mul,
}
use Prim.Native.Nat.{Ordering, max}
use kwokka.Ir.Fault.{
  out_of_bounds, ordinal_out_of_range, registry_unsorted, Result, ok, err, ◌>>=◌, ◌>>◌, require,
  ok_or,
}
use kwokka.Ir.Bytes.{get_range, from_le_bytes, read_u32}
use kwokka.Ir.Policy.{policy_count}
use kwokka.Ir.Registry.{
  RegistryView, name, sorted_ordinal, compare_bytes, name_entry_len, sorted_entry_len,
}
use kwokka.Ir.Config.{parse_binding, config_binding_len}
use kwokka.Ir.Tables.{
  registry_table_offset_field, config_table_offset_field, conductor_header_len, stage_entry_len,
  config_header_len, Span, ranges_overlap, slice_table, each_entry,
}
use kwokka.Ir.Slots.{nth_record_span}

pub record ParsedRegistry : Type 0 where
  pub view : RegistryView
  pub name_table : List ℕ
  pub name_span : Span
  pub sorted_span : Span

-- `for ordinal in 0..stage_count` of `check_registry_names`.
unfoldable pub names_present_from : ℕ → RegistryView → ℕ → Result (Unit {0})
names_present_from zero view ordinal = ok tt
names_present_from (suc rounds) view ordinal = elim (name view ordinal) [
  | none ↦ err out_of_bounds
  | some n ↦ names_present_from rounds view (ordinal + 1)
]

unfoldable pub check_registry_names : RegistryView → ℕ → Result (Unit {0})
check_registry_names view stage_count = names_present_from stage_count view 0

unfoldable pub check_sorted_ordinal : ℕ → List ℕ → Result (Unit {0})
check_sorted_ordinal stage_count entry = do
  require (length entry == 2) out_of_bounds
  require (not (leb stage_count (from_le_bytes entry))) ordinal_out_of_range

unfoldable pub check_sorted_ordinals : List ℕ → ℕ → Result (Unit {0})
check_sorted_ordinals sorted_index stage_count =
    each_entry (length sorted_index) sorted_index sorted_entry_len 0
      (check_sorted_ordinal stage_count)

unfoldable pub parse_registry : List ℕ → ℕ → Result (Option ParsedRegistry)
parse_registry body stage_count = do
  registry_offset ← read_u32 body registry_table_offset_field
  if registry_offset == 0 then ok none else do
    (name_offset, name_table) ←
        slice_table body registry_table_offset_field stage_count name_entry_len
    sorted_offset ← ok_or (checked_add name_offset (length name_table)) out_of_bounds
    sorted_len ← ok_or (checked_mul stage_count sorted_entry_len) out_of_bounds
    sorted_end ← ok_or (checked_add sorted_offset sorted_len) out_of_bounds
    sorted_index ← ok_or (get_range body sorted_offset sorted_end) out_of_bounds
    let view : RegistryView = record {
      body = body;
      name_table = name_table;
      sorted_index = sorted_index;
      count = stage_count;
    }
    check_registry_names view stage_count
    check_sorted_ordinals sorted_index stage_count
    ok (
        some (record {
          view = view;
          name_table = name_table;
          name_span = record { offset = name_offset; len = length name_table };
          sorted_span = record { offset = sorted_offset; len = length sorted_index };
        }))

pub record ParsedConfig : Type 0 where
  pub count : ℕ
  pub entries : List ℕ
  pub section_span : Span

unfoldable pub check_config_entry : List ℕ → ℕ → List ℕ → Result (Unit {0})
check_config_entry body stage_count entry = do
  binding ← parse_binding body entry
  require (not (leb stage_count binding.node_ordinal)) ordinal_out_of_range

unfoldable pub check_config_entries : List ℕ → List ℕ → ℕ → Result (Unit {0})
check_config_entries body entries stage_count =
    each_entry (length entries) entries config_binding_len 0 (check_config_entry body stage_count)

unfoldable pub parse_config : List ℕ → ℕ → Result (Option ParsedConfig)
parse_config body stage_count = do
  config_offset ← read_u32 body config_table_offset_field
  if config_offset == 0 then ok none else do
    require (not (ltb config_offset conductor_header_len)) out_of_bounds
    count ← read_u32 body config_offset
    entries_offset ← ok_or (checked_add config_offset config_header_len) out_of_bounds
    entries_len ← ok_or (checked_mul count config_binding_len) out_of_bounds
    entries_end ← ok_or (checked_add entries_offset entries_len) out_of_bounds
    entries ← ok_or (get_range body entries_offset entries_end) out_of_bounds
    check_config_entries body entries stage_count
    section_len ← ok_or (checked_add config_header_len entries_len) out_of_bounds
    ok (
        some (record {
          count = count;
          entries = entries;
          section_span = record { offset = config_offset; len = section_len };
        }))

-- The inner loop of `check_sections_disjoint`.
unfoldable pub disjoint_from : Span → List Span → Result (Unit {0})
disjoint_from section [] = ok tt
disjoint_from section (other ∷ others) =
    let rest = disjoint_from section others in
    if ranges_overlap section other then err out_of_bounds else rest

unfoldable pub check_sections_disjoint : List Span → Result (Unit {0})
check_sections_disjoint [] = ok tt
check_sections_disjoint (section ∷ others) = do
  disjoint_from section others
  check_sections_disjoint others

unfoldable pub sections_floor : List Span → ℕ → ℕ
sections_floor [] floor = floor
sections_floor (s ∷ sections) floor = sections_floor sections (max floor (s.offset + s.len))

-- The second loop of `heap_floor`, from slot `n` with `rounds` slots to go.
unfoldable pub records_floor_from : ℕ → List ℕ → List ℕ → ℕ → ℕ → Result ℕ
records_floor_from zero body stage_table n floor = ok floor
records_floor_from (suc rounds) body stage_table n floor = do
  record_span ← nth_record_span body stage_table n
  elim record_span [
    | none ↦ records_floor_from rounds body stage_table (n + 1) floor
    | some s ↦ records_floor_from rounds body stage_table (n + 1) (max floor (s.offset + s.len))
  ]

unfoldable pub heap_floor : List Span → List ℕ → List ℕ → Result ℕ
heap_floor sections body stage_table = do
  total ← ok_or (checked_mul (length stage_table / stage_entry_len) policy_count) out_of_bounds
  records_floor_from total body stage_table 0 (sections_floor sections 0)

unfoldable pub check_name_in_heap : ℕ → List ℕ → Result (Unit {0})
check_name_in_heap floor entry = do
  offset ← read_u32 entry 0
  require (not (ltb offset floor)) out_of_bounds

unfoldable pub check_names_in_heap : List ℕ → ℕ → Result (Unit {0})
check_names_in_heap name_table floor =
    each_entry (length name_table) name_table name_entry_len 0 (check_name_in_heap floor)

unfoldable pub check_key_in_heap : ℕ → List ℕ → Result (Unit {0})
check_key_in_heap floor entry = do
  offset ← read_u32 entry 8
  require (not (ltb offset floor)) out_of_bounds

unfoldable pub check_keys_in_heap : List ℕ → ℕ → Result (Unit {0})
check_keys_in_heap entries floor =
    each_entry (length entries) entries config_binding_len 0 (check_key_in_heap floor)

-- `name < prev`.
abbrev pub bytes_lt : List ℕ → List ℕ → Bool
bytes_lt a b = elim (compare_bytes a b) [ Ordering.lt ↦ true | _ ↦ false ]

-- `if name < prev { return Err(RegistryUnsorted) }`, where there is a previous name.
unfoldable pub in_order : Option (List ℕ) → List ℕ → Bool
in_order none n = true
in_order (some prev) n = not (bytes_lt n prev)

-- The loop of `check_sorted_order`, from rank `rank` with `rounds` ranks to go.
unfoldable pub sorted_order_from : ℕ → RegistryView → ℕ → Option (List ℕ) → Result (Unit {0})
sorted_order_from zero view rank previous = ok tt
sorted_order_from (suc rounds) view rank previous = do
  ordinal ← ok_or (sorted_ordinal view rank) out_of_bounds
  n ← ok_or (name view ordinal) out_of_bounds
  require (in_order previous n) registry_unsorted
  sorted_order_from rounds view (rank + 1) (some n)

unfoldable pub check_sorted_order : RegistryView → ℕ → Result (Unit {0})
check_sorted_order view stage_count = sorted_order_from stage_count view 0 none
