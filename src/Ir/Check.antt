-- ===== src/Ir/Check.antt =====
-- `parse` of crates/kwokka-ir/src/conductor/check.rs: the checks that a conductor body passes before
-- a view of it is handed out.
pub mod Facts
use kwokka.Base.{ℕ, Option, none, some, List, [], ◌∷◌, ◌++◌, length}
use kwokka.Ir.Fault.{Result, ok, ◌>>=◌, ◌>>◌}
use kwokka.Ir.Bytes.{read_u32}
use kwokka.Ir.Registry.{RegistryView}
use kwokka.Ir.Tables.{
  stage_count_field, edge_count_field, stage_table_offset_field, edge_table_offset_field,
  stage_entry_len, edge_len, Span, slice_table, check_edge_ordinals,
}
use kwokka.Ir.Slots.{check_stage_policies, check_record_overlaps}
use kwokka.Ir.Sections.{
  ParsedRegistry, parse_registry, ParsedConfig, parse_config, check_sections_disjoint, heap_floor,
  check_names_in_heap, check_keys_in_heap, check_sorted_order,
}

pub record Parsed : Type 0 where
  pub body : List ℕ
  pub stage_count : ℕ
  pub edge_count : ℕ
  pub stage_table : List ℕ
  pub edge_table : List ℕ
  pub registry : Option RegistryView
  pub config_count : ℕ
  pub config_entries : List ℕ

-- The spans that the registry and the config section add to the section list.
abbrev pub registry_spans : Option ParsedRegistry → List Span
registry_spans none = []
registry_spans (some r) = r.name_span ∷ r.sorted_span ∷ []

abbrev pub config_spans : Option ParsedConfig → List Span
config_spans none = []
config_spans (some c) = c.section_span ∷ []

unfoldable pub check_registry_heap : Option ParsedRegistry → ℕ → ℕ → Result (Unit {0})
check_registry_heap none floor stage_count = ok tt
check_registry_heap (some r) floor stage_count = do
  check_names_in_heap r.name_table floor
  check_sorted_order r.view stage_count

unfoldable pub check_config_heap : Option ParsedConfig → ℕ → Result (Unit {0})
check_config_heap none floor = ok tt
check_config_heap (some c) floor = check_keys_in_heap c.entries floor

abbrev pub registry_view : Option ParsedRegistry → Option RegistryView
registry_view none = none
registry_view (some r) = some r.view

abbrev pub config_count : Option ParsedConfig → ℕ
config_count none = 0
config_count (some c) = c.count

abbrev pub config_entries : Option ParsedConfig → List ℕ
config_entries none = []
config_entries (some c) = c.entries

-- `check::parse`.
unfoldable pub parse : List ℕ → Result Parsed
parse body = do
  stage_count ← read_u32 body stage_count_field
  edge_count ← read_u32 body edge_count_field
  (stage_off, stage_table) ← slice_table body stage_table_offset_field stage_count stage_entry_len
  (edge_off, edge_table) ← slice_table body edge_table_offset_field edge_count edge_len
  registry ← parse_registry body stage_count
  config ← parse_config body stage_count
  let sections : List Span =
      (record { offset = stage_off; len = length stage_table })
      ∷ (record { offset = edge_off; len = length edge_table })
      ∷ (registry_spans registry ++ config_spans config)
  check_sections_disjoint sections
  check_edge_ordinals edge_table stage_count
  check_stage_policies body stage_table sections
  check_record_overlaps body stage_table
  floor ← heap_floor sections body stage_table
  check_registry_heap registry floor stage_count
  check_config_heap config floor
  ok (record {
    body = body;
    stage_count = stage_count;
    edge_count = edge_count;
    stage_table = stage_table;
    edge_table = edge_table;
    registry = registry_view registry;
    config_count = config_count config;
    config_entries = config_entries config;
  })
