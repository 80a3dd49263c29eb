-- ===== src/Ir/Tests.antt =====
-- A small conductor for crates/kwokka-ir: its bytes, and the theorems at them.
use kwokka.Base.{
  ℕ, ◌+◌, ◌*◌, ◌<◌, ◌≤◌, ◌≡◌, refl, arith, inl, Option, some, List, [], ◌∷◌, ◌++◌, length,
}
use kwokka.Ir.Fault.{ok}
use kwokka.Ir.Bytes.{get_range, read_u8, read_u16, read_u32, read_u64}
use kwokka.Ir.Node.{RecordView, policy_timeout, from_u16, read_record}
use kwokka.Ir.Policy.{timeout, validate_body, parse_timeout}
use kwokka.Ir.Registry.{name, sorted_ordinal, compare_bytes}
use kwokka.Ir.Config.{ConfigBindingView, parse_binding, parse_scalar}
use kwokka.Ir.Tables.{
  stage_table_offset_field, edge_table_offset_field, Span, EdgeView, stage_entry_len, edge_len,
  parse_edge, ranges_overlap, overlaps_any, slice_table, each_entry, check_edge_ordinal,
  check_edge_ordinals,
}
use kwokka.Ir.Tables.Apart.{Apart, PairwiseApart}
use kwokka.Ir.Slots.{
  record_span_at, check_policy_slot, check_stage_entry, check_stage_policies, nth_record_span,
  no_overlap_from, record_overlaps_from, check_record_overlaps,
}
use kwokka.Ir.Slots.Records.{HasRecord}
use kwokka.Ir.Sections.Placed.{RegistryPlaced, ConfigPlaced}
use kwokka.Ir.Sections.{
  ParsedRegistry, ParsedConfig, parse_registry, parse_config, check_registry_names,
  names_present_from, check_sorted_ordinals, check_sorted_ordinal, check_config_entries,
  check_config_entry, check_sections_disjoint, check_key_in_heap, check_keys_in_heap,
  check_name_in_heap, check_names_in_heap, check_sorted_order, disjoint_from, heap_floor, in_order,
  sections_floor, records_floor_from, sorted_order_from,
}
use kwokka.Ir.Check.{
  registry_view, config_entries, Parsed, parse, check_config_heap, check_registry_heap,
  registry_spans, config_spans,
}
use kwokka.Ir.View.{ConductorView, StageView, view_of, parse_view, stage, edge, config_binding}
use kwokka.Ir.View.Checked.{PolicyFound, parse_view-PolicyFound}
use kwokka.Ir.View.Found.{
  parse_view-edge, parse_view-config_binding, parse-sections_apart, parse-records-Apart,
}
use kwokka.Ir.Blob.{KwokkaIr, validate, conductor, header_len, version}
use kwokka.Ir.Blob.Trust.{validate-conductor}

-- Two stages and one edge.
abbrev header : List ℕ
header =
    2 ∷ 0 ∷ 0 ∷ 0 ∷ 1 ∷ 0 ∷ 0 ∷ 0 ∷ 24 ∷ 0 ∷ 0 ∷ 0 ∷ 56 ∷ 0 ∷ 0 ∷ 0 ∷ 104 ∷ 0 ∷ 0 ∷ 0 ∷ 64 ∷ 0 ∷ 0
    ∷ 0 ∷ []

-- The stage table: a timeout each.
abbrev stages : List ℕ
stages =
    0 ∷ 0 ∷ 0 ∷ 0 ∷ 128 ∷ 0 ∷ 0 ∷ 0 ∷ 0 ∷ 0 ∷ 0 ∷ 0 ∷ 0 ∷ 0 ∷ 0 ∷ 0 ∷ 0 ∷ 0 ∷ 0 ∷ 0 ∷ 144 ∷ 0 ∷ 0
    ∷ 0 ∷ 0 ∷ 0 ∷ 0 ∷ 0 ∷ 0 ∷ 0 ∷ 0 ∷ 0 ∷ []

-- The edge table.
abbrev edges : List ℕ
edges = 0 ∷ 0 ∷ 1 ∷ 0 ∷ 0 ∷ 0 ∷ 0 ∷ 0 ∷ []

-- The config section with one binding.
abbrev config : List ℕ
config =
    1 ∷ 0 ∷ 0 ∷ 0 ∷ 0 ∷ 0 ∷ 0 ∷ 0 ∷ 1 ∷ 0 ∷ 3 ∷ 0 ∷ 2 ∷ 0 ∷ 0 ∷ 0 ∷ 160 ∷ 0 ∷ 0 ∷ 0 ∷ 0 ∷ 0 ∷ 0 ∷ 0
    ∷ 1 ∷ 0 ∷ 0 ∷ 0 ∷ 0 ∷ 0 ∷ 0 ∷ 0 ∷ 9 ∷ 0 ∷ 0 ∷ 0 ∷ 0 ∷ 0 ∷ 0 ∷ 0 ∷ []

-- The name table and the sorted index, padded.
abbrev names : List ℕ
names =
    162 ∷ 0 ∷ 0 ∷ 0 ∷ 1 ∷ 0 ∷ 0 ∷ 0 ∷ 163 ∷ 0 ∷ 0 ∷ 0 ∷ 1 ∷ 0 ∷ 0 ∷ 0 ∷ 1 ∷ 0 ∷ 0 ∷ 0 ∷ 0 ∷ 0 ∷ 0
    ∷ 0 ∷ []

-- The two timeout records.
abbrev records : List ℕ
records =
    7 ∷ 0 ∷ 0 ∷ 0 ∷ 16 ∷ 0 ∷ 0 ∷ 0 ∷ 50 ∷ 0 ∷ 0 ∷ 0 ∷ 0 ∷ 0 ∷ 0 ∷ 0 ∷ 7 ∷ 0 ∷ 0 ∷ 0 ∷ 16 ∷ 0 ∷ 0 ∷ 0
    ∷ 80 ∷ 0 ∷ 0 ∷ 0 ∷ 0 ∷ 0 ∷ 0 ∷ 0 ∷ []

-- The string heap.
abbrev strings : List ℕ
strings = 97 ∷ 98 ∷ 98 ∷ 97 ∷ 0 ∷ 0 ∷ 0 ∷ 0 ∷ []

abbrev body : List ℕ
body = header ++ stages ++ edges ++ config ++ names ++ records ++ strings

abbrev blob : List ℕ
blob =
    75 ∷ 87 ∷ 73 ∷ 82 ∷ 1 ∷ 0 ∷ 0 ∷ 0 ∷ 192 ∷ 0 ∷ 0 ∷ 0 ∷ 16 ∷ 0 ∷ 0 ∷ 0 ∷ 1 ∷ 0 ∷ 0 ∷ 0 ∷ 176 ∷ 0
    ∷ 0 ∷ 0 ∷ body

abbrev parsed : Parsed
parsed = record {
  body = body;
  stage_count = 2;
  edge_count = 1;
  stage_table = stages;
  edge_table = edges;
  registry = some (record {
    body = body;
    name_table = 162 ∷ 0 ∷ 0 ∷ 0 ∷ 1 ∷ 0 ∷ 0 ∷ 0 ∷ 163 ∷ 0 ∷ 0 ∷ 0 ∷ 1 ∷ 0 ∷ 0 ∷ 0 ∷ [];
    sorted_index = 1 ∷ 0 ∷ 0 ∷ 0 ∷ [];
    count = 2;
  });
  config_count = 1;
  config_entries =
      1 ∷ 0 ∷ 3 ∷ 0 ∷ 2 ∷ 0 ∷ 0 ∷ 0 ∷ 160 ∷ 0 ∷ 0 ∷ 0 ∷ 0 ∷ 0 ∷ 0 ∷ 0 ∷ 1 ∷ 0 ∷ 0 ∷ 0 ∷ 0 ∷ 0 ∷ 0
      ∷ 0 ∷ 9 ∷ 0 ∷ 0 ∷ 0 ∷ 0 ∷ 0 ∷ 0 ∷ 0 ∷ [];
}

parse_body : parse body ≡ ok parsed
unfolding parse read_u8 read_u16 read_u32 read_u64 get_range slice_table parse_registry name
    each_entry parse_config parse_binding parse_scalar check_registry_names names_present_from
    check_sorted_ordinals check_sorted_ordinal check_config_entries check_config_entry
    check_sections_disjoint check_key_in_heap check_keys_in_heap check_name_in_heap
    check_names_in_heap check_sorted_order disjoint_from heap_floor in_order sections_floor
    records_floor_from sorted_order_from check_config_heap check_registry_heap from_u16 read_record
    parse_timeout validate_body compare_bytes sorted_ordinal check_policy_slot check_record_overlaps
    check_stage_entry check_stage_policies check_edge_ordinal check_edge_ordinals overlaps_any
    parse_edge ranges_overlap record_span_at nth_record_span no_overlap_from record_overlaps_from
parse_body = refl

abbrev view : ConductorView
view = view_of parsed

parse_view_body : parse_view body ≡ ok view
unfolding parse_view
parse_view_body = rw (parse_view, parse_body) refl

parse_view-edge_example :
    (e : EdgeView) × (edge view 0 ≡ some e) × (e.from_ordinal < 2) × (e.to_ordinal < 2)
parse_view-edge_example = parse_view-edge body view 0 parse_view_body (omega arith)

parse_view-config_binding_example :
    (b : ConfigBindingView) × (config_binding view 0 ≡ some b) × (b.node_ordinal < 2)
parse_view-config_binding_example =
    parse_view-config_binding body view 0 parse_view_body (omega arith)

abbrev second_stage : StageView
second_stage = record {
  body = body;
  entry = 0 ∷ 0 ∷ 0 ∷ 0 ∷ 144 ∷ 0 ∷ 0 ∷ 0 ∷ 0 ∷ 0 ∷ 0 ∷ 0 ∷ 0 ∷ 0 ∷ 0 ∷ 0 ∷ [];
}

stage_second : stage view 1 ≡ some second_stage
unfolding stage get_range
stage_second = refl

parse_view-PolicyFound_example : PolicyFound second_stage timeout
parse_view-PolicyFound_example =
    parse_view-PolicyFound body view 1 second_stage timeout parse_view_body (omega arith)
      stage_second

parse-sections_apart_example :
    (stage_off : ℕ) × (edge_off : ℕ) × (registry : Option ParsedRegistry) × (config : Option
      ParsedConfig)
    × (read_u32 body stage_table_offset_field ≡ ok stage_off)
    × (get_range body stage_off (stage_off + 2 * stage_entry_len) ≡ some stages)
    × (read_u32 body edge_table_offset_field ≡ ok edge_off)
    × (get_range body edge_off (edge_off + 1 * edge_len) ≡ some edges)
    × (parse_registry body 2 ≡ ok registry)
    × RegistryPlaced body registry
    × (parsed.registry ≡ registry_view registry)
    × (parse_config body 2 ≡ ok config)
    × ConfigPlaced body config
    × (parsed.config_entries ≡ config_entries config)
    × PairwiseApart (
        (record { offset = stage_off; len = length stages })
        ∷ (record { offset = edge_off; len = length edges })
        ∷ (registry_spans registry ++ config_spans config))
parse-sections_apart_example = parse-sections_apart body parsed parse_body

abbrev first_record : Span
first_record = record { offset = 128; len = 16 }

abbrev second_record : Span
second_record = record { offset = 144; len = 16 }

abbrev timeout_record : RecordView
timeout_record = record { tag = policy_timeout; body = 50 ∷ 0 ∷ 0 ∷ 0 ∷ 0 ∷ 0 ∷ 0 ∷ 0 ∷ [] }

read_first : read_record body 128 ≡ ok timeout_record
unfolding read_record read_u16 read_u32 get_range from_u16
read_first = refl

abbrev later_record : RecordView
later_record = record { tag = policy_timeout; body = 80 ∷ 0 ∷ 0 ∷ 0 ∷ 0 ∷ 0 ∷ 0 ∷ 0 ∷ [] }

read_second : read_record body 144 ≡ ok later_record
unfolding read_record read_u16 read_u32 get_range from_u16
read_second = refl

abbrev first_entry : List ℕ
first_entry = 0 ∷ 0 ∷ 0 ∷ 0 ∷ 128 ∷ 0 ∷ 0 ∷ 0 ∷ 0 ∷ 0 ∷ 0 ∷ 0 ∷ 0 ∷ 0 ∷ 0 ∷ 0 ∷ []

abbrev second_entry : List ℕ
second_entry = 0 ∷ 0 ∷ 0 ∷ 0 ∷ 144 ∷ 0 ∷ 0 ∷ 0 ∷ 0 ∷ 0 ∷ 0 ∷ 0 ∷ 0 ∷ 0 ∷ 0 ∷ 0 ∷ []

first_span : HasRecord body stages 0 timeout first_record
unfolding read_u32 get_range
first_span = (first_entry, timeout_record, refl, refl, omega arith, read_first, refl)

second_span : HasRecord body stages 1 timeout second_record
unfolding read_u32 get_range
second_span = (second_entry, later_record, refl, refl, omega arith, read_second, refl)

parse-records-Apart_example : Apart first_record second_record
parse-records-Apart_example =
    parse-records-Apart body parsed 0 1 timeout timeout first_record second_record parse_body
      (inl (omega arith)) first_span second_span

abbrev ir : KwokkaIr
ir = record { bytes = blob }

validate-blob : validate blob ≡ ok ir
unfolding validate read_record read_u16 read_u32 get_range from_u16
validate-blob = rw parse_view_body refl

validate-conductor_example :
    (blob ≡ blob)
    × (header_len ≤ length blob)
    × (read_u32 blob 8 ≡ ok (length blob))
    × ((found : ℕ) × (read_u16 blob 4 ≡ ok found) × (found ≤ version))
    × ((v : ConductorView) × (conductor ir ≡ ok v))
validate-conductor_example = validate-conductor blob ir validate-blob
