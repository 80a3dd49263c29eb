-- ===== src/Ir/View/Found.antt =====
-- What crates/kwokka-ir promises about a conductor body that `parse` accepts: every table entry is
-- found by the accessors of crates/kwokka-ir/src/conductor/spec.rs, and no byte is used twice.
use kwokka.Base.{ℕ, ◌+◌, ◌*◌, ◌<◌, ◌≡◌, ◌≢◌, ◌⊎◌, some, Option, List, ◌∷◌, ◌++◌, length}
use mathlib.Core.Path.{subst}
use kwokka.Ir.Fault.{ok}
use kwokka.Ir.Bytes.{get_range, read_u32}
use kwokka.Ir.Policy.{PolicyKind}
use kwokka.Ir.Config.{ConfigBindingView}
use kwokka.Ir.Tables.{
  Span, EdgeView, edge_len, stage_entry_len, stage_table_offset_field, edge_table_offset_field,
}
use kwokka.Ir.Tables.Apart.{Apart, PairwiseApart}
use kwokka.Ir.Slots.Records.{HasRecord, records-Apart}
use kwokka.Ir.Sections.{ParsedRegistry, ParsedConfig, parse_registry, parse_config}
use kwokka.Ir.Sections.Disjoint.{check_sections_disjoint-Apart}
use kwokka.Ir.Sections.Placed.{
  RegistryPlaced, ConfigPlaced, parse_registry-Placed, parse_config-Placed,
}
use kwokka.Ir.Check.{Parsed, parse, registry_spans, config_spans, registry_view, config_entries}
use kwokka.Ir.Check.Facts.{parse-Facts}
use kwokka.Ir.View.{ConductorView, parse_view, stage, edge, config_binding}
use kwokka.Ir.View.Checked.{parse_view-AllPresent}

-- In the view of a body that parses, `stage` finds every ordinal below the stage count, and its
-- entry is that ordinal's 16 bytes of the stage table.
pub parse_view-stage :
    (body : List ℕ) (v : ConductorView) (ordinal : ℕ)
    → parse_view body ≡ ok v
    → ordinal < v.stage_count
    → (entry : List ℕ) × (stage v ordinal ≡ some (record { body = v.body; entry = entry }))
      × (get_range v.stage_table
            (ordinal * stage_entry_len)
            (ordinal * stage_entry_len + stage_entry_len)
          ≡ some entry)
parse_view-stage body v ordinal h lt = (parse_view-AllPresent body v h).0 ordinal lt

-- In the view of a body that parses, `edge` finds every index below the edge count, and the edge
-- joins two stage ordinals.
pub parse_view-edge :
    (body : List ℕ) (v : ConductorView) (index : ℕ)
    → parse_view body ≡ ok v
    → index < v.edge_count
    → (e : EdgeView) × (edge v index ≡ some e)
      × (e.from_ordinal < v.stage_count)
      × (e.to_ordinal < v.stage_count)
parse_view-edge body v index h lt = (parse_view-AllPresent body v h).1 index lt

-- In the view of a body that parses, `config_binding` finds every index below the binding count, and
-- the binding names a stage ordinal.
pub parse_view-config_binding :
    (body : List ℕ) (v : ConductorView) (index : ℕ)
    → parse_view body ≡ ok v
    → index < v.config_count
    → (b : ConfigBindingView) × (config_binding v index ≡ some b) × (b.node_ordinal < v.stage_count)
parse_view-config_binding body v index h lt = (parse_view-AllPresent body v h).2 index lt

-- In a body that parses, the stage and edge tables lie where the fields of the header say, the
-- registry's two tables and the config section, if the header names them, lie in their spans, and no
-- byte belongs to two of the stage table, the edge table, the registry's two tables and the config
-- section.
pub parse-sections_apart :
    (body : List ℕ) (p : Parsed)
    → parse body ≡ ok p
    → (stage_off : ℕ) × (edge_off : ℕ) × (registry : Option ParsedRegistry) × (config : Option
        ParsedConfig)
      × (read_u32 body stage_table_offset_field ≡ ok stage_off)
      × (get_range body stage_off (stage_off + p.stage_count * stage_entry_len)
          ≡ some p.stage_table)
      × (read_u32 body edge_table_offset_field ≡ ok edge_off)
      × (get_range body edge_off (edge_off + p.edge_count * edge_len) ≡ some p.edge_table)
      × (parse_registry body p.stage_count ≡ ok registry)
      × RegistryPlaced body registry
      × (p.registry ≡ registry_view registry)
      × (parse_config body p.stage_count ≡ ok config)
      × ConfigPlaced body config
      × (p.config_entries ≡ config_entries config)
      × PairwiseApart (
          (record { offset = stage_off; len = length p.stage_table })
          ∷ (record { offset = edge_off; len = length p.edge_table })
          ∷ (registry_spans registry ++ config_spans config))
parse-sections_apart body p h =
    let f = parse-Facts body p h in
    (
      f.stage_off,
      f.edge_off,
      f.registry,
      f.config,
      f.stages.named,
      f.stages.sliced,
      f.edges.named,
      f.edges.sliced,
      f.parsed_registry,
      parse_registry-Placed body p.stage_count f.registry f.parsed_registry,
      f.view,
      f.parsed_config,
      parse_config-Placed body p.stage_count f.config f.parsed_config,
      f.entries,
      subst PairwiseApart f.all_sections (check_sections_disjoint-Apart f.sections f.disjoint),
    )

-- In a body that parses, two policy slots that differ in their stage or in their kind name records
-- that share no byte, each record counted with its header and its body.
pub parse-records-Apart :
    (body : List ℕ) (p : Parsed) (a b : ℕ) (k l : PolicyKind) (s t : Span)
    → parse body ≡ ok p
    → (a ≢ b) ⊎ (k ≢ l)
    → HasRecord body p.stage_table a k s
    → HasRecord body p.stage_table b l t
    → Apart s t
parse-records-Apart body p a b k l s t h other first second =
    records-Apart body p.stage_table (parse-Facts body p h).overlaps a b k l s t other first second
