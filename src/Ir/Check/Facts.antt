-- ===== src/Ir/Check/Facts.antt =====
-- What `parse` of crates/kwokka-ir/src/conductor/check.rs has established when it succeeds.
use kwokka.Base.{
  ℕ, ◌+◌, ◌*◌, ◌<◌, ◌≤◌, ◌≡◌, refl, ap, sym, ◌∙◌, not, ltb, Option, some, List, ◌∷◌, ◌++◌, length,
  arith, checked_add, checked_mul, u64_mod,
}
use mathlib.Core.Path.{subst}
use kwokka.Ir.Fault.{out_of_bounds, ok, ok_or, require, >>=-eq-ok, ok_or-eq-ok, require-eq-ok}
use kwokka.Ir.Bytes.{get_range, read_u32}
use kwokka.Ir.Bytes.Ranges.{checked_add-some, get_range-some}
use kwokka.Ir.Tables.{
  Span, slice_table, conductor_header_len, stage_table_offset_field, edge_table_offset_field,
  stage_count_field, edge_count_field, stage_entry_len, edge_len, check_edge_ordinals,
}
use kwokka.Ir.Slots.{check_stage_policies, check_record_overlaps}
use kwokka.Ir.Sections.{
  ParsedRegistry, ParsedConfig, parse_registry, parse_config, check_sections_disjoint, heap_floor,
}
use kwokka.Ir.Check.{
  Parsed, parse, registry_spans, config_spans, check_registry_heap, check_config_heap,
  registry_view, config_count, config_entries,
}

pub checked_mul-some :
    (a b : ℕ) {c : ℕ} → checked_mul a b ≡ some c → (c ≡ a * b) × (a * b < u64_mod)
checked_mul-some a b h = ground arith

-- A table that was sliced lies in the body behind the header, at the offset that its field names.
pub record TableOk (body : List ℕ) (field count entry_len offset : ℕ) (table : List ℕ)
    : Type 0 where
  pub named : read_u32 body field ≡ ok offset
  pub sliced : get_range body offset (offset + count * entry_len) ≡ some table
  pub behind_header : conductor_header_len ≤ offset
  pub whole : length table ≡ count * entry_len
  pub inside : offset + count * entry_len ≤ length body
  pub small : count * entry_len < u64_mod

pub slice_table-TableOk :
    (body : List ℕ) (field count entry_len offset : ℕ) (table : List ℕ)
    → slice_table body field count entry_len ≡ ok (offset, table)
    → TableOk body field count entry_len offset table
unfolding slice_table
slice_table-TableOk body field count entry_len offset table h =
    let a = >>=-eq-ok (read_u32 body field) _ h in
    let b = >>=-eq-ok (require (not (ltb a.0 conductor_header_len)) out_of_bounds) _ a.2 in
    let c = >>=-eq-ok (ok_or (checked_mul count entry_len) out_of_bounds) _ b.2 in
    let d = >>=-eq-ok (ok_or (checked_add a.0 c.0) out_of_bounds) _ c.2 in
    let e = >>=-eq-ok (ok_or (get_range body a.0 d.0) out_of_bounds) _ d.2 in
    let prod = checked_mul-some count entry_len (ok_or-eq-ok _ _ c.1) in
    let sum = checked_add-some a.0 c.0 (ok_or-eq-ok _ _ d.1) in
    let slice = ok_or-eq-ok (get_range body a.0 d.0) _ e.1 in
    let bounds = get_range-some body a.0 d.0 slice in
    let same : (a.0 ≡ offset) × (e.0 ≡ table) = ground (arith, e.2) in
    let behind : conductor_header_len ≤ a.0 = ground (arith, require-eq-ok _ _ b.1) in
    let end : d.0 ≡ offset + count * entry_len = omega (arith, same.0, sum, prod) in
    record {
      named = a.1 ∙ ap ok same.0;
      sliced =
          ap (λ n. get_range body n (offset + count * entry_len)) (sym same.0)
          ∙ ap (get_range body a.0) (sym end)
          ∙ slice
          ∙ ap some same.1;
      behind_header = omega (arith, behind, same.0);
      whole = omega (arith, ap length same.1, bounds, sum, prod);
      inside = omega (arith, bounds, end);
      small = prod.1;
    }

pub record Facts (body : List ℕ) (p : Parsed) : Type 0 where
  pub stage_off : ℕ
  pub edge_off : ℕ
  pub floor : ℕ
  pub registry : Option ParsedRegistry
  pub config : Option ParsedConfig
  pub sections : List Span
  pub same_body : p.body ≡ body
  pub stages :
      TableOk body stage_table_offset_field p.stage_count stage_entry_len stage_off p.stage_table
  pub edges : TableOk body edge_table_offset_field p.edge_count edge_len edge_off p.edge_table
  pub parsed_registry : parse_registry body p.stage_count ≡ ok registry
  pub parsed_config : parse_config body p.stage_count ≡ ok config
  pub view : p.registry ≡ registry_view registry
  pub count : p.config_count ≡ config_count config
  pub entries : p.config_entries ≡ config_entries config
  pub all_sections :
      sections
      ≡ (record { offset = stage_off; len = length p.stage_table })
        ∷ (record { offset = edge_off; len = length p.edge_table })
        ∷ (registry_spans registry ++ config_spans config)
  pub disjoint : check_sections_disjoint sections ≡ ok tt
  pub edge_ordinals : check_edge_ordinals p.edge_table p.stage_count ≡ ok tt
  pub policies : check_stage_policies body p.stage_table sections ≡ ok tt
  pub overlaps : check_record_overlaps body p.stage_table ≡ ok tt
  pub floors : heap_floor sections body p.stage_table ≡ ok floor
  pub registry_heap : check_registry_heap registry floor p.stage_count ≡ ok tt
  pub config_heap : check_config_heap config floor ≡ ok tt

ok_inj : (p q : Parsed) → ok p ≡ ok q → p ≡ q
ok_inj p q e = cc

pub parse-Facts : (body : List ℕ) (p : Parsed) → parse body ≡ ok p → Facts body p
unfolding parse
parse-Facts body p h =
    let a = >>=-eq-ok (read_u32 body stage_count_field) _ h in
    let b = >>=-eq-ok (read_u32 body edge_count_field) _ a.2 in
    let c = >>=-eq-ok (slice_table body stage_table_offset_field a.0 stage_entry_len) _ b.2 in
    let d = >>=-eq-ok (slice_table body edge_table_offset_field b.0 edge_len) _ c.2 in
    let e = >>=-eq-ok (parse_registry body a.0) _ d.2 in
    let f = >>=-eq-ok (parse_config body a.0) _ e.2 in
    let sections : List Span =
      (record { offset = c.0.0; len = length c.0.1 })
      ∷ (record { offset = d.0.0; len = length d.0.1 })
      ∷ (registry_spans e.0 ++ config_spans f.0) in
    let g = >>=-eq-ok (check_sections_disjoint sections) _ f.2 in
    let i = >>=-eq-ok (check_edge_ordinals d.0.1 a.0) _ g.2 in
    let j = >>=-eq-ok (check_stage_policies body c.0.1 sections) _ i.2 in
    let k = >>=-eq-ok (check_record_overlaps body c.0.1) _ j.2 in
    let l = >>=-eq-ok (heap_floor sections body c.0.1) _ k.2 in
    let m = >>=-eq-ok (check_registry_heap e.0 l.0 a.0) _ l.2 in
    let n = >>=-eq-ok (check_config_heap f.0 l.0) _ m.2 in
    let facts : Facts body _ = record {
      stage_off = c.0.0;
      edge_off = d.0.0;
      floor = l.0;
      registry = e.0;
      config = f.0;
      sections = sections;
      same_body = refl;
      stages = slice_table-TableOk body _ a.0 stage_entry_len c.0.0 c.0.1 c.1;
      edges = slice_table-TableOk body _ b.0 edge_len d.0.0 d.0.1 d.1;
      parsed_registry = e.1;
      parsed_config = f.1;
      view = refl;
      count = refl;
      entries = refl;
      all_sections = refl;
      disjoint = g.1;
      edge_ordinals = i.1;
      policies = j.1;
      overlaps = k.1;
      floors = l.1;
      registry_heap = m.1;
      config_heap = n.1;
    } in
    subst (Facts body) (ok_inj _ p n.2) facts
