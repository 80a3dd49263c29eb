-- ===== src/Ir/View/Total.antt =====
-- The accessors of crates/kwokka-ir/src/conductor/spec.rs find every stage, edge and binding that a
-- parsed conductor announces.
use kwokka.Base.{
  ℕ, ◌+◌, ◌*◌, ◌<◌, ◌≤◌, ◌≡◌, inl, inr, sym, not, ◌==◌, ltb, Option, none, some, List, length,
  arith, checked_add, checked_mul, u64_mod, Bool-cases,
}
use mathlib.Core.Path.{subst}
use kwokka.Ir.Fault.{out_of_bounds, ok, ok_or, require, >>=-eq-ok, ok_or-eq-ok, require-eq-ok}
use kwokka.Ir.Bytes.{get_range, read_u32}
use kwokka.Ir.Bytes.Ranges.{checked_add-some, get_range-some, get_range_total}
use kwokka.Ir.Tables.{
  EdgeView, edge_len, parse_edge, stage_entry_len, config_table_offset_field, check_edge_ordinal,
  check_edge_ordinals, config_header_len, conductor_header_len,
}
use kwokka.Ir.Tables.Loop.{each_entry-all}
use kwokka.Ir.Config.{ConfigBindingView, parse_binding, config_binding_len}
use kwokka.Ir.Sections.{ParsedConfig, parse_config, check_config_entries, check_config_entry}
use kwokka.Ir.Check.{Parsed, config_count, config_entries}
use kwokka.Ir.Check.Facts.{Facts, checked_mul-some}
use kwokka.Ir.View.{view_of, stage, edge, config_binding}

-- The `i`-th entry of a table of `count` entries.
pub entry_bound : (i count len : ℕ) → i < count → i * len + len ≤ count * len
entry_bound i count len h = grind arith

record EntryAt (table : List ℕ) (i len : ℕ) : Type 0 where
  entry : List ℕ
  product : checked_mul i len ≡ some (i * len)
  sum : checked_add (i * len) len ≡ some (i * len + len)
  sliced : get_range table (i * len) (i * len + len) ≡ some entry
  whole : length entry ≡ len

entry_total :
    (table : List ℕ) (count i len : ℕ)
    → length table ≡ count * len
    → count * len < u64_mod
    → i < count
    → 0 < len
    → EntryAt table i len
entry_total table count i len e small h pos =
    let bound = entry_bound i count len h in
    let r = get_range_total table (i * len) (i * len + len) (omega arith) (omega (arith, bound)) in
    record {
      entry = r.0;
      product = ground (arith, bound);
      sum = ground (arith, bound);
      sliced = r.1;
      whole = omega (arith, r.2);
    }

pub stage-some :
    (body : List ℕ) (p : Parsed) (ordinal : ℕ)
    → Facts body p
    → ordinal < p.stage_count
    → (entry : List ℕ) × (stage (view_of p) ordinal
        ≡ some (record { body = p.body; entry = entry }))
      × (get_range p.stage_table
            (ordinal * stage_entry_len)
            (ordinal * stage_entry_len + stage_entry_len)
          ≡ some entry)
unfolding stage
stage-some body p ordinal f h =
    let t = f.stages in
    let e =
      entry_total p.stage_table p.stage_count ordinal stage_entry_len t.whole t.small h
        (omega arith) in
    (e.entry, ground (arith, e.product, e.sum, e.sliced), e.sliced)

edge_check :
    (n : ℕ) (entry : List ℕ)
    → check_edge_ordinal n entry ≡ ok tt
    → (e : EdgeView) × (parse_edge entry ≡ some e) × (e.from_ordinal < n) × (e.to_ordinal < n)
unfolding check_edge_ordinal
edge_check n entry h =
    let a = >>=-eq-ok (ok_or (parse_edge entry) out_of_bounds) _ h in
    let t = require-eq-ok _ _ a.2 in (a.0, ok_or-eq-ok _ _ a.1, ground arith, ground arith)

-- An edge index below the count gives an edge, and both its ends are stage ordinals.
pub edge-some :
    (body : List ℕ) (p : Parsed) (index : ℕ)
    → Facts body p
    → index < p.edge_count
    → (e : EdgeView) × (edge (view_of p) index ≡ some e)
      × (e.from_ordinal < p.stage_count)
      × (e.to_ordinal < p.stage_count)
unfolding edge check_edge_ordinals
edge-some body p index f h =
    let t = f.edges in
    let e = entry_total p.edge_table p.edge_count index edge_len t.whole t.small h (omega arith) in
    let bound = entry_bound index p.edge_count edge_len h in
    let visited =
      each_entry-all (length p.edge_table) p.edge_table edge_len 0
        (check_edge_ordinal p.stage_count) (omega arith) (omega arith) f.edge_ordinals index
        (omega (arith, bound, t.whole)) in
    let zero : 0 + index * edge_len ≡ index * edge_len = omega arith in
    let v = rw zero at visited in
    let c = edge_check p.stage_count v.0 v.2 in
    (c.0, ground (arith, e.product, e.sum, v.1, c.1), c.2, c.3)

-- What `parse_config` has established about a section that is there.
record ConfigOk (body : List ℕ) (stage_count : ℕ) (c : ParsedConfig) : Type 0 where
  whole : length c.entries ≡ c.count * config_binding_len
  small : c.count * config_binding_len < u64_mod
  checked : check_config_entries body c.entries stage_count ≡ ok tt

some_inj : (c d : ParsedConfig) → ok (some c) ≡ ok (some d) → c ≡ d
some_inj c d e = cc

parse_config-some :
    (body : List ℕ) (n : ℕ) (c : ParsedConfig)
    → parse_config body n ≡ ok (some c)
    → ConfigOk body n c
unfolding parse_config
parse_config-some body n c h =
    let a = >>=-eq-ok (read_u32 body config_table_offset_field) _ h in
    elim (Bool-cases (a.0 == 0)) [
      | inl z ↦ cc (rw z at a.2)
      | inr z ↦
          let h₁ = rw z at a.2 in
          let b = >>=-eq-ok (require (not (ltb a.0 conductor_header_len)) out_of_bounds) _ h₁ in
          let d = >>=-eq-ok (read_u32 body a.0) _ b.2 in
          let e = >>=-eq-ok (ok_or (checked_add a.0 config_header_len) out_of_bounds) _ d.2 in
          let f = >>=-eq-ok (ok_or (checked_mul d.0 config_binding_len) out_of_bounds) _ e.2 in
          let g = >>=-eq-ok (ok_or (checked_add e.0 f.0) out_of_bounds) _ f.2 in
          let i = >>=-eq-ok (ok_or (get_range body e.0 g.0) out_of_bounds) _ g.2 in
          let j = >>=-eq-ok (check_config_entries body i.0 n) _ i.2 in
          let k = >>=-eq-ok (ok_or (checked_add config_header_len f.0) out_of_bounds) _ j.2 in
          let prod = checked_mul-some d.0 config_binding_len (ok_or-eq-ok _ _ f.1) in
          let sum = checked_add-some e.0 f.0 (ok_or-eq-ok _ _ g.1) in
          let bounds = get_range-some body e.0 g.0 (ok_or-eq-ok _ _ i.1) in
          let good : ConfigOk body n _ = record {
            whole = omega (arith, bounds, sum, prod);
            small = prod.1;
            checked = j.1;
          } in
          subst (ConfigOk body n) (some_inj _ c k.2) good
    ]

config_check :
    (body : List ℕ) (n : ℕ) (entry : List ℕ)
    → check_config_entry body n entry ≡ ok tt
    → (b : ConfigBindingView) × (parse_binding body entry ≡ ok b) × (b.node_ordinal < n)
unfolding check_config_entry
config_check body n entry h =
    let a = >>=-eq-ok (parse_binding body entry) _ h in
    (a.0, a.1, ground (arith, require-eq-ok _ _ a.2))

-- A binding index below the count gives a binding, and its node is a stage ordinal.
pub config_binding-some :
    (body : List ℕ) (p : Parsed) (index : ℕ) (config : Option ParsedConfig)
    → Facts body p
    → parse_config body p.stage_count ≡ ok config
    → p.config_count ≡ config_count config
    → p.config_entries ≡ config_entries config
    → index < p.config_count
    → (b : ConfigBindingView) × (config_binding (view_of p) index ≡ some b)
      × (b.node_ordinal < p.stage_count)
unfolding check_config_entries config_binding
config_binding-some body p index none f parsed count entries h = absurd (omega arith)
config_binding-some body p index (some c) f parsed count entries h =
    let t = parse_config-some body p.stage_count c parsed in
    let below : index < c.count = omega arith in
    let e =
      entry_total c.entries c.count index config_binding_len t.whole t.small below (omega arith) in
    let bound = entry_bound index c.count config_binding_len below in
    let check = check_config_entry body p.stage_count in
    let visited =
      each_entry-all (length c.entries) c.entries config_binding_len 0 check (omega arith)
        (omega arith) t.checked index (omega (arith, bound, t.whole)) in
    let zero : 0 + index * config_binding_len ≡ index * config_binding_len = omega arith in
    let v = rw zero at visited in
    let r = config_check body p.stage_count v.0 v.2 in
    let read = subst (λ bytes. parse_binding bytes v.0 ≡ ok r.0) (sym f.same_body) r.1 in
    (r.0, ground (arith, entries, e.product, e.sum, v.1, read), r.2)
