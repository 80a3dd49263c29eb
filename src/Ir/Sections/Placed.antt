-- ===== src/Ir/Sections/Placed.antt =====
-- Where the registry and the config section of a body lie (crates/kwokka-ir/src/conductor/check.rs).
use kwokka.Base.{
  ℕ, ◌+◌, ◌≡◌, sym, ap, ◌∙◌, not, ◌==◌, ltb, Option, none, some, List, length, arith, checked_add,
  checked_mul, Bool-cases, inl, inr, ==_iff,
}
use mathlib.Core.Path.{subst}
use kwokka.Ir.Fault.{out_of_bounds, ok, ok_or, require, >>=-eq-ok, ok_or-eq-ok}
use kwokka.Ir.Bytes.{get_range, read_u32}
use kwokka.Ir.Bytes.Ranges.{checked_add-some, get_range-some}
use kwokka.Ir.Registry.{name_entry_len, sorted_entry_len}
use kwokka.Ir.Config.{config_binding_len}
use kwokka.Ir.Tables.{
  registry_table_offset_field, config_table_offset_field, conductor_header_len, config_header_len,
  slice_table,
}
use kwokka.Ir.Sections.{
  ParsedRegistry, ParsedConfig, parse_registry, parse_config, check_registry_names,
  check_sorted_ordinals, check_config_entries,
}
use kwokka.Ir.Check.Facts.{slice_table-TableOk}

-- The spans of a registry hold its name table, at the offset that the header names, and its sorted
-- index; without a registry the header names none.
abbrev pub RegistryPlaced : List ℕ → Option ParsedRegistry → Type 0
RegistryPlaced body none = read_u32 body registry_table_offset_field ≡ ok 0
RegistryPlaced body (some r) =
    (read_u32 body registry_table_offset_field ≡ ok r.name_span.offset)
    × (get_range body r.name_span.offset (r.name_span.offset + r.name_span.len)
        ≡ some r.view.name_table)
    × (get_range body r.sorted_span.offset (r.sorted_span.offset + r.sorted_span.len)
        ≡ some r.view.sorted_index)

-- The span of a config section starts at the offset that the header names, with the count of its
-- entries, and ends with the entries.
abbrev pub ConfigPlaced : List ℕ → Option ParsedConfig → Type 0
ConfigPlaced body none = read_u32 body config_table_offset_field ≡ ok 0
ConfigPlaced body (some c) =
    (read_u32 body config_table_offset_field ≡ ok c.section_span.offset)
    × (read_u32 body c.section_span.offset ≡ ok c.count)
    × (get_range body (c.section_span.offset + config_header_len)
          (c.section_span.offset + c.section_span.len)
        ≡ some c.entries)

ok-same : {B : Type 0} (x y : B) → ok x ≡ ok y → x ≡ y
ok-same x y e = cc

-- A slice up to a checked sum ends where its length says.
sum-end :
    (from len to : ℕ) (body slice : List ℕ)
    → checked_add from len ≡ some to
    → get_range body from to ≡ some slice
    → to ≡ from + length slice
sum-end from len to body slice sum at =
    omega (arith, checked_add-some from len sum, get_range-some body from to at)

-- The entries of a section follow its header.
entries-range :
    (section start len to section_len : ℕ) (body slice : List ℕ)
    → checked_add section config_header_len ≡ some start
    → checked_add start len ≡ some to
    → checked_add config_header_len len ≡ some section_len
    → get_range body start to ≡ some slice
    → get_range body (section + config_header_len) (section + section_len) ≡ some slice
entries-range section start len to section_len body slice first last whole at =
    let a = checked_add-some section config_header_len first in
    let b = checked_add-some start len last in
    let c = checked_add-some config_header_len len whole in
    let from : section + config_header_len ≡ start = omega (arith, a) in
    let up_to : section + section_len ≡ to = omega (arith, a, b, c) in
    ap (λ n. get_range body n (section + section_len)) from ∙ ap (get_range body start) up_to ∙ at

pub parse_registry-Placed :
    (body : List ℕ) (stage_count : ℕ) (o : Option ParsedRegistry)
    → parse_registry body stage_count ≡ ok o
    → RegistryPlaced body o
unfolding parse_registry
parse_registry-Placed body stage_count o h =
    let a = >>=-eq-ok (read_u32 body registry_table_offset_field) _ h in
    elim (Bool-cases (a.0 == 0)) [
      | inl z ↦
          let e : a.0 ≡ 0 = (==_iff a.0 0).0 z in
          subst (RegistryPlaced body) (ok-same none o (rw z at a.2)) (a.1 ∙ ap ok e)
      | inr z ↦
          let rest = rw z at a.2 in
          let b =
            >>=-eq-ok (slice_table body registry_table_offset_field stage_count name_entry_len) _
              rest in
          let c = >>=-eq-ok (ok_or (checked_add b.0.0 (length b.0.1)) out_of_bounds) _ b.2 in
          let d =
            >>=-eq-ok (ok_or (checked_mul stage_count sorted_entry_len) out_of_bounds) _ c.2 in
          let e = >>=-eq-ok (ok_or (checked_add c.0 d.0) out_of_bounds) _ d.2 in
          let f = >>=-eq-ok (ok_or (get_range body c.0 e.0) out_of_bounds) _ e.2 in
          let r : ParsedRegistry = record {
            view = record {
              body = body;
              name_table = b.0.1;
              sorted_index = f.0;
              count = stage_count;
            };
            name_table = b.0.1;
            name_span = record { offset = b.0.0; len = length b.0.1 };
            sorted_span = record { offset = c.0; len = length f.0 };
          } in
          let g = >>=-eq-ok (check_registry_names r.view stage_count) _ f.2 in
          let i = >>=-eq-ok (check_sorted_ordinals f.0 stage_count) _ g.2 in
          let names = slice_table-TableOk body _ stage_count name_entry_len b.0.0 b.0.1 b.1 in
          let slice = ok_or-eq-ok (get_range body c.0 e.0) _ f.1 in
          let end = sum-end c.0 d.0 e.0 body f.0 (ok_or-eq-ok _ _ e.1) slice in
          let placed : RegistryPlaced body (some r) = (
            names.named,
            ap (λ n. get_range body b.0.0 (b.0.0 + n)) names.whole ∙ names.sliced,
            ap (get_range body c.0) (sym end) ∙ slice,
          ) in
          subst (RegistryPlaced body) (ok-same (some r) o i.2) placed
    ]

pub parse_config-Placed :
    (body : List ℕ) (stage_count : ℕ) (o : Option ParsedConfig)
    → parse_config body stage_count ≡ ok o
    → ConfigPlaced body o
unfolding parse_config
parse_config-Placed body stage_count o h =
    let a = >>=-eq-ok (read_u32 body config_table_offset_field) _ h in
    elim (Bool-cases (a.0 == 0)) [
      | inl z ↦
          let e : a.0 ≡ 0 = (==_iff a.0 0).0 z in
          subst (ConfigPlaced body) (ok-same none o (rw z at a.2)) (a.1 ∙ ap ok e)
      | inr z ↦
          let b =
            >>=-eq-ok (require (not (ltb a.0 conductor_header_len)) out_of_bounds) _
              (rw z at a.2) in
          let c = >>=-eq-ok (read_u32 body a.0) _ b.2 in
          let d = >>=-eq-ok (ok_or (checked_add a.0 config_header_len) out_of_bounds) _ c.2 in
          let e = >>=-eq-ok (ok_or (checked_mul c.0 config_binding_len) out_of_bounds) _ d.2 in
          let f = >>=-eq-ok (ok_or (checked_add d.0 e.0) out_of_bounds) _ e.2 in
          let g = >>=-eq-ok (ok_or (get_range body d.0 f.0) out_of_bounds) _ f.2 in
          let i = >>=-eq-ok (check_config_entries body g.0 stage_count) _ g.2 in
          let j = >>=-eq-ok (ok_or (checked_add config_header_len e.0) out_of_bounds) _ i.2 in
          let k : ParsedConfig = record {
            count = c.0;
            entries = g.0;
            section_span = record { offset = a.0; len = j.0 };
          } in
          let placed : ConfigPlaced body (some k) = (
            a.1,
            c.1,
            entries-range a.0 d.0 e.0 f.0 j.0 body g.0 (ok_or-eq-ok _ _ d.1) (ok_or-eq-ok _ _ f.1)
                (ok_or-eq-ok _ _ j.1) (ok_or-eq-ok (get_range body d.0 f.0) _ g.1),
          ) in
          subst (ConfigPlaced body) (ok-same (some k) o j.2) placed
    ]
