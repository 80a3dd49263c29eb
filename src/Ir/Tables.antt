-- ===== src/Ir/Tables.antt =====
-- crates/kwokka-ir/src/conductor/check.rs: tables, spans and the entry loop. Every offset and count is a
-- `u32` and every product one of a `u32` by a small constant, so no sum here reaches the width of
-- `usize`; the source's checked sums are kept.
pub mod Loop
pub mod Apart
use kwokka.Base.{
  ℕ, zero, suc, ◌+◌, ◌*◌, Bool, false, not, ◌&&◌, ◌||◌, ◌==◌, leb, ltb, if◌then◌else◌, Option, none,
  some, List, [], ◌∷◌, length, take, drop, checked_add, checked_mul,
}
use kwokka.Ir.Fault.{out_of_bounds, ordinal_out_of_range, Result, ok, ◌>>=◌, ◌>>◌, require, ok_or}
use kwokka.Ir.Bytes.{get_range, from_le_bytes, read_u32}
use kwokka.Ir.Policy.{policy_count}

-- The header fields of crates/kwokka-ir/src/conductor/spec.rs.
abbrev pub stage_count_field : ℕ
stage_count_field = 0

abbrev pub edge_count_field : ℕ
edge_count_field = 4

abbrev pub stage_table_offset_field : ℕ
stage_table_offset_field = 8

abbrev pub edge_table_offset_field : ℕ
edge_table_offset_field = 12

abbrev pub registry_table_offset_field : ℕ
registry_table_offset_field = 16

abbrev pub config_table_offset_field : ℕ
config_table_offset_field = 20

abbrev pub conductor_header_len : ℕ
conductor_header_len = 24

abbrev pub stage_entry_len : ℕ
stage_entry_len = policy_count * 4

abbrev pub config_header_len : ℕ
config_header_len = 8

-- crates/kwokka-ir/src/conductor/edge.rs.
pub record EdgeView : Type 0 where
  pub from_ordinal : ℕ
  pub to_ordinal : ℕ
  pub input_index : ℕ

abbrev pub edge_len : ℕ
edge_len = 8

-- `EdgeView::parse`: the eight bytes of an entry, the last two unread.
unfoldable pub parse_edge : List ℕ → Option EdgeView
parse_edge bytes =
    if length bytes == edge_len
    then some (record {
      from_ordinal = from_le_bytes (take 2 bytes);
      to_ordinal = from_le_bytes (take 2 (drop 2 bytes));
      input_index = from_le_bytes (take 2 (drop 4 bytes));
    })
    else none

pub record Span : Type 0 where
  pub offset : ℕ
  pub len : ℕ

unfoldable pub ranges_overlap : Span → Span → Bool
ranges_overlap left right =
    ltb left.offset (right.offset + right.len) && ltb right.offset (left.offset + left.len)

unfoldable pub overlaps_any : Span → List Span → Bool
overlaps_any span [] = false
overlaps_any span (s ∷ sections) = ranges_overlap span s || overlaps_any span sections

unfoldable pub slice_table : List ℕ → ℕ → ℕ → ℕ → Result (ℕ × List ℕ)
slice_table body offset_field count entry_len = do
  table_offset ← read_u32 body offset_field
  require (not (ltb table_offset conductor_header_len)) out_of_bounds
  span ← ok_or (checked_mul count entry_len) out_of_bounds
  end ← ok_or (checked_add table_offset span) out_of_bounds
  slice ← ok_or (get_range body table_offset end) out_of_bounds
  ok (table_offset, slice)

-- `while offset < table.len() { check(table.get(offset..offset + len)?)?; offset += len }`. The
-- fuel bounds the bytes that are left, so it never ends the loop.
unfoldable pub each_entry : ℕ → List ℕ → ℕ → ℕ → (List ℕ → Result (Unit {0})) → Result (Unit {0})
each_entry zero table len offset check = ok tt
each_entry (suc fuel) table len offset check =
    let round : Result (Unit {0}) = (do
      end ← ok_or (checked_add offset len) out_of_bounds
      entry ← ok_or (get_range table offset end) out_of_bounds
      check entry
      each_entry fuel table len (offset + len) check) in
    if ltb offset (length table) then round else ok tt

unfoldable pub check_edge_ordinal : ℕ → List ℕ → Result (Unit {0})
check_edge_ordinal stage_count entry = do
  edge ← ok_or (parse_edge entry) out_of_bounds
  require (not (leb stage_count edge.from_ordinal || leb stage_count edge.to_ordinal))
      ordinal_out_of_range

unfoldable pub check_edge_ordinals : List ℕ → ℕ → Result (Unit {0})
check_edge_ordinals edge_table stage_count =
    each_entry (length edge_table) edge_table edge_len 0 (check_edge_ordinal stage_count)
