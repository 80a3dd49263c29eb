-- ===== src/Ir/Slots.antt =====
-- crates/kwokka-ir/src/conductor/check.rs: the policy slots of the stage table.
pub mod Laws
pub mod Records
use kwokka.Base.{
  ℕ, zero, suc, ◌+◌, ◌/◌, ◌%◌, not, ◌==◌, ltb, if◌then◌else◌, Option, none, some, List, length,
  checked_add, checked_mul,
}
use kwokka.Ir.Fault.{out_of_bounds, bad_tag, Result, ok, err, ◌>>=◌, ◌>>◌, require, ok_or}
use kwokka.Ir.Bytes.{get_range, read_u32}
use kwokka.Ir.Node.{read_record, record_header_len, same_tag, to_u16}
use kwokka.Ir.Policy.{
  PolicyKind, limiter, timeout, retry, breaker, policy_count, node_tag, slot_field, validate_body,
}
use kwokka.Ir.Tables.{
  conductor_header_len, stage_entry_len, Span, ranges_overlap, overlaps_any, each_entry,
}

unfoldable pub record_span_at : List ℕ → List ℕ → PolicyKind → Result (Option Span)
record_span_at body entry kind = do
  slot_offset ← read_u32 entry (slot_field kind)
  if slot_offset == 0 then ok none else do
    require (not (ltb slot_offset conductor_header_len)) out_of_bounds
    view ← read_record body slot_offset
    len ← ok_or (checked_add record_header_len (length view.body)) out_of_bounds
    ok (some (record { offset = slot_offset; len = len }))

unfoldable pub check_policy_slot : List ℕ → List Span → List ℕ → PolicyKind → Result (Unit {0})
check_policy_slot body sections entry kind = do
  record_span ← record_span_at body entry kind
  elim record_span [
    | none ↦ ok tt
    | some span ↦ do
      view ← read_record body span.offset
      require (same_tag view.tag (node_tag kind)) (bad_tag (to_u16 view.tag))
      validate_body kind view.body
      require (not (overlaps_any span sections)) out_of_bounds
  ]

-- `for kind in PolicyKind::ALL`.
unfoldable pub check_stage_entry : List ℕ → List Span → List ℕ → Result (Unit {0})
check_stage_entry body sections entry = do
  check_policy_slot body sections entry limiter
  check_policy_slot body sections entry timeout
  check_policy_slot body sections entry retry
  check_policy_slot body sections entry breaker

unfoldable pub check_stage_policies : List ℕ → List ℕ → List Span → Result (Unit {0})
check_stage_policies body stage_table sections =
    each_entry (length stage_table) stage_table stage_entry_len 0 (check_stage_entry body sections)

-- The `n`-th policy slot of the stage table, in stage order.
abbrev pub kind_at : ℕ → PolicyKind
kind_at zero = limiter
kind_at (suc zero) = timeout
kind_at (suc (suc zero)) = retry
kind_at _ = breaker

unfoldable pub nth_record_span : List ℕ → List ℕ → ℕ → Result (Option Span)
nth_record_span body stage_table n = do
  offset ← ok_or (checked_mul (n / policy_count) stage_entry_len) out_of_bounds
  end ← ok_or (checked_add offset stage_entry_len) out_of_bounds
  entry ← ok_or (get_range stage_table offset end) out_of_bounds
  record_span_at body entry (kind_at (n % policy_count))

-- The inner loop of `check_record_overlaps`, from slot `b` with `rounds` slots to go.
unfoldable pub no_overlap_from : ℕ → List ℕ → List ℕ → Span → ℕ → Result (Unit {0})
no_overlap_from zero body stage_table span_a b = ok tt
no_overlap_from (suc rounds) body stage_table span_a b = do
  record_span ← nth_record_span body stage_table b
  elim record_span [
    | none ↦ no_overlap_from rounds body stage_table span_a (b + 1)
    | some span_b ↦
        let rest = no_overlap_from rounds body stage_table span_a (b + 1) in
        if ranges_overlap span_a span_b then err out_of_bounds else rest
  ]

-- The outer loop, from slot `a` with `rounds` slots to go.
unfoldable pub record_overlaps_from : ℕ → List ℕ → List ℕ → ℕ → Result (Unit {0})
record_overlaps_from zero body stage_table a = ok tt
record_overlaps_from (suc rounds) body stage_table a = do
  record_span ← nth_record_span body stage_table a
  elim record_span [
    | none ↦ record_overlaps_from rounds body stage_table (a + 1)
    | some span_a ↦ do
      no_overlap_from rounds body stage_table span_a (a + 1)
      record_overlaps_from rounds body stage_table (a + 1)
  ]

unfoldable pub check_record_overlaps : List ℕ → List ℕ → Result (Unit {0})
check_record_overlaps body stage_table = do
  total ← ok_or (checked_mul (length stage_table / stage_entry_len) policy_count) out_of_bounds
  record_overlaps_from total body stage_table 0
