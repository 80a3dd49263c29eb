-- ===== src/Ir/Slots/Laws.antt =====
-- The policy slots of a checked stage table (crates/kwokka-ir/src/conductor/check.rs): their
-- records are readable, carry their kind's tag and body, and share no byte.
use kwokka.Base.{
  ℕ, zero, suc, ◌+◌, ◌*◌, ◌/◌, ◌<◌, ◌≡◌, ◌≢◌, true, false, not, ◌==◌, ltb, if◌then◌else◌, Option,
  none, some, List, length, arith, checked_add, checked_mul, Bool-cases, inl, inr,
}
use mathlib.Core.Path.{subst}
use kwokka.Ir.Fault.{
  out_of_bounds, bad_tag, ok, err, ◌>>◌, ok_or, require, >>=-eq-ok, ok_or-eq-ok, require-eq-ok,
}
use kwokka.Ir.Bytes.{read_u32}
use kwokka.Ir.Bytes.Ranges.{checked_add-some}
use kwokka.Ir.Node.{RecordView, read_record, same_tag, to_u16, record_header_len}
use kwokka.Ir.Policy.{PolicyKind, policy_count, node_tag, slot_field, validate_body}
use kwokka.Ir.Tables.{Span, overlaps_any, ranges_overlap, conductor_header_len, stage_entry_len}
use kwokka.Ir.Tables.Apart.{Apart, ApartFromAll, overlaps_any-Apart, ranges_overlap-Apart}
use kwokka.Ir.Slots.{
  record_span_at, check_policy_slot, nth_record_span, no_overlap_from, record_overlaps_from,
  check_record_overlaps,
}

-- A slot that names a record: the record is there, has the kind's tag and a body of the kind, and
-- lies apart from the sections.
pub record SlotOk (body : List ℕ) (sections : List Span) (kind : PolicyKind) (offset : ℕ)
    : Type 0 where
  pub view : RecordView
  pub readable : read_record body offset ≡ ok view
  pub tagged : same_tag view.tag (node_tag kind) ≡ true
  pub valid : validate_body kind view.body ≡ ok tt
  pub apart :
      ApartFromAll (record { offset = offset; len = record_header_len + length view.body }) sections

pub record_span-some :
    (body entry : List ℕ) (kind : PolicyKind) (offset : ℕ)
    → read_u32 entry (slot_field kind) ≡ ok offset
    → offset ≢ 0
    → (o : Option Span) → record_span_at body entry kind ≡ ok o
    → (view : RecordView) × (read_record body offset ≡ ok view)
      × (o ≡ some (record { offset = offset; len = record_header_len + length view.body }))
unfolding record_span_at
record_span-some body entry kind offset r nz o h =
    let zero : (offset == 0) ≡ false = ground (arith, nz) in
    let h₁ = rw (r, zero) at h in
    let b = >>=-eq-ok (require (not (ltb offset conductor_header_len)) out_of_bounds) _ h₁ in
    let c = >>=-eq-ok (read_record body offset) _ b.2 in
    let d =
      >>=-eq-ok (ok_or (checked_add record_header_len (length c.0.body)) out_of_bounds) _ c.2 in
    let sum = checked_add-some record_header_len (length c.0.body) (ok_or-eq-ok _ _ d.1) in
    (c.0, c.1, cc (d.2, sum.0))

pub check_policy_slot-SlotOk :
    (body : List ℕ) (sections : List Span) (entry : List ℕ) (kind : PolicyKind) (offset : ℕ)
    → check_policy_slot body sections entry kind ≡ ok tt
    → read_u32 entry (slot_field kind) ≡ ok offset
    → offset ≢ 0
    → SlotOk body sections kind offset
unfolding check_policy_slot
check_policy_slot-SlotOk body sections entry kind offset h r nz =
    let a = >>=-eq-ok (record_span_at body entry kind) _ h in
    let s = record_span-some body entry kind offset r nz a.0 a.1 in
    let span : Span = record { offset = offset; len = record_header_len + length s.0.body } in
    let h₁ = rw s.2 at a.2 in
    let b = >>=-eq-ok (read_record body offset) _ h₁ in
    let c =
      >>=-eq-ok (require (same_tag b.0.tag (node_tag kind)) (bad_tag (to_u16 b.0.tag))) _ b.2 in
    let d = >>=-eq-ok (validate_body kind b.0.body) _ c.2 in
    let same : b.0 ≡ s.0 = cc (s.1, b.1) in
    let off : overlaps_any span sections ≡ false = ground (arith, require-eq-ok _ _ d.2) in
    record {
      view = s.0;
      readable = s.1;
      tagged = subst (λ v. same_tag v.tag (node_tag kind) ≡ true) same (require-eq-ok _ _ c.1);
      valid = subst (λ v. validate_body kind v.body ≡ ok tt) same d.1;
      apart = overlaps_any-Apart span sections off;
    }

slot_inj : (a b : Span) → ok (some a) ≡ ok (some b) → a ≡ b
slot_inj a b e = cc

no_overlap_from-Apart :
    (rounds : ℕ) (body table : List ℕ) (a : Span) (b j : ℕ) (s : Span)
    → no_overlap_from rounds body table a b ≡ ok tt
    → j < rounds
    → nth_record_span body table (b + j) ≡ ok (some s)
    → Apart a s
unfolding no_overlap_from
no_overlap_from-Apart zero body table a b j s h lt e = elim lt [ ]
no_overlap_from-Apart (suc rounds) body table a b zero s h lt e =
    let first : b + 0 ≡ b = omega arith in
    let h₁ = rw (rw first at e) at h in
    elim (Bool-cases (ranges_overlap a s)) [
      | inl t ↦ cc (rw t at h₁)
      | inr t ↦ ranges_overlap-Apart a s t
    ]
no_overlap_from-Apart (suc rounds) body table a b (suc j) s h lt e =
    let shift : b + suc j ≡ b + 1 + j = omega arith in
    let r = >>=-eq-ok (nth_record_span body table b) _ h in
    no_overlap_from-Apart rounds body table a (b + 1) j s (skip r.0 r.2) (omega arith)
      (rw shift at e)
  where
    skip :
        (o : Option Span)
        → (elim o [
          | none ↦ no_overlap_from rounds body table a (b + 1)
          | some span_b ↦
              let rest = no_overlap_from rounds body table a (b + 1) in
              if ranges_overlap a span_b then err out_of_bounds else rest
        ])
          ≡ ok tt
        → no_overlap_from rounds body table a (b + 1) ≡ ok tt
    skip none q = q
    skip (some s') q = elim (Bool-cases (ranges_overlap a s')) [
      | inl t ↦ cc (rw t at q)
      | inr t ↦ rw t at q
    ]

-- A round of the outer loop that succeeds goes on.
pub outer_rest :
    (rounds : ℕ) (body table : List ℕ) (a : ℕ) (o : Option Span)
    → (elim o [
      | none ↦ record_overlaps_from rounds body table (a + 1)
      | some span_a ↦
          no_overlap_from rounds body table span_a (a + 1)
          >> record_overlaps_from rounds body table (a + 1)
    ])
      ≡ ok tt
    → record_overlaps_from rounds body table (a + 1) ≡ ok tt
outer_rest rounds body table a none q = q
outer_rest rounds body table a (some s) q =
    (>>=-eq-ok (no_overlap_from rounds body table s (a + 1))
      (λ _. record_overlaps_from rounds body table (a + 1)) q).2

record_overlaps_from-Apart :
    (rounds : ℕ) (body table : List ℕ) (a i j : ℕ) (s t : Span)
    → record_overlaps_from rounds body table a ≡ ok tt
    → i < j
    → j < rounds
    → nth_record_span body table (a + i) ≡ ok (some s)
    → nth_record_span body table (a + j) ≡ ok (some t)
    → Apart s t
unfolding record_overlaps_from
record_overlaps_from-Apart zero body table a i j s t h lt lt' e f = elim lt' [ ]
record_overlaps_from-Apart (suc rounds) body table a i zero s t h lt lt' e f = elim lt [ ]
record_overlaps_from-Apart (suc rounds) body table a zero (suc j) s t h lt lt' e f =
    let first : a + 0 ≡ a = omega arith in
    let h₁ = rw (rw first at e) at h in
    let r = >>=-eq-ok (no_overlap_from rounds body table s (a + 1)) _ h₁ in
    let shift : a + suc j ≡ a + 1 + j = omega arith in
    no_overlap_from-Apart rounds body table s (a + 1) j t r.1 (omega arith) (rw shift at f)
record_overlaps_from-Apart (suc rounds) body table a (suc i) (suc j) s t h lt lt' e f =
    let shift_i : a + suc i ≡ a + 1 + i = omega arith in
    let shift_j : a + suc j ≡ a + 1 + j = omega arith in
    let r = >>=-eq-ok (nth_record_span body table a) _ h in
    record_overlaps_from-Apart rounds body table (a + 1) i j s t
      (outer_rest rounds body table a r.0 r.2) (omega arith) (omega arith) (rw shift_i at e)
      (rw shift_j at f)

pub mul-some : (a b : ℕ) {c : ℕ} → checked_mul a b ≡ some c → c ≡ a * b
mul-some a b e = ground arith

-- The records of two different slots share no byte.
pub check_record_overlaps-Apart :
    (body table : List ℕ) (i j : ℕ) (s t : Span)
    → check_record_overlaps body table ≡ ok tt
    → i < j
    → j < length table / stage_entry_len * policy_count
    → nth_record_span body table i ≡ ok (some s)
    → nth_record_span body table j ≡ ok (some t)
    → Apart s t
unfolding check_record_overlaps
check_record_overlaps-Apart body table i j s t h lt lt' e f =
    let total = length table / stage_entry_len in
    let a = >>=-eq-ok (ok_or (checked_mul total policy_count) out_of_bounds) _ h in
    let prod : a.0 ≡ total * policy_count = mul-some total policy_count (ok_or-eq-ok _ _ a.1) in
    let zero_i : i ≡ 0 + i = omega arith in
    let zero_j : j ≡ 0 + j = omega arith in
    record_overlaps_from-Apart a.0 body table 0 i j s t a.2 lt (omega arith) (rw zero_i at e)
      (rw zero_j at f)
