-- ===== src/Ir/Blob/Trust.antt =====
-- A blob that `validate` (crates/kwokka-ir/src/flat/reader.rs) passes can be trusted:
-- `KwokkaIr::conductor` (crates/kwokka-ir/src/node/blob.rs) finds what `validate` checked.
use kwokka.Base.{
  ℕ, ◌+◌, ◌-◌, ◌%◌, ◌≤◌, ◌≡◌, ap, sym, ◌∙◌, true, not, ◌==◌, ltb, leb, some, List, length, arith,
}
use mathlib.Core.Path.{subst, ap₂}
use kwokka.Ir.Fault.{
  truncated, bad_magic, unsupported_version, bad_tag, misaligned, out_of_bounds, ok, require, ok_or,
  >>=-eq-ok, require-eq-ok, ok_or-eq-ok,
}
use kwokka.Base.{checked_add}
use kwokka.Ir.Bytes.{get_range, read_u16, read_u32}
use kwokka.Ir.Bytes.Ranges.{get_range-some, checked_add-some}
use kwokka.Ir.Node.{
  RecordView, read_record, same_tag, to_u16, from_u16, conductor_spec, record_align,
  record_header_len,
}
use kwokka.Ir.View.{ConductorView, parse_view}
use kwokka.Ir.Blob.{
  KwokkaIr, conductor, validate, has_magic, header_len, version, root_offset_field,
}

-- A record that is read starts at a multiple of eight, and its header and body lie within the
-- bytes, behind one another, the body's length being a multiple of eight.
pub read_record-bounds :
    (bytes : List ℕ) (offset : ℕ) (r : RecordView)
    → read_record bytes offset ≡ ok r
    → (offset % 8 ≡ 0)
      × (offset + 8 + length r.body ≤ length bytes)
      × (length r.body % 8 ≡ 0)
      × (get_range bytes (offset + 8) (offset + 8 + length r.body) ≡ some r.body)
unfolding read_record
read_record-bounds bytes offset r h =
    let a = >>=-eq-ok (require (offset % record_align == 0) misaligned) _ h in
    let b = >>=-eq-ok (read_u16 bytes offset) _ a.2 in
    let c = >>=-eq-ok (ok_or (checked_add offset 4) truncated) _ b.2 in
    let d = >>=-eq-ok (read_u32 bytes c.0) _ c.2 in
    let e = >>=-eq-ok (require (not (ltb d.0 record_header_len)) out_of_bounds) _ d.2 in
    let f = >>=-eq-ok (require (d.0 % record_align == 0) misaligned) _ e.2 in
    let g = >>=-eq-ok (ok_or (checked_add offset d.0) out_of_bounds) _ f.2 in
    let i = >>=-eq-ok (ok_or (checked_add offset record_header_len) out_of_bounds) _ g.2 in
    let j = >>=-eq-ok (ok_or (get_range bytes i.0 g.0) out_of_bounds) _ i.2 in
    let k = >>=-eq-ok (ok_or (from_u16 b.0) (bad_tag b.0)) _ j.2 in
    let slice = ok_or-eq-ok (get_range bytes i.0 g.0) _ j.1 in
    let bounds = get_range-some bytes i.0 g.0 slice in
    let end = (checked_add-some offset d.0 (ok_or-eq-ok _ _ g.1)).0 in
    let start = (checked_add-some offset record_header_len (ok_or-eq-ok _ _ i.1)).0 in
    let aligned : offset % 8 ≡ 0 = ground (arith, require-eq-ok _ _ a.1) in
    let long : 8 ≤ d.0 = ground (arith, require-eq-ok _ _ e.1) in
    let whole : d.0 % 8 ≡ 0 = ground (arith, require-eq-ok _ _ f.1) in
    let body : j.0 ≡ r.body = ground (arith, k.2) in
    let len : length r.body ≡ d.0 - 8 = omega (arith, ap length body, bounds, end, start, long) in
    let last : offset + 8 + length r.body ≡ g.0 = omega (arith, len, end, long) in
    (
      aligned,
      omega (arith, len, bounds, end, long),
      omega (arith, len, long, whole),
      ap₂ (get_range bytes) (sym start) last ∙ slice ∙ ap some body,
    )

conductor-eq-ok :
    (ir : KwokkaIr) (root_offset : ℕ) (root : RecordView) (v : ConductorView)
    → read_u32 ir.bytes root_offset_field ≡ ok root_offset
    → read_record ir.bytes root_offset ≡ ok root
    → same_tag root.tag conductor_spec ≡ true
    → parse_view root.body ≡ ok v
    → conductor ir ≡ ok v
unfolding conductor
conductor-eq-ok ir root_offset root v a b c d = rw a (rw b (rw c d))

ir_inj : (a b : KwokkaIr) → ok a ≡ ok b → a ≡ b
ir_inj a b e = cc

-- `validate` keeps the bytes as they are, and whenever it passes a blob, its length field is the
-- blob's length, its version is not above the reader's, and `conductor` on it succeeds.
pub validate-conductor :
    (bytes : List ℕ) (ir : KwokkaIr)
    → validate bytes ≡ ok ir
    → (ir.bytes ≡ bytes)
      × (header_len ≤ length bytes)
      × (read_u32 bytes 8 ≡ ok (length bytes))
      × ((found : ℕ) × (read_u16 bytes 4 ≡ ok found) × (found ≤ version))
      × ((v : ConductorView) × (conductor ir ≡ ok v))
unfolding validate
validate-conductor bytes ir h =
    let a = >>=-eq-ok (require (not (ltb (length bytes) header_len)) truncated) _ h in
    let b = >>=-eq-ok (require (has_magic (get_range bytes 0 4)) bad_magic) _ a.2 in
    let c = >>=-eq-ok (read_u16 bytes 4) _ b.2 in
    let d = >>=-eq-ok (require (leb c.0 version) (unsupported_version c.0)) _ c.2 in
    let e = >>=-eq-ok (read_u32 bytes 8) _ d.2 in
    let f = >>=-eq-ok (require (e.0 == length bytes) truncated) _ e.2 in
    let g = >>=-eq-ok (read_u32 bytes root_offset_field) _ f.2 in
    let i = >>=-eq-ok (read_record bytes g.0) _ g.2 in
    let j =
      >>=-eq-ok (require (same_tag i.0.tag conductor_spec) (bad_tag (to_u16 i.0.tag))) _ i.2 in
    let k = >>=-eq-ok (parse_view i.0.body) _ j.2 in
    let same = ir_inj (record { bytes = bytes }) ir k.2 in
    let total : e.0 ≡ length bytes = ground (arith, require-eq-ok _ _ f.1) in
    (
      sym (ap (λ x. x.bytes) same),
      ground (arith, require-eq-ok _ _ a.1),
      e.1 ∙ ap ok total,
      (c.0, c.1, ground (arith, require-eq-ok _ _ d.1)),
      (
        k.0,
        subst (λ x. conductor x ≡ ok k.0) same
            (conductor-eq-ok (record { bytes = bytes }) g.0 i.0 k.0 g.1 i.1 (require-eq-ok _ _ j.1)
              k.1),
      ),
    )
