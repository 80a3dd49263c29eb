-- ===== src/Ir/Slots/Records.antt =====
-- The records that the policy slots of a checked stage table name (crates/kwokka-ir/src/conductor/check.rs).
use kwokka.Base.{
  ℕ, zero, suc, ◌+◌, ◌*◌, ◌/◌, ◌%◌, ◌<◌, ◌≡◌, ◌≢◌, ◌⊎◌, inl, inr, refl, sym, ap, ◌∙◌, Option, some,
  List, length, arith, checked_add, checked_mul,
}
use native.Mathlib.Decide.{dec_lt}
use kwokka.Ir.Fault.{out_of_bounds, ok, ok_or, >>=-eq-ok, ok_or-eq-ok}
use kwokka.Ir.Bytes.{get_range, read_u32}
use kwokka.Ir.Bytes.Ranges.{checked_add-some, get_range-some}
use kwokka.Ir.Node.{RecordView, read_record, record_header_len}
use kwokka.Ir.Policy.{PolicyKind, limiter, timeout, retry, breaker, policy_count, slot_field}
use kwokka.Ir.Tables.{Span, stage_entry_len}
use kwokka.Ir.Tables.Apart.{Apart}
use kwokka.Ir.Slots.{
  kind_at, record_span_at, nth_record_span, record_overlaps_from, check_record_overlaps,
}
use kwokka.Ir.Slots.Laws.{record_span-some, mul-some, outer_rest, check_record_overlaps-Apart}

-- The slot of a kind in the entry of a stage names a record, and the span is that of the whole
-- record, its header and its body.
abbrev pub HasRecord : List ℕ → List ℕ → ℕ → PolicyKind → Span → Type 0
HasRecord body stage_table ordinal kind span =
    (entry : List ℕ) × (view : RecordView) × (get_range stage_table (ordinal * stage_entry_len)
        (ordinal * stage_entry_len + stage_entry_len)
      ≡ some entry)
    × (read_u32 entry (slot_field kind) ≡ ok span.offset)
    × (span.offset ≢ 0)
    × (read_record body span.offset ≡ ok view)
    × (span.len ≡ record_header_len + length view.body)

kind_number : PolicyKind → ℕ
kind_number limiter = 0
kind_number timeout = 1
kind_number retry = 2
kind_number breaker = 3

kind_at-number : (k : PolicyKind) → (kind_at (kind_number k) ≡ k) × (kind_number k < 4)
unfolding kind_number
kind_at-number limiter = (refl, omega arith)
kind_at-number timeout = (refl, omega arith)
kind_at-number retry = (refl, omega arith)
kind_at-number breaker = (refl, omega arith)

-- The number of a stage's slot in the order of the loops.
slot_number : ℕ → PolicyKind → ℕ
slot_number a k = a * 4 + kind_number k

slot_number-distinct :
    (a b : ℕ) (k l : PolicyKind) → (a ≢ b) ⊎ (k ≢ l) → slot_number a k ≢ slot_number b l
unfolding slot_number
slot_number-distinct a b k l (inl ne) e =
    ne (omega (arith, e, (kind_at-number k).1, (kind_at-number l).1))
slot_number-distinct a b k l (inr ne) e =
    let same : kind_number k ≡ kind_number l =
      omega (arith, e, (kind_at-number k).1, (kind_at-number l).1) in
    ne (sym (kind_at-number k).0 ∙ ap kind_at same ∙ (kind_at-number l).0)

view_same : (v w : RecordView) → ok v ≡ ok w → v ≡ w
view_same v w e = cc

some_same : (v w : List ℕ) → some v ≡ some w → v ≡ w
some_same v w e = cc

-- The loops see the record of a slot under its number.
nth_record_span-HasRecord :
    (body table : List ℕ) (n a : ℕ) (k : PolicyKind) (span : Span) (o : Option Span)
    → n / policy_count ≡ a
    → kind_at (n % policy_count) ≡ k
    → HasRecord body table a k span
    → nth_record_span body table n ≡ ok o
    → o ≡ some span
unfolding nth_record_span
nth_record_span-HasRecord body table n a k span o stage kind
      (entry, view, at, named, nz, read, whole) h =
    let b = >>=-eq-ok (ok_or (checked_mul (n / policy_count) stage_entry_len) out_of_bounds) _ h in
    let c = >>=-eq-ok (ok_or (checked_add b.0 stage_entry_len) out_of_bounds) _ b.2 in
    let d = >>=-eq-ok (ok_or (get_range table b.0 c.0) out_of_bounds) _ c.2 in
    let from : b.0 ≡ a * stage_entry_len =
      product (n / policy_count) a b.0 stage (ok_or-eq-ok _ _ b.1) in
    let to : c.0 ≡ a * stage_entry_len + stage_entry_len =
      omega (arith, checked_add-some b.0 stage_entry_len (ok_or-eq-ok _ _ c.1), from) in
    let sliced : get_range table (a * stage_entry_len) (a * stage_entry_len + stage_entry_len)
        ≡ some d.0 =
      ap (λ x. get_range table x (a * stage_entry_len + stage_entry_len)) (sym from)
      ∙ ap (get_range table b.0) (sym to)
      ∙ ok_or-eq-ok (get_range table b.0 c.0) _ d.1 in
    let same : d.0 ≡ entry = some_same d.0 entry (sym sliced ∙ at) in
    let spans : record_span_at body entry k ≡ ok o =
      ap (λ x. record_span_at body x k) (sym same)
      ∙ ap (record_span_at body d.0) (sym kind)
      ∙ d.2 in
    let (seen, found, e) = record_span-some body entry k span.offset named nz o spans in
    let known : seen ≡ view = view_same seen view (sym found ∙ read) in
    e
    ∙ ap (λ x. some (record { offset = span.offset; len = x }))
        (ap (λ (v : RecordView). record_header_len + length v.body) known ∙ sym whole)
  where
    product : (q a m : ℕ) → q ≡ a → checked_mul q stage_entry_len ≡ some m → m ≡ a * stage_entry_len
    product q a m e f = ground (arith, e, f)

record_overlaps_from-reads :
    (rounds : ℕ) (body table : List ℕ) (a i : ℕ)
    → record_overlaps_from rounds body table a ≡ ok tt
    → i < rounds
    → (o : Option Span) × (nth_record_span body table (a + i) ≡ ok o)
unfolding record_overlaps_from
record_overlaps_from-reads zero body table a i h lt = elim lt [ ]
record_overlaps_from-reads (suc rounds) body table a zero h lt =
    let first : a + 0 ≡ a = omega arith in
    let r = >>=-eq-ok (nth_record_span body table a) _ h in
    (r.0, ap (nth_record_span body table) first ∙ r.1)
record_overlaps_from-reads (suc rounds) body table a (suc i) h lt =
    let shift : a + suc i ≡ a + 1 + i = omega arith in
    let r = >>=-eq-ok (nth_record_span body table a) _ h in
    let (o, e) =
      record_overlaps_from-reads rounds body table (a + 1) i
        (outer_rest rounds body table a r.0 r.2) (omega arith) in
    (o, ap (nth_record_span body table) shift ∙ e)

check_record_overlaps-reads :
    (body table : List ℕ) (n : ℕ)
    → check_record_overlaps body table ≡ ok tt
    → n < length table / stage_entry_len * policy_count
    → (o : Option Span) × (nth_record_span body table n ≡ ok o)
unfolding check_record_overlaps
check_record_overlaps-reads body table n h lt =
    let total = length table / stage_entry_len in
    let a = >>=-eq-ok (ok_or (checked_mul total policy_count) out_of_bounds) _ h in
    let prod : a.0 ≡ total * policy_count = mul-some total policy_count (ok_or-eq-ok _ _ a.1) in
    let first : 0 + n ≡ n = omega arith in
    let (o, e) = record_overlaps_from-reads a.0 body table 0 n a.2 (omega arith) in
    (o, ap (nth_record_span body table) (sym first) ∙ e)

module _ (body table : List ℕ) (checked : check_record_overlaps body table ≡ ok tt) where
  slot_number-lt :
      (a : ℕ) (k : PolicyKind) (s : Span)
      → HasRecord body table a k s
      → slot_number a k < length table / stage_entry_len * policy_count
  unfolding slot_number
  slot_number-lt a k s (entry, view, at, named, nz, read, whole) = omega (
    arith,
    get_range-some table (a * stage_entry_len) (a * stage_entry_len + stage_entry_len) at,
    (kind_at-number k).1,
  )

  slot_span :
      (a : ℕ) (k : PolicyKind) (s : Span)
      → HasRecord body table a k s
      → nth_record_span body table (slot_number a k) ≡ ok (some s)
  unfolding slot_number
  slot_span a k s has =
      let n = slot_number a k in
      let (o, e) = check_record_overlaps-reads body table n checked (slot_number-lt a k s has) in
      let below = (kind_at-number k).1 in
      let number : n % policy_count ≡ kind_number k = omega (arith, below) in
      e
      ∙ ap ok (
          nth_record_span-HasRecord body table n a k s o (omega (arith, below))
            (ap kind_at number ∙ (kind_at-number k).0) has e)

  -- The records of two different slots share no byte.
  pub records-Apart :
      (a b : ℕ) (k l : PolicyKind) (s t : Span)
      → (a ≢ b) ⊎ (k ≢ l)
      → HasRecord body table a k s
      → HasRecord body table b l t
      → Apart s t
  records-Apart a b k l s t other first second =
      let i = slot_number a k in
      let j = slot_number b l in
      let ne = slot_number-distinct a b k l other in
      elim (dec_lt i j) [
        | yes lt ↦
            check_record_overlaps-Apart body table i j s t checked lt (slot_number-lt b l t second)
              (slot_span a k s first) (slot_span b l t second)
        | no ge ↦ λ byte in_s in_t.
            check_record_overlaps-Apart body table j i t s checked (omega (arith, ge, ne))
              (slot_number-lt a k s first) (slot_span b l t second) (slot_span a k s first) byte
              in_t in_s
      ]
