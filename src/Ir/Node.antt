-- ===== src/Ir/Node.antt =====
-- crates/kwokka-ir/src/node/tag.rs and `read_record` of crates/kwokka-ir/src/flat/reader.rs.
use kwokka.Base.{ℕ, ◌%◌, Bool, not, ◌==◌, ltb, if◌then◌else◌, Option, none, some, List, checked_add}
use kwokka.Ir.Fault.{
  out_of_bounds, misaligned, truncated, bad_tag, Result, ok, ◌>>=◌, ◌>>◌, ok_or, require,
}
use kwokka.Ir.Bytes.{get_range, read_u16, read_u32}

pub data NodeTag : Type 0 where
  conductor_spec stage_node edge policy_retry policy_breaker policy_limiter policy_timeout
        registry_entry config_binding :
      NodeTag

-- `tag as u16`.
abbrev pub to_u16 : NodeTag → ℕ
to_u16 conductor_spec = 1
to_u16 stage_node = 2
to_u16 edge = 3
to_u16 policy_retry = 4
to_u16 policy_breaker = 5
to_u16 policy_limiter = 6
to_u16 policy_timeout = 7
to_u16 registry_entry = 8
to_u16 config_binding = 9

-- `NodeTag::from_u16`.
unfoldable pub from_u16 : ℕ → Option NodeTag
from_u16 value =
    if value == 1
    then some conductor_spec
    else if value == 2
    then some stage_node
    else if value == 3
    then some edge
    else if value == 4
    then some policy_retry
    else if value == 5
    then some policy_breaker
    else if value == 6
    then some policy_limiter
    else if value == 7
    then some policy_timeout
    else if value == 8
    then some registry_entry
    else if value == 9
    then some config_binding
    else none

-- The derived `==` of `NodeTag`.
abbrev pub same_tag : NodeTag → NodeTag → Bool
same_tag a b = to_u16 a == to_u16 b

abbrev pub record_header_len : ℕ
record_header_len = 8

abbrev pub record_align : ℕ
record_align = 8

pub record RecordView : Type 0 where
  pub tag : NodeTag
  pub body : List ℕ

unfoldable pub read_record : List ℕ → ℕ → Result RecordView
read_record bytes offset = do
  require (offset % record_align == 0) misaligned
  tag_raw ← read_u16 bytes offset
  len_offset ← ok_or (checked_add offset 4) truncated
  len ← read_u32 bytes len_offset
  require (not (ltb len record_header_len)) out_of_bounds
  require (len % record_align == 0) misaligned
  end ← ok_or (checked_add offset len) out_of_bounds
  body_start ← ok_or (checked_add offset record_header_len) out_of_bounds
  body ← ok_or (get_range bytes body_start end) out_of_bounds
  tag ← ok_or (from_u16 tag_raw) (bad_tag tag_raw)
  ok (record { tag = tag; body = body })
