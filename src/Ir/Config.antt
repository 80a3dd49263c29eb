-- ===== src/Ir/Config.antt =====
-- crates/kwokka-ir/src/config: scalar values and config bindings.
use kwokka.Base.{ℕ, ◌==◌, List, length, checked_add}
use kwokka.Ir.Fault.{truncated, out_of_bounds, Result, ok, ◌>>=◌, ◌>>◌, require, ok_or}
use kwokka.Ir.Bytes.{get_range, read_u8, read_u16, read_u32, read_u64}

pub record ScalarValue : Type 0 where
  pub kind : ℕ
  pub value : ℕ

abbrev pub scalar_len : ℕ
scalar_len = 16

-- `ScalarValue::parse`.
unfoldable pub parse_scalar : List ℕ → Result ScalarValue
parse_scalar body = do
  require (length body == scalar_len) truncated
  kind ← read_u8 body 0
  value ← read_u64 body 8
  ok (record { kind = kind; value = value })

pub record ConfigBindingView : Type 0 where
  pub node_ordinal : ℕ
  pub field_tag : ℕ
  pub key : List ℕ
  pub default : ScalarValue

abbrev pub config_binding_len : ℕ
config_binding_len = 32

abbrev pub scalar_offset : ℕ
scalar_offset = 16

-- `ConfigBindingView::parse`.
unfoldable pub parse_binding : List ℕ → List ℕ → Result ConfigBindingView
parse_binding body entry = do
  require (length entry == config_binding_len) truncated
  node_ordinal ← read_u16 entry 0
  field_tag ← read_u16 entry 2
  key_len ← read_u32 entry 4
  key_offset ← read_u32 entry 8
  key_end ← ok_or (checked_add key_offset key_len) out_of_bounds
  key ← ok_or (get_range body key_offset key_end) out_of_bounds
  scalar ← ok_or (get_range entry scalar_offset config_binding_len) out_of_bounds
  default ← parse_scalar scalar
  ok (record { node_ordinal = node_ordinal; field_tag = field_tag; key = key; default = default })
