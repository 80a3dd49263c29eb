-- ===== src/Ir/View.antt =====
-- crates/kwokka-ir/src/conductor/spec.rs and stage.rs: the accessors of a checked conductor body.
pub mod Total
pub mod Checked
pub mod Found
use kwokka.Base.{
  ℕ, zero, suc, ◌+◌, ◌==◌, leb, if◌then◌else◌, Option, none, some, List, [], ◌∷◌, checked_add,
  checked_mul,
}
use kwokka.Base.Maybe.{◌>>=◌}
use kwokka.Ir.Fault.{Result, ok, err}
use kwokka.Ir.Bytes.{get_range, read_u32}
use kwokka.Ir.Node.{RecordView, read_record, same_tag}
use kwokka.Ir.Policy.{
  LimiterView, TimeoutView, RetryView, BreakerView, PolicyKind, limiter, timeout, retry, breaker,
  node_tag, slot_field, parse_limiter, parse_timeout, parse_retry, parse_breaker,
}
use kwokka.Ir.Registry.{RegistryView}
use kwokka.Ir.Config.{ConfigBindingView, parse_binding, config_binding_len}
use kwokka.Ir.Tables.{EdgeView, parse_edge, edge_len, stage_entry_len}
use kwokka.Ir.Check.{Parsed, parse}

pub record ConductorView : Type 0 where
  pub body : List ℕ
  pub stage_count : ℕ
  pub edge_count : ℕ
  pub stage_table : List ℕ
  pub edge_table : List ℕ
  pub registry : Option RegistryView
  pub config_count : ℕ
  pub config_entries : List ℕ

-- The view that `ConductorView::parse` makes of a parsed body.
abbrev pub view_of : Parsed → ConductorView
view_of p = record {
  body = p.body;
  stage_count = p.stage_count;
  edge_count = p.edge_count;
  stage_table = p.stage_table;
  edge_table = p.edge_table;
  registry = p.registry;
  config_count = p.config_count;
  config_entries = p.config_entries;
}

-- `ConductorView::parse`.
unfoldable pub parse_view : List ℕ → Result ConductorView
parse_view body = elim (parse body) [ ok checked ↦ ok (view_of checked) | err e ↦ err e ]

pub record StageView : Type 0 where
  pub body : List ℕ
  pub entry : List ℕ

-- `ConductorView::stage`.
unfoldable pub stage : ConductorView → ℕ → Option StageView
stage v ordinal = if leb v.stage_count ordinal then none else do
  offset ← checked_mul ordinal stage_entry_len
  end ← checked_add offset stage_entry_len
  entry ← get_range v.stage_table offset end
  some (record { body = v.body; entry = entry })

-- `ConductorView::edge`.
unfoldable pub edge : ConductorView → ℕ → Option EdgeView
edge v index = do
  offset ← checked_mul index edge_len
  end ← checked_add offset edge_len
  entry ← get_range v.edge_table offset end
  parse_edge entry

-- `edges`, `(0..edge_count).filter_map`, from `index` with `rounds` indices to go.
pub edges_from : ℕ → ConductorView → ℕ → List EdgeView
edges_from zero v index = []
edges_from (suc rounds) v index =
    let rest = edges_from rounds v (index + 1) in
    elim (edge v index) [ none ↦ rest | some e ↦ e ∷ rest ]

-- `ConductorView::edges`.
unfoldable pub edges : ConductorView → List EdgeView
edges v = edges_from v.edge_count v 0

-- `Result::ok`.
abbrev pub to_option {ℓ} : {A : Type ℓ} → Result A → Option A
to_option (ok a) = some a
to_option (err e) = none

-- `ConductorView::config_binding`.
unfoldable pub config_binding : ConductorView → ℕ → Option ConfigBindingView
config_binding v index = do
  offset ← checked_mul index config_binding_len
  end ← checked_add offset config_binding_len
  entry ← get_range v.config_entries offset end
  to_option (parse_binding v.body entry)

-- `config_bindings`, from `index` with `rounds` indices to go.
pub config_bindings_from : ℕ → ConductorView → ℕ → List ConfigBindingView
config_bindings_from zero v index = []
config_bindings_from (suc rounds) v index =
    let rest = config_bindings_from rounds v (index + 1) in
    elim (config_binding v index) [ none ↦ rest | some b ↦ b ∷ rest ]

-- `ConductorView::config_bindings`.
unfoldable pub config_bindings : ConductorView → List ConfigBindingView
config_bindings v = config_bindings_from v.config_count v 0

-- `.filter(|record| record.tag == tag).map(|record| record.body)`.
abbrev pub body_with_tag : PolicyKind → Option RecordView → Option (List ℕ)
body_with_tag kind none = none
body_with_tag kind (some r) = if same_tag r.tag (node_tag kind) then some r.body else none

-- `StageView::policy_body`.
unfoldable pub policy_body : StageView → PolicyKind → Option (List ℕ)
policy_body s kind = do
  slot_offset ← to_option (read_u32 s.entry (slot_field kind))
  if slot_offset == 0 then none else body_with_tag kind (to_option (read_record s.body slot_offset))

-- `StageView::limiter`, `timeout`, `retry` and `breaker`.
unfoldable pub stage_limiter : StageView → Option LimiterView
stage_limiter s = policy_body s limiter >>= λ body. to_option (parse_limiter body)

unfoldable pub stage_timeout : StageView → Option TimeoutView
stage_timeout s = policy_body s timeout >>= λ body. to_option (parse_timeout body)

unfoldable pub stage_retry : StageView → Option RetryView
stage_retry s = policy_body s retry >>= λ body. to_option (parse_retry body)

unfoldable pub stage_breaker : StageView → Option BreakerView
stage_breaker s = policy_body s breaker >>= λ body. to_option (parse_breaker body)
