-- ===== src/Ir/View/Checked.antt =====
-- What crates/kwokka-ir promises about a conductor body that `parse` accepts, through the accessors
-- of crates/kwokka-ir/src/conductor/spec.rs and stage.rs.
use kwokka.Base.{
  ℕ, ◌+◌, ◌*◌, ◌<◌, ◌≤◌, ◌≡◌, ◌≢◌, refl, ap, sym, ◌∙◌, false, ◌==◌, none, some, List, length, arith,
  inl, inr, ◌⊎◌,
}
use mathlib.Core.Path.{subst}
use native.Mathlib.Decide.{ℕ_discrete}
use kwokka.Ir.Fault.{Result, ok, err, >>=-eq-ok}
use kwokka.Ir.Bytes.{get_range, read_u32}
use kwokka.Ir.Bytes.Ranges.{read_u32_total, get_range-some}
use kwokka.Ir.Policy.{PolicyKind, limiter, timeout, retry, breaker, slot_field, validate_body}
use kwokka.Ir.Config.{ConfigBindingView}
use kwokka.Ir.Tables.{Span, EdgeView, stage_entry_len}
use kwokka.Ir.Tables.Loop.{each_entry-all}
use kwokka.Ir.Slots.{check_policy_slot, check_stage_entry, check_stage_policies}
use kwokka.Ir.Slots.Laws.{SlotOk, check_policy_slot-SlotOk}
use kwokka.Ir.Check.{Parsed, parse}
use kwokka.Ir.Check.Facts.{Facts, parse-Facts}
use kwokka.Ir.View.{
  ConductorView, StageView, parse_view, view_of, stage, edge, config_binding, policy_body,
}
use kwokka.Ir.View.Total.{stage-some, edge-some, config_binding-some, entry_bound}

parse_view-parse :
    (body : List ℕ) (v : ConductorView)
    → parse_view body ≡ ok v
    → (p : Parsed) × (parse body ≡ ok p) × (view_of p ≡ v)
unfolding parse_view
parse_view-parse body v h = go (parse body) h
  where
    go :
        (r : Result Parsed)
        → (elim r [ ok checked ↦ ok (view_of checked) | err e ↦ err e ]) ≡ ok v
        → (p : Parsed) × (r ≡ ok p) × (view_of p ≡ v)
    go (ok p) e = (p, refl, cc)
    go (err f) e = cc

-- Every stage, edge and binding that the view counts is there.
abbrev pub AllPresent : ConductorView → Type 0
AllPresent v =
    ((ordinal : ℕ)
      → ordinal < v.stage_count
      → (entry : List ℕ) × (stage v ordinal ≡ some (record { body = v.body; entry = entry }))
        × (get_range v.stage_table (ordinal * stage_entry_len)
              (ordinal * stage_entry_len + stage_entry_len)
            ≡ some entry))
    × ((index : ℕ)
        → index < v.edge_count
        → (e : EdgeView) × (edge v index ≡ some e)
          × (e.from_ordinal < v.stage_count)
          × (e.to_ordinal < v.stage_count))
    × ((index : ℕ)
        → index < v.config_count
        → (b : ConfigBindingView) × (config_binding v index ≡ some b)
          × (b.node_ordinal < v.stage_count))

-- In the view of a body that parses, every stage below the stage count, every edge below the edge
-- count and every config binding below the binding count is found, and the ends of the edges and
-- the nodes of the bindings are stage ordinals.
pub parse_view-AllPresent :
    (body : List ℕ) (v : ConductorView) → parse_view body ≡ ok v → AllPresent v
parse_view-AllPresent body v h =
    let p = parse_view-parse body v h in
    let f = parse-Facts body p.0 p.1 in
    subst AllPresent p.2 (
      λ ordinal lt. let s = stage-some body p.0 ordinal f lt in (s.0, s.1, s.2),
      λ index lt. edge-some body p.0 index f lt,
      λ index lt.
          config_binding-some body p.0 index f.config f f.parsed_config f.count f.entries lt,
    )

all_kinds :
    (body : List ℕ) (sections : List Span) (entry : List ℕ) (kind : PolicyKind)
    → check_stage_entry body sections entry ≡ ok tt
    → check_policy_slot body sections entry kind ≡ ok tt
unfolding check_stage_entry
all_kinds body sections entry kind h =
    let a = >>=-eq-ok (check_policy_slot body sections entry limiter) _ h in
    let b = >>=-eq-ok (check_policy_slot body sections entry timeout) _ a.2 in
    let c = >>=-eq-ok (check_policy_slot body sections entry retry) _ b.2 in
    pick kind a.1 b.1 c.1 c.2
  where
    pick :
        (k : PolicyKind)
        → check_policy_slot body sections entry limiter ≡ ok tt
        → check_policy_slot body sections entry timeout ≡ ok tt
        → check_policy_slot body sections entry retry ≡ ok tt
        → check_policy_slot body sections entry breaker ≡ ok tt
        → check_policy_slot body sections entry k ≡ ok tt
    pick limiter a b c d = a
    pick timeout a b c d = b
    pick retry a b c d = c
    pick breaker a b c d = d

slot_field-le : (kind : PolicyKind) → slot_field kind + 4 ≤ 16
slot_field-le limiter = omega arith
slot_field-le timeout = omega arith
slot_field-le retry = omega arith
slot_field-le breaker = omega arith

policy_body-none :
    (s : StageView) (kind : PolicyKind)
    → read_u32 s.entry (slot_field kind) ≡ ok 0
    → policy_body s kind ≡ none
unfolding policy_body
policy_body-none s kind r = rw r

policy_body-some :
    (s : StageView) (kind : PolicyKind) (offset : ℕ) (sections : List Span)
    → read_u32 s.entry (slot_field kind) ≡ ok offset
    → offset ≢ 0
    → (ok : SlotOk s.body sections kind offset) → policy_body s kind ≡ some ok.view.body
unfolding policy_body
policy_body-some s kind offset sections r nz good =
    let zero : (offset == 0) ≡ false = ground (arith, nz) in
    rw (r, zero, good.readable, good.tagged)

-- What a stage's slot for `kind` gives: nothing where its offset is zero, and else the body of a
-- record with the kind's tag, which the kind's parser accepts.
abbrev pub PolicyFound : StageView → PolicyKind → Type 0
PolicyFound s kind =
    (offset : ℕ) × (read_u32 s.entry (slot_field kind) ≡ ok offset)
    × (((offset ≡ 0) × (policy_body s kind ≡ none))
        ⊎ ((body : List ℕ) × (offset ≢ 0)
            × (policy_body s kind ≡ some body)
            × (validate_body kind body ≡ ok tt)))

stage-PolicyFound :
    (body : List ℕ) (p : Parsed) (ordinal : ℕ) (s : StageView) (kind : PolicyKind)
    → Facts body p
    → ordinal < p.stage_count
    → stage (view_of p) ordinal ≡ some s
    → PolicyFound s kind
unfolding check_stage_policies
stage-PolicyFound body p ordinal s kind f lt e =
    let st = stage-some body p ordinal f lt in
    let bound = entry_bound ordinal p.stage_count stage_entry_len lt in
    let at = ordinal * stage_entry_len in
    let visited =
      each_entry-all (length p.stage_table) p.stage_table stage_entry_len 0
        (check_stage_entry body f.sections) (omega arith) (omega arith) f.policies ordinal
        (omega (arith, bound, f.stages.whole)) in
    let zero : 0 + at ≡ at = omega arith in
    let v = rw zero at visited in
    let same_entry : v.0 ≡ st.0 = cc (st.2, v.1) in
    let whole = get_range-some p.stage_table at (at + stage_entry_len) st.2 in
    let bounds = slot_field-le kind in
    let r =
      read_u32_total st.0 (slot_field kind) (omega (arith, whole, bounds))
        (omega (arith, bounds)) in
    let checked : check_stage_entry body f.sections st.0 ≡ ok tt =
      subst (λ x. check_stage_entry body f.sections x ≡ ok tt) same_entry v.2 in
    let t : StageView = record { body = p.body; entry = st.0 } in
    let same : t ≡ s = cc (st.1, e) in
    let found : PolicyFound t kind = elim (ℕ_discrete r.0 0) [
      | yes z ↦ (r.0, r.1, inl (z, policy_body-none t kind (r.1 ∙ ap ok z)))
      | no nz ↦
          let good =
            check_policy_slot-SlotOk body f.sections st.0 kind r.0
              (all_kinds body f.sections st.0 kind checked) r.1 nz in
          let good' : SlotOk p.body f.sections kind r.0 =
            subst (λ bytes. SlotOk bytes f.sections kind r.0) (sym f.same_body) good in
          (
            r.0,
            r.1,
            inr (
              good'.view.body,
              nz,
              policy_body-some t kind r.0 f.sections r.1 nz good',
              good'.valid,
            ),
          )
    ] in
    subst (λ x. PolicyFound x kind) same found

-- In the view of a body that parses, each of the four policy slots of each stage is either empty,
-- its offset being zero, or gives the body of a record with the slot's tag that the slot's parser
-- accepts: no policy that the table names is dropped.
pub parse_view-PolicyFound :
    (body : List ℕ) (v : ConductorView) (ordinal : ℕ) (s : StageView) (kind : PolicyKind)
    → parse_view body ≡ ok v
    → ordinal < v.stage_count
    → stage v ordinal ≡ some s
    → PolicyFound s kind
parse_view-PolicyFound body v ordinal s kind h lt e =
    let p = parse_view-parse body v h in
    let f = parse-Facts body p.0 p.1 in
    let lt' : ordinal < (view_of p.0).stage_count =
      subst (λ (w : ConductorView). ordinal < w.stage_count) (sym p.2) lt in
    stage-PolicyFound body p.0 ordinal s kind f lt'
      (subst (λ w. stage w ordinal ≡ some s) (sym p.2) e)
