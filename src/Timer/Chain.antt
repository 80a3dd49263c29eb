-- ===== src/Timer/Chain.antt =====
-- The links of crates/kwokka-runtime/src/timer/wheel/slot.rs as the list that they run through.
pub mod Push
use kwokka.Base.{
  ℕ, ◌-◌, ◌<◌, ◌≡◌, ◌≢◌, ◌⊎◌, inl, inr, refl, sym, ap, ◌∙◌, Option, none, some, List, [], ◌∷◌, true,
  false, get_elem?, get_elem?-set_self, get_elem?-set_ne, get_elem?-lt, Bool-cases, Option-cases,
  arith, set, if◌then◌else◌,
}
use kwokka.Base.Members.{NotIn, In, Distinct}
use kwokka.Generation.{is_occupied}
use mathlib.Core.Option
use kwokka.Slab.{Slab, Slot, Read, missing, get_by_index, read_content}
use kwokka.Slab.Access.{update_by_index}
use kwokka.Timer.{TimerEntry, nz_to_slab}
use kwokka.Timer.Slots.{of_read, entry_at}

-- The entry of a link.
abbrev pub linked : Slab TimerEntry → ℕ → Option TimerEntry
linked es nz = entry_at es (nz_to_slab nz)

-- From `link` on the entries run through exactly these, and the first one's predecessor is `back`.
abbrev pub Chain : Slab TimerEntry → Option ℕ → Option ℕ → List ℕ → Type 0
Chain es back link [] = link ≡ none
Chain es back link (x ∷ xs) =
    (link ≡ some x)
    × (0 < x)
    × ((e : TimerEntry) × (linked es x ≡ some e) × (e.prev ≡ back) × Chain es (some x) e.next xs)

-- The two slabs have the same entries at the numbers of which `P` holds.
abbrev pub Same : Slab TimerEntry → Slab TimerEntry → (ℕ → Type 0) → Type 0
Same es fs P = (j : ℕ) → 0 < j → P j → linked fs j ≡ linked es j

pub Chain-Same :
    (es fs : Slab TimerEntry) (back link : Option ℕ) (xs : List ℕ)
    → Same es fs (λ j. In j xs)
    → Chain es back link xs
    → Chain fs back link xs
Chain-Same es fs back link [] same c = c
Chain-Same es fs back link (x ∷ xs) same (e, positive, (m, f, p, c)) = (
  e,
  positive,
  (
    m,
    same x positive (inl refl) ∙ f,
    p,
    Chain-Same es fs (some x) m.next xs (λ j above h. same j above (inr h)) c,
  ),
)

entry_of : Option (Slot TimerEntry) → Option TimerEntry
entry_of o = of_read (elim o as (λ x. Read TimerEntry) [
  | none ↦ missing
  | some slot ↦ if is_occupied slot.generation then read_content slot.content else missing
])

entry_at-slot : (es : Slab TimerEntry) (i : ℕ) → entry_at es i ≡ entry_of (get_elem? es.slots i)
unfolding entry_at get_by_index entry_of
entry_at-slot es i = refl

update-slot_ne :
    (es : Slab TimerEntry) (i j : ℕ) (f : TimerEntry → TimerEntry)
    → i ≢ j
    → get_elem? (update_by_index es i f).slots j ≡ get_elem? es.slots j
unfolding update_by_index
update-slot_ne es i j f ne = elim (Option-cases (get_elem? es.slots i)) [
  | inl h ↦ rw (update_by_index, h) refl
  | inr (slot, h) ↦ elim (Bool-cases (is_occupied slot.generation)) [
    | inl g ↦ rw (update_by_index, h, g) (get_elem?-set_ne es.slots i j _ ne)
    | inr g ↦ rw (update_by_index, h, g) refl
  ]
]

entry_at-update_ne :
    (es : Slab TimerEntry) (i j : ℕ) (f : TimerEntry → TimerEntry)
    → i ≢ j
    → entry_at (update_by_index es i f) j ≡ entry_at es j
entry_at-update_ne es i j f ne =
    entry_at-slot (update_by_index es i f) j
    ∙ ap entry_of (update-slot_ne es i j f ne)
    ∙ sym (entry_at-slot es j)

updated : (TimerEntry → TimerEntry) → Slot TimerEntry → Slot TimerEntry
updated f slot = record slot { content = Option.map f slot.content }

update-slot_self :
    (es : Slab TimerEntry) (i : ℕ) (f : TimerEntry → TimerEntry) (slot : Slot TimerEntry)
    → get_elem? es.slots i ≡ some slot
    → is_occupied slot.generation ≡ true
    → get_elem? (update_by_index es i f).slots i ≡ some (updated f slot)
unfolding updated update_by_index
update-slot_self es i f slot h g =
    rw (update_by_index, h, g)
      (get_elem?-set_self es.slots i (updated f slot) (get_elem?-lt es.slots i h))

content_some :
    (o : Option TimerEntry) (f : TimerEntry → TimerEntry) (e : TimerEntry)
    → of_read (read_content o) ≡ some e
    → of_read (read_content (Option.map f o)) ≡ some (f e)
content_some none f e k = absurd cc
content_some (some c) f e k = ap (Option.map f) k

entry_of-some :
    (slot : Slot TimerEntry) (f : TimerEntry → TimerEntry) (e : TimerEntry)
    → entry_of (some slot) ≡ some e
    → (is_occupied slot.generation ≡ true) × (entry_of (some (updated f slot)) ≡ some (f e))
unfolding entry_of updated
entry_of-some slot f e at = elim (Bool-cases (is_occupied slot.generation)) [
  | inr g ↦ let failed = rw g at at in absurd cc
  | inl g ↦ (g, rw g (content_some slot.content f e (rw g at at)))
]

entry_at-update_self :
    (es : Slab TimerEntry) (i : ℕ) (f : TimerEntry → TimerEntry) (e : TimerEntry)
    → entry_at es i ≡ some e
    → entry_at (update_by_index es i f) i ≡ some (f e)
unfolding entry_of
entry_at-update_self es i f e at = elim (Option-cases (get_elem? es.slots i)) [
  | inl h ↦ let failed = rw h at (sym (entry_at-slot es i) ∙ at) in absurd cc
  | inr (slot, h) ↦
      let (g, after) = entry_of-some slot f e (rw h at (sym (entry_at-slot es i) ∙ at)) in
      entry_at-slot (update_by_index es i f) i
      ∙ ap entry_of (update-slot_self es i f slot h g)
      ∙ after
]

pub linked-update_ne :
    (es : Slab TimerEntry) (x j : ℕ) (f : TimerEntry → TimerEntry)
    → 0 < x
    → 0 < j
    → x ≢ j
    → linked (update_by_index es (nz_to_slab x) f) j ≡ linked es j
linked-update_ne es x j f above_x above_j ne =
    entry_at-update_ne es (nz_to_slab x) (nz_to_slab j) f
      (λ e. ne (omega (arith, e, above_x, above_j)))

pub linked-update_self :
    (es : Slab TimerEntry) (x : ℕ) (f : TimerEntry → TimerEntry) (e : TimerEntry)
    → linked es x ≡ some e
    → linked (update_by_index es (nz_to_slab x) f) x ≡ some (f e)
linked-update_self es x f e at = entry_at-update_self es (nz_to_slab x) f e at
