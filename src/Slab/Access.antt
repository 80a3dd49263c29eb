-- ===== src/Slab/Access.antt =====
-- The accessors of crates/kwokka-core/src/slab/slab.rs that hand out references: a write through a
-- reference is a function on the value, and a pointer is the index of its slot.
use mathlib.Core.Option
use kwokka.Base.{
  ℕ, ◌+◌, ◌==◌, if◌then◌else◌, Option, none, some, List, [], ◌∷◌, get_elem?, set, ◌≡◌, ◌≢◌, ◌⊎◌,
  inl, inr, Option-cases, Bool-cases, sym, ap, ◌∙◌, ==_iff,
}
use kwokka.Generation.{is_occupied}
use kwokka.SlabKey.{index, generation}
use kwokka.SlabKey
use kwokka.Slab.{Slot, Slab, Read, read_content}

module _ {ℓ} {A : Type ℓ} where
  -- A write through the reference that `get_mut` gives.
  unfoldable pub update : Slab A → ℕ → (A → A) → Slab A
  update s key f = elim (get_elem? s.slots (index key)) [
    | none ↦ s
    | some slot ↦
        if slot.generation == generation key
        then record s {
          slots = set s.slots (index key) (record slot { content = Option.map f slot.content });
        }
        else s
  ]

  -- `Slab::slot_ptr` and `Slab::slot_ptr_mut`.
  unfoldable pub slot_ptr : Slab A → ℕ → Option ℕ
  slot_ptr s key = elim (get_elem? s.slots (index key)) [
    | none ↦ none
    | some slot ↦ if slot.generation == generation key then some (index key) else none
  ]

  -- A write through the reference that `get_mut_by_index` gives.
  unfoldable pub update_by_index : Slab A → ℕ → (A → A) → Slab A
  update_by_index s i f = elim (get_elem? s.slots i) [
    | none ↦ s
    | some slot ↦
        if is_occupied slot.generation
        then record s {
          slots = set s.slots i (record slot { content = Option.map f slot.content });
        }
        else s
  ]

  -- `Slab::iter`, from slot `i` on: the keys of the occupied slots and what each holds.
  unfoldable pub iter_from : ℕ → List (Slot A) → List (ℕ × Read A)
  iter_from i [] = []
  iter_from i (slot ∷ slots) =
      let rest = iter_from (i + 1) slots in
      if is_occupied slot.generation
      then (SlabKey.new i slot.generation, read_content slot.content) ∷ rest
      else rest

  unfoldable pub iter : Slab A → List (ℕ × Read A)
  unfolding iter_from
  iter s = iter_from 0 s.slots

  slot_ptr-hit :
      (s : Slab A) (key i : ℕ)
      → slot_ptr s key ≡ some i
      → (i ≡ index key)
        × ((slot : Slot A) × (get_elem? s.slots (index key) ≡ some slot)
            × (slot.generation ≡ generation key))
  unfolding slot_ptr
  slot_ptr-hit s key i h = elim (Option-cases (get_elem? s.slots (index key))) [
    | inl e ↦ cc (rw (slot_ptr, e) at h)
    | inr (slot, e) ↦ elim (Bool-cases (slot.generation == generation key)) [
      | inl t ↦
          let same : index key ≡ i = some_inj (rw (slot_ptr, e, t) at h) in
          (sym same, (slot, e, (==_iff _ _).0 t))
      | inr t ↦ cc (rw (slot_ptr, e, t) at h)
    ]
  ]
    where
      some_inj : {a b : ℕ} → some a ≡ some b → a ≡ b
      some_inj e = cc

  -- Pointers that `slot_ptr` and `slot_ptr_mut` give for keys that differ in their index or their
  -- generation point at different slots.
  pub slot_ptr-distinct :
      (s : Slab A) (key k i j : ℕ)
      → slot_ptr s key ≡ some i
      → slot_ptr s k ≡ some j
      → (index k ≢ index key) ⊎ (generation k ≢ generation key)
      → i ≢ j
  slot_ptr-distinct s key k i j h g (inl d) e =
      d (sym (slot_ptr-hit s k j g).0 ∙ sym e ∙ (slot_ptr-hit s key i h).0)
  slot_ptr-distinct s key k i j h g (inr d) e =
      let a = slot_ptr-hit s key i h in
      let b = slot_ptr-hit s k j g in
      let same : index k ≡ index key = sym b.0 ∙ sym e ∙ a.0 in
      let one : some a.1.0 ≡ some b.1.0 = sym a.1.1 ∙ ap (get_elem? s.slots) (sym same) ∙ b.1.1 in
      d (sym b.1.2 ∙ ap (λ (x : Slot A). x.generation) (sym (slot_inj one)) ∙ a.1.2)
    where
      slot_inj : {x y : Slot A} → some x ≡ some y → x ≡ y
      slot_inj e = cc
