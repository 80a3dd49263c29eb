-- ===== src/Slab/Iter.antt =====
-- `iter` of crates/kwokka-core/src/slab/slab.rs against `get` and `len`.
use kwokka.Base.{
  ℕ, zero, suc, ◌+◌, ◌<◌, ◌≡◌, refl, ap, sym, ◌∙◌, true, Bool-cases, inl, inr, some, List, [], ◌∷◌,
  length, get_elem?, u32_mod, arith, get_elem?-lt,
}
use kwokka.Generation.{is_occupied}
use kwokka.SlabKey.{index, generation, index-new, generation-new}
use kwokka.SlabKey
use kwokka.Slab.{Slot, Slab, Read, get, read_content, size}
use kwokka.Slab.Access.{iter, iter_from}
use kwokka.Slab.Invariant.{tally, occupied_weight}
use kwokka.Slab.Cases.{IsWellFormed, IsIssued}
use kwokka.Slab.Lookup.{get_hit}

module _ {ℓ} {A : Type ℓ} where
  length-iter_from :
      (i : ℕ) (slots : List (Slot A)) → length (iter_from i slots) ≡ tally occupied_weight i slots
  unfolding iter_from tally occupied_weight
  length-iter_from i [] = refl
  length-iter_from i (slot ∷ slots) =
      let shift : i + 1 ≡ suc i = omega arith in
      let rest : length (iter_from (i + 1) slots) ≡ tally occupied_weight (suc i) slots =
        length-iter_from (i + 1) slots ∙ ap (λ k. tally occupied_weight k slots) shift in
      elim (Bool-cases (is_occupied slot.generation)) [
        | inl t ↦ rw t (omega (arith, rest))
        | inr t ↦ rw t (omega (arith, rest))
      ]

  -- What an entry of `iter_from` comes from.
  record Entry (i : ℕ) (slots : List (Slot A)) (e : ℕ × Read A) : Type ℓ where
    at : ℕ
    slot : Slot A
    there : get_elem? slots at ≡ some slot
    occupied : is_occupied slot.generation ≡ true
    key : e.0 ≡ SlabKey.new (i + at) slot.generation
    value : e.1 ≡ read_content slot.content

  iter_from-Entry :
      (i : ℕ) (slots : List (Slot A)) (n : ℕ) (e : ℕ × Read A)
      → get_elem? (iter_from i slots) n ≡ some e
      → Entry i slots e
  unfolding iter_from
  iter_from-Entry i [] n e h = cc
  iter_from-Entry i (slot ∷ slots) n e h = elim (Bool-cases (is_occupied slot.generation)) [
    | inl t ↦ here t (λ m g. iter_from-Entry (i + 1) slots m e g) n (rw (iter_from, t) at h)
    | inr t ↦ later (iter_from-Entry (i + 1) slots n e (rw (iter_from, t) at h))
  ]
    where
      later : Entry (i + 1) slots e → Entry i (slot ∷ slots) e
      later r = record {
        at = suc r.at;
        slot = r.slot;
        there = r.there;
        occupied = r.occupied;
        key = r.key ∙ ap (λ k. SlabKey.new k r.slot.generation) (omega arith);
        value = r.value;
      }

      here :
          is_occupied slot.generation ≡ true
          → ((m : ℕ) → get_elem? (iter_from (i + 1) slots) m ≡ some e → Entry (i + 1) slots e)
          → (m : ℕ)
          → get_elem?
              ((SlabKey.new i slot.generation, read_content slot.content) ∷ iter_from (i + 1) slots)
              m
            ≡ some e
          → Entry i (slot ∷ slots) e
      here t rest zero g =
          let same : (SlabKey.new i slot.generation, read_content slot.content) ≡ e = cc in
          record {
            at = 0;
            slot = slot;
            there = refl;
            occupied = t;
            key =
                ap (λ (p : ℕ × Read A). p.0) (sym same)
                ∙ ap (λ k. SlabKey.new k slot.generation) (omega arith);
            value = ap (λ (p : ℕ × Read A). p.1) (sym same);
          }
      here t rest (suc m) g = later (rest m g)

  -- On a well-formed slab `iter` gives as many entries as `len` counts; the key of each entry is
  -- one whose generation marks an occupied slot, and `get` with it reads the entry's value.
  pub iter-reads :
      (s : Slab A) (n : ℕ) (e : ℕ × Read A)
      → IsWellFormed s
      → get_elem? (iter s) n ≡ some e
      → (length (iter s) ≡ size s) × IsIssued e.0 × (get s e.0 ≡ e.1)
  unfolding iter size
  iter-reads s n e (free, w) h =
      let r = iter_from-Entry 0 s.slots n e h in
      let small : 0 + r.at < u32_mod = omega (arith, get_elem?-lt s.slots r.at r.there, w.fits) in
      let at_index : index e.0 ≡ r.at =
        ap index r.key ∙ omega (arith, index-new (0 + r.at) r.slot.generation small) in
      let same : generation e.0 ≡ r.slot.generation =
        ap generation r.key
        ∙ omega (
          arith,
          generation-new (0 + r.at) r.slot.generation small,
          (w.slot_ok r.at r.slot r.there).in_range,
        ) in
      (
        length-iter_from 0 s.slots ∙ sym w.counts,
        ap is_occupied same ∙ r.occupied,
        get_hit s e.0 r.slot (ap (get_elem? s.slots) at_index ∙ r.there) (sym same) ∙ sym r.value,
      )
