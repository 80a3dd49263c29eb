-- ===== src/Slab/Removal.antt =====
-- What keys read after `remove` and `retire_slot` of crates/kwokka-core/src/slab/slab.rs.
use kwokka.Base.{
  ℕ, ◌≡◌, ◌⊎◌, inl, inr, refl, ap, ◌∙◌, false, ◌==◌, none, some, get_elem?, arith, Bool-cases,
  Option-cases, ==_iff,
}
use kwokka.Generation.{is_occupied, next, is_occupied-next_occupied}
use kwokka.SlabKey.{index, generation}
use kwokka.Slab.{Slot, Slab, missing, remove, retire_slot, vacate, get}
use kwokka.Slab.Cases.{IsIssued}
use kwokka.Slab.Lookup.{Differs, get_vacant, get_elsewhere, get_written}

module _ {ℓ} {A : Type ℓ} where
  -- A slab `t` that answers as `s` does, but no longer answers `key`.
  pub record Forgets (s t : Slab A) (key : ℕ) : Type ℓ where
    pub gone : get t key ≡ missing
    pub others : (k : ℕ) → IsIssued k → Differs k key → get t k ≡ get s k

  vacate-Forgets :
      (s : Slab A) (key : ℕ) (slot : Slot A)
      → IsIssued key
      → get_elem? s.slots (index key) ≡ some slot
      → slot.generation ≡ generation key
      → Forgets s (vacate s (index key) slot) key
  unfolding vacate
  vacate-Forgets s key slot issued h e =
      let vac : is_occupied (next slot.generation) ≡ false =
        is_occupied-next_occupied slot.generation (ap is_occupied e ∙ issued) in
      let v : Slot A = record {
        generation = next slot.generation;
        next_free = s.free_head;
        content = none;
      } in
      let t = vacate s (index key) slot in
      record {
        gone = get_vacant t key v (get_written s t key slot v refl h) vac issued;
        others = λ k k_issued d. get_elsewhere s t k key slot v refl h k_issued d (inr e) (inl vac);
      }

  pub remove-get : (s : Slab A) (key : ℕ) → (remove s key).1 ≡ get s key
  unfolding remove get
  remove-get s key = ground arith

  retire_slot-remove : (s : Slab A) (key : ℕ) → (retire_slot s key).0 ≡ (remove s key).0
  unfolding remove retire_slot
  retire_slot-remove s key = ground arith

  remove_misses : (s : Slab A) (key : ℕ) → get s key ≡ missing → (remove s key).0 ≡ s
  unfolding remove get
  remove_misses s key e = ground arith

  -- A lookup finds nothing, or a slot with the key's generation.
  pub get-cases :
      (s : Slab A) (key : ℕ)
      → (get s key ≡ missing)
        ⊎ ((slot : Slot A) × (get_elem? s.slots (index key) ≡ some slot)
            × (slot.generation ≡ generation key)
            × ((remove s key).0 ≡ vacate s (index key) slot))
  unfolding get remove
  get-cases s key = elim (Option-cases (get_elem? s.slots (index key))) [
    | inl e ↦ inl (rw (e, get))
    | inr (slot, e) ↦ elim (Bool-cases (slot.generation == generation key)) [
      | inl t ↦ inr (slot, e, (==_iff slot.generation (generation key)).0 t, rw (e, remove) (rw t))
      | inr t ↦ inl (rw (e, get) (rw t))
    ]
  ]

  -- `remove` with a key whose generation marks an occupied slot returns what `get` would;
  -- afterwards neither `get` nor `remove` finds anything under the key, and any other such key reads
  -- what it read. `retire_slot` leaves the same slab.
  pub remove-Forgets :
      (s : Slab A) (key : ℕ)
      → IsIssued key
      → ((remove s key).1 ≡ get s key)
        × Forgets s (remove s key).0 key
        × ((remove (remove s key).0 key).1 ≡ missing)
        × ((retire_slot s key).0 ≡ (remove s key).0)
  remove-Forgets s key issued =
      let forgets : Forgets s (remove s key).0 key = elim (get-cases s key) [
        | inl e ↦ rw (remove_misses s key e) (record { gone = e; others = λ k i d. refl })
        | inr (slot, h, e, r) ↦ rw r (vacate-Forgets s key slot issued h e)
      ] in
      (
        remove-get s key,
        forgets,
        remove-get (remove s key).0 key ∙ forgets.gone,
        retire_slot-remove s key,
      )
