-- ===== src/Slab/Turnover.antt =====
-- A slot of crates/kwokka-core/src/slab/slab.rs that is emptied and filled again, over and over, and
-- the generation that its keys carry (crates/kwokka-core/src/generation/revision.rs).
use kwokka.Base.{
  ℕ, zero, suc, ◌+◌, ◌*◌, ◌^◌, ◌<◌, ◌≡◌, ◌≢◌, refl, sym, ap, ◌∙◌, true, inl, inr, none, some, ◌%◌,
  get_elem?, List, ◌∷◌, arith,
}
use kwokka.Generation.{is_occupied, next, next_lem}
use kwokka.SlabKey.{index, generation, generation-lt}
use kwokka.Slab.{
  Slot, Slab, ok, full, panic, missing, found, get, insert, insert_at, remove, vacate,
}
use kwokka.Slab.Invariant.{IsValid}
use kwokka.Slab.Preserve.{insert_at-IsValid, vacate-IsValid}
use kwokka.Slab.Cases.{IsWellFormed, IsIssued, insert-cons}
use kwokka.Slab.Lookup.{get_hit, get_stale, get_written, fresh_key, insert_at-Stores}
use kwokka.Slab.Removal.{get-cases}

module _ {ℓ} {A : Type ℓ} where
  -- The slab after `n` rounds: the entry of the key is removed, and the next value inserted, whose
  -- key the next round removes.
  unfoldable pub refill : ℕ → Slab A → ℕ → (ℕ → A) → Slab A
  refill zero s key values = s
  refill (suc n) s key values = elim (insert (remove s key).0 (values n)) [
    | full ↦ s
    | panic ↦ s
    | ok (t, fresh) ↦ refill n t fresh values
  ]

  -- A slab in which the slot of an issued key has the key's generation.
  record Tenant (s : Slab A) (key : ℕ) : Type ℓ where
    slot : Slot A
    free : List ℕ
    valid : IsValid s free
    at : get_elem? s.slots (index key) ≡ some slot
    current : slot.generation ≡ generation key
    issued : IsIssued key
    freed : (remove s key).0 ≡ vacate s (index key) slot

  some_same : (x y : Slot A) → some x ≡ some y → x ≡ y
  some_same x y e = cc

  found-Tenant :
      (s : Slab A) (key : ℕ) (a : A)
      → IsWellFormed s
      → IsIssued key
      → get s key ≡ found a
      → Tenant s key
  found-Tenant s key a (free, w) issued e = elim (get-cases s key) [
    | inl m ↦ absurd cc
    | inr (slot, h, g, r) ↦ record {
      slot = slot;
      free = free;
      valid = w;
      at = h;
      current = g;
      issued = issued;
      freed = r;
    }
  ]

  -- One round gives the slot the generation after the next, and stores the value there.
  round :
      (s : Slab A) (key : ℕ) (value : A)
      → Tenant s key
      → (t : Slab A) × (fresh : ℕ) × (insert (remove s key).0 value ≡ ok (t, fresh))
        × (index fresh ≡ index key)
        × (generation fresh ≡ next (next (generation key)))
        × (get t fresh ≡ found value)
        × IsWellFormed t
        × IsIssued fresh
  unfolding vacate insert_at
  round s key value w =
      let i = index key in
      let u = vacate s i w.slot in
      let occupied : is_occupied w.slot.generation ≡ true = ap is_occupied w.current ∙ w.issued in
      let valid = vacate-IsValid s w.free i w.slot w.valid w.at occupied in
      let (slot, e, h, vac, linked) = insert-cons u value i w.free valid in
      let v : Slot A = record {
        generation = next w.slot.generation;
        next_free = s.free_head;
        content = none;
      } in
      let same : slot ≡ v = some_same slot v (sym h ∙ get_written s u key w.slot v refl w.at) in
      let bumped : slot.generation ≡ next (generation key) =
        ap (λ (x : Slot A). x.generation) same ∙ ap next w.current in
      let (place, g, fresh_issued) = fresh_key u i slot valid h vac in
      (
        (insert_at u i slot value).0,
        (insert_at u i slot value).1,
        ap (λ x. insert x value) w.freed ∙ e,
        place,
        g ∙ ap next bumped,
        (insert_at-Stores u (i ∷ w.free) i slot value valid h vac).present,
        (w.free, insert_at-IsValid u i w.free slot value valid h vac linked),
        fresh_issued,
      )

  module _ (values : ℕ → A) where
    -- What the slot holds last, having held `a` at first.
    last : ℕ → A → A
    last zero a = a
    last (suc n) a = values 0

    last_value : (n : ℕ) → last n (values n) ≡ values 0
    unfolding last
    last_value zero = refl
    last_value (suc n) = refl

    last_positive : (n : ℕ) (a : A) → 0 < n → last n a ≡ values 0
    unfolding last
    last_positive zero a h = elim h [ ]
    last_positive (suc n) a h = refl

    refill_step :
        (n : ℕ) (s t : Slab A) (key fresh : ℕ)
        → insert (remove s key).0 (values n) ≡ ok (t, fresh)
        → refill (suc n) s key values ≡ refill n t fresh values
    unfolding refill
    refill_step n s t key fresh e = rw (refill, e) refl

    refill-tenant :
        (n : ℕ) (s : Slab A) (key : ℕ) (a : A)
        → IsWellFormed s
        → IsIssued key
        → get s key ≡ found a
        → (fresh : ℕ) × (index fresh ≡ index key)
          × (generation fresh ≡ (generation key + 2 * n) % 2 ^ 24)
          × (get (refill n s key values) fresh ≡ found (last n a))
    unfolding refill last
    refill-tenant zero s key a w issued h = (key, refl, omega (arith, generation-lt key), h)
    refill-tenant (suc n) s key a w issued h =
        let (t, k, e, place, g, present, w', issued') =
          round s key (values n) (found-Tenant s key a w issued h) in
        let (fresh, place', g', present') = refill-tenant n t k (values n) w' issued' present in
        (
          fresh,
          place' ∙ place,
          omega (arith, g', g, next_lem (generation key), next_lem (next (generation key))),
          ap (λ u. get u fresh) (refill_step n s t key k e) ∙ present' ∙ ap found (last_value n),
        )

    -- A key that differs in its generation alone from one that is found reads nothing; one that
    -- differs in neither reads the same.
    beside :
        (t : Slab A) (key fresh : ℕ) (b : A)
        → index fresh ≡ index key
        → get t fresh ≡ found b
        → (generation fresh ≢ generation key → get t key ≡ missing)
          × (generation fresh ≡ generation key → get t key ≡ found b)
    beside t key fresh b place h = elim (get-cases t fresh) [
      | inl m ↦ absurd cc
      | inr (slot, at, g, r) ↦
          let here : get_elem? t.slots (index key) ≡ some slot = rw place at at in
          (
            λ ne. get_stale t key slot here (λ e. ne (sym g ∙ e)),
            λ e. get_hit t key slot here (g ∙ e) ∙ sym (get_hit t fresh slot at g) ∙ h,
          )
    ]

    -- In a well-formed slab, a key whose generation marks an occupied slot and under which a value is
    -- found finds nothing once its entry has been removed and its slot filled again `n` times, for
    -- every positive `n` below `2 ^ 23`; after `2 ^ 23` times it finds the value of the last tenant.
    pub refill-stale :
        (n : ℕ) (s : Slab A) (key : ℕ) (a : A)
        → IsWellFormed s
        → IsIssued key
        → get s key ≡ found a
        → 0 < n
        → n < 2 ^ 23
        → (get (refill n s key values) key ≡ missing)
          × (get (refill (2 ^ 23) s key values) key ≡ found (values 0))
    refill-stale n s key a w issued h positive below =
        let (fresh, place, g, present) = refill-tenant n s key a w issued h in
        let (final, place', g', present') = refill-tenant (2 ^ 23) s key a w issued h in
        (
          (beside (refill n s key values) key fresh (last n a) place present).0
              (λ e. omega (arith, e, g, generation-lt key, positive, below)),
          (beside (refill (2 ^ 23) s key values) key final (last (2 ^ 23) a) place' present').1
                (omega (arith, g', generation-lt key))
              ∙ ap found (last_positive (2 ^ 23) a (omega arith)),
        )
