-- ===== src/Slab/Cases.antt =====
-- How each call of crates/kwokka-core/src/slab/slab.rs goes on a well-formed slab, branch by branch.
use mathlib.Core.Option
use kwokka.Base.{
  ℕ, ◌≡◌, ◌≢◌, inl, inr, true, false, ◌==◌, some, List, [], ◌∷◌, get_elem?, set, arith, Bool-cases,
  Option-cases, get_elem?-lt, ==_iff,
}
use kwokka.Generation.{is_occupied, next}
use kwokka.SlabKey.{index, generation}
use kwokka.SlabKey
use kwokka.Slab.{
  Slot, Slab, ok, full, free_sentinel, insert, insert_at, remove, remove_by_index, retire_slot,
  vacate,
}
use kwokka.Slab.Reservation
use kwokka.Slab.Reservation.{reserve, install, unreserve, is_promised}
use kwokka.Slab.Access.{update, update_by_index}
use kwokka.Slab.Invariant.{IsValid, first}
use kwokka.Slab.Preserve.{head_vacant}

-- A slab with some free list.
abbrev pub IsWellFormed {ℓ} : {A : Type ℓ} → Slab A → Type ℓ
IsWellFormed s = (free : List ℕ) × IsValid s free

-- A key as `insert` and `reserve` hand them out: its generation marks an occupied slot.
abbrev pub IsIssued : ℕ → Type 0
IsIssued key = is_occupied (generation key) ≡ true

module _ {ℓ} {A : Type ℓ} where
  pub head-ne_sentinel : (s : Slab A) (i : ℕ) (is : List ℕ) → IsValid s (i ∷ is) → i ≢ free_sentinel
  head-ne_sentinel s i is w =
      let h = head_vacant s i is w in omega (arith, get_elem?-lt s.slots i h.1, w.fits)

  -- `insert` on a well-formed slab: full exactly where the free list is empty.
  pub insert-empty : (s : Slab A) (value : A) → IsValid s [] → insert s value ≡ full
  unfolding insert
  insert-empty s value w = ground (arith, w.chain)

  insert_takes :
      (s : Slab A) (value : A) (i : ℕ) (slot : Slot A)
      → s.free_head ≡ i
      → i ≢ free_sentinel
      → get_elem? s.slots i ≡ some slot
      → is_occupied slot.generation ≡ false
      → insert s value ≡ ok (insert_at s i slot value)
  unfolding insert
  insert_takes s value i slot e n h vac = ground arith

  pub insert-cons :
      (s : Slab A) (value : A) (i : ℕ) (is : List ℕ)
      → IsValid s (i ∷ is)
      → (slot : Slot A) × (insert s value ≡ ok (insert_at s i slot value))
        × (get_elem? s.slots i ≡ some slot)
        × (is_occupied slot.generation ≡ false)
        × (slot.next_free ≡ first is)
  insert-cons s value i is w =
      let h = head_vacant s i is w in
      let n = head-ne_sentinel s i is w in
      (h.0, insert_takes s value i h.0 w.chain.0 n h.1 h.2, h.1, h.2, h.3)

  pub reserve-empty : (s : Slab A) → IsValid s [] → reserve s ≡ full
  unfolding reserve
  reserve-empty s w = ground (arith, w.chain)

  reserve_takes :
      (s : Slab A) (i : ℕ) (slot : Slot A)
      → s.free_head ≡ i
      → i ≢ free_sentinel
      → get_elem? s.slots i ≡ some slot
      → is_occupied slot.generation ≡ false
      → reserve s ≡ ok (Reservation.reserve_at s i slot, SlabKey.new i (next slot.generation))
  unfolding reserve
  reserve_takes s i slot e n h vac = ground arith

  pub reserve-cons :
      (s : Slab A) (i : ℕ) (is : List ℕ)
      → IsValid s (i ∷ is)
      → (slot : Slot A) × (reserve s
          ≡ ok (Reservation.reserve_at s i slot, SlabKey.new i (next slot.generation)))
        × (get_elem? s.slots i ≡ some slot)
        × (is_occupied slot.generation ≡ false)
        × (slot.next_free ≡ first is)
  reserve-cons s i is w =
      let h = head_vacant s i is w in
      let n = head-ne_sentinel s i is w in
      (h.0, reserve_takes s i h.0 w.chain.0 n h.1 h.2, h.1, h.2, h.3)

  -- A slot whose generation an issued key names is occupied.
  pub issued-occupied :
      (slot : Slot A) (key : ℕ)
      → IsIssued key
      → (slot.generation == generation key) ≡ true
      → is_occupied slot.generation ≡ true
  issued-occupied slot key k e = rw ((==_iff slot.generation (generation key)).0 e) k

  -- A promised slot is reserved.
  pub promised-reserved :
      (s : Slab A) (free : List ℕ) (slot : Slot A) (key : ℕ)
      → IsValid s free
      → get_elem? s.slots (index key) ≡ some slot
      → is_promised slot key ≡ true
      → (is_occupied slot.generation ≡ false) × (slot.next_free ≡ index key)
  unfolding is_promised
  promised-reserved s free slot key w h e =
      let self : slot.next_free ≡ index key = ground arith in
      elim (Bool-cases (is_occupied slot.generation)) [
        | inl occ ↦ absurd (
            omega (
              arith,
              (w.slot_ok (index key) slot h).unlinked occ,
              self,
              get_elem?-lt s.slots (index key) h,
              w.fits,
            ))
        | inr vac ↦ (vac, self)
      ]

  -- Cases of a call that looks a slot up and tests it: the state that it leaves satisfies `P`.
  pub removal_cases {κ} :
      (P : Slab A → Type κ) (s : Slab A) (key : ℕ)
      → P s
      → ((slot : Slot A)
          → get_elem? s.slots (index key) ≡ some slot
          → (slot.generation == generation key) ≡ true
          → P (vacate s (index key) slot))
      → P (remove s key).0 × P (retire_slot s key).0
  unfolding remove retire_slot
  removal_cases P s key keep hit = elim (Option-cases (get_elem? s.slots (index key))) [
    | inl e ↦ rw (e, remove, retire_slot) (keep, keep)
    | inr (slot, e) ↦ elim (Bool-cases (slot.generation == generation key)) [
      | inl t ↦ rw (e, t, remove, retire_slot) (hit slot e t, hit slot e t)
      | inr t ↦ rw (e, t, remove, retire_slot) (keep, keep)
    ]
  ]

  pub update_cases {κ} :
      (P : Slab A → Type κ) (s : Slab A) (key : ℕ) (f : A → A)
      → P s
      → ((slot : Slot A)
          → get_elem? s.slots (index key) ≡ some slot
          → (slot.generation == generation key) ≡ true
          → P (record s {
            slots = set s.slots (index key) (record slot { content = Option.map f slot.content });
          }))
      → P (update s key f)
  unfolding update
  update_cases P s key f keep hit = elim (Option-cases (get_elem? s.slots (index key))) [
    | inl e ↦ rw (e, update) keep
    | inr (slot, e) ↦ elim (Bool-cases (slot.generation == generation key)) [
      | inl t ↦ rw (e, t, update) (hit slot e t)
      | inr t ↦ rw (e, t, update) keep
    ]
  ]

  pub index_cases {κ} :
      (P : Slab A → Type κ) (s : Slab A) (i : ℕ) (f : A → A)
      → P s
      → ((slot : Slot A)
          → get_elem? s.slots i ≡ some slot
          → is_occupied slot.generation ≡ true
          → P (vacate s i slot)
            × P (record s {
              slots = set s.slots i (record slot { content = Option.map f slot.content });
            }))
      → P (remove_by_index s i).0 × P (update_by_index s i f)
  unfolding remove_by_index update_by_index
  index_cases P s i f keep hit = elim (Option-cases (get_elem? s.slots i)) [
    | inl e ↦ rw (e, remove_by_index, update_by_index) (keep, keep)
    | inr (slot, e) ↦ elim (Bool-cases (is_occupied slot.generation)) [
      | inl t ↦ rw (e, t, remove_by_index, update_by_index) (hit slot e t)
      | inr t ↦ rw (e, t, remove_by_index, update_by_index) (keep, keep)
    ]
  ]

  pub install_cases {κ} :
      (P : Slab A → Type κ) (s : Slab A) (key : ℕ) (value : A)
      → P s
      → ((slot : Slot A)
          → get_elem? s.slots (index key) ≡ some slot
          → is_promised slot key ≡ true
          → P (Reservation.install_at s (index key) slot value))
      → P (install s key value).0
  unfolding install
  install_cases P s key value keep hit = elim (Option-cases (get_elem? s.slots (index key))) [
    | inl e ↦ rw (e, install) keep
    | inr (slot, e) ↦ elim (Bool-cases (is_promised slot key)) [
      | inl t ↦ rw (e, install) (rw t (hit slot e t))
      | inr t ↦ rw (e, install) (rw t keep)
    ]
  ]

  pub unreserve_cases {κ} :
      (P : Slab A → Type κ) (s : Slab A) (key : ℕ)
      → P s
      → ((slot : Slot A)
          → get_elem? s.slots (index key) ≡ some slot
          → is_promised slot key ≡ true
          → P (Reservation.unreserve_at s (index key) slot))
      → P (unreserve s key).0
  unfolding unreserve
  unreserve_cases P s key keep hit = elim (Option-cases (get_elem? s.slots (index key))) [
    | inl e ↦ rw (e, unreserve) keep
    | inr (slot, e) ↦ elim (Bool-cases (is_promised slot key)) [
      | inl t ↦ rw (e, unreserve) (rw t (hit slot e t))
      | inr t ↦ rw (e, unreserve) (rw t keep)
    ]
  ]
