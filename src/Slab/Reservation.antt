-- ===== src/Slab/Reservation.antt =====
-- The two-step insertion of crates/kwokka-core/src/slab/slab.rs: a slot is reserved, and later filled
-- or given back.
use kwokka.Base.{ℕ, ◌&&◌, ◌==◌, Bool, true, false, if◌then◌else◌, none, some, get_elem?, set, add64}
use kwokka.Generation.{is_occupied, next}
use kwokka.SlabKey.{index, generation}
use kwokka.SlabKey
use kwokka.Slab.{Slot, Slab, Outcome, ok, full, panic, free_sentinel}

module _ {ℓ} {A : Type ℓ} where
  -- The slab after `Slab::reserve` took the slot `slot` at `i`.
  unfoldable pub reserve_at : Slab A → ℕ → Slot A → Slab A
  reserve_at s i slot = record s {
    slots = set s.slots i (record slot { next_free = i });
    free_head = slot.next_free;
  }

  -- `Slab::reserve`.
  unfoldable pub reserve : Slab A → Outcome (Slab A × ℕ)
  unfolding reserve_at
  reserve s = if s.free_head == free_sentinel then full else elim (get_elem? s.slots s.free_head) [
    | none ↦ panic
    | some slot ↦
        if is_occupied slot.generation
        then panic
        else ok (reserve_at s s.free_head slot, SlabKey.new s.free_head (next slot.generation))
  ]

  -- The test of `install` and `unreserve`.
  unfoldable pub is_promised : Slot A → ℕ → Bool
  is_promised slot key = slot.next_free == index key && next slot.generation == generation key

  -- The slab after `Slab::install` filled the slot `slot` at `i`.
  unfoldable pub install_at : Slab A → ℕ → Slot A → A → Slab A
  install_at s i slot value = record s {
    slots = set s.slots i (record {
      generation = next slot.generation;
      next_free = free_sentinel;
      content = some value;
    });
    len = add64 s.len 1;
  }

  -- `Slab::install`; `false` hands the value back.
  unfoldable pub install : Slab A → ℕ → A → Slab A × Bool
  unfolding is_promised install_at
  install s key value = elim (get_elem? s.slots (index key)) [
    | none ↦ (s, false)
    | some slot ↦
        if is_promised slot key then (install_at s (index key) slot value, true) else (s, false)
  ]

  -- The slab after `Slab::unreserve` put the slot `slot` at `i` back on the free list.
  unfoldable pub unreserve_at : Slab A → ℕ → Slot A → Slab A
  unreserve_at s i slot = record s {
    slots = set s.slots i (record slot { next_free = s.free_head });
    free_head = i;
  }

  -- `Slab::unreserve`.
  unfoldable pub unreserve : Slab A → ℕ → Slab A × Bool
  unfolding is_promised unreserve_at
  unreserve s key = elim (get_elem? s.slots (index key)) [
    | none ↦ (s, false)
    | some slot ↦
        if is_promised slot key then (unreserve_at s (index key) slot, true) else (s, false)
  ]
