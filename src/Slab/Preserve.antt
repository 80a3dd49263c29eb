-- ===== src/Slab/Preserve.antt =====
-- Every operation of crates/kwokka-core/src/slab/slab.rs keeps a slab well formed.
use kwokka.Base.{
  ℕ, ◌+◌, ◌<◌, ◌≡◌, ◌≢◌, inl, inr, refl, sym, ◌∙◌, true, false, Option, none, some, List, ◌∷◌,
  length, get_elem?, set, arith, Bool-cases, length-set, get_elem?-lt, get_elem?-set-cases,
}
use kwokka.Generation.{
  is_occupied, next, next-lt, is_occupied-next_vacant, is_occupied-next_occupied,
}
use kwokka.Slab.{Slot, Slab, free_sentinel, insert_at, vacate}
use kwokka.Slab.Invariant.{
  NotIn, first, tally, occupied_weight, reserved_weight, SlotOk, occupied_weight_occupied,
  occupied_weight_vacant, reserved_weight_occupied, reserved_weight_free, tally-set_whole, IsValid,
  link, Chain-set, Chain-occupied, Chain-first, link-set, first-ne,
}

module _ {ℓ} {A : Type ℓ} where
  pub set-SlotOk :
      (s : Slab A) {free : List ℕ} (i : ℕ) (v : Slot A)
      → IsValid s free
      → SlotOk v
      → (j : ℕ) (slot : Slot A) → get_elem? (set s.slots i v) j ≡ some slot
      → SlotOk slot
  set-SlotOk s i v w good j slot h = elim (get_elem?-set-cases s.slots i j v slot h) [
    | inl (_, e) ↦ rw (← e) good
    | inr (_, e) ↦ w.slot_ok j slot e
  ]

  link-some :
      (o : Option (Slot A)) {n : ℕ}
      → link o ≡ some n
      → (slot : Slot A) × (o ≡ some slot)
        × (is_occupied slot.generation ≡ false)
        × (slot.next_free ≡ n)
  link-some none e = cc
  link-some (some slot) e = elim (Bool-cases (is_occupied slot.generation)) [
    | inl occ ↦ cc (rw (occ, link) at e)
    | inr vac ↦ (slot, refl, vac, ground arith)
  ]

  -- The head of a non-empty free list is a vacant slot.
  pub head_vacant :
      (s : Slab A) (i : ℕ) (is : List ℕ)
      → IsValid s (i ∷ is)
      → (slot : Slot A) × (get_elem? s.slots i ≡ some slot)
        × (is_occupied slot.generation ≡ false)
        × (slot.next_free ≡ first is)
  head_vacant s i is w = link-some (get_elem? s.slots i) w.chain.1

  -- What a write of `v` over `slot` at `i` does to the counts.
  pub write_counts :
      (s : Slab A) (i : ℕ) (slot v : Slot A)
      → get_elem? s.slots i ≡ some slot
      → (tally occupied_weight 0 (set s.slots i v) + occupied_weight i slot
          ≡ tally occupied_weight 0 s.slots + occupied_weight i v)
        × (tally reserved_weight 0 (set s.slots i v) + reserved_weight i slot
            ≡ tally reserved_weight 0 s.slots + reserved_weight i v)
        × (length (set s.slots i v) ≡ length s.slots)
        × (i < length s.slots)
  write_counts s i slot v h = (
    tally-set_whole occupied_weight s.slots i v h,
    tally-set_whole reserved_weight s.slots i v h,
    length-set s.slots i v,
    get_elem?-lt s.slots i h,
  )

  pub insert_at-IsValid :
      (s : Slab A) (i : ℕ) (is : List ℕ) (slot : Slot A) (value : A)
      → IsValid s (i ∷ is)
      → get_elem? s.slots i ≡ some slot
      → is_occupied slot.generation ≡ false
      → slot.next_free ≡ first is
      → IsValid (insert_at s i slot value).0 is
  unfolding insert_at
  insert_at-IsValid s i is slot value w h vac nx =
      let v : Slot A = record {
        generation = next slot.generation;
        next_free = free_sentinel;
        content = some value;
      } in
      let occ : is_occupied (next slot.generation) ≡ true =
        is_occupied-next_vacant slot.generation vac in
      let c = write_counts s i slot v h in
      let unlinked : slot.next_free ≢ i =
        λ e. first-ne is w.distinct.0 (omega (arith, c.3, w.fits)) (sym e ∙ nx) in
      let o' = occupied_weight_occupied i v occ in
      let o = occupied_weight_vacant i slot vac in
      let r' = reserved_weight_occupied i v occ in
      let r = reserved_weight_free i slot vac unlinked in
      record {
        fits = rw length-set w.fits;
        chain = rw nx (Chain-set s.slots i v (first is) is w.distinct.0 w.chain.2);
        distinct = w.distinct.1;
        slot_ok =
            set-SlotOk s i v w (record {
              in_range = next-lt slot.generation;
              holds = sym occ;
              unlinked = λ _. refl;
            });
        counts = omega (arith, c, o, o', w.fits, w.balance, w.counts);
        balance = omega (arith, c, r, r', w.fits, w.balance);
      }

  pub vacate-IsValid :
      (s : Slab A) (free : List ℕ) (i : ℕ) (slot : Slot A)
      → IsValid s free
      → get_elem? s.slots i ≡ some slot
      → is_occupied slot.generation ≡ true
      → IsValid (vacate s i slot) (i ∷ free)
  unfolding vacate
  vacate-IsValid s free i slot w h occ =
      let v : Slot A = record {
        generation = next slot.generation;
        next_free = s.free_head;
        content = none;
      } in
      let vac : is_occupied (next slot.generation) ≡ false =
        is_occupied-next_occupied slot.generation occ in
      let c = write_counts s i slot v h in
      let off : NotIn i free = Chain-occupied s.slots i s.free_head free (rw (h, occ)) w.chain in
      let head : s.free_head ≡ first free = Chain-first s.slots s.free_head free w.chain in
      let linked : s.free_head ≢ i =
        λ e. first-ne free off (omega (arith, c.3, w.fits)) (sym e ∙ head) in
      let o = occupied_weight_occupied i slot occ in
      let o' = occupied_weight_vacant i v vac in
      let r = reserved_weight_occupied i slot occ in
      let r' = reserved_weight_free i v vac linked in
      record {
        fits = rw length-set w.fits;
        chain = (
          refl,
          link-set s.slots i v (first free) c.3 vac head,
          Chain-set s.slots i v (first free) free off (rw (← head) w.chain),
        );
        distinct = (off, w.distinct);
        slot_ok =
            set-SlotOk s i v w
              (record { in_range = next-lt slot.generation; holds = sym vac; unlinked = λ e. cc });
        counts = omega (arith, c, o, o', w.fits, w.balance, w.counts);
        balance = omega (arith, c, r, r', o, o', w.fits, w.balance, w.counts);
      }
