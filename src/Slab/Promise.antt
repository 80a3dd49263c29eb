-- ===== src/Slab/Promise.antt =====
-- The writes of `reserve`, `install` and `unreserve` (crates/kwokka-core/src/slab/slab.rs) keep a
-- slab well formed.
use kwokka.Base.{
  ℕ, ◌≡◌, ◌≢◌, refl, sym, ◌∙◌, true, false, some, List, ◌∷◌, get_elem?, arith, length-set,
  get_elem?-lt,
}
use kwokka.Generation.{is_occupied, next, next-lt, is_occupied-next_vacant}
use kwokka.Slab.{Slot, Slab, free_sentinel}
use kwokka.Slab.Reservation.{reserve_at, install_at, unreserve_at}
use kwokka.Slab.Invariant.{
  NotIn, first, occupied_weight_occupied, occupied_weight_vacant, reserved_weight_occupied,
  reserved_weight_free, reserved_weight_reserved, IsValid, Chain-set, Chain-reserved, Chain-first,
  link-set, first-ne,
}
use kwokka.Slab.Preserve.{set-SlotOk, write_counts}

module _ {ℓ} {A : Type ℓ} where
  pub reserve_at-IsValid :
      (s : Slab A) (i : ℕ) (is : List ℕ) (slot : Slot A)
      → IsValid s (i ∷ is)
      → get_elem? s.slots i ≡ some slot
      → is_occupied slot.generation ≡ false
      → slot.next_free ≡ first is
      → IsValid (reserve_at s i slot) is
  unfolding reserve_at
  reserve_at-IsValid s i is slot w h vac nx =
      let v : Slot A = record slot { next_free = i } in
      let c = write_counts s i slot v h in
      let good = w.slot_ok i slot h in
      let unlinked : slot.next_free ≢ i =
        λ e. first-ne is w.distinct.0 (omega (arith, c.3, w.fits)) (sym e ∙ nx) in
      let o = occupied_weight_vacant i slot vac in
      let o' = occupied_weight_vacant i v vac in
      let r = reserved_weight_free i slot vac unlinked in
      let r' = reserved_weight_reserved i v vac refl in
      record {
        fits = rw length-set w.fits;
        chain = rw nx (Chain-set s.slots i v (first is) is w.distinct.0 w.chain.2);
        distinct = w.distinct.1;
        slot_ok =
            set-SlotOk s i v w
              (record { in_range = good.in_range; holds = good.holds; unlinked = λ e. cc });
        counts = omega (arith, c, o, o', w.counts);
        balance = omega (arith, c, r, r', w.balance);
      }

  -- A reserved slot is not on the free list.
  reserved-NotIn :
      (s : Slab A) (free : List ℕ) (i : ℕ) (slot : Slot A)
      → IsValid s free
      → get_elem? s.slots i ≡ some slot
      → is_occupied slot.generation ≡ false
      → slot.next_free ≡ i
      → NotIn i free
  reserved-NotIn s free i slot w h vac self =
      Chain-reserved s.slots i s.free_head free (rw (h, vac, self))
        (omega (arith, get_elem?-lt s.slots i h, w.fits)) w.distinct w.chain

  pub install_at-IsValid :
      (s : Slab A) (free : List ℕ) (i : ℕ) (slot : Slot A) (value : A)
      → IsValid s free
      → get_elem? s.slots i ≡ some slot
      → is_occupied slot.generation ≡ false
      → slot.next_free ≡ i
      → IsValid (install_at s i slot value) free
  unfolding install_at
  install_at-IsValid s free i slot value w h vac self =
      let v : Slot A = record {
        generation = next slot.generation;
        next_free = free_sentinel;
        content = some value;
      } in
      let occ : is_occupied (next slot.generation) ≡ true =
        is_occupied-next_vacant slot.generation vac in
      let c = write_counts s i slot v h in
      let off = reserved-NotIn s free i slot w h vac self in
      let o' = occupied_weight_occupied i v occ in
      let o = occupied_weight_vacant i slot vac in
      let r' = reserved_weight_occupied i v occ in
      let r = reserved_weight_reserved i slot vac self in
      record {
        fits = rw length-set w.fits;
        chain = Chain-set s.slots i v s.free_head free off w.chain;
        distinct = w.distinct;
        slot_ok =
            set-SlotOk s i v w (record {
              in_range = next-lt slot.generation;
              holds = sym occ;
              unlinked = λ _. refl;
            });
        counts = omega (arith, c, o, o', w.fits, w.balance, w.counts);
        balance = omega (arith, c, r, r', w.fits, w.balance);
      }

  pub unreserve_at-IsValid :
      (s : Slab A) (free : List ℕ) (i : ℕ) (slot : Slot A)
      → IsValid s free
      → get_elem? s.slots i ≡ some slot
      → is_occupied slot.generation ≡ false
      → slot.next_free ≡ i
      → IsValid (unreserve_at s i slot) (i ∷ free)
  unfolding unreserve_at
  unreserve_at-IsValid s free i slot w h vac self =
      let v : Slot A = record slot { next_free = s.free_head } in
      let c = write_counts s i slot v h in
      let good = w.slot_ok i slot h in
      let off = reserved-NotIn s free i slot w h vac self in
      let head : s.free_head ≡ first free = Chain-first s.slots s.free_head free w.chain in
      let linked : s.free_head ≢ i =
        λ e. first-ne free off (omega (arith, c.3, w.fits)) (sym e ∙ head) in
      let o = occupied_weight_vacant i slot vac in
      let o' = occupied_weight_vacant i v vac in
      let r = reserved_weight_reserved i slot vac self in
      let r' = reserved_weight_free i v vac linked in
      record {
        fits = rw length-set w.fits;
        chain = (
          refl,
          link-set s.slots i v (first free) c.3 vac head,
          Chain-set s.slots i v (first free) free off (rw (← head) w.chain),
        );
        distinct = (off, w.distinct);
        slot_ok =
            set-SlotOk s i v w
              (record { in_range = good.in_range; holds = good.holds; unlinked = λ e. cc });
        counts = omega (arith, c, o, o', w.counts);
        balance = omega (arith, c, r, r', w.balance);
      }
