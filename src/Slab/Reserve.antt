-- ===== src/Slab/Reserve.antt =====
-- The two-phase insert of crates/kwokka-core/src/slab/slab.rs: `reserve`, then `install` or
-- `unreserve`.
use kwokka.Base.{
  ℕ, zero, suc, ◌≡◌, inl, inr, refl, ap, sym, ◌∙◌, true, false, some, List, [], ◌∷◌, get_elem?, set,
  arith, get_elem?-set_ne,
}
use mathlib.Core.Path.{subst}
use native.Mathlib.Decide.{ℕ_discrete}
use kwokka.Generation.{is_occupied, next}
use kwokka.SlabKey.{index, generation, index-new, generation-new}
use kwokka.SlabKey
use kwokka.Slab.{Slot, Slab, missing, ok, free_sentinel, get}
use kwokka.Slab.Reservation.{
  reserve, reserve_at, install, install_at, unreserve, unreserve_at, is_promised,
}
use kwokka.Slab.Invariant.{IsValid}
use kwokka.Slab.Cases.{IsWellFormed, IsIssued, reserve-empty, reserve-cons}
use kwokka.Slab.Lookup.{
  Stores, get_hit, get_vacant, get_same, get_elsewhere, get_written, fresh_key, ok_inj,
}

module _ {ℓ} {A : Type ℓ} where
  -- What `reserve`, `install` and `unreserve` do with a promised key.
  pub record Promises (s t : Slab A) (key : ℕ) : Type ℓ where
    pub issued : IsIssued key
    pub unread : (k : ℕ) → IsIssued k → get t k ≡ get s k
    pub pending : get t key ≡ missing
    pub commits : (value : A) → (install t key value).1 ≡ true
    pub stores : (value : A) → Stores s (install t key value).0 key value
    pub withdraws : unreserve t key ≡ (s, true)

  set_twice : (xs : List (Slot A)) (i : ℕ) (v w : Slot A) → set (set xs i v) i w ≡ set xs i w
  set_twice [] i v w = refl
  set_twice (x ∷ xs) zero v w = refl
  set_twice (x ∷ xs) (suc i) v w = ap (◌∷◌ x) (set_twice xs i v w)

  set_same : (xs : List (Slot A)) (i : ℕ) (v : Slot A) → get_elem? xs i ≡ some v → set xs i v ≡ xs
  set_same [] i v h = refl
  set_same (x ∷ xs) zero v h = cc
  set_same (x ∷ xs) (suc i) v h = ap (◌∷◌ x) (set_same xs i v h)

  install_hits :
      (t : Slab A) (key : ℕ) (slot : Slot A) (value : A)
      → get_elem? t.slots (index key) ≡ some slot
      → is_promised slot key ≡ true
      → install t key value ≡ (install_at t (index key) slot value, true)
  unfolding install
  install_hits t key slot value h p = rw (h, install) (rw p)

  unreserve_hits :
      (t : Slab A) (key : ℕ) (slot : Slot A)
      → get_elem? t.slots (index key) ≡ some slot
      → is_promised slot key ≡ true
      → unreserve t key ≡ (unreserve_at t (index key) slot, true)
  unfolding unreserve
  unreserve_hits t key slot h p = rw (h, unreserve) (rw p)

  is_promised-true :
      (slot : Slot A) (key : ℕ)
      → slot.next_free ≡ index key
      → next slot.generation ≡ generation key
      → is_promised slot key ≡ true
  unfolding is_promised
  is_promised-true slot key e f = ground arith

  -- The write of `reserve` is undone by that of `unreserve`.
  unreserve_at-reserve_at :
      (s : Slab A) (i : ℕ) (slot : Slot A)
      → get_elem? s.slots i ≡ some slot
      → s.free_head ≡ i
      → unreserve_at (reserve_at s i slot) i (record slot { next_free = i }) ≡ s
  unfolding reserve_at unreserve_at
  unreserve_at-reserve_at s i slot h head =
      let p : set (set s.slots i (record slot { next_free = i })) i slot ≡ s.slots =
        set_twice s.slots i (record slot { next_free = i }) slot ∙ set_same s.slots i slot h in
      let q : i ≡ s.free_head = sym head in
      λ j. record { slots = p j; free_head = q j; len = s.len }

  -- A slot that is vacant before and after a write at `key` answers no issued key.
  unread_write :
      (s t : Slab A) (key : ℕ) (slot r : Slot A)
      → t.slots ≡ set s.slots (index key) r
      → get_elem? s.slots (index key) ≡ some slot
      → is_occupied slot.generation ≡ false
      → is_occupied r.generation ≡ false
      → (k : ℕ) → IsIssued k
      → get t k ≡ get s k
  unread_write s t key slot r e h vac vac' k issued = elim (ℕ_discrete (index k) (index key)) [
    | yes same ↦
        get_vacant t k r (rw same (get_written s t key slot r e h)) vac' issued
        ∙ sym (get_vacant s k slot (rw same h) vac issued)
    | no other ↦
        get_same t s k
          (rw e (get_elem?-set_ne s.slots (index key) (index k) r (λ f. other (sym f))))
  ]

  -- Filling a vacant slot under the key that names its next generation stores the value.
  install_at-Stores :
      (t : Slab A) (key : ℕ) (r : Slot A) (value : A)
      → IsIssued key
      → get_elem? t.slots (index key) ≡ some r
      → is_occupied r.generation ≡ false
      → next r.generation ≡ generation key
      → Stores t (install_at t (index key) r value) key value
  unfolding install_at
  install_at-Stores t key r value issued h vac e =
      let v : Slot A = record {
        generation = next r.generation;
        next_free = free_sentinel;
        content = some value;
      } in
      let u = install_at t (index key) r value in
      record {
        issued = issued;
        absent = get_vacant t key r h vac issued;
        present = get_hit u key v (get_written t u key r v refl h) e;
        others = λ k i d. get_elsewhere t u k key r v refl h i d (inl vac) (inr e);
      }

  reserve_at-Promises :
      (s : Slab A) (free : List ℕ) (i : ℕ) (slot : Slot A)
      → IsValid s free
      → get_elem? s.slots i ≡ some slot
      → is_occupied slot.generation ≡ false
      → s.free_head ≡ i
      → Promises s (reserve_at s i slot) (SlabKey.new i (next slot.generation))
  unfolding reserve_at
  reserve_at-Promises s free i slot w h vac head =
      let f = fresh_key s i slot w h vac in
      let key = SlabKey.new i (next slot.generation) in
      let r : Slot A = record slot { next_free = i } in
      let t = reserve_at s i slot in
      let h' : get_elem? s.slots (index key) ≡ some slot = rw f.0 h in
      let e : t.slots ≡ set s.slots (index key) r = rw f.0 in
      let at : get_elem? t.slots (index key) ≡ some r = get_written s t key slot r e h' in
      let promised = is_promised-true r key (sym f.0) (sym f.1) in
      let unread = unread_write s t key slot r e h' vac vac in
      record {
        issued = f.2;
        unread = unread;
        pending = get_vacant t key r at vac f.2;
        commits = λ value. ap (λ p. p.1) (install_hits t key r value at promised);
        stores = λ value.
            let st = install_at-Stores t key r value f.2 at vac (sym f.1) in
            rw (install_hits t key r value at promised) (record {
              issued = st.issued;
              absent = sym (unread key f.2) ∙ st.absent;
              present = st.present;
              others = λ k k_issued d. st.others k k_issued d ∙ unread k k_issued;
            });
        withdraws =
            unreserve_hits t key r at promised
            ∙ ap (λ u. (u, true)) (rw f.0 (unreserve_at-reserve_at s i slot h head));
      }

  -- A successful `reserve` on a well-formed slab changes what no issued key reads and promises a
  -- key that reads nothing yet: `install` with it succeeds and stores the value under it, leaving
  -- every other issued key's value alone, and `unreserve` with it gives back the slab as it was.
  pub reserve-Promises :
      (s t : Slab A) (key : ℕ) → IsWellFormed s → reserve s ≡ ok (t, key) → Promises s t key
  reserve-Promises s t key ([], w) e = cc (reserve-empty s w)
  reserve-Promises s t key (i ∷ is, w) e =
      let c = reserve-cons s i is w in
      let p =
        ok_inj (reserve_at s i c.0, SlabKey.new i (next c.0.generation)) (t, key) (sym c.1 ∙ e) in
      subst (λ q. Promises s q.0 q.1) p (reserve_at-Promises s (i ∷ is) i c.0 w c.2 c.3 w.chain.0)
