-- ===== src/Mpsc/Enqueue.antt =====
-- `push` of crates/kwokka-runtime/src/sync/mpsc.rs on a ring that represents a queue.
use kwokka.Base.{
  ℕ, zero, suc, ◌+◌, ◌%◌, ◌^◌, ◌<◌, ◌≤◌, ◌≡◌, ◌≢◌, ◌⊎◌, inl, inr, refl, sym, ap, ◌∙◌, true, false,
  Option, none, some, List, [], ◌∷◌, ◌++◌, length, get_elem?, set, arith, u64_mod, add64, sub64,
  length-set, length-append, get_elem?-set_self, get_elem?-set_ne, get_elem?-lt, ltb, ◌==◌, lt→ltb,
  ==_iff,
}
use native.Mathlib.Nat.{mod-add-mod, mod-lt, add-mod_right, add-zero, one-le-pow, pow-le-pow_right}
use kwokka.Mpsc.{Slot, MpscRing, pushed, rejected, push, push_loop, publish, slot_index, half_range}
use kwokka.Mpsc.Window.{mask_position, index-distinct, Holds, Represents}

==_true : {a b : ℕ} → a ≡ b → (a == b) ≡ true
==_true {a} {b} e = (==_iff a b).1 e

pub power_bounds : (k : ℕ) → 0 < k → k < 64 → (2 ≤ 2 ^ k) × (2 ^ k ≤ 2 ^ 63)
power_bounds k pos small = (
  pow-le-pow_right {n = 2} (omega arith) {i = 1} pos,
  pow-le-pow_right {n = 2} (omega arith) {j = 63} (omega arith),
)

module _ {ℓ} {A : Type ℓ} where
  pub index_at :
      {k : ℕ} (r : MpscRing A) (p : ℕ)
      → k ≤ 64
      → length r.slots ≡ 2 ^ k
      → slot_index r (p % u64_mod) ≡ p % length r.slots
  index_at {k} r p h e = rw e (mask_position k p h)

  get_elem?-snoc :
      (q : List A) (v w : A) (j : ℕ)
      → get_elem? (q ++ v ∷ []) j ≡ some w
      → (get_elem? q j ≡ some w) ⊎ ((j ≡ length q) × (v ≡ w))
  get_elem?-snoc [] v w zero h = inr (refl, cc)
  get_elem?-snoc [] v w (suc j) h = cc
  get_elem?-snoc (x ∷ q) v w zero h = inl h
  get_elem?-snoc (x ∷ q) v w (suc j) h = elim (get_elem?-snoc q v w j h) [
    | inl e ↦ inl e
    | inr (e, f) ↦ inr (ap suc e, f)
  ]

  -- A write at position `p` leaves the slots of the others within a round.
  pub set-Holds :
      (r s : MpscRing A) (p x next : ℕ) (slot : Slot A) {cell : Option A}
      → s.slots ≡ set r.slots (p % length r.slots) slot
      → p % length r.slots ≢ x % length r.slots
      → Holds r x next cell
      → Holds s x next cell
  set-Holds r s p x next slot e ne h =
      rw (e, length-set)
        (get_elem?-set_ne r.slots (p % length r.slots) (x % length r.slots) slot ne ∙ h)

  pub set-Holds_self :
      (r s : MpscRing A) (p x next : ℕ) {cell : Option A}
      → s.slots
        ≡ set r.slots (p % length r.slots) (record { sequence = next % u64_mod; cell = cell })
      → p % length r.slots ≡ x % length r.slots
      → x % length r.slots < length r.slots
      → Holds s x next cell
  set-Holds_self r s p x next e same l =
      rw (e, length-set, same) (get_elem?-set_self r.slots (x % length r.slots) _ l)

  push_loop-free :
      (fuel : ℕ) (r : MpscRing A) (pos : ℕ) (v : A) (slot : Slot A)
      → get_elem? r.slots (slot_index r pos) ≡ some slot
      → slot.sequence ≡ pos
      → r.enqueue_pos ≡ pos
      → push_loop (suc fuel) r pos v
        ≡ (publish (record r { enqueue_pos = add64 pos 1 }) pos v, pushed)
  unfolding push_loop
  push_loop-free fuel r pos v slot h e f =
      let gap : (sub64 slot.sequence pos == 0) ≡ true = ==_true (omega (arith, e)) in
      let same : (r.enqueue_pos == pos) ≡ true = ==_true f in rw (push_loop, h, gap, same) refl

  push_loop-full :
      (fuel : ℕ) (r : MpscRing A) (pos : ℕ) (v : A) (slot : Slot A)
      → get_elem? r.slots (slot_index r pos) ≡ some slot
      → half_range < sub64 slot.sequence pos
      → push_loop (suc fuel) r pos v ≡ (r, rejected v)
  unfolding push_loop
  push_loop-full fuel r pos v slot h l =
      let gap : (sub64 slot.sequence pos == 0) ≡ false = ground (arith, l) in
      let far : ltb half_range (sub64 slot.sequence pos) ≡ true = lt→ltb _ _ l in
      rw (push_loop, h, gap, far) refl

  -- The ring after a producer has claimed and published the next position.
  abbrev pub enqueued : MpscRing A → A → MpscRing A
  enqueued r v = publish (record r { enqueue_pos = add64 r.enqueue_pos 1 }) r.enqueue_pos v

  pub enqueued-Represents :
      {k : ℕ} (r : MpscRing A) (d : ℕ) (q : List A) (v : A)
      → k ≤ 64
      → Represents k r d q
      → length q < 2 ^ k
      → Represents k (enqueued r v) d (q ++ v ∷ [])
  unfolding publish
  enqueued-Represents {k} r d q v small w l =
      let p = d + length q in
      let slots : (enqueued r v).slots
          ≡ set r.slots (p % length r.slots)
              (record { sequence = (p + 1) % u64_mod; cell = some v }) =
        rw (w.enqueue, index_at {k = k} r p small w.room, mod-add-mod p u64_mod 1) refl in
      let other : (j : ℕ)
          → j < 2 ^ k
          → j ≢ length q
          → p % length r.slots ≢ (d + j) % length r.slots =
        λ j h ne. rw w.room (index-distinct (2 ^ k) d j (length q) h l ne) in
      record {
        room = rw length-set w.room;
        enqueue =
            rw (length-append, w.enqueue, mod-add-mod p u64_mod 1)
              (ap (λ t. t % u64_mod) (omega arith));
        dequeue = w.dequeue;
        fits = omega (arith, length-append q (v ∷ []), l);
        held = λ j x h. elim (get_elem?-snoc q v x j h) [
          | inl e ↦
              let inside = get_elem?-lt q j e in
              set-Holds r (enqueued r v) p (d + j) (d + j + 1) _ slots
                (other j (omega arith) (omega arith)) (w.held j x e)
          | inr (e, same) ↦
              set-Holds_self r (enqueued r v) p (d + j) (d + j + 1) (rw (e, ← same) slots)
                (rw e refl) (rw w.room (mod-lt (d + j) (omega arith)))
        ];
        free = λ j g h.
            set-Holds r (enqueued r v) p (d + j) (d + j) _ slots
              (other j h (omega (arith, length-append q (v ∷ []))))
              (w.free j (omega (arith, length-append q (v ∷ []))) h);
      }

  pub push-enqueues :
      {k : ℕ} (fuel : ℕ) (r : MpscRing A) (d : ℕ) (q : List A) (v : A)
      → k ≤ 64
      → Represents k r d q
      → length q < 2 ^ k
      → push (suc fuel) r v ≡ (enqueued r v, pushed)
  unfolding push
  push-enqueues {k} fuel r d q v small w l =
      let p = d + length q in
      let at : slot_index r r.enqueue_pos ≡ p % length r.slots =
        rw w.enqueue (index_at {k = k} r p small w.room) in
      let slot : Slot A = record { sequence = p % u64_mod; cell = none } in
      let here : get_elem? r.slots (slot_index r r.enqueue_pos) ≡ some slot =
        rw at (w.free (length q) (omega arith) l) in
      push_loop-free fuel r r.enqueue_pos v slot here (sym w.enqueue) refl

  -- A full ring of at least two slots turns the value back.
  pub push-refuses :
      {k : ℕ} (fuel : ℕ) (r : MpscRing A) (d : ℕ) (q : List A) (v : A)
      → 0 < k
      → k < 64
      → Represents k r d q
      → length q ≡ 2 ^ k
      → push (suc fuel) r v ≡ (r, rejected v)
  unfolding push
  push-refuses {k} fuel r d [] v pos small w l = absurd (omega (arith, one-le-pow k 2))
  push-refuses {k} fuel r d (x ∷ q) v pos small w l =
      let p = d + suc (length q) in
      let round : p % length r.slots ≡ d % length r.slots =
        rw (l, ← w.room) (add-mod_right d (length r.slots)) in
      let at : slot_index r r.enqueue_pos ≡ (d + 0) % length r.slots =
        rw (w.enqueue, add-zero) (index_at {k = k} r p (omega arith) w.room ∙ round) in
      let slot : Slot A = record { sequence = (d + 0 + 1) % u64_mod; cell = some x } in
      let here : get_elem? r.slots (slot_index r r.enqueue_pos) ≡ some slot =
        rw at (w.held 0 x refl) in
      push_loop-full fuel r r.enqueue_pos v slot here
        (rw w.enqueue (omega (arith, power_bounds k pos small, l)))
