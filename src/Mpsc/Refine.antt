-- ===== src/Mpsc/Refine.antt =====
-- The ring of crates/kwokka-runtime/src/sync/mpsc.rs as the bounded queue of what it holds.
use kwokka.Base.{
  ℕ, suc, ◌+◌, ◌%◌, ◌^◌, ◌<◌, ◌≤◌, ◌≡◌, ◌≢◌, refl, ap, false, none, some, List, [], ◌∷◌, ◌++◌,
  length, get_elem?, set, arith, u64_mod, add64, sub64, length-set, ltb, lt→ltb, le→ltb_false,
  get_elem?-lt, if◌then◌else◌,
}
use native.Mathlib.Nat.{mod-add-mod, mod-lt, add-mod_right, add-zero, one-le-pow, pow-le-pow_right}
use native.Mathlib.Decide.{dec_lt}
use kwokka.Mpsc.{
  Slot, MpscRing, Pushed, pushed, rejected, Popped, popped, empty, push, pop, consume, slot_index,
  half_range, size,
}
use kwokka.Mpsc.Window.{index-distinct, Represents}
use kwokka.Mpsc.Enqueue.{
  index_at, set-Holds, set-Holds_self, enqueued, enqueued-Represents, push-enqueues, push-refuses,
}

-- A call by one of the threads, and what it gives back.
pub data Call {ℓ} (A : Type ℓ) : Type ℓ where
  pushes : A → Call A
  pops : Call A
  measures : Call A

pub data Answer {ℓ} (A : Type ℓ) : Type ℓ where
  put : Pushed A → Answer A
  took : Popped A → Answer A
  measured : ℕ → Answer A

module _ {ℓ} {A : Type ℓ} where
  unfoldable pub run : ℕ → MpscRing A → List (Call A) → List (Answer A)
  run fuel r [] = []
  run fuel r (pushes v ∷ cs) = let (s, out) = push fuel r v in put out ∷ run fuel s cs
  run fuel r (pops ∷ cs) = let (s, out) = pop r in took out ∷ run fuel s cs
  run fuel r (measures ∷ cs) = measured (size r) ∷ run fuel r cs

  -- The bounded queue: `n` values at most, first in, first out.
  unfoldable pub queue_push : ℕ → List A → A → List A × Pushed A
  queue_push n q v = if ltb (length q) n then (q ++ v ∷ [], pushed) else (q, rejected v)

  unfoldable pub queue_pop : List A → List A × Popped A
  queue_pop [] = ([], empty)
  queue_pop (v ∷ q) = (q, popped v)

  unfoldable pub queue_run : ℕ → List A → List (Call A) → List (Answer A)
  queue_run n q [] = []
  queue_run n q (pushes v ∷ cs) = let (t, out) = queue_push n q v in put out ∷ queue_run n t cs
  queue_run n q (pops ∷ cs) = let (t, out) = queue_pop q in took out ∷ queue_run n t cs
  queue_run n q (measures ∷ cs) = measured (length q) ∷ queue_run n q cs

  -- The ring after the consumer has taken the oldest value.
  abbrev pub consumed : MpscRing A → Slot A → MpscRing A
  consumed r slot = (consume r r.dequeue_pos slot).0

  pub consumed-Represents :
      {k : ℕ} (r : MpscRing A) (slot : Slot A) (d : ℕ) (q : List A) (v : A)
      → k < 64
      → Represents k r d (v ∷ q)
      → Represents k (consumed r slot) (d + 1) q
  unfolding consume
  consumed-Represents {k} r slot d q v small w =
      let slots : (consumed r slot).slots
          ≡ set r.slots (d % length r.slots)
              (record { sequence = (d + 2 ^ k) % u64_mod; cell = none }) =
        rw
          (
            w.dequeue,
            index_at {k = k} r d (omega arith) w.room,
            w.room,
            mod-add-mod d u64_mod (2 ^ k),
          )
          refl in
      let other : (j : ℕ) → suc j < 2 ^ k → d % length r.slots ≢ (d + suc j) % length r.slots =
        λ j h e.
          index-distinct (2 ^ k) d (suc j) 0 h (omega arith) (omega arith)
            (rw (add-zero, ← w.room) e) in
      let moved : (j : ℕ) → d + suc j ≡ d + 1 + j = λ j. omega arith in
      record {
        room = rw length-set w.room;
        enqueue = rw w.enqueue (ap (λ t. t % u64_mod) (omega arith));
        dequeue = rw (w.dequeue, mod-add-mod d u64_mod 1) refl;
        fits = omega (arith, w.fits);
        held = λ j x h. rw (← moved j) (
            set-Holds r (consumed r slot) d (d + suc j) (d + suc j + 1) _ slots
              (other j (omega (arith, get_elem?-lt q j h, w.fits))) (w.held (suc j) x h));
        free = λ j g h. elim (dec_lt (suc j) (2 ^ k)) [
          | yes l ↦ rw (← moved j) (
              set-Holds r (consumed r slot) d (d + suc j) (d + suc j) _ slots (other j l)
                (w.free (suc j) (omega arith) l))
          | no g ↦
              let round : d + 1 + j ≡ d + 2 ^ k = omega arith in
              let same : (d + 2 ^ k) % length r.slots ≡ d % length r.slots =
                rw w.room (add-mod_right d (2 ^ k)) in
              set-Holds_self r (consumed r slot) d (d + 1 + j) (d + 1 + j) (rw round slots)
                (rw (round, same) refl) (rw w.room (mod-lt (d + 1 + j) (omega arith)))
        ];
      }

  pub pop-empty :
      {k : ℕ} (r : MpscRing A) (d : ℕ) → k < 64 → Represents k r d [] → pop r ≡ (r, empty)
  unfolding pop
  pop-empty {k} r d small w =
      let at : slot_index r r.dequeue_pos ≡ (d + 0) % length r.slots =
        rw (w.dequeue, add-zero) (index_at {k = k} r d (omega arith) w.room) in
      let slot : Slot A = record { sequence = (d + 0) % u64_mod; cell = none } in
      let here : get_elem? r.slots (slot_index r r.dequeue_pos) ≡ some slot =
        rw at (w.free 0 (omega arith) (omega (arith, one-le-pow k 2))) in
      let lags : half_range < sub64 slot.sequence (add64 r.dequeue_pos 1) =
        rw w.dequeue (omega arith) in
      rw (pop, here, lt→ltb half_range _ lags) refl

  pub pop-takes :
      {k : ℕ} (r : MpscRing A) (d : ℕ) (q : List A) (v : A)
      → k < 64
      → Represents k r d (v ∷ q)
      → (slot : Slot A) × (pop r ≡ (consumed r slot, popped v))
  unfolding pop consume
  pop-takes {k} r d q v small w =
      let at : slot_index r r.dequeue_pos ≡ (d + 0) % length r.slots =
        rw (w.dequeue, add-zero) (index_at {k = k} r d (omega arith) w.room) in
      let slot : Slot A = record { sequence = (d + 0 + 1) % u64_mod; cell = some v } in
      let here : get_elem? r.slots (slot_index r r.dequeue_pos) ≡ some slot =
        rw at (w.held 0 v refl) in
      let level : ltb half_range (sub64 slot.sequence (add64 r.dequeue_pos 1)) ≡ false =
        le→ltb_false half_range _ (rw w.dequeue (omega arith)) in
      (slot, rw (pop, here, level) refl)

  pub size-length :
      {k : ℕ} (r : MpscRing A) (d : ℕ) (q : List A)
      → k < 64
      → Represents k r d q
      → size r ≡ length q
  unfolding size
  size-length {k} r d q small w =
      let small' : 2 ^ k ≤ 2 ^ 63 = pow-le-pow_right {n = 2} (omega arith) {j = 63} (omega arith) in
      rw (w.enqueue, w.dequeue) (omega (arith, small', w.fits))

  pub run_lem :
      {k : ℕ} (fuel : ℕ) (r : MpscRing A) (d : ℕ) (q : List A) (cs : List (Call A))
      → 0 < k
      → k < 64
      → Represents k r d q
      → run (suc fuel) r cs ≡ queue_run (2 ^ k) q cs
  unfolding run queue_run queue_push queue_pop
  run_lem {k} fuel r d q [] pos small w = refl
  run_lem {k} fuel r d q (pushes v ∷ cs) pos small w = elim (dec_lt (length q) (2 ^ k)) [
    | yes l ↦
        rw (push-enqueues fuel r d q v (omega arith) w l, lt→ltb _ _ l)
          (ap (λ t. put pushed ∷ t)
            (run_lem fuel (enqueued r v) d (q ++ v ∷ []) cs pos small
              (enqueued-Represents r d q v (omega arith) w l)))
    | no g ↦
        let full : length q ≡ 2 ^ k = omega (arith, w.fits) in
        rw
          (
            push-refuses fuel r d q v pos small w full,
            le→ltb_false (length q) (2 ^ k) (omega arith),
          )
          (ap (λ t. put (rejected v) ∷ t) (run_lem fuel r d q cs pos small w))
  ]
  run_lem {k} fuel r d [] (pops ∷ cs) pos small w =
      rw (pop-empty r d small w) (ap (λ t. took empty ∷ t) (run_lem fuel r d [] cs pos small w))
  run_lem {k} fuel r d (v ∷ q) (pops ∷ cs) pos small w =
      let (slot, e) = pop-takes r d q v small w in
      rw e (
        ap (λ t. took (popped v) ∷ t)
          (run_lem fuel (consumed r slot) (d + 1) q cs pos small
            (consumed-Represents r slot d q v small w)))
  run_lem {k} fuel r d q (measures ∷ cs) pos small w =
      rw (size-length r d q small w)
        (ap (λ t. measured (length q) ∷ t) (run_lem fuel r d q cs pos small w))
