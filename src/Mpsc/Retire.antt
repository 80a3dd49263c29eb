-- ===== src/Mpsc/Retire.antt =====
-- The making and the dropping of the ring of crates/kwokka-runtime/src/sync/mpsc.rs.
use kwokka.Base.{
  ℕ, zero, suc, ◌+◌, ◌%◌, ◌^◌, ◌<◌, ◌≤◌, ◌≡◌, refl, ap, ◌∙◌, true, false, Option, none, some, List,
  [], ◌∷◌, length, get_elem?, arith, u64_mod, add64, Bool, if◌then◌else◌, ◌==◌, ==_iff, map,
}
use native.Mathlib.Nat.{add-zero, zero-add, mod-add-mod, mod-eq_of_lt, pow-le-pow_right}
use kwokka.Mpsc.{MpscRing, new, seed, slot_index}
use kwokka.Mpsc.Window.{Holds, Represents}
use kwokka.Mpsc.Enqueue.{index_at}
use kwokka.Mpsc.Refine.{Call, run, run_lem, queue_run}

==_refl : (a : ℕ) → (a == a) ≡ true
==_refl a = (==_iff a a).1 refl

word_bound : (k : ℕ) → k < 64 → 2 ^ k ≤ 2 ^ 63
word_bound k small = pow-le-pow_right {n = 2} (omega arith) {j = 63} (omega arith)

module _ {ℓ} where
  length-seed : (A : Type ℓ) (i n : ℕ) → length (seed {A = A} i n) ≡ n
  unfolding seed
  length-seed A i zero = refl
  length-seed A i (suc n) = ap suc (length-seed A (suc i) n)

  get_elem?-seed :
      (A : Type ℓ) (i n j : ℕ)
      → j < n
      → get_elem? (seed {A = A} i n) j ≡ some (record { sequence = i + j; cell = none })
  unfolding seed
  get_elem?-seed A i zero j h = elim h [ ]
  get_elem?-seed A i (suc n) zero h = rw (add-zero i) refl
  get_elem?-seed A i (suc n) (suc j) h =
      let moved : suc i + j ≡ i + suc j = omega arith in
      rw (← moved) (get_elem?-seed A (suc i) n j (omega arith))

  pub new-Represents : (A : Type ℓ) (k : ℕ) → k < 64 → Represents k (new {A = A} (2 ^ k)) 0 []
  unfolding new
  new-Represents A k small = record {
    room = length-seed A 0 (2 ^ k);
    enqueue = omega arith;
    dequeue = omega arith;
    fits = omega arith;
    held = λ j v h. cc;
    free = λ j g h.
        let inside : j % 2 ^ k ≡ j = mod-eq_of_lt h in
        let word : j % u64_mod ≡ j = mod-eq_of_lt (omega (arith, word_bound k small)) in
        let seeded = get_elem?-seed A 0 (2 ^ k) j h in
        rw (zero-add, length-seed, inside, word) (rw (zero-add) at seeded);
  }

module _ {ℓ} {A : Type ℓ} where
  -- From its making on, a ring of `2 ^ k` slots answers every sequence of pushes, pops and length
  -- queries as the first-in-first-out queue of at most `2 ^ k` values does, for `k` from 1 to 63:
  -- no call spins, indexes out of range or reads a cell that holds no value, also after the
  -- positions have wrapped round.
  pub run-refines :
      (k fuel : ℕ) (cs : List (Call A))
      → 0 < k
      → k < 64
      → run (suc fuel) (new (2 ^ k)) cs ≡ queue_run (2 ^ k) [] cs
  run-refines k fuel cs pos small =
      run_lem fuel (new (2 ^ k)) 0 [] cs pos small (new-Represents A k small)

  -- The loop of `Drop`, from `pos` on: the cells that it drops, none for one that holds no value.
  -- The last entry tells whether the loop came to its end.
  unfoldable pub drop_loop : ℕ → MpscRing A → ℕ → List (Option A) × Bool
  drop_loop zero r pos = ([], pos == r.enqueue_pos)
  drop_loop (suc fuel) r pos =
      let (rest, ended) = drop_loop fuel r (add64 pos 1) in
      if pos == r.enqueue_pos then ([], true) else (
        elim (get_elem? r.slots (slot_index r pos)) [ none ↦ none | some slot ↦ slot.cell ] ∷ rest,
        ended,
      )

  drop_loop_from :
      (k : ℕ) (r : MpscRing A) (d fuel : ℕ) (q : List A)
      → k ≤ 64
      → length r.slots ≡ 2 ^ k
      → r.enqueue_pos ≡ (d + length q) % u64_mod
      → length q < u64_mod
      → ((j : ℕ) (v : A) → get_elem? q j ≡ some v → Holds r (d + j) (d + j + 1) (some v))
      → length q ≤ fuel
      → drop_loop fuel r (d % u64_mod) ≡ (map some q, true)
  unfolding drop_loop
  drop_loop_from k r d zero [] small room e l held enough = rw (e, add-zero, ==_refl) refl
  drop_loop_from k r d (suc fuel) [] small room e l held enough =
      rw (drop_loop, e, add-zero, ==_refl) refl
  drop_loop_from k r d zero (v ∷ q) small room e l held enough = absurd (omega arith)
  drop_loop_from k r d (suc fuel) (v ∷ q) small room e l held enough =
      let next : add64 (d % u64_mod) 1 ≡ (d + 1) % u64_mod = mod-add-mod d u64_mod 1 in
      let more : (d % u64_mod == r.enqueue_pos) ≡ false = rw e (ground (arith, l)) in
      let moved : (j : ℕ) → d + suc j ≡ d + 1 + j = λ j. omega arith in
      let rest =
        drop_loop_from k r (d + 1) fuel q small room (rw (e, moved (length q)) refl)
          (omega (arith, l)) (λ j w h. rw (← moved j) (held (suc j) w h)) (omega (arith, enough)) in
      let at : slot_index r (d % u64_mod) ≡ (d + 0) % length r.slots =
        rw add-zero (index_at {k = k} r d small room) in
      rw (drop_loop, next, rest, more, at, held 0 v refl) refl

  -- Dropping a ring that holds `q` drops each value of `q` once, in order, and no other cell, and
  -- its loop ends after `length q` rounds.
  pub drop_loop-all :
      {k : ℕ} (r : MpscRing A) (d fuel : ℕ) (q : List A)
      → k < 64
      → Represents k r d q
      → length q ≤ fuel
      → drop_loop fuel r r.dequeue_pos ≡ (map some q, true)
  drop_loop-all {k} r d fuel q small w enough =
      ap (drop_loop fuel r) w.dequeue
      ∙ drop_loop_from k r d fuel q (omega arith) w.room w.enqueue
          (omega (arith, word_bound k small, w.fits)) w.held enough
