-- ===== src/Mpsc/Threads/Safe.antt =====
-- Every interleaving of producers and the consumer on the ring of
-- crates/kwokka-runtime/src/sync/mpsc.rs.
use kwokka.Base.{
  ℕ, zero, suc, ◌+◌, ◌^◌, ◌<◌, ◌≤◌, ◌≡◌, inl, inr, refl, sym, ap, ◌∙◌, false, some, List, [], ◌∷◌,
  ◌++◌, length, get_elem?, take, drop, length-append, length-drop, arith, u64_mod, Option-cases,
}
use native.Mathlib.Nat.{zero-add}
use kwokka.Mpsc.{new}
use kwokka.Mpsc.Window.{Represents}
use kwokka.Mpsc.Retire.{new-Represents}
use kwokka.Mpsc.Threads.{
  Producer, idle, starting, loaded, observed, owning, refused, System, Action, calls, moves, slips,
  consumes, start, idle_all, look, branch, claim, fill, advance, slip, call, receive, step, run,
}
use kwokka.Mpsc.Threads.Invariant.{position, head, tail, IsSafe, put-IsSafe}
use kwokka.Mpsc.Threads.Look.{look-IsSafe}
use kwokka.Mpsc.Threads.Claim.{claim-IsSafe}
use kwokka.Mpsc.Threads.Fill.{fill-IsSafe}
use kwokka.Mpsc.Threads.Consume.{receive-IsSafe}

module _ {ℓ} {A : Type ℓ} where
  advance-IsSafe :
      {k : ℕ} (s : System A) (i : ℕ) (x : Producer A)
      → 0 < k
      → k < 64
      → suc (length s.claimed) < u64_mod
      → IsSafe k s
      → get_elem? s.producers i ≡ some x
      → IsSafe k (advance s i x)
  unfolding advance
  advance-IsSafe s i idle first small budget w h = w
  advance-IsSafe {k} s i (starting v) first small budget w h =
      put-IsSafe s i _ (loaded (tail s) v) w h refl refl (omega arith)
  advance-IsSafe s i (loaded pos v) first small budget w h = look-IsSafe s i pos v first small w h
  advance-IsSafe s i (observed pos v) first small budget w h =
      claim-IsSafe s i pos v small budget w h
  advance-IsSafe s i (owning b pos v) first small budget w h = fill-IsSafe s i pos b v small w h
  advance-IsSafe s i (refused v) first small budget w h = w

  call-IsSafe :
      {k : ℕ} (s : System A) (i : ℕ) (v : A) (x : Producer A)
      → IsSafe k s
      → get_elem? s.producers i ≡ some x
      → IsSafe k (call s i v x)
  unfolding call
  call-IsSafe s i v idle w h = put-IsSafe s i _ (starting v) w h refl refl tt
  call-IsSafe s i v (refused x) w h = put-IsSafe s i _ (starting v) w h refl refl tt
  call-IsSafe s i v (starting x) w h = w
  call-IsSafe s i v (loaded pos x) w h = w
  call-IsSafe s i v (observed pos x) w h = w
  call-IsSafe s i v (owning b pos x) w h = w

  slip-IsSafe :
      {k : ℕ} (s : System A) (i : ℕ) (x : Producer A)
      → IsSafe k s
      → get_elem? s.producers i ≡ some x
      → IsSafe k (slip s i x)
  unfolding slip
  slip-IsSafe s i (observed pos v) w h =
      put-IsSafe s i _ (loaded (tail s) v) w h refl refl (omega arith)
  slip-IsSafe s i idle w h = w
  slip-IsSafe s i (starting v) w h = w
  slip-IsSafe s i (loaded pos v) w h = w
  slip-IsSafe s i (owning b pos v) w h = w
  slip-IsSafe s i (refused v) w h = w

  -- Every step of a thread on a ring of `2 ^ k` slots, `k` from 1 to 63, keeps it safe, as long as
  -- fewer than `2 ^ 64` pushes have won a position: the window of claimed positions fits the ring,
  -- each claimed position is published or owned by exactly one producer, free slots hold no
  -- value, and no access is out of range or to a cell without a value.
  pub step-IsSafe :
      {k : ℕ} (s : System A) (a : Action A)
      → 0 < k
      → k < 64
      → suc (length s.claimed) < u64_mod
      → IsSafe k s
      → IsSafe k (step s a)
  unfolding step
  step-IsSafe s (calls i v) first small budget w = elim (Option-cases (get_elem? s.producers i)) [
    | inl e ↦ rw (step, e) w
    | inr (x, e) ↦ rw (step, e) (call-IsSafe s i v x w e)
  ]
  step-IsSafe s (moves i) first small budget w = elim (Option-cases (get_elem? s.producers i)) [
    | inl e ↦ rw (step, e) w
    | inr (x, e) ↦ rw (step, e) (advance-IsSafe s i x first small budget w e)
  ]
  step-IsSafe s (slips i) first small budget w = elim (Option-cases (get_elem? s.producers i)) [
    | inl e ↦ rw (step, e) w
    | inr (x, e) ↦ rw (step, e) (slip-IsSafe s i x w e)
  ]
  step-IsSafe s consumes first small budget w = receive-IsSafe s small w

  length-advance :
      (s : System A) (i : ℕ) (x : Producer A)
      → length (advance s i x).claimed ≤ suc (length s.claimed)
  unfolding advance look branch claim fill
  length-advance s i idle = omega arith
  length-advance s i (starting v) = omega arith
  length-advance s i (loaded pos v) = ground arith
  length-advance s i (observed pos v) = ground (arith, length-append s.claimed (v ∷ []))
  length-advance s i (owning b pos v) = ground arith
  length-advance s i (refused v) = omega arith

  length-step : (s : System A) (a : Action A) → length (step s a).claimed ≤ suc (length s.claimed)
  unfolding step call slip receive
  length-step s (calls i v) = ground arith
  length-step s (moves i) = elim (Option-cases (get_elem? s.producers i)) [
    | inl e ↦ rw (step, e) (omega arith)
    | inr (x, e) ↦ rw (step, e) (length-advance s i x)
  ]
  length-step s (slips i) = ground arith
  length-step s consumes = ground arith

  idle_all-idle : (n i : ℕ) {x : Producer A} → get_elem? (idle_all n) i ≡ some x → x ≡ idle
  unfolding idle_all
  idle_all-idle zero i h = cc
  idle_all-idle (suc n) zero h = cc
  idle_all-idle (suc n) (suc i) h = idle_all-idle n i h

  pub start-IsSafe : (k threads : ℕ) → k < 64 → IsSafe k (start {A = A} (2 ^ k) threads)
  unfolding start new
  start-IsSafe k threads small =
      let w : Represents k (new {A = A} (2 ^ k)) 0 [] = new-Represents A k small in
      let none_yet : (i : ℕ) (x : Producer A) → get_elem? (idle_all threads) i ≡ some x → x ≡ idle =
        λ i x h. idle_all-idle threads i h in
      record {
        room = w.room;
        ordered = omega arith;
        window = omega arith;
        log = refl;
        word = omega arith;
        free = λ p l u. rw (zero-add) at (w.free p l (omega arith));
        filled = λ p l u. absurd (omega arith);
        fit = λ i x h. rw (none_yet i x h) tt;
        owned = λ i p b v h. let same : owning b p v ≡ idle = none_yet i _ h in absurd cc;
        alone = λ i j p x y g h e f.
            let none_owned = ap position (sym (none_yet i x g)) ∙ e in absurd cc;
        order = refl;
        sound = refl;
      }

  pub run-IsSafe :
      {k : ℕ} (s : System A) (actions : List (Action A))
      → 0 < k
      → k < 64
      → length s.claimed + length actions < u64_mod
      → IsSafe k s
      → IsSafe k (run s actions)
  unfolding run
  run-IsSafe s [] first small budget w = w
  run-IsSafe s (a ∷ rest) first small budget w =
      run-IsSafe (step s a) rest first small (omega (arith, length-step s a))
        (step-IsSafe s a first small (omega arith) w)

  take-drop : (n : ℕ) (xs : List A) → take n xs ++ drop n xs ≡ xs
  take-drop zero xs = refl
  take-drop (suc n) [] = refl
  take-drop (suc n) (x ∷ xs) = ap (λ t. x ∷ t) (take-drop n xs)

  -- However the pushes of any number of threads and the pops interleave on a new ring of `2 ^ k`
  -- slots, for `k` from 1 to 63 and fewer than `2 ^ 64` steps: no access goes wrong, and the values
  -- popped so far, in their order, followed by at most `2 ^ k` others, are the values of the pushes
  -- that won a position, in the order in which they won it. So none is lost, doubled or reordered.
  pub run_fifo :
      (k threads : ℕ) (actions : List (Action A))
      → 0 < k
      → k < 64
      → length actions < u64_mod
      → (let s = run (start (2 ^ k) threads) actions in
          (s.faulted ≡ false)
          × ((rest : List A) × (s.claimed ≡ s.taken ++ rest) × (length rest ≤ 2 ^ k)))
  unfolding start
  run_fifo k threads actions first small budget =
      let s = run (start (2 ^ k) threads) actions in
      let w : IsSafe k s =
        run-IsSafe (start (2 ^ k) threads) actions first small (omega arith)
          (start-IsSafe k threads small) in
      (
        w.sound,
        (
          drop (head s) s.claimed,
          rw w.order (sym (take-drop (head s) s.claimed)),
          omega (arith, length-drop (head s) s.claimed, w.log, w.window),
        ),
      )
