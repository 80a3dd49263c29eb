-- ===== src/Mpsc/Threads/Tests.antt =====
-- Two producers and the consumer of crates/kwokka-runtime/src/sync/mpsc.rs on a ring of two slots.
use kwokka.Base.{ℕ, ◌^◌, ◌≡◌, ◌≤◌, ◌++◌, refl, false, List, [], ◌∷◌, length, arith}
use kwokka.Mpsc.{new, seed, pop, consume}
use kwokka.Mpsc.Threads.{
  Action, calls, moves, slips, consumes, start, idle_all, look, branch, claim, fill, advance, slip,
  call, receive, step, run,
}
use kwokka.Mpsc.Threads.Invariant.{IsSafe}
use kwokka.Mpsc.Threads.Safe.{step-IsSafe, run-IsSafe, start-IsSafe, run_fifo}

-- Both producers see the first slot free. The second wins it, the first loses its exchange and takes
-- the next one, which it publishes before the other.
abbrev race : List (Action ℕ)
race =
    calls 0 5
    ∷ calls 1 6
    ∷ moves 0
    ∷ moves 1
    ∷ moves 0
    ∷ moves 1
    ∷ moves 1
    ∷ moves 0
    ∷ moves 0
    ∷ slips 0
    ∷ moves 0
    ∷ moves 0
    ∷ moves 0
    ∷ moves 0
    ∷ consumes
    ∷ moves 1
    ∷ moves 1
    ∷ consumes
    ∷ []

race_order :
    let s = run (start 2 2) race in
    (s.claimed ≡ 6 ∷ 5 ∷ []) × (s.taken ≡ 6 ∷ []) × (s.faulted ≡ false)
unfolding run step start idle_all new seed advance call slip look branch claim fill receive pop
    consume
race_order = (refl, refl, refl)

run_fifo_example :
    let s = run (start (2 ^ 1) 2) race in
    (s.faulted ≡ false) × ((rest : List ℕ) × (s.claimed ≡ s.taken ++ rest) × (length rest ≤ 2 ^ 1))
run_fifo_example = run_fifo 1 2 race (omega arith) (omega arith) (omega arith)

-- A producer about to exchange, and its exchange.
abbrev ready : List (Action ℕ)
ready = calls 0 5 ∷ moves 0 ∷ moves 0 ∷ []

step-IsSafe_example : IsSafe 1 (step (run (start (2 ^ 1) 2) ready) (moves 0))
unfolding run step start idle_all new seed advance call slip look branch
step-IsSafe_example =
    step-IsSafe {k = 1} (run (start (2 ^ 1) 2) ready) (moves 0) (omega arith) (omega arith)
      (omega arith)
      (run-IsSafe {k = 1} (start (2 ^ 1) 2) ready (omega arith) (omega arith) (omega arith)
        (start-IsSafe 1 2 (omega arith)))
