-- ===== src/Mpsc/Tests.antt =====
-- Runs of crates/kwokka-runtime/src/sync/mpsc.rs on a ring of two slots, and of one.
use kwokka.Base.{ℕ, ◌^◌, ◌≡◌, refl, false, List, [], ◌∷◌, arith}
use kwokka.Mpsc.{
  MpscRing, new, seed, publish, push_loop, push, pop, consume, pushed, popped, empty, rejected,
  size, is_empty,
}
use kwokka.Mpsc.Enqueue.{enqueued}
use kwokka.Mpsc.Refine.{Call, Answer, pushes, pops, measures, put, took, measured, run, queue_run}
use kwokka.Mpsc.Retire.{run-refines}

abbrev calls : List (Call ℕ)
calls = pushes 5 ∷ pushes 6 ∷ pushes 7 ∷ pops ∷ measures ∷ pushes 8 ∷ pops ∷ pops ∷ pops ∷ []

abbrev answers : List (Answer ℕ)
answers =
    put pushed
    ∷ put pushed
    ∷ put (rejected 7)
    ∷ took (popped 5)
    ∷ measured 1
    ∷ put pushed
    ∷ took (popped 6)
    ∷ took (popped 8)
    ∷ took empty
    ∷ []

run_two : run 1 (new 2) calls ≡ answers
unfolding run new seed push push_loop publish pop consume size
run_two = refl

run-refines_example : run 1 (new (2 ^ 1)) calls ≡ queue_run (2 ^ 1) [] calls
run-refines_example = run-refines 1 0 calls (omega arith) (omega arith)

-- A ring of one slot overwrites: its second push succeeds, and the first value is gone.
run_one :
    run {A = ℕ} 1 (new 1) (pushes 5 ∷ pushes 6 ∷ pops ∷ [])
    ≡ put pushed ∷ put pushed ∷ took (popped 6) ∷ []
unfolding run new seed push push_loop publish pop consume
run_one = refl

abbrev one_held : MpscRing ℕ
one_held = enqueued (new 2) 5

is_empty_held : is_empty one_held ≡ false
unfolding is_empty size publish new seed
is_empty_held = refl
