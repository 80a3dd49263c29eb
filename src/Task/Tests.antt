-- ===== src/Task/Tests.antt =====
-- The theorems about crates/kwokka-runtime/src/task/cell at runs.
use kwokka.Base.{
  ℕ, arith, Bool, List, ◌≤◌, ◌≡◌, refl, true, false, some, [], ◌∷◌, ◌++◌, if◌then◌else◌,
}
use kwokka.Task.{
  sleeping, woken, running, cancelled, taken, Cell, is_terminal, same, new, wake, try_start_poll,
  transition,
}
use kwokka.Task.Cancel.{Turn, loading, cancel_run, called, Answers}
use kwokka.Task.Cancel.Returns.{cancel_run-returns}
use kwokka.Task.Retry.{Attempt, moved, observed, transition_against, transition_against-Decides}
use kwokka.Task.Graph.{
  wakes, starts, completes, takes, cancels, transitions, step, run, Edge, step-Edge, run-terminal,
}
use kwokka.Task.Graph.Ends.{endings, run-ends_once}
use kwokka.Task.Poll.{Slot}

-- A spurious failure, then the exchange that finds the expected state.
abbrev spurious_one : Attempt
spurious_one = record { seen = woken; spurious = true }

abbrev clean_one : Attempt
clean_one = record { seen = woken; spurious = false }

transition_against-Decides_example :
    transition_against woken woken ((spurious_one ∷ []) ++ clean_one ∷ []) ≡ (
      if is_terminal woken
      then observed woken
      else if same woken woken
      then moved
      else observed woken)
transition_against-Decides_example =
    transition_against-Decides woken woken (spurious_one ∷ []) clean_one [] ((refl, refl), tt) refl

-- A poll starts between the load and the exchange, so that a second round cancels.
abbrev turns : List Turn
turns =
    record { calls = wakes ∷ []; spurious = false }
    ∷ record { calls = starts ∷ []; spurious = false }
    ∷ record { calls = []; spurious = false }
    ∷ record { calls = []; spurious = true }
    ∷ record { calls = []; spurious = false }
    ∷ record { calls = []; spurious = false }
    ∷ record { calls = []; spurious = false }
    ∷ record { calls = []; spurious = false }
    ∷ []

cancel_second_round :
    cancel_run loading new turns ≡ some (record { state = cancelled; claim = false }, true)
unfolding cancel_run transition_against run step wake try_start_poll transition
cancel_second_round = refl

cancel_run-returns_example :
    (d : Cell) × (b : Bool) × (n : ℕ) × (cancel_run loading new turns ≡ some (d, b))
    × Answers (run new (called n turns)) d b
cancel_run-returns_example = cancel_run-returns new turns (omega arith)

step-Edge_example :
    Edge (transitions sleeping running) sleeping (step new (transitions sleeping running)).state
step-Edge_example = step-Edge new (transitions sleeping running)

abbrev taken_cell : Cell
taken_cell = record { state = taken; claim = true }

run-terminal_example :
    (run taken_cell (wakes ∷ cancels ∷ transitions taken sleeping ∷ [])).state ≡ taken
run-terminal_example =
    run-terminal taken_cell (wakes ∷ cancels ∷ transitions taken sleeping ∷ []) refl

run-ends_once_example : endings new (wakes ∷ starts ∷ completes ∷ cancels ∷ takes ∷ takes ∷ []) ≤ 1
run-ends_once_example =
    run-ends_once new (wakes ∷ starts ∷ completes ∷ cancels ∷ takes ∷ takes ∷ [])

abbrev woken_slot : Slot
woken_slot = record { cell = record { state = woken; claim = false }; has_polled = false }
