-- ===== src/Task/Retry.antt =====
-- The retry loop of `AtomicTaskState::transition` (crates/kwokka-runtime/src/task/cell/state.rs)
-- against other threads and the spurious failures of `compare_exchange_weak`.
use kwokka.Base.{
  Bool-cases, inl, inr, ap, ◌∙◌, ◌++◌, Bool, true, false, not, ◌&&◌, ◌||◌, if◌then◌else◌, List, [],
  ◌∷◌, ◌≡◌, arith,
}
use kwokka.Task.{TaskState, is_terminal, same, same_refl}

-- One weak exchange: what the cell holds at that instant, and whether it fails for no reason.
pub record Attempt : Type 0 where
  pub seen : TaskState
  pub spurious : Bool

-- How far the loop has come when the attempts end.
pub data Progress : Type 0 where
  moved : Progress
  observed : TaskState → Progress
  retrying : Progress

-- The loop over the attempts. On a failed exchange it leaves where the observed state is terminal
-- or is not the expected one.
unfoldable pub transition_loop : TaskState → List Attempt → Progress
transition_loop expected [] = retrying
transition_loop expected (a ∷ rest) =
    let again = transition_loop expected rest in
    if same a.seen expected && not a.spurious
    then moved
    else if is_terminal a.seen || not (same a.seen expected)
    then observed a.seen
    else again

-- `transition`; `now` is what `load` reads on the early reject.
unfoldable pub transition_against : TaskState → TaskState → List Attempt → Progress
unfolding transition_loop
transition_against now expected attempts =
    if is_terminal expected then observed now else transition_loop expected attempts

-- The first attempt that is not a spurious failure on the expected state.
abbrev pub Decides : TaskState → Attempt → Type 0
Decides expected a = (same a.seen expected && a.spurious) ≡ false

-- The attempts before the deciding one.
abbrev pub AllSpurious : TaskState → List Attempt → Type 0
AllSpurious expected [] = Unit {0}
AllSpurious expected (a ∷ rest) =
    ((a.seen ≡ expected) × (a.spurious ≡ true)) × AllSpurious expected rest

-- On a terminal expected state `transition` answers the loaded state without an exchange. Otherwise
-- it retries through spurious failures on the expected state and ends at the first other attempt:
-- it moves the cell if that saw the expected state, and answers what it saw if not.
pub transition_against-Decides :
    (now expected : TaskState) (before : List Attempt) (a : Attempt) (rest : List Attempt)
    → AllSpurious expected before
    → Decides expected a
    → transition_against now expected (before ++ a ∷ rest) ≡ (
        if is_terminal expected
        then observed now
        else if same a.seen expected
        then moved
        else observed a.seen)
unfolding transition_against
transition_against-Decides now expected before a rest spurious decides =
    elim (Bool-cases (is_terminal expected)) [ inl t ↦ rw t | inr t ↦ rw t (go t before spurious) ]
  where
    go :
        is_terminal expected ≡ false
        → (xs : List Attempt) → AllSpurious expected xs
        → transition_loop expected (xs ++ a ∷ rest)
          ≡ (if same a.seen expected then moved else observed a.seen)
    go t [] s = ground arith
    go t (x ∷ xs) s = ground (
      arith,
      go t xs s.1,
      ap (λ q. same q expected) s.0.0 ∙ same_refl expected,
      ap is_terminal s.0.0 ∙ t,
    )
