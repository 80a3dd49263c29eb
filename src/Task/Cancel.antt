-- ===== src/Task/Cancel.antt =====
-- The loop of `AtomicTaskState::cancel` (crates/kwokka-runtime/src/task/cell/state.rs) against the
-- calls that other threads make on the cell between its accesses.
pub mod Returns
use kwokka.Base.{
  ℕ, zero, suc, ◌+◌, ◌*◌, ◌≤◌, ◌≡◌, ◌⊎◌, inl, inr, refl, sym, ap, ◌∙◌, Bool, true, false, not, ◌&&◌,
  ◌||◌, if◌then◌else◌, Option, none, some, List, [], ◌∷◌, ◌++◌, length, arith, Bool-cases,
}
use mathlib.Core.Path.{subst}
use kwokka.Task.{
  TaskState, sleeping, woken, running, done, cancelled, failed, taken, retired, is_terminal, same,
  same-eq, same_refl, Cell,
}
use kwokka.Task.Graph.{
  Call, cancels, Edge, sleeping_cancelled, woken_cancelled, running_cancelled, run,
}
use kwokka.Task.Retry.{
  Attempt, Progress, moved, observed, retrying, transition_loop, transition_against,
  transition_against-Decides,
}

-- One access of `cancel` to the cell: the calls of others since the one before, and whether an
-- exchange fails for no reason.
pub record Turn : Type 0 where
  pub calls : List Call
  pub spurious : Bool

-- What the next access is: the load of a round, or an exchange of its `transition` on the state
-- loaded.
pub data Phase : Type 0 where
  loading : Phase
  exchanging : TaskState → Phase

-- `cancel` acts on these states; on the others it answers `false`.
abbrev pub is_live : TaskState → Bool
is_live sleeping = true
is_live woken = true
is_live running = true
is_live done = false
is_live cancelled = false
is_live failed = false
is_live taken = false
is_live retired = false

-- `cancel` from its next access on, with the cell that it leaves; `none` where the accesses end
-- before it returns.
unfoldable pub cancel_run : Phase → Cell → List Turn → Option (Cell × Bool)
cancel_run loading c [] = none
cancel_run (exchanging e) c [] = none
cancel_run loading c (t ∷ ts) =
    let d = run c t.calls in
    let exchanged = cancel_run (exchanging d.state) d ts in
    if is_live d.state then exchanged else some (d, false)
cancel_run (exchanging e) c (t ∷ ts) =
    let d = run c t.calls in
    let attempt : Attempt = record { seen = d.state; spurious = t.spurious } in
    elim (transition_against e e (attempt ∷ [])) [
      | moved ↦ some (record d { state = cancelled }, true)
      | observed s ↦ cancel_run loading d ts
      | retrying ↦ cancel_run (exchanging e) d ts
    ]

-- The accesses that something disturbs: a call of another thread, or a spurious failure.
abbrev pub disturbs : Turn → ℕ
disturbs t = elim t.calls [ [] ↦ (if t.spurious then 1 else 0) | k ∷ ks ↦ 1 ]

abbrev pub disturbances : List Turn → ℕ
disturbances [] = 0
disturbances (t ∷ ts) = disturbs t + disturbances ts

-- The calls of others before the first `n` accesses.
abbrev pub called : ℕ → List Turn → List Call
called zero ts = []
called (suc n) [] = []
called (suc n) (t ∷ ts) = t.calls ++ called n ts

-- From the cell `before`: `true` has moved it from a state that `cancel` acts on, and `false` has
-- left it in one that it does not.
abbrev pub Answers : Cell → Cell → Bool → Type 0
Answers before d b =
    ((b ≡ true)
      × (is_terminal before.state ≡ false)
      × Edge cancels before.state cancelled
      × (d ≡ record before { state = cancelled }))
    ⊎ ((b ≡ false) × (d ≡ before) × ((d.state ≡ done) ⊎ (is_terminal d.state ≡ true)))

pub live-terminal : (e : TaskState) → is_live e ≡ true → is_terminal e ≡ false
live-terminal sleeping h = refl
live-terminal woken h = refl
live-terminal running h = refl
live-terminal done h = absurd cc
live-terminal cancelled h = absurd cc
live-terminal failed h = absurd cc
live-terminal taken h = absurd cc
live-terminal retired h = absurd cc

-- What an exchange comes to: the move, a spurious failure on the expected state, or another state.
attempt_cases :
    (e seen : TaskState) (spurious : Bool)
    → is_live e ≡ true
    → let p = transition_against e e (record { seen = seen; spurious = spurious } ∷ []) in
      ((seen ≡ e) × (p ≡ moved))
      ⊎ (((p ≡ retrying) × (seen ≡ e) × (spurious ≡ true))
          ⊎ ((same seen e ≡ false) × (p ≡ observed seen)))
unfolding transition_against transition_loop
attempt_cases e seen spurious live =
    let alive = live-terminal e live in
    elim (Bool-cases (same seen e)) [
      | inr f ↦ inr (
          inr (
            f,
            transition_against-Decides e e [] (record { seen = seen; spurious = spurious }) [] tt
                  (rw f refl)
                ∙ rw (alive, f) refl,
          ))
      | inl t ↦
          let here : seen ≡ e = same-eq seen e t in
          elim (Bool-cases spurious) [
            | inr g ↦ inl (here, rw (alive, t, g) refl)
            | inl g ↦ inr (inl (rw (alive, t, g, here, alive) refl, here, g))
          ]
    ]

pub live-Edge : (e : TaskState) → is_live e ≡ true → Edge cancels e cancelled
live-Edge sleeping h = sleeping_cancelled
live-Edge woken h = woken_cancelled
live-Edge running h = running_cancelled
live-Edge done h = absurd cc
live-Edge cancelled h = absurd cc
live-Edge failed h = absurd cc
live-Edge taken h = absurd cc
live-Edge retired h = absurd cc

pub dead_ends : (e : TaskState) → is_live e ≡ false → (e ≡ done) ⊎ (is_terminal e ≡ true)
dead_ends sleeping h = absurd cc
dead_ends woken h = absurd cc
dead_ends running h = absurd cc
dead_ends done h = inl refl
dead_ends cancelled h = inr refl
dead_ends failed h = inr refl
dead_ends taken h = inr refl
dead_ends retired h = inr refl
