-- ===== src/Task/Graph.antt =====
-- The lifecycle graph of crates/kwokka-runtime/src/task/cell/state.rs: any interleaving of the
-- operations on one cell.
pub mod Ends
use kwokka.Base.{
  Bool, true, false, arith, ap, sym, ℕ, ◌+◌, ◌≤◌, ◌∙◌, if◌then◌else◌, List, [], ◌∷◌, ◌≡◌, inl, inr,
  refl, Bool-cases,
}
use kwokka.Task.{
  TaskState, sleeping, woken, running, done, cancelled, failed, taken, retired, is_terminal, same,
  same-eq, Cell, is_ok, transition, wake, try_start_poll, complete, suspend, try_retire,
  try_retire_woken, cancel, compare_exchange, try_claim, release_claim,
}

-- The calls on a cell: `transitions` is the public `transition` with its two arguments, and `takes`
-- the one of `TaskSlot::take_output`.
pub data Call : Type 0 where
  wakes starts completes suspends takes retires retires_woken cancels claims releases : Call
  transitions : TaskState → TaskState → Call

unfoldable pub step : Cell → Call → Cell
unfolding wake try_start_poll complete suspend transition try_retire try_retire_woken cancel
    try_claim release_claim
step c wakes = (wake c).0
step c starts = (try_start_poll c).0
step c completes = (complete c).0
step c suspends = (suspend c).0
step c takes = (transition c done taken).0
step c retires = (try_retire c).0
step c retires_woken = (try_retire_woken c).0
step c cancels = (cancel c).0
step c claims = (try_claim c).0
step c releases = release_claim c
step c (transitions expected next) = (transition c expected next).0

unfoldable pub run : Cell → List Call → Cell
run c [] = c
run c (k ∷ ks) = run (step c k) ks

-- The moves that each call can make.
pub data Edge : Call → TaskState → TaskState → Type 0 where
  stay : {k : Call} → {s : TaskState} → Edge k s s
  to_woken : Edge wakes sleeping woken
  to_running : Edge starts woken running
  to_done : Edge completes running done
  to_sleeping : Edge suspends running sleeping
  to_taken : Edge takes done taken
  sleeping_retires : Edge retires sleeping retired
  woken_retires : Edge retires_woken woken retired
  sleeping_cancelled : Edge cancels sleeping cancelled
  woken_cancelled : Edge cancels woken cancelled
  running_cancelled : Edge cancels running cancelled
  as_asked : (e n : TaskState) → is_terminal e ≡ false → Edge (transitions e n) e n

exchange-Edge :
    (c : Cell) (k : Call) (e n : TaskState)
    → Edge k e n
    → Edge k c.state (compare_exchange c e n).0.state
unfolding compare_exchange
exchange-Edge c k e n edge = elim (Bool-cases (same c.state e)) [
  | inl t ↦ rw (t, same-eq c.state e t) edge
  | inr t ↦ rw t stay
]

transition-Edge :
    (c : Cell) (k : Call) (e n : TaskState)
    → (is_terminal e ≡ false → Edge k e n)
    → Edge k c.state (transition c e n).0.state
unfolding transition
transition-Edge c k e n edge = elim (Bool-cases (is_terminal e)) [
  | inl t ↦ rw t stay
  | inr t ↦ rw t (exchange-Edge c k e n (edge t))
]

cancel-Edge :
    (s : TaskState) (b : Bool) → Edge cancels s (cancel (record { state = s; claim = b })).0.state
unfolding cancel
cancel-Edge sleeping b =
    transition-Edge (record { state = sleeping; claim = b }) cancels sleeping cancelled
      (λ f. sleeping_cancelled)
cancel-Edge woken b =
    transition-Edge (record { state = woken; claim = b }) cancels woken cancelled
      (λ f. woken_cancelled)
cancel-Edge running b =
    transition-Edge (record { state = running; claim = b }) cancels running cancelled
      (λ f. running_cancelled)
cancel-Edge done b = stay
cancel-Edge cancelled b = stay
cancel-Edge failed b = stay
cancel-Edge taken b = stay
cancel-Edge retired b = stay

-- Every call leaves the state as it is or makes the move of its name: only `wake` wakes, only
-- `try_start_poll` starts, and so on, and `transition` makes the move asked for, from a state that is
-- not terminal.
pub step-Edge : (c : Cell) (k : Call) → Edge k c.state (step c k).state
unfolding step
step-Edge c wakes = transition-Edge c wakes sleeping woken (λ f. to_woken)
step-Edge c starts = transition-Edge c starts woken running (λ f. to_running)
step-Edge c completes = transition-Edge c completes running done (λ f. to_done)
step-Edge c suspends = transition-Edge c suspends running sleeping (λ f. to_sleeping)
step-Edge c takes = transition-Edge c takes done taken (λ f. to_taken)
step-Edge c retires = exchange-Edge c retires sleeping retired sleeping_retires
step-Edge c retires_woken = exchange-Edge c retires_woken woken retired woken_retires
step-Edge c cancels = cancel-Edge c.state c.claim
step-Edge c claims = elim (Bool-cases c.claim) [ inl t ↦ rw t stay | inr t ↦ rw t stay ]
step-Edge c releases = stay
step-Edge c (transitions e n) = transition-Edge c (transitions e n) e n (as_asked e n)

pub Edge-terminal : {k : Call} {s t : TaskState} → Edge k s t → is_terminal s ≡ true → t ≡ s
Edge-terminal stay h = refl
Edge-terminal to_woken h = ground arith
Edge-terminal to_running h = ground arith
Edge-terminal to_done h = ground arith
Edge-terminal to_sleeping h = ground arith
Edge-terminal to_taken h = ground arith
Edge-terminal sleeping_retires h = ground arith
Edge-terminal woken_retires h = ground arith
Edge-terminal sleeping_cancelled h = ground arith
Edge-terminal woken_cancelled h = ground arith
Edge-terminal running_cancelled h = ground arith
Edge-terminal (as_asked e n f) h = cc

-- A terminal state is never left, whatever calls follow, `transition` with any arguments among them.
pub run-terminal :
    (c : Cell) (ks : List Call) → is_terminal c.state ≡ true → (run c ks).state ≡ c.state
unfolding run
run-terminal c [] h = refl
run-terminal c (k ∷ ks) h =
    run-terminal (step c k) ks (rw (Edge-terminal (step-Edge c k) h) h)
    ∙ Edge-terminal (step-Edge c k) h
