-- ===== src/Task/Graph/Ends.antt =====
-- Who ends a task of crates/kwokka-runtime/src/task/cell/state.rs, when the operations on its cell
-- are called in any order.
use kwokka.Base.{
  ◌&&◌, Bool, true, false, arith, ap, sym, ℕ, ◌+◌, ◌≤◌, if◌then◌else◌, Bool, true, false, arith, ap,
  sym, ℕ, ◌+◌, ◌≤◌, ◌∙◌, if◌then◌else◌, List, [], ◌∷◌, ◌≡◌, inl, inr, refl, Bool-cases,
}
use kwokka.Task.{
  TaskState, sleeping, woken, running, done, cancelled, failed, taken, retired, is_terminal, same,
  same-eq, is_ok, Cell, is_ok, transition, try_retire, try_retire_woken, cancel, compare_exchange,
}
use kwokka.Task.Graph.{
  Call, wakes, starts, completes, suspends, takes, retires, retires_woken, cancels, claims,
  releases, transitions, step, step-Edge, Edge-terminal,
}

-- Whether a call reports that it has ended the task: the output taken, a cancellation, the state
-- retired, or a terminal state otherwise reached.
unfoldable pub ends : Cell → Call → Bool
unfolding transition try_retire try_retire_woken cancel
ends c takes = is_ok (transition c done taken).1
ends c retires = is_ok (try_retire c).1
ends c retires_woken = is_ok (try_retire_woken c).1
ends c cancels = (cancel c).1
ends c wakes = false
ends c starts = false
ends c completes = false
ends c suspends = false
ends c claims = false
ends c releases = false
ends c (transitions expected next) = is_ok (transition c expected next).1 && is_terminal next

unfoldable pub endings : Cell → List Call → ℕ
unfolding step ends
endings c [] = 0
endings c (k ∷ ks) = (if ends c k then 1 else 0) + endings (step c k) ks

exchange-ok :
    (c : Cell) (e n : TaskState)
    → is_ok (compare_exchange c e n).1 ≡ true
    → (compare_exchange c e n).0.state ≡ n
unfolding compare_exchange
exchange-ok c e n h = ground arith

exchange-terminal :
    (c : Cell) (e n : TaskState)
    → is_terminal c.state ≡ true
    → is_terminal e ≡ false
    → is_ok (compare_exchange c e n).1 ≡ false
unfolding compare_exchange
exchange-terminal c e n t f = elim (Bool-cases (same c.state e)) [
  | inl s ↦ ground (arith, sym t ∙ ap is_terminal (same-eq c.state e s) ∙ f)
  | inr s ↦ rw s refl
]

transition-ok :
    (c : Cell) (e n : TaskState)
    → is_ok (transition c e n).1 ≡ true
    → (transition c e n).0.state ≡ n
unfolding transition
transition-ok c e n h = elim (Bool-cases (is_terminal e)) [
  | inl t ↦ let failed = rw t at h in absurd cc
  | inr t ↦ rw t (exchange-ok c e n (rw t at h))
]

transition-terminal :
    (c : Cell) (e n : TaskState) → is_terminal c.state ≡ true → is_ok (transition c e n).1 ≡ false
unfolding transition
transition-terminal c e n t = elim (Bool-cases (is_terminal e)) [
  | inl u ↦ rw u refl
  | inr u ↦ rw u (exchange-terminal c e n t u)
]

both : (a b : Bool) → (a && b) ≡ true → (a ≡ true) × (b ≡ true)
both true b h = (refl, h)
both false b h = absurd cc

ends-is_terminal : (c : Cell) (k : Call) → ends c k ≡ true → is_terminal (step c k).state ≡ true
unfolding ends step cancel
ends-is_terminal c takes h = ap is_terminal (exchange-ok c done taken h)
ends-is_terminal c retires h = ap is_terminal (exchange-ok c sleeping retired h)
ends-is_terminal c retires_woken h = ap is_terminal (exchange-ok c woken retired h)
ends-is_terminal c cancels h = cancelled_state c.state c.claim h
  where
    cancelled_state :
        (s : TaskState) (b : Bool)
        → (cancel (record { state = s; claim = b })).1 ≡ true
        → is_terminal (cancel (record { state = s; claim = b })).0.state ≡ true
    cancelled_state sleeping b h = refl
    cancelled_state woken b h = refl
    cancelled_state running b h = refl
    cancelled_state done b h = ground arith
    cancelled_state cancelled b h = refl
    cancelled_state failed b h = refl
    cancelled_state taken b h = refl
    cancelled_state retired b h = refl
ends-is_terminal c wakes h = ground arith
ends-is_terminal c starts h = ground arith
ends-is_terminal c completes h = ground arith
ends-is_terminal c suspends h = ground arith
ends-is_terminal c claims h = ground arith
ends-is_terminal c releases h = ground arith
ends-is_terminal c (transitions e n) h =
    let (moved, ended) = both (is_ok (transition c e n).1) (is_terminal n) h in
    ap is_terminal (transition-ok c e n moved) ∙ ended

terminal-ends : (c : Cell) (k : Call) → is_terminal c.state ≡ true → ends c k ≡ false
unfolding ends cancel
terminal-ends c takes t = exchange-terminal c done taken t refl
terminal-ends c retires t = exchange-terminal c sleeping retired t refl
terminal-ends c retires_woken t = exchange-terminal c woken retired t refl
terminal-ends c cancels t = refused c.state c.claim t
  where
    refused :
        (s : TaskState) (b : Bool)
        → is_terminal s ≡ true
        → (cancel (record { state = s; claim = b })).1 ≡ false
    refused sleeping b t = ground arith
    refused woken b t = ground arith
    refused running b t = ground arith
    refused done b t = refl
    refused cancelled b t = refl
    refused failed b t = refl
    refused taken b t = refl
    refused retired b t = refl
terminal-ends c wakes t = refl
terminal-ends c starts t = refl
terminal-ends c completes t = refl
terminal-ends c suspends t = refl
terminal-ends c claims t = refl
terminal-ends c releases t = refl
terminal-ends c (transitions e n) t = rw (transition-terminal c e n t) refl

terminal-endings : (c : Cell) (ks : List Call) → is_terminal c.state ≡ true → endings c ks ≡ 0
unfolding endings
terminal-endings c [] t = refl
terminal-endings c (k ∷ ks) t = ground (
  arith,
  terminal-ends c k t,
  terminal-endings (step c k) ks (rw (Edge-terminal (step-Edge c k) t) t),
)

-- In every sequence of calls on a cell, whoever makes them, at most one reports that it has ended
-- the task: one join takes the output, or one caller cancels, or one retires the state, or one `transition`
-- reaches a terminal state.
pub run-ends_once : (c : Cell) (ks : List Call) → endings c ks ≤ 1
unfolding endings
run-ends_once c [] = omega arith
run-ends_once c (k ∷ ks) = elim (Bool-cases (ends c k)) [
  | inl e ↦ ground (arith, e, terminal-endings (step c k) ks (ends-is_terminal c k e))
  | inr e ↦ ground (arith, e, run-ends_once (step c k) ks)
]
