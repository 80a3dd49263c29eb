-- ===== src/Task/Cancel/Returns.antt =====
-- `cancel` of crates/kwokka-runtime/src/task/cell/state.rs returns, whoever interferes.
use kwokka.Base.{
  ℕ, suc, sym, ◌+◌, ◌*◌, ◌≤◌, ◌≡◌, ◌⊎◌, inl, inr, refl, ap, ◌∙◌, Bool, true, false, some, List, [],
  ◌∷◌, ◌++◌, length, arith, Bool-cases, if◌then◌else◌,
}
use mathlib.Core.Path.{subst}
use kwokka.Task.{TaskState, cancelled, is_terminal, same, same_refl, Cell}
use kwokka.Task.Graph.{Call, cancels, Edge, step, run}
use kwokka.Task.Retry.{moved, observed, retrying, transition_against}
use kwokka.Task.Cancel.{
  Turn, Phase, loading, exchanging, is_live, cancel_run, disturbs, disturbances, Answers,
  attempt_cases, called, live-terminal, live-Edge, dead_ends,
}

abbrev Returns : Phase → Cell → List Turn → Type 0
Returns p c ts =
    (d : Cell) × (b : Bool) × (n : ℕ) × (cancel_run p c ts ≡ some (d, b))
    × Answers (run c (called n ts)) d b

run-append : (c : Cell) (xs ys : List Call) → run c (xs ++ ys) ≡ run (run c xs) ys
unfolding run
run-append c [] ys = refl
run-append c (x ∷ xs) ys = run-append (step c x) xs ys

run_none : (c : Cell) (xs : List Call) → run c (xs ++ []) ≡ run c xs
unfolding run
run_none c xs = run-append c xs []

-- An exchange is on the state that the cell had at the access before.
abbrev Ready : Phase → Cell → Type 0
Ready loading c = Unit
Ready (exchanging e) c = (is_live e ≡ true) × (c.state ≡ e)

abbrev accesses : Phase → ℕ
accesses loading = 2
accesses (exchanging e) = 1

turn_cases : (t : Turn) → (disturbs t ≡ 1) ⊎ ((t.calls ≡ []) × (t.spurious ≡ false))
turn_cases t = cases t.calls t.spurious
  where
    cases :
        (ks : List Call) (b : Bool)
        → ((elim ks as (λ x. ℕ) [ [] ↦ (if b then 1 else 0) | k ∷ rest ↦ 1 ]) ≡ 1)
          ⊎ ((ks ≡ []) × (b ≡ false))
    cases [] true = inl refl
    cases [] false = inr (refl, refl)
    cases (k ∷ ks) b = inl refl

disturbs-le : (t : Turn) → disturbs t ≤ 1
disturbs-le t = le t.calls t.spurious
  where
    le :
        (ks : List Call) (b : Bool)
        → (elim ks as (λ x. ℕ) [ [] ↦ (if b then 1 else 0) | k ∷ rest ↦ 1 ]) ≤ 1
    le [] true = omega arith
    le [] false = omega arith
    le (k ∷ ks) b = omega arith

-- Without calls in between a cell keeps its state.
quiet_state : (c : Cell) (t : Turn) → t.calls ≡ [] → (run c t.calls).state ≡ c.state
unfolding run
quiet_state c t e = ap (λ ks. (run c ks).state) e

load_live :
    (c : Cell) (t : Turn) (ts : List Turn)
    → is_live (run c t.calls).state ≡ true
    → cancel_run loading c (t ∷ ts)
      ≡ cancel_run (exchanging (run c t.calls).state) (run c t.calls) ts
unfolding cancel_run
load_live c t ts h = rw h refl

load_dead :
    (c : Cell) (t : Turn) (ts : List Turn)
    → is_live (run c t.calls).state ≡ false
    → cancel_run loading c (t ∷ ts) ≡ some (run c t.calls, false)
unfolding cancel_run
load_dead c t ts h = rw h refl

exchange_moved :
    (c : Cell) (e : TaskState) (t : Turn) (ts : List Turn)
    → transition_against e e (record { seen = (run c t.calls).state; spurious = t.spurious } ∷ [])
      ≡ moved
    → cancel_run (exchanging e) c (t ∷ ts)
      ≡ some (record (run c t.calls) { state = cancelled }, true)
unfolding cancel_run
exchange_moved c e t ts m = rw (cancel_run, m) refl

exchange_retries :
    (c : Cell) (e : TaskState) (t : Turn) (ts : List Turn)
    → transition_against e e (record { seen = (run c t.calls).state; spurious = t.spurious } ∷ [])
      ≡ retrying
    → cancel_run (exchanging e) c (t ∷ ts) ≡ cancel_run (exchanging e) (run c t.calls) ts
unfolding cancel_run
exchange_retries c e t ts m = rw (cancel_run, m) refl

exchange_observes :
    (c : Cell) (e s : TaskState) (t : Turn) (ts : List Turn)
    → transition_against e e (record { seen = (run c t.calls).state; spurious = t.spurious } ∷ [])
      ≡ observed s
    → cancel_run (exchanging e) c (t ∷ ts) ≡ cancel_run loading (run c t.calls) ts
unfolding cancel_run
exchange_observes c e s t ts m = rw (cancel_run, m) refl

Answers-later :
    (c : Cell) (t : Turn) (n : ℕ) (ts : List Turn) (r : Cell) (b : Bool)
    → Answers (run (run c t.calls) (called n ts)) r b
    → Answers (run c (called (suc n) (t ∷ ts))) r b
Answers-later c t n ts r b answers =
    subst (λ x. Answers x r b) (sym (run-append c t.calls (called n ts))) answers

cancel_run-Returns :
    (p : Phase) (c : Cell) (ts : List Turn)
    → Ready p c
    → 2 * disturbances ts + accesses p ≤ length ts
    → Returns p c ts
cancel_run-Returns loading c [] ready enough = absurd (omega (arith, enough))
cancel_run-Returns (exchanging e) c [] ready enough = absurd (omega (arith, enough))
cancel_run-Returns loading c (t ∷ ts) ready enough =
    let d = run c t.calls in
    let first = run_none c t.calls in
    elim (Bool-cases (is_live d.state)) [
      | inr f ↦ (d, false, 1, load_dead c t ts f, inr (refl, sym first, dead_ends d.state f))
      | inl h ↦
          let (r, b, n, e, answers) =
            cancel_run-Returns (exchanging d.state) d ts (h, refl) (omega (arith, enough)) in
          (r, b, suc n, load_live c t ts h ∙ e, Answers-later c t n ts r b answers)
    ]
cancel_run-Returns (exchanging e) c (t ∷ ts) (live, here) enough =
    let d = run c t.calls in
    elim (attempt_cases e d.state t.spurious live) [
      | inl (seen, m) ↦
          let moves : Answers d (record d { state = cancelled }) true = inl (
            refl,
            ap is_terminal seen ∙ live-terminal e live,
            subst (λ s. Edge cancels s cancelled) (sym seen) (live-Edge e live),
            refl,
          ) in
          (
            record d { state = cancelled },
            true,
            1,
            exchange_moved c e t ts m,
            subst (λ x. Answers x (record d { state = cancelled }) true) (sym (run_none c t.calls))
                moves,
          )
      | inr (inl (m, seen, spurious)) ↦
          let one : disturbs t ≡ 1 = elim (turn_cases t) [
            | inl k ↦ k
            | inr (quiet, k) ↦ absurd cc
          ] in
          let (r, b, n, f, answers) =
            cancel_run-Returns (exchanging e) d ts (live, seen) (omega (arith, enough, one)) in
          (r, b, suc n, exchange_retries c e t ts m ∙ f, Answers-later c t n ts r b answers)
      | inr (inr (other, m)) ↦
          let one : disturbs t ≡ 1 = elim (turn_cases t) [
            | inl k ↦ k
            | inr (quiet, k) ↦
                let still : same d.state e ≡ true =
                  ap (λ s. same s e) (quiet_state c t quiet ∙ here) ∙ same_refl e in
                absurd cc
          ] in
          let (r, b, n, f, answers) =
            cancel_run-Returns loading d ts tt (omega (arith, enough, one)) in
          (
            r,
            b,
            suc n,
            exchange_observes c e d.state t ts m ∙ f,
            Answers-later c t n ts r b answers,
          )
    ]

-- `cancel` on any cell returns if its accesses are two more than twice those that a call of another
-- thread or a spurious failure disturbs, or more. With `true` it has changed the cell, as the others'
-- calls until then left it, from a state that is not terminal to the cancelled one, along an edge of
-- the lifecycle; with `false` it has changed nothing, and the others' calls left it done or terminal.
pub cancel_run-returns :
    (c : Cell) (ts : List Turn)
    → 2 * disturbances ts + 2 ≤ length ts
    → (d : Cell) × (b : Bool) × (n : ℕ) × (cancel_run loading c ts ≡ some (d, b))
      × Answers (run c (called n ts)) d b
cancel_run-returns c ts enough = cancel_run-Returns loading c ts tt enough
