-- ===== src/Task.antt =====
-- crates/kwokka-runtime/src/task/cell/state.rs: the atomic lifecycle of a task. Atomic accesses are
-- single steps of one shared cell; memory orderings weaker than that are not modelled.
pub mod Retry
pub mod Graph
pub mod Poll
pub mod Cancel
mod Tests
use kwokka.Base.{
  ℕ, Bool, true, false, not, ◌&&◌, ◌==◌, if◌then◌else◌, Option, none, some, List, [], ◌∷◌, ◌≡◌,
  refl, arith,
}

pub data TaskState : Type 0 where
  sleeping woken running done cancelled failed taken retired : TaskState

-- `state as u8`.
abbrev pub to_u8 : TaskState → ℕ
to_u8 sleeping = 0
to_u8 woken = 1
to_u8 running = 2
to_u8 done = 3
to_u8 cancelled = 4
to_u8 failed = 5
to_u8 taken = 6
to_u8 retired = 7

-- `TaskState::from_u8`; `none` is its panic.
unfoldable pub from_u8 : ℕ → Option TaskState
from_u8 value =
    if value == 0
    then some sleeping
    else if value == 1
    then some woken
    else if value == 2
    then some running
    else if value == 3
    then some done
    else if value == 4
    then some cancelled
    else if value == 5
    then some failed
    else if value == 6
    then some taken
    else if value == 7
    then some retired
    else none

-- `TaskState::is_terminal`.
abbrev pub is_terminal : TaskState → Bool
is_terminal cancelled = true
is_terminal failed = true
is_terminal taken = true
is_terminal retired = true
is_terminal sleeping = false
is_terminal woken = false
is_terminal running = false
is_terminal done = false

abbrev pub same : TaskState → TaskState → Bool
same a b = to_u8 a == to_u8 b

pub same-eq : (a b : TaskState) → same a b ≡ true → a ≡ b
same-eq sleeping b h = ground arith
same-eq woken b h = ground arith
same-eq running b h = ground arith
same-eq done b h = ground arith
same-eq cancelled b h = ground arith
same-eq failed b h = ground arith
same-eq taken b h = ground arith
same-eq retired b h = ground arith

pub same_refl : (a : TaskState) → same a a ≡ true
same_refl sleeping = refl
same_refl woken = refl
same_refl running = refl
same_refl done = refl
same_refl cancelled = refl
same_refl failed = refl
same_refl taken = refl
same_refl retired = refl

-- `AtomicTaskState`.
pub record Cell : Type 0 where
  pub state : TaskState
  pub claim : Bool

-- `AtomicTaskState::new`.
abbrev pub new : Cell
new = record { state = sleeping; claim = false }

-- `Result<(), TaskState>`.
pub data Answer : Type 0 where
  ok : Answer
  err : TaskState → Answer

-- `state.compare_exchange(expected, next)`.
unfoldable pub compare_exchange : Cell → TaskState → TaskState → Cell × Answer
compare_exchange c expected next =
    if same c.state expected then (record c { state = next }, ok) else (c, err c.state)

-- `transition` where nothing interferes and no exchange fails spuriously; the loop with
-- interference is in `Task.Retry`.
unfoldable pub transition : Cell → TaskState → TaskState → Cell × Answer
unfolding compare_exchange
transition c expected next =
    if is_terminal expected then (c, err c.state) else compare_exchange c expected next

unfoldable pub wake : Cell → Cell × Answer
unfolding transition
wake c = transition c sleeping woken

unfoldable pub try_start_poll : Cell → Cell × Answer
unfolding transition
try_start_poll c = transition c woken running

unfoldable pub complete : Cell → Cell × Answer
unfolding transition
complete c = transition c running done

unfoldable pub suspend : Cell → Cell × Answer
unfolding transition
suspend c = transition c running sleeping

-- `try_retire` and `try_retire_woken`.
unfoldable pub try_retire : Cell → Cell × Answer
unfolding compare_exchange
try_retire c = compare_exchange c sleeping retired

unfoldable pub try_retire_woken : Cell → Cell × Answer
unfolding compare_exchange
try_retire_woken c = compare_exchange c woken retired

-- `.is_ok()`.
abbrev pub is_ok : Answer → Bool
is_ok ok = true
is_ok (err s) = false

abbrev cancel_from : Cell → TaskState → Cell × Bool
cancel_from c current = let r = transition c current cancelled in (r.0, is_ok r.1)

-- `cancel`: the loop's first round, which decides where nothing interferes.
unfoldable pub cancel : Cell → Cell × Bool
unfolding transition
cancel c = elim c.state [
  | sleeping ↦ cancel_from c sleeping
  | woken ↦ cancel_from c woken
  | running ↦ cancel_from c running
  | done ↦ (c, false)
  | cancelled ↦ (c, false)
  | failed ↦ (c, false)
  | taken ↦ (c, false)
  | retired ↦ (c, false)
]

-- `try_claim` and `release_claim`.
unfoldable pub try_claim : Cell → Cell × Bool
try_claim c = if c.claim then (c, false) else (record c { claim = true }, true)

unfoldable pub release_claim : Cell → Cell
release_claim c = record c { claim = false }
