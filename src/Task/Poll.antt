-- ===== src/Task/Poll.antt =====
-- One poll of a task: `poll_task` of crates/kwokka-runtime/src/task/cell/lifecycle.rs. What the
-- future answers, and the calls that others make on the cell during the poll, are inputs.
use kwokka.Base.{not, Bool, true, false, ◌||◌, if◌then◌else◌, List, [], ◌∷◌, ◌≡◌}
use kwokka.Task.{
  TaskState, sleeping, woken, running, done, cancelled, same, Cell, ok, err, Answer, try_start_poll,
  complete, suspend,
}
use kwokka.Task.Graph.{
  Call, wakes, starts, completes, suspends, takes, retires, retires_woken, cancels, claims,
  releases, transitions, run,
}

pub data PollOutcome : Type 0 where
  completed suspended rescheduled : PollOutcome
  skipped : TaskState → PollOutcome

-- The part of a task's cell that `poll_task` reads and writes.
pub record Slot : Type 0 where
  pub cell : Cell
  pub has_polled : Bool

abbrev suspend_outcome : Answer → PollOutcome
suspend_outcome ok = suspended
suspend_outcome (err s) = if same s woken then rescheduled else suspended

-- `Poll::Ready` where `ready`, else `Poll::Pending`.
abbrev finish : Cell → Bool → Slot × PollOutcome
finish c ready =
    if ready
    then (record { cell = (complete c).0; has_polled = true }, completed)
    else (record { cell = (suspend c).0; has_polled = true }, suspend_outcome (suspend c).1)

unfoldable pub poll_task : Slot → Bool → List Call → Slot × PollOutcome
unfolding try_start_poll complete suspend
poll_task slot ready during =
    let r = try_start_poll slot.cell in
    elim r.1 [ ok ↦ finish (run r.0 during) ready | err observed ↦ (slot, skipped observed) ]

-- The calls that a thread other than the poller makes on the cell: the poller alone asks for a
-- transition away from the running state.
abbrev pub is_foreign : Call → Bool
is_foreign completes = false
is_foreign suspends = false
is_foreign wakes = true
is_foreign starts = true
is_foreign takes = true
is_foreign retires = true
is_foreign retires_woken = true
is_foreign cancels = true
is_foreign claims = true
is_foreign releases = true
is_foreign (transitions expected next) = not (same expected running)

abbrev pub AllForeign : List Call → Type 0
AllForeign [] = Unit {0}
AllForeign (k ∷ ks) = (is_foreign k ≡ true) × AllForeign ks

abbrev is_cancel : Call → Bool
is_cancel cancels = true
is_cancel wakes = false
is_cancel starts = false
is_cancel completes = false
is_cancel suspends = false
is_cancel takes = false
is_cancel retires = false
is_cancel retires_woken = false
is_cancel claims = false
is_cancel releases = false
is_cancel (transitions expected next) = false

abbrev pub any_cancel : List Call → Bool
any_cancel [] = false
any_cancel (k ∷ ks) = is_cancel k || any_cancel ks

-- What one poll of a task in a state comes to.
abbrev pub expected_outcome : TaskState → Bool → PollOutcome
expected_outcome s ready =
    if same s woken then if ready then completed else suspended else skipped s

abbrev pub expected_state : TaskState → Bool → Bool → TaskState
expected_state s ready is_cancelled =
    if not (same s woken)
    then s
    else if is_cancelled
    then cancelled
    else if ready
    then done
    else sleeping

abbrev Finished : Slot × PollOutcome → Bool → Bool → Type 0
Finished r ready is_cancelled =
    (r.0.cell.state ≡ expected_state woken ready is_cancelled)
    × ((r.1 ≡ expected_outcome woken ready) × (r.0.has_polled ≡ true))
