-- ===== src/Mpsc/Threads.antt =====
-- The producers of the ring of crates/kwokka-runtime/src/sync/mpsc.rs, interleaved: one step for
-- each access of `push` to memory that others change. `pop` is one step, since only the consumer
-- touches what it accesses between its load and its store of the sequence. `claimed` and `taken`
-- are histories for the theorems: the values in the order in which the exchanges of
-- `enqueue_pos` won, and the values in the order in which `pop` returned them.
pub mod Invariant
pub mod Look
pub mod Claim
pub mod Fill
pub mod Consume
pub mod Safe
mod Tests
use kwokka.Base.{
  ℕ, zero, suc, true, false, Bool, Option, none, some, List, [], ◌∷◌, ◌++◌, length, get_elem?, set,
  ltb, ◌==◌, if◌then◌else◌, add64, sub64,
}
use kwokka.Mpsc.{
  Slot, MpscRing, Popped, popped, empty, uninit, panic, half_range, slot_index, pop, new,
}

-- Where a producer stands in `push`.
pub data Producer {ℓ} (A : Type ℓ) : Type ℓ where
  -- between two calls
  idle : Producer A
  -- about to load `enqueue_pos`
  starting : A → Producer A
  -- about to load the sequence of the slot of this position
  loaded : ℕ → A → Producer A
  -- has found the slot free, about to compare and exchange
  observed : ℕ → A → Producer A
  -- has won the position; whether the cell is written
  owning : Bool → ℕ → A → Producer A
  -- has returned `Err`
  refused : A → Producer A

pub record System {ℓ} (A : Type ℓ) : Type ℓ where
  pub ring : MpscRing A
  pub producers : List (Producer A)
  pub claimed : List A
  pub taken : List A
  pub faulted : Bool

pub data Action {ℓ} (A : Type ℓ) : Type ℓ where
  calls : ℕ → A → Action A
  moves : ℕ → Action A
  slips : ℕ → Action A
  consumes : Action A

module _ {ℓ} {A : Type ℓ} where
  unfoldable pub idle_all : ℕ → List (Producer A)
  idle_all zero = []
  idle_all (suc m) = idle ∷ idle_all m

  unfoldable pub start : ℕ → ℕ → System A
  start n threads = record {
    ring = new n;
    producers = idle_all threads;
    claimed = [];
    taken = [];
    faulted = false;
  }

  abbrev pub put : System A → ℕ → Producer A → System A
  put s i p = record s { producers = set s.producers i p }

  -- The load of the sequence, and the branch on its gap from `pos`.
  unfoldable pub branch : System A → ℕ → ℕ → A → ℕ → System A
  branch s i pos v gap =
      if gap == 0
      then put s i (observed pos v)
      else (if ltb half_range gap then put s i (refused v) else put s i (starting v))

  unfoldable pub look : System A → ℕ → ℕ → A → System A
  look s i pos v = elim (get_elem? s.ring.slots (slot_index s.ring pos)) [
    | none ↦ record s { faulted = true }
    | some slot ↦ branch s i pos v (sub64 slot.sequence pos)
  ]

  -- `compare_exchange_weak`: a failure gives the position that it met.
  unfoldable pub claim : System A → ℕ → ℕ → A → System A
  claim s i pos v =
      if s.ring.enqueue_pos == pos
      then record s {
        ring = record s.ring { enqueue_pos = add64 pos 1 };
        producers = set s.producers i (owning false pos v);
        claimed = s.claimed ++ v ∷ [];
      }
      else put s i (loaded s.ring.enqueue_pos v)

  -- The write of the cell, and then the store of the sequence.
  unfoldable pub fill : System A → ℕ → Bool → ℕ → A → System A
  fill s i written pos v = elim (get_elem? s.ring.slots (slot_index s.ring pos)) [
    | none ↦ record s { faulted = true }
    | some slot ↦
        if written
        then record s {
          ring = record s.ring {
            slots =
                set s.ring.slots (slot_index s.ring pos) (record slot { sequence = add64 pos 1 });
          };
          producers = set s.producers i idle;
        }
        else record s {
          ring = record s.ring {
            slots = set s.ring.slots (slot_index s.ring pos) (record slot { cell = some v });
          };
          producers = set s.producers i (owning true pos v);
        }
  ]

  unfoldable pub advance : System A → ℕ → Producer A → System A
  advance s i idle = s
  advance s i (starting v) = put s i (loaded s.ring.enqueue_pos v)
  advance s i (loaded pos v) = look s i pos v
  advance s i (observed pos v) = claim s i pos v
  advance s i (owning written pos v) = fill s i written pos v
  advance s i (refused v) = s

  -- The weak exchange may fail where it could have won.
  unfoldable pub slip : System A → ℕ → Producer A → System A
  slip s i (observed pos v) = put s i (loaded s.ring.enqueue_pos v)
  slip s i idle = s
  slip s i (starting v) = s
  slip s i (loaded pos v) = s
  slip s i (owning written pos v) = s
  slip s i (refused v) = s

  -- A thread calls `push` when its last call has returned.
  unfoldable pub call : System A → ℕ → A → Producer A → System A
  call s i v idle = put s i (starting v)
  call s i v (refused w) = put s i (starting v)
  call s i v (starting w) = s
  call s i v (loaded pos w) = s
  call s i v (observed pos w) = s
  call s i v (owning written pos w) = s

  unfoldable pub receive : System A → MpscRing A × Popped A → System A
  receive s (r, popped v) = record s { ring = r; taken = s.taken ++ v ∷ [] }
  receive s (r, empty) = record s { ring = r }
  receive s (r, uninit) = record s { ring = r; faulted = true }
  receive s (r, panic) = record s { ring = r; faulted = true }

  unfoldable pub step : System A → Action A → System A
  step s (calls i v) = elim (get_elem? s.producers i) [ none ↦ s | some p ↦ call s i v p ]
  step s (moves i) = elim (get_elem? s.producers i) [ none ↦ s | some p ↦ advance s i p ]
  step s (slips i) = elim (get_elem? s.producers i) [ none ↦ s | some p ↦ slip s i p ]
  step s consumes = receive s (pop s.ring)

  unfoldable pub run : System A → List (Action A) → System A
  run s [] = s
  run s (a ∷ rest) = run (step s a) rest
