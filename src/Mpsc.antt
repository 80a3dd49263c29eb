-- ===== src/Mpsc.antt =====
-- The bounded ring of crates/kwokka-runtime/src/sync/mpsc.rs, with each call run to its end. The
-- ring of `2 ^ k` slots has `N = length slots`; a cell that holds no value is none.
pub mod Window
pub mod Enqueue
pub mod Refine
pub mod Retire
pub mod Threads
mod Tests
use kwokka.Base.{
  ℕ, zero, suc, ◌-◌, ◌*◌, ◌/◌, bit_and, true, false, Bool, not, Option, none, some, List, [], ◌∷◌,
  length, get_elem?, set, ltb, ◌==◌, if◌then◌else◌, u64_mod, add64, sub64,
}

pub record Slot {ℓ} (A : Type ℓ) : Type ℓ where
  pub sequence : ℕ
  pub cell : Option A

pub record MpscRing {ℓ} (A : Type ℓ) : Type ℓ where
  pub enqueue_pos : ℕ
  pub dequeue_pos : ℕ
  pub slots : List (Slot A)

-- What a call of `push` ends with. `spin` is a loop that ran out of its rounds, `panic` an index
-- out of range.
pub data Pushed {ℓ} (A : Type ℓ) : Type ℓ where
  pushed : Pushed A
  rejected : A → Pushed A
  spin : Pushed A
  panic : Pushed A

-- What a call of `pop` ends with. `uninit` is a read of a cell that holds no value.
pub data Popped {ℓ} (A : Type ℓ) : Type ℓ where
  popped : A → Popped A
  empty : Popped A
  uninit : Popped A
  panic : Popped A

-- `usize::MAX / 2`.
abbrev pub half_range : ℕ
half_range = (u64_mod - 1) / 2

module _ {ℓ} {A : Type ℓ} where
  -- The seeding loop: slot `i` starts at sequence `i`.
  unfoldable pub seed : ℕ → ℕ → List (Slot A)
  seed i zero = []
  seed i (suc n) = record { sequence = i; cell = none } ∷ seed (suc i) n

  unfoldable pub new : ℕ → MpscRing A
  new n = record { enqueue_pos = 0; dequeue_pos = 0; slots = seed 0 n }

  -- The index `pos & (N - 1)`.
  abbrev pub slot_index : MpscRing A → ℕ → ℕ
  slot_index r pos = bit_and pos (length r.slots - 1)

  -- The write of a claimed slot, and the store of its sequence.
  unfoldable pub publish : MpscRing A → ℕ → A → MpscRing A
  publish r pos value = record r {
    slots = set r.slots (slot_index r pos) (record { sequence = add64 pos 1; cell = some value });
  }

  -- The loop of `push`. With no other producer the exchange compares against the same memory.
  unfoldable pub push_loop : ℕ → MpscRing A → ℕ → A → MpscRing A × Pushed A
  push_loop zero r pos value = (r, spin)
  push_loop (suc fuel) r pos value =
      let again = push_loop fuel r r.enqueue_pos value in
      elim (get_elem? r.slots (slot_index r pos)) [
        | none ↦ (r, panic)
        | some slot ↦
            let gap = sub64 slot.sequence pos in
            if gap == 0
            then (if r.enqueue_pos == pos
                then (publish (record r { enqueue_pos = add64 pos 1 }) pos value, pushed)
                else again)
            else (if ltb half_range gap then (r, rejected value) else again)
      ]

  unfoldable pub push : ℕ → MpscRing A → A → MpscRing A × Pushed A
  push fuel r value = push_loop fuel r r.enqueue_pos value

  -- The value leaves its cell, and the slot is handed to the producers' next round.
  unfoldable pub consume : MpscRing A → ℕ → Slot A → MpscRing A × Popped A
  consume r pos slot = (
    record r {
      slots =
          set r.slots (slot_index r pos)
            (record { sequence = add64 pos (length r.slots); cell = none });
      dequeue_pos = add64 pos 1;
    },
    elim slot.cell [ none ↦ uninit | some value ↦ popped value ],
  )

  unfoldable pub pop : MpscRing A → MpscRing A × Popped A
  pop r = elim (get_elem? r.slots (slot_index r r.dequeue_pos)) [
    | none ↦ (r, panic)
    | some slot ↦
        if ltb half_range (sub64 slot.sequence (add64 r.dequeue_pos 1))
        then (r, empty)
        else consume r r.dequeue_pos slot
  ]

  unfoldable pub size : MpscRing A → ℕ
  size r = sub64 r.enqueue_pos r.dequeue_pos

  unfoldable pub is_empty : MpscRing A → Bool
  is_empty r = size r == 0
