-- ===== src/Timer/Tests.antt =====
-- Runs of the timer wheel of crates/kwokka-runtime/src/timer/wheel.
use mathlib.Core.Option
use kwokka.Base.{
  ℕ, zero, suc, ◌+◌, ◌*◌, ◌%◌, ◌^◌, ◌<◌, ◌≤◌, ◌≡◌, ◌⊎◌, refl, arith, Option, none, some, List, [],
  ◌∷◌,
}
use kwokka.Base.Maybe.{◌>>=◌}
use kwokka.Generation
use kwokka.Generation.{is_occupied}
use kwokka.SlabKey
use kwokka.Bitmap.{set_bit, clear_bit, trailing_zeros}
use kwokka.Slab
use kwokka.Slab.{Slab, ok, full, panic, get_by_index, remove_by_index}
use kwokka.Slab.Access.{update_by_index}
use kwokka.Timer.{TimerEntry, TimerWheel, leading_zeros, position, slot_at}
use kwokka.Timer.Slots.{entry_at, push_front, link_old_head}
use kwokka.Timer.Wheel.{new, register, insert_at, rotate_right, next_expiry, next_expiry_from}
use kwokka.Timer.Expire.{
  ExpiredIter, advance_to, next, jump, advance_one_tick, cascade_from, cascade_level, cascade_loop,
  drain_slot,
}
use kwokka.Timer.Position.{position-visit, position-once}
use kwokka.Timer.Chain.{linked, Chain}
use kwokka.Timer.Chain.Push.{push_front-Chain}

-- A wheel with a timer, in order, for each task and deadline, at tick `now`.
abbrev armed : TimerWheel → List (ℕ × ℕ) → Option TimerWheel
armed w [] = some w
armed w ((task, deadline) ∷ rest) = elim (register w task deadline) [
  | full ↦ none
  | panic ↦ none
  | ok (v, key) ↦ armed v rest
]

-- What an iterator yields, in at most `calls` calls, and the wheel after it.
abbrev yields : ℕ → ExpiredIter → Option (List ℕ × TimerWheel)
yields zero it = none
yields (suc calls) it = elim (next 80 it) [
  | none ↦ none
  | some (none, later) ↦ some ([], later.wheel)
  | some (some task, later) ↦
      Option.map (λ (r : List ℕ × TimerWheel). (task ∷ r.0, r.1)) (yields calls later)
]

abbrev expired : ℕ → List (ℕ × ℕ) → ℕ → Option (List ℕ)
expired now timers target = new now 4 >>= λ w. armed w timers >>= λ v.
    Option.map (λ (r : List ℕ × TimerWheel). r.0) (yields 8 (advance_to v target))

expired_before : expired 0 ((7, 70) ∷ (8, 5) ∷ []) 69 ≡ some (8 ∷ [])
unfolding new register next advance_to Slab.new Slab.insert is_occupied insert_at push_front
    entry_at get_by_index update_by_index SlabKey.index SlabKey.new Generation.get Generation.next
    link_old_head position leading_zeros jump set_bit clear_bit trailing_zeros remove_by_index
    advance_one_tick cascade_from cascade_level cascade_loop drain_slot
expired_before = refl

expired_all : expired 0 ((7, 70) ∷ (8, 5) ∷ []) 70 ≡ some (8 ∷ 7 ∷ [])
unfolding new register next advance_to Slab.new Slab.insert is_occupied insert_at push_front
    entry_at get_by_index update_by_index SlabKey.index SlabKey.new Generation.get Generation.next
    link_old_head position leading_zeros jump set_bit clear_bit trailing_zeros remove_by_index
    advance_one_tick cascade_from cascade_level cascade_loop drain_slot
expired_all = refl

-- A deadline that is not ahead waits for the next round of level 0.
expired_now : expired 5 ((7, 5) ∷ []) 68 ≡ some []
unfolding new register next advance_to Slab.new Slab.insert is_occupied insert_at push_front
    entry_at get_by_index update_by_index SlabKey.index SlabKey.new Generation.get Generation.next
    link_old_head position leading_zeros jump set_bit clear_bit trailing_zeros remove_by_index
    advance_one_tick cascade_from cascade_level cascade_loop drain_slot
expired_now = refl

-- The timer is 67 ticks ahead.
next_expiry_late : (new 63 4 >>= λ w. armed w ((7, 130) ∷ []) >>= next_expiry) ≡ some 129
unfolding new register next advance_to Slab.new Slab.insert is_occupied insert_at push_front
    entry_at get_by_index update_by_index SlabKey.index SlabKey.new Generation.get Generation.next
    link_old_head position leading_zeros jump set_bit clear_bit trailing_zeros remove_by_index
    advance_one_tick cascade_from cascade_level cascade_loop drain_slot next_expiry next_expiry_from
    rotate_right
next_expiry_late = refl

position-visit_example :
    ((position 130 63).0 < 6)
    × ((t : ℕ) × (63 < t)
        × (t ≤ 130)
        × (t % 2 ^ ((position 130 63).0 * 6) ≡ 0)
        × (slot_at t (position 130 63).0 ≡ (position 130 63).1)
        × ((t ≡ 130) ⊎ ((position 130 t).0 < (position 130 63).0)))
position-visit_example = position-visit 130 63 (omega arith) (omega arith)

position-once_example : 130 < 128 + 2 ^ ((position 130 63).0 * 6)
unfolding position leading_zeros
position-once_example =
    position-once 130 63 128 (omega arith) (omega arith) (omega arith) (omega arith) refl refl

abbrev entry : ℕ → TimerEntry
entry task = record {
  deadline_tick = 9;
  task_ref = task;
  prev = none;
  next = none;
  level = 0;
  slot = 9;
}

abbrev three : Slab TimerEntry
three = record {
  slots =
      record { generation = 1; next_free = 0; content = some (entry 5) }
      ∷ record { generation = 1; next_free = 0; content = some (entry 6) }
      ∷ record { generation = 1; next_free = 0; content = some (entry 7) }
      ∷ [];
  free_head = Slab.free_sentinel;
  len = 3;
}

push_front-Chain_example :
    Chain
      (push_front (record { head = some 1 }) 2 three).1
      none
      (push_front (record { head = some 1 }) 2 three).0.head
      (2 ∷ 1 ∷ [])
    × (linked (push_front (record { head = some 1 }) 2 three).1 3 ≡ linked three 3)
unfolding entry_at get_by_index is_occupied
push_front-Chain_example =
    push_front-Chain (record { head = some 1 }) three 2 3 (entry 6) (1 ∷ []) (omega arith)
      (omega arith) refl (omega arith, tt) (omega arith, (omega arith, tt)) (tt, tt)
      (refl, omega arith, (entry 5, refl, refl, refl))
