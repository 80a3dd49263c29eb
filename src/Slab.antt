-- ===== src/Slab.antt =====
-- crates/kwokka-core/src/slab/slab.rs: the fixed-capacity generational slab. A slot's storage is
-- an `Option`, `none` where the memory is uninitialised or moved out of. Each operation that takes
-- `&mut self` returns the new slab. Indices and capacities are `u32`, `len` is a 64-bit `usize`.
pub mod Access
pub mod Reservation
pub mod Invariant
pub mod Preserve
pub mod Promise
pub mod Cases
pub mod Step
pub mod Lookup
pub mod Removal
pub mod Reserve
pub mod Capacity
pub mod Safety
pub mod Fill
pub mod Reads
pub mod Iter
pub mod Turnover
mod Tests
use mathlib.Core.Option
use kwokka.Base.{
  ℕ, zero, suc, ◌+◌, ◌-◌, Bool, true, false, ◌&&◌, ◌==◌, if◌then◌else◌, Option, none, some, List,
  [], ◌∷◌, length, get_elem?, set, u32_mod, add64, sub64, ltb,
}
use kwokka.Generation.{is_occupied, next, generation_zero}
use kwokka.SlabKey.{index, generation}
use kwokka.SlabKey

-- `FREE_SENTINEL`, `u32::MAX`.
abbrev pub free_sentinel : ℕ
free_sentinel = u32_mod - 1

pub record Slot {ℓ} (A : Type ℓ) : Type ℓ where
  pub generation : ℕ
  pub next_free : ℕ
  pub content : Option A

pub record Slab {ℓ} (A : Type ℓ) : Type ℓ where
  pub slots : List (Slot A)
  pub free_head : ℕ
  pub len : ℕ

-- What a read gives: no slot answers the key, a value, or uninitialised memory, which is undefined
-- behaviour in the source.
pub data Read {ℓ} (A : Type ℓ) : Type ℓ where
  missing : Read A
  found : A → Read A
  uninit : Read A

-- `Result<_, SlabError>`, with the panics of the code.
pub data Outcome {ℓ} (A : Type ℓ) : Type ℓ where
  ok : A → Outcome A
  full : Outcome A
  panic : Outcome A

module _ {ℓ} {A : Type ℓ} where
  -- The loop of `Slab::new`, from slot `i` with `rounds` slots to go.
  new_slots : ℕ → ℕ → ℕ → List (Slot A)
  new_slots zero i capacity = []
  new_slots (suc rounds) i capacity =
      (record {
        generation = generation_zero;
        next_free = if ltb (i + 1) capacity then i + 1 else free_sentinel;
        content = none;
      })
      ∷ new_slots rounds (i + 1) capacity

  -- `data.assume_init_ref()` and `assume_init_read()`.
  abbrev pub read_content : Option A → Read A
  read_content none = uninit
  read_content (some a) = found a

  -- `Slab::get_by_index`.
  unfoldable pub get_by_index : Slab A → ℕ → Read A
  get_by_index s i = elim (get_elem? s.slots i) [
    | none ↦ missing
    | some slot ↦ if is_occupied slot.generation then read_content slot.content else missing
  ]

  -- `Slab::get`, and the test that `get_mut`, `slot_ptr` and `slot_ptr_mut` share with it.
  unfoldable pub get : Slab A → ℕ → Read A
  get s key = elim (get_elem? s.slots (index key)) [
    | none ↦ missing
    | some slot ↦ if slot.generation == generation key then read_content slot.content else missing
  ]

  -- The slab after `Slab::insert` took the slot `slot` at `i`, and the key.
  pub insert_at : Slab A → ℕ → Slot A → A → Slab A × ℕ
  insert_at s i slot value =
      let generation' = next slot.generation in
      (
        record {
          slots = set s.slots i (record {
            generation = generation';
            next_free = free_sentinel;
            content = some value;
          });
          free_head = slot.next_free;
          len = add64 s.len 1;
        },
        SlabKey.new i generation',
      )

  -- `Slab::insert`.
  unfoldable pub insert : Slab A → A → Outcome (Slab A × ℕ)
  unfolding insert_at
  insert s value =
      if s.free_head == free_sentinel then full else elim (get_elem? s.slots s.free_head) [
        | none ↦ panic
        | some slot ↦
            if is_occupied slot.generation then panic else ok (insert_at s s.free_head slot value)
      ]

  -- The slab once the slot `slot` at `i` is back on the free list, its value moved out.
  pub vacate : Slab A → ℕ → Slot A → Slab A
  vacate s i slot = record {
    slots =
        set s.slots i
          (record { generation = next slot.generation; next_free = s.free_head; content = none });
    free_head = i;
    len = sub64 s.len 1;
  }

  -- `Slab::remove`.
  unfoldable pub remove : Slab A → ℕ → Slab A × Read A
  unfolding vacate
  remove s key = elim (get_elem? s.slots (index key)) [
    | none ↦ (s, missing)
    | some slot ↦
        if slot.generation == generation key
        then (vacate s (index key) slot, read_content slot.content)
        else (s, missing)
  ]

  -- `Slab::remove_by_index`.
  unfoldable pub remove_by_index : Slab A → ℕ → Slab A × Read A
  unfolding vacate
  remove_by_index s i = elim (get_elem? s.slots i) [
    | none ↦ (s, missing)
    | some slot ↦
        if is_occupied slot.generation
        then (vacate s i slot, read_content slot.content)
        else (s, missing)
  ]

  -- `Slab::retire_slot`: as `remove`, the value's bytes being the caller's already.
  unfoldable pub retire_slot : Slab A → ℕ → Slab A × Bool
  unfolding vacate
  retire_slot s key = elim (get_elem? s.slots (index key)) [
    | none ↦ (s, false)
    | some slot ↦
        if slot.generation == generation key then (vacate s (index key) slot, true) else (s, false)
  ]

  -- `Slab::len`, `Slab::capacity` and `Slab::is_empty`.
  unfoldable pub size : Slab A → ℕ
  size s = s.len

  unfoldable pub capacity : Slab A → ℕ
  capacity s = length s.slots

  unfoldable pub is_empty : Slab A → Bool
  is_empty s = s.len == 0

-- `Slab::new`; `none` is the panic on a capacity that is no `u32`.
unfoldable pub new {ℓ} : (A : Type ℓ) → ℕ → Option (Slab A)
unfolding new_slots
new A capacity =
    if ltb capacity u32_mod
    then some (record {
      slots = new_slots capacity 0 capacity;
      free_head = if capacity == 0 then free_sentinel else 0;
      len = 0;
    })
    else none
