-- ===== src/Arena.antt =====
-- The bump allocator of crates/kwokka-core/src/arena/bump.rs. An address is a number, and the buffer's
-- is what the system's allocator gave. A dropping function is a value of a type of its own. The
-- values written into the buffer are not modelled.
pub mod Align
pub mod Bounds
pub mod Run
pub mod Laid
pub mod Start
mod Tests
use Prim.Native.Nat.{◌≤◌}
use kwokka.Base.{
  ℕ, zero, suc, ◌+◌, ◌-◌, ◌*◌, ◌/◌, ◌%◌, ◌^◌, Bool, true, false, not, ◌&&◌, ◌||◌, Option, none,
  some, List, [], ◌∷◌, length, bit_and, ltb, leb, ◌==◌, if◌then◌else◌, u64_mod, checked_add,
  checked_mul,
}
use kwokka.Generation
use kwokka.Generation.{next}

pub data ArenaPhase : Type 0 where
  build : ArenaPhase
  frozen : ArenaPhase

pub data ArenaError : Type 0 where
  zero_capacity : ArenaError
  invalid_alignment : ℕ → ArenaError
  exhausted_bytes : ℕ → ℕ → ArenaError
  drop_registry_full : ℕ → ArenaError
  wrong_phase : ArenaPhase → ArenaError

pub data Result (A : Type 0) : Type 0 where
  ok : A → Result A
  err : ArenaError → Result A

-- `core::alloc::Layout`.
pub record Layout : Type 0 where
  pub size : ℕ
  pub align : ℕ

pub record DropEntry (D : Type 0) : Type 0 where
  pub ptr : ℕ
  pub drop_fn : D

-- The last entry of `drops` stands first.
pub record BumpAllocator (D : Type 0) : Type 0 where
  pub buffer : ℕ
  pub capacity : ℕ
  pub alignment : ℕ
  pub cursor : ℕ
  pub drops : List (DropEntry D)
  pub drop_capacity : ℕ
  pub phase : ArenaPhase
  pub generation : ℕ

-- `usize::is_power_of_two`.
abbrev pub is_power_of_two : ℕ → Bool
is_power_of_two n = not (n == 0) && (bit_and n (n - 1) == 0)

-- `Layout::from_size_align`: the size, rounded up to the alignment, may not pass `isize::MAX`.
unfoldable pub from_size_align : ℕ → ℕ → Option Layout
from_size_align size align =
    if is_power_of_two align && leb (size + (align - 1)) (2 ^ 63 - 1)
    then some (record { size = size; align = align })
    else none

-- `(addr + align - 1) & !(align - 1)`.
unfoldable pub align_up : ℕ → ℕ → ℕ
align_up addr align = bit_and (addr + align - 1) (u64_mod - 1 - (align - 1))

-- The guard of `alloc_raw` before its other lines.
abbrev pub in_build : {A : Type 0} → ArenaPhase → Result A → Result A
in_build build rest = rest
in_build frozen rest = err (wrong_phase frozen)

module _ {D : Type 0} where
  unfoldable pub exhausted : BumpAllocator D → ℕ → ArenaError
  exhausted s requested = exhausted_bytes requested (s.capacity - s.cursor)

  -- `from_builder`, with the address that the system's allocator answers for the layout.
  unfoldable pub from_builder : ℕ → ℕ → ℕ → ℕ → Result (BumpAllocator D)
  from_builder address bytes drop_slots alignment =
      if bytes == 0
      then err zero_capacity
      else (if not (is_power_of_two alignment)
          then err (invalid_alignment alignment)
          else elim (from_size_align bytes alignment) [
            | none ↦ err (exhausted_bytes bytes 0)
            | some layout ↦ ok (record {
              buffer = address;
              capacity = bytes;
              alignment = alignment;
              cursor = 0;
              drops = [];
              drop_capacity = drop_slots;
              phase = build;
              generation = Generation.generation_zero;
            })
          ])

  unfoldable pub alloc_aligned : BumpAllocator D → Layout → Result (BumpAllocator D × ℕ)
  alloc_aligned s layout =
      if ltb s.alignment layout.align
      then err (exhausted s (layout.size + layout.align))
      else (let aligned = align_up s.cursor layout.align in
          elim (checked_add aligned layout.size) [
            | none ↦ err (exhausted s layout.size)
            | some new_cursor ↦
                if ltb s.capacity new_cursor
                then err (exhausted s (new_cursor - s.cursor))
                else ok (record s { cursor = new_cursor }, s.buffer + aligned)
          ])

  unfoldable pub alloc_raw : BumpAllocator D → Layout → Result (BumpAllocator D × ℕ)
  alloc_raw s layout = in_build s.phase (alloc_aligned s layout)

  -- `alloc`, by the layout of its type.
  unfoldable pub alloc : BumpAllocator D → Layout → Result (BumpAllocator D × ℕ)
  alloc s layout = alloc_raw s layout

  -- `alloc_with_drop`, by the layout and the dropping function of its type.
  unfoldable pub alloc_with_drop : BumpAllocator D → Layout → D → Result (BumpAllocator D × ℕ)
  alloc_with_drop s layout drop_fn =
      if leb s.drop_capacity (length s.drops)
      then err (drop_registry_full s.drop_capacity)
      else elim (alloc_raw s layout) [
        | err e ↦ err e
        | ok (t, raw) ↦
            ok (record t { drops = record { ptr = raw; drop_fn = drop_fn } ∷ t.drops }, raw)
      ]

  -- `alloc_slice`, by the layout of its element type.
  unfoldable pub alloc_slice : BumpAllocator D → Layout → ℕ → Result (BumpAllocator D × ℕ)
  alloc_slice s layout count = elim (checked_mul layout.size count) [
    | none ↦ err (exhausted s (u64_mod - 1))
    | some bytes ↦ elim (from_size_align bytes layout.align) [
      | none ↦ err (exhausted s bytes)
      | some whole ↦ alloc_raw s whole
    ]
  ]

  unfoldable pub freeze : BumpAllocator D → BumpAllocator D
  freeze s = record s { phase = frozen }

  -- The calls of the dropping functions, in their order.
  unfoldable pub run_drops : List (DropEntry D) → List (DropEntry D)
  run_drops [] = []
  run_drops (entry ∷ drops) = entry ∷ run_drops drops

  -- `reset`, with the calls that it makes.
  unfoldable pub reset : BumpAllocator D → BumpAllocator D × List (DropEntry D)
  reset s = (
    record s { drops = []; cursor = 0; phase = build; generation = next s.generation },
    run_drops s.drops,
  )

  unfoldable pub used : BumpAllocator D → ℕ
  used s = s.cursor

  unfoldable pub available : BumpAllocator D → ℕ
  available s = s.capacity - s.cursor
