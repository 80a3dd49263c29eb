-- ===== src/Arena/Tests.antt =====
-- Runs of crates/kwokka-core/src/arena/bump.rs on an arena of 64 bytes at address 4096.
use kwokka.Base.{ℕ, ◌+◌, ◌≡◌, refl, List, [], ◌∷◌}
use kwokka.Arena.{
  from_size_align, ok, Layout, BumpAllocator, from_builder, align_up, alloc, alloc_raw,
  alloc_aligned, alloc_with_drop, alloc_slice, freeze, reset, run_drops,
}
use kwokka.Arena.Bounds.{IsLayout}
use kwokka.Arena.Run.{
  Call, allocs, allocs_drop, allocs_slice, freezes, resets, Region, step, run, Packed,
}
use kwokka.Arena.Start.{started, fresh_arena, run-Packed}

abbrev byte : Layout
byte = record { size = 1; align = 1 }

abbrev word : Layout
word = record { size = 8; align = 8 }

abbrev byte-IsLayout : IsLayout byte
byte-IsLayout = record { exponent = 0; power = refl }

abbrev word-IsLayout : IsLayout word
word-IsLayout = record { exponent = 3; power = refl }

abbrev arena : BumpAllocator ℕ
arena = fresh_arena 4096 64 2 16

built_arena : from_builder 4096 64 2 16 ≡ ok arena
unfolding from_builder from_size_align
built_arena = refl

-- A byte, a word past the padding, three words, and one more slice that does not fit.
abbrev calls : List (Call ℕ)
calls =
    allocs byte byte-IsLayout
    ∷ allocs_drop word word-IsLayout 9
    ∷ allocs_slice word word-IsLayout 3
    ∷ allocs_slice word word-IsLayout 4
    ∷ []

abbrev regions : List Region
regions =
    record { start = 4112; layout = record { size = 24; align = 8 } }
    ∷ record { start = 4104; layout = word }
    ∷ record { start = 4096; layout = byte }
    ∷ []

run_regions : (run (started arena) calls).regions ≡ regions
unfolding run step alloc alloc_raw alloc_aligned alloc_with_drop alloc_slice from_size_align
    align_up
run_regions = refl

run-Packed_example : Packed 4096 (4096 + 64) (run (started arena) calls).regions
run-Packed_example = run-Packed 4096 64 2 16 arena calls built_arena refl

-- The value registered is dropped at the reset, and nothing is left to drop.
run_dropped : (run (started arena) (resets ∷ calls)).dropped ≡ []
unfolding run step alloc alloc_raw alloc_aligned alloc_with_drop alloc_slice from_size_align
    align_up reset run_drops
run_dropped = refl

frozen_refuses : (run (started arena) (freezes ∷ calls)).regions ≡ []
unfolding run step alloc alloc_raw alloc_aligned alloc_with_drop alloc_slice from_size_align
    align_up freeze
frozen_refuses = refl
