-- ===== src/TaskRef/Parts.antt =====
-- The fields of a packed task handle (crates/kwokka-runtime/src/task/reference/identity.rs).
use kwokka.Base.{
  ℕ, ◌+◌, ◌-◌, ◌*◌, ◌/◌, ◌%◌, ◌^◌, ◌<◌, ◌≡◌, ap, ◌∙◌, true, false, arith, bit_and, bit_or, u32_mod,
  u64_mod,
}
use kwokka.Base.Bits.{bit_and-mask, bit_or-shifted}
use kwokka.Generation.{get_lem}
use kwokka.Generation
use kwokka.SlabKey.{to_bits, index_lem, generation_lem}
use kwokka.SlabKey
use kwokka.TaskRef.{from_slab, from_arena, is_arena, worker_id, generation, index}

from_slab_lem : (w key : ℕ) → key < 2 ^ 56 → from_slab w key ≡ w % 2 ^ 7 * 2 ^ 56 + key
unfolding from_slab to_bits
from_slab_lem w key h =
    ap (λ t. bit_or t key) (omega (arith, bit_and-mask 7 w)) ∙ bit_or-shifted 56 (w % 2 ^ 7) key h

from_arena_lem :
    (w offset g : ℕ)
    → offset < u32_mod
    → from_arena w offset g ≡ 2 ^ 63 + w % 2 ^ 7 * 2 ^ 56 + g % 2 ^ 24 * 2 ^ 32 + offset
unfolding from_arena
from_arena_lem w offset g h =
    let worker : bit_and w (2 ^ 7 - 1) * 2 ^ 56 % u64_mod ≡ w % 2 ^ 7 * 2 ^ 56 =
      omega (arith, bit_and-mask 7 w) in
    let gen : Generation.get g * 2 ^ 32 % u64_mod ≡ g % 2 ^ 24 * 2 ^ 32 =
      omega (arith, get_lem g) in
    let tag = bit_or-shifted 63 1 (w % 2 ^ 7 * 2 ^ 56) (omega arith) in
    let upper : 1 * 2 ^ 63 + w % 2 ^ 7 * 2 ^ 56 ≡ (2 ^ 7 + w % 2 ^ 7) * 2 ^ 56 = omega arith in
    let mid = bit_or-shifted 56 (2 ^ 7 + w % 2 ^ 7) (g % 2 ^ 24 * 2 ^ 32) (omega arith) in
    let whole : (2 ^ 7 + w % 2 ^ 7) * 2 ^ 56 + g % 2 ^ 24 * 2 ^ 32
        ≡ ((2 ^ 7 + w % 2 ^ 7) * 2 ^ 24 + g % 2 ^ 24) * 2 ^ 32 =
      omega arith in
    let low = bit_or-shifted 32 ((2 ^ 7 + w % 2 ^ 7) * 2 ^ 24 + g % 2 ^ 24) offset h in
    rw (worker, gen)
      (ap (λ t. bit_or (bit_or t (g % 2 ^ 24 * 2 ^ 32)) offset) (tag ∙ upper)
        ∙ ap (λ t. bit_or t offset) (mid ∙ whole)
        ∙ low
        ∙ omega arith)

worker_id_lem : (r : ℕ) → worker_id r ≡ r / 2 ^ 56 % 2 ^ 7
unfolding worker_id
worker_id_lem r = omega (arith, bit_and-mask 7 (r / 2 ^ 56))

generation_parts_lem : (r : ℕ) → generation r ≡ r / 2 ^ 32 % 2 ^ 24
unfolding generation Generation.from_raw
generation_parts_lem r = omega (arith, bit_and-mask 24 (r / 2 ^ 32))

index_parts_lem : (r : ℕ) → index r ≡ r % u32_mod
unfolding index
index_parts_lem r = omega (arith, bit_and-mask 32 r)

-- A slab-path handle answers that it is one, gives back the worker cut to 7 bits, and has the index
-- and the generation of its slab key, whose top eight bits are zero.
pub from_slab_parts :
    (w key : ℕ)
    → key < 2 ^ 56
    → (is_arena (from_slab w key) ≡ false)
      × (worker_id (from_slab w key) ≡ w % 2 ^ 7)
      × (generation (from_slab w key) ≡ SlabKey.generation key)
      × (index (from_slab w key) ≡ SlabKey.index key)
unfolding is_arena
from_slab_parts w key h =
    let r = from_slab w key in
    let e = from_slab_lem w key h in
    (
      ground (arith, e),
      omega (arith, worker_id_lem r, e),
      omega (arith, generation_parts_lem r, e, generation_lem key),
      omega (arith, index_parts_lem r, e, index_lem key),
    )

-- An arena-path handle answers that it is one, and gives back the worker cut to 7 bits, the
-- generation cut to 24 and the offset.
pub from_arena_parts :
    (w offset g : ℕ)
    → offset < u32_mod
    → (is_arena (from_arena w offset g) ≡ true)
      × (worker_id (from_arena w offset g) ≡ w % 2 ^ 7)
      × (generation (from_arena w offset g) ≡ g % 2 ^ 24)
      × (index (from_arena w offset g) ≡ offset)
unfolding is_arena
from_arena_parts w offset g h =
    let r = from_arena w offset g in
    let e = from_arena_lem w offset g h in
    (
      ground (arith, e),
      omega (arith, worker_id_lem r, e),
      omega (arith, generation_parts_lem r, e),
      omega (arith, index_parts_lem r, e),
    )
