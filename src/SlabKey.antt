-- ===== src/SlabKey.antt =====
-- crates/kwokka-core/src/slab/key.rs: the 64-bit packed slot reference. A `SlabKey` is its `u64`,
-- and a generation is the `u32` that it wraps.
use kwokka.Base.{
  ℕ, ◌+◌, ◌-◌, ◌*◌, ◌/◌, ◌%◌, ◌^◌, ◌<◌, ◌≡◌, ap, ◌∙◌, bit_and, bit_or, arith, u64_mod, u32_mod,
}
use kwokka.Base.Bits.{bit_and-mask, bit_or-shifted}
use kwokka.Generation.{get_lem, generation_max}
use kwokka.Generation

abbrev index_bits : ℕ
index_bits = 32

abbrev index_mask : ℕ
index_mask = 2 ^ index_bits - 1

-- `SlabKey::new`.
unfoldable pub new : ℕ → ℕ → ℕ
new index generation = bit_or (Generation.get generation * 2 ^ index_bits % u64_mod) index

-- `SlabKey::index`.
unfoldable pub index : ℕ → ℕ
index key = bit_and key index_mask % u32_mod

-- `SlabKey::generation`.
unfoldable pub generation : ℕ → ℕ
generation key = bit_and (key / 2 ^ index_bits) generation_max % u32_mod

-- `SlabKey::to_bits`.
unfoldable pub to_bits : ℕ → ℕ
to_bits key = key

pub new_lem : (i g : ℕ) → i < u32_mod → new i g ≡ g % 2 ^ 24 * 2 ^ 32 + i
unfolding new
new_lem i g h = ap (λ t. bit_or t i) (omega (arith, get_lem g)) ∙ bit_or-shifted 32 (g % 2 ^ 24) i h

pub index_lem : (k : ℕ) → index k ≡ k % u32_mod
unfolding index
index_lem k = omega (arith, bit_and-mask 32 k)

pub generation_lem : (k : ℕ) → generation k ≡ k / 2 ^ 32 % 2 ^ 24
unfolding generation
generation_lem k = omega (arith, bit_and-mask 24 (k / 2 ^ 32))

pub generation-lt : (k : ℕ) → generation k < 2 ^ 24
generation-lt k = omega (arith, generation_lem k)

pub index-new : (i g : ℕ) → i < u32_mod → index (new i g) ≡ i
index-new i g h = omega (arith, new_lem i g h, index_lem (new i g))

pub generation-new : (i g : ℕ) → i < u32_mod → generation (new i g) ≡ g % 2 ^ 24
generation-new i g h = omega (arith, new_lem i g h, generation_lem (new i g))

-- A key packed from an index and a generation gives both back, the generation cut to 24 bits, and
-- the eight bits above them are zero; a key whose top eight bits are zero is packed from its parts.
pub new_parts :
    (i g k : ℕ)
    → i < u32_mod
    → k < 2 ^ 56
    → (index (new i g) ≡ i)
      × (generation (new i g) ≡ g % 2 ^ 24)
      × (to_bits (new i g) < 2 ^ 56)
      × (new (index k) (generation k) ≡ k)
unfolding to_bits
new_parts i g k h hk = (
  index-new i g h,
  generation-new i g h,
  omega (arith, new_lem i g h),
  omega (arith, index_lem k, generation_lem k, new_lem (index k) (generation k)),
)
