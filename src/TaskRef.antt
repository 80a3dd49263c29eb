-- ===== src/TaskRef.antt =====
-- crates/kwokka-runtime/src/task/reference/identity.rs: the 64-bit task handle. A `TaskRef` is its
-- `u64`.
pub mod Parts
mod Tests
use kwokka.Base.{ℕ, ◌-◌, ◌*◌, ◌/◌, ◌%◌, ◌^◌, Bool, ◌==◌, bit_and, bit_or, u32_mod, u64_mod}
use kwokka.Generation.{generation_max}
use kwokka.Generation
use kwokka.SlabKey.{to_bits}

abbrev pub tag_shift : ℕ
tag_shift = 63

abbrev pub tag_arena_bit : ℕ
tag_arena_bit = 2 ^ tag_shift

abbrev pub worker_shift : ℕ
worker_shift = 56

abbrev pub worker_mask : ℕ
worker_mask = 2 ^ 7 - 1

abbrev pub generation_shift : ℕ
generation_shift = 32

abbrev pub index_mask : ℕ
index_mask = u32_mod - 1

-- `TaskRef::WORKER_ID_MAX`.
abbrev pub worker_id_max : ℕ
worker_id_max = 2 ^ 7 - 1

-- `TaskRef::from_slab`.
unfoldable pub from_slab : ℕ → ℕ → ℕ
from_slab worker key =
    bit_or (bit_and worker worker_id_max * 2 ^ worker_shift % u64_mod) (to_bits key)

-- `TaskRef::from_arena`.
unfoldable pub from_arena : ℕ → ℕ → ℕ → ℕ
from_arena worker offset generation =
    bit_or
      (bit_or (bit_or tag_arena_bit (bit_and worker worker_id_max * 2 ^ worker_shift % u64_mod))
        (Generation.get generation * 2 ^ generation_shift % u64_mod))
      offset

-- `TaskRef::is_arena`.
unfoldable pub is_arena : ℕ → Bool
is_arena r = r / 2 ^ tag_shift == 1

-- `TaskRef::worker_id`.
unfoldable pub worker_id : ℕ → ℕ
worker_id r = bit_and (r / 2 ^ worker_shift) worker_mask % 2 ^ 8

-- `TaskRef::generation`.
unfoldable pub generation : ℕ → ℕ
generation r = Generation.from_raw (bit_and (r / 2 ^ generation_shift) generation_max % u32_mod)

-- `TaskRef::index`.
unfoldable pub index : ℕ → ℕ
index r = bit_and r index_mask % u32_mod

-- `TaskRef::raw` and `TaskRef::from_raw`.
unfoldable pub raw : ℕ → ℕ
raw r = r

unfoldable pub from_raw : ℕ → ℕ
from_raw bits = bits
