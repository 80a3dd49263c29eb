-- ===== src/TaskRef/Tests.antt =====
-- The theorems about crates/kwokka-runtime/src/task/reference/identity.rs at handles of worker 5.
use kwokka.Base.{◌+◌, ◌%◌, ◌^◌, ◌≡◌, false, arith}
use kwokka.SlabKey
use kwokka.TaskRef.{from_slab, is_arena, worker_id, generation, index}
use kwokka.TaskRef.Parts.{from_slab_parts}

from_slab_parts_example :
    (is_arena (from_slab 5 (2 ^ 32 + 9)) ≡ false)
    × (worker_id (from_slab 5 (2 ^ 32 + 9)) ≡ 5 % 2 ^ 7)
    × (generation (from_slab 5 (2 ^ 32 + 9)) ≡ SlabKey.generation (2 ^ 32 + 9))
    × (index (from_slab 5 (2 ^ 32 + 9)) ≡ SlabKey.index (2 ^ 32 + 9))
from_slab_parts_example = from_slab_parts 5 (2 ^ 32 + 9) (omega arith)
