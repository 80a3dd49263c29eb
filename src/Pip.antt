-- ===== src/Pip.antt =====
-- crates/kwokka-core/src/id: the packed 128-bit identifier. A `Pip` is its `u128`; the process-wide
-- sequence counter is an argument, and its next value is returned with the result.
pub mod Parts
mod Tests
use kwokka.Base.{
  ℕ, ◌+◌, ◌-◌, ◌*◌, ◌/◌, ◌%◌, ◌^◌, Bool, ◌&&◌, ◌==◌, ltb, leb, if◌then◌else◌, Option, none, some,
  bit_and, bit_or, u64_mod,
}

abbrev pub seq_shift : ℕ
seq_shift = 80

abbrev pub seq_mask : ℕ
seq_mask = (2 ^ 48 - 1) * 2 ^ seq_shift

abbrev pub depth_shift : ℕ
depth_shift = 64

abbrev pub depth_mask : ℕ
depth_mask = (2 ^ 16 - 1) * 2 ^ depth_shift

abbrev pub version_shift : ℕ
version_shift = 40

abbrev pub current_version : ℕ
current_version = 0

abbrev pub worker_shift : ℕ
worker_shift = 2

abbrev pub worker_bits : ℕ
worker_bits = 38

abbrev pub worker_mask : ℕ
worker_mask = (2 ^ worker_bits - 1) * 2 ^ worker_shift

-- `Pip::as_u128`.
abbrev pub as_u128 : ℕ → ℕ
as_u128 pip = pip

-- `Pip::depth`.
unfoldable pub depth : ℕ → ℕ
depth pip = bit_and pip depth_mask / 2 ^ depth_shift % 2 ^ 16

-- `Pip::seq`.
unfoldable pub seq : ℕ → ℕ
seq pip = bit_and pip seq_mask / 2 ^ seq_shift % u64_mod

-- `Pip::worker_id`.
unfoldable pub worker_id : ℕ → ℕ
worker_id pip = bit_and pip worker_mask / 2 ^ worker_shift % u64_mod

-- `pack`: a shift in `u128` drops the bits above 127.
unfoldable pub pack : ℕ → ℕ → ℕ → ℕ
pack seq depth worker =
    let worker_masked = bit_and worker (2 ^ worker_bits - 1) in
    bit_or
      (bit_or (bit_or (seq * 2 ^ seq_shift % 2 ^ 128) (depth * 2 ^ depth_shift % 2 ^ 128))
        (current_version * 2 ^ version_shift % 2 ^ 128))
      (worker_masked * 2 ^ worker_shift % 2 ^ 128)

-- `next_seq`: the number handed out, and the counter after it.
unfoldable pub next_seq : ℕ → ℕ × ℕ
next_seq counter = (counter, (counter + 1) % u64_mod)

-- `Pip::root_on`; `Pip::root` and `Pip::detached` are worker 0.
unfoldable pub root_on : ℕ → ℕ → ℕ × ℕ
unfolding next_seq
root_on worker counter = let n = next_seq counter in (pack n.0 0 worker, n.1)

unfoldable pub root : ℕ → ℕ × ℕ
unfolding next_seq
root counter = let n = next_seq counter in (pack n.0 0 0, n.1)

unfoldable pub issue : ℕ → ℕ → ℕ
issue worker seq = pack seq 0 worker

-- `Pip::child`; `none` is `DepthOverflow`, which leaves the counter alone.
unfoldable pub child : ℕ → ℕ → Option ℕ × ℕ
unfolding next_seq
child parent counter =
    if leb (2 ^ 16) (depth parent + 1)
    then (none, counter)
    else let n = next_seq counter in (some (pack n.0 (depth parent + 1) (worker_id parent)), n.1)

-- `Pip::is_parent_of` and `Pip::is_ancestor_of`.
unfoldable pub is_parent_of : ℕ → ℕ → Bool
is_parent_of a b = ((depth a + 1) % 2 ^ 16 == depth b) && ltb (seq a) (seq b)

unfoldable pub is_ancestor_of : ℕ → ℕ → Bool
is_ancestor_of a b = ltb (depth a) (depth b) && ltb (seq a) (seq b)
