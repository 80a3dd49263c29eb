-- ===== src/Ir/Bytes/Ranges.antt =====
-- What the byte readers of crates/kwokka-ir/src/flat/reader.rs return, and when.
use kwokka.Base.{
  ℕ, ◌+◌, ◌-◌, ◌<◌, ◌≤◌, ◌≡◌, ap, Option, some, List, length, take, drop, length-take, length-drop,
  arith, u64_mod, checked_add,
}
use kwokka.Ir.Fault.{ok}
use kwokka.Ir.Bytes.{get_range, read_u32, from_le_bytes, as_array}

-- A slice that is there lies within the bytes and has the length of its range.
pub get_range-some :
    (bytes : List ℕ) (from to : ℕ) {s : List ℕ}
    → get_range bytes from to ≡ some s
    → (from ≤ to) × (to ≤ length bytes) × (length s ≡ to - from)
unfolding get_range
get_range-some bytes from to {s} h =
    let parts : (from ≤ to) × (to ≤ length bytes) × (take (to - from) (drop from bytes) ≡ s) =
      ground arith in
    (
      parts.0,
      parts.1,
      omega (
        arith,
        parts,
        ap length parts.2,
        length-take (to - from) (drop from bytes),
        length-drop from bytes,
      ),
    )

pub get_range_total :
    (bytes : List ℕ) (from to : ℕ)
    → from ≤ to
    → to ≤ length bytes
    → (s : List ℕ) × (get_range bytes from to ≡ some s) × (length s ≡ to - from)
unfolding get_range
get_range_total bytes from to h k =
    let s = take (to - from) (drop from bytes) in
    let e : get_range bytes from to ≡ some s = ground arith in
    (s, e, (get_range-some bytes from to e).2)

pub checked_add-some :
    (a b : ℕ) {c : ℕ} → checked_add a b ≡ some c → (c ≡ a + b) × (a + b < u64_mod)
checked_add-some a b h = ground arith

as_array_total :
    (width : ℕ) (o : Option (List ℕ)) {s : List ℕ}
    → o ≡ some s
    → length s ≡ width
    → as_array width o ≡ ok (from_le_bytes s)
as_array_total width o {s} h e = rw h (ground arith)

-- A `u32` can be read wherever four bytes are left.
pub read_u32_total :
    (bytes : List ℕ) (offset : ℕ)
    → offset + 4 ≤ length bytes
    → offset + 4 < u64_mod
    → (n : ℕ) × (read_u32 bytes offset ≡ ok n)
unfolding read_u32
read_u32_total bytes offset h k =
    let r = get_range_total bytes offset (offset + 4) (omega arith) h in
    let c : checked_add offset 4 ≡ some (offset + 4) = ground arith in
    (from_le_bytes r.0, rw (c, as_array_total 4 _ r.1 (omega (arith, r.2))))
