-- ===== src/Ir/Bytes.antt =====
-- The byte readers of crates/kwokka-ir/src/flat/reader.rs.
pub mod Ranges
use kwokka.Base.{
  ℕ, ◌+◌, ◌-◌, ◌*◌, ◌&&◌, ◌==◌, leb, if◌then◌else◌, Option, none, some, List, [], ◌∷◌, length,
  get_elem?, take, drop, checked_add,
}
use kwokka.Ir.Fault.{truncated, Result, ok, err, ◌>>=◌, ok_or}

-- `bytes.get(from..to)`.
unfoldable pub get_range : List ℕ → ℕ → ℕ → Option (List ℕ)
get_range bytes from to =
    if leb from to && leb to (length bytes) then some (take (to - from) (drop from bytes)) else none

-- `from_le_bytes`.
abbrev pub from_le_bytes : List ℕ → ℕ
from_le_bytes [] = 0
from_le_bytes (b ∷ bs) = b + 256 * from_le_bytes bs

-- A slice as an array of `width` bytes, or `Truncated`.
abbrev pub as_array : ℕ → Option (List ℕ) → Result ℕ
as_array width none = err truncated
as_array width (some bs) = if length bs == width then ok (from_le_bytes bs) else err truncated

unfoldable pub read_u8 : List ℕ → ℕ → Result ℕ
read_u8 bytes offset = ok_or (get_elem? bytes offset) truncated

unfoldable pub read_u16 : List ℕ → ℕ → Result ℕ
read_u16 bytes offset = do
  end ← ok_or (checked_add offset 2) truncated
  as_array 2 (get_range bytes offset end)

unfoldable pub read_u32 : List ℕ → ℕ → Result ℕ
read_u32 bytes offset = do
  end ← ok_or (checked_add offset 4) truncated
  as_array 4 (get_range bytes offset end)

unfoldable pub read_u64 : List ℕ → ℕ → Result ℕ
read_u64 bytes offset = do
  end ← ok_or (checked_add offset 8) truncated
  as_array 8 (get_range bytes offset end)
