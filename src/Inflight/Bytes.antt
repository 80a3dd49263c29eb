-- ===== src/Inflight/Bytes.antt =====
-- The accesses of crates/kwokka-io/src/buffer/oneshot/inflight.rs to the bytes of a slot.
use kwokka.Base.{ℕ, ◌*◌, not, Option, none, some, List, take, drop, if◌then◌else◌}
use kwokka.Base.Maybe.{◌>>=◌}
use Prim.Native.Nat.{min}
use kwokka.Inflight.{InflightSlotKey, InflightBufSlab, deferred_of, is_live}

module _ {O : Type 0} where
  -- The descriptor, the bytes and the opcode of a deferred operation.
  unfoldable pub retry_parts : InflightBufSlab O → InflightSlotKey → Option (ℕ × List ℕ × O)
  retry_parts s key =
      if not (is_live s key)
      then none
      else (deferred_of s key.slot >>= λ op.
          let len = min op.len s.stride in
          let offset = key.slot * s.stride in
          some (op.fd, take len (drop offset s.storage), op.opcode))

  -- The offset of a live slot's bytes in the region, and the bytes themselves.
  unfoldable pub slot_ptr : InflightBufSlab O → InflightSlotKey → Option ℕ
  slot_ptr s key = if not (is_live s key) then none else some (key.slot * s.stride)

  unfoldable pub slot_slice : InflightBufSlab O → InflightSlotKey → ℕ → Option (List ℕ)
  slot_slice s key len =
      if not (is_live s key)
      then none
      else some (take (min len s.stride) (drop (key.slot * s.stride) s.storage))

  unfoldable pub slot_array : InflightBufSlab O → InflightSlotKey → Option (List ℕ)
  slot_array s key =
      if not (is_live s key)
      then none
      else some (take s.stride (drop (key.slot * s.stride) s.storage))
