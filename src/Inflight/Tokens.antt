-- ===== src/Inflight/Tokens.antt =====
-- The operations of crates/kwokka-io/src/buffer/oneshot/inflight.rs that find a slot by a token or a
-- descriptor.
use kwokka.Base.{
  ℕ, Bool, true, false, ◌&&◌, Option, none, some, set, ltb, ◌==◌, if◌then◌else◌, u16_mod,
}
use kwokka.Base.Maybe.{◌>>=◌}
use kwokka.Bitmap.{test, mark, scan}
use kwokka.Inflight.{
  InflightSlotKey, DeferredOp, Reclaimed, InflightBufSlab, generation_of, token_of, deferred_of,
  release_slot,
}

module _ {O : Type 0} where
  -- The slots are those of a word and a bit, below 256, so `u16::try_from` succeeds on them.
  unfoldable pub free_by_op_token : InflightBufSlab O → ℕ → InflightBufSlab O × Reclaimed O
  free_by_op_token s op_token =
      elim (scan 0 (λ slot. (token_of s slot == op_token) && test s.occupied slot)
        s.retire_pending) [
          | some slot ↦
              if ltb slot u16_mod
              then (release_slot s slot, record { was_freed = true; deferred = deferred_of s slot })
              else (s, record { was_freed = false; deferred = none })
          | none ↦ (s, record { was_freed = false; deferred = none })
        ]

  -- The lowest occupied slot that an operation's token names.
  unfoldable pub slot_of_token : InflightBufSlab O → ℕ → Option ℕ
  slot_of_token s op_token = scan 0 (λ slot. token_of s slot == op_token) s.occupied

  unfoldable pub mark_deferred_by_op_token :
      InflightBufSlab O → ℕ → DeferredOp O → InflightBufSlab O × Bool
  mark_deferred_by_op_token s op_token op = elim (slot_of_token s op_token) [
    | some slot ↦ (record s { deferred = set s.deferred slot (some op) }, true)
    | none ↦ (s, false)
  ]

  unfoldable pub has_fd : InflightBufSlab O → ℕ → ℕ → Bool
  has_fd s fd slot = elim (deferred_of s slot) [ none ↦ false | some op ↦ op.fd == fd ]

  unfoldable pub deferred_key_by_fd : InflightBufSlab O → ℕ → Option InflightSlotKey
  deferred_key_by_fd s fd = scan 0 (has_fd s fd) s.occupied >>= λ slot.
      if ltb slot u16_mod
      then some (record {
        slot = slot;
        generation = generation_of s slot;
        worker_id = s.worker_id;
        op_token = token_of s slot;
      })
      else none

  unfoldable pub mark_notif_expected_by_op_token : InflightBufSlab O → ℕ → InflightBufSlab O
  mark_notif_expected_by_op_token s op_token = elim (slot_of_token s op_token) [
    | some slot ↦ record s { notif_expected = mark s.notif_expected slot }
    | none ↦ s
  ]

  unfoldable pub mark_notif_ready_by_op_token : InflightBufSlab O → ℕ → InflightBufSlab O
  mark_notif_ready_by_op_token s op_token = elim (slot_of_token s op_token) [
    | some slot ↦ record s { notif_ready = mark s.notif_ready slot }
    | none ↦ s
  ]
