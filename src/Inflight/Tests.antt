-- ===== src/Inflight/Tests.antt =====
-- Runs of crates/kwokka-io/src/buffer/oneshot/inflight.rs on a registry of two slots.
use kwokka.Base.{ℕ, ◌*◌, ◌≡◌, refl, true, false, none, some, [], ◌∷◌, arith}
use kwokka.Bitmap.{
  test, mark, unmark, has_bit, set_bit, clear_bit, word_bit, trailing_zeros, scan, scan_word,
}
use kwokka.Inflight.{
  InflightSlotKey, InflightBufSlab, new, allocate, allocate_at, first_free, first_free_from,
  first_free_in, is_live, free, release_slot, mark_retire_pending, replicate,
  free_if_retire_pending, is_reclaimable,
}
use kwokka.Inflight.Tokens.{free_by_op_token, slot_of_token, mark_notif_expected_by_op_token}
use kwokka.Inflight.Invariant.{IsValid}
use kwokka.Inflight.Find.{IsLowestFree, IsClean, allocate-fresh}
use kwokka.Inflight.Step.{
  allocates, retires, frees_token, expects_notif, step, run, step-IsValid, run-IsValid,
}
use kwokka.Inflight.Reclaim.{MayFree, step-frees}
use kwokka.Inflight.Stale.{free-stale}
use kwokka.Inflight.View.{new-IsValid}

abbrev fresh : InflightBufSlab ℕ
fresh = new ℕ (replicate (2 * 4096) 0) 3 2

-- One operation in flight, with token 70 in slot 0.
abbrev one_held : InflightBufSlab ℕ
one_held = step fresh (allocates 70)

abbrev first_key : InflightSlotKey
first_key = record { slot = 0; generation = 0; worker_id = 3; op_token = 70 }

allocate_first : allocate fresh 70 ≡ some (one_held, first_key)
unfolding step allocate allocate_at first_free first_free_from first_free_in trailing_zeros mark new
allocate_first = refl

first_live : is_live one_held first_key ≡ true
unfolding step allocate allocate_at first_free first_free_from first_free_in trailing_zeros mark new
    is_live test has_bit set_bit word_bit
first_live = refl

one_held-IsValid : IsValid one_held
one_held-IsValid = step-IsValid fresh (allocates 70) (new-IsValid (replicate (2 * 4096) 0) 3 2)

step-IsValid_example : IsValid (step one_held (retires first_key))
step-IsValid_example = step-IsValid one_held (retires first_key) one_held-IsValid

allocate-fresh_example :
    IsLowestFree fresh 0 × (is_live one_held first_key ≡ true) × IsClean one_held 0
allocate-fresh_example =
    allocate-fresh fresh one_held 70 first_key (new-IsValid (replicate (2 * 4096) 0) 3 2)
      allocate_first

free-stale_example :
    is_live (run (free one_held first_key).0 (allocates 70 ∷ allocates 71 ∷ [])) first_key ≡ false
free-stale_example =
    free-stale one_held first_key (allocates 70 ∷ allocates 71 ∷ []) one_held-IsValid first_live
      (omega arith)

-- The future is dropped while a notification is expected, so only the notification frees the slot.
abbrev waiting : InflightBufSlab ℕ
waiting = run one_held (retires first_key ∷ expects_notif 70 ∷ [])

waiting_kept : (free_if_retire_pending waiting 0 0).1 ≡ none
unfolding run step allocate allocate_at first_free first_free_from first_free_in trailing_zeros mark
    new is_live test has_bit set_bit word_bit mark_retire_pending mark_notif_expected_by_op_token
    slot_of_token scan scan_word free_if_retire_pending is_reclaimable
waiting_kept = refl

waiting_held : test waiting.occupied 0 ≡ true
unfolding run step allocate allocate_at first_free first_free_from first_free_in trailing_zeros mark
    new is_live test has_bit set_bit word_bit mark_retire_pending mark_notif_expected_by_op_token
    slot_of_token scan scan_word
waiting_held = refl

waiting_freed : test (step waiting (frees_token 70)).occupied 0 ≡ false
unfolding run step allocate allocate_at first_free first_free_from first_free_in trailing_zeros mark
    new is_live test has_bit set_bit word_bit mark_retire_pending mark_notif_expected_by_op_token
    slot_of_token scan scan_word free_by_op_token release_slot unmark clear_bit
waiting_freed = refl

step-frees_example : MayFree waiting (frees_token 70) 0
step-frees_example =
    step-frees waiting (frees_token 70) 0
      (run-IsValid one_held (retires first_key ∷ expects_notif 70 ∷ []) one_held-IsValid)
      (omega arith) waiting_held waiting_freed
