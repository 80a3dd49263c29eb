-- ===== src/Inflight/Reclaim.antt =====
-- Which calls of crates/kwokka-io/src/buffer/oneshot/inflight.rs free a slot, and when.
use kwokka.Base.{
  ℕ, ◌<◌, ◌≡◌, ◌⊎◌, inl, inr, refl, ap, ◌∙◌, true, false, arith, Bool-cases, Option-cases, lt→ltb,
  lt→leb_false, le→leb, u16_mod, bit_and,
}
use mathlib.Core.Path.{subst}
use native.Mathlib.Decide.{ℕ_discrete, dec_lt}
use kwokka.Bitmap.{test}
use kwokka.Bitmap.Laws.{test-mark_self, test-mark_ne, test-unmark_ne}
use kwokka.Inflight.{
  InflightBufSlab, generation_of, token_of, is_live, release_slot, allocate, allocate_at,
  first_free, free, mark_retire_pending, is_reclaimable, free_if_retire_pending, retire_deferred,
}
use kwokka.Inflight.Tokens.{
  free_by_op_token, slot_of_token, mark_deferred_by_op_token, mark_notif_expected_by_op_token,
  mark_notif_ready_by_op_token,
}
use kwokka.Inflight.Invariant.{IsValid, word-lt}
use kwokka.Inflight.Find.{token_slot, token_slot-held, is_live-parts, first_free-lowest}
use kwokka.Inflight.Step.{
  Call, allocates, frees, retires, frees_token, frees_pending, defers, takes_deferred,
  expects_notif, readies_notif, step,
}

module _ {O : Type 0} where
  -- The call may free slot `j`.
  abbrev pub MayFree : InflightBufSlab O → Call O → ℕ → Type 0
  MayFree s (frees key) j = (j ≡ key.slot) × (is_live s key ≡ true)
  MayFree s (frees_token op_token) j =
      (test s.retire_pending j ≡ true) × (test s.occupied j ≡ true) × (token_of s j ≡ op_token)
  MayFree s (frees_pending slot low) j =
      (j ≡ slot)
      × (test s.retire_pending j ≡ true)
      × (bit_and (generation_of s j) 65535 ≡ low)
      × ((test s.notif_expected j ≡ false) ⊎ (test s.notif_ready j ≡ true))
  MayFree s (allocates op_token) j = ⊥
  MayFree s (retires key) j = ⊥
  MayFree s (defers op_token op) j = ⊥
  MayFree s (takes_deferred key) j = ⊥
  MayFree s (expects_notif op_token) j = ⊥
  MayFree s (readies_notif op_token) j = ⊥

  -- The generations stay, and so do the occupied slots.
  abbrev pub Keeps : InflightBufSlab O → InflightBufSlab O → Type 0
  Keeps s t =
      (t.generation ≡ s.generation)
      × ((i : ℕ) → i < 256 → test s.occupied i ≡ true → test t.occupied i ≡ true)

  abbrev Releases : InflightBufSlab O → Call O → InflightBufSlab O → Type 0
  Releases s c t = (j : ℕ) × (j < 256) × (t ≡ release_slot s j) × MayFree s c j

  allocate_at-Keeps :
      (s : InflightBufSlab O) (op_token i : ℕ)
      → IsValid s
      → i < 256
      → Keeps s (allocate_at s op_token i).0
  unfolding allocate_at
  allocate_at-Keeps s op_token i w h = (
    refl,
    λ j l on. elim (ℕ_discrete i j) [
      | yes same ↦ rw (← same) (test-mark_self s.occupied i (word-lt i w.occupied h))
      | no ne ↦ test-mark_ne s.occupied i j (word-lt i w.occupied h) ne ∙ on
    ],
  )

  reclaimable-MayFree :
      (s : InflightBufSlab O) (slot low : ℕ)
      → is_reclaimable s slot low ≡ true
      → MayFree s (frees_pending slot low) slot
  unfolding is_reclaimable
  reclaimable-MayFree s slot low h = ground arith

  -- Every call keeps the generations and the occupied slots, or releases one slot that it may free.
  pub step-shape :
      (s : InflightBufSlab O) (c : Call O)
      → IsValid s
      → Keeps s (step s c) ⊎ Releases s c (step s c)
  unfolding step allocate free mark_retire_pending free_by_op_token free_if_retire_pending
      mark_deferred_by_op_token retire_deferred mark_notif_expected_by_op_token
      mark_notif_ready_by_op_token
  step-shape s (allocates op_token) w = elim (Option-cases (first_free s)) [
    | inl e ↦ rw (step, e) (inl (refl, λ i h on. on))
    | inr (i, e) ↦
        let below = (first_free-lowest s i w e).0 in
        rw (step, e) (inl (allocate_at-Keeps s op_token i w (omega (arith, w.small))))
  ]
  step-shape s (frees key) w = elim (Bool-cases (is_live s key)) [
    | inl e ↦
        let below = (is_live-parts s key e).0 in
        inr (key.slot, omega (arith, w.small), rw (step, e) refl, (refl, e))
    | inr e ↦ rw (step, e) (inl (refl, λ i h on. on))
  ]
  step-shape s (frees_token op_token) w = elim (Option-cases (token_slot s op_token)) [
    | inl e ↦ rw (step, e) (inl (refl, λ i h on. on))
    | inr (i, e) ↦
        let (l, pending, on, named) = token_slot-held s op_token i w e in
        inr (i, l, rw (step, e, lt→ltb i u16_mod (omega arith)) refl, (pending, on, named))
  ]
  step-shape s (frees_pending slot low) w = elim (dec_lt slot s.cap) [
    | yes h ↦ elim (Bool-cases (is_reclaimable s slot low)) [
      | inl e ↦ inr (
        slot,
        omega (arith, w.small),
        rw (step, lt→leb_false s.cap slot h, e) refl,
        reclaimable-MayFree s slot low e,
      )
      | inr e ↦ rw (step, lt→leb_false s.cap slot h, e) (inl (refl, λ i l on. on))
    ]
    | no g ↦ rw (step, le→leb s.cap slot (omega arith)) (inl (refl, λ i l on. on))
  ]
  step-shape s (retires key) w = elim (Bool-cases (is_live s key)) [
    | inl e ↦ rw (step, e) (inl (refl, λ i h on. on))
    | inr e ↦ rw (step, e) (inl (refl, λ i h on. on))
  ]
  step-shape s (defers op_token op) w = elim (Option-cases (slot_of_token s op_token)) [
    | inl e ↦ rw (step, e) (inl (refl, λ i h on. on))
    | inr (i, e) ↦ rw (step, e) (inl (refl, λ j h on. on))
  ]
  step-shape s (takes_deferred key) w = elim (Bool-cases (is_live s key)) [
    | inl e ↦ rw (step, e) (inl (refl, λ i h on. on))
    | inr e ↦ rw (step, e) (inl (refl, λ i h on. on))
  ]
  step-shape s (expects_notif op_token) w = elim (Option-cases (slot_of_token s op_token)) [
    | inl e ↦ rw (mark_notif_expected_by_op_token, e) (inl (refl, λ i h on. on))
    | inr (i, e) ↦ rw (mark_notif_expected_by_op_token, e) (inl (refl, λ j h on. on))
  ]
  step-shape s (readies_notif op_token) w = elim (Option-cases (slot_of_token s op_token)) [
    | inl e ↦ rw (mark_notif_ready_by_op_token, e) (inl (refl, λ i h on. on))
    | inr (i, e) ↦ rw (mark_notif_ready_by_op_token, e) (inl (refl, λ j h on. on))
  ]

  -- A slot's buffer is given back only by `free` with its live key, by `free_by_op_token` with its
  -- token once it is retire-pending, or by `free_if_retire_pending` with its slot and the low bits
  -- of its generation once it is retire-pending and no notification is outstanding.
  pub step-frees :
      (s : InflightBufSlab O) (c : Call O) (i : ℕ)
      → IsValid s
      → i < 256
      → test s.occupied i ≡ true
      → test (step s c).occupied i ≡ false
      → MayFree s c i
  unfolding release_slot
  step-frees s c i w h on off = elim (step-shape s c w) [
    | inl (same, keeps) ↦ let still = keeps i h on in absurd cc
    | inr (j, l, e, may) ↦ elim (ℕ_discrete j i) [
      | yes same ↦ subst (MayFree s c) same may
      | no ne ↦
          let still : test (step s c).occupied i ≡ true =
            ap (λ t. test t.occupied i) e
            ∙ test-unmark_ne s.occupied j i (word-lt j w.occupied l) ne
            ∙ on in
          absurd cc
    ]
  ]
