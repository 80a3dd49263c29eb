-- ===== src/Inflight/Step.antt =====
-- The mutating calls of crates/kwokka-io/src/buffer/oneshot/inflight.rs as a type, and what every
-- sequence of them keeps.
use kwokka.Base.{
  ℕ, ◌<◌, ◌≡◌, inl, inr, sym, ap, ◌∙◌, true, Option, none, some, List, [], ◌∷◌, get_or, set,
  length-set, get_or-set_self, get_or-set_ne, arith, Bool-cases, Option-cases, lt→ltb, lt→leb_false,
  le→leb, u16_mod,
}
use native.Mathlib.Decide.{ℕ_discrete, dec_lt}
use kwokka.Bitmap.{test}
use kwokka.Inflight.{
  InflightSlotKey, DeferredOp, InflightBufSlab, is_live, allocate, first_free, free,
  mark_retire_pending, is_reclaimable, free_if_retire_pending, retire_deferred,
}
use kwokka.Inflight.Tokens.{
  free_by_op_token, slot_of_token, mark_deferred_by_op_token, mark_notif_expected_by_op_token,
  mark_notif_ready_by_op_token,
}
use kwokka.Inflight.Invariant.{
  IsBitmap, Within, IsValid, mark-IsBitmap, Within-mark, release_slot-IsValid, allocate_at-IsValid,
}
use kwokka.Inflight.Find.{
  slot_of_token-held, token_slot, token_slot-held, is_live-parts, first_free-lowest,
}

pub data Call (O : Type 0) : Type 0 where
  allocates : ℕ → Call O
  frees : InflightSlotKey → Call O
  retires : InflightSlotKey → Call O
  frees_token : ℕ → Call O
  frees_pending : ℕ → ℕ → Call O
  defers : ℕ → DeferredOp O → Call O
  takes_deferred : InflightSlotKey → Call O
  expects_notif : ℕ → Call O
  readies_notif : ℕ → Call O

module _ {O : Type 0} where
  abbrev pub after_allocate :
      InflightBufSlab O → Option (InflightBufSlab O × InflightSlotKey) → InflightBufSlab O
  after_allocate s none = s
  after_allocate s (some (t, key)) = t

  unfoldable pub step : InflightBufSlab O → Call O → InflightBufSlab O
  step s (allocates op_token) = after_allocate s (allocate s op_token)
  step s (frees key) = (free s key).0
  step s (retires key) = mark_retire_pending s key
  step s (frees_token op_token) = (free_by_op_token s op_token).0
  step s (frees_pending slot low) = (free_if_retire_pending s slot low).0
  step s (defers op_token op) = (mark_deferred_by_op_token s op_token op).0
  step s (takes_deferred key) = (retire_deferred s key).0
  step s (expects_notif op_token) = mark_notif_expected_by_op_token s op_token
  step s (readies_notif op_token) = mark_notif_ready_by_op_token s op_token

  unfoldable pub run : InflightBufSlab O → List (Call O) → InflightBufSlab O
  run s [] = s
  run s (c ∷ cs) = run (step s c) cs

  flags-IsValid :
      (s : InflightBufSlab O) {p e r : List ℕ}
      → IsValid s
      → IsBitmap p × Within p s.occupied
      → IsBitmap e × Within e s.occupied
      → IsBitmap r × Within r s.occupied
      → IsValid (record s { retire_pending = p; notif_expected = e; notif_ready = r })
  flags-IsValid s w (bp, wp) (be, we) (br, wr) = record {
    occupied = w.occupied;
    retire_pending = bp;
    notif_expected = be;
    notif_ready = br;
    generations = w.generations;
    bumps = w.bumps;
    tokens = w.tokens;
    records = w.records;
    small = w.small;
    inside = w.inside;
    pending_held = wp;
    expected_held = we;
    ready_held = wr;
    deferred_held = w.deferred_held;
  }

  deferred-IsValid :
      (s : InflightBufSlab O) (i : ℕ) (d : Option (DeferredOp O))
      → IsValid s
      → i < 256
      → ((op : DeferredOp O) → d ≡ some op → test s.occupied i ≡ true)
      → IsValid (record s { deferred = set s.deferred i d })
  deferred-IsValid s i d w h held = record {
    occupied = w.occupied;
    retire_pending = w.retire_pending;
    notif_expected = w.notif_expected;
    notif_ready = w.notif_ready;
    generations = w.generations;
    bumps = w.bumps;
    tokens = w.tokens;
    records = length-set s.deferred i d ∙ w.records;
    small = w.small;
    inside = w.inside;
    pending_held = w.pending_held;
    expected_held = w.expected_held;
    ready_held = w.ready_held;
    deferred_held = λ j op l e. elim (ℕ_discrete i j) [
      | yes same ↦
          let self : get_or (set s.deferred i d) i none ≡ d =
            get_or-set_self s.deferred i d none (omega (arith, w.records)) in
          let on = sym self ∙ ap (λ n. get_or (set s.deferred i d) n none) same ∙ e in
          ap (test s.occupied) (sym same) ∙ held op on
      | no ne ↦ w.deferred_held j op l (sym (get_or-set_ne s.deferred i j d none ne) ∙ e)
    ];
  }

  -- Every call keeps a registry well formed: flags, deferred operations and the capacity's bound
  -- concern occupied slots only, and the arrays keep their lengths.
  pub step-IsValid : (s : InflightBufSlab O) (c : Call O) → IsValid s → IsValid (step s c)
  unfolding step allocate free mark_retire_pending free_by_op_token free_if_retire_pending
      mark_deferred_by_op_token retire_deferred mark_notif_expected_by_op_token
      mark_notif_ready_by_op_token
  step-IsValid s (allocates op_token) w = elim (Option-cases (first_free s)) [
    | inl e ↦ rw (step, e) w
    | inr (i, e) ↦ rw (step, e) (allocate_at-IsValid s op_token i w (first_free-lowest s i w e).0)
  ]
  step-IsValid s (frees key) w = elim (Bool-cases (is_live s key)) [
    | inl e ↦
        rw (step, e)
          (release_slot-IsValid s key.slot w (omega (arith, w.small, (is_live-parts s key e).0)))
    | inr e ↦ rw (step, e) w
  ]
  step-IsValid s (retires key) w = elim (Bool-cases (is_live s key)) [
    | inl e ↦
        let (below, on, same) = is_live-parts s key e in
        let l : key.slot < 256 = omega (arith, w.small) in
        rw (step, e)
          (flags-IsValid s w
            (
              mark-IsBitmap key.slot w.retire_pending,
              Within-mark _ s.occupied key.slot w.retire_pending l on w.pending_held,
            )
            (w.notif_expected, w.expected_held) (w.notif_ready, w.ready_held))
    | inr e ↦ rw (step, e) w
  ]
  step-IsValid s (frees_token op_token) w = elim (Option-cases (token_slot s op_token)) [
    | inl e ↦ rw (step, e) w
    | inr (i, e) ↦
        let l = (token_slot-held s op_token i w e).0 in
        rw (step, e, lt→ltb i u16_mod (omega arith)) (release_slot-IsValid s i w l)
  ]
  step-IsValid s (frees_pending slot low) w = elim (dec_lt slot s.cap) [
    | yes h ↦ elim (Bool-cases (is_reclaimable s slot low)) [
      | inl e ↦
          rw (step, lt→leb_false s.cap slot h, e)
            (release_slot-IsValid s slot w (omega (arith, w.small)))
      | inr e ↦ rw (step, lt→leb_false s.cap slot h, e) w
    ]
    | no g ↦ rw (step, le→leb s.cap slot (omega arith)) w
  ]
  step-IsValid s (defers op_token op) w = elim (Option-cases (slot_of_token s op_token)) [
    | inl e ↦ rw (step, e) w
    | inr (i, e) ↦
        let (l, on) = slot_of_token-held s op_token i w e in
        rw (step, e) (deferred-IsValid s i (some op) w l (λ x f. on))
  ]
  step-IsValid s (takes_deferred key) w = elim (Bool-cases (is_live s key)) [
    | inl e ↦
        let below = (is_live-parts s key e).0 in
        rw (step, e) (deferred-IsValid s key.slot none w (omega (arith, w.small)) (λ x f. cc))
    | inr e ↦ rw (step, e) w
  ]
  step-IsValid s (expects_notif op_token) w = elim (Option-cases (slot_of_token s op_token)) [
    | inl e ↦ rw (mark_notif_expected_by_op_token, e) w
    | inr (i, e) ↦
        let (l, on) = slot_of_token-held s op_token i w e in
        rw (mark_notif_expected_by_op_token, e)
          (flags-IsValid s w (w.retire_pending, w.pending_held)
            (
              mark-IsBitmap i w.notif_expected,
              Within-mark _ s.occupied i w.notif_expected l on w.expected_held,
            )
            (w.notif_ready, w.ready_held))
  ]
  step-IsValid s (readies_notif op_token) w = elim (Option-cases (slot_of_token s op_token)) [
    | inl e ↦ rw (mark_notif_ready_by_op_token, e) w
    | inr (i, e) ↦
        let (l, on) = slot_of_token-held s op_token i w e in
        rw (mark_notif_ready_by_op_token, e)
          (flags-IsValid s w (w.retire_pending, w.pending_held) (w.notif_expected, w.expected_held)
            (
              mark-IsBitmap i w.notif_ready,
              Within-mark _ s.occupied i w.notif_ready l on w.ready_held,
            ))
  ]

  pub run-IsValid : (s : InflightBufSlab O) (cs : List (Call O)) → IsValid s → IsValid (run s cs)
  unfolding run
  run-IsValid s [] w = w
  run-IsValid s (c ∷ cs) w = run-IsValid (step s c) cs (step-IsValid s c w)
