-- ===== src/Inflight/Find.antt =====
-- What the searches of crates/kwokka-io/src/buffer/oneshot/inflight.rs find in a well-formed registry.
use kwokka.Base.{
  ◌==◌, ◌&&◌, ap, Option, Bool, sym, ◌∙◌, ℕ, ◌<◌, ◌≡◌, ◌↔◌, inl, inr, refl, true, false, none, some,
  List, arith, Bool-cases, Option-cases,
}
use mathlib.Core.Path.{subst}
use kwokka.Bitmap.{test}
use kwokka.Bitmap.Laws.{test-mark_self}
use kwokka.Inflight.{
  InflightSlotKey, InflightBufSlab, generation_of, deferred_of, is_live, first_free, allocate,
  allocate_at,
}
use kwokka.Bitmap.{scan}
use kwokka.Bitmap.Words.{scan-Found}
use kwokka.Inflight.{token_of}
use kwokka.Inflight.Tokens.{slot_of_token}
use kwokka.Inflight.Free.{FirstFree, first_free_from-FirstFree}
use kwokka.Inflight.Invariant.{IsValid, word-lt, Within}

-- A flag within the occupied slots is off at a free one.
off_free :
    (m occupied : List ℕ) (i : ℕ)
    → Within m occupied
    → i < 256
    → test occupied i ≡ false
    → test m i ≡ false
off_free m occupied i all h off = elim (Bool-cases (test m i)) [
  | inl on ↦ let held = all i h on in absurd cc
  | inr e ↦ e
]

module _ {O : Type 0} where
  -- A live key names an occupied slot of its generation.
  pub is_live-parts :
      (s : InflightBufSlab O) (key : InflightSlotKey)
      → is_live s key ≡ true
      → (key.slot < s.cap)
        × (test s.occupied key.slot ≡ true)
        × (generation_of s key.slot ≡ key.generation)
  unfolding is_live
  is_live-parts s key h = ground arith

  pub first_free_lem :
      (s : InflightBufSlab O) → IsValid s → FirstFree 0 s.cap s.occupied (first_free s)
  unfolding first_free
  first_free_lem s w =
      first_free_from-FirstFree s.cap 0 s.occupied w.occupied.words (omega (arith, w.small))

  no_deferred :
      (s : InflightBufSlab O) (i : ℕ)
      → IsValid s
      → i < 256
      → test s.occupied i ≡ false
      → deferred_of s i ≡ none
  no_deferred s i w h off = elim (Option-cases (deferred_of s i)) [
    | inl e ↦ e
    | inr (op, e) ↦ let held = w.deferred_held i op h e in absurd cc
  ]

  -- The slot is free and the lowest free one.
  abbrev pub IsLowestFree : InflightBufSlab O → ℕ → Type 0
  IsLowestFree s i =
      (i < s.cap) × (test s.occupied i ≡ false) × ((d : ℕ) → d < i → test s.occupied d ≡ true)

  -- No flag of the slot is set and no operation waits on it.
  abbrev pub IsClean : InflightBufSlab O → ℕ → Type 0
  IsClean s i =
      (test s.retire_pending i ≡ false)
      × (test s.notif_expected i ≡ false)
      × (test s.notif_ready i ≡ false)
      × (deferred_of s i ≡ none)

  at_slot :
      (s : InflightBufSlab O) (op_token i : ℕ)
      → IsValid s
      → IsLowestFree s i
      → let (t, key) = allocate_at s op_token i in
        IsLowestFree s key.slot × (is_live t key ≡ true) × IsClean t key.slot
  unfolding allocate_at is_live
  at_slot s op_token i w (h, off, low) =
      let l : i < 256 = omega (arith, w.small) in
      let on = test-mark_self s.occupied i (word-lt i w.occupied l) in
      (
        (h, off, low),
        ground (arith, on, h),
        (
          off_free s.retire_pending s.occupied i w.pending_held l off,
          off_free s.notif_expected s.occupied i w.expected_held l off,
          off_free s.notif_ready s.occupied i w.ready_held l off,
          no_deferred s i w l off,
        ),
      )

  pub first_free-lowest :
      (s : InflightBufSlab O) (i : ℕ) → IsValid s → first_free s ≡ some i → IsLowestFree s i
  first_free-lowest s i w f =
      let spec = first_free_lem s w in
      let (j, l, at, below, off, low) = rw f at spec in
      let same : j ≡ i = omega arith in subst (IsLowestFree s) same (omega arith, off, low)

  -- `allocate` takes the lowest free slot. The key that it hands out is live, and the slot carries
  -- no flag and no deferred operation of an earlier tenant.
  pub allocate-fresh :
      (s t : InflightBufSlab O) (op_token : ℕ) (key : InflightSlotKey)
      → IsValid s
      → allocate s op_token ≡ some (t, key)
      → IsLowestFree s key.slot × (is_live t key ≡ true) × IsClean t key.slot
  unfolding allocate
  allocate-fresh s t op_token key w e = elim (Option-cases (first_free s)) [
    | inl f ↦ let failed = rw f at e in absurd cc
    | inr (i, f) ↦
        let taken = rw f at e in
        let same : allocate_at s op_token i ≡ (t, key) = cc in
        subst (λ p. IsLowestFree s p.1.slot × (is_live p.0 p.1 ≡ true) × IsClean p.0 p.1.slot) same
          (at_slot s op_token i w (first_free-lowest s i w f))
  ]

  -- `allocate` fails when every slot below the capacity is occupied, and only then.
  pub allocate-none_iff :
      (s : InflightBufSlab O) (op_token : ℕ)
      → IsValid s
      → (allocate s op_token ≡ none) ↔ ((i : ℕ) → i < s.cap → test s.occupied i ≡ true)
  unfolding allocate
  allocate-none_iff s op_token w = elim (Option-cases (first_free s)) [
    | inl f ↦
        let spec = first_free_lem s w in
        let full = rw f at spec in
        (
          λ e i h. full i (omega (arith, w.occupied.room, w.small)) (omega arith),
          λ all. rw (allocate, f) refl,
        )
    | inr (i, f) ↦
        let (below, off, low) = first_free-lowest s i w f in
        (λ e. let failed = rw f at e in absurd cc, λ all. let on = all i below in absurd cc)
  ]

  -- The slot that a token names is occupied, and is the lowest occupied one with that token.
  pub slot_of_token-held :
      (s : InflightBufSlab O) (op_token i : ℕ)
      → IsValid s
      → slot_of_token s op_token ≡ some i
      → (i < 256) × (test s.occupied i ≡ true)
  unfolding slot_of_token
  slot_of_token-held s op_token i w e =
      let found = scan-Found (λ slot. token_of s slot == op_token) 0 s.occupied w.occupied.words in
      let (j, l, at, on, stop, before) = rw e at found in
      let same : j ≡ i = omega arith in
      (omega (arith, w.occupied.room), ap (test s.occupied) (sym same) ∙ on)

  -- The slot that `free_by_op_token` frees.
  abbrev pub token_slot : InflightBufSlab O → ℕ → Option ℕ
  token_slot s op_token =
      scan 0 (λ slot. (token_of s slot == op_token) && test s.occupied slot) s.retire_pending

  pub token_slot-held :
      (s : InflightBufSlab O) (op_token i : ℕ)
      → IsValid s
      → token_slot s op_token ≡ some i
      → (i < 256)
        × (test s.retire_pending i ≡ true)
        × (test s.occupied i ≡ true)
        × (token_of s i ≡ op_token)
  token_slot-held s op_token i w e =
      let stops : ℕ → Bool = λ slot. (token_of s slot == op_token) && test s.occupied slot in
      let found = scan-Found stops 0 s.retire_pending w.retire_pending.words in
      let (j, l, at, on, stop, before) = rw e at found in
      let same : j ≡ i = omega arith in
      let pending : test s.retire_pending i ≡ true = ap (test s.retire_pending) (sym same) ∙ on in
      (omega (arith, w.retire_pending.room), pending, ground (arith, stop), ground (arith, stop))
