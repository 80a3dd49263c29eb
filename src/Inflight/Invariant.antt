-- ===== src/Inflight/Invariant.antt =====
-- When a registry of crates/kwokka-io/src/buffer/oneshot/inflight.rs is well formed, and what keeps
-- it so.
use kwokka.Base.{
  ℕ, ◌/◌, ◌<◌, ◌≤◌, ◌≡◌, sym, ap, ◌∙◌, true, false, none, some, List, length, get_or, set,
  length-set, get_or-set_self, get_or-set_ne, arith,
}
use native.Mathlib.Nat.{mod-lt}
use native.Mathlib.Decide.{ℕ_discrete}
use kwokka.Bitmap.{test, mark, unmark}
use kwokka.Bitmap.Laws.{
  length-mark, length-unmark, test-mark_self, test-mark_ne, test-unmark_self, test-unmark_ne,
}
use kwokka.Bitmap.Words.{AllWords, AllWords-set, mark-AllWords, unmark-AllWords}
use kwokka.Inflight.{DeferredOp, InflightBufSlab, deferred_of, release_slot, allocate_at}

-- A bitmap of the registry's 256 slots.
pub record IsBitmap (m : List ℕ) : Type 0 where
  pub room : length m ≡ 4
  pub words : AllWords m

-- A bitmap of flags that only occupied slots carry.
abbrev pub Within : List ℕ → List ℕ → Type 0
Within m occupied = (i : ℕ) → i < 256 → test m i ≡ true → test occupied i ≡ true

pub mark-IsBitmap : {m : List ℕ} (i : ℕ) → IsBitmap m → IsBitmap (mark m i)
mark-IsBitmap {m} i w = record {
  room = length-mark m i ∙ w.room;
  words = mark-AllWords m i w.words;
}

unmark-IsBitmap : {m : List ℕ} (i : ℕ) → IsBitmap m → IsBitmap (unmark m i)
unmark-IsBitmap {m} i w = record {
  room = length-unmark m i ∙ w.room;
  words = unmark-AllWords m i w.words;
}

-- The word of a slot is one of the four.
pub word-lt : {m : List ℕ} (i : ℕ) → IsBitmap m → i < 256 → i / 64 < length m
word-lt i w h = omega (arith, w.room)

pub Within-mark :
    (m occupied : List ℕ) (i : ℕ)
    → IsBitmap m
    → i < 256
    → test occupied i ≡ true
    → Within m occupied
    → Within (mark m i) occupied
Within-mark m occupied i w h on all j l e = elim (ℕ_discrete i j) [
  | yes same ↦ rw (← same) on
  | no ne ↦ all j l (sym (test-mark_ne m i j (word-lt i w h) ne) ∙ e)
]

Within-grow :
    (m occupied : List ℕ) (i : ℕ)
    → IsBitmap occupied
    → i < 256
    → Within m occupied
    → Within m (mark occupied i)
Within-grow m occupied i w h all j l e = elim (ℕ_discrete i j) [
  | yes same ↦ rw (← same) (test-mark_self occupied i (word-lt i w h))
  | no ne ↦ test-mark_ne occupied i j (word-lt i w h) ne ∙ all j l e
]

Within-drop :
    (m occupied : List ℕ) (i : ℕ)
    → IsBitmap m
    → IsBitmap occupied
    → i < 256
    → Within m occupied
    → Within (unmark m i) (unmark occupied i)
Within-drop m occupied i v w h all j l e = elim (ℕ_discrete i j) [
  | yes same ↦
      let off : test (unmark m i) j ≡ false = rw (← same) (test-unmark_self m i (word-lt i v h)) in
      absurd cc
  | no ne ↦
      test-unmark_ne occupied i j (word-lt i w h) ne
      ∙ all j l (sym (test-unmark_ne m i j (word-lt i v h) ne) ∙ e)
]

module _ {O : Type 0} where
  pub record IsValid (s : InflightBufSlab O) : Type 0 where
    pub occupied : IsBitmap s.occupied
    pub retire_pending : IsBitmap s.retire_pending
    pub notif_expected : IsBitmap s.notif_expected
    pub notif_ready : IsBitmap s.notif_ready
    pub generations : length s.generation ≡ 256
    pub bumps : AllWords s.generation
    pub tokens : length s.op_token ≡ 256
    pub records : length s.deferred ≡ 256
    pub small : s.cap ≤ 256
    pub inside : (i : ℕ) → i < 256 → test s.occupied i ≡ true → i < s.cap
    pub pending_held : Within s.retire_pending s.occupied
    pub expected_held : Within s.notif_expected s.occupied
    pub ready_held : Within s.notif_ready s.occupied
    pub deferred_held :
        (i : ℕ) (op : DeferredOp O) → i < 256 → deferred_of s i ≡ some op → test s.occupied i ≡ true

  pub release_slot-IsValid :
      (s : InflightBufSlab O) (i : ℕ) → IsValid s → i < 256 → IsValid (release_slot s i)
  unfolding release_slot
  release_slot-IsValid s i w h = record {
    occupied = unmark-IsBitmap i w.occupied;
    retire_pending = unmark-IsBitmap i w.retire_pending;
    notif_expected = unmark-IsBitmap i w.notif_expected;
    notif_ready = unmark-IsBitmap i w.notif_ready;
    generations = length-set s.generation i _ ∙ w.generations;
    bumps = AllWords-set s.generation i _ w.bumps (mod-lt _ (omega arith));
    tokens = w.tokens;
    records = length-set s.deferred i _ ∙ w.records;
    small = w.small;
    inside = λ j l e. elim (ℕ_discrete i j) [
      | yes same ↦
          let off = test-unmark_self s.occupied i (word-lt i w.occupied h) in
          let on : test (unmark s.occupied i) i ≡ true = ap (test (unmark s.occupied i)) same ∙ e in
          absurd cc
      | no ne ↦ w.inside j l (sym (test-unmark_ne s.occupied i j (word-lt i w.occupied h) ne) ∙ e)
    ];
    pending_held = Within-drop _ _ i w.retire_pending w.occupied h w.pending_held;
    expected_held = Within-drop _ _ i w.notif_expected w.occupied h w.expected_held;
    ready_held = Within-drop _ _ i w.notif_ready w.occupied h w.ready_held;
    deferred_held = λ j op l e. elim (ℕ_discrete i j) [
      | yes same ↦
          let off : get_or (set s.deferred i none) i none ≡ none =
            get_or-set_self s.deferred i none none (omega (arith, w.records)) in
          let on : get_or (set s.deferred i none) i none ≡ some op =
            ap (λ n. get_or (set s.deferred i none) n none) same ∙ e in
          absurd cc
      | no ne ↦
          test-unmark_ne s.occupied i j (word-lt i w.occupied h) ne
          ∙ w.deferred_held j op l (sym (get_or-set_ne s.deferred i j none none ne) ∙ e)
    ];
  }

  pub allocate_at-IsValid :
      (s : InflightBufSlab O) (op_token i : ℕ)
      → IsValid s
      → i < s.cap
      → IsValid (allocate_at s op_token i).0
  unfolding allocate_at
  allocate_at-IsValid s op_token i w h =
      let l : i < 256 = omega (arith, w.small) in
      record {
        occupied = mark-IsBitmap i w.occupied;
        retire_pending = w.retire_pending;
        notif_expected = w.notif_expected;
        notif_ready = w.notif_ready;
        generations = w.generations;
        bumps = w.bumps;
        tokens = length-set s.op_token i _ ∙ w.tokens;
        records = w.records;
        small = w.small;
        inside = λ j k e. elim (ℕ_discrete i j) [
          | yes same ↦ rw (← same) h
          | no ne ↦ w.inside j k (sym (test-mark_ne s.occupied i j (word-lt i w.occupied l) ne) ∙ e)
        ];
        pending_held = Within-grow _ _ i w.occupied l w.pending_held;
        expected_held = Within-grow _ _ i w.occupied l w.expected_held;
        ready_held = Within-grow _ _ i w.occupied l w.ready_held;
        deferred_held = λ j op k e.
            Within-grow s.occupied s.occupied i w.occupied l (λ a b c. c) j k
              (w.deferred_held j op k e);
      }
