-- ===== src/Mpsc/Threads/Look.antt =====
-- A producer's load of a slot's sequence in crates/kwokka-runtime/src/sync/mpsc.rs.
use kwokka.Base.{
  ℕ, ◌+◌, ◌%◌, ◌^◌, ◌<◌, ◌≤◌, ◌≡◌, inl, inr, refl, sym, ap, ◌∙◌, true, Option, none, some, length,
  get_elem?, get_elem?_total, arith, u64_mod, sub64, ltb, ◌==◌, ==_iff, Bool-cases,
}
use native.Mathlib.Nat.{mod-lt, mod-eq_of_lt, add-mod_right, one-le-pow}
use native.Mathlib.Decide.{dec_lt}
use kwokka.Mpsc.{Slot, MpscRing, slot_index, half_range}
use kwokka.Mpsc.Window.{Holds}
use kwokka.Mpsc.Enqueue.{index_at, power_bounds}
use kwokka.Mpsc.Threads.{loaded, System, branch, look}
use kwokka.Mpsc.Threads.Invariant.{head, tail, IsSafe, put-IsSafe}

module _ {ℓ} {A : Type ℓ} where
  pub word_index :
      {k : ℕ} (s : System A) (p : ℕ)
      → k < 64
      → IsSafe k s
      → p < u64_mod
      → slot_index s.ring p ≡ p % length s.ring.slots
  word_index {k} s p small w l =
      let word : p % u64_mod ≡ p = mod-eq_of_lt l in
      rw word at (index_at {k = k} s.ring p (omega arith) w.room)

  pub sequence_at :
      (r : MpscRing A) (slot : Slot A) (i p next : ℕ) {cell : Option A}
      → get_elem? r.slots i ≡ some slot
      → i ≡ p % length r.slots
      → Holds r p next cell
      → slot.sequence ≡ next % u64_mod
  sequence_at r slot i p next at same h = ap sequence_of (sym at ∙ ap (get_elem? r.slots) same ∙ h)
    where
      sequence_of : Option (Slot A) → ℕ
      sequence_of none = 0
      sequence_of (some slot) = slot.sequence

  branch-IsSafe :
      {k : ℕ} (s : System A) (i pos : ℕ) (v : A) (gap : ℕ)
      → IsSafe k s
      → get_elem? s.producers i ≡ some (loaded pos v)
      → ((gap == 0) ≡ true → pos < head s + 2 ^ k)
      → IsSafe k (branch s i pos v gap)
  unfolding branch
  branch-IsSafe {k} s i pos v gap w h near = elim (Bool-cases (gap == 0)) [
    | inl e ↦ rw (branch, e) (put-IsSafe s i (loaded pos v) _ w h refl refl (w.fit i _ h, near e))
    | inr e ↦ elim (Bool-cases (ltb half_range gap)) [
      | inl f ↦ rw (branch, e, f) (put-IsSafe s i (loaded pos v) _ w h refl refl tt)
      | inr f ↦ rw (branch, e, f) (put-IsSafe s i (loaded pos v) _ w h refl refl tt)
    ]
  ]

  -- A slot whose oldest value is not yet taken has no gap zero for the next round.
  round_gap :
      {k : ℕ} (s : System A) (pos : ℕ) (slot : Slot A)
      → 0 < k
      → k < 64
      → IsSafe k s
      → pos ≡ tail s
      → tail s ≡ head s + 2 ^ k
      → get_elem? s.ring.slots (pos % length s.ring.slots) ≡ some slot
      → (sub64 slot.sequence pos == 0) ≡ true
      → pos < head s + 2 ^ k
  round_gap {k} s pos slot first small w e full at zero_gap =
      let (v, got, seen) = w.filled (head s) (omega arith) (omega (arith, one-le-pow k 2)) in
      let same : pos % length s.ring.slots ≡ head s % length s.ring.slots =
        rw (e, full, ← w.room) (add-mod_right (head s) (length s.ring.slots)) in
      let bounds = power_bounds k first small in
      let zero : sub64 slot.sequence pos ≡ 0 = (==_iff (sub64 slot.sequence pos) 0).0 zero_gap in
      elim seen [
        | inl h ↦
            let lead = sequence_at s.ring slot _ (head s) (head s + 1) at same h in
            absurd (omega (arith, lead, zero, bounds, e, full, w.word))
        | inr (i, b, o) ↦
            let lead = sequence_at s.ring slot _ (head s) (head s) at same (w.owned i _ b v o).1 in
            absurd (omega (arith, lead, zero, bounds, e, full, w.word))
      ]

  pub look-IsSafe :
      {k : ℕ} (s : System A) (i pos : ℕ) (v : A)
      → 0 < k
      → k < 64
      → IsSafe k s
      → get_elem? s.producers i ≡ some (loaded pos v)
      → IsSafe k (look s i pos v)
  unfolding look
  look-IsSafe {k} s i pos v first small w h =
      let below : pos ≤ tail s = w.fit i (loaded pos v) h in
      let (slot, at) =
        get_elem?_total s.ring.slots (pos % length s.ring.slots)
          (mod-lt pos (omega (arith, w.room, one-le-pow k 2))) in
      let here : get_elem? s.ring.slots (slot_index s.ring pos) ≡ some slot =
        rw (word_index s pos small w (omega (arith, w.word))) at in
      rw (look, here)
        (branch-IsSafe s i pos v (sub64 slot.sequence pos) w h (λ zero_gap.
          elim (dec_lt pos (head s + 2 ^ k)) [
            | yes l ↦ l
            | no g ↦
                round_gap s pos slot first small w (omega (arith, w.window))
                  (omega (arith, w.window)) at zero_gap
          ]))
