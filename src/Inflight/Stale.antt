-- ===== src/Inflight/Stale.antt =====
-- A freed key of crates/kwokka-io/src/buffer/oneshot/inflight.rs stays dead.
use kwokka.Base.{
  ℕ, suc, ◌+◌, ◌%◌, ◌<◌, ◌≤◌, ◌≡◌, inl, inr, ap, ◌∙◌, true, false, List, [], ◌∷◌, length, get_or,
  get_or-set_self, get_or-set_ne, arith, Bool-cases, u64_mod, add64,
}
use native.Mathlib.Decide.{ℕ_discrete}
use kwokka.Bitmap.Words.{AllWords-get}
use kwokka.Inflight.{InflightSlotKey, InflightBufSlab, generation_of, is_live, release_slot, free}
use kwokka.Inflight.Invariant.{IsValid, release_slot-IsValid}
use kwokka.Inflight.Find.{is_live-parts}
use mathlib.Core.Path.{subst}
use kwokka.Inflight.Reclaim.{step-shape}
use kwokka.Inflight.Step.{Call, step, run, step-IsValid}

module _ {O : Type 0} where
  -- Between two registries the slot's generation went up by `n`, wrapping round.
  abbrev Bumped : ℕ → InflightBufSlab O → InflightBufSlab O → ℕ → Type 0
  Bumped i s t n = generation_of t i ≡ (generation_of s i + n) % u64_mod

  same-Bumped :
      (s t : InflightBufSlab O) (i : ℕ)
      → IsValid s
      → generation_of t i ≡ generation_of s i
      → (n : ℕ) × (n ≤ 1) × Bumped i s t n
  same-Bumped s t i w e =
      let word = AllWords-get s.generation i w.bumps in (0, omega arith, omega (arith, e, word))

  released_Bumped :
      (s : InflightBufSlab O) (i : ℕ) → IsValid s → i < 256 → Bumped i s (release_slot s i) 1
  unfolding release_slot
  released_Bumped s i w h = get_or-set_self s.generation i _ 0 (omega (arith, w.generations))

  release_slot-Bumped :
      (s : InflightBufSlab O) (i j : ℕ)
      → IsValid s
      → j < 256
      → (n : ℕ) × (n ≤ 1) × Bumped i s (release_slot s j) n
  unfolding release_slot
  release_slot-Bumped s i j w h = elim (ℕ_discrete j i) [
    | yes same ↦ (
      1,
      omega arith,
      subst (λ k. Bumped k s (release_slot s j) 1) same (released_Bumped s j w h),
    )
    | no ne ↦
        let kept = get_or-set_ne s.generation j i (add64 (generation_of s j) 1) 0 ne in
        same-Bumped s (release_slot s j) i w kept
  ]

  -- One call bumps the generation of a slot at most once.
  step-Bumped :
      (s : InflightBufSlab O) (c : Call O) (i : ℕ)
      → IsValid s
      → (n : ℕ) × (n ≤ 1) × Bumped i s (step s c) n
  step-Bumped s c i w = elim (step-shape s c w) [
    | inl (same, keeps) ↦ same-Bumped s (step s c) i w (ap (λ g. get_or g i 0) same)
    | inr (j, l, e, may) ↦
        let (n, le, up) = release_slot-Bumped s i j w l in
        (n, le, ap (λ t. generation_of t i) e ∙ up)
  ]

  run-Bumped :
      (s : InflightBufSlab O) (cs : List (Call O)) (i : ℕ)
      → IsValid s
      → (n : ℕ) × (n ≤ length cs) × Bumped i s (run s cs) n
  unfolding run
  run-Bumped s [] i w =
      let word = AllWords-get s.generation i w.bumps in (0, omega arith, omega (arith, word))
  run-Bumped s (c ∷ cs) i w =
      let (m, le, first) = step-Bumped s c i w in
      let (n, more, rest) = run-Bumped (step s c) cs i (step-IsValid s c w) in
      (m + n, omega arith, omega (arith, first, rest))

  -- Once `free` has taken back a live key, no sequence of fewer than `2 ^ 64 - 1` calls makes that
  -- key live again.
  pub free-stale :
      (s : InflightBufSlab O) (key : InflightSlotKey) (cs : List (Call O))
      → IsValid s
      → is_live s key ≡ true
      → suc (length cs) < u64_mod
      → is_live (run (free s key).0 cs) key ≡ false
  unfolding free
  free-stale s key cs w live short =
      let (below, on, same) = is_live-parts s key live in
      let l : key.slot < 256 = omega (arith, w.small) in
      let freed : InflightBufSlab O = release_slot s key.slot in
      let up : Bumped key.slot s freed 1 = released_Bumped s key.slot w l in
      let (n, le, more) = run-Bumped freed cs key.slot (release_slot-IsValid s key.slot w l) in
      let word = AllWords-get s.generation key.slot w.bumps in
      elim (Bool-cases (is_live (run freed cs) key)) [
        | inr e ↦ rw live e
        | inl e ↦
            let again = (is_live-parts (run freed cs) key e).2 in
            absurd (omega (arith, again, same, up, more, word))
      ]
