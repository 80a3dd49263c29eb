-- ===== src/Mpsc/Threads/Fill.antt =====
-- The steps of a producer of crates/kwokka-runtime/src/sync/mpsc.rs that owns a position: the write
-- of the cell and the store of the sequence.
use kwokka.Base.{
  ℕ, ◌+◌, ◌%◌, ◌^◌, ◌<◌, ◌≤◌, ◌≡◌, ◌≢◌, inl, inr, refl, sym, ap, ◌∙◌, true, false, Bool, Option,
  none, some, length, get_elem?, set, get_elem?-set_ne, get_elem?-set_self, get_elem?-set-cases,
  get_elem?-lt, length-set, arith, u64_mod,
}
use native.Mathlib.Nat.{mod-lt, one-le-pow}
use native.Mathlib.Decide.{ℕ_discrete}
use mathlib.Core.Path.{subst}
use kwokka.Mpsc.{Slot, slot_index}
use kwokka.Mpsc.Window.{Holds, window-ne}
use kwokka.Mpsc.Enqueue.{set-Holds, set-Holds_self}
use kwokka.Mpsc.Threads.{Producer, idle, owning, System, fill}
use kwokka.Mpsc.Threads.Invariant.{content, position, head, Fits, Filled, IsSafe, Alone-set}
use kwokka.Mpsc.Threads.Look.{word_index}

module _ {ℓ} {A : Type ℓ} where
  -- The system after producer `i`, which owns `p`, has written `slot` there and become `x`.
  abbrev written_at : System A → ℕ → Slot A → ℕ → Producer A → System A
  written_at s p slot i x = record s {
    ring = record s.ring { slots = set s.ring.slots (p % length s.ring.slots) slot };
    producers = set s.producers i x;
  }

  written-IsSafe :
      {k : ℕ} (s : System A) (i p next : ℕ) (cell : Option A) (b : Bool) (v : A) (x : Producer A)
      → IsSafe k s
      → get_elem? s.producers i ≡ some (owning b p v)
      → ((q : ℕ) → position x ≡ some q → q ≡ p)
      → Fits k s x
      → (let t = written_at s p (record { sequence = next % u64_mod; cell = cell }) i x in
          Holds t.ring p next cell
          → Filled t p
            × ((c : Bool) (q : ℕ) (y : A)
                → x ≡ owning c q y
                → (get_elem? s.claimed q ≡ some y) × Holds t.ring q q (content c y)))
      → IsSafe k (written_at s p (record { sequence = next % u64_mod; cell = cell }) i x)
  written-IsSafe {k} s i p next cell b v x w h own good after =
      let slot : Slot A = record { sequence = next % u64_mod; cell = cell } in
      let t = written_at s p slot i x in
      let mine = w.fit i (owning b p v) h in
      let here : Holds t.ring p next cell =
        set-Holds_self s.ring t.ring p p next refl refl
          (mod-lt p (omega (arith, w.room, one-le-pow k 2))) in
      let other : (q nx : ℕ) (c : Option A)
          → p ≢ q
          → head s ≤ q
          → q < head s + 2 ^ k
          → Holds s.ring q nx c
          → Holds t.ring q nx c =
        λ q nx c ne l u.
          set-Holds s.ring t.ring p q nx slot refl
            (rw w.room (window-ne (2 ^ k) (head s) p q mine.0 (omega (arith, w.window)) l u ne)) in
      record {
        room = rw length-set w.room;
        ordered = w.ordered;
        window = w.window;
        log = w.log;
        word = w.word;
        free = λ q l u. other q q none (omega arith) (omega (arith, w.ordered)) u (w.free q l u);
        filled = λ q l u. elim (ℕ_discrete p q) [
          | yes e ↦ subst (Filled t) e (after here).0
          | no ne ↦
              let (y, e, seen) = w.filled q l u in
              (
                y,
                e,
                elim seen [
                  | inl at ↦ inl (other q (q + 1) (some y) ne l (omega (arith, w.window)) at)
                  | inr (j, c, o) ↦
                      let apart : i ≢ j = λ same.
                        let whole : some (owning b p v) ≡ some (owning c q y) =
                          sym h ∙ ap (get_elem? s.producers) same ∙ o in
                        ne cc in
                      inr (j, c, get_elem?-set_ne s.producers i j x apart ∙ o)
                ],
              )
        ];
        fit = λ j y g. elim (get_elem?-set-cases s.producers i j x y g) [
          | inl (e, f) ↦ subst (Fits k s) f good
          | inr (ne, g') ↦ w.fit j y g'
        ];
        owned = λ j q c y g. elim (get_elem?-set-cases s.producers i j x (owning c q y) g) [
          | inl (e, f) ↦ (after here).1 c q y f
          | inr (ne, g') ↦
              let (e, at) = w.owned j q c y g' in
              let apart : p ≢ q = λ same. ne (w.alone i j p _ _ h g' refl (ap some (sym same))) in
              let within = w.fit j (owning c q y) g' in
              (e, other q q (content c y) apart within.0 (omega (arith, w.window)) at)
        ];
        alone =
            Alone-set s.producers i x w.alone
              (λ j q y ne g e e'. ne (w.alone i j p _ y h g refl (e ∙ ap some (own q e'))));
        order = w.order;
        sound = w.sound;
      }

  pub fill-IsSafe :
      {k : ℕ} (s : System A) (i p : ℕ) (b : Bool) (v : A)
      → k < 64
      → IsSafe k s
      → get_elem? s.producers i ≡ some (owning b p v)
      → IsSafe k (fill s i b p v)
  unfolding fill
  fill-IsSafe {k} s i p false v small w h =
      let at : slot_index s.ring p ≡ p % length s.ring.slots =
        word_index s p small w (omega (arith, w.word, (w.fit i (owning false p v) h).1)) in
      let (got, was) = w.owned i p false v h in
      let here = rw (← at) at was in
      let mine : get_elem? (set s.producers i (owning true p v)) i ≡ some (owning true p v) =
        get_elem?-set_self s.producers i _ (get_elem?-lt s.producers i h) in
      rw (fill, here, at)
        (written-IsSafe s i p p (some v) false v (owning true p v) w h (λ q e. cc)
          (w.fit i (owning false p v) h)
          (λ now. (
            (v, got, inr (i, true, mine)),
            λ c q y e.
                let written : c ≡ true = cc in
                let same : q ≡ p = cc in
                let value : y ≡ v = cc in rw (written, same, value) (got, now),
          )))
  fill-IsSafe {k} s i p true v small w h =
      let at : slot_index s.ring p ≡ p % length s.ring.slots =
        word_index s p small w (omega (arith, w.word, (w.fit i (owning true p v) h).1)) in
      let (got, was) = w.owned i p true v h in
      let here = rw (← at) at was in
      rw (fill, here, at)
        (written-IsSafe s i p (p + 1) (some v) true v idle w h (λ q e. cc) tt
          (λ now. ((v, got, inl now), λ c q y e. cc)))
