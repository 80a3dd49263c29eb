-- ===== src/Mpsc/Threads/Claim.antt =====
-- The exchange by which a producer of crates/kwokka-runtime/src/sync/mpsc.rs wins a position.
use kwokka.Base.{
  ℕ, suc, ◌<◌, ◌≡◌, inl, inr, refl, sym, ◌∙◌, false, some, [], ◌∷◌, ◌++◌, length, get_elem?, set,
  get_elem?-set_ne, get_elem?-set_self, get_elem?-set-cases, get_elem?-append_left,
  get_elem?-append_end, get_elem?-lt, length-append, take-append, arith, u64_mod, add64, ◌==◌,
  ==_iff, Bool-cases,
}
use native.Mathlib.Nat.{mod-eq_of_lt}
use native.Mathlib.Decide.{dec_lt}
use mathlib.Core.Path.{subst}
use kwokka.Mpsc.Threads.{loaded, observed, owning, System, claim}
use kwokka.Mpsc.Threads.Invariant.{
  head, tail, Fits, IsSafe, put-IsSafe, owner-ne, Alone-set, Fits-mono, position-bounds,
}

module _ {ℓ} {A : Type ℓ} where
  -- The system after a won exchange.
  abbrev after_claim : System A → ℕ → ℕ → A → System A
  after_claim s i pos v = record s {
    ring = record s.ring { enqueue_pos = add64 pos 1 };
    producers = set s.producers i (owning false pos v);
    claimed = s.claimed ++ v ∷ [];
  }

  won-IsSafe :
      {k : ℕ} (s : System A) (i pos : ℕ) (v : A)
      → k < 64
      → suc (length s.claimed) < u64_mod
      → IsSafe k s
      → get_elem? s.producers i ≡ some (observed pos v)
      → tail s ≡ pos
      → IsSafe k (after_claim s i pos v)
  won-IsSafe {k} s i pos v small budget w h won =
      let t = after_claim s i pos v in
      let next : add64 pos 1 ≡ suc pos = mod-eq_of_lt (omega (arith, w.log)) ∙ omega arith in
      let near = w.fit i (observed pos v) h in
      let at_end : get_elem? (s.claimed ++ v ∷ []) pos ≡ some v =
        get_elem?-append_end s.claimed v pos (omega (arith, w.log)) in
      let mine : get_elem? t.producers i ≡ some (owning false pos v) =
        get_elem?-set_self s.producers i _ (get_elem?-lt s.producers i h) in
      record {
        room = w.room;
        ordered = omega (arith, w.ordered);
        window = omega (arith, w.window);
        log = omega (arith, w.log, length-append s.claimed (v ∷ []));
        word = omega (arith, w.log);
        free = λ p l u. w.free p (omega arith) u;
        filled = λ p l u. elim (dec_lt p (tail s)) [
          | yes below ↦
              let (x, e, seen) = w.filled p l below in
              (
                x,
                get_elem?-append_left s.claimed _ p e,
                elim seen [
                  | inl here ↦ inl here
                  | inr (j, b, o) ↦ inr (
                    j,
                    b,
                    get_elem?-set_ne s.producers i j _
                          (owner-ne s.producers i j p _ _ h refl o refl)
                        ∙ o,
                  )
                ],
              )
          | no g ↦ let same : p ≡ pos = omega arith in rw same (v, at_end, inr (i, false, mine))
        ];
        fit = λ j y g. elim (get_elem?-set-cases s.producers i j (owning false pos v) y g) [
          | inl (e, f) ↦ subst (Fits k t) f (omega (arith, w.ordered))
          | inr (ne, g') ↦ Fits-mono k s t y refl (omega arith) (w.fit j y g')
        ];
        owned = λ j p b x g. elim (get_elem?-set-cases s.producers i j _ (owning b p x) g) [
          | inl (e, f) ↦
              let written : b ≡ false = cc in
              let same : p ≡ pos = cc in
              let value : x ≡ v = cc in
              rw (written, same, value) (at_end, w.free pos (omega arith) near.1)
          | inr (ne, g') ↦
              let (e, here) = w.owned j p b x g' in (get_elem?-append_left s.claimed _ p e, here)
        ];
        alone = Alone-set s.producers i (owning false pos v) w.alone (λ j p y ne g e mine.
            let same : pos ≡ p = cc in omega (arith, position-bounds k s y p e (w.fit j y g)));
        order = w.order ∙ sym (take-append (head s) s.claimed _ (omega (arith, w.log, w.ordered)));
        sound = w.sound;
      }

  -- The exchange, with room in the word for one more position.
  pub claim-IsSafe :
      {k : ℕ} (s : System A) (i pos : ℕ) (v : A)
      → k < 64
      → suc (length s.claimed) < u64_mod
      → IsSafe k s
      → get_elem? s.producers i ≡ some (observed pos v)
      → IsSafe k (claim s i pos v)
  unfolding claim
  claim-IsSafe {k} s i pos v small budget w h = elim (Bool-cases (s.ring.enqueue_pos == pos)) [
    | inr e ↦
        rw (claim, e)
          (put-IsSafe s i (observed pos v) (loaded s.ring.enqueue_pos v) w h refl refl
            (omega arith))
    | inl e ↦
        let won : tail s ≡ pos = (==_iff (tail s) pos).0 e in
        rw (claim, e) (won-IsSafe s i pos v small budget w h won)
  ]
