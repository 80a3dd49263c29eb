-- ===== src/Mpsc/Threads/Invariant.antt =====
-- What holds between the steps of the threads on the ring of
-- crates/kwokka-runtime/src/sync/mpsc.rs.
use kwokka.Base.{
  ℕ, ◌+◌, ◌^◌, ◌<◌, ◌≤◌, ◌≡◌, ◌≢◌, ◌⊎◌, inl, inr, refl, get_elem?-set_ne, sym, ap, ◌∙◌, true, false,
  Bool, Option, none, some, List, length, get_elem?, set, get_elem?-set-cases, take, arith, u64_mod,
}
use mathlib.Core.Path.{subst}
use kwokka.Mpsc.Window.{Holds}
use kwokka.Mpsc.Threads.{Producer, idle, starting, loaded, observed, owning, refused, System, put}

none-some : {x : ℕ} → none ≢ some x
none-some e = cc

module _ {ℓ} {A : Type ℓ} where
  -- What the cell of a claimed position holds before it is published.
  abbrev pub content : Bool → A → Option A
  content true v = some v
  content false v = none

  -- The position that a producer has won and not yet published.
  abbrev pub position : Producer A → Option ℕ
  position idle = none
  position (starting v) = none
  position (loaded p v) = none
  position (observed p v) = none
  position (owning written p v) = some p
  position (refused v) = none

  abbrev pub head : System A → ℕ
  head s = s.ring.dequeue_pos

  abbrev pub tail : System A → ℕ
  tail s = s.ring.enqueue_pos

  -- A producer's word for its position is true of the ring.
  abbrev pub Fits : ℕ → System A → Producer A → Type 0
  Fits k s idle = Unit
  Fits k s (starting v) = Unit
  Fits k s (loaded p v) = (p ≤ tail s)
  Fits k s (observed p v) = ((p ≤ tail s) × (p < head s + 2 ^ k))
  Fits k s (owning written p v) = (head s ≤ p) × (p < tail s)
  Fits k s (refused v) = Unit

  -- The value of a claimed position is published, or some producer is about to publish it.
  abbrev pub Filled : System A → ℕ → Type ℓ
  Filled s p =
      (v : A) × (get_elem? s.claimed p ≡ some v)
      × (Holds s.ring p (p + 1) (some v)
          ⊎ ((i : ℕ) × (b : Bool) × (get_elem? s.producers i ≡ some (owning b p v))))

  -- No two producers own one position.
  abbrev pub Alone : List (Producer A) → Type ℓ
  Alone ps =
      (i j p : ℕ) (x y : Producer A)
      → get_elem? ps i ≡ some x
      → get_elem? ps j ≡ some y
      → position x ≡ some p
      → position y ≡ some p
      → i ≡ j

  pub Alone-set :
      (ps : List (Producer A)) (i : ℕ) (x : Producer A)
      → Alone ps
      → ((j p : ℕ) (y : Producer A)
          → i ≢ j
          → get_elem? ps j ≡ some y
          → position y ≡ some p
          → position x ≢ some p)
      → Alone (set ps i x)
  Alone-set ps i x alone apart a b p y z g g' e e' = elim (get_elem?-set-cases ps i a x y g) [
    | inl (same, f) ↦ elim (get_elem?-set-cases ps i b x z g') [
      | inl (same', f') ↦ sym same ∙ same'
      | inr (ne, k) ↦ absurd (apart b p z ne k e' (ap position f ∙ e))
    ]
    | inr (ne, k) ↦ elim (get_elem?-set-cases ps i b x z g') [
      | inl (same', f') ↦ absurd (apart a p y ne k e (ap position f' ∙ e'))
      | inr (ne', k') ↦ alone a b p y z k k' e e'
    ]
  ]

  pub record IsSafe (k : ℕ) (s : System A) : Type ℓ where
    pub room : length s.ring.slots ≡ 2 ^ k
    pub ordered : head s ≤ tail s
    pub window : tail s ≤ head s + 2 ^ k
    pub log : length s.claimed ≡ tail s
    pub word : tail s < u64_mod
    pub free : (p : ℕ) → tail s ≤ p → p < head s + 2 ^ k → Holds s.ring p p none
    pub filled : (p : ℕ) → head s ≤ p → p < tail s → Filled s p
    pub fit : (i : ℕ) (x : Producer A) → get_elem? s.producers i ≡ some x → Fits k s x
    pub owned :
        (i p : ℕ) (written : Bool) (v : A)
        → get_elem? s.producers i ≡ some (owning written p v)
        → (get_elem? s.claimed p ≡ some v) × Holds s.ring p p (content written v)
    pub alone : Alone s.producers
    pub order : s.taken ≡ take (head s) s.claimed
    pub sound : s.faulted ≡ false

  -- A producer that owns a position is not one that owns none.
  pub owner-ne :
      (ps : List (Producer A)) (i j p : ℕ) (old y : Producer A)
      → get_elem? ps i ≡ some old
      → position old ≡ none
      → get_elem? ps j ≡ some y
      → position y ≡ some p
      → i ≢ j
  owner-ne ps i j p old y h f g e same =
      let whole : some old ≡ some y = sym h ∙ ap (get_elem? ps) same ∙ g in cc

  owner-kept :
      (ps : List (Producer A)) (i j p : ℕ) (x y : Producer A)
      → position x ≡ none
      → get_elem? (set ps i x) j ≡ some y
      → position y ≡ some p
      → get_elem? ps j ≡ some y
  owner-kept ps i j p x y f g e = elim (get_elem?-set-cases ps i j x y g) [
    | inl (_, same) ↦ absurd (none-some (sym f ∙ ap position same ∙ e))
    | inr (_, g') ↦ g'
  ]

  -- A producer that owns no position, before and after, moves alone.
  pub put-IsSafe :
      {k : ℕ} (s : System A) (i : ℕ) (old x : Producer A)
      → IsSafe k s
      → get_elem? s.producers i ≡ some old
      → position old ≡ none
      → position x ≡ none
      → Fits k s x
      → IsSafe k (put s i x)
  put-IsSafe {k} s i old x w h free_old free_x good = record {
    room = w.room;
    ordered = w.ordered;
    window = w.window;
    log = w.log;
    word = w.word;
    free = w.free;
    filled = λ p l u.
        let (v, e, seen) = w.filled p l u in
        (
          v,
          e,
          elim seen [
            | inl here ↦ inl here
            | inr (j, b, o) ↦ inr (
              j,
              b,
              get_elem?-set_ne s.producers i j x
                    (owner-ne s.producers i j p old _ h free_old o refl)
                  ∙ o,
            )
          ],
        );
    fit = λ j y g. elim (get_elem?-set-cases s.producers i j x y g) [
      | inl (e, f) ↦ subst (Fits k s) f good
      | inr (ne, g') ↦ w.fit j y g'
    ];
    owned = λ j p b v g. w.owned j p b v (owner-kept s.producers i j p x _ free_x g refl);
    alone = λ a b p y z g g' e e'.
        w.alone a b p y z (owner-kept s.producers i a p x y free_x g e)
          (owner-kept s.producers i b p x z free_x g' e') e e';
    order = w.order;
    sound = w.sound;
  }

  -- What a producer knows of the ring stays true while the consumer waits.
  pub Fits-mono :
      (k : ℕ) (s t : System A) (x : Producer A)
      → head t ≡ head s
      → tail s ≤ tail t
      → Fits k s x
      → Fits k t x
  Fits-mono k s t idle e l f = f
  Fits-mono k s t (starting v) e l f = f
  Fits-mono k s t (loaded p v) e l f = omega arith
  Fits-mono k s t (observed p v) e l f = omega arith
  Fits-mono k s t (owning b p v) e l f = omega arith
  Fits-mono k s t (refused v) e l f = f

  pub position-bounds :
      (k : ℕ) (s : System A) (x : Producer A) (p : ℕ)
      → position x ≡ some p
      → Fits k s x
      → (head s ≤ p) × (p < tail s)
  position-bounds k s (owning b q v) p e f = let same : q ≡ p = cc in omega arith
  position-bounds k s idle p e f = cc
  position-bounds k s (starting v) p e f = cc
  position-bounds k s (loaded q v) p e f = cc
  position-bounds k s (observed q v) p e f = cc
  position-bounds k s (refused v) p e f = cc
