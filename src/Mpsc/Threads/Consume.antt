-- ===== src/Mpsc/Threads/Consume.antt =====
-- The consumer of crates/kwokka-runtime/src/sync/mpsc.rs among the steps of the producers.
use kwokka.Base.{
  ℕ, suc, ◌+◌, ◌%◌, ◌^◌, ◌<◌, ◌≤◌, ◌≡◌, ◌≢◌, inl, inr, refl, sym, ap, ◌∙◌, false, Bool, Option,
  none, some, [], ◌∷◌, ◌++◌, length, get_elem?, set, length-set, take-suc, arith, u64_mod, add64,
  sub64, ltb, lt→ltb, le→ltb_false,
}
use native.Mathlib.Nat.{mod-lt, mod-eq_of_lt, one-le-pow, add-mod_right}
use native.Mathlib.Decide.{dec_lt}
use kwokka.Mpsc.{Slot, slot_index, half_range, popped, empty, pop, consume}
use kwokka.Mpsc.Window.{Holds, window-ne}
use kwokka.Mpsc.Enqueue.{set-Holds, set-Holds_self}
use kwokka.Mpsc.Threads.{
  Producer, idle, starting, loaded, observed, owning, refused, System, receive,
}
use kwokka.Mpsc.Threads.Invariant.{content, head, tail, Fits, IsSafe}
use kwokka.Mpsc.Threads.Look.{word_index, sequence_at}

module _ {ℓ} {A : Type ℓ} where
  -- A slot whose sequence lags behind the next position is one of an empty ring.
  pop_lags :
      {k : ℕ} (s : System A) (cell : Option A)
      → k < 64
      → IsSafe k s
      → Holds s.ring (head s) (head s) cell
      → pop s.ring ≡ (s.ring, empty)
  unfolding pop
  pop_lags {k} s cell small w h =
      let slot : Slot A = record { sequence = head s % u64_mod; cell = cell } in
      let here : get_elem? s.ring.slots (slot_index s.ring (head s)) ≡ some slot =
        rw (word_index s (head s) small w (omega (arith, w.ordered, w.word))) h in
      let lags : half_range < sub64 (head s % u64_mod) (add64 (head s) 1) = omega arith in
      rw (pop, here, lt→ltb half_range _ lags) refl

  -- The system after the consumer has taken `v`.
  abbrev after_pop : System A → Slot A → A → System A
  after_pop s slot v = record s {
    ring = (consume s.ring (head s) slot).0;
    taken = s.taken ++ v ∷ [];
  }

  pop_level :
      {k : ℕ} (s : System A) (v : A)
      → k < 64
      → IsSafe k s
      → Holds s.ring (head s) (head s + 1) (some v)
      → pop s.ring ≡ (
        (consume s.ring (head s) (record { sequence = (head s + 1) % u64_mod; cell = some v })).0,
        popped v,
      )
  unfolding pop consume
  pop_level {k} s v small w h =
      let slot : Slot A = record { sequence = (head s + 1) % u64_mod; cell = some v } in
      let here : get_elem? s.ring.slots (slot_index s.ring (head s)) ≡ some slot =
        rw (word_index s (head s) small w (omega (arith, w.ordered, w.word))) h in
      let level : ltb half_range (sub64 ((head s + 1) % u64_mod) (add64 (head s) 1)) ≡ false =
        le→ltb_false half_range _ (omega arith) in
      rw (pop, here, level) refl

  Fits-next :
      (k : ℕ) (s t : System A) (x : Producer A)
      → head t ≡ suc (head s)
      → tail t ≡ tail s
      → ((b : Bool) (p : ℕ) (v : A) → x ≡ owning b p v → head s ≢ p)
      → Fits k s x
      → Fits k t x
  Fits-next k s t idle e l ne f = f
  Fits-next k s t (starting v) e l ne f = f
  Fits-next k s t (loaded p v) e l ne f = omega arith
  Fits-next k s t (observed p v) e l ne f = omega arith
  Fits-next k s t (owning b p v) e l ne f = let apart = ne b p v refl in omega arith
  Fits-next k s t (refused v) e l ne f = f

  consumed-IsSafe :
      {k : ℕ} (s : System A) (slot : Slot A) (v : A)
      → k < 64
      → IsSafe k s
      → head s < tail s
      → get_elem? s.claimed (head s) ≡ some v
      → Holds s.ring (head s) (head s + 1) (some v)
      → IsSafe k (after_pop s slot v)
  unfolding consume
  consumed-IsSafe {k} s slot v small w l got ready =
      let t = after_pop s slot v in
      let at : slot_index s.ring (head s) ≡ head s % length s.ring.slots =
        word_index s (head s) small w (omega (arith, w.word)) in
      let next : add64 (head s) 1 ≡ suc (head s) =
        mod-eq_of_lt (omega (arith, w.word)) ∙ omega arith in
      let slots : t.ring.slots
          ≡ set s.ring.slots (head s % length s.ring.slots)
              (record { sequence = (head s + 2 ^ k) % u64_mod; cell = none }) =
        rw (at, w.room) refl in
      let other : (q nx : ℕ) (c : Option A)
          → head s ≢ q
          → head s ≤ q
          → q < head s + 2 ^ k
          → Holds s.ring q nx c
          → Holds t.ring q nx c =
        λ q nx c ne l u.
          set-Holds s.ring t.ring (head s) q nx _ slots (
            rw w.room (window-ne (2 ^ k) (head s) (head s) q (omega arith) (omega arith) l u ne)) in
      -- a producer that owned the oldest position would not have published it
      let unowned : (i p : ℕ) (b : Bool) (x : A)
          → get_elem? s.producers i ≡ some (owning b p x)
          → head s ≢ p =
        λ i p b x g same.
          let again =
            sequence_at s.ring (record { sequence = (head s + 1) % u64_mod; cell = some v }) _ p p
              ready (ap (λ n. n % length s.ring.slots) same) (w.owned i p b x g).1 in
          omega (arith, again, same, w.word) in
      record {
        room = rw length-set w.room;
        ordered = omega arith;
        window = omega (arith, w.window);
        log = w.log;
        word = w.word;
        free = λ q lo u. elim (dec_lt q (head s + 2 ^ k)) [
          | yes inside ↦ other q q none (omega arith) (omega arith) inside (w.free q lo inside)
          | no g ↦
              let e : q ≡ head s + 2 ^ k = omega arith in
              let same : (head s + 2 ^ k) % length s.ring.slots ≡ head s % length s.ring.slots =
                rw w.room (add-mod_right (head s) (2 ^ k)) in
              set-Holds_self s.ring t.ring (head s) q q (rw e slots) (rw (e, same) refl)
                (rw w.room (mod-lt q (omega (arith, one-le-pow k 2))))
        ];
        filled = λ q lo u.
            let (y, e, seen) = w.filled q (omega arith) u in
            (
              y,
              e,
              elim seen [
                | inl h ↦ inl (
                    other q (q + 1) (some y) (omega arith) (omega arith) (omega (arith, w.window))
                      h)
                | inr o ↦ inr o
              ],
            );
        fit = λ i x g.
            Fits-next k s t x next refl (λ b p y e. unowned i p b y (g ∙ ap some e)) (w.fit i x g);
        owned = λ i p b x g.
            let (e, h) = w.owned i p b x g in
            let within = w.fit i (owning b p x) g in
            (e, other p p (content b x) (unowned i p b x g) within.0 (omega (arith, w.window)) h);
        alone = w.alone;
        order = rw next (ap (λ xs. xs ++ v ∷ []) w.order ∙ sym (take-suc (head s) s.claimed got));
        sound = w.sound;
      }

  pub receive-IsSafe :
      {k : ℕ} (s : System A) → k < 64 → IsSafe k s → IsSafe k (receive s (pop s.ring))
  unfolding receive
  receive-IsSafe {k} s small w = elim (dec_lt (head s) (tail s)) [
    | yes l ↦
        let (v, got, seen) = w.filled (head s) (omega arith) l in
        elim seen [
          | inl ready ↦ rw (pop_level s v small w ready) (consumed-IsSafe s _ v small w l got ready)
          | inr (i, b, o) ↦ rw (pop_lags s _ small w (w.owned i (head s) b v o).1) w
        ]
    | no g ↦
        let first = w.free (head s) (omega arith) (omega (arith, one-le-pow k 2)) in
        rw (pop_lags s none small w first) w
  ]
