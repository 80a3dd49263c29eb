-- ===== src/Slab/Fill.antt =====
-- Filling a slab of crates/kwokka-core/src/slab/slab.rs to its capacity.
use kwokka.Base.{
  ℕ, suc, ◌+◌, ◌<◌, ◌≤◌, ◌≡◌, refl, ap, ◌∙◌, Option, none, some, List, [], ◌∷◌, length, u32_mod,
  arith,
}
use kwokka.Slab.{Slab, ok, full, panic, insert, insert_at, new, size}
use kwokka.Slab.Invariant.{IsValid}
use kwokka.Slab.Preserve.{insert_at-IsValid}
use kwokka.Slab.Cases.{insert-empty, insert-cons}
use kwokka.Slab.Capacity.{new-IsValid, span, length-span}

abbrev with_key {ℓ} : {A : Type ℓ} → ℕ → Option (A × List ℕ) → Option (A × List ℕ)
with_key key none = none
with_key key (some (t, keys)) = some (t, key ∷ keys)

module _ {ℓ} {A : Type ℓ} where
  -- Insert the values in order; `none` if one does not go in.
  pub insert_all : Slab A → List A → Option (Slab A × List ℕ)
  insert_all s [] = some (s, [])
  insert_all s (v ∷ vs) = elim (insert s v) [
    | ok (t, key) ↦ with_key key (insert_all t vs)
    | full ↦ none
    | panic ↦ none
  ]

  pub record Filled (s : Slab A) (vs : List A) (free : List ℕ) : Type ℓ where
    pub t : Slab A
    pub keys : List ℕ
    pub left : List ℕ
    pub done : insert_all s vs ≡ some (t, keys)
    pub valid : IsValid t left
    pub room : length left + length vs ≡ length free
    pub grown : t.len ≡ s.len + length vs
    pub one_each : length keys ≡ length vs

  insert_all-Filled :
      (s : Slab A) (vs : List A) (free : List ℕ)
      → IsValid s free
      → length vs ≤ length free
      → Filled s vs free
  unfolding insert_all insert_at
  insert_all-Filled s [] free w h = record {
    t = s;
    keys = [];
    left = free;
    done = refl;
    valid = w;
    room = omega arith;
    grown = omega arith;
    one_each = refl;
  }
  insert_all-Filled s (v ∷ vs) [] w h = absurd (omega arith)
  insert_all-Filled s (v ∷ vs) (i ∷ is) w h =
      let c = insert-cons s v i is w in
      let s' = (insert_at s i c.0 v).0 in
      let w' = insert_at-IsValid s i is c.0 v w c.2 c.3 c.4 in
      let rest = insert_all-Filled s' vs is w' (omega arith) in
      record {
        t = rest.t;
        keys = (insert_at s i c.0 v).1 ∷ rest.keys;
        left = rest.left;
        done = rw (c.1, insert_all) (ap (with_key (insert_at s i c.0 v).1) rest.done);
        valid = rest.valid;
        room = omega (arith, rest.room);
        grown = omega (arith, rest.grown, w.balance, w.fits);
        one_each = ap suc rest.one_each;
      }

  insert-exhausted :
      (t : Slab A) (value : A) (left : List ℕ)
      → IsValid t left
      → length left ≡ 0
      → insert t value ≡ full
  insert-exhausted t value [] w e = insert-empty t value w
  insert-exhausted t value (i ∷ is) w e = absurd (omega arith)

  new-len : (n : ℕ) (s : Slab A) → n < u32_mod → new A n ≡ some s → s.len ≡ 0
  unfolding new
  new-len n s h e = ground arith

  -- A new slab of capacity `n` takes any `n` values, each insert succeeding; it then holds `n`
  -- values and refuses the next.
  pub new_fills :
      (n : ℕ) (s : Slab A) (vs : List A) (value : A)
      → n < u32_mod
      → new A n ≡ some s
      → length vs ≡ n
      → (t : Slab A) × (keys : List ℕ) × (insert_all s vs ≡ some (t, keys))
        × (length keys ≡ n)
        × (size t ≡ n)
        × (insert t value ≡ full)
  unfolding size
  new_fills n s vs value h e len =
      let fresh = new-IsValid A n h in
      let same : fresh.0 ≡ s = cc (fresh.1) in
      let w : IsValid s (span 0 n) = rw same at fresh.2 in
      let f = insert_all-Filled s vs (span 0 n) w (omega (arith, length-span 0 n)) in
      (
        f.t,
        f.keys,
        f.done,
        f.one_each ∙ len,
        omega (arith, f.grown, new-len n s h e),
        insert-exhausted f.t value f.left f.valid (omega (arith, f.room, length-span 0 n)),
      )
