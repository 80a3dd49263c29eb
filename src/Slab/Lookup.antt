-- ===== src/Slab/Lookup.antt =====
-- What `get` answers after each call of crates/kwokka-core/src/slab/slab.rs: the slab as a map from
-- issued keys to values.
use kwokka.Base.{
  ℕ, ◌<◌, ◌≡◌, ◌≢◌, ◌⊎◌, inl, inr, ap, sym, ◌∙◌, false, some, List, [], ◌∷◌, get_elem?, set,
  u32_mod, arith, get_elem?-lt, get_elem?-set_self, get_elem?-set_ne,
}
use native.Mathlib.Decide.{ℕ_discrete}
use kwokka.Generation.{is_occupied, next, next-lt, is_occupied-next_vacant}
use kwokka.SlabKey.{index, generation, index-new, generation-new}
use kwokka.SlabKey
use kwokka.Slab.{
  Slot, Slab, missing, found, ok, free_sentinel, insert, insert_at, get, read_content,
}
use kwokka.Slab.Invariant.{IsValid}
use kwokka.Slab.Cases.{IsWellFormed, IsIssued, insert-empty, insert-cons}

-- Two keys that the slab tells apart.
abbrev pub Differs : ℕ → ℕ → Type 0
Differs k key = (index k ≢ index key) ⊎ (generation k ≢ generation key)

pub ok_inj {ℓ} : {B : Type ℓ} (x y : B) → ok x ≡ ok y → x ≡ y
ok_inj x y e = cc

module _ {ℓ} {A : Type ℓ} where
  pub get_hit :
      (s : Slab A) (key : ℕ) (slot : Slot A)
      → get_elem? s.slots (index key) ≡ some slot
      → slot.generation ≡ generation key
      → get s key ≡ read_content slot.content
  unfolding get
  get_hit s key slot h e = rw (h, get) (ground arith)

  pub get_stale :
      (s : Slab A) (key : ℕ) (slot : Slot A)
      → get_elem? s.slots (index key) ≡ some slot
      → slot.generation ≢ generation key
      → get s key ≡ missing
  unfolding get
  get_stale s key slot h e = rw (h, get) (ground arith)

  -- A vacant slot answers no issued key.
  pub get_vacant :
      (s : Slab A) (key : ℕ) (slot : Slot A)
      → get_elem? s.slots (index key) ≡ some slot
      → is_occupied slot.generation ≡ false
      → IsIssued key
      → get s key ≡ missing
  get_vacant s key slot h vac k = get_stale s key slot h (λ e. cc (ap is_occupied e))

  pub get_same :
      (s t : Slab A) (key : ℕ)
      → get_elem? s.slots (index key) ≡ get_elem? t.slots (index key)
      → get s key ≡ get t key
  unfolding get
  get_same s t key e = rw (e, get)

  get_other :
      (s : Slab A) (k key : ℕ) (slot : Slot A)
      → get_elem? s.slots (index k) ≡ some slot
      → IsIssued k
      → generation k ≢ generation key
      → (is_occupied slot.generation ≡ false) ⊎ (slot.generation ≡ generation key)
      → get s k ≡ missing
  get_other s k key slot h issued n (inl vac) = get_vacant s k slot h vac issued
  get_other s k key slot h issued n (inr e) = get_stale s k slot h (λ f. n (sym f ∙ e))

  -- A write of `v` over `slot` at the index of `key`, where neither answers `k`.
  pub get_elsewhere :
      (s t : Slab A) (k key : ℕ) (slot v : Slot A)
      → t.slots ≡ set s.slots (index key) v
      → get_elem? s.slots (index key) ≡ some slot
      → IsIssued k
      → Differs k key
      → (is_occupied slot.generation ≡ false) ⊎ (slot.generation ≡ generation key)
      → (is_occupied v.generation ≡ false) ⊎ (v.generation ≡ generation key)
      → get t k ≡ get s k
  get_elsewhere s t k key slot v e h issued differs old new =
      elim (ℕ_discrete (index k) (index key)) [
        | yes same ↦
            let n : generation k ≢ generation key = ground (arith, differs) in
            let before : get_elem? s.slots (index k) ≡ some slot = rw same h in
            let after : get_elem? t.slots (index k) ≡ some v =
              rw (e, same) (get_elem?-set_self s.slots (index key) v (get_elem?-lt s.slots _ h)) in
            get_other t k key v after issued n new
            ∙ sym (get_other s k key slot before issued n old)
        | no other ↦
            get_same t s k
              (rw e (get_elem?-set_ne s.slots (index key) (index k) v (λ f. other (sym f))))
      ]

  pub get_written :
      (s t : Slab A) (key : ℕ) (slot v : Slot A)
      → t.slots ≡ set s.slots (index key) v
      → get_elem? s.slots (index key) ≡ some slot
      → get_elem? t.slots (index key) ≡ some v
  get_written s t key slot v e h =
      rw e (get_elem?-set_self s.slots (index key) v (get_elem?-lt s.slots (index key) h))

  -- What a slab answers once a call has stored `value` under `key`.
  pub record Stores (s t : Slab A) (key : ℕ) (value : A) : Type ℓ where
    pub issued : IsIssued key
    pub absent : get s key ≡ missing
    pub present : get t key ≡ found value
    pub others : (k : ℕ) → IsIssued k → Differs k key → get t k ≡ get s k

  -- The key that `insert` and `reserve` pack for the vacant slot at `i`.
  pub fresh_key :
      (s : Slab A) {free : List ℕ} (i : ℕ) (slot : Slot A)
      → IsValid s free
      → get_elem? s.slots i ≡ some slot
      → is_occupied slot.generation ≡ false
      → let key = SlabKey.new i (next slot.generation) in
        (index key ≡ i) × (generation key ≡ next slot.generation) × IsIssued key
  fresh_key s i slot w h vac =
      let small : i < u32_mod = omega (arith, get_elem?-lt s.slots i h, w.fits) in
      let g : generation (SlabKey.new i (next slot.generation)) ≡ next slot.generation =
        omega (arith, generation-new i (next slot.generation) small, next-lt slot.generation) in
      (
        index-new i (next slot.generation) small,
        g,
        ap is_occupied g ∙ is_occupied-next_vacant slot.generation vac,
      )

  pub insert_at-Stores :
      (s : Slab A) (free : List ℕ) (i : ℕ) (slot : Slot A) (value : A)
      → IsValid s free
      → get_elem? s.slots i ≡ some slot
      → is_occupied slot.generation ≡ false
      → Stores s (insert_at s i slot value).0 (insert_at s i slot value).1 value
  unfolding insert_at
  insert_at-Stores s free i slot value w h vac =
      let f = fresh_key s i slot w h vac in
      let key = SlabKey.new i (next slot.generation) in
      let v : Slot A = record {
        generation = next slot.generation;
        next_free = free_sentinel;
        content = some value;
      } in
      let t = (insert_at s i slot value).0 in
      let h' : get_elem? s.slots (index key) ≡ some slot = rw f.0 h in
      let e : t.slots ≡ set s.slots (index key) v = rw f.0 in
      record {
        issued = f.2;
        absent = get_vacant s key slot h' vac f.2;
        present = get_hit t key v (get_written s t key slot v e h') (sym f.1);
        others =
            λ k issued d. get_elsewhere s t k key slot v e h' issued d (inl vac) (inr (sym f.1));
      }

  -- A successful `insert` on a well-formed slab returns a key whose generation marks an occupied
  -- slot, under which nothing was stored before and the value is stored now; what any other such key
  -- reads is unchanged.
  pub insert-Stores :
      (s t : Slab A) (value : A) (key : ℕ)
      → IsWellFormed s
      → insert s value ≡ ok (t, key)
      → Stores s t key value
  insert-Stores s t value key ([], w) e = cc (insert-empty s value w)
  insert-Stores s t value key (i ∷ is, w) e =
      let c = insert-cons s value i is w in
      let p : insert_at s i c.0 value ≡ (t, key) = ok_inj _ _ (sym c.1 ∙ e) in
      rw p at (insert_at-Stores s (i ∷ is) i c.0 value w c.2 c.3)
