-- ===== src/Children/Storage.antt =====
-- `TaskStorage` for a slab of tasks (crates/kwokka-runtime/src/task/cell/storage.rs): a reference is
-- resolved by its index and its generation alone. A `TaskSlot` is its header.
use mathlib.Core.Option
use kwokka.Base.{
  ℕ, ◌+◌, ◌*◌, ◌^◌, ◌≡◌, ◌≢◌, refl, sym, ap, ◌∙◌, true, inl, inr, Option, none, some, get_elem?,
  set, ◌==◌, get_elem?-set_self, get_elem?-set_ne, get_elem?-lt, ==_iff, Bool-cases, Option-cases,
  arith,
}
use native.Mathlib.Decide.{ℕ_discrete}
use kwokka.SlabKey.{index, generation, index_lem, generation_lem, new_lem}
use kwokka.SlabKey
use kwokka.TaskRef
use kwokka.Slab.{Slot, Slab, Read, missing, found, uninit, get, read_content}
use kwokka.Slab.Access.{update}
use kwokka.Slab.Lookup.{get_hit, get_stale, get_same}
use kwokka.Children.{TaskHeader, TaskStorage}

-- The key that all three operations resolve a `TaskRef` to.
unfoldable pub slab_key : ℕ → ℕ
slab_key r = SlabKey.new (TaskRef.index r) (TaskRef.generation r)

slab_key_parts : (r : ℕ) → slab_key r ≡ generation (slab_key r) * 2 ^ 32 + index (slab_key r)
unfolding slab_key TaskRef.index
slab_key_parts r = omega (
  arith,
  new_lem (TaskRef.index r) (TaskRef.generation r) (omega arith),
  index_lem (slab_key r),
  generation_lem (slab_key r),
)

-- Keys of one index and one generation are the same.
same_key :
    (r t : ℕ)
    → index (slab_key r) ≡ index (slab_key t)
    → generation (slab_key r) ≡ generation (slab_key t)
    → slab_key r ≡ slab_key t
same_key r t i g = omega (arith, slab_key_parts r, slab_key_parts t, i, g)

module _ {X : Type 0} where
  -- What a read gives; a well-formed slab never reads uninitialised memory.
  abbrev of_read : Read (TaskHeader X) → Option (TaskHeader X)
  of_read missing = none
  of_read uninit = none
  of_read (found h) = some h

  unfoldable pub get_header : Slab (TaskHeader X) → ℕ → Option (TaskHeader X)
  get_header s r = of_read (get s (slab_key r))

  -- A write of `h` through the reference that `get_mut` gives.
  unfoldable pub put_header : Slab (TaskHeader X) → ℕ → TaskHeader X → Slab (TaskHeader X)
  put_header s r h = update s (slab_key r) (λ c. h)

  held : Slot (TaskHeader X) → TaskHeader X → Slot (TaskHeader X)
  held slot h = record slot { content = Option.map (λ c. h) slot.content }

  update_hit :
      (s : Slab (TaskHeader X)) (key : ℕ) (h : TaskHeader X) (slot : Slot (TaskHeader X))
      → get_elem? s.slots (index key) ≡ some slot
      → slot.generation ≡ generation key
      → (update s key (λ c. h)).slots ≡ set s.slots (index key) (held slot h)
  unfolding update held
  update_hit s key h slot at e =
      let same : (slot.generation == generation key) ≡ true =
        (==_iff slot.generation (generation key)).1 e in
      rw (update, at, same) refl

  -- A write finds no slot of the key's generation and does nothing, or changes that slot alone.
  update_cases :
      (s : Slab (TaskHeader X)) (key : ℕ) (h : TaskHeader X)
      → (P : Slab (TaskHeader X) → Type 0) → (get s key ≡ missing → P s)
      → ((slot : Slot (TaskHeader X))
          → get_elem? s.slots (index key) ≡ some slot
          → slot.generation ≡ generation key
          → P (update s key (λ c. h)))
      → P (update s key (λ c. h))
  unfolding update get
  update_cases s key h P nothing hit = elim (Option-cases (get_elem? s.slots (index key))) [
    | inl e ↦ rw (update, e) (nothing (rw (get, e) refl))
    | inr (slot, e) ↦ elim (Bool-cases (slot.generation == generation key)) [
      | inl t ↦ hit slot e ((==_iff slot.generation (generation key)).0 t)
      | inr t ↦ rw (update, e, t) (nothing (rw (get, e, t) refl))
    ]
  ]

  content_held :
      (o : Option (TaskHeader X)) (g h : TaskHeader X)
      → of_read (read_content o) ≡ some g
      → of_read (read_content (Option.map (λ c. h) o)) ≡ some h
  content_held none g h e = absurd cc
  content_held (some c) g h e = refl

  pub get_header-put_self :
      (s : Slab (TaskHeader X)) (r : ℕ) (g h : TaskHeader X)
      → get_header s r ≡ some g
      → get_header (put_header s r h) r ≡ some h
  unfolding get_header put_header held
  get_header-put_self s r g h at =
      let k = slab_key r in
      update_cases s k h (λ t. of_read (get t k) ≡ some h)
        (λ e. let failed = rw e at at in absurd cc)
        λ slot e same.
          let t = update s k (λ c. h) in
          let after : get_elem? t.slots (index k) ≡ some (held slot h) =
            rw (update_hit s k h slot e same) (
              get_elem?-set_self s.slots (index k) (held slot h)
                (get_elem?-lt s.slots (index k) e)) in
          ap of_read (get_hit t k (held slot h) after same)
          ∙ content_held slot.content g h (sym (ap of_read (get_hit s k slot e same)) ∙ at)

  pub get_header-put_ne :
      (s : Slab (TaskHeader X)) (r t : ℕ) (h : TaskHeader X)
      → slab_key r ≢ slab_key t
      → get_header (put_header s r h) t ≡ get_header s t
  unfolding get_header put_header held
  get_header-put_ne s r t h ne =
      let k = slab_key r in
      let j = slab_key t in
      update_cases s k h (λ u. of_read (get u j) ≡ of_read (get s j)) (λ e. refl)
        λ slot e same.
          let u = update s k (λ c. h) in
          let written = update_hit s k h slot e same in
          elim (ℕ_discrete (index j) (index k)) [
            | no other ↦ ap of_read (
                get_same u s j (
                  rw written (
                    get_elem?-set_ne s.slots (index k) (index j) (held slot h)
                      (λ f. other (sym f)))))
            | yes here ↦
                let stale : slot.generation ≢ generation j =
                  λ f. ne (same_key r t (sym here) (sym same ∙ f)) in
                let before : get_elem? s.slots (index j) ≡ some slot = rw here e in
                let after : get_elem? u.slots (index j) ≡ some (held slot h) =
                  rw (written, here)
                    (get_elem?-set_self s.slots (index k) (held slot h)
                      (get_elem?-lt s.slots (index k) e)) in
                ap of_read
                  (get_stale u j (held slot h) after stale ∙ sym (get_stale s j slot before stale))
          ]

  -- The implementation, whose references of one index and one generation name one header.
  abbrev pub slab_storage : TaskStorage (Slab (TaskHeader X)) X
  slab_storage = record {
    header_key = slab_key;
    get = get_header;
    put = put_header;
    get-put_self = get_header-put_self;
    get-put_ne = get_header-put_ne;
  }
