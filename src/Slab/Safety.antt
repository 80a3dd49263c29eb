-- ===== src/Slab/Safety.antt =====
-- What no run of crates/kwokka-core/src/slab/slab.rs does: corrupt the free list, fail with room
-- left, or read memory that holds no value.
use kwokka.Base.{
  ℕ, ◌+◌, ◌<◌, ◌≡◌, ◌≢◌, ◌⊎◌, inl, inr, ◌↔◌, refl, ap, ◌∙◌, true, false, ◌==◌, Option, none, some,
  List, [], ◌∷◌, get_elem?, u32_mod, arith, Bool-cases, Option-cases, get_elem?-lt, ==_iff,
}
use kwokka.Generation.{is_occupied}
use kwokka.SlabKey.{index, generation, index-new, generation-new}
use kwokka.SlabKey
use kwokka.Slab.{
  Slot, Slab, uninit, ok, full, panic, insert, get, get_by_index, new, size, capacity, read_content,
}
use kwokka.Slab.Reservation.{reserve}
use kwokka.Slab.Invariant.{IsValid, SlotOk, has_content, tally, reserved_weight}
use kwokka.Slab.Cases.{
  IsWellFormed, IsIssued, insert-empty, insert-cons, reserve-empty, reserve-cons,
}
use kwokka.Slab.Step.{Call, AllProper, run, run-IsWellFormed}
use kwokka.Slab.Capacity.{new-IsValid, span}

module _ {ℓ} {A : Type ℓ} where
  -- How many slots are reserved and not yet installed.
  pub promised : Slab A → ℕ
  promised s = tally reserved_weight 0 s.slots

  full-case :
      (s : Slab A) (value : A) (free : List ℕ)
      → IsValid s free
      → ((insert s value ≡ full) × (reserve s ≡ full) × (size s + promised s ≡ capacity s))
        ⊎ ((p : Slab A × ℕ) × (q : Slab A × ℕ) × (insert s value ≡ ok p)
            × (reserve s ≡ ok q)
            × (size s + promised s < capacity s))
  unfolding promised size capacity
  full-case s value [] w = inl (insert-empty s value w, reserve-empty s w, omega (arith, w.balance))
  full-case s value (i ∷ is) w =
      let c = insert-cons s value i is w in
      let d = reserve-cons s i is w in inr (_, _, c.1, d.1, omega (arith, w.balance))

  -- On a well-formed slab `insert` and `reserve` fail exactly where every slot is occupied or
  -- reserved, and never find their free list corrupt.
  pub insert-full_iff :
      (s : Slab A) (value : A)
      → IsWellFormed s
      → ((insert s value ≡ full) ↔ (size s + promised s ≡ capacity s))
        × ((reserve s ≡ full) ↔ (size s + promised s ≡ capacity s))
        × (insert s value ≢ panic)
        × (reserve s ≢ panic)
  insert-full_iff s value (free, w) = elim (full-case s value free w) [
    | inl (a, b, c) ↦ ((λ e. c, λ e. a), (λ e. c, λ e. b), λ e. cc, λ e. cc)
    | inr (p, q, a, b, c) ↦ (
      (λ e. cc, λ e. absurd (omega arith)),
      (λ e. cc, λ e. absurd (omega arith)),
      λ e. cc,
      λ e. cc,
    )
  ]

  occupied-read :
      (slot : Slot A)
      → SlotOk slot
      → is_occupied slot.generation ≡ true
      → read_content slot.content ≢ uninit
  occupied-read slot good occ = go slot.content (good.holds ∙ occ)
    where
      go : (c : Option A) → has_content c ≡ true → read_content c ≢ uninit
      go none e = cc
      go (some a) e = λ f. cc

  get-initialised : (s : Slab A) (key : ℕ) → IsWellFormed s → IsIssued key → get s key ≢ uninit
  unfolding get
  get-initialised s key (free, w) issued = elim (Option-cases (get_elem? s.slots (index key))) [
    | inl e ↦ rw (e, get) (λ f. cc)
    | inr (slot, e) ↦ elim (Bool-cases (slot.generation == generation key)) [
      | inl t ↦
          rw (e, get)
            (rw t (
              occupied-read slot (w.slot_ok (index key) slot e)
                (ap is_occupied ((==_iff slot.generation (generation key)).0 t) ∙ issued)))
      | inr t ↦ rw (e, get) (rw t (λ f. cc))
    ]
  ]

  get_by_index-initialised : (s : Slab A) (i : ℕ) → IsWellFormed s → get_by_index s i ≢ uninit
  unfolding get_by_index
  get_by_index-initialised s i (free, w) = elim (Option-cases (get_elem? s.slots i)) [
    | inl e ↦ rw (e, get_by_index) (λ f. cc)
    | inr (slot, e) ↦ elim (Bool-cases (is_occupied slot.generation)) [
      | inl t ↦ rw (e, get_by_index) (rw t (occupied-read slot (w.slot_ok i slot e) t))
      | inr t ↦ rw (e, get_by_index) (rw t (λ f. cc))
    ]
  ]

  -- After any sequence of calls on a new slab, with `remove`, `retire_slot` and `get_mut` called only with keys
  -- whose generation marks an occupied slot, a read by such a key or by an index never reaches
  -- memory that holds no value.
  pub run-initialised :
      (n : ℕ) (s : Slab A) (cs : List (Call A)) (key i : ℕ)
      → n < u32_mod
      → new A n ≡ some s
      → AllProper cs
      → IsIssued key
      → (get (run s cs) key ≢ uninit) × (get_by_index (run s cs) i ≢ uninit)
  run-initialised n s cs key i h e p issued =
      let fresh = new-IsValid A n h in
      let same : fresh.0 ≡ s = cc (fresh.1) in
      let w : IsWellFormed s =
        rw same at (let v : IsWellFormed fresh.0 = (span 0 n, fresh.2) in v) in
      let r = run-IsWellFormed s cs p w in
      (get-initialised (run s cs) key r issued, get_by_index-initialised (run s cs) i r)

  -- `get` tests only the generation: with the key that names a vacant slot's own generation, which
  -- the public constructors of `SlabKey` and `Generation` can build, it reads uninitialised memory
  -- in every well-formed slab with a vacant slot.
  pub get-vacant_key :
      (s : Slab A) (i : ℕ) (slot : Slot A)
      → IsWellFormed s
      → get_elem? s.slots i ≡ some slot
      → is_occupied slot.generation ≡ false
      → get s (SlabKey.new i slot.generation) ≡ uninit
  unfolding get
  get-vacant_key s i slot (free, w) h vac =
      let good = w.slot_ok i slot h in
      let small : i < u32_mod = omega (arith, get_elem?-lt s.slots i h, w.fits) in
      let g : (slot.generation == generation (SlabKey.new i slot.generation)) ≡ true =
        ground (arith, generation-new i slot.generation small, good.in_range) in
      rw (index-new i slot.generation small, h, get) (rw g (empty slot.content (good.holds ∙ vac)))
    where
      empty : (c : Option A) → has_content c ≡ false → read_content c ≡ uninit
      empty none e = refl
      empty (some a) e = cc
