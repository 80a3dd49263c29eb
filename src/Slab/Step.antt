-- ===== src/Slab/Step.antt =====
-- A run of crates/kwokka-core/src/slab/slab.rs: the mutating calls as a type, and what every
-- sequence of them keeps.
use kwokka.Base.{
  ℕ, ◌≡◌, refl, ◌∙◌, true, Option, none, some, List, [], ◌∷◌, get_elem?, set, arith, length-set,
}
use mathlib.Core.Option
use kwokka.Generation.{is_occupied}
use kwokka.SlabKey.{index}
use kwokka.Slab.{Slot, Slab, Outcome, ok, full, panic, insert, remove, remove_by_index, retire_slot}
use kwokka.Slab.Reservation.{reserve, install, unreserve}
use kwokka.Slab.Access.{update, update_by_index}
use kwokka.Slab.Invariant.{
  IsValid, Chain-set, has_content, occupied_weight_occupied, reserved_weight_occupied,
  Chain-occupied,
}
use kwokka.Slab.Preserve.{insert_at-IsValid, vacate-IsValid, set-SlotOk, write_counts}
use kwokka.Slab.Promise.{reserve_at-IsValid, install_at-IsValid, unreserve_at-IsValid}
use kwokka.Slab.Cases.{
  IsWellFormed, IsIssued, insert-empty, insert-cons, reserve-empty, reserve-cons, issued-occupied,
  promised-reserved, removal_cases, index_cases, update_cases, install_cases, unreserve_cases,
}

pub data Call {ℓ} (A : Type ℓ) : Type ℓ where
  inserts : A → Call A
  removes : ℕ → Call A
  removes_index : ℕ → Call A
  retires : ℕ → Call A
  reserves : Call A
  installs : ℕ → A → Call A
  unreserves : ℕ → Call A
  writes : ℕ → (A → A) → Call A
  updates : ℕ → (A → A) → Call A

module _ {ℓ} {A : Type ℓ} where
  -- A call that fails leaves the slab as it was.
  abbrev after : Slab A → Outcome (Slab A × ℕ) → Slab A
  after s (ok (t, key)) = t
  after s full = s
  after s panic = s

  unfoldable pub step : Slab A → Call A → Slab A
  step s (inserts value) = after s (insert s value)
  step s (removes key) = (remove s key).0
  step s (removes_index i) = (remove_by_index s i).0
  step s (retires key) = (retire_slot s key).0
  step s reserves = after s (reserve s)
  step s (installs key value) = (install s key value).0
  step s (unreserves key) = (unreserve s key).0
  step s (writes key f) = update s key f
  step s (updates i f) = update_by_index s i f

  unfoldable pub run : Slab A → List (Call A) → Slab A
  run s [] = s
  run s (c ∷ cs) = run (step s c) cs

  -- The calls that test only the generation are made with keys whose generation marks an occupied
  -- slot, as those that the slab hands out do.
  abbrev pub IsProper : Call A → Type 0
  IsProper (inserts value) = Unit
  IsProper (removes key) = IsIssued key
  IsProper (removes_index i) = Unit
  IsProper (retires key) = IsIssued key
  IsProper reserves = Unit
  IsProper (installs key value) = Unit
  IsProper (unreserves key) = Unit
  IsProper (writes key f) = IsIssued key
  IsProper (updates i f) = Unit

  abbrev pub AllProper : List (Call A) → Type 0
  AllProper [] = Unit
  AllProper (c ∷ cs) = IsProper c × AllProper cs

  has_content-map : (f : A → A) (c : Option A) → has_content (Option.map f c) ≡ has_content c
  has_content-map f none = refl
  has_content-map f (some a) = refl

  update_at-IsValid :
      (s : Slab A) (free : List ℕ) (i : ℕ) (slot : Slot A) (f : A → A)
      → IsValid s free
      → get_elem? s.slots i ≡ some slot
      → is_occupied slot.generation ≡ true
      → IsValid
          (record s { slots = set s.slots i (record slot { content = Option.map f slot.content }) })
          free
  update_at-IsValid s free i slot f w h occ =
      let v : Slot A = record slot { content = Option.map f slot.content } in
      let c = write_counts s i slot v h in
      let good = w.slot_ok i slot h in
      let o = occupied_weight_occupied i slot occ in
      let o' = occupied_weight_occupied i v occ in
      let r = reserved_weight_occupied i slot occ in
      let r' = reserved_weight_occupied i v occ in
      record {
        fits = rw length-set w.fits;
        chain =
            Chain-set s.slots i v s.free_head free
              (Chain-occupied s.slots i s.free_head free (rw (h, occ)) w.chain) w.chain;
        distinct = w.distinct;
        slot_ok = set-SlotOk s i v w (record {
          in_range = good.in_range;
          holds = has_content-map f slot.content ∙ good.holds;
          unlinked = good.unlinked;
        });
        counts = omega (arith, c, o, o', w.counts);
        balance = omega (arith, c, r, r', w.balance);
      }

  insert-IsWellFormed :
      (s : Slab A) (value : A) (free : List ℕ)
      → IsValid s free
      → IsWellFormed (after s (insert s value))
  insert-IsWellFormed s value [] w = rw (insert-empty s value w) ([], w)
  insert-IsWellFormed s value (i ∷ is) w =
      let c = insert-cons s value i is w in
      rw c.1 (is, insert_at-IsValid s i is c.0 value w c.2 c.3 c.4)

  reserve-IsWellFormed :
      (s : Slab A) (free : List ℕ) → IsValid s free → IsWellFormed (after s (reserve s))
  reserve-IsWellFormed s [] w = rw (reserve-empty s w) ([], w)
  reserve-IsWellFormed s (i ∷ is) w =
      let c = reserve-cons s i is w in rw c.1 (is, reserve_at-IsValid s i is c.0 w c.2 c.3 c.4)

  removal-IsWellFormed :
      (s : Slab A) (key : ℕ)
      → IsIssued key
      → IsWellFormed s
      → IsWellFormed (remove s key).0 × IsWellFormed (retire_slot s key).0
  removal-IsWellFormed s key k (free, w) =
      removal_cases IsWellFormed s key (free, w)
        λ slot h e. (
          index key ∷ free,
          vacate-IsValid s free (index key) slot w h (issued-occupied slot key k e),
        )

  index-IsWellFormed :
      (s : Slab A) (i : ℕ) (f : A → A)
      → IsWellFormed s
      → IsWellFormed (remove_by_index s i).0 × IsWellFormed (update_by_index s i f)
  index-IsWellFormed s i f (free, w) =
      index_cases IsWellFormed s i f (free, w)
        λ slot h occ. (
          (i ∷ free, vacate-IsValid s free i slot w h occ),
          (free, update_at-IsValid s free i slot f w h occ),
        )

  install-IsWellFormed :
      (s : Slab A) (key : ℕ) (value : A) → IsWellFormed s → IsWellFormed (install s key value).0
  install-IsWellFormed s key value (free, w) =
      install_cases IsWellFormed s key value (free, w)
        λ slot h e.
          let p = promised-reserved s free slot key w h e in
          (free, install_at-IsValid s free (index key) slot value w h p.0 p.1)

  unreserve-IsWellFormed :
      (s : Slab A) (key : ℕ) → IsWellFormed s → IsWellFormed (unreserve s key).0
  unreserve-IsWellFormed s key (free, w) =
      unreserve_cases IsWellFormed s key (free, w)
        λ slot h e.
          let p = promised-reserved s free slot key w h e in
          (index key ∷ free, unreserve_at-IsValid s free (index key) slot w h p.0 p.1)

  write-IsWellFormed :
      (s : Slab A) (key : ℕ) (f : A → A)
      → IsIssued key
      → IsWellFormed s
      → IsWellFormed (update s key f)
  write-IsWellFormed s key f issued (free, w) =
      update_cases IsWellFormed s key f (free, w)
        λ slot h e. (
          free,
          update_at-IsValid s free (index key) slot f w h (issued-occupied slot key issued e),
        )

  -- Every mutating call keeps a slab well formed, `remove`, `retire_slot` and `get_mut` being called
  -- with keys whose generation marks an occupied slot.
  pub step-IsWellFormed :
      (s : Slab A) (c : Call A) → IsProper c → IsWellFormed s → IsWellFormed (step s c)
  unfolding step
  step-IsWellFormed s (inserts value) p (free, w) = insert-IsWellFormed s value free w
  step-IsWellFormed s (removes key) p w = (removal-IsWellFormed s key p w).0
  step-IsWellFormed s (removes_index i) p w = (index-IsWellFormed s i (λ a. a) w).0
  step-IsWellFormed s (retires key) p w = (removal-IsWellFormed s key p w).1
  step-IsWellFormed s reserves p (free, w) = reserve-IsWellFormed s free w
  step-IsWellFormed s (installs key value) p w = install-IsWellFormed s key value w
  step-IsWellFormed s (unreserves key) p w = unreserve-IsWellFormed s key w
  step-IsWellFormed s (writes key f) p w = write-IsWellFormed s key f p w
  step-IsWellFormed s (updates i f) p w = (index-IsWellFormed s i f w).1

  pub run-IsWellFormed :
      (s : Slab A) (cs : List (Call A)) → AllProper cs → IsWellFormed s → IsWellFormed (run s cs)
  unfolding run
  run-IsWellFormed s [] p w = w
  run-IsWellFormed s (c ∷ cs) p w = run-IsWellFormed (step s c) cs p.1 (step-IsWellFormed s c p.0 w)
