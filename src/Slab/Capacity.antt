-- ===== src/Slab/Capacity.antt =====
-- `Slab::new` (crates/kwokka-core/src/slab/slab.rs) and how many values a slab takes.
use kwokka.Base.{
  ℕ, zero, suc, ◌+◌, ◌<◌, ◌≡◌, ◌≢◌, refl, ap, sym, ◌∙◌, false, ◌==◌, if◌then◌else◌, none, some,
  List, [], ◌∷◌, length, get_elem?, u32_mod, arith, get_elem?-lt, ltb,
}
use kwokka.Generation.{is_occupied, generation_zero}
use kwokka.Slab.{Slot, Slab, free_sentinel, new, new_slots}
use kwokka.Slab.Invariant.{
  IsValid, SlotOk, Chain, NotIn, Distinct, first, tally, occupied_weight, reserved_weight,
  occupied_weight_vacant, reserved_weight_free,
}

-- The indices from `i` on, `n` of them.
pub span : ℕ → ℕ → List ℕ
span i zero = []
span i (suc n) = i ∷ span (i + 1) n

pub length-span : (i n : ℕ) → length (span i n) ≡ n
unfolding span
length-span i zero = refl
length-span i (suc n) = ap suc (length-span (i + 1) n)

span-NotIn : (j i n : ℕ) → j < i → NotIn j (span i n)
unfolding span
span-NotIn j i zero h = tt
span-NotIn j i (suc n) h = (omega arith, span-NotIn j (i + 1) n (omega arith))

span-Distinct : (i n : ℕ) → Distinct (span i n)
unfolding span
span-Distinct i zero = tt
span-Distinct i (suc n) = (span-NotIn i (i + 1) n (omega arith), span-Distinct (i + 1) n)

vacant_zero : is_occupied generation_zero ≡ false
unfolding is_occupied
vacant_zero = refl

module _ {ℓ} (A : Type ℓ) where
  -- The slot that `new` writes at `i`.
  abbrev new_slot : ℕ → ℕ → Slot A
  new_slot i m = record {
    generation = generation_zero;
    next_free = if ltb (i + 1) m then i + 1 else free_sentinel;
    content = none;
  }

  length-new_slots : (n i m : ℕ) → length (new_slots {A = A} n i m) ≡ n
  unfolding new_slots
  length-new_slots zero i m = refl
  length-new_slots (suc n) i m = ap suc (length-new_slots n (i + 1) m)

  get_elem?-new_slots :
      (n i m j : ℕ) → j < n → get_elem? (new_slots {A = A} n i m) j ≡ some (new_slot (i + j) m)
  unfolding new_slots
  get_elem?-new_slots zero i m j h = elim h [ ]
  get_elem?-new_slots (suc n) i m zero h =
      let e : i ≡ i + 0 = omega arith in ap (λ k. some (new_slot k m)) e
  get_elem?-new_slots (suc n) i m (suc j) h =
      let e : i + 1 + j ≡ i + suc j = omega arith in
      get_elem?-new_slots n (i + 1) m j (omega arith) ∙ ap (λ k. some (new_slot k m)) e

  tally-occupied_new : (n i m k : ℕ) → tally occupied_weight k (new_slots {A = A} n i m) ≡ 0
  unfolding new_slots tally
  tally-occupied_new zero i m k = refl
  tally-occupied_new (suc n) i m k = omega (
    arith,
    occupied_weight_vacant k (new_slot i m) vacant_zero,
    tally-occupied_new n (i + 1) m (suc k),
  )

  new_slot-linked : (i m : ℕ) → i < m → m < u32_mod → (new_slot i m).next_free ≢ i
  new_slot-linked i m h k = ground arith

  tally-reserved_new :
      (n i m : ℕ) → i + n ≡ m → m < u32_mod → tally reserved_weight i (new_slots {A = A} n i m) ≡ 0
  unfolding new_slots tally
  tally-reserved_new zero i m e h = refl
  tally-reserved_new (suc n) i m e h =
      let step : suc i ≡ i + 1 = omega arith in
      omega (
        arith,
        reserved_weight_free i (new_slot i m) vacant_zero (new_slot-linked i m (omega arith) h),
        ap (λ k. tally reserved_weight k (new_slots {A = A} n (i + 1) m)) step,
        tally-reserved_new n (i + 1) m (omega arith) h,
      )

  first-span : (i n m : ℕ) → i + n ≡ m → 0 < n → first (span i n) ≡ i
  unfolding span
  first-span i zero m e h = elim h [ ]
  first-span i (suc n) m e h = refl

  first_after : (i n m : ℕ) → i + suc n ≡ m → (new_slot i m).next_free ≡ first (span (i + 1) n)
  unfolding span
  first_after i zero m e = ground arith
  first_after i (suc n) m e = ground arith

  Chain-new_slots :
      (n i m : ℕ) → i + n ≡ m → Chain (new_slots {A = A} m 0 m) (first (span i n)) (span i n)
  unfolding span
  Chain-new_slots zero i m e = refl
  Chain-new_slots (suc n) i m e =
      let at : get_elem? (new_slots {A = A} m 0 m) i ≡ some (new_slot (0 + i) m) =
        get_elem?-new_slots m 0 m i (omega arith) in
      let same : 0 + i ≡ i = omega arith in
      (
        refl,
        rw (at, same, vacant_zero) (ap some (first_after i n m e)),
        Chain-new_slots n (i + 1) m (omega arith),
      )

  new_slot-SlotOk : (i m : ℕ) → SlotOk (new_slot i m)
  new_slot-SlotOk i m = record {
    in_range = omega arith;
    holds = sym vacant_zero;
    unlinked = λ e. cc (vacant_zero);
  }

  new_head : (m : ℕ) → (if m == 0 then free_sentinel else 0) ≡ first (span 0 m)
  unfolding span
  new_head zero = refl
  new_head (suc m) = ground arith

  -- `new` panics on a capacity that is no `u32`; otherwise it gives a well-formed slab with that
  -- many slots, all of them free.
  pub new-IsValid :
      (n : ℕ)
      → n < u32_mod
      → (s : Slab A) × (new A n ≡ some s) × IsValid s (span 0 n) × (length s.slots ≡ n)
  unfolding new
  new-IsValid n h =
      let s : Slab A = record {
        slots = new_slots n 0 n;
        free_head = if n == 0 then free_sentinel else 0;
        len = 0;
      } in
      (
        s,
        ground (arith, h),
        record {
          fits = omega (arith, length-new_slots n 0 n);
          chain = rw (new_head n) (Chain-new_slots n 0 n (omega arith));
          distinct = span-Distinct 0 n;
          slot_ok = λ i slot e.
              let i_lt = get_elem?-lt (new_slots {A = A} n 0 n) i e in
              let at = get_elem?-new_slots n 0 n i (omega (arith, i_lt, length-new_slots n 0 n)) in
              let same : new_slot (0 + i) n ≡ slot = cc (at) in
              rw same at (new_slot-SlotOk (0 + i) n);
          counts = omega (arith, tally-occupied_new n 0 n 0);
          balance = omega (
            arith,
            tally-reserved_new n 0 n (omega arith) h,
            length-span 0 n,
            length-new_slots n 0 n,
          );
        },
        length-new_slots n 0 n,
      )
