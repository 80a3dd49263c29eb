-- ===== src/Arena/Laid.antt =====
-- The regions that crates/kwokka-core/src/arena/bump.rs hands out lie apart.
use kwokka.Base.{
  ℕ, suc, ◌+◌, ◌-◌, ◌*◌, ◌^◌, ◌≤◌, ◌≡◌, ◌⊎◌, inl, inr, refl, sym, ap, ◌∙◌, ◌&&◌, some, List, [],
  ◌∷◌, length, ltb, leb, arith, u64_mod, Bool-cases, Option-cases, checked_mul, leb_false→lt,
}
use mathlib.Core.Path.{subst}
use kwokka.Arena.{
  ArenaPhase, build, frozen, ArenaError, Result, ok, err, Layout, BumpAllocator, is_power_of_two,
  from_size_align, alloc_aligned, alloc_raw, alloc, alloc_with_drop, alloc_slice, in_build, freeze,
  reset,
}
use kwokka.Arena.Run.{
  Call, allocs, allocs_drop, allocs_slice, freezes, resets, Region, Trace, grant, step, run, Packed,
}
use kwokka.Arena.Bounds.{IsLayout, IsValid, alloc_aligned-Placed}

pub Packed-raise : (low h k : ℕ) (rs : List Region) → Packed low h rs → h ≤ k → Packed low k rs
Packed-raise low h k [] p l = omega arith
Packed-raise low h k (r ∷ rs) (e, a, p) l = (omega arith, a, p)

in_build-ok :
    {A : Type 0} (p : ArenaPhase) (r : Result A) (x : A)
    → in_build p r ≡ ok x
    → (p ≡ build) × (r ≡ ok x)
in_build-ok build r x e = (refl, e)
in_build-ok frozen r x e = absurd cc

from_size_align-some :
    (size align : ℕ) (l : Layout)
    → from_size_align size align ≡ some l
    → l ≡ record { size = size; align = align }
unfolding from_size_align
from_size_align-some size align l e =
    elim (Bool-cases (is_power_of_two align && leb (size + (align - 1)) (2 ^ 63 - 1))) [
      | inl f ↦ let given = rw f at e in sym cc
      | inr f ↦ let failed = rw f at e in absurd cc
    ]

checked_mul-product : (a b c : ℕ) → checked_mul a b ≡ some c → c ≡ a * b
checked_mul-product a b c e = elim (Bool-cases (ltb (a * b) u64_mod)) [
  | inl f ↦ let given = rw f at e in sym cc
  | inr f ↦ let failed = rw f at e in absurd cc
]

module _ {D : Type 0} where
  pub record IsLaid (low size : ℕ) (t : Trace D) : Type 0 where
    pub buffer : t.arena.buffer ≡ low
    pub capacity : t.arena.capacity ≡ size
    pub valid : IsValid t.arena
    pub packed : Packed t.arena.buffer (t.arena.buffer + t.arena.cursor) t.regions

  -- An arena that differs in its cursor only.
  moved-IsValid :
      (s : BumpAllocator D) (c : ℕ) → IsValid s → c ≤ s.capacity → IsValid (record s { cursor = c })
  moved-IsValid s c w h = record {
    exponent = w.exponent;
    power = w.power;
    placed = w.placed;
    within = h;
    small = w.small;
    room = w.room;
  }

  -- The frozen arena gives nothing.
  alloc_raw-aligned :
      (s t : BumpAllocator D) (l : Layout) (p : ℕ)
      → alloc_raw s l ≡ ok (t, p)
      → (s.phase ≡ build) × (alloc_aligned s l ≡ ok (t, p))
  unfolding alloc_raw
  alloc_raw-aligned s t l p e = in_build-ok s.phase (alloc_aligned s l) (t, p) e

  -- The trace after an allocation in its arena.
  abbrev granted : Trace D → Layout → ℕ → ℕ → Trace D
  granted t l c p = grant t l (ok (record t.arena { cursor = c }, p))

  raw-IsLaid :
      {low size : ℕ} (t : Trace D) (l : Layout) (s : BumpAllocator D) (p : ℕ)
      → IsLayout l
      → IsLaid low size t
      → alloc_raw t.arena l ≡ ok (s, p)
      → (s ≡ record t.arena { cursor = s.cursor }) × IsLaid low size (granted t l s.cursor p)
  raw-IsLaid {low} {size} t l s p v w e =
      let f = (alloc_raw-aligned t.arena s l p e).1 in
      let q = alloc_aligned-Placed t.arena s l p w.valid v f in
      let same : s.buffer ≡ t.arena.buffer = ap (λ (x : BumpAllocator D). x.buffer) q.moved in
      (
        q.moved,
        record {
          buffer = w.buffer;
          capacity = w.capacity;
          valid = moved-IsValid t.arena s.cursor w.valid q.inside;
          packed = (
            omega (arith, q.ends, same),
            q.aligned,
            Packed-raise t.arena.buffer _ p t.regions w.packed q.above,
          );
        },
      )

  Result-cases :
      (r : Result (BumpAllocator D × ℕ))
      → ((e : ArenaError) × (r ≡ err e)) ⊎ ((s : BumpAllocator D) × (p : ℕ) × (r ≡ ok (s, p)))
  Result-cases (err e) = inl (e, refl)
  Result-cases (ok (s, p)) = inr (s, p, refl)

  alloc-IsLaid :
      {low size : ℕ} (t : Trace D) (l : Layout)
      → IsLayout l
      → IsLaid low size t
      → IsLaid low size (grant t l (alloc_raw t.arena l))
  alloc-IsLaid {low} {size} t l v w = elim (Result-cases (alloc_raw t.arena l)) [
    | inl (e, f) ↦ rw f w
    | inr (s, p, f) ↦
        let (moved, laid) = raw-IsLaid t l s p v w f in
        rw f (subst (λ x. IsLaid low size (grant t l (ok (x, p)))) (sym moved) laid)
  ]

  -- The arena with one more value to drop.
  abbrev with_drop : BumpAllocator D → ℕ → D → BumpAllocator D
  with_drop s p d = record s { drops = record { ptr = p; drop_fn = d } ∷ s.drops }

  with_drop-IsLaid :
      {low size : ℕ} (t : Trace D) (l : Layout) (c p : ℕ) (d : D)
      → IsLaid low size (granted t l c p)
      → suc (length t.arena.drops) ≤ t.arena.drop_capacity
      → IsLaid low size (grant t l (ok (with_drop (record t.arena { cursor = c }) p d, p)))
  with_drop-IsLaid {low} {size} t l c p d w h = record {
    buffer = w.buffer;
    capacity = w.capacity;
    valid = record {
      exponent = w.valid.exponent;
      power = w.valid.power;
      placed = w.valid.placed;
      within = w.valid.within;
      small = w.valid.small;
      room = h;
    };
    packed = w.packed;
  }

  -- Every call keeps the regions of the trace laid out apart.
  pub step-IsLaid :
      {low size : ℕ} (t : Trace D) (c : Call D) → IsLaid low size t → IsLaid low size (step t c)
  unfolding step alloc alloc_with_drop alloc_slice freeze reset
  step-IsLaid {low} {size} t (allocs l v) w = alloc-IsLaid t l v w
  step-IsLaid {low} {size} t (allocs_drop l v d) w =
      elim (Bool-cases (leb t.arena.drop_capacity (length t.arena.drops))) [
        | inl f ↦ rw (step, f) w
        | inr f ↦ elim (Result-cases (alloc_raw t.arena l)) [
          | inl (e, g) ↦ rw (step, f, g) w
          | inr (s, p, g) ↦
              let (moved, laid) = raw-IsLaid t l s p v w g in
              rw (step, f, g)
                (subst (λ x. IsLaid low size (grant t l (ok (with_drop x p d, p)))) (sym moved)
                  (with_drop-IsLaid t l s.cursor p d laid (omega (arith, leb_false→lt _ _ f))))
        ]
      ]
  step-IsLaid {low} {size} t (allocs_slice l v count) w =
      elim (Option-cases (checked_mul l.size count)) [
        | inl e ↦ rw (alloc_slice, e) w
        | inr (bytes, e) ↦ elim (Option-cases (from_size_align bytes l.align)) [
          | inl f ↦ rw (alloc_slice, e, f) w
          | inr (whole, f) ↦
              let same : whole ≡ record { size = l.size * count; align = l.align } =
                from_size_align-some bytes l.align whole f
                ∙ ap (λ n. record { size = n; align = l.align })
                    (checked_mul-product l.size count bytes e) in
              let array : Layout = record { size = l.size * count; align = l.align } in
              rw (alloc_slice, e, f, same)
                (alloc-IsLaid t array (record { exponent = v.exponent; power = v.power }) w)
        ]
      ]
  step-IsLaid {low} {size} t freezes w = record {
    buffer = w.buffer;
    capacity = w.capacity;
    valid = record {
      exponent = w.valid.exponent;
      power = w.valid.power;
      placed = w.valid.placed;
      within = w.valid.within;
      small = w.valid.small;
      room = w.valid.room;
    };
    packed = w.packed;
  }
  step-IsLaid {low} {size} t resets w = record {
    buffer = w.buffer;
    capacity = w.capacity;
    valid = record {
      exponent = w.valid.exponent;
      power = w.valid.power;
      placed = w.valid.placed;
      within = omega arith;
      small = w.valid.small;
      room = omega arith;
    };
    packed = omega arith;
  }

  pub run-IsLaid :
      {low size : ℕ} (t : Trace D) (cs : List (Call D))
      → IsLaid low size t
      → IsLaid low size (run t cs)
  unfolding run
  run-IsLaid t [] w = w
  run-IsLaid t (c ∷ cs) w = run-IsLaid (step t c) cs (step-IsLaid t c w)
