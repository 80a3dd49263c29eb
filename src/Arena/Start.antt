-- ===== src/Arena/Start.antt =====
-- An arena of crates/kwokka-core/src/arena/bump.rs from its making on.
use kwokka.Base.{
  ℕ, ◌+◌, ◌-◌, ◌%◌, ◌^◌, ◌≤◌, ◌≡◌, ◌==◌, inl, inr, refl, true, ◌&&◌, some, List, [], leb, arith,
  Bool-cases, Option-cases,
}
use mathlib.Core.Path.{subst}
use kwokka.Generation.{generation_zero}
use kwokka.Arena.{build, ok, Layout, BumpAllocator, is_power_of_two, from_size_align, from_builder}
use kwokka.Arena.Align.{is_power_of_two-power}
use kwokka.Arena.Run.{Call, Trace, run, Packed}
use kwokka.Arena.Laid.{IsLaid, Packed-raise, run-IsLaid}

from_size_align-fits :
    (size align : ℕ) (l : Layout)
    → from_size_align size align ≡ some l
    → (is_power_of_two align ≡ true) × (size + (align - 1) ≤ 2 ^ 63 - 1)
unfolding from_size_align
from_size_align-fits size align l e =
    elim (Bool-cases (is_power_of_two align && leb (size + (align - 1)) (2 ^ 63 - 1))) [
      | inl f ↦ (ground (arith, f), ground (arith, f))
      | inr f ↦ let failed = rw f at e in absurd cc
    ]

module _ {D : Type 0} where
  abbrev pub started : BumpAllocator D → Trace D
  started s = record { arena = s; regions = []; dropped = [] }

  -- The arena that `from_builder` makes.
  abbrev pub fresh_arena : ℕ → ℕ → ℕ → ℕ → BumpAllocator D
  fresh_arena address bytes drop_slots alignment = record {
    buffer = address;
    capacity = bytes;
    alignment = alignment;
    cursor = 0;
    drops = [];
    drop_capacity = drop_slots;
    phase = build;
    generation = generation_zero;
  }

  fresh-IsLaid :
      (address bytes drop_slots alignment : ℕ) (l : Layout)
      → from_size_align bytes alignment ≡ some l
      → address % alignment ≡ 0
      → IsLaid address bytes (started (fresh_arena address bytes drop_slots alignment))
  fresh-IsLaid address bytes drop_slots alignment l h placed =
      let (is_power, fits) = from_size_align-fits bytes alignment l h in
      let (k, power) = is_power_of_two-power alignment is_power in
      record {
        buffer = refl;
        capacity = refl;
        valid = record {
          exponent = k;
          power = power;
          placed = placed;
          within = omega arith;
          small = omega (arith, fits);
          room = omega arith;
        };
        packed = omega arith;
      }

  built :
      (address bytes drop_slots alignment : ℕ) (s : BumpAllocator D)
      → from_builder address bytes drop_slots alignment ≡ ok s
      → address % alignment ≡ 0
      → IsLaid address bytes (started s)
  unfolding from_builder
  built address bytes drop_slots alignment s e placed = elim (Bool-cases (bytes == 0)) [
    | inl f ↦ let failed = rw f at e in absurd cc
    | inr f ↦
        let e' = rw f at e in
        elim (Bool-cases (is_power_of_two alignment)) [
          | inr g ↦ let failed = rw g at e' in absurd cc
          | inl g ↦
              let e'' = rw g at e' in
              elim (Option-cases (from_size_align bytes alignment)) [
                | inl h ↦ let failed = rw h at e'' in absurd cc
                | inr (l, h) ↦
                    let made = rw h at e'' in
                    let same : fresh_arena address bytes drop_slots alignment ≡ s = cc in
                    subst (λ x. IsLaid address bytes (started x)) same
                      (fresh-IsLaid address bytes drop_slots alignment l h placed)
              ]
        ]
  ]

  -- In an arena whose buffer the system has aligned as asked, the regions handed out since the last
  -- reset, newest first, lie inside the buffer, each ends before the next newer one begins, and each
  -- starts at a multiple of its alignment, after every sequence of calls.
  pub run-Packed :
      (address bytes drop_slots alignment : ℕ) (s : BumpAllocator D) (cs : List (Call D))
      → from_builder address bytes drop_slots alignment ≡ ok s
      → address % alignment ≡ 0
      → Packed address (address + bytes) (run (started s) cs).regions
  run-Packed address bytes drop_slots alignment s cs e placed =
      let t = run (started s) cs in
      let w = run-IsLaid (started s) cs (built address bytes drop_slots alignment s e placed) in
      rw (w.buffer) at (
        Packed-raise t.arena.buffer (t.arena.buffer + t.arena.cursor) (address + bytes) t.regions
          w.packed (omega (arith, w.buffer, w.capacity, w.valid.within)))
