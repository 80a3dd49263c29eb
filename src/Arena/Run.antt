-- ===== src/Arena/Run.antt =====
-- A run of crates/kwokka-core/src/arena/bump.rs: the calls as a type, the regions handed out since
-- the last reset, and the calls of the dropping functions.
use kwokka.Base.{ℕ, ◌+◌, ◌*◌, ◌%◌, ◌≤◌, ◌≡◌, List, [], ◌∷◌, ◌++◌}
use kwokka.Arena.{
  Result, ok, err, Layout, DropEntry, BumpAllocator, alloc, alloc_with_drop, alloc_slice, freeze,
  reset,
}
use kwokka.Arena.Bounds.{IsLayout}

-- The calls, each with the layout of its type as Rust has them.
pub data Call (D : Type 0) : Type 0 where
  allocs : (l : Layout) → IsLayout l → Call D
  allocs_drop : (l : Layout) → IsLayout l → D → Call D
  allocs_slice : (l : Layout) → IsLayout l → ℕ → Call D
  freezes : Call D
  resets : Call D

-- The bytes handed out by one call.
pub record Region : Type 0 where
  pub start : ℕ
  pub layout : Layout

abbrev pub end : Region → ℕ
end r = r.start + r.layout.size

-- An arena, the regions handed out since the last reset, newest first, and the values dropped so
-- far, in order.
pub record Trace (D : Type 0) : Type 0 where
  pub arena : BumpAllocator D
  pub regions : List Region
  pub dropped : List (DropEntry D)

-- The regions, newest first, are aligned, and each ends before the next newer one begins.
abbrev pub Packed : ℕ → ℕ → List Region → Type 0
Packed low high [] = low ≤ high
Packed low high (r ∷ rs) = (end r ≤ high) × (r.start % r.layout.align ≡ 0) × Packed low r.start rs

module _ {D : Type 0} where
  abbrev pub grant : Trace D → Layout → Result (BumpAllocator D × ℕ) → Trace D
  grant t l (err e) = t
  grant t l (ok (s, p)) = record t {
    arena = s;
    regions = record { start = p; layout = l } ∷ t.regions;
  }

  unfoldable pub step : Trace D → Call D → Trace D
  step t (allocs l v) = grant t l (alloc t.arena l)
  step t (allocs_drop l v d) = grant t l (alloc_with_drop t.arena l d)
  step t (allocs_slice l v count) =
      grant t (record l { size = l.size * count }) (alloc_slice t.arena l count)
  step t freezes = record t { arena = freeze t.arena }
  step t resets =
      let (s, calls) = reset t.arena in
      record { arena = s; regions = []; dropped = t.dropped ++ calls }

  unfoldable pub run : Trace D → List (Call D) → Trace D
  run t [] = t
  run t (c ∷ cs) = run (step t c) cs
