-- ===== src/Ir/Tables/Loop.antt =====
-- The entry loop of crates/kwokka-ir/src/conductor/check.rs visits every entry of its table.
use kwokka.Base.{
  ℕ, zero, suc, ◌+◌, ◌*◌, ◌<◌, ◌≤◌, ◌≡◌, some, List, length, arith, checked_add, lt→ltb,
}
use kwokka.Ir.Fault.{out_of_bounds, Result, ok, ok_or, >>=-eq-ok, ok_or-eq-ok}
use kwokka.Ir.Bytes.{get_range}
use kwokka.Ir.Bytes.Ranges.{checked_add-some}
use kwokka.Ir.Tables.{each_entry}

-- The entry at `offset` is there and passes the check.
abbrev pub EntryOk : List ℕ → ℕ → ℕ → (List ℕ → Result (Unit {0})) → Type 0
EntryOk table len offset check =
    (entry : List ℕ) × (get_range table offset (offset + len) ≡ some entry) × (check entry ≡ ok tt)

each_entry-round :
    (fuel : ℕ) (table : List ℕ) (len offset : ℕ) (check : List ℕ → Result (Unit {0}))
    → offset < length table
    → each_entry (suc fuel) table len offset check ≡ ok tt
    → EntryOk table len offset check × (each_entry fuel table len (offset + len) check ≡ ok tt)
unfolding each_entry
each_entry-round fuel table len offset check lt h =
    let h₀ = rw (lt→ltb offset (length table) lt) at h in
    let a = >>=-eq-ok (ok_or (checked_add offset len) out_of_bounds) _ h₀ in
    let sum = (checked_add-some offset len (ok_or-eq-ok _ _ a.1)).0 in
    let b = >>=-eq-ok (ok_or (get_range table offset a.0) out_of_bounds) _ a.2 in
    let c = >>=-eq-ok (check b.0) _ b.2 in ((b.0, rw (← sum) (ok_or-eq-ok _ _ b.1), c.1), c.2)

-- Where the loop succeeds, the entry at each multiple of `len` in the table is whole and passes.
pub each_entry-all :
    (fuel : ℕ) (table : List ℕ) (len offset : ℕ) (check : List ℕ → Result (Unit {0}))
    → 0 < len
    → length table ≤ offset + fuel
    → each_entry fuel table len offset check ≡ ok tt
    → (k : ℕ) → offset + k * len < length table
    → EntryOk table len (offset + k * len) check
each_entry-all zero table len offset check pos enough h k lt = absurd (grind arith)
each_entry-all (suc fuel) table len offset check pos enough h zero lt =
    let r = each_entry-round fuel table len offset check (omega arith) h in
    let e : offset + zero * len ≡ offset = omega arith in rw e r.0
each_entry-all (suc fuel) table len offset check pos enough h (suc k) lt =
    let r = each_entry-round fuel table len offset check (grind arith) h in
    let e : offset + suc k * len ≡ offset + len + k * len = grind arith in
    rw e (each_entry-all fuel table len (offset + len) check pos (omega arith) r.1 k (omega arith))
