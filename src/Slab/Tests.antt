-- ===== src/Slab/Tests.antt =====
-- Runs of crates/kwokka-core/src/slab/slab.rs on a slab of two slots, with the theorems at them.
use kwokka.Base.{
  get_elem?, ℕ, ◌+◌, ◌≡◌, ◌≢◌, ◌↔◌, refl, sym, ◌∙◌, true, false, none, some, List, [], ◌∷◌, length,
  arith, inl, ◌^◌,
}
use kwokka.Generation.{is_occupied, next}
use kwokka.Generation
use kwokka.SlabKey.{index, generation}
use kwokka.SlabKey
use kwokka.Slab.{
  Slab, ok, full, panic, missing, found, uninit, insert, insert_at, get, get_by_index, remove,
  retire_slot, size, capacity, new, free_sentinel, new_slots,
}
use kwokka.Slab.Turnover.{refill, refill-stale}
use kwokka.Slab.Access.{iter, iter_from, slot_ptr}
use kwokka.Slab.Reservation.{reserve, reserve_at, install, unreserve}
use kwokka.Slab.Cases.{IsWellFormed, IsIssued}
use kwokka.Slab.Step.{
  Call, AllProper, inserts, removes, reserves, installs, step, run, step-IsWellFormed,
}
use kwokka.Slab.Lookup.{Differs}
use kwokka.Slab.Reads.{insert-reads, remove-reads, reserve-reads}
use kwokka.Slab.Capacity.{span, new-IsValid}
use kwokka.Slab.Safety.{promised, insert-full_iff, run-initialised, get-vacant_key}
use kwokka.Slab.Fill.{insert_all, new_fills}

-- `Slab::new(2)`.
abbrev two_free : Slab ℕ
two_free = record {
  slots =
      (record { generation = 0; next_free = 1; content = none })
      ∷ (record { generation = 0; next_free = free_sentinel; content = none })
      ∷ [];
  free_head = 0;
  len = 0;
}

new_two : new ℕ 2 ≡ some two_free
unfolding new new_slots
new_two = refl

-- The same slab after `insert(5)`.
abbrev one_held : Slab ℕ
one_held = record {
  slots =
      (record { generation = 1; next_free = free_sentinel; content = some 5 })
      ∷ (record { generation = 0; next_free = free_sentinel; content = none })
      ∷ [];
  free_head = 1;
  len = 1;
}

abbrev first_key : ℕ
first_key = 2 ^ 32

insert_first : insert two_free 5 ≡ ok (one_held, first_key)
unfolding insert insert_at is_occupied next SlabKey.new Generation.get
insert_first = refl

-- `reserve` on `one_held` takes the last slot.
abbrev one_promised : Slab ℕ
one_promised = record {
  slots =
      (record { generation = 1; next_free = free_sentinel; content = some 5 })
      ∷ (record { generation = 0; next_free = 1; content = none })
      ∷ [];
  free_head = free_sentinel;
  len = 1;
}

abbrev second_key : ℕ
second_key = 2 ^ 32 + 1

reserve_second : reserve one_held ≡ ok (one_promised, second_key)
unfolding reserve reserve_at is_occupied next SlabKey.new Generation.get
reserve_second = refl

two_free-IsWellFormed : IsWellFormed two_free
two_free-IsWellFormed =
    let n = new-IsValid ℕ 2 (omega arith) in
    let e : n.0 ≡ two_free = some_inj (sym n.1 ∙ new_two) in (span 0 2, rw e at n.2)
  where
    some_inj : {s t : Slab ℕ} → some s ≡ some t → s ≡ t
    some_inj e = cc

one_held-IsWellFormed : IsWellFormed one_held
unfolding step
one_held-IsWellFormed =
    rw insert_first at (step-IsWellFormed two_free (inserts 5) tt two_free-IsWellFormed)

first_key-IsIssued : IsIssued first_key
unfolding is_occupied generation
first_key-IsIssued = refl

second_key-IsIssued : IsIssued second_key
unfolding is_occupied generation
second_key-IsIssued = refl

second_key-Differs : Differs second_key first_key
unfolding index
second_key-Differs = inl (omega arith)

first_key-Differs : Differs first_key second_key
unfolding index
first_key-Differs = inl (omega arith)

step-IsWellFormed_example : IsWellFormed (step one_held (removes first_key))
step-IsWellFormed_example =
    step-IsWellFormed one_held (removes first_key) first_key-IsIssued one_held-IsWellFormed

insert-reads_example :
    IsIssued first_key
    × (get two_free first_key ≡ missing)
    × (get one_held first_key ≡ found 5)
    × (get one_held second_key ≡ get two_free second_key)
insert-reads_example =
    insert-reads two_free one_held 5 first_key second_key two_free-IsWellFormed insert_first
      second_key-IsIssued second_key-Differs

remove-reads_example :
    let t = (remove one_held first_key).0 in
    ((remove one_held first_key).1 ≡ get one_held first_key)
    × (get t first_key ≡ missing)
    × ((remove t first_key).1 ≡ missing)
    × ((retire_slot one_held first_key).0 ≡ t)
    × (get t second_key ≡ get one_held second_key)
remove-reads_example =
    remove-reads one_held first_key second_key first_key-IsIssued second_key-IsIssued
      second_key-Differs

reserve-reads_example :
    IsIssued second_key
    × (get one_promised first_key ≡ get one_held first_key)
    × (get one_promised second_key ≡ missing)
    × ((install one_promised second_key 9).1 ≡ true)
    × (get (install one_promised second_key 9).0 second_key ≡ found 9)
    × (get (install one_promised second_key 9).0 first_key ≡ get one_held first_key)
    × (unreserve one_promised second_key ≡ (one_held, true))
reserve-reads_example =
    reserve-reads one_held one_promised second_key 9 first_key one_held-IsWellFormed reserve_second
      first_key-IsIssued first_key-Differs

insert-full_iff_example :
    ((insert one_held 6 ≡ full) ↔ (size one_held + promised one_held ≡ capacity one_held))
    × ((reserve one_held ≡ full) ↔ (size one_held + promised one_held ≡ capacity one_held))
    × (insert one_held 6 ≢ panic)
    × (reserve one_held ≢ panic)
insert-full_iff_example = insert-full_iff one_held 6 one_held-IsWellFormed

abbrev busy : List (Call ℕ)
busy = inserts 5 ∷ reserves ∷ installs second_key 9 ∷ removes first_key ∷ inserts 4 ∷ []

busy-AllProper : AllProper busy
busy-AllProper = (tt, (tt, (tt, (first_key-IsIssued, (tt, tt)))))

run-initialised_example :
    (get (run two_free busy) second_key ≢ uninit) × (get_by_index (run two_free busy) 0 ≢ uninit)
run-initialised_example =
    run-initialised 2 two_free busy second_key 0 (omega arith) new_two busy-AllProper
      second_key-IsIssued

vacant : is_occupied 0 ≡ false
unfolding is_occupied
vacant = refl

get-vacant_key_example : get one_held (SlabKey.new 1 0) ≡ uninit
get-vacant_key_example =
    get-vacant_key one_held 1 (record { generation = 0; next_free = free_sentinel; content = none })
      one_held-IsWellFormed refl vacant

new_fills_example :
    (t : Slab ℕ) × (keys : List ℕ) × (insert_all two_free (7 ∷ 8 ∷ []) ≡ some (t, keys))
    × (length keys ≡ 2)
    × (size t ≡ 2)
    × (insert t 9 ≡ full)
new_fills_example = new_fills 2 two_free (7 ∷ 8 ∷ []) 9 (omega arith) new_two refl

-- Both slots filled.
abbrev two_held : Slab ℕ
two_held = record {
  slots =
      (record { generation = 1; next_free = free_sentinel; content = some 5 })
      ∷ (record { generation = 1; next_free = free_sentinel; content = some 9 })
      ∷ [];
  free_head = free_sentinel;
  len = 2;
}

slot_ptr_first : slot_ptr two_held first_key ≡ some 0
unfolding slot_ptr index generation
slot_ptr_first = refl

slot_ptr_second : slot_ptr two_held second_key ≡ some 1
unfolding slot_ptr index generation
slot_ptr_second = refl

iter_one : get_elem? (iter one_held) 0 ≡ some (first_key, found 5)
unfolding iter iter_from is_occupied SlabKey.new Generation.get
iter_one = refl

get_first : get one_held first_key ≡ found 5
unfolding get SlabKey.index SlabKey.generation
get_first = refl

refill-stale_example :
    (get (refill 3 one_held first_key (λ n. n)) first_key ≡ missing)
    × (get (refill (2 ^ 23) one_held first_key (λ n. n)) first_key ≡ found 0)
refill-stale_example =
    refill-stale (λ n. n) 3 one_held first_key 5 one_held-IsWellFormed first_key-IsIssued get_first
      (omega arith) (omega arith)
