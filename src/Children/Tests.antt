-- ===== src/Children/Tests.antt =====
-- crates/kwokka-runtime/src/task/join/children.rs over the slab of crates/kwokka-runtime/src/task/cell/storage.rs.
use kwokka.Base.{ℕ, ◌+◌, ◌*◌, ◌^◌, ◌≡◌, refl, Option, none, some, [], ◌∷◌, arith, inl, inr}
use kwokka.Base.Members.{remove}
use kwokka.Generation
use kwokka.Generation.{is_occupied}
use kwokka.SlabKey
use kwokka.TaskRef
use kwokka.Slab.{Slab, Slot, get}
use kwokka.Slab
use kwokka.Children.{TaskHeader, done, push_child, remove_child, collect, iter_children}
use kwokka.Children.Chain.{Children, iter_children-list}
use kwokka.Children.Push.{push_child-Children}
use kwokka.Children.Remove.{remove_child-Children}
use kwokka.Children.Storage.{slab_storage, slab_key, get_header}

abbrev Tasks : Type 0
Tasks = Slab (TaskHeader ℕ)

abbrev linked : Option ℕ → Option ℕ → ℕ → TaskHeader ℕ
linked first following n = record { first_child = first; next_sibling = following; fields = n }

-- The reference of worker 3 to the first task of the slot.
abbrev task : ℕ → ℕ
task slot = 3 * 2 ^ 56 + 2 ^ 32 + slot

abbrev occupied : TaskHeader ℕ → Slot (TaskHeader ℕ)
occupied h = record { generation = 1; next_free = 0; content = some h }

-- The first task has the third and the second as its children, and the fourth stands alone.
abbrev family : Tasks
family = record {
  slots =
      occupied (linked (some (task 2)) none 10)
      ∷ occupied (linked none none 11)
      ∷ occupied (linked none (some (task 1)) 12)
      ∷ occupied (linked none none 13)
      ∷ [];
  free_head = Slab.free_sentinel;
  len = 4;
}

family-Children : Children slab_storage family (task 0) (task 2 ∷ task 1 ∷ [])
unfolding get_header slab_key get SlabKey.new SlabKey.index SlabKey.generation TaskRef.index
    TaskRef.generation Generation.get Generation.from_raw
family-Children = (
  linked (some (task 2)) none 10,
  refl,
  (refl, (linked none (some (task 1)) 12, refl, (refl, (linked none none 11, refl, refl)))),
)

walk_family :
    collect slab_storage 3 family (iter_children slab_storage family (task 0))
    ≡ task 2 ∷ task 1 ∷ []
walk_family =
    iter_children-list slab_storage 3 family (task 0) (task 2 ∷ task 1 ∷ []) (omega arith)
      family-Children

-- A reference that differs in its worker alone names the same header.
other_worker : get_header family (2 ^ 32 + 1) ≡ get_header family (task 1)
unfolding get_header slab_key SlabKey.new TaskRef.index TaskRef.generation Generation.get
    Generation.from_raw
other_worker = refl

push_child-Children_example :
    (t : Tasks) × (push_child slab_storage family (task 0) (task 3) ≡ (t, done))
    × Children slab_storage t (task 0) (task 3 ∷ task 2 ∷ task 1 ∷ [])
unfolding get_header slab_key get SlabKey.new SlabKey.index SlabKey.generation TaskRef.index
    TaskRef.generation Generation.get Generation.from_raw
push_child-Children_example =
    push_child-Children slab_storage family (task 0) (task 3) (linked none none 13)
      (task 2 ∷ task 1 ∷ []) family-Children refl (omega arith) (omega arith, (omega arith, tt))
      (omega arith, (omega arith, tt))

remove_child-Children_example :
    (t : Tasks) × (remove_child slab_storage 2 family (task 0) (task 1) ≡ (t, done))
    × Children slab_storage t (task 0) (remove (task 1) (task 2 ∷ task 1 ∷ []))
unfolding get_header slab_key get SlabKey.new SlabKey.index SlabKey.generation TaskRef.index
    TaskRef.generation Generation.get Generation.from_raw
remove_child-Children_example =
    remove_child-Children slab_storage 2 family (task 0) (task 1) (linked none none 11)
      (task 2 ∷ task 1 ∷ []) (omega arith) family-Children ((omega arith, tt), (tt, tt))
      (omega arith, (omega arith, tt)) (inr (inl refl)) refl
