-- ===== src/Children.antt =====
-- The list of a task's children of crates/kwokka-runtime/src/task/join/children.rs, over the storage
-- of task headers that it takes as a trait.
pub mod Chain
pub mod Push
pub mod Remove
pub mod Storage
mod Tests
use kwokka.Base.{
  ℕ, zero, suc, ◌≡◌, ◌≢◌, Bool, Option, none, some, List, [], ◌∷◌, ◌==◌, if◌then◌else◌,
}

-- The links of a task header, and its other fields.
pub record TaskHeader (X : Type 0) : Type 0 where
  pub first_child : Option ℕ
  pub next_sibling : Option ℕ
  pub fields : X

-- `TaskStorage`: a reference of `get_mut` reads as `get` does, and a write through it changes the
-- header that the reference names. `header_key` says which header that is: two references may name
-- the same one, and a write through one does not reach a header of another key.
pub record TaskStorage (S X : Type 0) : Type 0 where
  pub header_key : ℕ → ℕ
  pub get : S → ℕ → Option (TaskHeader X)
  pub put : S → ℕ → TaskHeader X → S
  pub get-put_self :
      (s : S) (r : ℕ) (g h : TaskHeader X) → get s r ≡ some g → get (put s r h) r ≡ some h
  pub get-put_ne :
      (s : S) (r t : ℕ) (h : TaskHeader X)
      → header_key r ≢ header_key t
      → get (put s r h) t ≡ get s t

pub data ChildrenError : Type 0 where
  parent_not_found : ChildrenError
  child_not_found : ChildrenError

-- `RemovePosition`, or the error of `locate`. `spins` is a loop that ran out of its rounds.
pub data RemovePosition : Type 0 where
  at_head : RemovePosition
  after_prev : ℕ → RemovePosition
  missing : ChildrenError → RemovePosition
  spins : RemovePosition

pub data Outcome : Type 0 where
  done : Outcome
  failed : ChildrenError → Outcome
  stuck : Outcome

module _ {S X : Type 0} (storage : TaskStorage S X) where
  open storage use {get, put}

  -- A write through `get_mut`, where the header is there.
  abbrev pub modify : S → ℕ → ChildrenError → (TaskHeader X → TaskHeader X) → S × Outcome
  modify s r e f = elim (get s r) [ none ↦ (s, failed e) | some h ↦ (put s r (f h), done) ]

  abbrev pub and_then : S × Outcome → (S → S × Outcome) → S × Outcome
  and_then (s, done) f = f s
  and_then (s, failed e) f = (s, failed e)
  and_then (s, stuck) f = (s, stuck)

  unfoldable pub push_child : S → ℕ → ℕ → S × Outcome
  push_child s parent child = elim (get s parent) [
    | none ↦ (s, failed parent_not_found)
    | some header ↦
        and_then
          (modify s child child_not_found (λ c. record c { next_sibling = header.first_child }))
          (λ t. modify t parent parent_not_found (λ p. record p { first_child = some child }))
  ]

  -- `ChildrenIter`, by its next child.
  unfoldable pub iter_children : S → ℕ → Option ℕ
  iter_children s parent = elim (get s parent) [ none ↦ none | some header ↦ header.first_child ]

  -- One call of `next`: the child that it yields and the iterator after it.
  unfoldable pub next : S → Option ℕ → Option ℕ × Option ℕ
  next s none = (none, none)
  next s (some current) = elim (get s current) [
    | none ↦ (none, some current)
    | some header ↦ (some current, header.next_sibling)
  ]

  -- What an iterator yields before its first `None`, in at most `fuel` calls.
  unfoldable pub collect : ℕ → S → Option ℕ → List ℕ
  collect zero s it = []
  collect (suc fuel) s it =
      let (item, rest) = next s it in
      let later = collect fuel s rest in elim item [ none ↦ [] | some child ↦ child ∷ later ]

  -- The loop of `locate`.
  unfoldable pub locate_loop : ℕ → S → ℕ → ℕ → RemovePosition
  locate_loop zero s child current = spins
  locate_loop (suc fuel) s child current = elim (get s current) [
    | none ↦ missing child_not_found
    | some header ↦ elim header.next_sibling [
      | none ↦ missing child_not_found
      | some following ↦
          let later = locate_loop fuel s child following in
          if following == child then after_prev current else later
    ]
  ]

  unfoldable pub locate : ℕ → S → ℕ → ℕ → RemovePosition
  locate fuel s parent child = elim (get s parent) [
    | none ↦ missing parent_not_found
    | some header ↦ elim header.first_child [
      | none ↦ missing child_not_found
      | some current ↦ if current == child then at_head else locate_loop fuel s child current
    ]
  ]

  -- The lines of `remove_child` after `locate`.
  unfoldable pub unlink : S → ℕ → ℕ → RemovePosition → S × Outcome
  unlink s parent child (missing e) = (s, failed e)
  unlink s parent child spins = (s, stuck)
  unlink s parent child at_head = elim (get s child) [
    | none ↦ (s, failed child_not_found)
    | some header ↦
        and_then
          (modify s parent parent_not_found (λ p. record p { first_child = header.next_sibling }))
          (λ t. modify t child child_not_found (λ c. record c { next_sibling = none }))
  ]
  unlink s parent child (after_prev prev) = elim (get s child) [
    | none ↦ (s, failed child_not_found)
    | some header ↦
        and_then
          (modify s prev child_not_found (λ p. record p { next_sibling = header.next_sibling }))
          (λ t. modify t child child_not_found (λ c. record c { next_sibling = none }))
  ]

  unfoldable pub remove_child : ℕ → S → ℕ → ℕ → S × Outcome
  remove_child fuel s parent child = unlink s parent child (locate fuel s parent child)
