-- ===== src/Children/Push.antt =====
-- `push_child` of crates/kwokka-runtime/src/task/join/children.rs puts a child before the others.
use kwokka.Base.{ℕ, ◌≡◌, ◌≢◌, refl, sym, ◌∙◌, some, List, ◌∷◌}
use kwokka.Children.{TaskHeader, TaskStorage, done, push_child, modify}
use kwokka.Children.Chain.{NotIn, Children, Chain-put}

module _ {S X : Type 0} (storage : TaskStorage S X) where
  open storage use {header_key, get, put, get-put_self, get-put_ne}

  -- Where a parent's header is none of its children's, pushing a child whose header is stored, and is
  -- neither the parent's nor one of the children's, succeeds, and makes it the first of the children,
  -- before the others.
  pub push_child-Children :
      (s : S) (parent child : ℕ) (c : TaskHeader X) (xs : List ℕ)
      → Children storage s parent xs
      → get s child ≡ some c
      → header_key child ≢ header_key parent
      → NotIn storage child xs
      → NotIn storage parent xs
      → (t : S) × (push_child storage s parent child ≡ (t, done))
        × Children storage t parent (child ∷ xs)
  unfolding push_child
  push_child-Children s parent child c xs (h, at, chain) found ne fresh apart =
      let c' : TaskHeader X = record c { next_sibling = h.first_child } in
      let s1 = put s child c' in
      let h' : TaskHeader X = record h { first_child = some child } in
      let s2 = put s1 parent h' in
      let still : get s1 parent ≡ some h = get-put_ne s child parent c' ne ∙ at in
      let result : push_child storage s parent child ≡ (s2, done) =
        rw (push_child, at, modify, found, modify, still) refl in
      (
        s2,
        result,
        (
          h',
          get-put_self s1 parent h h' still,
          (
            refl,
            (
              c',
              get-put_ne s1 parent child h' (λ e. ne (sym e)) ∙ get-put_self s child c c' found,
              Chain-put storage s1 parent h' h.first_child xs apart
                  (Chain-put storage s child c' h.first_child xs fresh chain),
            ),
          ),
        ),
      )
