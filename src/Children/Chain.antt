-- ===== src/Children/Chain.antt =====
-- The sibling links of crates/kwokka-runtime/src/task/join/children.rs as the list that they run
-- through.
use kwokka.Base.{
  ℕ, zero, suc, ◌<◌, ◌≡◌, ◌≢◌, refl, ap, ◌∙◌, Option, none, some, List, [], ◌∷◌, length, arith,
}
use mathlib.Core.Path.{subst}
use kwokka.Children.{TaskHeader, TaskStorage, next, collect, iter_children}

module _ {S X : Type 0} (storage : TaskStorage S X) where
  open storage use {header_key, get, put, get-put_self, get-put_ne}

  -- The reference names none of the headers that the others name.
  abbrev pub NotIn : ℕ → List ℕ → Type 0
  NotIn r [] = Unit
  NotIn r (x ∷ xs) = (header_key r ≢ header_key x) × NotIn r xs

  -- The references name different headers.
  abbrev pub Distinct : List ℕ → Type 0
  Distinct [] = Unit
  Distinct (x ∷ xs) = NotIn x xs × Distinct xs

  -- The links from `link` on run through exactly these headers.
  abbrev pub Chain : S → Option ℕ → List ℕ → Type 0
  Chain s link [] = link ≡ none
  Chain s link (x ∷ xs) =
      (link ≡ some x) × ((h : TaskHeader X) × (get s x ≡ some h) × Chain s h.next_sibling xs)

  -- `parent` has these children, the last one pushed first.
  abbrev pub Children : S → ℕ → List ℕ → Type 0
  Children s parent xs = (h : TaskHeader X) × (get s parent ≡ some h) × Chain s h.first_child xs

  -- A chain does not read other headers.
  pub Chain-put :
      (s : S) (r : ℕ) (g : TaskHeader X) (link : Option ℕ) (xs : List ℕ)
      → NotIn r xs
      → Chain s link xs
      → Chain (put s r g) link xs
  Chain-put s r g link [] apart c = c
  Chain-put s r g link (x ∷ xs) (ne, apart) (e, (h, f, c)) =
      (e, (h, get-put_ne s r x g ne ∙ f, Chain-put s r g h.next_sibling xs apart c))

  next-some :
      (s : S) (x : ℕ) (g : TaskHeader X)
      → get s x ≡ some g
      → next storage s (some x) ≡ (some x, g.next_sibling)
  unfolding next
  next-some s x g f = rw (next, f) refl

  collect_step :
      (fuel : ℕ) (s : S) (it : Option ℕ) (r : Option ℕ × Option ℕ)
      → next storage s it ≡ r
      → collect storage (suc fuel) s it
        ≡ elim r.0 [ none ↦ [] | some child ↦ child ∷ collect storage fuel s r.1 ]
  unfolding collect
  collect_step fuel s it r e =
      subst
        (λ (p : Option ℕ × Option ℕ).
          collect storage (suc fuel) s it
          ≡ elim p.0 [ none ↦ [] | some child ↦ child ∷ collect storage fuel s p.1 ])
        e refl

  collect-Chain :
      (fuel : ℕ) (s : S) (link : Option ℕ) (xs : List ℕ)
      → length xs < fuel
      → Chain s link xs
      → collect storage fuel s link ≡ xs
  unfolding collect next
  collect-Chain zero s link xs h c = elim h [ ]
  collect-Chain (suc fuel) s link [] h e = rw (e, collect, next) refl
  collect-Chain (suc fuel) s link (x ∷ xs) h (e, (g, f, c)) =
      let step : next storage s link ≡ (some x, g.next_sibling) = rw e (next-some s x g f) in
      collect_step fuel s link (some x, g.next_sibling) step
      ∙ ap (λ t. x ∷ t) (collect-Chain fuel s g.next_sibling xs (omega arith) c)

  -- Walking the children yields the list.
  pub iter_children-list :
      (fuel : ℕ) (s : S) (parent : ℕ) (xs : List ℕ)
      → length xs < fuel
      → Children s parent xs
      → collect storage fuel s (iter_children storage s parent) ≡ xs
  unfolding iter_children
  iter_children-list fuel s parent xs h (g, f, c) =
      rw (iter_children, f) (collect-Chain fuel s g.first_child xs h c)
