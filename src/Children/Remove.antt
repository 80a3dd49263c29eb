-- ===== src/Children/Remove.antt =====
-- `remove_child` of crates/kwokka-runtime/src/task/join/children.rs takes a child out of the list.
use kwokka.Base.{
  ℕ, zero, suc, ◌<◌, ◌≤◌, ◌≡◌, ◌≢◌, inl, inr, refl, sym, ap, ◌∙◌, Option, none, some, List, [], ◌∷◌,
  length, arith, ◌==◌, ==_iff, ==_false, Bool-cases,
}
use mathlib.Core.Path.{subst}
use kwokka.Children.{
  TaskHeader, TaskStorage, done, modify, at_head, after_prev, locate, locate_loop, unlink,
  remove_child,
}
use kwokka.Base.Members.{In, remove, In-later}
use kwokka.Children.Chain.{NotIn, Distinct, Chain, Children}

some-same : {A : Type 0} {a b : A} → some a ≡ some b → a ≡ b
some-same e = cc

module _ {S X : Type 0} (storage : TaskStorage S X) where
  open storage use {header_key, get, put, get-put_self, get-put_ne}

  NotIn-In :
      (r : ℕ) (xs : List ℕ) (x : ℕ) → NotIn storage r xs → In x xs → header_key r ≢ header_key x
  NotIn-In r [] x apart here e = here
  NotIn-In r (y ∷ ys) x (ne, apart) (inl same) e = ne (e ∙ ap header_key (sym same))
  NotIn-In r (y ∷ ys) x (ne, apart) (inr there) e = NotIn-In r ys x apart there e

  -- `t` differs from `s` at `r` and at `q` at most.
  abbrev Elsewhere : S → S → ℕ → ℕ → Type 0
  Elsewhere s t q r =
      (x : ℕ) → header_key x ≢ header_key q → header_key x ≢ header_key r → get t x ≡ get s x

  Chain-Elsewhere :
      (s t : S) (q r : ℕ) (link : Option ℕ) (xs : List ℕ)
      → Elsewhere s t q r
      → NotIn storage q xs
      → NotIn storage r xs
      → Chain storage s link xs
      → Chain storage t link xs
  Chain-Elsewhere s t q r link [] same nq nr c = c
  Chain-Elsewhere s t q r link (x ∷ xs) same (nq, aq) (nr, ar) (e, (h, f, c)) = (
    e,
    (
      h,
      same x (λ k. nq (sym k)) (λ k. nr (sym k)) ∙ f,
      Chain-Elsewhere s t q r h.next_sibling xs same aq ar c,
    ),
  )

  locate_loop-lt :
      (fuel : ℕ) (s : S) (child x : ℕ) (c : TaskHeader X) (xs : List ℕ)
      → length xs < fuel
      → get s child ≡ some c
      → header_key x ≢ header_key child
      → Distinct storage (x ∷ xs)
      → In child xs
      → Chain storage s (some x) (x ∷ xs)
      → (q : ℕ) × (locate_loop storage fuel s child x ≡ after_prev q)
        × (In q (x ∷ xs))
        × (header_key q ≢ header_key child)
        × ((h : TaskHeader X) × (get s q ≡ some h)
            × ((t : S)
                → Elsewhere s t q child
                → get t q ≡ some (record h { next_sibling = c.next_sibling })
                → Chain storage t (some x) (x ∷ remove child xs)))
  unfolding locate_loop
  locate_loop-lt zero s child x c xs enough found ne d here chain = elim enough [ ]
  locate_loop-lt (suc fuel) s child x c [] enough found ne d here chain = elim here [ ]
  locate_loop-lt (suc fuel) s child x c (y ∷ ys) enough found ne (d, (d', ds)) here
        (e, (h, f, (e', (g, f', chain)))) =
      elim (Bool-cases (y == child)) [
        | inl k ↦
            let same : y ≡ child = (==_iff y child).0 k in
            let known : g ≡ c = some-same (sym f' ∙ ap (get s) same ∙ found) in
            let rest : Chain storage s c.next_sibling ys =
              subst (λ (n : TaskHeader X). Chain storage s n.next_sibling ys) known chain in
            let apart : NotIn storage child ys = subst (λ n. NotIn storage n ys) same d' in
            (
              x,
              rw (locate_loop, f, e', k) refl,
              inl refl,
              ne,
              (
                h,
                f,
                λ t frame written. rw k (
                  refl,
                  (
                    record h { next_sibling = c.next_sibling },
                    written,
                    Chain-Elsewhere s t x child c.next_sibling ys frame d.1 apart rest,
                  ),
                ),
              ),
            )
        | inr k ↦
            let apart : y ≢ child = ==_false y child k in
            let there : In child ys = In-later y child ys apart here in
            let (q, at, member, other, (m, was, build)) =
              locate_loop-lt fuel s child y c ys (omega arith) found (NotIn-In y ys child d' there)
                (d', ds) there (refl, (g, f', chain)) in
            (
              q,
              rw (locate_loop, f, e', k) at,
              inr member,
              other,
              (
                m,
                was,
                λ t frame written.
                    rw (k, ← e')
                      (
                        refl,
                        (
                          h,
                          frame x (NotIn-In x (y ∷ ys) q d member) ne ∙ f,
                          rw e' (build t frame written),
                        ),
                      ),
              ),
            )
      ]

  -- Two writes, the second at the child.
  twice :
      (s : S) (q r : ℕ) (m g h : TaskHeader X) (c : TaskHeader X)
      → header_key q ≢ header_key r
      → get s q ≡ some m
      → get s r ≡ some c
      → (get (put (put s q g) r h) q ≡ some g) × Elsewhere s (put (put s q g) r h) q r
  twice s q r m g h c ne at found = (
    get-put_ne (put s q g) r q h (λ e. ne (sym e)) ∙ get-put_self s q m g at,
    λ x nq nr.
        get-put_ne (put s q g) r x h (λ e. nr (sym e)) ∙ get-put_ne s q x g (λ e. nq (sym e)),
  )

  -- Where a parent's children have different headers, none of them the parent's, removing one of the
  -- children, whose header is stored, succeeds within one round for each child, and leaves the others
  -- in their order.
  pub remove_child-Children :
      (fuel : ℕ) (s : S) (parent child : ℕ) (c : TaskHeader X) (xs : List ℕ)
      → length xs ≤ fuel
      → Children storage s parent xs
      → Distinct storage xs
      → NotIn storage parent xs
      → In child xs
      → get s child ≡ some c
      → (t : S) × (remove_child storage fuel s parent child ≡ (t, done))
        × Children storage t parent (remove child xs)
  unfolding remove_child locate unlink
  remove_child-Children fuel s parent child c [] enough w d apart here found = elim here [ ]
  remove_child-Children fuel s parent child c (x ∷ xs) enough (h, at, (e, (g, f, chain))) (d, ds)
        (np, off_list) here found =
      let c' : TaskHeader X = record c { next_sibling = none } in
      elim (Bool-cases (x == child)) [
        | inl k ↦
            let same : x ≡ child = (==_iff x child).0 k in
            let located : locate storage fuel s parent child ≡ at_head =
              rw (locate, at, e, k) refl in
            let h' : TaskHeader X = record h { first_child = c.next_sibling } in
            let off : header_key parent ≢ header_key child =
              NotIn-In parent (x ∷ xs) child (np, off_list) here in
            let t = put (put s parent h') child c' in
            let (written, frame) = twice s parent child h h' c' c off at found in
            let still : get (put s parent h') child ≡ some c =
              get-put_ne s parent child h' off ∙ found in
            let known : g ≡ c = some-same (sym f ∙ ap (get s) same ∙ found) in
            let rest : Chain storage s c.next_sibling xs =
              subst (λ (n : TaskHeader X). Chain storage s n.next_sibling xs) known chain in
            let apart : NotIn storage child xs = subst (λ n. NotIn storage n xs) same d in
            (
              t,
              rw (remove_child, located, unlink, found, modify, at, modify, still) refl,
              (
                h',
                written,
                rw k (Chain-Elsewhere s t parent child c.next_sibling xs frame off_list apart rest),
              ),
            )
        | inr k ↦
            let other : x ≢ child = ==_false x child k in
            let there : In child xs = In-later x child xs other here in
            let (q, loc, member, ne, (m, was, build)) =
              locate_loop-lt fuel s child x c xs (omega arith) found (NotIn-In x xs child d there)
                (d, ds) there (refl, (g, f, chain)) in
            let located : locate storage fuel s parent child ≡ after_prev q =
              rw (locate, at, e, k) loc in
            let m' : TaskHeader X = record m { next_sibling = c.next_sibling } in
            let t = put (put s q m') child c' in
            let (written, frame) = twice s q child m m' c' c ne was found in
            let still : get (put s q m') child ≡ some c = get-put_ne s q child m' ne ∙ found in
            let away : header_key parent ≢ header_key q =
              NotIn-In parent (x ∷ xs) q (np, off_list) member in
            let off : header_key parent ≢ header_key child =
              NotIn-In parent (x ∷ xs) child (np, off_list) here in
            (
              t,
              rw (remove_child, located, unlink, found, modify, was, modify, still) refl,
              (h, frame parent away off ∙ at, rw (k, e) (build t frame written)),
            )
      ]
