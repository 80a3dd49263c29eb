-- ===== src/Timer/Chain/Push.antt =====
-- `WheelSlot::push_front` of crates/kwokka-runtime/src/timer/wheel/slot.rs on the list of a slot.
use kwokka.Base.{ℕ, ◌<◌, ◌≡◌, refl, sym, ◌∙◌, Option, none, some, List, [], ◌∷◌}
use mathlib.Core.Path.{subst}
use kwokka.Base.Members.{NotIn, Distinct, NotIn-In}
use kwokka.Slab.{Slab}
use kwokka.Slab.Access.{update_by_index}
use kwokka.Timer.{TimerEntry, WheelSlot, nz_to_slab}
use kwokka.Timer.Slots.{link_old_head, push_front}
use kwokka.Timer.Chain.{linked, Chain, Chain-Same, linked-update_ne, linked-update_self}

-- The entries once `x` stands before the link `h`.
abbrev pushed : Slab TimerEntry → ℕ → Option ℕ → Slab TimerEntry
pushed es x h =
    link_old_head (update_by_index es (nz_to_slab x) (λ m. record m { prev = none; next = h })) x h

pushed-Chain :
    (es : Slab TimerEntry) (x j : ℕ) (e : TimerEntry) (h : Option ℕ) (xs : List ℕ)
    → 0 < x
    → 0 < j
    → linked es x ≡ some e
    → NotIn x xs
    → NotIn j (x ∷ xs)
    → Distinct xs
    → Chain es none h xs
    → Chain (pushed es x h) none (some x) (x ∷ xs) × (linked (pushed es x h) j ≡ linked es j)
unfolding link_old_head
pushed-Chain es x j e h [] above_x above_j at fresh (other, others) d empty =
    subst
      (λ (k : Option ℕ).
        Chain (pushed es x k) none (some x) (x ∷ []) × (linked (pushed es x k) j ≡ linked es j))
      (sym empty)
      (
        (
          refl,
          above_x,
          (
            record e { prev = none; next = none },
            linked-update_self es x (λ m. record m { prev = none; next = none }) e at,
            refl,
            refl,
          ),
        ),
        linked-update_ne es x j _ above_x above_j (λ k. other (sym k)),
      )
pushed-Chain es x j e h (y ∷ ys) above_x above_j at (ne, fresh) (other, (apart, others)) (dy, d)
      (head, above_y, (m, f, p, c)) =
    let placing : TimerEntry → TimerEntry = λ t. record t { prev = none; next = some y } in
    let es1 = update_by_index es (nz_to_slab x) placing in
    let at1 : linked es1 x ≡ some (placing e) = linked-update_self es x placing e at in
    let linking : TimerEntry → TimerEntry = λ t. record t { prev = some x } in
    let es2 = update_by_index es1 (nz_to_slab y) linking in
    subst
      (λ (k : Option ℕ).
        Chain (pushed es x k) none (some x) (x ∷ y ∷ ys) × (linked (pushed es x k) j ≡ linked es j))
      (sym head)
      (
        (
          refl,
          above_x,
          (
            placing e,
            linked-update_ne es1 y x linking above_y above_x (λ k. ne (sym k)) ∙ at1,
            refl,
            (
              refl,
              above_y,
              (
                linking m,
                linked-update_self es1 y linking m
                    (linked-update_ne es x y placing above_x above_y ne ∙ f),
                refl,
                Chain-Same es es2 (some y) m.next ys
                    (λ i above_i here.
                      linked-update_ne es1 y i linking above_y above_i (NotIn-In y ys i dy here)
                      ∙ linked-update_ne es x i placing above_x above_i
                          (NotIn-In x ys i fresh here))
                    c,
              ),
            ),
          ),
        ),
        linked-update_ne es1 y j linking above_y above_j (λ k. apart (sym k))
            ∙ linked-update_ne es x j placing above_x above_j (λ k. other (sym k)),
      )

push_front_hit :
    (s : WheelSlot) (es : Slab TimerEntry) (x : ℕ) (e : TimerEntry)
    → linked es x ≡ some e
    → push_front s x es ≡ (record { head = some x }, pushed es x s.head)
unfolding push_front
push_front_hit s es x e at = rw (push_front, at) refl

-- Pushing an entry that is not in a slot's list makes it the first of the list, linked both ways,
-- before the others in their order, and changes no entry outside the list.
pub push_front-Chain :
    (s : WheelSlot) (es : Slab TimerEntry) (x j : ℕ) (e : TimerEntry) (xs : List ℕ)
    → 0 < x
    → 0 < j
    → linked es x ≡ some e
    → NotIn x xs
    → NotIn j (x ∷ xs)
    → Distinct xs
    → Chain es none s.head xs
    → Chain (push_front s x es).1 none (push_front s x es).0.head (x ∷ xs)
      × (linked (push_front s x es).1 j ≡ linked es j)
push_front-Chain s es x j e xs above_x above_j at fresh others d c =
    subst
      (λ (r : WheelSlot × Slab TimerEntry).
        Chain r.1 none r.0.head (x ∷ xs) × (linked r.1 j ≡ linked es j))
      (sym (push_front_hit s es x e at))
      (pushed-Chain es x j e s.head xs above_x above_j at fresh others d c)
