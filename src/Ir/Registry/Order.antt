-- ===== src/Ir/Registry/Order.antt =====
-- The byte order that the sorted index of crates/kwokka-ir/src/registry and its search go by.
use kwokka.Base.{ℕ, Bool, true, false, ◌≡◌, refl, ap, List, [], ◌∷◌, arith}
use Prim.Native.Nat.{Ordering}
use kwokka.Ir.Registry.{compare_bytes}
use kwokka.Ir.Sections.{bytes_lt}

pub compare_bytes_self : (a : List ℕ) → compare_bytes a a ≡ Ordering.eq
unfolding compare_bytes
compare_bytes_self [] = refl
compare_bytes_self (x ∷ xs) = ground (arith, compare_bytes_self xs)

pub compare_bytes-eq : (a b : List ℕ) → compare_bytes a b ≡ Ordering.eq → a ≡ b
unfolding compare_bytes
compare_bytes-eq [] [] h = refl
compare_bytes-eq [] (y ∷ ys) h = cc
compare_bytes-eq (x ∷ xs) [] h = cc
compare_bytes-eq (x ∷ xs) (y ∷ ys) h = ground (arith, compare_bytes-eq xs ys)

pub compare_bytes-gt : (a b : List ℕ) → compare_bytes a b ≡ Ordering.gt → bytes_lt b a ≡ true
unfolding compare_bytes
compare_bytes-gt [] [] h = cc
compare_bytes-gt [] (y ∷ ys) h = cc
compare_bytes-gt (x ∷ xs) [] h = refl
compare_bytes-gt (x ∷ xs) (y ∷ ys) h = ground (arith, compare_bytes-gt xs ys)

-- `a` is not behind `b`.
abbrev pub Before : List ℕ → List ℕ → Type 0
Before a b = bytes_lt b a ≡ false

pub Before-self : (a : List ℕ) → Before a a
Before-self a =
    ap (λ (o : Ordering). elim o as (λ _. Bool) [ Ordering.lt ↦ true | _ ↦ false ])
      (compare_bytes_self a)

pub Before-trans : (a b c : List ℕ) → Before a b → Before b c → Before a c
unfolding compare_bytes
Before-trans [] b [] p q = refl
Before-trans [] b (z ∷ zs) p q = refl
Before-trans (x ∷ xs) [] c p q = cc
Before-trans (x ∷ xs) (y ∷ ys) [] p q = cc
Before-trans (x ∷ xs) (y ∷ ys) (z ∷ zs) p q = ground (arith, Before-trans xs ys zs)
