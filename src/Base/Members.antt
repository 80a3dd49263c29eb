-- ===== src/Base/Members.antt =====
-- Members of a list of numbers.
use Prim.Native.Nat.{ℕ}
use mathlib.Core.Path.{◌≡◌, sym, ◌∙◌}
use mathlib.Core.Logic.{◌≢◌, ◌⊎◌, inl, inr}
use mathlib.Core.List.{List, [], ◌∷◌}
use kwokka.Base.{◌==◌, if◌then◌else◌}

abbrev pub NotIn : ℕ → List ℕ → Type 0
NotIn r [] = Unit
NotIn r (x ∷ xs) = (r ≢ x) × NotIn r xs

abbrev pub In : ℕ → List ℕ → Type 0
In r [] = ⊥
In r (x ∷ xs) = (x ≡ r) ⊎ In r xs

abbrev pub Distinct : List ℕ → Type 0
Distinct [] = Unit
Distinct (x ∷ xs) = NotIn x xs × Distinct xs

-- The list without the first occurrence of a number.
abbrev pub remove : ℕ → List ℕ → List ℕ
remove child [] = []
remove child (x ∷ xs) = if x == child then xs else x ∷ remove child xs

pub NotIn-In : (r : ℕ) (xs : List ℕ) (x : ℕ) → NotIn r xs → In x xs → r ≢ x
NotIn-In r [] x apart here e = here
NotIn-In r (y ∷ ys) x (ne, apart) (inl same) e = ne (e ∙ sym same)
NotIn-In r (y ∷ ys) x (ne, apart) (inr there) e = NotIn-In r ys x apart there e

-- A member that is not the first is one of the rest.
pub In-later : (y r : ℕ) (ys : List ℕ) → y ≢ r → In r (y ∷ ys) → In r ys
In-later y r ys ne (inl e) = absurd (ne e)
In-later y r ys ne (inr there) = there
