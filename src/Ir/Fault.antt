-- ===== src/Ir/Fault.antt =====
-- crates/kwokka-ir/src/error/fault.rs, and `Result<_, IrError>` with its `?`.
use kwokka.Base.{ℕ, Option, none, some, Bool, true, false, ◌≡◌, refl}

-- `IrError`.
pub data IrError : Type 0 where
  bad_magic truncated out_of_bounds misaligned ordinal_out_of_range registry_unsorted : IrError
  unsupported_version bad_tag : ℕ → IrError

pub data Result {ℓ} (A : Type ℓ) : Type ℓ where
  ok : A → Result A
  err : IrError → Result A

-- `Option::ok_or`.
abbrev pub ok_or {ℓ} : {A : Type ℓ} → Option A → IrError → Result A
ok_or none e = err e
ok_or (some a) e = ok a

-- `if !test { return Err(e) }`.
abbrev pub require : Bool → IrError → Result (Unit {0})
require true e = ok tt
require false e = err e

-- The `?` of the source: the rest runs on the value, and an error ends the function.
infixl 5 ◌>>=◌
abbrev pub ◌>>=◌ {ℓ κ} : {A : Type ℓ} {B : Type κ} → Result A → (A → Result B) → Result B
err fault >>= rest = err fault
ok value >>= rest = rest value

infixl 5 ◌>>◌
abbrev pub ◌>>◌ {κ} : {B : Type κ} → Result (Unit {0}) → Result B → Result B
check >> rest = check >>= (λ done. rest)

-- What a successful bind went through.
pub >>=-eq-ok {κ ℓ} :
    {A : Type ℓ} {B : Type κ} {result : B} (step : Result A) (rest : A → Result B)
    → (step >>= rest) ≡ ok result
    → (value : A) × (step ≡ ok value) × (rest value ≡ ok result)
>>=-eq-ok (err fault) rest h = cc
>>=-eq-ok (ok value) rest h = (value, refl, h)

pub ok_or-eq-ok {ℓ} :
    {A : Type ℓ} (o : Option A) (e : IrError) {a : A} → ok_or o e ≡ ok a → o ≡ some a
ok_or-eq-ok none e h = cc
ok_or-eq-ok (some a) e h = cc

pub require-eq-ok : (b : Bool) (e : IrError) {u : Unit {0}} → require b e ≡ ok u → b ≡ true
require-eq-ok true e h = refl
require-eq-ok false e h = cc
