-- ===== src/Generation.antt =====
-- crates/kwokka-core/src/generation/revision.rs: the 24-bit wrapping counter. A `Generation` is
-- its `u32`.
use kwokka.Base.{ℕ, ◌+◌, ◌-◌, ◌%◌, ◌^◌, ◌<◌, ◌≡◌, Bool, true, false, ◌==◌, bit_and, arith, u32_mod}
use kwokka.Base.Bits.{bit_and-mask}

-- `Generation::MAX`.
abbrev pub generation_max : ℕ
generation_max = 2 ^ 24 - 1

-- `Generation::ZERO`.
abbrev pub generation_zero : ℕ
generation_zero = 0

-- `Generation::get`.
unfoldable pub get : ℕ → ℕ
get g = bit_and g generation_max

unfoldable pub is_occupied : ℕ → Bool
is_occupied g = bit_and g 1 == 1

-- `next`: `wrapping_add(1) & MAX`.
unfoldable pub next : ℕ → ℕ
next g = bit_and ((g + 1) % u32_mod) generation_max

-- `Generation::from_raw`, which does not mask.
unfoldable pub from_raw : ℕ → ℕ
from_raw raw = raw

pub get_lem : (g : ℕ) → get g ≡ g % 2 ^ 24
unfolding get
get_lem g = bit_and-mask 24 g

pub next_lem : (g : ℕ) → next g ≡ (g + 1) % 2 ^ 24
unfolding next
next_lem g = omega (arith, bit_and-mask 24 ((g + 1) % u32_mod))

pub is_occupied_lem : (g : ℕ) → is_occupied g ≡ (g % 2 == 1)
unfolding is_occupied
is_occupied_lem g = ground (arith, bit_and-mask 1 g)

pub next-lt : (g : ℕ) → next g < 2 ^ 24
next-lt g = omega (arith, next_lem g)

pub is_occupied-next_vacant : (g : ℕ) → is_occupied g ≡ false → is_occupied (next g) ≡ true
is_occupied-next_vacant g h =
    ground (arith, next_lem g, is_occupied_lem g, is_occupied_lem (next g))

pub is_occupied-next_occupied : (g : ℕ) → is_occupied g ≡ true → is_occupied (next g) ≡ false
is_occupied-next_occupied g h =
    ground (arith, next_lem g, is_occupied_lem g, is_occupied_lem (next g))

pub get-next : (g : ℕ) → get (next g) ≡ next g
get-next g = omega (arith, get_lem (next g), next-lt g)
