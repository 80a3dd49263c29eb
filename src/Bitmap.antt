-- ===== src/Bitmap.antt =====
-- Bitmaps of 64-bit words, as crates/kwokka-io/src/buffer/oneshot/inflight.rs and
-- crates/kwokka-runtime/src/worker/coordination/alloc.rs keep them: the tests and updates of one
-- bit, and the loop over the set bits.
pub mod Word
pub mod Laws
pub mod Scan
pub mod Words
use kwokka.Base.{
  ℕ, zero, suc, ◌+◌, ◌-◌, ◌*◌, ◌/◌, ◌%◌, ◌^◌, Bool, true, false, not, Option, none, some, List, [],
  ◌∷◌, get_or, set, bit_and, bit_or, ◌==◌, if◌then◌else◌, u64_mod,
}

-- `word & (1 << bit) != 0`.
unfoldable pub has_bit : ℕ → ℕ → Bool
has_bit word bit = not (bit_and word (2 ^ bit) == 0)

-- `word | (1 << bit)`.
unfoldable pub set_bit : ℕ → ℕ → ℕ
set_bit word bit = bit_or word (2 ^ bit)

-- `word & !(1 << bit)`.
unfoldable pub clear_bit : ℕ → ℕ → ℕ
clear_bit word bit = bit_and word (u64_mod - 1 - 2 ^ bit)

-- `word_bit`: the word of a slot and its bit there, and the three accesses through it.
unfoldable pub word_bit : ℕ → ℕ × ℕ
word_bit slot = (slot / 64, slot % 64)

unfoldable pub test : List ℕ → ℕ → Bool
test words slot = let (word, bit) = word_bit slot in has_bit (get_or words word 0) bit

unfoldable pub mark : List ℕ → ℕ → List ℕ
mark words slot =
    let (word, bit) = word_bit slot in set words word (set_bit (get_or words word 0) bit)

unfoldable pub unmark : List ℕ → ℕ → List ℕ
unmark words slot =
    let (word, bit) = word_bit slot in set words word (clear_bit (get_or words word 0) bit)

-- `trailing_zeros`, of a word of `fuel` bits.
unfoldable pub trailing_zeros : ℕ → ℕ → ℕ
trailing_zeros zero word = 0
trailing_zeros (suc fuel) word =
    let rest = trailing_zeros fuel (word / 2) in if word % 2 == 1 then 0 else suc rest

-- `while pending != 0 { bit = pending.trailing_zeros(); pending &= pending - 1; ... }`, which leaves
-- at the first slot of which `stops` holds.
unfoldable pub scan_word : ℕ → ℕ → (ℕ → Bool) → ℕ → Option ℕ
scan_word zero base stops pending = none
scan_word (suc fuel) base stops pending =
    let bit = trailing_zeros 64 pending in
    let rest = scan_word fuel base stops (bit_and pending (pending - 1)) in
    if pending == 0 then none else (if stops (base + bit) then some (base + bit) else rest)

-- The same over all words, `base` being the first slot of the first.
unfoldable pub scan : ℕ → (ℕ → Bool) → List ℕ → Option ℕ
scan base stops [] = none
scan base stops (w ∷ words) =
    let rest = scan (base + 64) stops words in
    elim (scan_word 64 base stops w) [ some slot ↦ some slot | none ↦ rest ]
