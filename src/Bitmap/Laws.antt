-- ===== src/Bitmap/Laws.antt =====
-- The laws of a bitmap of words: what a test reads after a mark.
use kwokka.Base.{
  ℕ, ◌/◌, ◌%◌, ◌<◌, ◌≡◌, ◌≢◌, refl, true, false, List, length, get_or, get_or-set_self,
  get_or-set_ne, length-set, arith,
}
use native.Mathlib.Decide.{ℕ_discrete}
use kwokka.Bitmap.{word_bit, test, mark, unmark}
use kwokka.Bitmap.Word.{has_bit-set_self, has_bit-set_ne, has_bit-clear_self, has_bit-clear_ne}

pub length-mark : (m : List ℕ) (s : ℕ) → length (mark m s) ≡ length m
unfolding mark word_bit
length-mark m s = length-set m (s / 64) _

pub length-unmark : (m : List ℕ) (s : ℕ) → length (unmark m s) ≡ length m
unfolding unmark word_bit
length-unmark m s = length-set m (s / 64) _

pub test-mark_self : (m : List ℕ) (s : ℕ) → s / 64 < length m → test (mark m s) s ≡ true
unfolding test mark word_bit
test-mark_self m s h = rw (get_or-set_self m (s / 64) _ 0 h) (has_bit-set_self _ (s % 64))

pub test-unmark_self : (m : List ℕ) (s : ℕ) → s / 64 < length m → test (unmark m s) s ≡ false
unfolding test unmark word_bit
test-unmark_self m s h =
    rw (get_or-set_self m (s / 64) _ 0 h) (has_bit-clear_self _ (s % 64) (omega arith))

pub test-mark_ne : (m : List ℕ) (s t : ℕ) → s / 64 < length m → s ≢ t → test (mark m s) t ≡ test m t
unfolding test mark word_bit
test-mark_ne m s t h ne = elim (ℕ_discrete (s / 64) (t / 64)) [
  | yes e ↦
      rw (← e, get_or-set_self m (s / 64) _ 0 h)
        (has_bit-set_ne (get_or m (s / 64) 0) (s % 64) (t % 64) (omega arith))
  | no apart ↦ rw (get_or-set_ne m (s / 64) (t / 64) _ 0 apart) refl
]

pub test-unmark_ne :
    (m : List ℕ) (s t : ℕ) → s / 64 < length m → s ≢ t → test (unmark m s) t ≡ test m t
unfolding test unmark word_bit
test-unmark_ne m s t h ne = elim (ℕ_discrete (s / 64) (t / 64)) [
  | yes e ↦
      rw (← e, get_or-set_self m (s / 64) _ 0 h)
        (has_bit-clear_ne (get_or m (s / 64) 0) (s % 64) (t % 64) (omega arith) (omega arith)
          (omega arith))
  | no apart ↦ rw (get_or-set_ne m (s / 64) (t / 64) _ 0 apart) refl
]
