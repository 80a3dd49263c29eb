-- ===== src/Inflight/View.antt =====
-- The bytes of the slots of crates/kwokka-io/src/buffer/oneshot/inflight.rs, and a new registry.
use kwokka.Base.{
  ℕ, zero, suc, ◌+◌, ◌*◌, ◌/◌, ◌%◌, ◌<◌, ◌≤◌, ◌≡◌, ◌≢◌, ◌⊎◌, inl, inr, refl, ap, true, false,
  Option, none, some, List, length, get_or, arith, Bool-cases,
}
use native.Mathlib.Nat.{mul-le-mul_right}
use native.Mathlib.Decide.{dec_lt}
use kwokka.Bitmap.{test, word_bit}
use kwokka.Bitmap.Word.{has_bit-bit, bit-zero}
use kwokka.Bitmap.Words.{AllWords}
use kwokka.Inflight.{InflightSlotKey, DeferredOp, InflightBufSlab, is_live, new, replicate}
use kwokka.Inflight.Bytes.{slot_ptr}
use kwokka.Inflight.Invariant.{IsBitmap, IsValid}
use kwokka.Inflight.Find.{is_live-parts}

length-replicate : {A : Type 0} (n : ℕ) (x : A) → length (replicate n x) ≡ n
length-replicate zero x = refl
length-replicate (suc n) x = ap suc (length-replicate n x)

get_or-replicate : {A : Type 0} (n i : ℕ) (x : A) → get_or (replicate n x) i x ≡ x
get_or-replicate zero i x = refl
get_or-replicate (suc n) zero x = refl
get_or-replicate (suc n) (suc i) x = get_or-replicate n i x

AllWords-replicate : (n : ℕ) → AllWords (replicate n 0)
AllWords-replicate zero = tt
AllWords-replicate (suc n) = (omega arith, AllWords-replicate n)

test-replicate : (n i : ℕ) → test (replicate n 0) i ≡ false
unfolding test word_bit
test-replicate n i =
    rw (get_or-replicate {A = ℕ} n (i / 64) 0, has_bit-bit 0 (i % 64), bit-zero (i % 64)) refl

zeros-IsBitmap : IsBitmap (replicate 4 0)
zeros-IsBitmap = record { room = refl; words = AllWords-replicate 4 }

unset : {P : Type 0} (i : ℕ) → test (replicate 4 0) i ≡ true → P
unset i e = let off = test-replicate 4 i in absurd cc

-- A slot's bytes end where the next one's begin.
next_slot : (i j k : ℕ) → i < j → i * k + k ≤ j * k
next_slot i j k h = grind (arith, mul-le-mul_right {m = suc i} {n = j} k h)

module _ {O : Type 0} where
  pub new-IsValid : (storage : List ℕ) (worker_id size : ℕ) → IsValid (new O storage worker_id size)
  unfolding new
  new-IsValid storage worker_id size = record {
    occupied = zeros-IsBitmap;
    retire_pending = zeros-IsBitmap;
    notif_expected = zeros-IsBitmap;
    notif_ready = zeros-IsBitmap;
    generations = length-replicate {A = ℕ} 256 0;
    bumps = AllWords-replicate 256;
    tokens = length-replicate {A = ℕ} 256 0;
    records = length-replicate {A = Option (DeferredOp O)} 256 none;
    small = omega arith;
    inside = λ i h e. unset i e;
    pending_held = λ i h e. e;
    expected_held = λ i h e. e;
    ready_held = λ i h e. e;
    deferred_held = λ i op h e.
        let nothing = get_or-replicate {A = Option (DeferredOp O)} 256 i none in absurd cc;
  }

  slot_ptr-parts :
      (s : InflightBufSlab O) (key : InflightSlotKey) (p : ℕ)
      → slot_ptr s key ≡ some p
      → (key.slot < s.cap) × (p ≡ key.slot * s.stride)
  unfolding slot_ptr
  slot_ptr-parts s key p e = elim (Bool-cases (is_live s key)) [
    | inl live ↦
        let at = rw live at e in
        let same : p ≡ key.slot * s.stride = cc in ((is_live-parts s key live).0, same)
    | inr dead ↦ let nothing = rw dead at e in absurd cc
  ]

  -- The bytes of two live keys of different slots lie apart in the region, and inside it.
  pub slot_ptr-apart :
      (s : InflightBufSlab O) (a b : InflightSlotKey) (p q : ℕ)
      → length s.storage ≡ s.cap * s.stride
      → slot_ptr s a ≡ some p
      → slot_ptr s b ≡ some q
      → a.slot ≢ b.slot
      → (p + s.stride ≤ length s.storage) × ((p + s.stride ≤ q) ⊎ (q + s.stride ≤ p))
  slot_ptr-apart s a b p q full e f ne =
      let (la, at_a) = slot_ptr-parts s a p e in
      let (lb, at_b) = slot_ptr-parts s b q f in
      let ends = next_slot a.slot s.cap s.stride la in
      (
        omega arith,
        elim (dec_lt a.slot b.slot) [
          | yes h ↦ inl (omega (arith, next_slot a.slot b.slot s.stride h))
          | no g ↦ inr (omega (arith, next_slot b.slot a.slot s.stride (omega arith)))
        ],
      )
