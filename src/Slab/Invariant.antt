-- ===== src/Slab/Invariant.antt =====
-- Well-formed slabs (crates/kwokka-core/src/slab/slab.rs): the in-band free list and the counts.
use kwokka.Base.{
  ℕ, zero, suc, ◌+◌, ◌<◌, ◌^◌, ◌≡◌, ◌≢◌, ap, ◌∙◌, Bool, true, false, ◌==◌, if◌then◌else◌, Option,
  none, some, List, [], ◌∷◌, length, get_elem?, set, u32_mod, arith, get_elem?-set_ne,
  get_elem?-set_self,
}
use kwokka.Generation.{is_occupied}
use kwokka.Slab.{Slot, Slab, free_sentinel}

abbrev pub NotIn : ℕ → List ℕ → Type 0
NotIn i [] = Unit {0}
NotIn i (j ∷ js) = (i ≢ j) × NotIn i js

abbrev pub Distinct : List ℕ → Type 0
Distinct [] = Unit {0}
Distinct (i ∷ is) = NotIn i is × Distinct is

abbrev pub first : List ℕ → ℕ
first [] = free_sentinel
first (i ∷ is) = i

abbrev pub has_content {ℓ} : {A : Type ℓ} → Option A → Bool
has_content none = false
has_content (some a) = true

-- A sum over the slots; `k` is the index of the first.
unfoldable pub tally {ℓ} : {A : Type ℓ} → (ℕ → A → ℕ) → ℕ → List A → ℕ
tally weight k [] = 0
tally weight k (x ∷ xs) = weight k x + tally weight (suc k) xs

pub tally-set {ℓ} :
    {A : Type ℓ} (weight : ℕ → A → ℕ) (k : ℕ) (xs : List A) (i : ℕ) {old : A} (v : A)
    → get_elem? xs i ≡ some old
    → tally weight k (set xs i v) + weight (k + i) old ≡ tally weight k xs + weight (k + i) v
unfolding tally
tally-set weight k [] i v h = cc
tally-set weight k (x ∷ xs) zero {old} v h = ground (arith, ap (λ t. weight (k + 0) t) (some_inj h))
  where
    some_inj : some x ≡ some old → x ≡ old
    some_inj e = cc
tally-set weight k (x ∷ xs) (suc i) {old} v h =
    let shift : k + suc i ≡ suc k + i = omega arith in
    rw shift (omega (arith, tally-set weight (suc k) xs i v h))

pub first-ne : {i : ℕ} (is : List ℕ) → NotIn i is → i ≢ free_sentinel → i ≢ first is
first-ne [] n s = s
first-ne (j ∷ js) n s = n.0

-- The same over a whole list.
pub tally-set_whole {ℓ} :
    {A : Type ℓ} (weight : ℕ → A → ℕ) (xs : List A) (i : ℕ) {old : A} (v : A)
    → get_elem? xs i ≡ some old
    → tally weight 0 (set xs i v) + weight i old ≡ tally weight 0 xs + weight i v
tally-set_whole weight xs i v h =
    let shift : 0 + i ≡ i = omega arith in rw shift at (tally-set weight 0 xs i v h)

module _ {ℓ} {A : Type ℓ} where
  -- The link of a vacant slot.
  abbrev pub link : Option (Slot A) → Option ℕ
  link none = none
  link (some slot) = if is_occupied slot.generation then none else some slot.next_free

  -- The free list from `head` on holds the vacant slots `is`, in this order.
  abbrev pub Chain : List (Slot A) → ℕ → List ℕ → Type 0
  Chain slots head [] = head ≡ free_sentinel
  Chain slots head (i ∷ is) =
      (head ≡ i) × (link (get_elem? slots i) ≡ some (first is)) × Chain slots (first is) is

  unfoldable pub occupied_weight : ℕ → Slot A → ℕ
  occupied_weight i slot = if is_occupied slot.generation then 1 else 0

  -- A reserved slot is vacant and points at itself.
  pub reserved_weight : ℕ → Slot A → ℕ
  reserved_weight i slot =
      if is_occupied slot.generation then 0 else if slot.next_free == i then 1 else 0

  pub occupied_weight_occupied :
      (i : ℕ) (slot : Slot A) → is_occupied slot.generation ≡ true → occupied_weight i slot ≡ 1
  unfolding occupied_weight
  occupied_weight_occupied i slot h = rw h

  pub occupied_weight_vacant :
      (i : ℕ) (slot : Slot A) → is_occupied slot.generation ≡ false → occupied_weight i slot ≡ 0
  unfolding occupied_weight
  occupied_weight_vacant i slot h = rw h

  pub reserved_weight_occupied :
      (i : ℕ) (slot : Slot A) → is_occupied slot.generation ≡ true → reserved_weight i slot ≡ 0
  unfolding reserved_weight
  reserved_weight_occupied i slot h = rw h

  pub reserved_weight_free :
      (i : ℕ) (slot : Slot A)
      → is_occupied slot.generation ≡ false
      → slot.next_free ≢ i
      → reserved_weight i slot ≡ 0
  unfolding reserved_weight
  reserved_weight_free i slot h n = rw h (ground arith)

  pub reserved_weight_reserved :
      (i : ℕ) (slot : Slot A)
      → is_occupied slot.generation ≡ false
      → slot.next_free ≡ i
      → reserved_weight i slot ≡ 1
  unfolding reserved_weight
  reserved_weight_reserved i slot h n = rw h (ground arith)

  pub record SlotOk (slot : Slot A) : Type 0 where
    pub in_range : slot.generation < 2 ^ 24
    pub holds : has_content slot.content ≡ is_occupied slot.generation
    pub unlinked : is_occupied slot.generation ≡ true → slot.next_free ≡ free_sentinel

  pub record IsValid (s : Slab A) (free : List ℕ) : Type ℓ where
    pub fits : length s.slots < u32_mod
    pub chain : Chain s.slots s.free_head free
    pub distinct : Distinct free
    pub slot_ok : (i : ℕ) (slot : Slot A) → get_elem? s.slots i ≡ some slot → SlotOk slot
    pub counts : s.len ≡ tally occupied_weight 0 s.slots
    pub balance : s.len + length free + tally reserved_weight 0 s.slots ≡ length s.slots

  -- A write at a slot that the free list does not hold leaves the list as it is.
  pub Chain-set :
      (slots : List (Slot A)) (j : ℕ) (v : Slot A) (head : ℕ) (is : List ℕ)
      → NotIn j is
      → Chain slots head is
      → Chain (set slots j v) head is
  Chain-set slots j v head [] n c = c
  Chain-set slots j v head (i ∷ is) n c = (
    c.0,
    ap link (get_elem?-set_ne slots j i v n.0) ∙ c.1,
    Chain-set slots j v (first is) is n.1 c.2,
  )

  -- No occupied slot, and no slot that points at itself, is on the free list.
  pub Chain-occupied :
      (slots : List (Slot A)) (j : ℕ) (head : ℕ) (is : List ℕ)
      → link (get_elem? slots j) ≡ none
      → Chain slots head is
      → NotIn j is
  Chain-occupied slots j head [] e c = tt
  Chain-occupied slots j head (i ∷ is) e c =
      (λ p. cc (c.1), Chain-occupied slots j (first is) is e c.2)

  pub Chain-reserved :
      (slots : List (Slot A)) (j : ℕ) (head : ℕ) (is : List ℕ)
      → link (get_elem? slots j) ≡ some j
      → j ≢ free_sentinel
      → Distinct is
      → Chain slots head is
      → NotIn j is
  Chain-reserved slots j head [] e s d c = tt
  Chain-reserved slots j head (i ∷ is) e s d c = (
    λ p. first-ne is d.0 (λ q. s (p ∙ q)) (cc (c.1)),
    Chain-reserved slots j (first is) is e s d.1 c.2,
  )

  pub Chain-first :
      (slots : List (Slot A)) (head : ℕ) (is : List ℕ) → Chain slots head is → head ≡ first is
  Chain-first slots head [] c = c
  Chain-first slots head (i ∷ is) c = c.0

  -- A vacant slot written at `i` links to what it says.
  pub link-set :
      (slots : List (Slot A)) (i : ℕ) (v : Slot A) (n : ℕ)
      → i < length slots
      → is_occupied v.generation ≡ false
      → v.next_free ≡ n
      → link (get_elem? (set slots i v) i) ≡ some n
  link-set slots i v n h vac e = rw (get_elem?-set_self slots i v h, vac, e)
