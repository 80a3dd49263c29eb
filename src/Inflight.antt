-- ===== src/Inflight.antt =====
-- The registry of in-flight buffers of crates/kwokka-io/src/buffer/oneshot/inflight.rs. `&mut self`
-- is a registry in and a registry out, and an opcode is a type of its own. A descriptor is its raw
-- number.
pub mod Tokens
pub mod Bytes
pub mod Free
pub mod Find
pub mod Step
pub mod View
pub mod Invariant
pub mod Reclaim
pub mod Stale
mod Tests
use kwokka.Base.{
  ℕ, zero, suc, ◌+◌, ◌-◌, ◌*◌, ◌/◌, ◌%◌, ◌^◌, Bool, true, false, not, ◌&&◌, ◌||◌, Option, none,
  some, List, [], ◌∷◌, get_or, set, take, drop, bit_and, ltb, leb, ◌==◌, if◌then◌else◌, u64_mod,
  u16_mod, add64,
}
use kwokka.Base.Maybe.{◌>>=◌}
use Prim.Native.Nat.{min}
use kwokka.Bitmap.{trailing_zeros, test, mark, unmark, scan}

-- `INFLIGHT_BUF_STRIDE` and `DEFAULT_INFLIGHT_CAP`.
abbrev pub inflight_buf_stride : ℕ
inflight_buf_stride = 4096

abbrev pub default_inflight_cap : ℕ
default_inflight_cap = 256

pub record InflightSlotKey : Type 0 where
  pub slot : ℕ
  pub generation : ℕ
  pub worker_id : ℕ
  pub op_token : ℕ

pub record DeferredOp (O : Type 0) : Type 0 where
  pub fd : ℕ
  pub len : ℕ
  pub opcode : O

pub record Reclaimed (O : Type 0) : Type 0 where
  pub was_freed : Bool
  pub deferred : Option (DeferredOp O)

pub record InflightBufSlab (O : Type 0) : Type 0 where
  pub storage : List ℕ
  pub occupied : List ℕ
  pub retire_pending : List ℕ
  pub notif_expected : List ℕ
  pub notif_ready : List ℕ
  pub generation : List ℕ
  pub op_token : List ℕ
  pub deferred : List (Option (DeferredOp O))
  pub worker_id : ℕ
  pub cap : ℕ
  pub stride : ℕ

-- `[value; n]`.
abbrev pub replicate : {A : Type 0} → ℕ → A → List A
replicate zero value = []
replicate (suc n) value = value ∷ replicate n value

-- `new`, with the region that `mmap` gave for the slots' bytes.
unfoldable pub new : (O : Type 0) → List ℕ → ℕ → ℕ → InflightBufSlab O
new O storage worker_id cap = record {
  storage = storage;
  occupied = replicate 4 0;
  retire_pending = replicate 4 0;
  notif_expected = replicate 4 0;
  notif_ready = replicate 4 0;
  generation = replicate default_inflight_cap 0;
  op_token = replicate default_inflight_cap 0;
  deferred = replicate default_inflight_cap none;
  worker_id = worker_id;
  cap = min cap default_inflight_cap;
  stride = inflight_buf_stride;
}

-- One round of `first_free`: the lowest free slot of a word, or what the later words give.
unfoldable pub first_free_in : ℕ → ℕ → ℕ → Option ℕ → Option ℕ
first_free_in index word mask rest =
    let available = bit_and (u64_mod - 1 - word) mask in
    let raw = index * 64 + trailing_zeros 64 available in
    if available == 0 then rest else (if ltb raw u16_mod then some raw else none)

-- The loop of `first_free` from word `index` on.
unfoldable pub first_free_from : ℕ → ℕ → List ℕ → Option ℕ
first_free_from cap index [] = none
first_free_from cap index (word ∷ words) =
    let last_word = cap / 64 in
    let last_bit = cap % 64 in
    let rest = first_free_from cap (suc index) words in
    if ltb index last_word
    then first_free_in index word (u64_mod - 1) rest
    else (if (index == last_word) && ltb 0 last_bit
        then first_free_in index word (2 ^ last_bit - 1) rest
        else none)

module _ {O : Type 0} where
  abbrev pub generation_of : InflightBufSlab O → ℕ → ℕ
  generation_of s slot = get_or s.generation slot 0

  abbrev pub token_of : InflightBufSlab O → ℕ → ℕ
  token_of s slot = get_or s.op_token slot 0

  abbrev pub deferred_of : InflightBufSlab O → ℕ → Option (DeferredOp O)
  deferred_of s slot = get_or s.deferred slot none

  unfoldable pub first_free : InflightBufSlab O → Option ℕ
  first_free s = first_free_from s.cap 0 s.occupied

  unfoldable pub allocate_at : InflightBufSlab O → ℕ → ℕ → InflightBufSlab O × InflightSlotKey
  allocate_at s op_token slot = (
    record s { occupied = mark s.occupied slot; op_token = set s.op_token slot op_token },
    record {
      slot = slot;
      generation = generation_of s slot;
      worker_id = s.worker_id;
      op_token = op_token;
    },
  )

  unfoldable pub allocate : InflightBufSlab O → ℕ → Option (InflightBufSlab O × InflightSlotKey)
  allocate s op_token = first_free s >>= λ slot. some (allocate_at s op_token slot)

  unfoldable pub is_live : InflightBufSlab O → InflightSlotKey → Bool
  is_live s key =
      if not (key.worker_id == s.worker_id)
      then false
      else (if leb s.cap key.slot
          then false
          else test s.occupied key.slot && (generation_of s key.slot == key.generation))

  -- The lines that free a slot: its four bits and its deferred operation go, the generation is
  -- bumped.
  unfoldable pub release_slot : InflightBufSlab O → ℕ → InflightBufSlab O
  release_slot s slot = record s {
    occupied = unmark s.occupied slot;
    retire_pending = unmark s.retire_pending slot;
    notif_expected = unmark s.notif_expected slot;
    notif_ready = unmark s.notif_ready slot;
    deferred = set s.deferred slot none;
    generation = set s.generation slot (add64 (generation_of s slot) 1);
  }

  unfoldable pub free :
      InflightBufSlab O → InflightSlotKey → InflightBufSlab O × Option (DeferredOp O)
  free s key =
      if not (is_live s key) then (s, none) else (release_slot s key.slot, deferred_of s key.slot)

  unfoldable pub mark_retire_pending : InflightBufSlab O → InflightSlotKey → InflightBufSlab O
  mark_retire_pending s key =
      if not (is_live s key)
      then s
      else record s { retire_pending = mark s.retire_pending key.slot }

  unfoldable pub is_retire_pending : InflightBufSlab O → ℕ → Bool
  is_retire_pending s slot = if leb s.cap slot then false else test s.retire_pending slot

  -- The generation is compared in its low sixteen bits.
  unfoldable pub is_reclaimable : InflightBufSlab O → ℕ → ℕ → Bool
  is_reclaimable s slot generation_low16 =
      test s.occupied slot
      && test s.retire_pending slot
      && (bit_and (generation_of s slot) 65535 == generation_low16)
      && not (test s.notif_expected slot && not (test s.notif_ready slot))

  unfoldable pub free_if_retire_pending :
      InflightBufSlab O → ℕ → ℕ → InflightBufSlab O × Option (DeferredOp O)
  free_if_retire_pending s slot generation_low16 =
      if leb s.cap slot
      then (s, none)
      else (if is_reclaimable s slot generation_low16
          then (release_slot s slot, deferred_of s slot)
          else (s, none))

  unfoldable pub retire_deferred :
      InflightBufSlab O → InflightSlotKey → InflightBufSlab O × Option (DeferredOp O)
  retire_deferred s key =
      if not (is_live s key)
      then (s, none)
      else (record s { deferred = set s.deferred key.slot none }, deferred_of s key.slot)

  unfoldable pub is_notif_ready : InflightBufSlab O → InflightSlotKey → Bool
  is_notif_ready s key = if not (is_live s key) then false else test s.notif_ready key.slot
