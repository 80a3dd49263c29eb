-- ===== src/Timer.antt =====
-- The timer wheel of crates/kwokka-runtime/src/timer/wheel: entries, handles, and the place of a
-- deadline in the wheel. A `NonZeroU32` is its number, and a clock is what its `now` answers.
pub mod Slots
pub mod Wheel
pub mod Expire
pub mod Position
pub mod Chain
mod Tests
use Prim.Native.Nat.{min}
use kwokka.Base.{
  ℕ, zero, suc, ◌+◌, ◌-◌, ◌*◌, ◌/◌, ◌^◌, Option, none, List, leb, ◌==◌, if◌then◌else◌, bit_and,
}
use kwokka.Slab.{Slab}

pub record TimerEntry : Type 0 where
  pub deadline_tick : ℕ
  pub task_ref : ℕ
  pub prev : Option ℕ
  pub next : Option ℕ
  pub level : ℕ
  pub slot : ℕ

pub record WheelSlot : Type 0 where
  pub head : Option ℕ

pub record WheelLevel : Type 0 where
  pub slots : List WheelSlot
  pub populated_mask : ℕ

pub record TimerWheel : Type 0 where
  pub current_tick : ℕ
  pub levels : List WheelLevel
  pub entries : Slab TimerEntry

abbrev pub level_count : ℕ
level_count = 6

abbrev pub slots_per_level : ℕ
slots_per_level = 64

abbrev pub slab_to_nz : ℕ → ℕ
slab_to_nz index = index + 1

abbrev pub nz_to_slab : ℕ → ℕ
nz_to_slab nz = nz - 1

-- `leading_zeros`, of a word of `width` bits.
unfoldable pub leading_zeros : ℕ → ℕ → ℕ
leading_zeros zero word = 0
leading_zeros (suc width) word =
    let rest = leading_zeros width word in if leb (2 ^ width) word then 0 else suc rest

-- `(tick >> (level * 6)) & 0x3F`: the slot of a level that a tick falls into.
abbrev pub slot_at : ℕ → ℕ → ℕ
slot_at tick level = bit_and (tick / 2 ^ (level * 6)) 63

-- `position`: the level and the slot. Both fit in a byte.
unfoldable pub position : ℕ → ℕ → ℕ × ℕ
position deadline_tick current_tick =
    let delta = deadline_tick - current_tick in
    let level = min ((63 - leading_zeros 64 delta) / 6) 5 in
    if delta == 0 then (0, bit_and current_tick 63) else (level, slot_at deadline_tick level)
