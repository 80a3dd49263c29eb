-- ===== src/Timer/Wheel.antt =====
-- `TimerWheel` of crates/kwokka-runtime/src/timer/wheel/hierarchy.rs: registering and cancelling.
use mathlib.Core.Option
use kwokka.Base.{
  ℕ, zero, suc, ◌+◌, ◌-◌, ◌*◌, ◌/◌, ◌%◌, ◌^◌, Bool, true, false, Option, none, some, List, [], ◌∷◌,
  get_or, set, bit_or, ◌==◌, if◌then◌else◌, u64_mod,
}
use kwokka.Bitmap.{set_bit, clear_bit, trailing_zeros}
use kwokka.Slab
use kwokka.Slab.{Slab, Outcome, ok, full, panic, missing, found, uninit, insert, get}
use kwokka.Slab.Access.{update_by_index}
use kwokka.SlabKey.{index}
use kwokka.Timer.{
  TimerEntry, WheelSlot, WheelLevel, TimerWheel, level_count, slots_per_level, slab_to_nz,
  nz_to_slab, position, slot_at,
}
use kwokka.Timer.Slots.{entry_at, push_front, remove}

abbrev pub empty_slot : WheelSlot
empty_slot = record { head = none }

abbrev slots_of : ℕ → List WheelSlot
slots_of zero = []
slots_of (suc n) = empty_slot ∷ slots_of n

-- `EMPTY_LEVEL`, `WheelLevel::new`.
abbrev pub empty_level : WheelLevel
empty_level = record { slots = slots_of slots_per_level; populated_mask = 0 }

abbrev levels_of : ℕ → List WheelLevel
levels_of zero = []
levels_of (suc n) = empty_level ∷ levels_of n

-- `TimerWheel::new`, at the clock's tick `now`.
unfoldable pub new : ℕ → ℕ → Option TimerWheel
new now capacity =
    Option.map
      (λ entries. record { current_tick = now; levels = levels_of level_count; entries = entries })
      (Slab.new TimerEntry capacity)

-- `self.levels[level]` and its `slots[slot]`. Levels are below 6 and slots below 64.
abbrev pub level_of : TimerWheel → ℕ → WheelLevel
level_of w level = get_or w.levels level empty_level

abbrev pub slot_of : TimerWheel → ℕ → ℕ → WheelSlot
slot_of w level slot = get_or (level_of w level).slots slot empty_slot

abbrev pub set_slot : TimerWheel → ℕ → ℕ → WheelSlot → TimerWheel
set_slot w level slot s = record w {
  levels =
      set w.levels level
        (record (level_of w level) { slots = set (level_of w level).slots slot s });
}

abbrev pub set_mask : TimerWheel → ℕ → ℕ → TimerWheel
set_mask w level mask = record w {
  levels = set w.levels level (record (level_of w level) { populated_mask = mask });
}

unfoldable pub insert_at : TimerWheel → ℕ → ℕ → ℕ → TimerWheel
insert_at w entry_nz level slot =
    let placed =
      update_by_index w.entries (nz_to_slab entry_nz)
        (λ e. record e { level = level; slot = slot }) in
    let (s, entries) = push_front (slot_of w level slot) entry_nz placed in
    let pushed = set_slot (record w { entries = entries }) level slot s in
    set_mask pushed level (set_bit (level_of pushed level).populated_mask slot)

-- `register`; a handle is the key of its entry.
unfoldable pub register : TimerWheel → ℕ → ℕ → Outcome (TimerWheel × ℕ)
register w task_ref deadline_tick =
    let entry : TimerEntry = record {
      deadline_tick = deadline_tick;
      task_ref = task_ref;
      prev = none;
      next = none;
      level = 0;
      slot = 0;
    } in
    elim (insert w.entries entry) [
      | full ↦ full
      | panic ↦ panic
      | ok (entries, key) ↦
          let (level, slot) = position deadline_tick w.current_tick in
          ok (insert_at (record w { entries = entries }) (slab_to_nz (index key)) level slot, key)
    ]

unfoldable pub remove_from_slot : TimerWheel → ℕ → TimerWheel
remove_from_slot w entry_nz = elim (entry_at w.entries (nz_to_slab entry_nz)) [
  | none ↦ w
  | some entry ↦
      let (is_empty, (s, entries)) = remove (slot_of w entry.level entry.slot) entry_nz w.entries in
      let removed = set_slot (record w { entries = entries }) entry.level entry.slot s in
      if is_empty
      then set_mask removed entry.level
          (clear_bit (level_of removed entry.level).populated_mask entry.slot)
      else removed
]

unfoldable pub cancel : TimerWheel → ℕ → TimerWheel × Bool
cancel w handle =
    let unlinked = remove_from_slot w (slab_to_nz (index handle)) in
    elim (get w.entries handle) [
      | missing ↦ (w, false)
      | uninit ↦ (w, false)
      | found entry ↦ (record unlinked { entries = (Slab.remove unlinked.entries handle).0 }, true)
    ]

-- `rotate_right` of a word.
unfoldable pub rotate_right : ℕ → ℕ → ℕ
rotate_right word n = bit_or (word / 2 ^ n) (word * 2 ^ (64 - n) % u64_mod)

-- `next_expiry`, from `level` on with `rounds` levels to go.
unfoldable pub next_expiry_from : ℕ → TimerWheel → ℕ → Option ℕ
next_expiry_from zero w level = none
next_expiry_from (suc rounds) w level =
    let mask = (level_of w level).populated_mask in
    let rest = next_expiry_from rounds w (level + 1) in
    if mask == 0
    then rest
    else some
        (trailing_zeros 64 (rotate_right mask (slot_at w.current_tick level)) * 2 ^ (level * 6) + 1)

unfoldable pub next_expiry : TimerWheel → Option ℕ
next_expiry w = next_expiry_from level_count w 0
