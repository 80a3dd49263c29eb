-- ===== src/Timer/Expire.antt =====
-- crates/kwokka-runtime/src/timer/wheel/hierarchy.rs: the wheel turns. The loops take the rounds
-- that they may use, and answer `none` when these do not do.
use kwokka.Base.{
  ℕ, zero, suc, ◌+◌, ◌-◌, ◌*◌, true, false, Option, none, some, bit_and, bit_or, leb, ltb, ◌==◌,
  if◌then◌else◌, add64,
}
use kwokka.Base.Maybe.{◌>>=◌}
use kwokka.Bitmap.{clear_bit, trailing_zeros}
use kwokka.Slab.{remove_by_index}
use kwokka.Slab.Access.{update_by_index}
use kwokka.Timer.{TimerWheel, nz_to_slab, position, slot_at}
use kwokka.Timer.Slots.{entry_at}
use kwokka.Timer.Wheel.{level_of, slot_of, set_slot, set_mask, empty_slot, insert_at}

-- The loop of `cascade_level`.
unfoldable pub cascade_loop : ℕ → TimerWheel → Option ℕ → Option TimerWheel
cascade_loop fuel w none = some w
cascade_loop zero w (some nz) = none
cascade_loop (suc fuel) w (some nz) = elim (entry_at w.entries (nz_to_slab nz)) [
  | none ↦ some w
  | some entry ↦
      let cut =
        update_by_index w.entries (nz_to_slab nz) (λ e. record e { prev = none; next = none }) in
      let (level, slot) = position entry.deadline_tick w.current_tick in
      cascade_loop fuel (insert_at (record w { entries = cut }) nz level slot) entry.next
]

unfoldable pub cascade_level : ℕ → TimerWheel → ℕ → Option TimerWheel
cascade_level fuel w level =
    let slot_idx = slot_at w.current_tick level in
    let head = (slot_of w level slot_idx).head in
    let taken = set_slot w level slot_idx empty_slot in
    let unmarked =
      set_mask taken level (clear_bit (level_of taken level).populated_mask slot_idx) in
    cascade_loop fuel unmarked head

-- The loop over the levels from `level` on, with `rounds` levels to go.
unfoldable pub cascade_from : ℕ → ℕ → TimerWheel → ℕ → ℕ → Option TimerWheel
cascade_from fuel zero w level tz = some w
cascade_from fuel (suc rounds) w level tz = elim (leb (level * 6) tz) [
  | false ↦ some w
  | true ↦ cascade_level fuel w level >>= λ v. cascade_from fuel rounds v (level + 1) tz
]

unfoldable pub advance_one_tick : ℕ → TimerWheel → Option TimerWheel
advance_one_tick fuel w =
    let next = record w { current_tick = add64 w.current_tick 1 } in
    let tz = trailing_zeros 64 next.current_tick in
    elim (leb 6 tz) [
      | false ↦ some next
      | true ↦ cascade_level fuel next 1 >>= λ v. cascade_from fuel 4 v 2 tz
    ]

pub record ExpiredIter : Type 0 where
  pub wheel : TimerWheel
  pub target_tick : ℕ
  pub current_drain : Option ℕ

unfoldable pub advance_to : TimerWheel → ℕ → ExpiredIter
advance_to w target_tick = record { wheel = w; target_tick = target_tick; current_drain = none }

-- The lines of `next` after a tick: the slot of level 0 that is due is taken out.
unfoldable pub drain_slot : ExpiredIter → TimerWheel → ExpiredIter
drain_slot it w =
    let slot_idx = bit_and w.current_tick 63 in
    let drain = (slot_of w 0 slot_idx).head in
    let taken = set_slot w 0 slot_idx empty_slot in
    record it {
      current_drain = drain;
      wheel = elim drain [
        | none ↦ taken
        | some nz ↦ set_mask taken 0 (clear_bit (level_of taken 0).populated_mask slot_idx)
      ];
    }

-- Where the lines on an empty level 0 lead: to the end of the iteration, or on to a tick.
pub data Jump : Type 0 where
  stops : TimerWheel → Jump
  ticks : TimerWheel → Jump

unfoldable pub jump : TimerWheel → ℕ → Jump
jump w target_tick =
    let next_l0_wrap = add64 (bit_or w.current_tick 63) 1 in
    if (level_of w 0).populated_mask == 0
    then (if ltb target_tick next_l0_wrap
        then stops (record w { current_tick = target_tick })
        else ticks (record w { current_tick = next_l0_wrap - 1 }))
    else ticks w

-- `ExpiredIter::next`: the task yielded, if any, and the iterator after it.
unfoldable pub next : ℕ → ExpiredIter → Option (Option ℕ × ExpiredIter)
next zero it = none
next (suc fuel) it = elim it.current_drain [
  | some nz ↦ elim (entry_at it.wheel.entries (nz_to_slab nz)) [
    | none ↦ next fuel (record it { current_drain = none })
    | some entry ↦ some (
      some entry.task_ref,
      record it {
        current_drain = entry.next;
        wheel = record it.wheel { entries = (remove_by_index it.wheel.entries (nz_to_slab nz)).0 };
      },
    )
  ]
  | none ↦ elim (leb it.target_tick it.wheel.current_tick) [
    | true ↦ some (none, it)
    | false ↦ elim (jump it.wheel it.target_tick) [
      | stops w ↦ some (none, record it { wheel = w })
      | ticks w ↦ advance_one_tick fuel w >>= λ v. next fuel (drain_slot it v)
    ]
  ]
]
