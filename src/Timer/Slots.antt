-- ===== src/Timer/Slots.antt =====
-- crates/kwokka-runtime/src/timer/wheel/slot.rs: the doubly linked list of a slot, whose links are
-- fields of the entries in the slab.
use kwokka.Base.{ℕ, Bool, true, false, Option, none, some}
use kwokka.Slab.{Slab, Read, missing, found, uninit, get_by_index}
use kwokka.Slab.Access.{update_by_index}
use kwokka.Timer.{TimerEntry, WheelSlot, nz_to_slab}

-- What a read gives; a well-formed slab never reads uninitialised memory.
abbrev pub of_read : Read TimerEntry → Option TimerEntry
of_read missing = none
of_read uninit = none
of_read (found entry) = some entry

-- The entry of `get_by_index`.
unfoldable pub entry_at : Slab TimerEntry → ℕ → Option TimerEntry
entry_at entries i = of_read (get_by_index entries i)

abbrev pub is_none : Option ℕ → Bool
is_none none = true
is_none (some nz) = false

-- The lines of `WheelSlot::push_front` on the head that it had.
unfoldable pub link_old_head : Slab TimerEntry → ℕ → Option ℕ → Slab TimerEntry
link_old_head entries entry_nz none = entries
link_old_head entries entry_nz (some old_head) =
    update_by_index entries (nz_to_slab old_head) (λ e. record e { prev = some entry_nz })

-- `WheelSlot::push_front`.
unfoldable pub push_front : WheelSlot → ℕ → Slab TimerEntry → WheelSlot × Slab TimerEntry
push_front s entry_nz entries =
    let idx = nz_to_slab entry_nz in
    elim (entry_at entries idx) [
      | none ↦ (s, entries)
      | some entry ↦
          let placed = update_by_index entries idx (λ e. record e { prev = none; next = s.head }) in
          (record { head = some entry_nz }, link_old_head placed entry_nz s.head)
    ]

-- The lines of `WheelSlot::remove` on the entry before the removed one, or on the head.
unfoldable pub unlink_before :
    WheelSlot → Slab TimerEntry → Option ℕ → Option ℕ → WheelSlot × Slab TimerEntry
unlink_before s entries none following = (record { head = following }, entries)
unlink_before s entries (some prev_nz) following =
    (s, update_by_index entries (nz_to_slab prev_nz) (λ e. record e { next = following }))

-- Its lines on the entry after the removed one.
unfoldable pub unlink_after : Slab TimerEntry → Option ℕ → Option ℕ → Slab TimerEntry
unlink_after entries preceding none = entries
unlink_after entries preceding (some next_nz) =
    update_by_index entries (nz_to_slab next_nz) (λ e. record e { prev = preceding })

-- `WheelSlot::remove`, with its answer first.
unfoldable pub remove : WheelSlot → ℕ → Slab TimerEntry → Bool × (WheelSlot × Slab TimerEntry)
remove s entry_nz entries =
    let idx = nz_to_slab entry_nz in
    elim (entry_at entries idx) [
      | none ↦ (is_none s.head, (s, entries))
      | some entry ↦
          let (t, before) = unlink_before s entries entry.prev entry.next in
          let after = unlink_after before entry.prev entry.next in
          (
            is_none t.head,
            (t, update_by_index after idx (λ e. record e { prev = none; next = none })),
          )
    ]
