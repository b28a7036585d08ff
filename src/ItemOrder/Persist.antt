-- ===== src/ItemOrder/Persist.antt =====
-- Single writes to the table of item orders, under its uniqueness constraint, and
-- `_persist_group_positions`.
use taiga_back_schedule_mana.Base.{
  ℕ, ◌+◌, max, Bool, true, ◌&&◌, not, List, [], ◌∷◌, ◌==◌, length, is_empty, any_of, update_where,
  if◌then◌else◌,
}
use taiga_back_schedule_mana.Model.{ScheduleItemOrder, Result, ok, err, integrity_error, ◌>>=◌}
use taiga_back_schedule_mana.ItemOrder.Keys.{key_of, same_key}

-- Two rows that no table may hold together.
abbrev pub collide : ScheduleItemOrder → ScheduleItemOrder → Bool
collide r s = same_key (key_of r) (key_of s) && r.position == s.position

-- `unique_together` of the table.
unfoldable pub is_unique : List ScheduleItemOrder → Bool
is_unique [] = true
is_unique (r ∷ rows) = not (any_of (collide r) rows) && is_unique rows

-- The database checks the constraint when a statement ends.
unfoldable pub checked : List ScheduleItemOrder → Result (List ScheduleItemOrder)
checked rows = if is_unique rows then ok rows else err integrity_error

abbrev pub has_id : ℕ → ScheduleItemOrder → Bool
has_id i r = r.id == i

abbrev pub set_position : ℕ → ScheduleItemOrder → ScheduleItemOrder
set_position p r = record r { position = p }

abbrev pub placed : ℕ → ℕ → List ScheduleItemOrder → List ScheduleItemOrder
placed i p rows = update_where (has_id i) (set_position p) rows

-- `ScheduleItemOrder.objects.filter(id=i).update(position=p)`
unfoldable pub update_position : ℕ → ℕ → List ScheduleItemOrder → Result (List ScheduleItemOrder)
update_position i p rows = checked (placed i p rows)

-- The items that do not stand at their index, with the index, counted from `index`.
unfoldable pub pending_updates : ℕ → List ScheduleItemOrder → List (ScheduleItemOrder × ℕ)
pending_updates index [] = []
pending_updates index (item ∷ items) =
    let rest = pending_updates (index + 1) items in
    if item.position == index then rest else (item, index) ∷ rest

-- `max([item.position for item in items] + [len(items)])`
unfoldable pub max_position : ℕ → List ScheduleItemOrder → ℕ
max_position least [] = least
max_position least (item ∷ items) = max item.position (max_position least items)

-- The loop that moves the pending items to temporary positions, from `position` on.
unfoldable pub write_temporary :
    ℕ → List (ScheduleItemOrder × ℕ) → List ScheduleItemOrder → Result (List ScheduleItemOrder)
write_temporary position [] rows = ok rows
write_temporary position ((item, index) ∷ pending) rows = do
  rows' ← update_position item.id position rows
  write_temporary (position + 1) pending rows'

-- The loop that moves the pending items to their final positions.
unfoldable pub write_final :
    List (ScheduleItemOrder × ℕ) → List ScheduleItemOrder → Result (List ScheduleItemOrder)
write_final [] rows = ok rows
write_final ((item, index) ∷ pending) rows = do
  rows' ← update_position item.id index rows
  write_final pending rows'

unfoldable pub temporary_base_position : List ScheduleItemOrder → ℕ
temporary_base_position items =
    max_position (length items) items + length (pending_updates 1 items) + 1

unfoldable pub persist_group_positions :
    List ScheduleItemOrder → List ScheduleItemOrder → Result (List ScheduleItemOrder)
persist_group_positions items rows =
    let pending = pending_updates 1 items in
    if is_empty pending then ok rows else do
      moved ← write_temporary (temporary_base_position items) pending rows
      write_final pending moved

-- The positions that the item objects hold after the call.
unfoldable pub renumber : ℕ → List ScheduleItemOrder → List ScheduleItemOrder
renumber index [] = []
renumber index (item ∷ items) = set_position index item ∷ renumber (index + 1) items
