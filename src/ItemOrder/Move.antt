-- ===== src/ItemOrder/Move.antt =====
-- `_move_order_item_between_groups`, and the calls that place the row of a schedule.
use taiga_back_schedule_mana.Base.{
  ℕ, ◌+◌, ◌-◌, min, max, not, Option, none, some, List, [], ◌∷◌, ◌++◌, ◌==◌, length, first, keep,
  any_of, update_where, insert_at, if◌then◌else◌,
}
use taiga_back_schedule_mana.Model.{
  EntityType, Schedule, ScheduleItemOrder, Orders, Result, ok, validation_error, duplicate_row,
  ◌>>=◌, ◌>>◌, raise_if,
}
use taiga_back_schedule_mana.ItemOrder.Keys.{
  GroupKey, same_key, key_of, build_order_group_key, fetch_group_items,
}
use taiga_back_schedule_mana.ItemOrder.Persist.{
  collide, checked, has_id, set_position, persist_group_positions,
}
use taiga_back_schedule_mana.ItemOrder.Clean.{clean_item_order}

abbrev pub without : ℕ → List ScheduleItemOrder → List ScheduleItemOrder
without i items = keep (λ r. not (has_id i r)) items

-- `max(1, min(desired_position, max_position))`
abbrev pub clamp : ℕ → ℕ → ℕ
clamp desired max_position = max 1 (min desired max_position)

abbrev pub or_position : Option ℕ → ℕ → ℕ
or_position none default = default
or_position (some position) default = position

-- The item with the fields of another group, at a position.
abbrev pub regrouped : GroupKey → ℕ → ScheduleItemOrder → ScheduleItemOrder
regrouped (p, t, pt, pid) position r = record r {
  project_id = p;
  entity_type = t;
  parent_entity_type = pt;
  parent_entity_id = pid;
  position = position;
}

-- The branch for one group.
unfoldable pub move_within_group :
    ScheduleItemOrder
    → GroupKey
    → Option ℕ
    → List ScheduleItemOrder
    → Result (ScheduleItemOrder × List ScheduleItemOrder)
move_within_group item key target_position rows =
    let ordered = without item.id (fetch_group_items key rows) in
    let desired = clamp (or_position target_position item.position) (length ordered + 1) in
    do
      rows' ← persist_group_positions (insert_at (desired - 1) item ordered) rows
      ok (set_position desired item, rows')

-- The branch for two groups: the row goes to the end of the other group first.
unfoldable pub move_to_group :
    ScheduleItemOrder
    → GroupKey
    → GroupKey
    → Option ℕ
    → List ScheduleItemOrder
    → Result (ScheduleItemOrder × List ScheduleItemOrder)
move_to_group item current_key target_key target_position rows =
    let current_items = fetch_group_items current_key rows in
    let target_items = fetch_group_items target_key rows in
    let max_target = length target_items + 1 in
    let desired = clamp (or_position target_position max_target) max_target in
    let item' = regrouped target_key max_target item in
    do
      moved ← checked (update_where (has_id item.id) (regrouped target_key max_target) rows)
      closed ← persist_group_positions (without item.id current_items) moved
      rows' ←
          persist_group_positions (insert_at (desired - 1) item' (without item.id target_items))
            closed
      ok (set_position desired item', rows')

unfoldable pub move_order_item_between_groups :
    ScheduleItemOrder
    → GroupKey
    → Option ℕ
    → List ScheduleItemOrder
    → Result (ScheduleItemOrder × List ScheduleItemOrder)
move_order_item_between_groups item target_key target_position rows =
    if same_key (key_of item) target_key
    then move_within_group item (key_of item) target_position rows
    else move_to_group item (key_of item) target_key target_position rows

abbrev pub row_of_schedule : ℕ → List ScheduleItemOrder → Option ScheduleItemOrder
row_of_schedule schedule_id rows = first (λ r. r.schedule_id == schedule_id) rows

abbrev new_row : ℕ → Schedule → GroupKey → ℕ → ScheduleItemOrder
new_row i s (p, t, pt, pid) position = record {
  id = i;
  schedule_id = s.id;
  project_id = p;
  entity_type = t;
  parent_entity_type = pt;
  parent_entity_id = pid;
  position = position;
}

-- `ScheduleItemOrder.objects.create`: `save` cleans the row and checks its constraints first.
unfoldable pub create_item_order :
    Schedule → GroupKey → ℕ → Orders → Result (ScheduleItemOrder × Orders)
create_item_order s key position o =
    let r = new_row o.next_id s key position in
    do
      clean_item_order s r
      raise_if (any_of (λ q. collide r q) o.rows) (validation_error duplicate_row)
      ok (r, record { rows = o.rows ++ r ∷ []; next_id = o.next_id + 1 })

-- A change of the rows, as a change of the table.
abbrev pub on_rows :
    (List ScheduleItemOrder → Result (ScheduleItemOrder × List ScheduleItemOrder))
    → Orders
    → Result (ScheduleItemOrder × Orders)
on_rows f o = do done ← f o.rows; ok (done.0, record o { rows = done.1 })

-- `_sync_schedule_item_order_for_schedule`, given the resolved parent of the schedule's item.
unfoldable pub sync_item_order_for_schedule :
    Option EntityType × ℕ → Schedule → Orders → Result (ScheduleItemOrder × Orders)
sync_item_order_for_schedule (parent_type, parent_id) s o =
    let target_key = build_order_group_key s.project_id s.entity_type parent_type parent_id in
    elim (row_of_schedule s.id o.rows) [
      | none ↦ create_item_order s target_key (length (fetch_group_items target_key o.rows) + 1) o
      | some item ↦ on_rows (move_order_item_between_groups item target_key none) o
    ]

-- `_set_schedule_item_order_position_for_schedule`
unfoldable pub set_item_order_position_for_schedule :
    Option EntityType × ℕ → Schedule → ℕ → Orders → Result (ScheduleItemOrder × Orders)
set_item_order_position_for_schedule parent s desired_position o = do
  synced ← sync_item_order_for_schedule parent s o
  on_rows (move_order_item_between_groups synced.0 (key_of synced.0) (some desired_position))
      synced.1
