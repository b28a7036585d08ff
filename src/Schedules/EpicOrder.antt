-- ===== src/Schedules/EpicOrder.antt =====
-- `sync_epic_userstories_schedule_item_order_in_bulk`: the schedules of the user stories of an epic
-- take the order of their relations.
use taiga_back_schedule_mana.Base.{
  ℕ, Bool, ◌&&◌, not, Option, none, some, List, [], ◌∷◌, ◌++◌, map, ◌==◌, keep, contains, sort_by,
  is_empty, if◌then◌else◌,
}
use taiga_back_schedule_mana.Model.{
  EntityType, epic, userstory, same_type, Schedule, ScheduleItemOrder, Orders, Database,
  relation_before, find_epic, get_schedule, Result, ok, err, integrity_error, ◌>>=◌,
}
use taiga_back_schedule_mana.Dates.{no_updates}
use taiga_back_schedule_mana.ItemOrder.{
  build_order_group_key, fetch_group_items, resolve_order_parent, same_parent_type,
  persist_group_positions, renumber, sync_item_order_for_schedule, run_with_retries,
}
use taiga_back_schedule_mana.Schedules.Upsert.{upsert_schedule}

abbrev pub Placed : Type 0
Placed = List ScheduleItemOrder × Orders

-- The row is one of a user story under the epic.
abbrev pub is_child_of : ℕ → ScheduleItemOrder → Bool
is_child_of epic_id r =
    same_type r.entity_type userstory
    && (same_parent_type r.parent_entity_type (some epic) && r.parent_entity_id == epic_id)

-- The loop over the ordered schedules.
unfoldable pub place_schedules :
    (Schedule → Option EntityType × ℕ) → ℕ → List Schedule → Orders → Result Placed
place_schedules parent epic_id [] o = ok ([], o)
place_schedules parent epic_id (s ∷ rest) o = do
  synced ← sync_item_order_for_schedule (parent s) s o
  placed ← place_schedules parent epic_id rest synced.1
  ok (if is_child_of epic_id synced.0 then synced.0 ∷ placed.0 else placed.0, placed.1)

-- `_sync_epic_userstories_schedule_item_order_for_epic`
unfoldable pub place_epic_userstories :
    (Schedule → Option EntityType × ℕ) → ℕ → ℕ → List Schedule → Orders → Result Placed
place_epic_userstories parent project_id epic_id ordered_schedules o = do
  placed ← place_schedules parent epic_id ordered_schedules o
  let ordered_items = placed.0
  let key = build_order_group_key project_id userstory (some epic) epic_id
  let ordered_ids = map (λ r. r.id) ordered_items
  let remaining = keep (λ r. not (contains r.id ordered_ids)) (fetch_group_items key placed.1.rows)
  let persist = do
    rows ← persist_group_positions (ordered_items ++ remaining) placed.1.rows
    ok (renumber 1 ordered_items, record placed.1 { rows = rows })
  if is_empty ordered_items then ok placed else persist

-- The loop that finds or creates the schedules.
unfoldable pub collect_schedules : ℕ → List ℕ → Database → Result (List Schedule × Database)
collect_schedules project_id [] db = ok ([], db)
collect_schedules project_id (userstory_id ∷ rest) db = do
  found ← elim (get_schedule userstory userstory_id db) [
    | some s ↦ ok (s, db)
    | none ↦ upsert_schedule userstory userstory_id project_id no_updates db
  ]
  others ← collect_schedules project_id rest found.1
  ok (found.0 ∷ others.0, others.1)

abbrev pub RowsResult : Type 0
RowsResult = Result (List ScheduleItemOrder × Database)

unfoldable pub settle_all : Database → Result Placed → RowsResult
settle_all db (ok (items, o)) = ok (items, record db { orders = o })
settle_all db (err integrity_error) = ok ([], db)
settle_all db (err e) = err e

unfoldable pub sync_epic_userstories_order_in_bulk : ℕ → Database → RowsResult
sync_epic_userstories_order_in_bulk epic_id db =
    if epic_id == 0 then ok ([], db) else elim (find_epic epic_id db) [
      | none ↦ ok ([], db)
      | some e ↦
          let relations = sort_by relation_before (keep (λ r. r.epic_id == epic_id) db.relations) in
          do
            found ← collect_schedules e.project_id (map (λ r. r.user_story_id) relations) db
            let parent = λ (s : Schedule). resolve_order_parent s.entity_type s.entity_id found.1
            let place = place_epic_userstories parent e.project_id epic_id found.0 found.1.orders
            if is_empty found.0
                then ok ([], found.1)
                else settle_all found.1 (run_with_retries (λ _. place))
    ]
