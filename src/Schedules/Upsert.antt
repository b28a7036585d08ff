-- ===== src/Schedules/Upsert.antt =====
-- `upsert_schedule`, and the due dates that the items themselves hold.
use taiga_back_schedule_mana.Base.{
  ℕ, ◌+◌, Option, none, some, [], ◌∷◌, ◌++◌, ◌==◌, update_where, if◌then◌else◌,
}
use taiga_back_schedule_mana.Model.{
  Date, EntityType, epic, userstory, task, Schedule, Database, get_schedule, find_task,
  find_userstory, Result, ok, err, field_does_not_exist, ◌>>=◌,
}
use taiga_back_schedule_mana.Dates.{Updates, has_updates, apply_updates}
use taiga_back_schedule_mana.Schedules.Sync.{sync_schedule_item_order}

abbrev pub blank_schedule : ℕ → EntityType → ℕ → ℕ → Schedule
blank_schedule i entity_type entity_id project_id = record {
  id = i;
  entity_type = entity_type;
  entity_id = entity_id;
  project_id = project_id;
  created_date = none;
  due_date = none;
  estimated_start = none;
  actual_start = none;
  color = none;
}

-- `Schedule.objects.get_or_create`
unfoldable pub get_or_create : EntityType → ℕ → ℕ → Database → Schedule × Database
get_or_create entity_type entity_id project_id db = elim (get_schedule entity_type entity_id db) [
  | some s ↦ (s, db)
  | none ↦
      let s = blank_schedule db.next_schedule_id entity_type entity_id project_id in
      (
        s,
        record db {
          schedules = db.schedules ++ s ∷ [];
          next_schedule_id = db.next_schedule_id + 1;
        },
      )
]

-- `Schedule.objects.filter(id=schedule_id).update(**updates)`
unfoldable pub update_schedule_row : ℕ → Updates → Database → Database
update_schedule_row schedule_id updates db = record db {
  schedules = update_where (λ s. s.id == schedule_id) (apply_updates updates) db.schedules;
}

-- The row after the call, before its place in the order is set.
unfoldable pub upsert_row : EntityType → ℕ → ℕ → Updates → Database → Schedule × Database
upsert_row entity_type entity_id project_id given db =
    let (obj, db') = get_or_create entity_type entity_id project_id db in
    let updates = record given {
      project_id = if obj.project_id == project_id then none else some project_id;
    } in
    if has_updates updates
    then (apply_updates updates obj, update_schedule_row obj.id updates db')
    else (obj, db')

-- `given` holds the keyword arguments.
unfoldable pub upsert_schedule :
    EntityType → ℕ → ℕ → Updates → Database → Result (Schedule × Database)
upsert_schedule entity_type entity_id project_id given db =
    let (obj, db') = upsert_row entity_type entity_id project_id given db in
    do synced ← sync_schedule_item_order entity_type entity_id db'; ok (obj, synced.1)

abbrev due_of_schedule : Option Schedule → Option Date
due_of_schedule none = none
due_of_schedule (some s) = s.due_date

-- `get_due_date`
unfoldable pub get_due_date : EntityType → ℕ → Database → Option Date
get_due_date epic entity_id db = due_of_schedule (get_schedule epic entity_id db)
get_due_date userstory entity_id db = elim (find_userstory entity_id db) [
  | none ↦ none
  | some us ↦ us.due_date
]
get_due_date task entity_id db = elim (find_task entity_id db) [ none ↦ none | some t ↦ t.due_date ]

-- `_update_entity_due_date_for_schedule`. The model `Epic` has no field `due_date`, so for an epic
-- the query is refused with `FieldDoesNotExist`, which the handler does not name.
unfoldable pub update_entity_due_date : EntityType → ℕ → Option Date → Database → Result Database
update_entity_due_date epic entity_id due db =
    if entity_id == 0 then ok db else err field_does_not_exist
update_entity_due_date userstory entity_id due db =
    let userstories =
      update_where (λ us. us.id == entity_id) (λ us. record us { due_date = due }) db.userstories in
    ok (if entity_id == 0 then db else record db { userstories = userstories })
update_entity_due_date task entity_id due db =
    let tasks = update_where (λ t. t.id == entity_id) (λ t. record t { due_date = due }) db.tasks in
    ok (if entity_id == 0 then db else record db { tasks = tasks })
