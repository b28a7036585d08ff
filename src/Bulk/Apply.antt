-- ===== src/Bulk/Apply.antt =====
-- `_apply_schedule_bulk_updates` and `_sync_schedule_bulk_side_effects`.
use taiga_back_schedule_mana.Base.{
  ℕ, Bool, ◌&&◌, Option, none, some, List, [], ◌∷◌, ◌==◌, any_of, update_where, if◌then◌else◌,
}
use taiga_back_schedule_mana.Model.{
  Date, EntityType, epic, userstory, task, same_type, Database, Result, ok, ◌>>=◌,
}
use taiga_back_schedule_mana.Dates.{Updates, no_updates}
use taiga_back_schedule_mana.Schedules.{upsert_schedule}
use taiga_back_schedule_mana.Propagation.{
  Propagate, propagate_of, ensure_userstory_and_epic_bounds_from_task,
  ensure_epic_bounds_for_userstory,
}
use taiga_back_schedule_mana.Bulk.Request.{
  Update, StartField, estimated_start_field, actual_start_field,
}
use taiga_back_schedule_mana.Bulk.Lock.{Locked}

-- `schedule_data`
unfoldable pub schedule_data : StartField → Option (Option Date) → Option (Option Date) → Updates
schedule_data estimated_start_field start due = record no_updates {
  due_date = due;
  estimated_start = start;
}
schedule_data actual_start_field start due = record no_updates {
  due_date = due;
  actual_start = start;
}

-- `model.objects.filter(project_id=project_id, id=entity_id).update(due_date=due_value)`, for the
-- two types that have the field.
unfoldable pub update_due_in_project : ℕ → EntityType → ℕ → Option Date → Database → Database
update_due_in_project project_id epic entity_id due db = db
update_due_in_project project_id userstory entity_id due db = record db {
  userstories =
      update_where (λ us. us.id == entity_id && us.project_id == project_id)
        (λ us. record us { due_date = due }) db.userstories;
}
update_due_in_project project_id task entity_id due db = record db {
  tasks =
      update_where (λ t. t.id == entity_id && t.project_id == project_id)
        (λ t. record t { due_date = due }) db.tasks;
}

abbrev is_locked : EntityType → ℕ → Locked → Bool
is_locked entity_type entity_id l = same_type l.entity_type entity_type && l.entity_id == entity_id

-- `entity.due_date = due_value` on the locked object.
abbrev set_locked_due : EntityType → ℕ → Option Date → List Locked → List Locked
set_locked_due epic entity_id due locked = locked
set_locked_due userstory entity_id due locked =
    update_where (is_locked userstory entity_id) (λ l. record l { due_date = due }) locked
set_locked_due task entity_id due locked =
    update_where (is_locked task entity_id) (λ l. record l { due_date = due }) locked

abbrev pub Applied : Type 0
Applied = List Locked × Database

abbrev write_due : ℕ → Update → Option (Option Date) → Applied → Applied
write_due project_id u none a = a
write_due project_id u (some due) (locked, db) = (
  set_locked_due u.entity_type u.entity_id due locked,
  update_due_in_project project_id u.entity_type u.entity_id due db,
)

unfoldable pub apply_schedule_bulk_updates :
    ℕ → List Update → List Locked → Database → Result Applied
apply_schedule_bulk_updates project_id [] locked db = ok (locked, db)
apply_schedule_bulk_updates project_id (u ∷ rest) locked db = do
  row ←
      upsert_schedule u.entity_type u.entity_id project_id
        (schedule_data u.start_field u.start u.due) db
  let written = write_due project_id u u.due (locked, row.1)
  apply_schedule_bulk_updates project_id rest written.0 written.1

abbrev pub Key : Type 0
Key = EntityType × ℕ

abbrev pub same_entity_key : Key → Key → Bool
same_entity_key (t, i) (t', i') = same_type t t' && i == i'

-- `deduplicated_entities`, behind those that are in `seen`.
unfoldable pub deduplicated : List Key → List Update → List Key
deduplicated seen [] = []
deduplicated seen (u ∷ rest) =
    let key : Key = (u.entity_type, u.entity_id) in
    let again = deduplicated seen rest in
    let new = deduplicated (key ∷ seen) rest in
    if any_of (same_entity_key key) seen then again else key ∷ new

module _ (propagate : Propagate) where
  unfoldable pub ensure_ancestors_of : EntityType → ℕ → Database → Result Database
  ensure_ancestors_of task entity_id db =
      ensure_userstory_and_epic_bounds_from_task propagate entity_id none db
  ensure_ancestors_of userstory entity_id db =
      ensure_epic_bounds_for_userstory propagate entity_id db
  ensure_ancestors_of epic entity_id db = ok db

  unfoldable pub ensure_all : List Key → Database → Result Database
  ensure_all [] db = ok db
  ensure_all ((entity_type, entity_id) ∷ rest) db = do
    db' ← ensure_ancestors_of entity_type entity_id db
    ensure_all rest db'

  unfoldable pub propagate_all : List Key → Database → Result Database
  propagate_all [] db = ok db
  propagate_all ((entity_type, entity_id) ∷ rest) db = do
    db' ← propagate_of propagate entity_type entity_id db
    propagate_all rest db'

  unfoldable pub sync_schedule_bulk_side_effects : List Update → Database → Result Database
  sync_schedule_bulk_side_effects updates db = do
    db' ← ensure_all (deduplicated [] updates) db
    propagate_all (deduplicated [] updates) db'
