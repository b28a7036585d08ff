-- ===== src/Api/Items.antt =====
-- `ScheduleItemViewSet.update_item`.
use taiga_back_schedule_mana.Base.{
  ℕ, pos, ◌≡◌, refl, String, Bool, ◌||◌, not, Option, none, some, is_some, List, [], ◌∷◌, ◌++◌, map,
}
use taiga_back_schedule_mana.Model.{
  Date, EntityType, epic, userstory, task, Schedule, Database, get_schedule, Error, Result, err, ok,
  wrong_arguments, entity_not_in_project, raise_if,
}
use taiga_back_schedule_mana.Dates.{no_updates}
use taiga_back_schedule_mana.Schedules.{upsert_schedule, set_schedule_item_order_position}
use taiga_back_schedule_mana.Colors.{update_schedule_color}
use taiga_back_schedule_mana.Bulk.{
  RawUpdate, object, RawFields, find_in_project, apply_schedule_dates_in_bulk,
}
use taiga_back_schedule_mana.Api.Access.{Account, check_item_access}
use taiga_back_schedule_mana.Api.Links.{as_wrong_arguments}

-- What `ScheduleItemUpdateValidator` passes on; a key that is absent is `none`.
pub record ItemUpdate : Type 0 where
  pub project : ℕ
  pub entity_type : EntityType
  pub entity_id : ℕ
  pub position : Option ℕ
  pub color : Option String
  pub due_date : Option (Option Date)
  pub estimated_start : Option (Option Date)
  pub actual_start : Option (Option Date)

abbrev pub has_dates : ItemUpdate → Bool
has_dates d = is_some d.due_date || (is_some d.estimated_start || is_some d.actual_start)

abbrev pub type_name : EntityType → String
type_name epic = "epic"
type_name userstory = "userstory"
type_name task = "task"

-- An update with a start, if one is given.
abbrev start_update : ItemUpdate → String → Option (Option Date) → List RawFields
start_update d start_field none = []
start_update d start_field (some start) =
    record {
      entity_type = some (type_name d.entity_type);
      entity_id = some (pos d.entity_id);
      start_field = some start_field;
      start = some start;
      due = none;
    }
    ∷ []

-- The due date goes with the first update, or makes one of its own.
abbrev with_due : ItemUpdate → Option (Option Date) → List RawFields → List RawFields
with_due d none updates = updates
with_due d (some due) (u ∷ updates) = record u { due = some due } ∷ updates
with_due d (some due) [] =
    record {
      entity_type = some (type_name d.entity_type);
      entity_id = some (pos d.entity_id);
      start_field = none;
      start = none;
      due = some due;
    }
    ∷ []

unfoldable pub build_schedule_date_updates : ItemUpdate → List RawUpdate
build_schedule_date_updates d = map object (
    with_due d d.due_date (
      start_update d "estimated_start" d.estimated_start
      ++ start_update d "actual_start" d.actual_start))

-- What a request ends in. The steps of the request commit one by one, so an error leaves the tables of the
-- steps before it. What the step that raises has itself written outside a transaction is left out.
pub data Outcome (A : Type 0) : Type 0 where
  failed : Error → Database → Outcome A
  done : A → Database → Outcome A

module _ {A B : Type 0} where
  -- A call on the tables `db`, and what follows if it returns.
  abbrev pub run : Result A → Database → (A → Outcome B) → Outcome B
  run (err raised) db next = failed raised db
  run (ok value) db next = next value

  abbrev pub then_on : Outcome A → (Database → Outcome B) → Outcome B
  then_on (failed raised db) next = failed raised db
  then_on (done value db) next = next db

  pub run-eq-done :
      (call : Result A) (db : Database) (next : A → Outcome B) {b : B} {db' : Database}
      → run call db next ≡ done b db'
      → (value : A) × (call ≡ ok value) × (next value ≡ done b db')
  run-eq-done (err raised) db next returns = cc
  run-eq-done (ok value) db next returns = (value, refl, returns)

-- Each update is a bulk request of its own, in a transaction of its own.
unfoldable pub apply_date_updates : ℕ → ℕ → List RawUpdate → Database → Outcome (Unit {0})
apply_date_updates depth project_id [] db = done tt db
apply_date_updates depth project_id (u ∷ updates) db =
    run
      (as_wrong_arguments (apply_schedule_dates_in_bulk depth (some (pos project_id)) (u ∷ []) db))
      db (λ applied. apply_date_updates depth project_id updates applied.1)

abbrev pub recolor : ItemUpdate → Option String → Database → Outcome (Unit {0})
recolor d none db = done tt db
recolor d (some color) db =
    run
      (as_wrong_arguments
        (update_schedule_color d.entity_type d.entity_id (some d.project) color db))
      db (λ colored. done tt colored.1)

abbrev pub reposition : ItemUpdate → Option ℕ → Database → Outcome (Unit {0})
reposition d none db = done tt db
reposition d (some position) db =
    run (upsert_schedule d.entity_type d.entity_id d.project no_updates db) db (λ row.
      run (set_schedule_item_order_position d.entity_type d.entity_id (some (pos position)) row.1)
        row.1 (λ placed. done tt placed.1))

-- `_update_schedule_item_from_data`; the response is the schedule of the entity, if it has one.
unfoldable pub update_schedule_item_from_data :
    ℕ → Account → ItemUpdate → Database → Outcome (Option Schedule)
update_schedule_item_from_data depth account d db =
    run
      (check_item_access account (some d.project) (has_dates d) (is_some d.color)
        (is_some d.position))
      db
      (λ project.
        run
          (raise_if (not (is_some (find_in_project d.project d.entity_type d.entity_id db)))
            (wrong_arguments entity_not_in_project))
          db
          (λ found.
            then_on (apply_date_updates depth d.project (build_schedule_date_updates d) db)
              (λ dated. then_on (recolor d d.color dated) (λ colored.
                then_on (reposition d d.position colored)
                  (λ placed. done (get_schedule d.entity_type d.entity_id placed) placed)))))
