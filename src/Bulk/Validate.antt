-- ===== src/Bulk/Validate.antt =====
-- `_build_schedule_validation_obj` and `_validate_schedule_bulk_updates`.
use taiga_back_schedule_mana.Base.{ℕ, ◌&&◌, Option, none, some, List, [], ◌∷◌, ◌==◌, first}
use taiga_back_schedule_mana.Model.{
  Date, EntityType, epic, userstory, task, same_type, Schedule, Database, get_schedule, Message,
  Result, ok, err, value_error, schedule_not_found, ◌>>=◌, ◌>>◌,
}
use taiga_back_schedule_mana.Dates.{
  Proposal, get_userstory_bounds_violation_error, get_epic_bounds_violation_error,
  get_dependency_start_violation_error, get_ancestor_dependency_start_violation_error,
}
use taiga_back_schedule_mana.Bulk.Request.{Update}
use taiga_back_schedule_mana.Bulk.Lock.{Locked}

abbrev locked_due : EntityType → ℕ → List Locked → Option Date
locked_due entity_type entity_id locked =
    elim (first (λ l. same_type l.entity_type entity_type && l.entity_id == entity_id) locked) [
      | none ↦ none
      | some l ↦ l.due_date
    ]

abbrev object_due : EntityType → ℕ → Schedule → List Locked → Option Date
object_due epic entity_id s locked = s.due_date
object_due userstory entity_id s locked = locked_due userstory entity_id locked
object_due task entity_id s locked = locked_due task entity_id locked

-- The namespace has no `user_story_id` and no `user_story`.
unfoldable pub build_schedule_validation_obj :
    EntityType → ℕ → List Locked → Database → Result Proposal
build_schedule_validation_obj entity_type entity_id locked db =
    elim (get_schedule entity_type entity_id db) [
      | none ↦ err (value_error schedule_not_found)
      | some s ↦ ok (record {
        id = some entity_id;
        actual_start = some s.actual_start;
        estimated_start = some s.estimated_start;
        due_date = some (object_due entity_type entity_id s locked);
        user_story_id = none;
        user_story = none;
      })
    ]

-- `if error: raise ValueError(error)`
abbrev pub refuse : Option Message → Result (Unit {0})
refuse none = ok tt
refuse (some m) = err (value_error m)

unfoldable pub validate_object : EntityType → Proposal → Database → Result (Unit {0})
validate_object task obj db = do
  refuse (get_dependency_start_violation_error obj task db)
  violation ← get_ancestor_dependency_start_violation_error obj task db
  refuse violation
validate_object userstory obj db = do
  refuse (get_userstory_bounds_violation_error obj db)
  refuse (get_dependency_start_violation_error obj userstory db)
  violation ← get_ancestor_dependency_start_violation_error obj userstory db
  refuse violation
validate_object epic obj db = do
  refuse (get_epic_bounds_violation_error obj db)
  refuse (get_dependency_start_violation_error obj epic db)

unfoldable pub validate_schedule_bulk_updates :
    List Update → List Locked → Database → Result (Unit {0})
validate_schedule_bulk_updates [] locked db = ok tt
validate_schedule_bulk_updates (u ∷ rest) locked db = do
  obj ← build_schedule_validation_obj u.entity_type u.entity_id locked db
  validate_object u.entity_type obj db
  validate_schedule_bulk_updates rest locked db
