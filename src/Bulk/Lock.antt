-- ===== src/Bulk/Lock.antt =====
-- `_lock_schedule_bulk_entities`: the entities of the request, as rows of the project.
use taiga_back_schedule_mana.Base.{ℕ, ◌&&◌, Option, none, some, List, [], ◌∷◌, ◌==◌, first}
use taiga_back_schedule_mana.Model.{
  Date, EntityType, epic, userstory, task, Database, Result, ok, err, value_error,
  entities_not_in_project, ◌>>=◌,
}
use taiga_back_schedule_mana.Bulk.Request.{Update}

-- A locked entity: its key, and its attribute `due_date` (an epic has none).
pub record Locked : Type 0 where
  pub entity_type : EntityType
  pub entity_id : ℕ
  pub due_date : Option Date

-- `model.objects.filter(project_id=project_id, id=entity_id)`
unfoldable pub find_in_project : ℕ → EntityType → ℕ → Database → Option Locked
find_in_project project_id epic entity_id db =
    elim (first (λ e. e.id == entity_id && e.project_id == project_id) db.epics) [
      | none ↦ none
      | some e ↦ some (record { entity_type = epic; entity_id = entity_id; due_date = none })
    ]
find_in_project project_id userstory entity_id db =
    elim (first (λ us. us.id == entity_id && us.project_id == project_id) db.userstories) [
      | none ↦ none
      | some us ↦
          some (record { entity_type = userstory; entity_id = entity_id; due_date = us.due_date })
    ]
find_in_project project_id task entity_id db =
    elim (first (λ t. t.id == entity_id && t.project_id == project_id) db.tasks) [
      | none ↦ none
      | some t ↦ some (record { entity_type = task; entity_id = entity_id; due_date = t.due_date })
    ]

-- The entities of the updates in turn. The updates come sorted by type and id, so this is the order
-- in which the source locks the rows, a type at a time.
unfoldable pub lock_schedule_bulk_entities : ℕ → List Update → Database → Result (List Locked)
lock_schedule_bulk_entities project_id [] db = ok []
lock_schedule_bulk_entities project_id (u ∷ rest) db =
    elim (find_in_project project_id u.entity_type u.entity_id db) [
      | none ↦ err (value_error entities_not_in_project)
      | some l ↦ do others ← lock_schedule_bulk_entities project_id rest db; ok (l ∷ others)
    ]
