-- ===== src/Colors.antt =====
-- The colors of the schedules, which a user story and its tasks take from the primary epic.
-- (taiga/projects/schedule/services.py)
use taiga_back_schedule_mana.Base.{
  ℕ, String, ◌&&◌, Option, none, some, or_else, List, [], ◌∷◌, ◌++◌, map, ◌==◌, keep, contains,
  update_where, if◌then◌else◌,
}
use taiga_back_schedule_mana.Model.{
  EntityType, epic, userstory, task, Schedule, Task, RelatedUserStory, Database, ContentType,
  tasks_task, userstories_userstory, epics_epic, get_primary_epic_relation, find_epic,
  find_userstory, Result, ok, err, value_error, invalid_color_project_id, ◌>>=◌,
}
use taiga_back_schedule_mana.Dates.{Updates, no_updates, is_task_of}
use taiga_back_schedule_mana.Schedules.{upsert_schedule}

-- `get_primary_epic_color_for_userstory`
unfoldable pub get_primary_epic_color_for_userstory : ℕ → Database → Option String
get_primary_epic_color_for_userstory userstory_id db =
    elim (get_primary_epic_relation userstory_id db) [
      | none ↦ none
      | some relation ↦ elim (find_epic relation.epic_id db) [ none ↦ none | some e ↦ some e.color ]
    ]

abbrev pub with_color : Option String → Updates
with_color color = record no_updates { color = some color }

-- The loop over the tasks.
unfoldable pub color_tasks : Option String → List Task → Database → Result Database
color_tasks color [] db = ok db
color_tasks color (t ∷ rest) db = do
  row ← upsert_schedule task t.id t.project_id (with_color color) db
  color_tasks color rest row.1

unfoldable pub sync_userstory_and_tasks_schedule_color : ℕ → Database → Result Database
sync_userstory_and_tasks_schedule_color userstory_id db =
    if userstory_id == 0 then ok db else elim (find_userstory userstory_id db) [
      | none ↦ ok db
      | some us ↦ do
        let color = get_primary_epic_color_for_userstory userstory_id db
        row ← upsert_schedule userstory us.id us.project_id (with_color color) db
        color_tasks color (keep (is_task_of us.id) row.1.tasks) row.1
    ]

unfoldable pub color_userstories : List ℕ → Database → Result Database
color_userstories [] db = ok db
color_userstories (userstory_id ∷ rest) db = do
  db' ← sync_userstory_and_tasks_schedule_color userstory_id db
  color_userstories rest db'

-- `.distinct()`
unfoldable pub distinct : List ℕ → List ℕ
distinct [] = []
distinct (i ∷ ids) = let rest = distinct ids in if contains i rest then rest else i ∷ rest

unfoldable pub sync_epic_related_schedule_colors : ℕ → Database → Result Database
sync_epic_related_schedule_colors epic_id db =
    if epic_id == 0
    then ok db
    else let related = keep (λ (r : RelatedUserStory). r.epic_id == epic_id) db.relations in
      color_userstories (distinct (map (λ r. r.user_story_id) related)) db

abbrev emit : ContentType → ℕ → ℕ → Database → Database
emit content_type entity_id project_id db = record db {
  events =
      db.events
      ++ record { ids = entity_id ∷ []; content_type = content_type; projectid = project_id } ∷ [];
}

abbrev recolor_epic : ℕ → ℕ → String → Database → Database
recolor_epic entity_id project_id color db = record db {
  epics =
      update_where (λ e. e.id == entity_id && e.project_id == project_id)
        (λ e. record e { color = color }) db.epics;
}

-- The user story of a task of the project, if it has one.
abbrev story_of_task : ℕ → ℕ → Database → Option ℕ
story_of_task entity_id project_id db =
    elim (keep (λ t. t.id == entity_id && t.project_id == project_id) db.tasks) [
      | [] ↦ none
      | t ∷ rest ↦ t.user_story_id
    ]

abbrev inherited_color : Option ℕ → Database → Option String
inherited_color none db = none
inherited_color (some us) db = if us == 0 then none else get_primary_epic_color_for_userstory us db

-- The three branches of `update_schedule_color`.
unfoldable pub color_entity : EntityType → ℕ → ℕ → String → Database → Result (Schedule × Database)
color_entity epic entity_id project_id color db = do
  row ←
      upsert_schedule epic entity_id project_id (with_color (some color))
        (recolor_epic entity_id project_id color db)
  db' ← sync_epic_related_schedule_colors entity_id row.1
  ok (row.0, emit epics_epic entity_id project_id db')
color_entity userstory entity_id project_id color db = do
  row ←
      upsert_schedule userstory entity_id project_id
        (with_color (or_else (get_primary_epic_color_for_userstory entity_id db) (some color))) db
  ok (row.0, emit userstories_userstory entity_id project_id row.1)
color_entity task entity_id project_id color db = do
  row ←
      upsert_schedule task entity_id project_id
        (with_color
          (or_else (inherited_color (story_of_task entity_id project_id db) db) (some color)))
        db
  ok (row.0, emit tasks_task entity_id project_id row.1)

-- `project_id` is the outcome of `int(project_id)`, for the ids that a project can have.
unfoldable pub update_schedule_color :
    EntityType → ℕ → Option ℕ → String → Database → Result (Schedule × Database)
update_schedule_color entity_type entity_id none color db =
    err (value_error invalid_color_project_id)
update_schedule_color entity_type entity_id (some project_id) color db =
    color_entity entity_type entity_id project_id color db
