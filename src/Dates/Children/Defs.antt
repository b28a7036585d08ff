-- ===== src/Dates/Children/Defs.antt =====
-- `_get_task_children_bounds`, `_get_userstory_children_bounds` and the two checks on them.
use taiga_back_schedule_mana.Base.{
  ℕ, Bool, false, ◌&&◌, Option, none, some, List, [], ◌∷◌, map, ltb, ◌==◌, first, keep, contains,
  if◌then◌else◌,
}
use taiga_back_schedule_mana.Model.{
  Date, EntityType, epic, userstory, task, Schedule, Task, Database, same_type, Message,
  earlier_than_internal_item, userstory_start_after_task, epic_start_after_userstory,
}
use taiga_back_schedule_mana.Dates.Effective.{
  Proposal, get_effective_start, get_due_from_schedule_or_fallback, get_proposed_bounds_for_entity,
}

-- `_get_schedule_map`: the schedules of the listed entities, looked up by entity.
unfoldable pub get_schedule_map : EntityType → List ℕ → Database → List Schedule
get_schedule_map entity_type entity_ids db =
    keep (λ s. same_type s.entity_type entity_type && contains s.entity_id entity_ids) db.schedules

abbrev pub map_get : ℕ → List Schedule → Option Schedule
map_get entity_id schedule_map = first (λ s. s.entity_id == entity_id) schedule_map

-- `start is not None and (min_start is None or start < min_start)`
unfoldable pub earliest : Option Date → Option Date → Option Date
earliest none min_start = min_start
earliest (some start) none = some start
earliest (some start) (some m) = if ltb start m then some start else some m

-- `due is not None and (max_due is None or due > max_due)`
unfoldable pub latest : Option Date → Option Date → Option Date
latest none max_due = max_due
latest (some due) none = some due
latest (some due) (some m) = if ltb m due then some due else some m

-- The dates of a child: its effective start and its due date.
abbrev pub Dates : Type 0
Dates = Option Date × Option Date

-- The `for` loop over the children.
unfoldable pub children_bounds : List Dates → Dates → Dates
unfolding earliest latest
children_bounds [] bounds = bounds
children_bounds ((start, due) ∷ rest) (min_start, max_due) =
    children_bounds rest (earliest start min_start, latest due max_due)

abbrev child_dates : List Schedule → ℕ → Option Date → Dates
child_dates schedule_map entity_id due_date =
    let s = map_get entity_id schedule_map in
    (get_effective_start s, get_due_from_schedule_or_fallback s due_date)

abbrev pub is_task_of : ℕ → Task → Bool
is_task_of userstory_id t = elim t.user_story_id [ none ↦ false | some us ↦ us == userstory_id ]

-- The dates of the tasks of a user story.
unfoldable pub task_dates : ℕ → Database → List Dates
task_dates userstory_id db =
    let tasks = keep (is_task_of userstory_id) db.tasks in
    let schedule_map = get_schedule_map task (map (λ t. t.id) tasks) db in
    map (λ t. child_dates schedule_map t.id t.due_date) tasks

unfoldable pub get_task_children_bounds : ℕ → Database → Dates
get_task_children_bounds userstory_id db =
    if userstory_id == 0
    then (none, none)
    else children_bounds (task_dates userstory_id db) (none, none)

-- The dates of the user stories that are related to an epic.
unfoldable pub userstory_dates : ℕ → Database → List Dates
userstory_dates epic_id db =
    let userstory_ids =
      map (λ r. r.user_story_id) (keep (λ r. r.epic_id == epic_id) db.relations) in
    let userstories = keep (λ us. contains us.id userstory_ids) db.userstories in
    let schedule_map = get_schedule_map userstory userstory_ids db in
    map (λ us. child_dates schedule_map us.id us.due_date) userstories

unfoldable pub get_userstory_children_bounds : ℕ → Database → Dates
get_userstory_children_bounds epic_id db =
    if epic_id == 0 then (none, none) else children_bounds (userstory_dates epic_id db) (none, none)

-- `parent_due is not None and max_child_due is not None and max_child_due > parent_due`
abbrev pub ends_before : Option Date → Option Date → Bool
ends_before none child = false
ends_before (some parent) none = false
ends_before (some parent) (some child) = ltb parent child

-- `parent_start is not None and min_child_start is not None and min_child_start < parent_start`
abbrev pub starts_after : Option Date → Option Date → Bool
starts_after none child = false
starts_after (some parent) none = false
starts_after (some parent) (some child) = ltb child parent

-- The two tests at the end of both checks, with the message for the start.
abbrev pub bounds_error : Message → Dates → Dates → Option Message
bounds_error start_message (parent_start, parent_due) (min_child_start, max_child_due) =
    if ends_before parent_due max_child_due
    then some earlier_than_internal_item
    else if starts_after parent_start min_child_start
    then some start_message
    else none

unfoldable pub get_userstory_bounds_violation_error : Proposal → Database → Option Message
get_userstory_bounds_violation_error obj db = elim obj.id [
  | none ↦ none
  | some i ↦
      if i == 0
      then none
      else bounds_error userstory_start_after_task (get_proposed_bounds_for_entity obj userstory db)
          (get_task_children_bounds i db)
]

unfoldable pub get_epic_bounds_violation_error : Proposal → Database → Option Message
get_epic_bounds_violation_error obj db = elim obj.id [
  | none ↦ none
  | some i ↦
      if i == 0
      then none
      else bounds_error epic_start_after_userstory (get_proposed_bounds_for_entity obj epic db)
          (get_userstory_children_bounds i db)
]
