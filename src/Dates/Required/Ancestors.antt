-- ===== src/Dates/Required/Ancestors.antt =====
-- `get_ancestor_dependency_start_violation_error`: would a date that widens a parent, or the parent's
-- parent, start it too early for its own incoming dependencies?
use taiga_back_schedule_mana.Base.{ℕ, Option, none, some, ltb, ◌==◌, if◌then◌else◌}
use taiga_back_schedule_mana.Model.{
  Date, EntityType, epic, userstory, task, Database, get_schedule, get_primary_epic_relation,
  Message, Result, ok, ◌>>=◌,
}
use taiga_back_schedule_mana.Dates.Effective.{
  Proposal, no_id, get_effective_start, get_proposed_bounds_for_entity,
  get_task_parent_userstory_id,
}
use taiga_back_schedule_mana.Dates.Required.Defs.{get_dependency_violation_for_candidate_start}

-- `_expand_parent_start`
unfoldable pub expand_parent_start : Option Date → Option Date → Option Date
expand_parent_start current none = current
expand_parent_start none (some child_start) = some child_start
expand_parent_start (some current) (some child_start) =
    if ltb child_start current then some child_start else some current

-- `_get_epic_dependency_violation_for_userstory_candidate_start`
unfoldable pub get_epic_dependency_violation : ℕ → Option Date → Database → Result (Option Message)
get_epic_dependency_violation userstory_id none db = ok none
get_epic_dependency_violation userstory_id (some candidate) db =
    if userstory_id == 0 then ok none else elim (get_primary_epic_relation userstory_id db) [
      | none ↦ ok none
      | some relation ↦
          let epic_schedule = get_schedule epic relation.epic_id db in
          get_dependency_violation_for_candidate_start epic_schedule
            (expand_parent_start (get_effective_start epic_schedule) (some candidate)) db
    ]

-- The branch for a task whose user story is known.
unfoldable pub task_ancestor_violation : ℕ → Date → Database → Result (Option Message)
task_ancestor_violation userstory_id proposed_start db =
    let userstory_schedule = get_schedule userstory userstory_id db in
    let candidate =
      expand_parent_start (get_effective_start userstory_schedule) (some proposed_start) in
    get_dependency_violation_for_candidate_start userstory_schedule candidate db >>= λ violation.
    elim violation [
      | some found ↦ ok (some found)
      | none ↦ get_epic_dependency_violation userstory_id candidate db
    ]

unfoldable pub ancestor_violation :
    EntityType → Proposal → ℕ → Date → Database → Result (Option Message)
ancestor_violation task obj i proposed_start db =
    if no_id (get_task_parent_userstory_id obj)
    then ok none
    else elim (get_task_parent_userstory_id obj) [
      | none ↦ ok none
      | some userstory_id ↦ task_ancestor_violation userstory_id proposed_start db
    ]
ancestor_violation userstory obj i proposed_start db =
    get_epic_dependency_violation i (some proposed_start) db
ancestor_violation epic obj i proposed_start db = ok none

unfoldable pub get_ancestor_dependency_start_violation_error :
    Proposal → EntityType → Database → Result (Option Message)
get_ancestor_dependency_start_violation_error obj entity_type db = elim obj.id [
  | none ↦ ok none
  | some i ↦
      if i == 0 then ok none else elim (get_proposed_bounds_for_entity obj entity_type db).0 [
        | none ↦ ok none
        | some proposed_start ↦ ancestor_violation entity_type obj i proposed_start db
      ]
]
