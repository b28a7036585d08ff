-- ===== src/Propagation/Bounds.antt =====
-- The bounds of the ancestors, and the recursion between them and the chain of dependencies. Its
-- depth is bounded by Python's stack: `depth` is what is left of it, and `recursion_error` is the
-- exception where it ends.
use taiga_back_schedule_mana.Base.{ℕ, zero, suc, Option, none, some, ◌==◌, if◌then◌else◌}
use taiga_back_schedule_mana.Model.{
  Date, EntityType, epic, userstory, task, Schedule, Task, UserStory, Epic, Database, get_schedule,
  get_primary_epic_relation, find_task, find_userstory, find_epic, Result, ok, err, recursion_error,
  ◌>>=◌,
}
use taiga_back_schedule_mana.Dates.{
  get_effective_start, get_due_from_schedule_or_fallback, build_expand_bounds_updates,
}
use taiga_back_schedule_mana.Dates.{has_updates}
use taiga_back_schedule_mana.Schedules.{upsert_schedule, update_entity_due_date}
use taiga_back_schedule_mana.Propagation.Chain.{propagate_from}

-- `propagate_dependency_chain_forward_from_schedule`, as the callers below reach it.
abbrev pub Propagate : Type 0
Propagate = ℕ → Database → Result Database

module _ (propagate : Propagate) where
  -- `propagate_dependency_chain_forward`
  unfoldable pub propagate_of : EntityType → ℕ → Database → Result Database
  propagate_of entity_type entity_id db = elim (get_schedule entity_type entity_id db) [
    | none ↦ ok db
    | some s ↦ propagate s.id db
  ]

  -- `if "due_date" in updates: …`, on the row of the user story.
  abbrev pub write_due : ℕ → Option (Option Date) → Database → Result Database
  write_due userstory_id none db = ok db
  write_due userstory_id (some due) db = update_entity_due_date userstory userstory_id due db

  unfoldable pub expand_userstory_bounds :
      UserStory → Option Date → Option Date → Database → Result Database
  expand_userstory_bounds us candidate_start candidate_due db =
      let updates =
        build_expand_bounds_updates (get_schedule userstory us.id db) us.due_date candidate_start
          candidate_due in
      if has_updates updates
      then (do
        row ← upsert_schedule userstory us.id us.project_id updates db
        db' ← write_due us.id updates.due_date row.1
        propagate_of userstory us.id db')
      else ok db

  unfoldable pub expand_epic_bounds : Epic → Option Date → Option Date → Database → Result Database
  expand_epic_bounds e candidate_start candidate_due db =
      let updates =
        build_expand_bounds_updates (get_schedule epic e.id db) none candidate_start
          candidate_due in
      if has_updates updates
      then (do
        row ← upsert_schedule epic e.id e.project_id updates db
        propagate_of epic e.id row.1)
      else ok db

  abbrev pub epic_of : ℕ → Database → Option Epic
  epic_of userstory_id db = elim (get_primary_epic_relation userstory_id db) [
    | none ↦ none
    | some relation ↦ find_epic relation.epic_id db
  ]

  unfoldable pub ensure_epic_bounds_for_userstory : ℕ → Database → Result Database
  ensure_epic_bounds_for_userstory userstory_id db =
      if userstory_id == 0 then ok db else elim (find_userstory userstory_id db) [
        | none ↦ ok db
        | some us ↦ elim (epic_of us.id db) [
          | none ↦ ok db
          | some e ↦
              let s = get_schedule userstory us.id db in
              expand_epic_bounds e (get_effective_start s)
                (get_due_from_schedule_or_fallback s us.due_date) db
        ]
      ]

  -- The user story of a task, restricted by the optional argument of the caller.
  abbrev userstory_of_task : Option ℕ → Task → Option ℕ
  userstory_of_task none t = t.user_story_id
  userstory_of_task (some wanted) t = elim t.user_story_id [
    | none ↦ none
    | some us ↦ if us == wanted then some us else none
  ]

  abbrev pub parent_of_task : Option ℕ → Task → Database → Option UserStory
  parent_of_task wanted t db = elim (userstory_of_task wanted t) [
    | none ↦ none
    | some us ↦ if us == 0 then none else find_userstory us db
  ]

  unfoldable pub ensure_userstory_and_epic_bounds_from_task :
      ℕ → Option ℕ → Database → Result Database
  ensure_userstory_and_epic_bounds_from_task task_id wanted db =
      if task_id == 0 then ok db else elim (find_task task_id db) [
        | none ↦ ok db
        | some t ↦ elim (parent_of_task wanted t db) [
          | none ↦ ok db
          | some us ↦ do
            let s = get_schedule task t.id db
            db' ←
                expand_userstory_bounds us (get_effective_start s)
                  (get_due_from_schedule_or_fallback s t.due_date) db
            ensure_epic_bounds_for_userstory us.id db'
        ]
      ]

  -- `_ensure_ancestor_bounds_for_dependency_target`
  unfoldable pub ensure_by_type : EntityType → ℕ → Database → Result Database
  ensure_by_type task entity_id db = ensure_userstory_and_epic_bounds_from_task entity_id none db
  ensure_by_type userstory entity_id db = ensure_epic_bounds_for_userstory entity_id db
  ensure_by_type epic entity_id db = ok db

  unfoldable pub ensure_ancestor_bounds : Schedule → Database → Result Database
  ensure_ancestor_bounds s db =
      if s.entity_id == 0 then ok db else ensure_by_type s.entity_type s.entity_id db

-- `propagate_dependency_chain_forward_from_schedule`
unfoldable pub propagate_chain : ℕ → Propagate
propagate_chain zero schedule_id db = err recursion_error
propagate_chain (suc depth) schedule_id db =
    propagate_from (ensure_ancestor_bounds (propagate_chain depth)) schedule_id db
