-- ===== src/Signals.antt =====
-- The signal handlers of taiga/projects/schedule/signals.py: what follows when an item is saved or
-- deleted, or when the relation between epics and user stories changes.
use taiga_back_schedule_mana.Base.{
  ℕ, String, Option, none, some, List, [], ◌∷◌, ◌==◌, if◌then◌else◌,
}
use taiga_back_schedule_mana.Model.{
  Date, EntityType, epic, userstory, task, Database, Result, ok, ◌>>=◌,
}
use taiga_back_schedule_mana.Dates.{Updates}
use taiga_back_schedule_mana.Schedules.{
  upsert_schedule, delete_schedule, sync_schedule_item_order, sync_epic_userstories_order_in_bulk,
}
use taiga_back_schedule_mana.Colors.{
  get_primary_epic_color_for_userstory, sync_userstory_and_tasks_schedule_color,
  sync_epic_related_schedule_colors,
}
use taiga_back_schedule_mana.Propagation.{
  Propagate, propagate_of, ensure_userstory_and_epic_bounds_from_task,
  ensure_epic_bounds_for_userstory,
}

-- The saved instance. An attribute that it lacks is `none`; its `user_story_id` may be None.
pub record Instance : Type 0 where
  pub id : ℕ
  pub project_id : ℕ
  pub created_date : Option Date
  pub due_date : Option (Option Date)
  pub estimated_start : Option (Option Date)
  pub actual_start : Option (Option Date)
  pub color : Option (Option String)
  pub user_story_id : Option ℕ

-- `data`, but for the color.
abbrev saved_data : Instance → Option (Option String) → Updates
saved_data i color = record {
  project_id = none;
  created_date = some i.created_date;
  due_date = i.due_date;
  estimated_start = i.estimated_start;
  actual_start = i.actual_start;
  color = color;
}

-- The inherited color, or else the attribute.
abbrev color_or_own : Option String → Option (Option String) → Option (Option String)
color_or_own none own = own
color_or_own (some inherited) own = some (some inherited)

abbrev task_color : Instance → Database → Option String
task_color i db = elim i.user_story_id [
  | none ↦ none
  | some us ↦ if us == 0 then none else get_primary_epic_color_for_userstory us db
]

-- `getattr(instance, "color", None)`
abbrev color_or_none : Option (Option String) → Option (Option String)
color_or_none none = some none
color_or_none (some color) = some color

module _ (propagate : Propagate) where
  unfoldable pub task_post_save : Instance → Database → Result Database
  task_post_save i db = do
    row ←
        upsert_schedule task i.id i.project_id
          (saved_data i (color_or_own (task_color i db) i.color)) db
    db' ← ensure_userstory_and_epic_bounds_from_task propagate i.id i.user_story_id row.1
    propagate_of propagate task i.id db'

  unfoldable pub userstory_post_save : Instance → Database → Result Database
  userstory_post_save i db = do
    row ←
        upsert_schedule userstory i.id i.project_id
          (saved_data i (color_or_own (get_primary_epic_color_for_userstory i.id db) i.color)) db
    db' ← ensure_epic_bounds_for_userstory propagate i.id row.1
    propagate_of propagate userstory i.id db'

  unfoldable pub epic_post_save : Instance → Database → Result Database
  epic_post_save i db = do
    row ← upsert_schedule epic i.id i.project_id (saved_data i (color_or_none i.color)) db
    db' ← sync_epic_related_schedule_colors i.id row.1
    propagate_of propagate epic i.id db'

  -- The handlers for a saved and for a deleted `RelatedUserStory` have this one body.
  unfoldable pub related_userstory_changed : ℕ → Database → Result Database
  related_userstory_changed userstory_id db = do
    synced ← sync_schedule_item_order userstory userstory_id db
    db' ← sync_userstory_and_tasks_schedule_color userstory_id synced.1
    ensure_epic_bounds_for_userstory propagate userstory_id db'

  unfoldable pub userstories_changed : List ℕ → Database → Result Database
  userstories_changed [] db = ok db
  userstories_changed (userstory_id ∷ rest) db = do
    db' ← sync_userstory_and_tasks_schedule_color userstory_id db
    db'' ← ensure_epic_bounds_for_userstory propagate userstory_id db'
    userstories_changed rest db''

  unfoldable pub related_userstories_bulk_changed : ℕ → List ℕ → Database → Result Database
  related_userstories_bulk_changed epic_id userstory_ids db = do
    ordered ← sync_epic_userstories_order_in_bulk epic_id db
    userstories_changed userstory_ids ordered.1

-- `_task_post_delete`, `_userstory_post_delete` and `_epic_post_delete`
unfoldable pub post_delete : EntityType → ℕ → Database → Result Database
post_delete entity_type entity_id db = delete_schedule entity_type entity_id db
