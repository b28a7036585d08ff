-- ===== src/Bulk/Emit.antt =====
-- `_emit_schedule_bulk_change_events`.
use taiga_back_schedule_mana.Base.{ℕ, List, [], ◌∷◌, ◌++◌, ltb, ◌==◌, keep, if◌then◌else◌}
use taiga_back_schedule_mana.Model.{
  EntityType, epic, userstory, task, same_type, ContentType, tasks_task, userstories_userstory,
  epics_epic, schedule_dependency, Event, Database,
}
use taiga_back_schedule_mana.Bulk.Request.{Update}

-- `sorted` of a set of ids, by insertion.
unfoldable pub add_id : ℕ → List ℕ → List ℕ
add_id i [] = i ∷ []
add_id i (j ∷ ids) = if i == j then j ∷ ids else if ltb i j then i ∷ j ∷ ids else j ∷ add_id i ids

unfoldable pub sorted_ids : List Update → List ℕ
sorted_ids [] = []
sorted_ids (u ∷ rest) = add_id u.entity_id (sorted_ids rest)

abbrev pub of_type : EntityType → List Update → List Update
of_type entity_type updates = keep (λ u. same_type u.entity_type entity_type) updates

-- `if not entity_ids: continue`
abbrev event_for : ContentType → ℕ → List ℕ → List Event
event_for content_type project_id [] = []
event_for content_type project_id (i ∷ ids) =
    record { ids = i ∷ ids; content_type = content_type; projectid = project_id } ∷ []

unfoldable pub schedule_bulk_change_events : ℕ → List Update → List Event
schedule_bulk_change_events project_id updates =
    event_for tasks_task project_id (sorted_ids (of_type task updates))
    ++ (event_for userstories_userstory project_id (sorted_ids (of_type userstory updates))
        ++ (event_for epics_epic project_id (sorted_ids (of_type epic updates))
            ++ event_for schedule_dependency project_id (sorted_ids updates)))

unfoldable pub emit_schedule_bulk_change_events : ℕ → List Update → Database → Database
emit_schedule_bulk_change_events project_id updates db = record db {
  events = db.events ++ schedule_bulk_change_events project_id updates;
}
