-- ===== src/Dates/Effective.antt =====
-- The object whose dates are checked: a saved item, or the namespace that the bulk service builds.
-- An attribute that the object lacks is `none`; one that is None is `some none`.
use taiga_back_schedule_mana.Base.{ℕ, Bool, true, Option, none, some, or_else, ◌==◌, if◌then◌else◌}
use taiga_back_schedule_mana.Model.{
  Date, EntityType, epic, userstory, task, Schedule, Database, get_schedule,
}

pub record Proposal : Type 0 where
  pub id : Option ℕ
  pub actual_start : Option (Option Date)
  pub estimated_start : Option (Option Date)
  pub due_date : Option (Option Date)
  pub user_story_id : Option ℕ
  -- the id of a loaded `user_story`
  pub user_story : Option ℕ

-- `not value`, for an id that may be None
abbrev pub no_id : Option ℕ → Bool
no_id none = true
no_id (some i) = i == 0

-- `_get_effective_start`
unfoldable pub get_effective_start : Option Schedule → Option Date
get_effective_start none = none
get_effective_start (some s) = or_else s.actual_start s.estimated_start

-- `_get_due_from_schedule_or_fallback`
unfoldable pub get_due_from_schedule_or_fallback : Option Schedule → Option Date → Option Date
get_due_from_schedule_or_fallback none fallback_due = fallback_due
get_due_from_schedule_or_fallback (some s) fallback_due = or_else s.due_date fallback_due

-- `_resolve_effective_start`
unfoldable pub resolve_effective_start : Option Date → Option Date → Option Date
resolve_effective_start actual_start estimated_start = or_else actual_start estimated_start

-- An attribute of the object, or else the field of its schedule.
abbrev attribute_or :
    Option (Option Date) → (Schedule → Option Date) → Option Schedule → Option Date
attribute_or (some value) field s = value
attribute_or none field none = none
attribute_or none field (some s) = field s

abbrev attribute_or_none : Option (Option Date) → Option Date
attribute_or_none none = none
attribute_or_none (some value) = value

abbrev proposed_due : EntityType → Option (Option Date) → Option Schedule → Option Date
proposed_due epic due s = attribute_or due (λ r. r.due_date) s
proposed_due userstory due s = attribute_or_none due
proposed_due task due s = attribute_or_none due

abbrev schedule_of : EntityType → Option ℕ → Database → Option Schedule
schedule_of entity_type none db = none
schedule_of entity_type (some i) db = if i == 0 then none else get_schedule entity_type i db

-- `_get_proposed_bounds_for_entity`
unfoldable pub get_proposed_bounds_for_entity :
    Proposal → EntityType → Database → Option Date × Option Date
unfolding resolve_effective_start
get_proposed_bounds_for_entity obj entity_type db =
    let s = schedule_of entity_type obj.id db in
    (
      resolve_effective_start (attribute_or obj.actual_start (λ r. r.actual_start) s)
          (attribute_or obj.estimated_start (λ r. r.estimated_start) s),
      proposed_due entity_type obj.due_date s,
    )

-- `_get_task_parent_userstory_id`
unfoldable pub get_task_parent_userstory_id : Proposal → Option ℕ
get_task_parent_userstory_id obj =
    if no_id obj.user_story_id then obj.user_story else obj.user_story_id
