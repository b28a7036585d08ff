-- ===== src/Model/Tables.antt =====
-- The database as one value: a list of rows for each table, in the order of their primary keys,
-- and the events that were sent.
use taiga_back_schedule_mana.Base.{
  ℕ, Bool, ◌&&◌, ◌||◌, Option, none, List, ◌==◌, ltb, leb, first, keep, sort_by, if◌then◌else◌,
}
use taiga_back_schedule_mana.Model.Entities.{
  EntityType, same_type, Schedule, ScheduleDependency, ScheduleItemOrder, Task, UserStory, Epic,
  RelatedUserStory,
}

pub data ContentType : Type 0 where
  tasks_task userstories_userstory epics_epic schedule_dependency : ContentType

-- The arguments of `events.emit_event_for_ids`.
pub record Event : Type 0 where
  pub ids : List ℕ
  pub content_type : ContentType
  pub projectid : ℕ

-- The table of item orders, with the next value of its sequence of keys.
pub record Orders : Type 0 where
  pub rows : List ScheduleItemOrder
  pub next_id : ℕ

pub record Database : Type 0 where
  pub schedules : List Schedule
  pub next_schedule_id : ℕ
  pub orders : Orders
  pub dependencies : List ScheduleDependency
  pub tasks : List Task
  pub userstories : List UserStory
  pub epics : List Epic
  pub relations : List RelatedUserStory
  pub events : List Event

abbrev pub is_of : EntityType → ℕ → Schedule → Bool
is_of entity_type entity_id s = same_type s.entity_type entity_type && s.entity_id == entity_id

-- `get_schedule`
unfoldable pub get_schedule : EntityType → ℕ → Database → Option Schedule
get_schedule entity_type entity_id db = first (is_of entity_type entity_id) db.schedules

-- `.order_by("order", "id")`
abbrev pub relation_before : RelatedUserStory → RelatedUserStory → Bool
relation_before r s = ltb r.order s.order || (r.order == s.order && leb r.id s.id)

abbrev pub head_of {ℓ} : {A : Type ℓ} → List A → Option A
head_of xs = first (λ _. Bool.true) xs

-- `_get_primary_epic_relation`
unfoldable pub get_primary_epic_relation : ℕ → Database → Option RelatedUserStory
get_primary_epic_relation userstory_id db =
    if userstory_id == 0
    then none
    else head_of
        (sort_by relation_before (keep (λ r. r.user_story_id == userstory_id) db.relations))

abbrev pub find_task : ℕ → Database → Option Task
find_task task_id db = first (λ t. t.id == task_id) db.tasks

abbrev pub find_userstory : ℕ → Database → Option UserStory
find_userstory userstory_id db = first (λ us. us.id == userstory_id) db.userstories

abbrev pub find_epic : ℕ → Database → Option Epic
find_epic epic_id db = first (λ e. e.id == epic_id) db.epics
