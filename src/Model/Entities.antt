-- ===== src/Model/Entities.antt =====
-- The rows of taiga/projects/schedule/models.py, and of the tables of tasks, user stories and
-- epics as far as the schedule services use them. A date is its day number (`toordinal`); the last
-- one is 9999-12-31, and an addition that would pass it raises.
use taiga_back_schedule_mana.Base.{ℕ, String, Bool, true, false, Option, ◌≡◌, ◌↔◌, arith}

abbrev pub Date : Type 0
Date = ℕ

-- `date.max.toordinal()`
abbrev pub max_date : Date
max_date = 3652059

-- `Schedule.ENTITY_TYPE_CHOICES`
pub data EntityType : Type 0 where
  epic userstory task : EntityType

abbrev pub same_type : EntityType → EntityType → Bool
same_type epic epic = true
same_type userstory userstory = true
same_type task task = true
same_type _ _ = false

pub same_type_iff : (a b : EntityType) → (same_type a b ≡ true) ↔ (a ≡ b)
same_type_iff epic b = ground arith
same_type_iff userstory b = ground arith
same_type_iff task b = ground arith

pub record Schedule : Type 0 where
  pub id : ℕ
  pub entity_type : EntityType
  pub entity_id : ℕ
  pub project_id : ℕ
  pub created_date : Option Date
  pub due_date : Option Date
  pub estimated_start : Option Date
  pub actual_start : Option Date
  pub color : Option String

pub record ScheduleDependency : Type 0 where
  pub from_schedule_id : ℕ
  pub to_schedule_id : ℕ

-- `parent_entity_type` is "" at the root: `none` here.
pub record ScheduleItemOrder : Type 0 where
  pub id : ℕ
  pub schedule_id : ℕ
  pub project_id : ℕ
  pub entity_type : EntityType
  pub parent_entity_type : Option EntityType
  pub parent_entity_id : ℕ
  pub position : ℕ

pub record Task : Type 0 where
  pub id : ℕ
  pub project_id : ℕ
  pub user_story_id : Option ℕ
  pub due_date : Option Date

pub record UserStory : Type 0 where
  pub id : ℕ
  pub project_id : ℕ
  pub due_date : Option Date

pub record Epic : Type 0 where
  pub id : ℕ
  pub project_id : ℕ
  pub color : String

pub record RelatedUserStory : Type 0 where
  pub id : ℕ
  pub epic_id : ℕ
  pub user_story_id : ℕ
  pub order : ℕ
