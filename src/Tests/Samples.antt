-- ===== src/Tests/Samples.antt =====
-- A project with an epic, a user story and two tasks; the second task waits for the first.
use taiga_back_schedule_mana.Base.{ℕ, Option, none, some, List, [], ◌∷◌}
use taiga_back_schedule_mana.Model.{
  Date, EntityType, epic, userstory, task, Schedule, ScheduleItemOrder, Database,
}

abbrev pub schedule : ℕ → EntityType → ℕ → Option Date → Option Date → Schedule
schedule i t entity start due = record {
  id = i;
  entity_type = t;
  entity_id = entity;
  project_id = 1;
  created_date = none;
  due_date = due;
  estimated_start = start;
  actual_start = none;
  color = none;
}

abbrev pub first_task : Schedule
first_task = schedule 3 task 30 (some 100) (some 105)

abbrev pub second_task : Schedule
second_task = schedule 4 task 31 (some 106) (some 110)

abbrev pub epic_schedule : Schedule
epic_schedule = schedule 1 epic 10 (some 100) (some 104)

abbrev order : ℕ → ℕ → EntityType → Option EntityType → ℕ → ℕ → ScheduleItemOrder
order i s t parent_type parent position = record {
  id = i;
  schedule_id = s;
  project_id = 1;
  entity_type = t;
  parent_entity_type = parent_type;
  parent_entity_id = parent;
  position = position;
}

abbrev pub first_row : ScheduleItemOrder
first_row = order 7 3 task (some userstory) 20 1

abbrev pub second_row : ScheduleItemOrder
second_row = order 8 4 task (some userstory) 20 2

abbrev pub epic_row : ScheduleItemOrder
epic_row = order 5 1 epic none 0 1

abbrev pub userstory_row : ScheduleItemOrder
userstory_row = order 6 2 userstory (some epic) 10 1

abbrev pub sample_rows : List ScheduleItemOrder
sample_rows = epic_row ∷ userstory_row ∷ first_row ∷ second_row ∷ []

abbrev pub sample : Database
sample = record {
  schedules =
      epic_schedule ∷ schedule 2 userstory 20 (some 100) (some 120) ∷ first_task ∷ second_task ∷ [];
  next_schedule_id = 5;
  orders = record { rows = sample_rows; next_id = 9 };
  dependencies = record { from_schedule_id = 3; to_schedule_id = 4 } ∷ [];
  tasks =
      record { id = 30; project_id = 1; user_story_id = some 20; due_date = some 105 }
      ∷ record { id = 31; project_id = 1; user_story_id = some 20; due_date = some 110 }
      ∷ [];
  userstories = record { id = 20; project_id = 1; due_date = some 120 } ∷ [];
  epics = record { id = 10; project_id = 1; color = "#ff0000" } ∷ [];
  relations = record { id = 1; epic_id = 10; user_story_id = 20; order = 1 } ∷ [];
  events = [];
}
