-- ===== src/Tests/Bulk.antt =====
-- The theorems on bulk requests, at a request on the sample project.
use taiga_back_schedule_mana.Base.{ℕ, pos, ◌≡◌, refl, none, some, List, [], ◌∷◌, All}
use taiga_back_schedule_mana.Model.{
  tasks_task, schedule_dependency, EntityType, epic, userstory, task, Database,
}
use taiga_back_schedule_mana.Bulk.{RawUpdate, object, Update, estimated_start_field}
use taiga_back_schedule_mana.Bulk.Sorted.{Ascending, normalize_schedule_bulk_date_updates_lem}
use taiga_back_schedule_mana.Bulk.Latest.{update_of, last_update}
use taiga_back_schedule_mana.Bulk.Commit.{
  KeepsDependencies, apply_schedule_dates_in_bulk-KeepsDependencies,
}
use taiga_back_schedule_mana.Tests.Program.{program}
use taiga_back_schedule_mana.Tests.Samples.{schedule, sample}

-- The due date of the first task moves to day 108.
abbrev pub request : List RawUpdate
request =
    object (record {
      entity_type = some "task";
      entity_id = some (pos 30);
      start_field = none;
      start = none;
      due = some (some 108);
    })
    ∷ []

abbrev pub normal : List Update
normal =
    record {
      entity_type = task;
      entity_id = 30;
      start_field = estimated_start_field;
      start = none;
      due = some (some 108);
    }
    ∷ []

normalize_schedule_bulk_date_updates_lem_example :
    Ascending normal × ((t : EntityType) (i : ℕ) → update_of t i normal ≡ last_update t i request)
unfolding program
normalize_schedule_bulk_date_updates_lem_example =
    normalize_schedule_bulk_date_updates_lem request normal refl

-- The database that the request leaves: the second task starts after the first, and the epic has
-- the bounds of the user story.
abbrev pub after : Database
after = record {
  schedules =
      schedule 1 epic 10 (some 100) (some 120)
      ∷ schedule 2 userstory 20 (some 100) (some 120)
      ∷ schedule 3 task 30 (some 100) (some 108)
      ∷ schedule 4 task 31 (some 109) (some 113)
      ∷ [];
  next_schedule_id = 5;
  orders = sample.orders;
  dependencies = sample.dependencies;
  tasks =
      record { id = 30; project_id = 1; user_story_id = some 20; due_date = some 108 }
      ∷ record { id = 31; project_id = 1; user_story_id = some 20; due_date = some 113 }
      ∷ [];
  userstories = sample.userstories;
  epics = sample.epics;
  relations = sample.relations;
  events =
      record { ids = 30 ∷ []; content_type = tasks_task; projectid = 1 }
      ∷ record { ids = 30 ∷ []; content_type = schedule_dependency; projectid = 1 }
      ∷ [];
}

apply_schedule_dates_in_bulk-KeepsDependencies_example : All (KeepsDependencies after) normal
unfolding program
apply_schedule_dates_in_bulk-KeepsDependencies_example =
    apply_schedule_dates_in_bulk-KeepsDependencies 5 (some (pos 1)) request sample normal after refl
