-- ===== src/Tests/Propagation.antt =====
-- The theorems on propagations and upserts, at the sample project.
use taiga_back_schedule_mana.Base.{◌≡◌, refl, some, [], ◌∷◌, arith}
use taiga_back_schedule_mana.Model.{epic, userstory, task, Schedule, Database, get_schedule}
use taiga_back_schedule_mana.Dates.{Updates, no_updates, apply_updates}
use taiga_back_schedule_mana.Schedules.Stored.{base_schedule, for_project, upsert_schedule_lem}
use taiga_back_schedule_mana.Propagation.Keyed.{Keyed, Later}
use taiga_back_schedule_mana.Propagation.Monotone.{propagate_chain-NotEarlier}
use taiga_back_schedule_mana.Tests.Program.{program}
use taiga_back_schedule_mana.Tests.Samples.{schedule, sample, first_task}

-- The first task has been moved, and the second task has not followed.
abbrev late : Database
late = record sample {
  schedules =
      schedule 1 epic 10 (some 100) (some 120)
      ∷ schedule 2 userstory 20 (some 100) (some 111)
      ∷ schedule 3 task 30 (some 100) (some 108)
      ∷ schedule 4 task 31 (some 106) (some 110)
      ∷ [];
}

-- The second task follows, its user story is widened, and the epic is wide enough.
abbrev followed : Database
followed = record late {
  schedules =
      schedule 1 epic 10 (some 100) (some 120)
      ∷ schedule 2 userstory 20 (some 100) (some 113)
      ∷ schedule 3 task 30 (some 100) (some 108)
      ∷ schedule 4 task 31 (some 109) (some 113)
      ∷ [];
  tasks =
      record { id = 30; project_id = 1; user_story_id = some 20; due_date = some 105 }
      ∷ record { id = 31; project_id = 1; user_story_id = some 20; due_date = some 113 }
      ∷ [];
  userstories = record { id = 20; project_id = 1; due_date = some 113 } ∷ [];
}

propagate_chain-NotEarlier_example : Keyed followed × Later late followed
unfolding program
propagate_chain-NotEarlier_example = propagate_chain-NotEarlier 5 3 late followed (omega arith) refl

abbrev due : Updates
due = record no_updates { due_date = some (some 150) }

abbrev second_later : Schedule
second_later = schedule 4 task 31 (some 106) (some 150)

abbrev due_written : Database
due_written = record sample {
  schedules =
      schedule 1 epic 10 (some 100) (some 104)
      ∷ schedule 2 userstory 20 (some 100) (some 120)
      ∷ first_task
      ∷ second_later
      ∷ [];
}

upsert_schedule_lem_example :
    (second_later ≡ apply_updates (for_project 1 due) (base_schedule task 31 1 sample))
    × (get_schedule task 31 due_written ≡ some second_later)
unfolding program
upsert_schedule_lem_example = upsert_schedule_lem task 31 1 due sample second_later due_written refl
