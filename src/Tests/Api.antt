-- ===== src/Tests/Api.antt =====
-- The theorems on the handlers of the API, at the sample project.
use taiga_back_schedule_mana.Base.{
  false, All, pos, ◌≡◌, refl, true, none, some, is_some, List, [], ◌∷◌, length,
}
use taiga_back_schedule_mana.Model.{
  epic, userstory, task, tasks_task, schedule_dependency, Schedule, Database, ok,
}
use taiga_back_schedule_mana.Bulk.{Update, find_in_project, apply_schedule_dates_in_bulk}
use taiga_back_schedule_mana.Api.Listed.{IsShown, get_queryset-IsShown}
use taiga_back_schedule_mana.Permissions.Granted.{OneEach, implies}
use taiga_back_schedule_mana.Permissions.Laws.{can_view_project-has_perm}
use taiga_back_schedule_mana.Permissions.{
  can_view_project, user_has_perm, Project, view_project, view_gantt, modify_schedule_dates,
  modify_schedule_color, modify_gantt_list_order,
}
use taiga_back_schedule_mana.Api.{find_project, Account, ItemUpdate, has_dates}
use taiga_back_schedule_mana.Api.Permitted.{
  Sees, May, update_item-Permitted, bulk_apply_dates-Permitted,
}
use taiga_back_schedule_mana.Tests.Program.{program}
use taiga_back_schedule_mana.Tests.Bulk.{request, after}
use taiga_back_schedule_mana.Tests.Samples.{
  schedule, sample, first_task, epic_row, userstory_row, first_row, second_row,
}

-- A member who sees the chart and may change dates and the order of its rows.
abbrev chart : Project
chart = record {
  id = 1;
  is_private = true;
  anon_permissions = some [];
  public_permissions = some [];
  memberships =
      record {
        user_id = 7;
        is_admin = false;
        role_permissions =
            some (view_project ∷ view_gantt ∷ modify_schedule_dates ∷ modify_gantt_list_order ∷ []);
      }
      ∷ [];
}

abbrev planner : Account
planner = record {
  user = record { id = 7; is_authenticated = true; is_superuser = false };
  projects = chart ∷ [];
}

bulk_apply_dates-Permitted_example :
    (project : Project) × (find_project 1 planner ≡ some project)
    × Sees planner.user project
    × May planner.user project true modify_schedule_dates
    × ((us : List Update) × (apply_schedule_dates_in_bulk 5 (some (pos 1)) request sample
          ≡ ok (us, after))
        × (length us ≡ 1))
unfolding program
bulk_apply_dates-Permitted_example =
    bulk_apply_dates-Permitted 5 planner 1 request sample 1 after refl

-- The second task goes to the top.
abbrev to_top : ItemUpdate
to_top = record {
  project = 1;
  entity_type = task;
  entity_id = 31;
  position = some 1;
  color = none;
  due_date = none;
  estimated_start = none;
  actual_start = some (some 107);
}

abbrev second_started : Schedule
second_started = record (schedule 4 task 31 (some 106) (some 110)) { actual_start = some 107 }

abbrev moved_up : Database
moved_up = record sample {
  schedules =
      schedule 1 epic 10 (some 100) (some 120)
      ∷ schedule 2 userstory 20 (some 100) (some 120)
      ∷ first_task
      ∷ second_started
      ∷ [];
  orders = record {
    rows =
        epic_row
        ∷ userstory_row
        ∷ record first_row { position = 2 }
        ∷ record second_row { position = 1 }
        ∷ [];
    next_id = 9;
  };
  events =
      record { ids = 31 ∷ []; content_type = tasks_task; projectid = 1 }
      ∷ record { ids = 31 ∷ []; content_type = schedule_dependency; projectid = 1 }
      ∷ [];
}

update_item-Permitted_example :
    (project : Project) × (find_project 1 planner ≡ some project)
    × Sees planner.user project
    × May planner.user project (has_dates to_top) modify_schedule_dates
    × May planner.user project (is_some to_top.color) modify_schedule_color
    × May planner.user project (is_some to_top.position) modify_gantt_list_order
    × (is_some (find_in_project 1 task 31 sample) ≡ true)
unfolding program
update_item-Permitted_example =
    update_item-Permitted 5 planner to_top sample (some second_started) moved_up refl

get_queryset-IsShown_example : All (IsShown planner (some 1) sample) sample.dependencies
unfolding program
get_queryset-IsShown_example = get_queryset-IsShown planner (some 1) sample sample.dependencies refl

chart-OneEach : OneEach chart.memberships
chart-OneEach = (tt, tt)

can_view_project-has_perm_example :
    implies (can_view_project planner.user chart) (user_has_perm planner.user view_project chart)
    ≡ true
can_view_project-has_perm_example = can_view_project-has_perm planner.user chart chart-OneEach
