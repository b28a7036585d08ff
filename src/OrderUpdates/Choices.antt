-- ===== src/OrderUpdates/Choices.antt =====
-- The bulk updates of the orders of a project's choices (statuses, points, types, …) and swimlanes.
use taiga_back_schedule_mana.Base.{
  ℕ, ◌&&◌, Bool, Option, some, none, List, [], ◌∷◌, map, update_where, ◌==◌,
}
use taiga_back_schedule_mana.OrderUpdates.Apply.{Orders, get}

-- A row of a table of choices.
pub record Choice : Type 0 where
  pub id : ℕ
  pub project_id : ℕ
  pub order : ℕ

pub record Choices : Type 0 where
  pub epic_statuses : List Choice
  pub userstory_statuses : List Choice
  pub points : List Choice
  pub task_statuses : List Choice
  pub issue_statuses : List Choice
  pub issue_types : List Choice
  pub priorities : List Choice
  pub severities : List Choice
  pub swimlanes : List Choice

abbrev pub is_choice : ℕ → ℕ → Choice → Bool
is_choice i project row = row.id == i && row.project_id == project

abbrev pub give_order : ℕ → Choice → Choice
give_order order row = record { id = row.id; project_id = row.project_id; order = order }

-- The prepared statement, executed for each pair.
unfoldable pub execute_each : ℕ → Orders → List Choice → List Choice
execute_each project [] rows = rows
execute_each project ((i, order) ∷ pairs) rows =
    execute_each project pairs (update_where (is_choice i project) (give_order order) rows)

abbrev pub bulk_update_epic_status_order : ℕ → Orders → Choices → Choices
bulk_update_epic_status_order project pairs t = record t {
  epic_statuses = execute_each project pairs t.epic_statuses;
}

abbrev pub bulk_update_userstory_status_order : ℕ → Orders → Choices → Choices
bulk_update_userstory_status_order project pairs t = record t {
  userstory_statuses = execute_each project pairs t.userstory_statuses;
}

abbrev pub bulk_update_points_order : ℕ → Orders → Choices → Choices
bulk_update_points_order project pairs t = record t { points = execute_each project pairs t.points }

abbrev pub bulk_update_task_status_order : ℕ → Orders → Choices → Choices
bulk_update_task_status_order project pairs t = record t {
  task_statuses = execute_each project pairs t.task_statuses;
}

abbrev pub bulk_update_issue_status_order : ℕ → Orders → Choices → Choices
bulk_update_issue_status_order project pairs t = record t {
  issue_statuses = execute_each project pairs t.issue_statuses;
}

abbrev pub bulk_update_issue_type_order : ℕ → Orders → Choices → Choices
bulk_update_issue_type_order project pairs t = record t {
  issue_types = execute_each project pairs t.issue_types;
}

abbrev pub bulk_update_priority_order : ℕ → Orders → Choices → Choices
bulk_update_priority_order project pairs t = record t {
  priorities = execute_each project pairs t.priorities;
}

abbrev pub bulk_update_severity_order : ℕ → Orders → Choices → Choices
bulk_update_severity_order project pairs t = record t {
  severities = execute_each project pairs t.severities;
}

abbrev pub order_or : ℕ → Option ℕ → ℕ
order_or current none = current
order_or current (some order) = order

-- The statement takes the order of a row from the pairs, whatever its project is. It gives the ids of the
-- event, too.
unfoldable pub bulk_update_swimlane_order : ℕ → Orders → Choices → Choices × List ℕ
bulk_update_swimlane_order project pairs t = (
  record t {
    swimlanes = map (λ row. give_order (order_or row.order (get row.id pairs)) row) t.swimlanes;
  },
  map (λ e. e.0) pairs,
)
