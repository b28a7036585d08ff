-- ===== src/Dates/Changes.antt =====
-- The `updates` dictionaries: a key that is absent (or `_UNSET`) is `none`.
use taiga_back_schedule_mana.Base.{ℕ, String, Bool, ◌||◌, Option, none, some, is_some}
use taiga_back_schedule_mana.Model.{Date, Schedule}

pub record Updates : Type 0 where
  pub project_id : Option ℕ
  pub created_date : Option (Option Date)
  pub due_date : Option (Option Date)
  pub estimated_start : Option (Option Date)
  pub actual_start : Option (Option Date)
  pub color : Option (Option String)

abbrev pub no_updates : Updates
no_updates = record {
  project_id = none;
  created_date = none;
  due_date = none;
  estimated_start = none;
  actual_start = none;
  color = none;
}

-- `if updates:`
abbrev pub has_updates : Updates → Bool
has_updates u =
    is_some u.project_id
    || (is_some u.created_date
        || (is_some u.due_date
            || (is_some u.estimated_start || (is_some u.actual_start || is_some u.color))))

abbrev pub given_or {ℓ} : {A : Type ℓ} → Option A → A → A
given_or none old = old
given_or (some new) old = new

-- `.update(**updates)`, and the loop of `setattr` over the same keys.
abbrev pub apply_updates : Updates → Schedule → Schedule
apply_updates u s = record s {
  project_id = given_or u.project_id s.project_id;
  created_date = given_or u.created_date s.created_date;
  due_date = given_or u.due_date s.due_date;
  estimated_start = given_or u.estimated_start s.estimated_start;
  actual_start = given_or u.actual_start s.actual_start;
  color = given_or u.color s.color;
}
