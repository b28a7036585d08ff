-- ===== src/Closing/Rows.antt =====
-- The rows that closing reads and writes. Of a status only whether it is closed.
use taiga_back_schedule_mana.Base.{
  ℕ, Bool, true, false, ◌&&◌, Option, none, some, List, [], ◌∷◌, keep, ◌==◌,
}

pub record UserStory : Type 0 where
  pub id : ℕ
  pub status : Option Bool
  pub is_closed : Bool
  pub finish_date : Option ℕ
  pub milestone_id : Option ℕ

pub record Task : Type 0 where
  pub status : Option Bool
  pub user_story_id : Option ℕ
  pub milestone_id : Option ℕ

pub record Issue : Type 0 where
  pub status : Option Bool
  pub milestone_id : Option ℕ

pub record Milestone : Type 0 where
  pub id : ℕ
  pub closed : Bool

pub record Board : Type 0 where
  pub userstories : List UserStory
  pub tasks : List Task
  pub issues : List Issue
  pub milestones : List Milestone

-- A foreign key that holds an id.
abbrev pub refers : ℕ → Option ℕ → Bool
refers i none = false
refers i (some j) = j == i

abbrev pub is_null : Option ℕ → Bool
is_null none = true
is_null (some i) = false

-- `status is not None and status.is_closed`
abbrev pub has_closed : Option Bool → Bool
has_closed none = false
has_closed (some closed) = closed

module _ {ℓ} {A : Type ℓ} where
  -- `all([test(x) for x in xs])`
  abbrev pub all_of : (A → Bool) → List A → Bool
  all_of test [] = true
  all_of test (x ∷ xs) = test x && all_of test xs

abbrev pub stories_of : ℕ → Board → List UserStory
stories_of m b = keep (λ us. refers m us.milestone_id) b.userstories

-- `milestone.tasks.filter(user_story__isnull=True)`
abbrev pub loose_tasks_of : ℕ → Board → List Task
loose_tasks_of m b =
    keep (λ t. is_null t.user_story_id) (keep (λ t. refers m t.milestone_id) b.tasks)

abbrev pub issues_of : ℕ → Board → List Issue
issues_of m b = keep (λ i. refers m i.milestone_id) b.issues

abbrev pub tasks_of : ℕ → Board → List Task
tasks_of us b = keep (λ t. refers us t.user_story_id) b.tasks
