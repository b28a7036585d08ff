-- ===== src/Closing/Services.antt =====
-- The open and close calculations, and what they write. The handlers that
-- a save runs in its turn are in Signals, and the calls here are without them.
use taiga_back_schedule_mana.Base.{
  ℕ, Bool, true, false, not, ◌&&◌, ◌||◌, Option, none, some, List, [], ◌∷◌, is_empty, update_where,
  ◌==◌, if◌then◌else◌,
}
use taiga_back_schedule_mana.Closing.Rows.{
  UserStory, Task, Issue, Milestone, Board, has_closed, all_of, stories_of, loose_tasks_of,
  issues_of, tasks_of,
}

-- The three checks, on the user stories, the tasks without one, and the issues of a milestone.
abbrev pub is_each_closed : List UserStory → List Task → List Issue → Bool
is_each_closed uss tasks issues =
    let all_us_closed = all_of (λ us. us.is_closed) uss in
    let all_tasks_closed = all_of (λ t. has_closed t.status) tasks in
    let all_issues_closed = all_of (λ i. has_closed i.status) issues in
    let uss_check = not (is_empty uss) && all_tasks_closed && all_us_closed && all_issues_closed in
    let tasks_check =
      not (is_empty tasks) && all_tasks_closed && all_issues_closed && all_us_closed in
    let issues_check =
      not (is_empty issues) && all_issues_closed && all_tasks_closed && all_us_closed in
    uss_check || issues_check || tasks_check

unfoldable pub calculate_milestone_is_closed : ℕ → Board → Bool
calculate_milestone_is_closed m b =
    is_each_closed (stories_of m b) (loose_tasks_of m b) (issues_of m b)

-- `milestone.save(update_fields=["closed"])`
abbrev pub set_closed : ℕ → Bool → Board → Board
set_closed m closed b = record b {
  milestones =
      update_where (λ row. row.id == m) (λ row. record row { closed = closed }) b.milestones;
}

unfoldable pub close_milestone : Milestone → Board → Board
close_milestone milestone b = if not milestone.closed then set_closed milestone.id true b else b

unfoldable pub open_milestone : Milestone → Board → Board
open_milestone milestone b = if milestone.closed then set_closed milestone.id false b else b

unfoldable pub calculate_userstory_is_closed : UserStory → Board → Bool
calculate_userstory_is_closed us b = elim us.status [
  | none ↦ false
  | some closed ↦
      if is_empty (tasks_of us.id b)
      then closed
      else all_of (λ t. has_closed t.status) (tasks_of us.id b)
]

-- `us.save(update_fields=["is_closed", "finish_date"])`
abbrev pub set_is_closed : ℕ → Bool → Option ℕ → Board → Board
set_is_closed i closed finish_date b = record b {
  userstories =
      update_where (λ row. row.id == i)
        (λ row. record row { is_closed = closed; finish_date = finish_date }) b.userstories;
}

-- The board and whether the user story has changed.
unfoldable pub close_userstory : ℕ → UserStory → Board → Board × Bool
close_userstory now us b =
    if not us.is_closed then (set_is_closed us.id true (some now) b, true) else (b, false)

unfoldable pub open_userstory : UserStory → Board → Board × Bool
open_userstory us b = if us.is_closed then (set_is_closed us.id false none b, true) else (b, false)

unfoldable pub recalculate_is_closed_for_milestone : Milestone → Board → Board
recalculate_is_closed_for_milestone milestone b =
    if calculate_milestone_is_closed milestone.id b
    then close_milestone milestone b
    else open_milestone milestone b

-- `userstory.milestone`
abbrev pub find_milestone : ℕ → List Milestone → Option Milestone
find_milestone m [] = none
find_milestone m (row ∷ rows) = if row.id == m then some row else find_milestone m rows

abbrev pub recalculate_found : Option Milestone → Board → Board
recalculate_found none b = b
recalculate_found (some milestone) b = recalculate_is_closed_for_milestone milestone b

abbrev pub after_userstory : Option ℕ → Board × Bool → Board
after_userstory none r = r.0
after_userstory (some m) r =
    if r.1 then recalculate_found (find_milestone m r.0.milestones) r.0 else r.0

-- `now` is the time of the call.
unfoldable pub recalculate_is_closed_for_userstory_and_its_milestone : ℕ → UserStory → Board → Board
recalculate_is_closed_for_userstory_and_its_milestone now us b =
    after_userstory us.milestone_id
      (if calculate_userstory_is_closed us b then close_userstory now us b else open_userstory us b)
