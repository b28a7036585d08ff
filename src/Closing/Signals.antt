-- ===== src/Closing/Signals.antt =====
-- The handlers of saves and deletions of user stories, tasks and issues that close and open:
-- taiga/projects/{userstories,tasks,issues}/signals.py. A handler has the row as it is stored and, where
-- there was one, the keys that the previous row had. A user story that a handler closes or opens is saved
-- again, and that save runs the handler of its own.
use taiga_back_schedule_mana.Base.{ℕ, Bool, Option, none, some, List, [], ◌∷◌, ◌==◌, if◌then◌else◌}
use taiga_back_schedule_mana.Closing.Rows.{UserStory, Milestone, Board, refers}
use taiga_back_schedule_mana.Closing.Services.{
  calculate_userstory_is_closed, close_userstory, open_userstory, calculate_milestone_is_closed,
  close_milestone, find_milestone, recalculate_found,
}

-- `if calculate_milestone_is_closed(m): close_milestone(m) else: open_milestone(m)`
abbrev pub settle_milestone : Option ℕ → Board → Board
settle_milestone none b = b
settle_milestone (some m) b = recalculate_found (find_milestone m b.milestones) b

-- The key that the previous row had, where it has another now.
abbrev pub previous_key : Option ℕ → Option ℕ → Option ℕ
previous_key now_key none = none
previous_key now_key (some key) = if refers key now_key then none else some key

-- The milestone of the row, and the one that the row was in.
unfoldable pub try_to_close_or_open_milestone : Option ℕ → Option ℕ → Board → Board
try_to_close_or_open_milestone milestone_id prev_milestone_id b =
    settle_milestone (previous_key milestone_id prev_milestone_id) (settle_milestone milestone_id b)

-- `if calculate_userstory_is_closed(us): close_userstory(us) else: open_userstory(us)`, with whether the
-- user story was saved.
abbrev pub decide_userstory : ℕ → UserStory → Board → Board × Bool
decide_userstory now us b =
    if calculate_userstory_is_closed us b then close_userstory now us b else open_userstory us b

-- The handlers of that save. `cached_prev_us` has read the stored row, which has the milestone of the user
-- story, and the user story has the calculated flag already.
abbrev pub after_save : UserStory → Board × Bool → Board × Bool
after_save us (b, saved) =
    (if saved then try_to_close_or_open_milestone us.milestone_id us.milestone_id b else b, saved)

abbrev pub settle_userstory : ℕ → UserStory → Board → Board × Bool
settle_userstory now us b = after_save us (decide_userstory now us b)

-- `instance.prev` is what the last save has put there: after a save of the handler's own, the row with the
-- milestone of the user story.
abbrev pub settle_milestones : UserStory → Option ℕ → Board × Bool → Board
settle_milestones us prev_milestone_id (b, saved) =
    try_to_close_or_open_milestone us.milestone_id
      (if saved then us.milestone_id else prev_milestone_id) b

unfoldable pub try_to_close_or_open_us_and_milestone_when_create_or_edit_us :
    ℕ → Bool → UserStory → Option ℕ → Board → Board
try_to_close_or_open_us_and_milestone_when_create_or_edit_us now importing us prev_milestone_id b =
    if importing then b else settle_milestones us prev_milestone_id (settle_userstory now us b)

unfoldable pub try_to_close_or_open_milestone_when_create_or_edit_issue :
    Bool → Option ℕ → Option ℕ → Board → Board
try_to_close_or_open_milestone_when_create_or_edit_issue importing milestone_id prev_milestone_id
      b =
    if importing then b else try_to_close_or_open_milestone milestone_id prev_milestone_id b

abbrev pub find_userstory : ℕ → List UserStory → Option UserStory
find_userstory i [] = none
find_userstory i (row ∷ rows) = if row.id == i then some row else find_userstory i rows

abbrev pub settle_found : ℕ → Option UserStory → Board → Board
settle_found now none b = b
settle_found now (some us) b = (settle_userstory now us b).0

abbrev pub settle_userstory_of : ℕ → Option ℕ → Board → Board
settle_userstory_of now none b = b
settle_userstory_of now (some i) b = settle_found now (find_userstory i b.userstories) b

-- The user story of a task, and the one that it was in; then the milestones.
unfoldable pub try_to_close_or_open_us_and_milestone_when_create_or_edit_task :
    ℕ → Option ℕ → Option ℕ → Option ℕ → Option ℕ → Board → Board
try_to_close_or_open_us_and_milestone_when_create_or_edit_task now user_story_id prev_user_story_id
      milestone_id prev_milestone_id b =
    try_to_close_or_open_milestone milestone_id prev_milestone_id (
      settle_userstory_of now (previous_key user_story_id prev_user_story_id)
        (settle_userstory_of now user_story_id b))

abbrev pub close_found : Option Milestone → Board → Board
close_found none b = b
close_found (some m) b = if calculate_milestone_is_closed m.id b then close_milestone m b else b

-- After a deletion a milestone is closed, but not opened.
unfoldable pub try_to_close_milestone : Option ℕ → Board → Board
try_to_close_milestone none b = b
try_to_close_milestone (some m) b = close_found (find_milestone m b.milestones) b

unfoldable pub try_to_close_milestone_when_delete_us : Bool → Option ℕ → Board → Board
try_to_close_milestone_when_delete_us importing milestone_id b =
    if importing then b else try_to_close_milestone milestone_id b

unfoldable pub try_to_close_milestone_when_delete_issue : Bool → Option ℕ → Board → Board
try_to_close_milestone_when_delete_issue importing milestone_id b =
    if importing then b else try_to_close_milestone milestone_id b

unfoldable pub try_to_close_or_open_us_and_milestone_when_delete_task :
    ℕ → Option ℕ → Option ℕ → Board → Board
try_to_close_or_open_us_and_milestone_when_delete_task now user_story_id milestone_id b =
    try_to_close_milestone milestone_id (settle_userstory_of now user_story_id b)
