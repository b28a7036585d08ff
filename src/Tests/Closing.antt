-- ===== src/Tests/Closing.antt =====
-- The theorems on closing, at a milestone whose one user story has a closed task.
use taiga_back_schedule_mana.Base.{
  ℕ, ◌+◌, ◌<◌, ◌≡◌, ◌≢◌, ◌⊎◌, arith, refl, true, false, none, some, [], ◌∷◌, length, All, ◌↔◌,
}
use taiga_back_schedule_mana.Closing.{
  UserStory, Board, has_closed, stories_of, loose_tasks_of, issues_of,
  calculate_milestone_is_closed, calculate_userstory_is_closed, close_userstory, close_milestone,
  open_milestone, recalculate_is_closed_for_milestone, try_to_close_or_open_milestone,
  recalculate_is_closed_for_userstory_and_its_milestone,
  try_to_close_or_open_us_and_milestone_when_create_or_edit_us,
}
use taiga_back_schedule_mana.Closing.Milestones.{calculate_milestone_is_closed_iff}
use taiga_back_schedule_mana.Closing.Handlers.{
  IsReconsidered, try_to_close_or_open_us_and_milestone_when_create_or_edit_us-IsSettled,
}
use taiga_back_schedule_mana.Closing.Recalculated.{IsSettled}
use taiga_back_schedule_mana.Closing.Settled.{
  HasFlag, recalculate_is_closed_for_userstory_and_its_milestone-IsSettled,
}

abbrev story : UserStory
story = record {
  id = 1;
  status = some false;
  is_closed = false;
  finish_date = none;
  milestone_id = some 5;
}

abbrev board : Board
board = record {
  userstories = story ∷ [];
  tasks = record { status = some true; user_story_id = some 1; milestone_id = some 5 } ∷ [];
  issues = [];
  milestones = record { id = 5; closed = false } ∷ [];
}

calculate_milestone_is_closed_iff_example : (calculate_milestone_is_closed 5 board ≡ true) ↔ (
    (0 < length (stories_of 5 board) + length (loose_tasks_of 5 board) + length (issues_of 5 board))
    × All (λ us. us.is_closed ≡ true) (stories_of 5 board)
    × All (λ t. has_closed t.status ≡ true) (loose_tasks_of 5 board)
    × All (λ i. has_closed i.status ≡ true) (issues_of 5 board))
calculate_milestone_is_closed_iff_example = calculate_milestone_is_closed_iff 5 board

recalculate_is_closed_for_userstory_and_its_milestone-IsSettled_example :
    IsSettled (recalculate_is_closed_for_userstory_and_its_milestone 77 story board)
    × HasFlag story
        (calculate_userstory_is_closed story board)
        (recalculate_is_closed_for_userstory_and_its_milestone 77 story board)
unfolding calculate_milestone_is_closed
recalculate_is_closed_for_userstory_and_its_milestone-IsSettled_example =
    recalculate_is_closed_for_userstory_and_its_milestone-IsSettled 77 story board ((λ e. refl), tt)
      (refl, tt) (tt, tt)

-- Milestone 6, where the user story was, has the user story 2, which is closed.
abbrev moved_board : Board
moved_board = record board {
  userstories =
      story
      ∷ record {
        id = 2;
        status = some true;
        is_closed = true;
        finish_date = some 70;
        milestone_id = some 6;
      }
      ∷ [];
  milestones = record { id = 5; closed = false } ∷ record { id = 6; closed = false } ∷ [];
}

-- The user story closes, and milestone 6 keeps its flag, though its user stories are all closed.
previous_milestone_kept :
    (try_to_close_or_open_us_and_milestone_when_create_or_edit_us 77 false story
      (some 6)
      moved_board).milestones
    ≡ record { id = 5; closed = true } ∷ record { id = 6; closed = false } ∷ []
unfolding try_to_close_or_open_us_and_milestone_when_create_or_edit_us
    try_to_close_or_open_milestone calculate_userstory_is_closed calculate_milestone_is_closed
    close_userstory close_milestone open_milestone recalculate_is_closed_for_milestone
previous_milestone_kept = refl

try_to_close_or_open_us_and_milestone_when_create_or_edit_us-IsSettled_example :
    let after =
      try_to_close_or_open_us_and_milestone_when_create_or_edit_us 77 false story
        (some 6)
        moved_board in
    HasFlag story (calculate_userstory_is_closed story moved_board) after
    × ((story.is_closed ≡ calculate_userstory_is_closed story moved_board) × IsSettled after
        ⊎ (story.is_closed ≢ calculate_userstory_is_closed story moved_board)
          × IsReconsidered story (some 6) moved_board after)
try_to_close_or_open_us_and_milestone_when_create_or_edit_us-IsSettled_example =
    try_to_close_or_open_us_and_milestone_when_create_or_edit_us-IsSettled 77 story (some 6)
      moved_board ((λ e. refl), ((λ e. absurd (other e)), tt)) ((apart, tt), (tt, tt))
      ((λ h k. absurd (yes h)), ((λ h k. absurd (yes k)), tt))
  where
    other : ◌≢◌ {A = ℕ} 2 1
    other e = omega arith

    apart : ◌≢◌ {A = ℕ} 6 5
    apart e = omega arith

    yes : true ≢ false
    yes e = cc
