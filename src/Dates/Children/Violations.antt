-- ===== src/Dates/Children/Violations.antt =====
-- When the two checks on the dates of a parent accept it.
use taiga_back_schedule_mana.Base.{
  ℕ, ◌≡◌, ◌↔◌, none, some, List, All, ◌≢◌, ◌==◌, ==_iff, Bool-cases, inl, inr,
}
use taiga_back_schedule_mana.Model.{epic, userstory, Database, Message}
use taiga_back_schedule_mana.Dates.Effective.{Proposal, get_proposed_bounds_for_entity}
use taiga_back_schedule_mana.Dates.Children.Defs.{
  Dates, children_bounds, bounds_error, task_dates, userstory_dates, get_task_children_bounds,
  get_userstory_children_bounds, get_userstory_bounds_violation_error,
  get_epic_bounds_violation_error,
}
use taiga_back_schedule_mana.Dates.Children.Laws.{
  Within, children_bounds-Within, bounds_error-eq-none,
}

-- What the check on the bounds of the children says, in terms of each child.
bounds_error-children :
    (m : Message) (p : Dates) (children : List Dates)
    → (bounds_error m p (children_bounds children (none, none)) ≡ none) ↔ All (Within p) children
bounds_error-children m p children =
    let (to, from) = bounds_error-eq-none m p (children_bounds children (none, none)) in
    let (each, all) = children_bounds-Within p children (none, none) in
    ((λ h. (each (to h)).1), (λ h. from (all (hidden p, h))))
  where
    hidden : (p : Dates) → Within p (none, none)
    hidden (none, none) = (tt, tt)
    hidden (none, some e) = (tt, tt)
    hidden (some s, none) = (tt, tt)
    hidden (some s, some e) = (tt, tt)

-- For a saved user story (its id is not 0) the check finds no error exactly when each of its tasks
-- keeps within the proposed dates: no known task start is before the story's start, and no known
-- task due date is after the story's due date.
pub userstory_bounds_iff :
    (obj : Proposal) (db : Database) (i : ℕ)
    → obj.id ≡ some i
    → i ≢ 0
    → (get_userstory_bounds_violation_error obj db ≡ none)
      ↔ All (Within (get_proposed_bounds_for_entity obj userstory db)) (task_dates i db)
unfolding get_userstory_bounds_violation_error get_task_children_bounds
userstory_bounds_iff obj db i e h = elim (Bool-cases (i == 0)) [
  | inl zero_id ↦ absurd (h ((==_iff i 0).0 zero_id))
  | inr saved ↦ rw (e, saved) (bounds_error-children _ _ _)
]

-- For a saved epic (its id is not 0) the check finds no error exactly when each related user story
-- keeps within the proposed dates: no known story start is before the epic's start, and no known
-- story due date is after the epic's due date.
pub epic_bounds_iff :
    (obj : Proposal) (db : Database) (i : ℕ)
    → obj.id ≡ some i
    → i ≢ 0
    → (get_epic_bounds_violation_error obj db ≡ none)
      ↔ All (Within (get_proposed_bounds_for_entity obj epic db)) (userstory_dates i db)
unfolding get_epic_bounds_violation_error get_userstory_children_bounds
epic_bounds_iff obj db i e h = elim (Bool-cases (i == 0)) [
  | inl zero_id ↦ absurd (h ((==_iff i 0).0 zero_id))
  | inr saved ↦ rw (e, saved) (bounds_error-children _ _ _)
]
