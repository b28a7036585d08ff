-- ===== src/Tests/Orders.antt =====
-- The theorems on the orders that a user moves, at three elements of which the last is moved to the front.
use taiga_back_schedule_mana.Base.{
  ℕ, ◌≤◌, ◌<◌, ◌≡◌, ◌≢◌, refl, sym, ◌∙◌, true, none, some, List, [], ◌∷◌, ◌==◌, ==_iff, Bool-cases,
  inl, inr, arith,
}
use taiga_back_schedule_mana.OrderUpdates.{Orders}
use taiga_back_schedule_mana.OrderUpdates.Choices.{
  Choice, Choices, bulk_update_epic_status_order, bulk_update_userstory_status_order,
  bulk_update_points_order, bulk_update_task_status_order, bulk_update_issue_status_order,
  bulk_update_issue_type_order, bulk_update_priority_order, bulk_update_severity_order,
}
use taiga_back_schedule_mana.OrderUpdates.Maps.{Keys, get_here, get_past}
use taiga_back_schedule_mana.OrderUpdates.Keeping.{Distinct, some_injective}
use taiga_back_schedule_mana.OrderUpdates.Rounds.{IsFree}
use taiga_back_schedule_mana.OrderUpdates.Elements.{
  Element, dict_from, update_userstories_order_in_bulk,
}
use taiga_back_schedule_mana.OrderUpdates.Written.{
  order_in, update_userstories_order_in_bulk-Distinct,
}
use taiga_back_schedule_mana.OrderUpdates.Moved.{
  order_after, apply_order_updates-moved, apply_order_updates-unmoved,
}
use taiga_back_schedule_mana.OrderUpdates.Result.{apply_order_updates-Distinct}
use taiga_back_schedule_mana.OrderUpdates.Rows.{reorder, bulk_update_choices_lem}

-- Different orders, entry by entry.
IsFree-cons : (i m n : ℕ) (orders : Orders) → m ≢ n → IsFree orders n → IsFree ((i, m) ∷ orders) n
IsFree-cons i m n orders other free j h = elim (Bool-cases (i == j)) [
  | inl hit ↦ other (some_injective m n (sym (get_here j (i, m) orders hit) ∙ h))
  | inr miss ↦ free j (sym (get_past j (i, m) orders miss) ∙ h)
]

IsFree-none : (n : ℕ) → IsFree [] n
IsFree-none n j h = gone h
  where
    gone : none ≡ some n → ⊥
    gone e = cc

Distinct-cons :
    (i m : ℕ) (orders : Orders) → IsFree orders m → Distinct orders → Distinct ((i, m) ∷ orders)
Distinct-cons i m orders free distinct j k n hj hk = elim (Bool-cases (i == j)) [
  | inl hit ↦ elim (Bool-cases (i == k)) [
    | inl too ↦ sym ((==_iff i j).0 hit) ∙ (==_iff i k).0 too
    | inr miss ↦ absurd (
        free k
          (sym (get_past k (i, m) orders miss) ∙ (hk ∙ (sym hj ∙ get_here j (i, m) orders hit))))
  ]
  | inr miss ↦ elim (Bool-cases (i == k)) [
    | inl hit ↦ absurd (
        free j
          (sym (get_past j (i, m) orders miss) ∙ (hj ∙ (sym hk ∙ get_here k (i, m) orders hit))))
    | inr also ↦
        distinct j k n (sym (get_past j (i, m) orders miss) ∙ hj)
          (sym (get_past k (i, m) orders also) ∙ hk)
  ]
]

Distinct-none : Distinct []
Distinct-none j k n hj hk = absurd (gone hj)
  where
    gone : none ≡ some n → ⊥
    gone e = cc

abbrev base : Orders
base = (1, 1) ∷ (2, 2) ∷ (3, 3) ∷ []

base-Keys : Keys base
base-Keys = (refl, (refl, (refl, tt)))

abbrev moved : Orders
moved = (3, 1) ∷ []

base-Distinct : Distinct base
base-Distinct =
    Distinct-cons 1 1 ((2, 2) ∷ (3, 3) ∷ [])
      (IsFree-cons 2 2 1 ((3, 3) ∷ []) (λ e. omega (arith, e))
        (IsFree-cons 3 3 1 [] (λ e. omega (arith, e)) (IsFree-none 1)))
      (Distinct-cons 2 2 ((3, 3) ∷ [])
        (IsFree-cons 3 3 2 [] (λ e. omega (arith, e)) (IsFree-none 2))
        (Distinct-cons 3 3 [] (IsFree-none 3) Distinct-none))

moved-Distinct : Distinct moved
moved-Distinct = Distinct-cons 3 1 [] (IsFree-none 1) Distinct-none

apply_order_updates-moved_example : order_after base moved true 3 ≡ some 1
apply_order_updates-moved_example =
    apply_order_updates-moved base moved true 3 1 3 base-Keys (refl, tt) refl refl

apply_order_updates-unmoved_example :
    (x y : ℕ) × (order_after base moved true 1 ≡ some x)
    × (order_after base moved true 2 ≡ some y)
    × (1 ≤ x)
    × (2 ≤ y)
    × (x < y)
apply_order_updates-unmoved_example =
    apply_order_updates-unmoved base moved true 1 2 1 2 base-Keys (refl, tt) base-Distinct refl refl
      refl refl (omega arith)

apply_order_updates-Distinct_example : order_after base moved true 1 ≢ order_after base moved true 3
apply_order_updates-Distinct_example =
    apply_order_updates-Distinct base moved true 1 3 1 3 base-Keys (refl, tt) base-Distinct
      moved-Distinct refl refl (λ e. omega (arith, e))

abbrev status : ℕ → ℕ → ℕ → Choice
status i project order = record { id = i; project_id = project; order = order }

abbrev choices : Choices
choices = record {
  epic_statuses = status 1 7 1 ∷ status 2 7 2 ∷ status 3 8 1 ∷ [];
  userstory_statuses = [];
  points = [];
  task_statuses = [];
  issue_statuses = [];
  issue_types = [];
  priorities = [];
  severities = [];
  swimlanes = [];
}

abbrev pairs : Orders
pairs = (2, 1) ∷ (1, 2) ∷ (3, 9) ∷ []

bulk_update_choices_lem_example :
    (bulk_update_epic_status_order 7 pairs choices
      ≡ record choices { epic_statuses = reorder 7 pairs choices.epic_statuses })
    × (bulk_update_userstory_status_order 7 pairs choices
        ≡ record choices { userstory_statuses = reorder 7 pairs choices.userstory_statuses })
    × (bulk_update_points_order 7 pairs choices
        ≡ record choices { points = reorder 7 pairs choices.points })
    × (bulk_update_task_status_order 7 pairs choices
        ≡ record choices { task_statuses = reorder 7 pairs choices.task_statuses })
    × (bulk_update_issue_status_order 7 pairs choices
        ≡ record choices { issue_statuses = reorder 7 pairs choices.issue_statuses })
    × (bulk_update_issue_type_order 7 pairs choices
        ≡ record choices { issue_types = reorder 7 pairs choices.issue_types })
    × (bulk_update_priority_order 7 pairs choices
        ≡ record choices { priorities = reorder 7 pairs choices.priorities })
    × (bulk_update_severity_order 7 pairs choices
        ≡ record choices { severities = reorder 7 pairs choices.severities })
bulk_update_choices_lem_example = bulk_update_choices_lem 7 pairs choices

abbrev user_story : ℕ → ℕ → Element
user_story i order = record {
  id = i;
  project_id = 7;
  status_id = some 2;
  milestone_id = none;
  user_story_id = none;
  order_of = λ column. order;
}

abbrev backlog : List Element
backlog = user_story 1 1 ∷ user_story 2 2 ∷ user_story 3 3 ∷ []

update_userstories_order_in_bulk-Distinct_example :
    order_in 0 1 (update_userstories_order_in_bulk moved 0 7 (some 2) none backlog).0
    ≢ order_in 0 3 (update_userstories_order_in_bulk moved 0 7 (some 2) none backlog).0
unfolding dict_from
update_userstories_order_in_bulk-Distinct_example =
    update_userstories_order_in_bulk-Distinct moved 0 7 (some 2) none 1 3 (user_story 1 1)
      (user_story 3 3) backlog base-Keys base-Distinct moved-Distinct refl refl refl refl
      (λ e. omega (arith, e))
