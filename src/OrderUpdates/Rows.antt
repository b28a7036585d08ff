-- ===== src/OrderUpdates/Rows.antt =====
-- What the bulk updates of choices do to each row.
use taiga_back_schedule_mana.Base.{
  ℕ, ◌≡◌, refl, sym, ◌∙◌, ap, Option, none, some, or_else, List, [], ◌∷◌, map, update_where, ◌==◌,
  Bool-cases, Option-cases, inl, inr, if◌then◌else◌,
}
use taiga_back_schedule_mana.OrderUpdates.Apply.{Orders}
use taiga_back_schedule_mana.OrderUpdates.Choices.{
  Choice, Choices, is_choice, give_order, order_or, execute_each, bulk_update_epic_status_order,
  bulk_update_userstory_status_order, bulk_update_points_order, bulk_update_task_status_order,
  bulk_update_issue_status_order, bulk_update_issue_type_order, bulk_update_priority_order,
  bulk_update_severity_order,
}

-- The order of the last pair with the id.
abbrev pub last_order : ℕ → Orders → Option ℕ
last_order i [] = none
last_order i ((j, order) ∷ pairs) =
    or_else (last_order i pairs) (if i == j then some order else none)

-- The row with the order of the last pair with its id, where it is of the project and there is one.
abbrev pub reordered : ℕ → Orders → Choice → Choice
reordered project pairs row =
    if row.project_id == project
    then record row { order = order_or row.order (last_order row.id pairs) }
    else row

reordered-next :
    (project i order : ℕ) (pairs : Orders) (row : Choice)
    → reordered project pairs (if is_choice i project row then give_order order row else row)
      ≡ reordered project ((i, order) ∷ pairs) row
reordered-next project i order pairs row = elim (Bool-cases (row.project_id == project)) [
  | inl inside ↦ elim (Bool-cases (row.id == i)) [
    | inl hit ↦ elim (Option-cases (last_order row.id pairs)) [
      | inl last ↦ rw (inside, hit, inside, last) refl
      | inr (n, later) ↦ rw (inside, hit, inside, later) refl
    ]
    | inr miss ↦ elim (Option-cases (last_order row.id pairs)) [
      | inl last ↦ rw (inside, miss, inside, last) refl
      | inr (n, later) ↦ rw (inside, miss, inside, later) refl
    ]
  ]
  | inr outside ↦ elim (Bool-cases (row.id == i)) [
    | inl hit ↦ rw (outside, hit, outside) refl
    | inr miss ↦ rw (outside, miss, outside) refl
  ]
]

execute_each_lem :
    (project : ℕ) (pairs : Orders) (rows : List Choice)
    → execute_each project pairs rows ≡ map (reordered project pairs) rows
unfolding execute_each
execute_each_lem project [] rows = sym (map-same rows)
  where
    map-same : (rows : List Choice) → map (reordered project []) rows ≡ rows
    map-same [] = refl
    map-same (row ∷ rows) = elim (Bool-cases (row.project_id == project)) [
      | inl inside ↦ rw inside (ap (λ rest. row ∷ rest) (map-same rows))
      | inr outside ↦ rw outside (ap (λ rest. row ∷ rest) (map-same rows))
    ]
execute_each_lem project ((i, order) ∷ pairs) rows =
    execute_each_lem project pairs (update_where (is_choice i project) (give_order order) rows)
    ∙ map-update rows
  where
    map-update :
        (rows : List Choice)
        → map (reordered project pairs) (update_where (is_choice i project) (give_order order) rows)
          ≡ map (reordered project ((i, order) ∷ pairs)) rows
    map-update [] = refl
    map-update (row ∷ rows) =
        ap
          (λ done.
            done
            ∷ map (reordered project pairs)
                (update_where (is_choice i project) (give_order order) rows))
          (reordered-next project i order pairs row)
        ∙ ap (λ rest. reordered project ((i, order) ∷ pairs) row ∷ rest) (map-update rows)

abbrev pub reorder : ℕ → Orders → List Choice → List Choice
reorder project pairs rows = map (reordered project pairs) rows

-- Each bulk update of choices gives a row of its table the order that the last pair with its id gives, if
-- the row is of the project and there is one, and changes no other row and no other table.
pub bulk_update_choices_lem :
    (project : ℕ) (pairs : Orders) (t : Choices)
    → (bulk_update_epic_status_order project pairs t
        ≡ record t { epic_statuses = reorder project pairs t.epic_statuses })
      × (bulk_update_userstory_status_order project pairs t
          ≡ record t { userstory_statuses = reorder project pairs t.userstory_statuses })
      × (bulk_update_points_order project pairs t
          ≡ record t { points = reorder project pairs t.points })
      × (bulk_update_task_status_order project pairs t
          ≡ record t { task_statuses = reorder project pairs t.task_statuses })
      × (bulk_update_issue_status_order project pairs t
          ≡ record t { issue_statuses = reorder project pairs t.issue_statuses })
      × (bulk_update_issue_type_order project pairs t
          ≡ record t { issue_types = reorder project pairs t.issue_types })
      × (bulk_update_priority_order project pairs t
          ≡ record t { priorities = reorder project pairs t.priorities })
      × (bulk_update_severity_order project pairs t
          ≡ record t { severities = reorder project pairs t.severities })
bulk_update_choices_lem project pairs t = (
  ap (λ rows. record t { epic_statuses = rows }) (execute_each_lem project pairs t.epic_statuses),
  ap (λ rows. record t { userstory_statuses = rows })
      (execute_each_lem project pairs t.userstory_statuses),
  ap (λ rows. record t { points = rows }) (execute_each_lem project pairs t.points),
  ap (λ rows. record t { task_statuses = rows }) (execute_each_lem project pairs t.task_statuses),
  ap (λ rows. record t { issue_statuses = rows }) (execute_each_lem project pairs t.issue_statuses),
  ap (λ rows. record t { issue_types = rows }) (execute_each_lem project pairs t.issue_types),
  ap (λ rows. record t { priorities = rows }) (execute_each_lem project pairs t.priorities),
  ap (λ rows. record t { severities = rows }) (execute_each_lem project pairs t.severities),
)
