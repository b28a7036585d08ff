-- ===== src/OrderUpdates/Elements.antt =====
-- The callers of `apply_order_updates` in taiga/projects/{userstories,tasks,epics}/services.py. A row has the
-- keys that they filter by and its order columns, which have numbers; the event is left out, its ids are
-- those of the dictionary that is given back.
use taiga_back_schedule_mana.Base.{
  ℕ, Bool, true, false, ◌&&◌, Option, none, some, List, [], ◌∷◌, map, keep, ◌==◌, if◌then◌else◌,
}
use taiga_back_schedule_mana.OrderUpdates.Apply.{Orders, get, apply_order_updates}

pub record Element : Type 0 where
  pub id : ℕ
  pub project_id : ℕ
  pub status_id : Option ℕ
  pub milestone_id : Option ℕ
  pub user_story_id : Option ℕ
  pub order_of : ℕ → ℕ

-- `if x is not None: elements = elements.filter(x=x)`
abbrev pub filtered : Option ℕ → Option ℕ → Bool
filtered none key = true
filtered (some i) none = false
filtered (some i) (some key) = key == i

-- `{e.id: getattr(e, field) for e in elements}`
abbrev pub orders_of : ℕ → List Element → Orders
orders_of field rows = map (λ row. (row.id, row.order_of field)) rows

-- `{e["id"]: e["order"] for e in bulk_data}`: a key that comes again has the last of its values.
abbrev pub put : ℕ × ℕ → Orders → Orders
put e [] = e ∷ []
put e (f ∷ orders) = if f.0 == e.0 then (f.0, e.1) ∷ orders else f ∷ put e orders

unfoldable pub dict_from : Orders → Orders → Orders
dict_from dict [] = dict
dict_from dict (e ∷ entries) = dict_from (put e dict) entries

abbrev pub with_order_at : ℕ → Option ℕ → Element → Element
with_order_at field none row = row
with_order_at field (some order) row = record row {
  order_of = λ column. if column == field then order else row.order_of column;
}

-- `update_attr_in_bulk_for_ids`
abbrev pub update_attr_in_bulk_for_ids : Orders → ℕ → List Element → List Element
update_attr_in_bulk_for_ids values field rows =
    map (λ row. with_order_at field (get row.id values) row) rows

-- The steps that the callers share, on the elements of the scope.
abbrev pub update_order_in_bulk :
    Bool → (Element → Bool) → Orders → ℕ → List Element → List Element × Orders
update_order_in_bulk remove_equal_original scope entries field rows =
    let orders =
      apply_order_updates (orders_of field (keep scope rows)) (dict_from [] entries)
        remove_equal_original in
    (update_attr_in_bulk_for_ids orders field rows, orders)

abbrev pub userstory_scope : ℕ → Option ℕ → Option ℕ → Element → Bool
userstory_scope project_id status milestone row =
    row.project_id == project_id
    && (filtered status row.status_id && filtered milestone row.milestone_id)

unfoldable pub update_userstories_order_in_bulk :
    Orders → ℕ → ℕ → Option ℕ → Option ℕ → List Element → List Element × Orders
update_userstories_order_in_bulk entries field project_id status milestone rows =
    update_order_in_bulk true (userstory_scope project_id status milestone) entries field rows

abbrev pub task_scope : ℕ → Option ℕ → Option ℕ → Option ℕ → Element → Bool
task_scope project_id user_story status milestone row =
    row.project_id == project_id
    && (filtered user_story row.user_story_id
        && (filtered status row.status_id && filtered milestone row.milestone_id))

unfoldable pub update_tasks_order_in_bulk :
    Orders → ℕ → ℕ → Option ℕ → Option ℕ → Option ℕ → List Element → List Element × Orders
update_tasks_order_in_bulk entries field project_id user_story status milestone rows =
    update_order_in_bulk false (task_scope project_id user_story status milestone) entries field
      rows

unfoldable pub update_epics_order_in_bulk : Orders → ℕ → ℕ → List Element → List Element × Orders
update_epics_order_in_bulk entries field project_id rows =
    update_order_in_bulk false (λ row. row.project_id == project_id) entries field rows
