-- ===== src/Schedules/Delete.antt =====
-- `delete_schedule`: the row in the order goes first, its siblings close the gap, and the schedule
-- takes its dependencies with it (`on_delete=CASCADE`). All of it is one transaction.
use taiga_back_schedule_mana.Base.{ℕ, Bool, ◌||◌, not, none, some, List, ◌==◌, keep}
use taiga_back_schedule_mana.Model.{
  EntityType, ScheduleDependency, ScheduleItemOrder, Database, get_schedule, Result, ok, ◌>>=◌,
}
use taiga_back_schedule_mana.ItemOrder.{
  key_of, fetch_group_items, persist_group_positions, row_of_schedule, without,
}

-- The row of the schedule goes, and the rows behind it move up.
unfoldable pub delete_item_order : ℕ → List ScheduleItemOrder → Result (List ScheduleItemOrder)
delete_item_order schedule_id rows = elim (row_of_schedule schedule_id rows) [
  | none ↦ ok rows
  | some r ↦
      persist_group_positions (without r.id (fetch_group_items (key_of r) rows)) (without r.id rows)
]

abbrev pub touches : ℕ → ScheduleDependency → Bool
touches schedule_id d = d.from_schedule_id == schedule_id || d.to_schedule_id == schedule_id

unfoldable pub delete_schedule : EntityType → ℕ → Database → Result Database
delete_schedule entity_type entity_id db = elim (get_schedule entity_type entity_id db) [
  | none ↦ ok db
  | some s ↦ do
    rows ← delete_item_order s.id db.orders.rows
    ok (record db {
      orders = record { rows = rows; next_id = db.orders.next_id };
      schedules = keep (λ t. not (t.id == s.id)) db.schedules;
      dependencies = keep (λ d. not (touches s.id d)) db.dependencies;
    })
]
