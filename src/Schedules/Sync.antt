-- ===== src/Schedules/Sync.antt =====
-- The row of a schedule in the order of its siblings: `sync_schedule_item_order`,
-- `get_schedule_item_order` and `set_schedule_item_order_position`.
use taiga_back_schedule_mana.Base.{ℕ, max, ℤ, pos_part, Option, none, some}
use taiga_back_schedule_mana.Model.{
  EntityType, ScheduleItemOrder, Orders, Database, get_schedule, Result, ok, err, integrity_error,
  value_error, position_not_integer,
}
use taiga_back_schedule_mana.ItemOrder.{
  resolve_order_parent, row_of_schedule, sync_item_order_for_schedule,
  set_item_order_position_for_schedule, run_with_retries,
}

abbrev pub RowResult : Type 0
RowResult = Result (Option ScheduleItemOrder × Database)

-- What both callers make of the outcome of their attempts: an `IntegrityError` of the last attempt
-- leaves the tables alone, and the row that stands there is returned.
unfoldable pub settle : ℕ → Database → Result (ScheduleItemOrder × Orders) → RowResult
settle schedule_id db (ok (r, o)) = ok (some r, record db { orders = o })
settle schedule_id db (err integrity_error) = ok (row_of_schedule schedule_id db.orders.rows, db)
settle schedule_id db (err e) = err e

unfoldable pub sync_schedule_item_order : EntityType → ℕ → Database → RowResult
sync_schedule_item_order entity_type entity_id db = elim (get_schedule entity_type entity_id db) [
  | none ↦ ok (none, db)
  | some s ↦ settle s.id db (
      run_with_retries (λ _.
        sync_item_order_for_schedule (resolve_order_parent s.entity_type s.entity_id db) s
          db.orders))
]

unfoldable pub get_schedule_item_order : EntityType → ℕ → Database → Option ScheduleItemOrder
get_schedule_item_order entity_type entity_id db = elim (get_schedule entity_type entity_id db) [
  | none ↦ none
  | some s ↦ row_of_schedule s.id db.orders.rows
]

-- `position` is the outcome of `int(position)`: `none` stands for its TypeError or ValueError.
unfoldable pub set_schedule_item_order_position : EntityType → ℕ → Option ℤ → Database → RowResult
set_schedule_item_order_position entity_type entity_id none db =
    err (value_error position_not_integer)
set_schedule_item_order_position entity_type entity_id (some position) db =
    elim (get_schedule entity_type entity_id db) [
      | none ↦ ok (none, db)
      | some s ↦ settle s.id db (
          run_with_retries (λ _.
            set_item_order_position_for_schedule (resolve_order_parent s.entity_type s.entity_id db)
              s (max 1 (pos_part position)) db.orders))
    ]
