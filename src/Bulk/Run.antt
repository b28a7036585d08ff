-- ===== src/Bulk/Run.antt =====
-- `apply_schedule_dates_in_bulk`.
use taiga_back_schedule_mana.Base.{ℕ, ℤ, Option, List, [], is_empty, if◌then◌else◌}
use taiga_back_schedule_mana.Model.{
  Database, Result, ok, value_error, invalid_project_id, ◌>>=◌, ◌>>◌,
}
use taiga_back_schedule_mana.Propagation.{propagate_chain}
use taiga_back_schedule_mana.Bulk.Request.{
  RawUpdate, Update, parse_id, or_raise, normalize_schedule_bulk_date_updates,
}
use taiga_back_schedule_mana.Bulk.Lock.{lock_schedule_bulk_entities}
use taiga_back_schedule_mana.Bulk.Apply.{
  apply_schedule_bulk_updates, sync_schedule_bulk_side_effects,
}
use taiga_back_schedule_mana.Bulk.Validate.{validate_schedule_bulk_updates}
use taiga_back_schedule_mana.Bulk.Emit.{emit_schedule_bulk_change_events}

-- The transaction. `depth` is the depth that Python's stack leaves for the propagation.
unfoldable pub bulk_transaction : ℕ → ℕ → List Update → Database → Result Database
bulk_transaction depth project_id updates db = do
  locked ← lock_schedule_bulk_entities project_id updates db
  applied ← apply_schedule_bulk_updates project_id updates locked db
  synced ← sync_schedule_bulk_side_effects (propagate_chain depth) updates applied.1
  validate_schedule_bulk_updates updates applied.0 synced
  ok (emit_schedule_bulk_change_events project_id updates synced)

-- `project_id` is the outcome of `int(project_id)`.
unfoldable pub apply_schedule_dates_in_bulk :
    ℕ → Option ℤ → List RawUpdate → Database → Result (List Update × Database)
apply_schedule_dates_in_bulk depth raw_project_id raws db = do
  project_id ← or_raise (parse_id raw_project_id) (value_error invalid_project_id)
  updates ← normalize_schedule_bulk_date_updates raws
  let run = bulk_transaction depth project_id updates db >>= λ db'. ok (updates, db')
  if is_empty updates then ok ([], db) else run
