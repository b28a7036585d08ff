-- ===== src/Tests/Order.antt =====
-- The theorems on the order of the items at the sample project.
use taiga_back_schedule_mana.Base.{
  none, refl, ◌+◌, false, ℕ, zero, suc, ◌+◌, ◌≤◌, ◌≡◌, ◌↔◌, false, some, List, [], ◌∷◌, map, All,
  arith,
}
use taiga_back_schedule_mana.Model.{
  get_schedule, Database, userstory, task, ScheduleItemOrder, Result, ok, err, integrity_error,
}
use taiga_back_schedule_mana.ItemOrder.{
  move_to_group, key_of, move_within_group, set_position, without, GroupKey,
  persist_group_positions, clean_item_order, clean_item_order_iff, MayStandUnder,
}
use taiga_back_schedule_mana.ItemOrder.Writes.{Unique, Distinct}
use taiga_back_schedule_mana.ItemOrder.Arrange.{landing, reordered, siblings, move_within_group_lem}
use taiga_back_schedule_mana.ItemOrder.Regroup.{
  Bounded, arrival, closed, enlarged, newcomer, move_to_group_lem,
}
use taiga_back_schedule_mana.ItemOrder.Indexes.{index_of}
use taiga_back_schedule_mana.Schedules.Closing.{delete_item_order_lem}
use taiga_back_schedule_mana.Schedules.{delete_item_order, delete_schedule, touches}
use taiga_back_schedule_mana.Schedules.Removal.{delete_schedule_lem}
use taiga_back_schedule_mana.Dates.{find_schedule}
use taiga_back_schedule_mana.ItemOrder.Listing.{Listed, renumbered}
use taiga_back_schedule_mana.ItemOrder.Renumber.{persist_group_positions_lem}
use taiga_back_schedule_mana.Tests.Samples.{sample, sample_rows, first_row, second_row, first_task}

abbrev swapped : List ScheduleItemOrder
swapped = second_row ∷ first_row ∷ []

abbrev task_group : GroupKey
task_group = (1, task, some userstory, 20)

swapped-Distinct : Distinct swapped
swapped-Distinct = omega arith

rows-Distinct : Distinct sample_rows
rows-Distinct = omega arith

rows-Unique : Unique sample_rows
rows-Unique = ground arith

swapped-Listed : All (Listed task_group swapped) sample_rows
swapped-Listed = ground arith

persist_group_positions_lem_example :
    (persist_group_positions swapped sample_rows ≡ ok (map (renumbered swapped) sample_rows))
    × Unique (map (renumbered swapped) sample_rows)
persist_group_positions_lem_example =
    persist_group_positions_lem task_group swapped sample_rows swapped-Distinct rows-Distinct
      rows-Unique swapped-Listed

-- An operation that meets another writer at its first attempt.
abbrev second_time : ℕ → Result ℕ
second_time zero = err integrity_error
second_time (suc attempt) = ok (attempt + 1)

clean_item_order_iff_example : (clean_item_order first_task first_row ≡ ok tt) ↔ (
    (first_task.project_id ≡ first_row.project_id)
    × (first_task.entity_type ≡ first_row.entity_type)
    × (1 ≤ first_row.position)
    × MayStandUnder first_row.entity_type first_row)
clean_item_order_iff_example = clean_item_order_iff first_task first_row

move_within_group_lem_example :
    let position = landing second_row (some 1) sample_rows in
    let ordered = reordered second_row position sample_rows in
    (move_within_group second_row (key_of second_row) (some 1) sample_rows
      ≡ ok (set_position position second_row, map (renumbered ordered) sample_rows))
    × Unique (map (renumbered ordered) sample_rows)
    × (index_of second_row.id 1 ordered ≡ some position)
move_within_group_lem_example =
    move_within_group_lem second_row (some 1) sample_rows rows-Distinct rows-Unique refl

delete_item_order_lem_example :
    (delete_item_order 3 sample_rows
      ≡ ok (map (renumbered (siblings first_row sample_rows)) (without first_row.id sample_rows)))
    × Unique (map (renumbered (siblings first_row sample_rows)) (without first_row.id sample_rows))
delete_item_order_lem_example =
    delete_item_order_lem 3 sample_rows first_row rows-Distinct rows-Unique refl

-- A task that leaves its user story for the root, where no task stands.
abbrev root_tasks : GroupKey
root_tasks = (1, task, none, 0)

rows-Bounded : Bounded root_tasks sample_rows
rows-Bounded = ground arith

move_to_group_lem_example :
    let position = arrival root_tasks none sample_rows in
    let ordered = enlarged first_row root_tasks sample_rows position in
    (move_to_group first_row (key_of first_row) root_tasks none sample_rows
      ≡ ok (
        set_position position (newcomer first_row root_tasks sample_rows),
        map (renumbered ordered) (closed first_row root_tasks sample_rows),
      ))
    × Unique (map (renumbered ordered) (closed first_row root_tasks sample_rows))
    × (index_of first_row.id 1 ordered ≡ some position)
move_to_group_lem_example =
    move_to_group_lem first_row root_tasks none sample_rows (λ e. moved e) rows-Distinct rows-Unique
      rows-Bounded refl
  where
    moved : key_of first_row ≡ root_tasks → ⊥
    moved e = ground arith

delete_schedule_lem_example :
    (db' : Database) × (delete_schedule task 30 sample ≡ ok db')
    × (find_schedule 3 db' ≡ none)
    × All (λ d. touches 3 d ≡ false) db'.dependencies
    × Unique db'.orders.rows
unfolding get_schedule
delete_schedule_lem_example =
    delete_schedule_lem task 30 sample first_task rows-Distinct rows-Unique refl
