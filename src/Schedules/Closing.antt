-- ===== src/Schedules/Closing.antt =====
-- What the order of the items holds when the row of a schedule is deleted.
use taiga_back_schedule_mana.Base.{ℕ, ◌≡◌, ◌≢◌, sym, not, some, List, map, All, All-map}
use taiga_back_schedule_mana.Model.{ScheduleItemOrder, ok}
use taiga_back_schedule_mana.ItemOrder.{key_of, fetch_group_items, has_id, row_of_schedule, without}
use taiga_back_schedule_mana.ItemOrder.Writes.{Distinct, Unique}
use taiga_back_schedule_mana.ItemOrder.Listing.{Agrees, Listed, renumbered}
use taiga_back_schedule_mana.ItemOrder.Renumber.{persist_group_positions_lem}
use taiga_back_schedule_mana.ItemOrder.Groups.{
  keep-All, keep-Distinct, keep-Unique, fetch-Distinct, without-Absent,
}
use taiga_back_schedule_mana.ItemOrder.Members.{Has, Has-without, fetch-Has}
use taiga_back_schedule_mana.ItemOrder.Arrange.{All-both, fetch-Agrees, lists-group, siblings}
use taiga_back_schedule_mana.Schedules.Delete.{delete_item_order}

abbrev Row : Type 0
Row = ScheduleItemOrder

siblings-Listed :
    (r : Row) (rows : List Row)
    → Distinct rows
    → All (Listed (key_of r) (siblings r rows)) (without r.id rows)
siblings-Listed r rows d =
    let k = key_of r in
    let other = λ (s : Row). not (has_id r.id s) in
    let fetched = fetch_group_items k rows in
    lists-group k (siblings r rows) (without r.id rows)
      (All-map {P = λ a. All (λ s. Agrees k s a) rows}
        {Q = λ a. All (λ s. Agrees k s a) (without r.id rows)} (siblings r rows)
        (λ a h. keep-All (λ s. Agrees k s a) other rows h)
        (keep-All (λ a. All (λ s. Agrees k s a) rows) other fetched (fetch-Agrees k rows d)))
      (All-map {P = λ s. (key_of s ≡ k → Has s.id fetched) × (r.id ≢ s.id)}
        {Q = λ s. key_of s ≡ k → Has s.id (siblings r rows)} (without r.id rows)
        (λ s h e. Has-without s.id r.id fetched (λ same. h.1 (sym same)) (h.0 e))
        (All-both (λ s. key_of s ≡ k → Has s.id fetched) (λ s. r.id ≢ s.id) (without r.id rows)
          (keep-All (λ s. key_of s ≡ k → Has s.id fetched) other rows (fetch-Has k rows))
          (without-Absent r.id rows)))

-- Deleting the row of a schedule succeeds: its siblings keep their order and are numbered from 1
-- without a gap, the other groups are unchanged, and no two rows stand at one place.
pub delete_item_order_lem :
    (schedule_id : ℕ) (rows : List ScheduleItemOrder) (r : ScheduleItemOrder)
    → Distinct rows
    → Unique rows
    → row_of_schedule schedule_id rows ≡ some r
    → (delete_item_order schedule_id rows
        ≡ ok (map (renumbered (siblings r rows)) (without r.id rows)))
      × Unique (map (renumbered (siblings r rows)) (without r.id rows))
unfolding delete_item_order
delete_item_order_lem schedule_id rows r d u found =
    let other = λ (s : Row). not (has_id r.id s) in
    let (runs, unique) =
      persist_group_positions_lem (key_of r) (siblings r rows) (without r.id rows)
        (keep-Distinct other _ (fetch-Distinct (key_of r) rows d)) (keep-Distinct other rows d)
        (keep-Unique other rows u) (siblings-Listed r rows d) in
    (rw (found, delete_item_order) runs, unique)
