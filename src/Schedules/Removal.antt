-- ===== src/Schedules/Removal.antt =====
-- What the tables hold after the deletion of a schedule.
use taiga_back_schedule_mana.Base.{
  ℕ, ◌≡◌, refl, false, not, none, some, List, [], ◌∷◌, ◌==◌, Bool-cases, Option-cases, inl, inr,
  All, keep, first,
}
use taiga_back_schedule_mana.Model.{
  EntityType, Schedule, ScheduleDependency, ScheduleItemOrder, Database, get_schedule, ok,
}
use taiga_back_schedule_mana.Dates.{find_schedule}
use taiga_back_schedule_mana.ItemOrder.{row_of_schedule}
use taiga_back_schedule_mana.ItemOrder.Writes.{Distinct, Unique}
use taiga_back_schedule_mana.Schedules.Delete.{delete_item_order, delete_schedule, touches}
use taiga_back_schedule_mana.Schedules.Closing.{delete_item_order_lem}

gone :
    (i : ℕ) (rows : List Schedule)
    → first (λ s. s.id == i) (keep (λ s. not (s.id == i)) rows) ≡ none
gone i [] = refl
gone i (s ∷ rows) = elim (Bool-cases (s.id == i)) [
  | inl hit ↦ rw hit (gone i rows)
  | inr miss ↦ rw (miss, miss) (gone i rows)
]

untouched :
    (i : ℕ) (ds : List ScheduleDependency)
    → All (λ d. touches i d ≡ false) (keep (λ d. not (touches i d)) ds)
untouched i [] = tt
untouched i (d ∷ ds) = elim (Bool-cases (touches i d)) [
  | inl hit ↦ rw hit (untouched i ds)
  | inr miss ↦ rw miss (miss, untouched i ds)
]

order-deleted :
    (i : ℕ) (rows : List ScheduleItemOrder)
    → Distinct rows
    → Unique rows
    → (rows' : List ScheduleItemOrder) × (delete_item_order i rows ≡ ok rows') × Unique rows'
unfolding delete_item_order
order-deleted i rows d u = elim (Option-cases (row_of_schedule i rows)) [
  | inl alone ↦ (rows, rw (alone, delete_item_order) refl, u)
  | inr (r, found) ↦
      let (runs, unique) = delete_item_order_lem i rows r d u found in (_, runs, unique)
]

-- Where the keys of the order are different and no two rows stand at one place, deleting the schedule
-- of an entity succeeds: no schedule has its key any more, no dependency starts or ends at it, and
-- still no two rows of the order stand at one place.
pub delete_schedule_lem :
    (t : EntityType) (i : ℕ) (db : Database) (s : Schedule)
    → Distinct db.orders.rows
    → Unique db.orders.rows
    → get_schedule t i db ≡ some s
    → (db' : Database) × (delete_schedule t i db ≡ ok db')
      × (find_schedule s.id db' ≡ none)
      × All (λ d. touches s.id d ≡ false) db'.dependencies
      × Unique db'.orders.rows
unfolding delete_schedule
delete_schedule_lem t i db s d u found =
    let (rows, runs, unique) = order-deleted s.id db.orders.rows d u in
    (
      record db {
        orders = record { rows = rows; next_id = db.orders.next_id };
        schedules = keep (λ t. not (t.id == s.id)) db.schedules;
        dependencies = keep (λ d. not (touches s.id d)) db.dependencies;
      },
      rw (found, delete_schedule, runs) refl,
      gone s.id db.schedules,
      untouched s.id db.dependencies,
      unique,
    )
