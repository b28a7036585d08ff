-- ===== src/DueDates/Status.antt =====
-- The days on which an item has each status.
use taiga_back_schedule_mana.Base.{◌+◌, ◌≤◌, ◌<◌, ◌≡◌, Bool, false, Option, some, ◌↔◌, arith}
use taiga_back_schedule_mana.Model.{Date}
use taiga_back_schedule_mana.DueDates.Serializers.{
  past_due, due_soon, set, is_closed, get_due_date_status,
}

-- An item with a due date that is not closed is past due exactly after that day, due soon exactly on that day
-- and the 14 days before it, and set exactly on the days before those; it never has another status.
pub get_due_date_status_lem :
    (today due_date : Date) (status : Option Bool)
    → is_closed status ≡ false
    → ((get_due_date_status today (some due_date) status ≡ past_due) ↔ (due_date < today))
      × ((get_due_date_status today (some due_date) status ≡ due_soon)
          ↔ ((today ≤ due_date) × (due_date ≤ today + 14)))
      × ((get_due_date_status today (some due_date) status ≡ set) ↔ (today + 14 < due_date))
unfolding get_due_date_status
get_due_date_status_lem today due_date status open_item = rw open_item (ground arith)
