-- ===== src/DueDates/Serializers.antt =====
-- `DueDateSerializerMixin.get_due_date_status`. Dates are day ordinals.
use taiga_back_schedule_mana.Base.{ℕ, ◌+◌, Bool, false, Option, none, some, ltb, leb, if◌then◌else◌}
use taiga_back_schedule_mana.Model.{Date}

pub data DueDateStatus : Type 0 where
  not_set : DueDateStatus
  no_longer_applicable : DueDateStatus
  past_due : DueDateStatus
  due_soon : DueDateStatus
  set : DueDateStatus

abbrev pub threshold : ℕ
threshold = 14

-- Of the status of an item only whether it is closed.
abbrev pub is_closed : Option Bool → Bool
is_closed none = false
is_closed (some closed) = closed

unfoldable pub get_due_date_status : Date → Option Date → Option Bool → DueDateStatus
get_due_date_status today none status = not_set
get_due_date_status today (some due_date) status =
    if is_closed status
    then no_longer_applicable
    else if ltb due_date today
    then past_due
    else if leb due_date (today + threshold)
    then due_soon
    else set
