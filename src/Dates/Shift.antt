-- ===== src/Dates/Shift.antt =====
-- The dates of `_shift_schedule_forward_to_start`: a schedule moves to a later start, and keeps its
-- duration. A difference of dates that would be negative counts as 0 there, as `-` does on ℕ.
use taiga_back_schedule_mana.Base.{
  ◌+◌, ◌-◌, ◌≤◌, ltb, ◌<◌, max, ◌≡◌, ◌↔◌, Bool, true, false, Option, none, some, is_some, leb, ◌==◌,
  if◌then◌else◌, arith,
}
use taiga_back_schedule_mana.Model.{Date, max_date, Schedule}
use taiga_back_schedule_mana.Dates.Effective.{get_effective_start}
use taiga_back_schedule_mana.Dates.Changes.{Updates, no_updates, apply_updates}

-- `next_due`, from the current due date.
unfoldable pub shifted_due : Option Date → Date → Date → Date
shifted_due (some current_start) required_start current_due =
    required_start + (current_due - current_start)
shifted_due none required_start current_due = max current_due required_start

-- `current_start is not None and current_start >= required_start`
unfoldable pub starts_late_enough : Option Date → Date → Bool
starts_late_enough none required_start = false
starts_late_enough (some current_start) required_start = leb required_start current_start

abbrev due_update : Option Date → Date → Option Date → Option (Option Date)
due_update current_start required_start none = none
due_update current_start required_start (some current_due) =
    let next_due = shifted_due current_start required_start current_due in
    if next_due == current_due then none else some (some next_due)

-- Whether `required_start + timedelta(days=duration_days)`, where it is computed, is no date any more.
abbrev passes_end : Option Date → Date → Option Date → Bool
passes_end (some current_start) required_start (some current_due) =
    ltb max_date (required_start + (current_due - current_start))
passes_end _ required_start _ = false

unfoldable pub shift_overflows : Schedule → Date → Bool
shift_overflows s required_start =
    passes_end (get_effective_start (some s)) required_start s.due_date

-- The updates of a schedule that starts too early.
unfoldable pub shift_updates : Schedule → Date → Updates
unfolding shifted_due
shift_updates s required_start =
    let due = due_update (get_effective_start (some s)) required_start s.due_date in
    if is_some s.actual_start
    then record no_updates { actual_start = some (some required_start); due_date = due }
    else record no_updates { estimated_start = some (some required_start); due_date = due }

-- A known start before the required one, a known due date, and the required start so late that it leaves
-- no room for the duration before the last date.
abbrev pub PassesEnd : Option Date → Date → Option Date → Type 0
PassesEnd (some start) required_start (some due) =
    (start < required_start) × (max_date < required_start + (due - start))
PassesEnd _ required_start _ = ⊥

pub shift_overflows_iff :
    (s : Schedule) (required_start : Date)
    → starts_late_enough (get_effective_start (some s)) required_start ≡ false
    → (shift_overflows s required_start ≡ true)
      ↔ PassesEnd (get_effective_start (some s)) required_start s.due_date
unfolding shift_overflows starts_late_enough
shift_overflows_iff s required_start early =
    by_dates (get_effective_start (some s)) s.due_date early
  where
    by_dates :
        (start due : Option Date)
        → starts_late_enough start required_start ≡ false
        → (passes_end start required_start due ≡ true) ↔ PassesEnd start required_start due
    by_dates none none early = ground arith
    by_dates none (some due) early = ground arith
    by_dates (some start) none early = ground arith
    by_dates (some start) (some due) early = ground arith

-- A start that is late enough stays, and so does the due date.
pub late_fits :
    (start : Option Date) (required_start : Date) (due : Option Date)
    → starts_late_enough start required_start ≡ true
    → ¬ PassesEnd start required_start due
unfolding starts_late_enough
late_fits none required_start due late = λ h. h
late_fits (some start) required_start none late = λ h. h
late_fits (some start) required_start (some due) late = λ h. ground arith

-- The schedule after the call.
unfoldable pub shifted : Schedule → Date → Schedule
unfolding shift_updates starts_late_enough
shifted s required_start =
    if starts_late_enough (get_effective_start (some s)) required_start
    then s
    else apply_updates (shift_updates s required_start) s

-- `none` stands before every date.
abbrev pub NotEarlier : Option Date → Option Date → Type 0
NotEarlier none new = Unit
NotEarlier (some old) none = ⊥
NotEarlier (some old) (some new) = old ≤ new

-- Where a schedule starts that must not start before the required date.
abbrev pub later_start : Option Date → Date → Date
later_start none required_start = required_start
later_start (some current) required_start = max current required_start

-- The effective start after a shift is the required date, or the old start where that is later; and
-- a second shift to the same date changes nothing.
pub shifted_start :
    (s : Schedule) (required_start : Date)
    → (get_effective_start (some (shifted s required_start))
        ≡ some (later_start (get_effective_start (some s)) required_start))
      × (shifted (shifted s required_start) required_start ≡ shifted s required_start)
unfolding shifted get_effective_start
shifted_start s required_start = (ground arith, ground arith)

-- A shift never makes the due date earlier or drops it, and gives none to a schedule that had none.
pub shifted_due-NotEarlier :
    (s : Schedule) (required_start : Date)
    → NotEarlier s.due_date (shifted s required_start).due_date
      × ((s.due_date ≡ none) ↔ ((shifted s required_start).due_date ≡ none))
unfolding shifted get_effective_start
shifted_due-NotEarlier s required_start = (ground arith, ground arith)

-- A schedule that starts no later than it is due keeps its duration in days under a shift: it starts at the
-- required date, or where it started if that is later, and is due as many days after that as before.
pub shifted_duration :
    (s : Schedule) (required_start : Date) (start due : Date)
    → get_effective_start (some s) ≡ some start
    → s.due_date ≡ some due
    → start ≤ due
    → (get_effective_start (some (shifted s required_start))
        ≡ some (later_start (some start) required_start))
      × ((shifted s required_start).due_date
          ≡ some (later_start (some start) required_start + (due - start)))
unfolding shifted get_effective_start
shifted_duration s required_start start due e d h = (ground arith, ground arith)
