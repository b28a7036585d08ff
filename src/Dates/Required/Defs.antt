-- ===== src/Dates/Required/Defs.antt =====
-- `_get_required_start_from_incoming_dependencies`, and the checks of a start against it.
use taiga_back_schedule_mana.Base.{
  ℕ, ◌+◌, Bool, false, not, ◌&&◌, ◌||◌, Option, none, some, List, [], ◌∷◌, map, ltb, leb, ◌==◌,
  first, keep, if◌then◌else◌,
}
use taiga_back_schedule_mana.Model.{
  Date, EntityType, Schedule, ScheduleDependency, Database, get_schedule, Message,
  target_needs_start, target_must_start_after, max_date, Result, ok, overflow_error, raise_if,
  ◌>>=◌, ◌>>◌,
}
use taiga_back_schedule_mana.Dates.Effective.{Proposal, get_proposed_bounds_for_entity}

abbrev pub find_schedule : ℕ → Database → Option Schedule
find_schedule schedule_id db = first (λ s. s.id == schedule_id) db.schedules

abbrev pub due_of : Option Schedule → Option Date
due_of none = none
due_of (some s) = s.due_date

-- `dependency.from_schedule.due_date if dependency.from_schedule_id else None`
abbrev pub source_due_date : Database → ScheduleDependency → Option Date
source_due_date db d =
    if d.from_schedule_id == 0 then none else due_of (find_schedule d.from_schedule_id db)

-- `filter(to_schedule_id=schedule_id)`, each with the due date of its source.
unfoldable pub incoming_due_dates : ℕ → Database → List (Option Date)
incoming_due_dates schedule_id db =
    map (source_due_date db) (keep (λ d. d.to_schedule_id == schedule_id) db.dependencies)

-- The body of the loop: the day after the due date, where that is later.
unfoldable pub raise_required : Option Date → Option Date → Option Date
raise_required none required_start = required_start
raise_required (some due) none = some (due + 1)
raise_required (some due) (some r) = if ltb r (due + 1) then some (due + 1) else some r

unfoldable pub required_start_from : List (Option Date) → Option Date → Option Date
required_start_from [] required_start = required_start
required_start_from (due ∷ rest) required_start =
    required_start_from rest (raise_required due required_start)

-- What the function returns, where each day after a due date is a date; `compute_required_start` is the call.
unfoldable pub get_required_start_from_incoming_dependencies : ℕ → Database → Option Date
get_required_start_from_incoming_dependencies schedule_id db =
    if schedule_id == 0 then none else required_start_from (incoming_due_dates schedule_id db) none

-- Whether the day after one of the due dates is no date any more.
unfoldable pub any_at_end : List (Option Date) → Bool
any_at_end [] = false
any_at_end (none ∷ rest) = any_at_end rest
any_at_end (some due ∷ rest) = leb max_date due || any_at_end rest

unfoldable pub required_start_overflows : ℕ → Database → Bool
required_start_overflows schedule_id db =
    not (schedule_id == 0) && any_at_end (incoming_due_dates schedule_id db)

-- The call as it is made: `source_due_date + timedelta(days=1)` may raise.
abbrev pub compute_required_start : ℕ → Database → Result (Option Date)
compute_required_start schedule_id db = do
  raise_if (required_start_overflows schedule_id db) overflow_error
  ok (get_required_start_from_incoming_dependencies schedule_id db)

-- The loop of `get_dependency_start_violation_error`.
unfoldable pub first_violation : Date → List (Option Date) → Option Message
first_violation proposed_start [] = none
first_violation proposed_start (none ∷ rest) = first_violation proposed_start rest
first_violation proposed_start (some due ∷ rest) =
    if leb proposed_start due
    then some target_must_start_after
    else first_violation proposed_start rest

unfoldable pub dependency_error : Option Date → List (Option Date) → Option Message
dependency_error proposed_start [] = none
dependency_error none (due ∷ rest) = some target_needs_start
dependency_error (some start) (due ∷ rest) = first_violation start (due ∷ rest)

unfoldable pub get_dependency_start_violation_error :
    Proposal → EntityType → Database → Option Message
get_dependency_start_violation_error obj entity_type db = elim obj.id [
  | none ↦ none
  | some i ↦ if i == 0 then none else elim (get_schedule entity_type i db) [
    | none ↦ none
    | some s ↦
        dependency_error (get_proposed_bounds_for_entity obj entity_type db).0
          (incoming_due_dates s.id db)
  ]
]

abbrev pub starts_too_early : Date → Option Date → Option Message
starts_too_early candidate_start none = none
starts_too_early candidate_start (some required_start) =
    if ltb candidate_start required_start then some target_must_start_after else none

-- `_get_dependency_violation_for_candidate_start`
unfoldable pub get_dependency_violation_for_candidate_start :
    Option Schedule → Option Date → Database → Result (Option Message)
get_dependency_violation_for_candidate_start none candidate_start db = ok none
get_dependency_violation_for_candidate_start (some s) none db = ok none
get_dependency_violation_for_candidate_start (some s) (some candidate_start) db = do
  required ← compute_required_start s.id db
  ok (starts_too_early candidate_start required)
