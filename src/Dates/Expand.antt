-- ===== src/Dates/Expand.antt =====
-- `_build_expand_bounds_updates`: a parent is widened to hold a child.
use taiga_back_schedule_mana.Base.{Option, none, some, ltb, ◌≡◌, arith, if◌then◌else◌}
use taiga_back_schedule_mana.Model.{Date, Schedule}
use taiga_back_schedule_mana.Dates.Effective.{
  get_effective_start, get_due_from_schedule_or_fallback,
}
use taiga_back_schedule_mana.Dates.Children.{latest}
use taiga_back_schedule_mana.Dates.Required.{expand_parent_start}
use taiga_back_schedule_mana.Dates.Changes.{Updates, no_updates, apply_updates}

-- The updates of the start, by the starts that the schedule has.
unfoldable pub start_updates : Option Date → Option Date → Date → Updates
start_updates (some actual) estimated candidate =
    if ltb candidate actual
    then record no_updates { actual_start = some (some candidate) }
    else no_updates
start_updates none (some estimated) candidate =
    if ltb candidate estimated
    then record no_updates { estimated_start = some (some candidate) }
    else no_updates
start_updates none none candidate = record no_updates { estimated_start = some (some candidate) }

abbrev expand_start : Option Schedule → Option Date → Updates
expand_start s none = no_updates
expand_start none (some candidate) = start_updates none none candidate
expand_start (some s) (some candidate) = start_updates s.actual_start s.estimated_start candidate

-- `candidate_due is not None and (current_due is None or candidate_due > current_due)`
unfoldable pub extended_due : Option Date → Option Date → Option (Option Date)
extended_due current none = none
extended_due none (some candidate) = some (some candidate)
extended_due (some current) (some candidate) =
    if ltb current candidate then some (some candidate) else none

unfoldable pub build_expand_bounds_updates :
    Option Schedule → Option Date → Option Date → Option Date → Updates
unfolding start_updates extended_due
build_expand_bounds_updates s fallback_due candidate_start candidate_due =
    record (expand_start s candidate_start) {
      due_date = extended_due (get_due_from_schedule_or_fallback s fallback_due) candidate_due;
    }

-- Widening a schedule by a child gives it the start that `_expand_parent_start` foretells, and its
-- due date (or, where it has none, the fallback) becomes the later of its own and the child's.
pub build_expand_bounds_updates_lem :
    (s : Schedule) (fallback_due candidate_start candidate_due : Option Date)
    → let s' =
        apply_updates
          (build_expand_bounds_updates (some s) fallback_due candidate_start candidate_due)
          s in
      (get_effective_start (some s')
        ≡ expand_parent_start (get_effective_start (some s)) candidate_start)
      × (get_due_from_schedule_or_fallback (some s') fallback_due
          ≡ latest candidate_due (get_due_from_schedule_or_fallback (some s) fallback_due))
unfolding build_expand_bounds_updates get_effective_start get_due_from_schedule_or_fallback
    expand_parent_start latest
build_expand_bounds_updates_lem s fallback_due candidate_start candidate_due =
    (ground arith, ground arith)
