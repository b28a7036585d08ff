-- ===== src/Dependencies.antt =====
-- `ScheduleDependency` of taiga/projects/schedule/models.py.
use taiga_back_schedule_mana.Base.{
  ℕ, ◌<◌, ◌≡◌, ◌≢◌, ◌↔◌, refl, sym, ◌∙◌, false, ◌||◌, not, Option, none, some, or_else, leb, ◌==◌,
  ==_iff, if◌then◌else◌, arith, Bool-cases, inl, inr,
}
use taiga_back_schedule_mana.Model.{
  Date, Schedule, ScheduleDependency, Database, Result, ok, err, validation_error, ◌>>◌, raise_if,
  schedules_must_differ, same_project_required, source_needs_due, target_needs_start,
  target_must_start_after,
}
use taiga_back_schedule_mana.Dates.{find_schedule, get_effective_start}

-- The dates of the two schedules. `actual_start or estimated_start` is the effective start.
unfoldable pub clean_dates : Option Date → Option Date → Result (Unit {0})
clean_dates none target_start = err (validation_error source_needs_due)
clean_dates (some source_due) none = err (validation_error target_needs_start)
clean_dates (some source_due) (some target_start) =
    raise_if (leb target_start source_due) (validation_error target_must_start_after)

unfoldable pub clean_schedules : Schedule → Schedule → Result (Unit {0})
clean_schedules source target = do
  raise_if (not (source.project_id == target.project_id)) (validation_error same_project_required)
  clean_dates source.due_date (get_effective_start (some target))

abbrev clean_found : Option Schedule → Option Schedule → Result (Unit {0})
clean_found none target = ok tt
clean_found (some source) none = ok tt
clean_found (some source) (some target) = clean_schedules source target

-- `ScheduleDependency.clean`, which every `save` runs first.
unfoldable pub clean_dependency : ScheduleDependency → Database → Result (Unit {0})
clean_dependency d db =
    if d.from_schedule_id == 0 || d.to_schedule_id == 0
    then ok tt
    else if d.from_schedule_id == d.to_schedule_id
    then err (validation_error schedules_must_differ)
    else clean_found (find_schedule d.from_schedule_id db) (find_schedule d.to_schedule_id db)

abbrev project_of : Option Schedule → Option ℕ
project_of none = none
project_of (some s) = some s.project_id

-- The property `project_id`
unfoldable pub dependency_project_id : ScheduleDependency → Database → Option ℕ
dependency_project_id d db =
    let source = project_of (find_schedule d.from_schedule_id db) in
    let target = project_of (find_schedule d.to_schedule_id db) in
    or_else (if d.from_schedule_id == 0 then none else source)
      (if d.to_schedule_id == 0 then none else target)

-- What the two schedules of a dependency must satisfy.
abbrev pub CanFollow : Schedule → Schedule → Type 0
CanFollow source target =
    (source.project_id ≡ target.project_id)
    × ((due : Date) × (start : Date) × (source.due_date ≡ some due)
        × (get_effective_start (some target) ≡ some start)
        × (due < start))

clean_dates_iff :
    (source_due target_start : Option Date)
    → (clean_dates source_due target_start ≡ ok tt) ↔ (
        (due : Date) × (start : Date) × (source_due ≡ some due)
        × (target_start ≡ some start)
        × (due < start))
unfolding clean_dates
clean_dates_iff none target_start = ((λ e. cc), (λ (due, start, e, _, _). cc))
clean_dates_iff (some source_due) none = ((λ e. cc), (λ (due, start, _, e, _). cc))
clean_dates_iff (some source_due) (some target_start) = (
  (λ e. (source_due, target_start, refl, refl, ground arith)),
  (λ (due, start, d, t, h). ground arith),
)

clean_schedules_iff :
    (source target : Schedule) → (clean_schedules source target ≡ ok tt) ↔ CanFollow source target
unfolding clean_schedules
clean_schedules_iff source target = elim (Bool-cases (source.project_id == target.project_id)) [
  | inl same ↦
      let dates = clean_dates_iff source.due_date (get_effective_start (some target)) in
      rw same (
        (λ e. ((==_iff source.project_id target.project_id).0 same, dates.0 e)),
        (λ h. dates.1 h.1),
      )
  | inr other ↦ rw other ((λ e. cc), (λ h. ground arith))
]

-- A dependency between two stored schedules is accepted exactly when they are different schedules of
-- one project, the source has a due date, the target has an effective start, and the target starts
-- after that due date.
pub clean_dependency_iff :
    (d : ScheduleDependency) (db : Database) (source target : Schedule)
    → d.from_schedule_id ≢ 0
    → d.to_schedule_id ≢ 0
    → find_schedule d.from_schedule_id db ≡ some source
    → find_schedule d.to_schedule_id db ≡ some target
    → (clean_dependency d db ≡ ok tt)
      ↔ ((d.from_schedule_id ≢ d.to_schedule_id) × CanFollow source target)
unfolding clean_dependency
clean_dependency_iff d db source target f t found_source found_target =
    elim (Bool-cases (d.from_schedule_id == d.to_schedule_id)) [
      | inl same ↦ (
        (λ e. ground arith),
        (λ h. absurd (h.0 ((==_iff d.from_schedule_id d.to_schedule_id).0 same))),
      )
      | inr other ↦
          let schedules = clean_schedules_iff source target in
          let e = clean_of_found d db source target f t found_source found_target other in
          ((λ h. (ground arith, schedules.0 (sym e ∙ h))), (λ h. e ∙ schedules.1 h.1))
    ]
  where
    clean_of_found :
        (d : ScheduleDependency) (db : Database) (source target : Schedule)
        → d.from_schedule_id ≢ 0
        → d.to_schedule_id ≢ 0
        → find_schedule d.from_schedule_id db ≡ some source
        → find_schedule d.to_schedule_id db ≡ some target
        → (d.from_schedule_id == d.to_schedule_id) ≡ false
        → clean_dependency d db ≡ clean_schedules source target
    clean_of_found d db source target f t found_source found_target other =
        let from_saved : (d.from_schedule_id == 0) ≡ false = ground arith in
        let to_saved : (d.to_schedule_id == 0) ≡ false = ground arith in
        simp (from_saved, to_saved, other, found_source, found_target)
