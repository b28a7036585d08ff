-- ===== src/Tests/Dates.antt =====
-- The theorems on dates at the sample project.
use taiga_back_schedule_mana.Base.{ℕ, ◌+◌, ◌-◌, ◌≡◌, ◌⊎◌, ◌↔◌, ◌≢◌, refl, none, some, All, arith}
use taiga_back_schedule_mana.Model.{
  Date, epic, userstory, task, get_schedule, ok, err, field_does_not_exist, overflow_error,
  ScheduleDependency,
}
use taiga_back_schedule_mana.Dates.{
  Proposal, Within, userstory_bounds_iff, get_proposed_bounds_for_entity, task_dates,
  get_userstory_bounds_violation_error, Meets, EndsBefore, incoming_due_dates,
  get_required_start_from_incoming_dependencies, required_start_least, Allowed,
  get_dependency_start_violation_error, dependency_start_iff, shifted, shifted_due-NotEarlier,
  NotEarlier, shifted_duration, later_start, get_effective_start, build_expand_bounds_updates,
  build_expand_bounds_updates_lem, apply_updates, expand_parent_start, latest,
  get_due_from_schedule_or_fallback, starts_late_enough, shift_overflows, shift_updates,
  shifted_due,
}
use taiga_back_schedule_mana.Propagation.{
  Shift, Stores, TooLate, write_shift, shift_schedule_forward_to_start,
  shift_schedule_forward_to_start_lem, shift_epic_raises,
}
use taiga_back_schedule_mana.Dependencies.{clean_dependency, clean_dependency_iff, CanFollow}
use taiga_back_schedule_mana.Tests.Samples.{sample, first_task, second_task, epic_schedule}

abbrev proposal : ℕ → Date → Date → Proposal
proposal i start due = record {
  id = some i;
  actual_start = some none;
  estimated_start = some (some start);
  due_date = some (some due);
  user_story_id = none;
  user_story = none;
}

userstory_bounds_iff_example :
    (get_userstory_bounds_violation_error (proposal 20 100 120) sample ≡ none)
    ↔ All
        (Within (get_proposed_bounds_for_entity (proposal 20 100 120) userstory sample))
        (task_dates 20 sample)
userstory_bounds_iff_example =
    userstory_bounds_iff (proposal 20 100 120) sample 20 refl (omega arith)

required_start_least_example :
    Meets 106 (get_required_start_from_incoming_dependencies 4 sample)
    ↔ All (EndsBefore 106) (incoming_due_dates 4 sample)
required_start_least_example = required_start_least 4 sample 106 (omega arith)

dependency_start_iff_example :
    (get_dependency_start_violation_error (proposal 31 106 110) task sample ≡ none)
    ↔ Allowed
        (get_proposed_bounds_for_entity (proposal 31 106 110) task sample).0
        (incoming_due_dates 4 sample)
unfolding get_schedule
dependency_start_iff_example =
    dependency_start_iff (proposal 31 106 110) task sample 31 second_task refl (omega arith) refl

shifted_due-NotEarlier_example :
    NotEarlier second_task.due_date (shifted second_task 109).due_date
    × ((second_task.due_date ≡ none) ↔ ((shifted second_task 109).due_date ≡ none))
shifted_due-NotEarlier_example = shifted_due-NotEarlier second_task 109

shifted_duration_example :
    (get_effective_start (some (shifted second_task 109)) ≡ some (later_start (some 106) 109))
    × ((shifted second_task 109).due_date ≡ some (later_start (some 106) 109 + (110 - 106)))
unfolding get_effective_start
shifted_duration_example = shifted_duration second_task 109 106 110 refl refl (omega arith)

build_expand_bounds_updates_lem_example :
    let s' =
      apply_updates
        (build_expand_bounds_updates (some first_task) none (some 90) (some 130))
        first_task in
    (get_effective_start (some s')
      ≡ expand_parent_start (get_effective_start (some first_task)) (some 90))
    × (get_due_from_schedule_or_fallback (some s') none
        ≡ latest (some 130) (get_due_from_schedule_or_fallback (some first_task) none))
build_expand_bounds_updates_lem_example =
    build_expand_bounds_updates_lem first_task none (some 90) (some 130)

shift_schedule_forward_to_start_lem_example :
    TooLate second_task 109
      × (shift_schedule_forward_to_start (some second_task) (some 109) sample ≡ err overflow_error)
    ⊎ (¬ TooLate second_task 109)
      × ((r : Shift) × (shift_schedule_forward_to_start (some second_task) (some 109) sample ≡ ok r)
          × Stores second_task 109 sample r)
shift_schedule_forward_to_start_lem_example =
    shift_schedule_forward_to_start_lem second_task 109 sample (λ e. task≢epic e) refl
  where
    task≢epic : task ≡ epic → ⊥
    task≢epic e = cc

-- The second task lasts from day 106 to day 110; from the last date it would be due four days later.
shift_past_end :
    shift_schedule_forward_to_start (some second_task) (some 3652059) sample ≡ err overflow_error
unfolding shift_schedule_forward_to_start write_shift shift_overflows starts_late_enough
    get_effective_start
shift_past_end = refl

shift_to_end : (shifted second_task 3652055).due_date ≡ some 3652059
unfolding shifted shift_updates shifted_due starts_late_enough get_effective_start
shift_to_end = refl

shift_epic_raises_example :
    TooLate epic_schedule 109
      × (shift_schedule_forward_to_start (some epic_schedule) (some 109) sample
          ≡ err overflow_error)
    ⊎ (¬ TooLate epic_schedule 109)
      × (shift_schedule_forward_to_start (some epic_schedule) (some 109) sample
          ≡ err field_does_not_exist)
unfolding shifted starts_late_enough get_effective_start shift_updates shifted_due
shift_epic_raises_example =
    shift_epic_raises epic_schedule 109 sample refl (omega arith) (λ e. moved e)
  where
    moved : (shifted epic_schedule 109).due_date ≡ epic_schedule.due_date → ⊥
    moved e = ground arith

abbrev link : ScheduleDependency
link = record { from_schedule_id = 3; to_schedule_id = 4 }

clean_dependency_iff_example :
    (clean_dependency link sample ≡ ok tt)
    ↔ ((link.from_schedule_id ≢ link.to_schedule_id) × CanFollow first_task second_task)
clean_dependency_iff_example =
    clean_dependency_iff link sample first_task second_task (omega arith) (omega arith) refl refl
