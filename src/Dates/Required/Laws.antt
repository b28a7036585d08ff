-- ===== src/Dates/Required/Laws.antt =====
-- The required start and the checks against the due dates of the sources.
use taiga_back_schedule_mana.Base.{
  ℕ, ◌≤◌, ◌<◌, ◌≡◌, ◌↔◌, ◌≢◌, refl, Option, none, some, List, [], ◌∷◌, All, arith, Bool-cases, inl,
  inr, ◌==◌, ==_iff,
}
use taiga_back_schedule_mana.Model.{Date, EntityType, Schedule, Database, get_schedule}
use taiga_back_schedule_mana.Dates.Effective.{Proposal, get_proposed_bounds_for_entity}
use taiga_back_schedule_mana.Dates.Required.Defs.{
  incoming_due_dates, raise_required, required_start_from,
  get_required_start_from_incoming_dependencies, first_violation, dependency_error,
  get_dependency_start_violation_error,
}

-- A known due date is before the start.
abbrev pub EndsBefore : Date → Option Date → Type 0
EndsBefore start none = Unit
EndsBefore start (some due) = due < start

-- The start meets the requirement, if there is one.
abbrev pub Meets : Date → Option Date → Type 0
Meets start none = Unit
Meets start (some required) = required ≤ start

raise_required-Meets :
    (start : Date) (due required : Option Date)
    → Meets start (raise_required due required) ↔ (EndsBefore start due × Meets start required)
unfolding raise_required
raise_required-Meets start none required = ground arith
raise_required-Meets start (some due) none = ground arith
raise_required-Meets start (some due) (some r) = ground arith

pub required_start_from-Meets :
    (start : Date) (dues : List (Option Date)) (acc : Option Date)
    → Meets start (required_start_from dues acc) ↔ (All (EndsBefore start) dues × Meets start acc)
unfolding required_start_from
required_start_from-Meets start [] acc = ((λ h. (tt, h)), (λ h. h.1))
required_start_from-Meets start (due ∷ dues) acc =
    let (to, from) = required_start_from-Meets start dues (raise_required due acc) in
    let (split, join) = raise_required-Meets start due acc in
    (
      (λ h. let (rest, now) = to h in let (a, b) = split now in ((a, rest), b)),
      (λ h. from (h.0.1, join (h.0.0, h.1))),
    )

-- For a schedule with an id other than 0, a start meets the required start exactly when it is after
-- every known due date of the sources of its incoming dependencies. So the required start is the
-- least such start, and there is none exactly when no source has a due date.
pub required_start_least :
    (schedule_id : ℕ) (db : Database) (start : Date)
    → schedule_id ≢ 0
    → Meets start (get_required_start_from_incoming_dependencies schedule_id db)
      ↔ All (EndsBefore start) (incoming_due_dates schedule_id db)
unfolding get_required_start_from_incoming_dependencies
required_start_least schedule_id db start h = elim (Bool-cases (schedule_id == 0)) [
  | inl zero_id ↦ absurd (h ((==_iff schedule_id 0).0 zero_id))
  | inr saved ↦
      let (to, from) = required_start_from-Meets start (incoming_due_dates schedule_id db) none in
      rw saved ((λ m. (to m).0), (λ all. from (all, tt)))
]

first_violation-eq-none :
    (start : Date) (dues : List (Option Date))
    → (first_violation start dues ≡ none) ↔ All (EndsBefore start) dues
unfolding first_violation
first_violation-eq-none start [] = ((λ _. tt), (λ _. refl))
first_violation-eq-none start (none ∷ dues) =
    let (to, from) = first_violation-eq-none start dues in ((λ h. (tt, to h)), (λ h. from h.1))
first_violation-eq-none start (some due ∷ dues) = ground (arith, first_violation-eq-none start dues)

-- What `get_dependency_start_violation_error` asks of the proposed start.
abbrev pub Allowed : Option Date → List (Option Date) → Type 0
Allowed start [] = Unit
Allowed none (due ∷ dues) = ⊥
Allowed (some start) (due ∷ dues) = All (EndsBefore start) (due ∷ dues)

pub dependency_error-eq-none :
    (start : Option Date) (dues : List (Option Date))
    → (dependency_error start dues ≡ none) ↔ Allowed start dues
unfolding dependency_error
dependency_error-eq-none start [] = ((λ _. tt), (λ _. refl))
dependency_error-eq-none none (due ∷ dues) = ((λ e. cc), (λ h. absurd h))
dependency_error-eq-none (some start) (due ∷ dues) = first_violation-eq-none start (due ∷ dues)

-- For an item whose id is not 0 and that has a schedule, the check finds no error exactly when the
-- schedule has no incoming dependency, or the proposed start is known and is after every known due
-- date of the sources.
pub dependency_start_iff :
    (obj : Proposal) (entity_type : EntityType) (db : Database) (i : ℕ) (s : Schedule)
    → obj.id ≡ some i
    → i ≢ 0
    → get_schedule entity_type i db ≡ some s
    → (get_dependency_start_violation_error obj entity_type db ≡ none)
      ↔ Allowed (get_proposed_bounds_for_entity obj entity_type db).0 (incoming_due_dates s.id db)
unfolding get_dependency_start_violation_error
dependency_start_iff obj entity_type db i s e h found = elim (Bool-cases (i == 0)) [
  | inl zero_id ↦ absurd (h ((==_iff i 0).0 zero_id))
  | inr saved ↦ rw (e, saved, found) (dependency_error-eq-none _ _)
]
