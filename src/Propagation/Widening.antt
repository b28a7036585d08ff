-- ===== src/Propagation/Widening.antt =====
-- The due dates of the schedules under the widening of user stories and epics.
use taiga_back_schedule_mana.Base.{
  ℕ, ◌≡◌, refl, subst, Option, none, some, ◌==◌, Bool-cases, Option-cases, inl, inr,
}
use taiga_back_schedule_mana.Model.{
  Date, EntityType, epic, userstory, task, Schedule, UserStory, Epic, Database, get_schedule,
  find_task, find_userstory, Result, ok, ◌>>=◌, ok-injective, >>=-eq-ok,
}
use taiga_back_schedule_mana.Dates.{has_updates, build_expand_bounds_updates}
use taiga_back_schedule_mana.Schedules.{upsert_schedule}
use taiga_back_schedule_mana.Propagation.Bounds.{
  Propagate, propagate_of, write_due, expand_userstory_bounds, expand_epic_bounds, epic_of,
  ensure_epic_bounds_for_userstory, parent_of_task, ensure_userstory_and_epic_bounds_from_task,
  ensure_by_type, ensure_ancestor_bounds,
}
use taiga_back_schedule_mana.Propagation.Keyed.{Keyed, Step, Same-Step, Step-trans}
use taiga_back_schedule_mana.Propagation.Writes.{
  update_entity_due_date-Same, build_expand-Extends, upsert_schedule-Step,
}

-- A call that only moves due dates later.
abbrev pub Steps : (Database → Result Database) → Type 0
Steps f = (db db' : Database) → Keyed db → f db ≡ ok db' → Step db db'

-- A call that does nothing.
pub stay : (db db' : Database) → Keyed db → ok db ≡ ok db' → Step db db'
stay db db' k e = subst (Step db) (ok-injective e) (Same-Step db db k (refl, refl))

-- One call after another.
pub Steps-bind :
    (f : Database → Result Database) (g : Database → Result Database)
    → Steps f
    → Steps g
    → Steps (λ db. f db >>= g)
Steps-bind f g hf hg db db' k e =
    let (mid, runs, rest) = >>=-eq-ok (f db) g e in
    let (k', moved) = hf db mid k runs in Step-trans db mid db' moved (hg mid db' k' rest)

module _ (propagate : Propagate) (h : (i : ℕ) → Steps (propagate i)) where
  propagate_of-Steps : (t : EntityType) (i : ℕ) → Steps (propagate_of propagate t i)
  unfolding propagate_of
  propagate_of-Steps t i db db' k e = elim (Option-cases (get_schedule t i db)) [
    | inl gone ↦ stay db db' k (rw (gone, propagate_of) at e)
    | inr (s, found) ↦ h s.id db db' k (rw (found, propagate_of) at e)
  ]

  write_due-Steps : (i : ℕ) (due : Option (Option Date)) → Steps (write_due propagate i due)
  write_due-Steps i none db db' k e = stay db db' k e
  write_due-Steps i (some due) db db' k e =
      Same-Step db db' k (update_entity_due_date-Same userstory i due db db' e)

  expand_userstory_bounds-Steps :
      (us : UserStory) (start due : Option Date)
      → Steps (expand_userstory_bounds propagate us start due)
  unfolding expand_userstory_bounds
  expand_userstory_bounds-Steps us start due db db' k e =
      let s = get_schedule userstory us.id db in
      let u = build_expand_bounds_updates s us.due_date start due in
      elim (Bool-cases (has_updates u)) [
        | inr no_key ↦ stay db db' k (rw (no_key, expand_userstory_bounds) at e)
        | inl some_key ↦
            let (row, upserted, rest) =
              >>=-eq-ok (upsert_schedule userstory us.id us.project_id u db) _
                (rw (some_key, expand_userstory_bounds) at e) in
            let (k', moved) =
              upsert_schedule-Step userstory us.id us.project_id u db row k
                (build_expand-Extends s us.due_date start due) upserted in
            Step-trans db row.1 db' moved (
              Steps-bind (write_due propagate us.id u.due_date)
                (propagate_of propagate userstory us.id) (write_due-Steps us.id u.due_date)
                (propagate_of-Steps userstory us.id) row.1 db' k' rest)
      ]

  expand_epic_bounds-Steps :
      (p : Epic) (start due : Option Date) → Steps (expand_epic_bounds propagate p start due)
  unfolding expand_epic_bounds
  expand_epic_bounds-Steps p start due db db' k e =
      let s = get_schedule epic p.id db in
      let u = build_expand_bounds_updates s none start due in
      elim (Bool-cases (has_updates u)) [
        | inr no_key ↦ stay db db' k (rw (no_key, expand_epic_bounds) at e)
        | inl some_key ↦
            let (row, upserted, rest) =
              >>=-eq-ok (upsert_schedule epic p.id p.project_id u db) _
                (rw (some_key, expand_epic_bounds) at e) in
            let (k', moved) =
              upsert_schedule-Step epic p.id p.project_id u db row k
                (build_expand-Extends s none start due) upserted in
            Step-trans db row.1 db' moved (propagate_of-Steps epic p.id row.1 db' k' rest)
      ]

  ensure_epic_bounds_for_userstory-Steps :
      (i : ℕ) → Steps (ensure_epic_bounds_for_userstory propagate i)
  unfolding ensure_epic_bounds_for_userstory
  ensure_epic_bounds_for_userstory-Steps i db db' k e = elim (Bool-cases (i == 0)) [
    | inl no_id ↦ stay db db' k (rw (no_id, ensure_epic_bounds_for_userstory) at e)
    | inr saved ↦ elim (Option-cases (find_userstory i db)) [
      | inl gone ↦ stay db db' k (rw (saved, gone, ensure_epic_bounds_for_userstory) at e)
      | inr (us, found) ↦ elim (Option-cases (epic_of propagate us.id db)) [
        | inl alone ↦
            stay db db' k (rw (saved, found, alone, ensure_epic_bounds_for_userstory) at e)
        | inr (p, parent) ↦
            expand_epic_bounds-Steps p _ _ db db' k
              (rw (saved, found, parent, ensure_epic_bounds_for_userstory) at e)
      ]
    ]
  ]

  ensure_from_task-Steps :
      (i : ℕ) (wanted : Option ℕ)
      → Steps (ensure_userstory_and_epic_bounds_from_task propagate i wanted)
  unfolding ensure_userstory_and_epic_bounds_from_task
  ensure_from_task-Steps i wanted db db' k e = elim (Bool-cases (i == 0)) [
    | inl no_id ↦ stay db db' k (rw (no_id, ensure_userstory_and_epic_bounds_from_task) at e)
    | inr saved ↦ elim (Option-cases (find_task i db)) [
      | inl gone ↦ stay db db' k (rw (saved, gone, ensure_userstory_and_epic_bounds_from_task) at e)
      | inr (t, found) ↦ elim (Option-cases (parent_of_task propagate wanted t db)) [
        | inl alone ↦
            stay db db' k
              (rw (saved, found, alone, ensure_userstory_and_epic_bounds_from_task) at e)
        | inr (us, parent) ↦
            Steps-bind (expand_userstory_bounds propagate us _ _)
              (ensure_epic_bounds_for_userstory propagate us.id)
              (expand_userstory_bounds-Steps us _ _) (ensure_epic_bounds_for_userstory-Steps us.id)
              db db' k (rw (saved, found, parent, ensure_userstory_and_epic_bounds_from_task) at e)
      ]
    ]
  ]

  pub ensure_ancestor_bounds-Steps : (s : Schedule) → Steps (ensure_ancestor_bounds propagate s)
  unfolding ensure_ancestor_bounds ensure_by_type
  ensure_ancestor_bounds-Steps s db db' k e = elim (Bool-cases (s.entity_id == 0)) [
    | inl no_id ↦ stay db db' k (rw (no_id, ensure_ancestor_bounds) at e)
    | inr saved ↦ by_type s.entity_type db db' k (rw (saved, ensure_ancestor_bounds) at e)
  ]
    where
      by_type : (t : EntityType) → Steps (ensure_by_type propagate t s.entity_id)
      by_type epic db db' k e = stay db db' k e
      by_type userstory db db' k e = ensure_epic_bounds_for_userstory-Steps s.entity_id db db' k e
      by_type task db db' k e = ensure_from_task-Steps s.entity_id none db db' k e
