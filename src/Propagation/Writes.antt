-- ===== src/Propagation/Writes.antt =====
-- The single writes of a propagation, as steps of the table of schedules.
use taiga_back_schedule_mana.Base.{
  ℕ, ◌<◌, ◌≡◌, refl, subst, false, Option, none, some, List, [], ◌∷◌, ◌++◌, ◌==◌, Bool-cases,
  Option-cases, inl, inr, first, All, if◌then◌else◌, arith,
}
use taiga_back_schedule_mana.Model.{
  Date, EntityType, epic, userstory, task, Schedule, ScheduleItemOrder, Orders, Database,
  get_schedule, is_of, Result, ok, err, integrity_error, overflow_error, raise_if, ok-injective,
  >>=-eq-ok,
}
use taiga_back_schedule_mana.Dates.{
  Updates, apply_updates, given_or, has_updates, NotEarlier, find_schedule, get_effective_start,
  starts_late_enough, shift_overflows, shift_updates, shifted, shifted_due-NotEarlier,
  build_expand_bounds_updates, get_due_from_schedule_or_fallback,
}
use taiga_back_schedule_mana.Schedules.{
  blank_schedule, get_or_create, update_schedule_row, upsert_row, upsert_schedule,
  update_entity_due_date, settle, sync_schedule_item_order,
}
use taiga_back_schedule_mana.Propagation.Moves.{Shift, write_shift, shift_schedule_forward_to_start}
use taiga_back_schedule_mana.Propagation.Keyed.{
  Keyed, Step, Same, Same-Step, Step-trans, update-Step, append-Step, first-find,
}

pub update_entity_due_date-Same :
    (t : EntityType) (i : ℕ) (due : Option Date) (db db' : Database)
    → update_entity_due_date t i due db ≡ ok db'
    → Same db db'
unfolding update_entity_due_date
update_entity_due_date-Same epic i due db db' e = ground arith
update_entity_due_date-Same userstory i due db db' e = ground arith
update_entity_due_date-Same task i due db db' e = ground arith

settle-Same :
    (i : ℕ) (db : Database) (r : Result (ScheduleItemOrder × Orders))
    (x : Option ScheduleItemOrder × Database)
    → settle i db r ≡ ok x
    → Same db x.1
unfolding settle
settle-Same i db (ok r) x e = ground arith
settle-Same i db (err integrity_error) x e = ground arith
settle-Same i db (err f) x e = ground arith

pub sync_schedule_item_order-Same :
    (t : EntityType) (i : ℕ) (db : Database) (x : Option ScheduleItemOrder × Database)
    → sync_schedule_item_order t i db ≡ ok x
    → Same db x.1
unfolding sync_schedule_item_order
sync_schedule_item_order-Same t i db x e = elim (Option-cases (get_schedule t i db)) [
  | inl gone ↦
      subst (λ (y : Option ScheduleItemOrder × Database). Same db y.1)
        (ok-injective (rw (gone, sync_schedule_item_order) at e)) (refl, refl)
  | inr (s, found) ↦ settle-Same s.id db _ x (rw (found, sync_schedule_item_order) at e)
]

-- A write that shifts a stored schedule.
write_shift-Step :
    (s : Schedule) (required_start : Date) (db : Database) (r : Shift)
    → Keyed db
    → find_schedule s.id db ≡ some s
    → starts_late_enough (get_effective_start (some s)) required_start ≡ false
    → write_shift s required_start db ≡ ok r
    → Step db r.db
unfolding write_shift shifted
write_shift-Step s required_start db r k found early e' =
    let (_, _, e) = >>=-eq-ok (raise_if (shift_overflows s required_start) overflow_error) _ e' in
    let u = shift_updates s required_start in
    let stepped = update-Step u s db k found (later (shifted_due-NotEarlier s required_start).0) in
    elim (Option-cases u.due_date) [
      | inl kept ↦ subst (λ (q : Shift). Step db q.db) (ok-injective (rw kept at e)) stepped
      | inr (due, changed) ↦
          let (db', written, same) =
            >>=-eq-ok
              (update_entity_due_date s.entity_type s.entity_id due (update_schedule_row s.id u db))
              _ (rw changed at e) in
          subst (λ (q : Shift). Step db q.db) (ok-injective same)
            (Step-trans db (update_schedule_row s.id u db) db' stepped.1 (
              Same-Step (update_schedule_row s.id u db) db' stepped.0
                (update_entity_due_date-Same s.entity_type s.entity_id due _ db' written)))
    ]
  where
    later :
        NotEarlier s.due_date (shifted s required_start).due_date
        → NotEarlier s.due_date (given_or (shift_updates s required_start).due_date s.due_date)
    later h = rw early at h

pub shift_schedule_forward_to_start-Step :
    (s : Schedule) (required_start : Date) (db : Database) (r : Shift)
    → Keyed db
    → find_schedule s.id db ≡ some s
    → shift_schedule_forward_to_start (some s) (some required_start) db ≡ ok r
    → Step db r.db
unfolding shift_schedule_forward_to_start
shift_schedule_forward_to_start-Step s required_start db r k found e =
    elim (Bool-cases (starts_late_enough (get_effective_start (some s)) required_start)) [
      | inl late ↦
          subst (λ (q : Shift). Step db q.db) (ok-injective (rw late at e))
            (Same-Step db db k (refl, refl))
      | inr early ↦ write_shift-Step s required_start db r k found early (rw early at e)
    ]

-- The updates that an upsert is given do not make the due date of the entity's schedule earlier.
abbrev pub Extends : Option Schedule → Updates → Type 0
Extends none u = Unit
Extends (some s) u = NotEarlier s.due_date (given_or u.due_date s.due_date)

pub build_expand-Extends :
    (s : Option Schedule) (fallback_due candidate_start candidate_due : Option Date)
    → Extends s (build_expand_bounds_updates s fallback_due candidate_start candidate_due)
unfolding build_expand_bounds_updates get_due_from_schedule_or_fallback
build_expand-Extends none fallback_due candidate_start candidate_due = tt
build_expand-Extends (some s) fallback_due candidate_start candidate_due = ground arith

-- The updates of a call, with the project where it changes.
abbrev with_project : Schedule → ℕ → Updates → Updates
with_project s project_id given = record given {
  project_id = if s.project_id == project_id then none else some project_id;
}

abbrev written_row : Schedule → Updates → Database → Schedule × Database
written_row s u db =
    if has_updates u then (apply_updates u s, update_schedule_row s.id u db) else (s, db)

written_row-Step :
    (s : Schedule) (u : Updates) (db : Database)
    → Keyed db
    → find_schedule s.id db ≡ some s
    → NotEarlier s.due_date (given_or u.due_date s.due_date)
    → Step db (written_row s u db).1
written_row-Step s u db k found later = elim (Bool-cases (has_updates u)) [
  | inl some_key ↦ rw some_key (update-Step u s db k found later)
  | inr no_key ↦ rw no_key (Same-Step db db k (refl, refl))
]

first-new :
    (rows : List Schedule) (s : Schedule)
    → All (λ r. r.id < s.id) rows
    → first (λ r. r.id == s.id) (rows ++ s ∷ []) ≡ some s
first-new [] s b = ground arith
first-new (r ∷ rows) s b = ground (arith, first-new rows s b.1)

-- The row that an upsert starts from is stored, and may be given the updates.
abbrev Ready : Updates → Database → Schedule × Database → Type 0
Ready given db (s, db') =
    Step db db'
    × (find_schedule s.id db' ≡ some s)
    × NotEarlier s.due_date (given_or given.due_date s.due_date)

get_or_create-Ready :
    (t : EntityType) (i project_id : ℕ) (given : Updates) (db : Database)
    → Keyed db
    → Extends (get_schedule t i db) given
    → Ready given db (get_or_create t i project_id db)
unfolding get_or_create get_schedule
get_or_create-Ready t i project_id given db k later = elim (Option-cases (get_schedule t i db)) [
  | inr (s, found) ↦
      rw (found, get_or_create)
        (
          Same-Step db db k (refl, refl),
          first-find (is_of t i) s db.schedules k.0 found,
          rw found at later,
        )
  | inl gone ↦
      let s = blank_schedule db.next_schedule_id t i project_id in
      rw (gone, get_or_create) (append-Step s db k refl, first-new db.schedules s k.1, tt)
]

upsert_row-Step :
    (t : EntityType) (i project_id : ℕ) (given : Updates) (db : Database)
    → Keyed db
    → Extends (get_schedule t i db) given
    → Step db (upsert_row t i project_id given db).1
unfolding upsert_row
upsert_row-Step t i project_id given db k later =
    let (s, db') = get_or_create t i project_id db in
    let (grown, stored, extends) = get_or_create-Ready t i project_id given db k later in
    Step-trans db db' (written_row s (with_project s project_id given) db').1 grown.1
      (written_row-Step s (with_project s project_id given) db' grown.0 stored extends)

pub upsert_schedule-Step :
    (t : EntityType) (i project_id : ℕ) (given : Updates) (db : Database) (x : Schedule × Database)
    → Keyed db
    → Extends (get_schedule t i db) given
    → upsert_schedule t i project_id given db ≡ ok x
    → Step db x.1
unfolding upsert_schedule
upsert_schedule-Step t i project_id given db x k later e =
    let row = upsert_row t i project_id given db in
    let (k', moved) = upsert_row-Step t i project_id given db k later in
    let (synced, done, same) = >>=-eq-ok (sync_schedule_item_order t i row.1) _ e in
    subst (λ (y : Schedule × Database). Step db y.1) (ok-injective same)
      (Step-trans db row.1 synced.1 moved
        (Same-Step row.1 synced.1 k' (sync_schedule_item_order-Same t i row.1 synced done)))
