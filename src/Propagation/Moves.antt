-- ===== src/Propagation/Moves.antt =====
-- `_shift_schedule_forward_to_start` on the database.
use mathlib.Core.Option
use taiga_back_schedule_mana.Base.{
  refl, sym, ◌∙◌, ◌⊎◌, subst, ==_iff, ap, List, [], ◌∷◌, first, update_where, ◌==◌, Bool-cases,
  Option-cases, inl, inr, ℕ, ◌≡◌, ◌≢◌, Bool, true, false, Option, none, some, if◌then◌else◌, arith,
}
use taiga_back_schedule_mana.Model.{
  Date, Schedule, EntityType, epic, userstory, task, Database, Result, ok, err,
  field_does_not_exist, overflow_error, raise_if, ◌>>=◌, ◌>>◌,
}
use taiga_back_schedule_mana.Dates.{
  get_effective_start, starts_late_enough, shift_overflows, shift_overflows_iff, late_fits,
  PassesEnd, shift_updates, shifted, find_schedule,
}
use taiga_back_schedule_mana.Dates.{Updates, apply_updates}
use taiga_back_schedule_mana.Schedules.{update_schedule_row, update_entity_due_date}

-- The two results, with the tables after the call.
pub record Shift : Type 0 where
  pub moved : Bool
  pub due_changed : Bool
  pub db : Database

abbrev unmoved : Database → Shift
unmoved db = record { moved = false; due_changed = false; db = db }

-- The writes of a schedule that starts too early.
unfoldable pub write_shift : Schedule → Date → Database → Result Shift
write_shift s required_start db =
    let updates = shift_updates s required_start in
    let db' = update_schedule_row s.id updates db in
    raise_if (shift_overflows s required_start) overflow_error >> elim updates.due_date [
      | none ↦ ok (record { moved = true; due_changed = false; db = db' })
      | some due ↦ do
        db'' ← update_entity_due_date s.entity_type s.entity_id due db'
        ok (record { moved = true; due_changed = true; db = db'' })
    ]

unfoldable pub shift_schedule_forward_to_start :
    Option Schedule → Option Date → Database → Result Shift
shift_schedule_forward_to_start none required_start db = ok (unmoved db)
shift_schedule_forward_to_start (some s) none db = ok (unmoved db)
shift_schedule_forward_to_start (some s) (some required_start) db =
    if starts_late_enough (get_effective_start (some s)) required_start
    then ok (unmoved db)
    else write_shift s required_start db

-- The schedule, with its duration, would be due after the last date.
abbrev pub TooLate : Schedule → Date → Type 0
TooLate s required_start = PassesEnd (get_effective_start (some s)) required_start s.due_date

writes_epic :
    (s : Schedule) (required_start : Date) (db : Database)
    → s.entity_type ≡ epic
    → s.entity_id ≢ 0
    → (shifted s required_start).due_date ≢ s.due_date
    → (starts_late_enough (get_effective_start (some s)) required_start ≡ false)
      × (shift_schedule_forward_to_start (some s) (some required_start) db
          ≡ err (if shift_overflows s required_start then overflow_error else field_does_not_exist))
unfolding shift_schedule_forward_to_start write_shift shifted update_entity_due_date
writes_epic s required_start db e i moved = (ground arith, ground arith)

-- Django refuses to write the due date of an epic: a call that has to move the due date of a schedule
-- of an epic raises, and does not return. It raises OverflowError where the schedule with its duration would
-- be due after the last date, and FieldDoesNotExist otherwise.
pub shift_epic_raises :
    (s : Schedule) (required_start : Date) (db : Database)
    → s.entity_type ≡ epic
    → s.entity_id ≢ 0
    → (shifted s required_start).due_date ≢ s.due_date
    → TooLate s required_start
        × (shift_schedule_forward_to_start (some s) (some required_start) db ≡ err overflow_error)
      ⊎ (¬ TooLate s required_start)
        × (shift_schedule_forward_to_start (some s) (some required_start) db
            ≡ err field_does_not_exist)
shift_epic_raises s required_start db e i moved =
    let (early, raised) = writes_epic s required_start db e i moved in
    let (to, from) = shift_overflows_iff s required_start early in
    elim (Bool-cases (shift_overflows s required_start)) [
      | inl late ↦ inl (to late, rw late at raised)
      | inr fits ↦ inr ((λ h. both (sym (from h) ∙ fits)), rw fits at raised)
    ]
  where
    both : true ≢ false
    both h = cc

pub first-update_self :
    (i : ℕ) (u : Updates) (rows : List Schedule) (s : Schedule)
    → first (λ r. r.id == i) rows ≡ some s
    → first (λ r. r.id == i) (update_where (λ r. r.id == i) (apply_updates u) rows)
      ≡ some (apply_updates u s)
first-update_self i u [] s e = absurd (none_some e)
  where
    none_some : {t : Schedule} → none ≢ some t
    none_some h = cc
first-update_self i u (r ∷ rows) s e = elim (Bool-cases (r.id == i)) [
  | inl hit ↦
      let same : some r ≡ some s = rw hit at e in
      rw (hit, hit) (ap (Option.map (apply_updates u)) same)
  | inr miss ↦ rw (miss, miss) (first-update_self i u rows s (rw miss at e))
]

pub first-update_ne :
    (i j : ℕ) (u : Updates) (rows : List Schedule)
    → j ≢ i
    → first (λ r. r.id == j) (update_where (λ r. r.id == i) (apply_updates u) rows)
      ≡ first (λ r. r.id == j) rows
first-update_ne i j u [] h = refl
first-update_ne i j u (r ∷ rows) h = ground (arith, first-update_ne i j u rows h)

schedules-if :
    (b : Bool) (db db' : Database)
    → db'.schedules ≡ db.schedules
    → (if b then db else db').schedules ≡ db.schedules
schedules-if true db db' e = refl
schedules-if false db db' e = e

update_entity_due_date-returns :
    (t : EntityType) (i : ℕ) (due : Option Date) (db : Database)
    → t ≢ epic
    → (db' : Database) × (update_entity_due_date t i due db ≡ ok db')
      × (db'.schedules ≡ db.schedules)
unfolding update_entity_due_date
update_entity_due_date-returns epic i due db h = absurd (h refl)
update_entity_due_date-returns userstory i due db h = (_, refl, schedules-if (i == 0) db _ refl)
update_entity_due_date-returns task i due db h = (_, refl, schedules-if (i == 0) db _ refl)

-- What the tables hold of the schedules after a shift of `s`.
abbrev pub Stores : Schedule → Date → Database → Shift → Type 0
Stores s required_start db r =
    (j : ℕ)
    → find_schedule j r.db
      ≡ (if j == s.id then some (shifted s required_start) else find_schedule j db)

stored :
    (s : Schedule) (required_start : Date) (db : Database) (r : Shift)
    → find_schedule s.id r.db ≡ some (shifted s required_start)
    → ((j : ℕ) → j ≢ s.id → find_schedule j r.db ≡ find_schedule j db)
    → Stores s required_start db r
stored s required_start db r self others j = elim (Bool-cases (j == s.id)) [
  | inl hit ↦ rw hit (
      subst (λ i. find_schedule i r.db ≡ some (shifted s required_start))
        (sym ((==_iff j s.id).0 hit)) self)
  | inr miss ↦ rw miss (others j (λ e. ground arith))
]

write_shift-Stores :
    (s : Schedule) (required_start : Date) (db : Database)
    → s.entity_type ≢ epic
    → find_schedule s.id db ≡ some s
    → starts_late_enough (get_effective_start (some s)) required_start ≡ false
    → shift_overflows s required_start ≡ false
    → (r : Shift) × (write_shift s required_start db ≡ ok r) × Stores s required_start db r
unfolding write_shift shifted update_schedule_row
write_shift-Stores s required_start db e found early fits =
    let u = shift_updates s required_start in
    let self = first-update_self s.id u db.schedules s found in
    let others = λ (j : ℕ) (h : j ≢ s.id). first-update_ne s.id j u db.schedules h in
    elim (Option-cases u.due_date) [
      | inl kept ↦
          let r : Shift = record {
            moved = true;
            due_changed = false;
            db = update_schedule_row s.id u db;
          } in
          (r, rw (fits, kept, write_shift), stored s required_start db r (rw early self) others)
      | inr (due, changed) ↦
          let (db', returns, same) =
            update_entity_due_date-returns s.entity_type s.entity_id due
              (update_schedule_row s.id u db) e in
          let r : Shift = record { moved = true; due_changed = true; db = db' } in
          (
            r,
            rw (fits, changed, write_shift, returns),
            stored s required_start db r (rw (same, early) self) (λ j h. rw same (others j h)),
          )
    ]

write_shift-overflow :
    (s : Schedule) (required_start : Date) (db : Database)
    → shift_overflows s required_start ≡ true
    → write_shift s required_start db ≡ err overflow_error
unfolding write_shift
write_shift-overflow s required_start db late = rw late

-- For a schedule of a user story or a task that is stored as `s`, the shift raises OverflowError if the
-- schedule starts before the required date and, with its duration, would be due after 9999-12-31. If not,
-- the shift returns; the table then holds `shifted s required_start` for it, and every other schedule as
-- before.
pub shift_schedule_forward_to_start_lem :
    (s : Schedule) (required_start : Date) (db : Database)
    → s.entity_type ≢ epic
    → find_schedule s.id db ≡ some s
    → TooLate s required_start
        × (shift_schedule_forward_to_start (some s) (some required_start) db ≡ err overflow_error)
      ⊎ (¬ TooLate s required_start)
        × ((r : Shift) × (shift_schedule_forward_to_start (some s) (some required_start) db ≡ ok r)
            × Stores s required_start db r)
unfolding shift_schedule_forward_to_start shifted
shift_schedule_forward_to_start_lem s required_start db e found =
    elim (Bool-cases (starts_late_enough (get_effective_start (some s)) required_start)) [
      | inl late ↦ inr (
        late_fits (get_effective_start (some s)) required_start s.due_date late,
        (
          unmoved db,
          rw late,
          stored s required_start db (unmoved db) (rw late found) (λ j h. refl),
        ),
      )
      | inr early ↦
          let (to, from) = shift_overflows_iff s required_start early in
          elim (Bool-cases (shift_overflows s required_start)) [
            | inl too_late ↦
                inl (to too_late, rw early (write_shift-overflow s required_start db too_late))
            | inr fits ↦
                let (r, returns, written) =
                  write_shift-Stores s required_start db e found early fits in
                inr ((λ h. both (sym (from h) ∙ fits)), (r, rw early returns, written))
          ]
    ]
  where
    both : true ≢ false
    both h = cc
