-- ===== src/Schedules/Stored.antt =====
-- What the table of schedules holds after an upsert.
use taiga_back_schedule_mana.Base.{
  ℕ, ◌≡◌, refl, sym, ◌∙◌, ap, subst, true, Option, none, some, List, [], ◌∷◌, ◌++◌, ◌==◌,
  Bool-cases, Option-cases, inl, inr, first, update_where, if◌then◌else◌, arith,
}
use taiga_back_schedule_mana.Model.{
  EntityType, same_type_iff, Schedule, ScheduleItemOrder, Orders, Database, get_schedule, is_of,
  Result, ok, err, integrity_error, ok-injective, >>=-eq-ok,
}
use taiga_back_schedule_mana.Dates.{Updates, apply_updates, has_updates}
use taiga_back_schedule_mana.Schedules.Sync.{settle, sync_schedule_item_order}
use taiga_back_schedule_mana.Schedules.Upsert.{
  blank_schedule, get_or_create, update_schedule_row, upsert_row, upsert_schedule,
}

settle-schedules :
    (i : ℕ) (db : Database) (r : Result (ScheduleItemOrder × Orders))
    (x : Option ScheduleItemOrder × Database)
    → settle i db r ≡ ok x
    → x.1.schedules ≡ db.schedules
unfolding settle
settle-schedules i db (ok r) x e = ground arith
settle-schedules i db (err integrity_error) x e = ground arith
settle-schedules i db (err f) x e = ground arith

pub sync-schedules :
    (t : EntityType) (i : ℕ) (db : Database) (x : Option ScheduleItemOrder × Database)
    → sync_schedule_item_order t i db ≡ ok x
    → x.1.schedules ≡ db.schedules
unfolding sync_schedule_item_order
sync-schedules t i db x e = elim (Option-cases (get_schedule t i db)) [
  | inl gone ↦
      subst (λ (y : Option ScheduleItemOrder × Database). y.1.schedules ≡ db.schedules)
        (ok-injective (rw (gone, sync_schedule_item_order) at e)) refl
  | inr (s, found) ↦ settle-schedules s.id db _ x (rw (found, sync_schedule_item_order) at e)
]

-- The first schedule of an entity is updated in place.
first-updated :
    (t : EntityType) (i : ℕ) (u : Updates) (s : Schedule) (rows : List Schedule)
    → first (is_of t i) rows ≡ some s
    → first (is_of t i) (update_where (λ r. r.id == s.id) (apply_updates u) rows)
      ≡ some (apply_updates u s)
first-updated t i u s [] e = absurd (gone e)
  where
    gone : none ≡ some s → ⊥
    gone f = cc
first-updated t i u s (r ∷ rows) e = elim (Bool-cases (is_of t i r)) [
  | inl hit ↦ here (some_injective (rw hit at e)) hit
  | inr miss ↦ elim (Bool-cases (r.id == s.id)) [
    | inl same ↦ rw (same, miss) (first-updated t i u s rows (rw miss at e))
    | inr other ↦ rw (other, miss) (first-updated t i u s rows (rw miss at e))
  ]
]
  where
    some_injective : {x y : Schedule} → some x ≡ some y → x ≡ y
    some_injective f = cc

    own_key : (n : ℕ) → (n == n) ≡ true
    own_key n = ground arith

    here :
        r ≡ s
        → is_of t i r ≡ true
        → first (is_of t i) (update_where (λ q. q.id == s.id) (apply_updates u) (r ∷ rows))
          ≡ some (apply_updates u s)
    here f hit =
        subst
          (λ q.
            first (is_of t i) (update_where (λ p. p.id == q.id) (apply_updates u) (r ∷ rows))
            ≡ some (apply_updates u q))
          f (rw (own_key r.id, hit) refl)

first-appended :
    (t : EntityType) (i : ℕ) (s : Schedule) (rows : List Schedule)
    → first (is_of t i) rows ≡ none
    → is_of t i s ≡ true
    → first (is_of t i) (rows ++ s ∷ []) ≡ some s
first-appended t i s [] e h = rw h refl
first-appended t i s (r ∷ rows) e h = ground (arith, first-appended t i s rows)

-- The schedule that an upsert starts from.
abbrev pub base_schedule : EntityType → ℕ → ℕ → Database → Schedule
base_schedule t i project_id db = elim (get_schedule t i db) [
  | some s ↦ s
  | none ↦ blank_schedule db.next_schedule_id t i project_id
]

get_or_create-base :
    (t : EntityType) (i project_id : ℕ) (db : Database)
    → let (s, db') = get_or_create t i project_id db in
      (s ≡ base_schedule t i project_id db) × (get_schedule t i db' ≡ some s)
unfolding get_or_create get_schedule
get_or_create-base t i project_id db = elim (Option-cases (get_schedule t i db)) [
  | inr (s, found) ↦ rw (found, get_or_create, base_schedule) (refl, found)
  | inl gone ↦
      rw (gone, get_or_create, base_schedule)
        (
          refl,
          first-appended t i (blank_schedule db.next_schedule_id t i project_id) db.schedules gone
              (new_row t i),
        )
]
  where
    new_row :
        (t : EntityType) (i : ℕ)
        → is_of t i (blank_schedule db.next_schedule_id t i project_id) ≡ true
    new_row t i = ground (arith, (same_type_iff t t).1 refl)

-- The updates of a call: its arguments, and the project.
abbrev pub for_project : ℕ → Updates → Updates
for_project project_id given = record given { project_id = some project_id }

written :
    (t : EntityType) (i project_id : ℕ) (given : Updates) (s : Schedule) (db : Database)
    → get_schedule t i db ≡ some s
    → let u = record given {
      project_id = if s.project_id == project_id then none else some project_id;
    } in
      let row : Schedule × Database =
        if has_updates u then (apply_updates u s, update_schedule_row s.id u db) else (s, db) in
      (row.0 ≡ apply_updates (for_project project_id given) s)
      × (get_schedule t i row.1 ≡ some row.0)
unfolding get_schedule update_schedule_row
written t i project_id given s db found =
    let u = record given {
      project_id = if s.project_id == project_id then none else some project_id;
    } in
    elim (Bool-cases (has_updates u)) [
      | inl some_key ↦ rw some_key (ground arith, first-updated t i u s db.schedules found)
      | inr no_key ↦ rw no_key (ground arith, found)
    ]

-- An upsert that returns leaves the entity with the schedule that it returns: the one that the entity
-- had, or a new one without dates, with every given field and the project set, and the other fields
-- as they were.
pub upsert_schedule_lem :
    (t : EntityType) (i project_id : ℕ) (given : Updates) (db : Database) (obj : Schedule)
    (db' : Database)
    → upsert_schedule t i project_id given db ≡ ok (obj, db')
    → (obj ≡ apply_updates (for_project project_id given) (base_schedule t i project_id db))
      × (get_schedule t i db' ≡ some obj)
unfolding upsert_schedule upsert_row get_schedule
upsert_schedule_lem t i project_id given db obj db' e =
    let (s, d) = get_or_create t i project_id db in
    let (base, stored) = get_or_create-base t i project_id db in
    let (updated, kept) = written t i project_id given s d stored in
    let row = upsert_row t i project_id given db in
    let (synced, runs, same) = >>=-eq-ok (sync_schedule_item_order t i row.1) _ e in
    let pair = ok-injective same in
    let table = sync-schedules t i row.1 synced runs in
    (
      sym (ap (λ p. p.0) pair) ∙ updated ∙ ap (apply_updates (for_project project_id given)) base,
      ap (λ p. first (is_of t i) p.1.schedules) (sym pair)
          ∙ ap (first (is_of t i)) table
          ∙ kept
          ∙ ap (λ p. some p.0) pair,
    )
