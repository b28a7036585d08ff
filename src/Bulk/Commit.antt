-- ===== src/Bulk/Commit.antt =====
-- What holds of the tables when a bulk request has been applied.
use taiga_back_schedule_mana.Base.{
  ℕ, ℤ, ◌≡◌, ◌≢◌, refl, ap, subst, subst₂, Option, none, some, List, [], ◌∷◌, All, Bool-cases,
  Option-cases, inl, inr, insert_sorted, sort_by, is_empty, if◌then◌else◌, arith,
}
use taiga_back_schedule_mana.Model.{
  EntityType, epic, userstory, task, Schedule, Database, get_schedule, Message, Result, ok,
  value_error, invalid_project_id, ◌>>=◌, ◌>>◌, ok-injective, >>=-eq-ok,
}
use taiga_back_schedule_mana.Dates.{
  Proposal, resolve_effective_start, get_effective_start, get_proposed_bounds_for_entity,
  incoming_due_dates, Allowed, get_dependency_start_violation_error, dependency_start_iff,
}
use taiga_back_schedule_mana.Propagation.{propagate_chain}
use taiga_back_schedule_mana.Bulk.Request.{
  RawUpdate, Update, same_entity, put_update, key_before, parse_id, or_raise, normalize_update,
  normalize_from, normalize_schedule_bulk_date_updates,
}
use taiga_back_schedule_mana.Bulk.Lock.{Locked, lock_schedule_bulk_entities}
use taiga_back_schedule_mana.Bulk.Apply.{
  apply_schedule_bulk_updates, sync_schedule_bulk_side_effects,
}
use taiga_back_schedule_mana.Bulk.Validate.{
  build_schedule_validation_obj, refuse, validate_object, validate_schedule_bulk_updates,
}
use taiga_back_schedule_mana.Bulk.Emit.{emit_schedule_bulk_change_events}
use taiga_back_schedule_mana.Bulk.Run.{bulk_transaction, apply_schedule_dates_in_bulk}

abbrev HasId : Update → Type 0
HasId u = u.entity_id ≢ 0

normalize_update-HasId : (raw : RawUpdate) (u : Update) → normalize_update raw ≡ ok u → HasId u
unfolding normalize_update
normalize_update-HasId raw u e = ground arith

put-HasId : (u : Update) (us : List Update) → HasId u → All HasId us → All HasId (put_update u us)
unfolding put_update
put-HasId u [] h k = (h, tt)
put-HasId u (v ∷ us) h k = elim (Bool-cases (same_entity u v)) [
  | inl same ↦ rw same (h, k.1)
  | inr other ↦ rw other (k.0, put-HasId u us h k.1)
]

normalize_from-HasId :
    (raws : List RawUpdate) (acc us : List Update)
    → All HasId acc
    → normalize_from raws acc ≡ ok us
    → All HasId us
unfolding normalize_from
normalize_from-HasId [] acc us h e = subst (All HasId) (ok-injective e) h
normalize_from-HasId (raw ∷ raws) acc us h e =
    let (u, normal, rest) =
      >>=-eq-ok (normalize_update raw) (λ u. normalize_from raws (put_update u acc)) e in
    normalize_from-HasId raws (put_update u acc) us
      (put-HasId u acc (normalize_update-HasId raw u normal) h) rest

sort-HasId : (us : List Update) → All HasId us → All HasId (sort_by key_before us)
sort-HasId [] h = tt
sort-HasId (u ∷ us) h = insert u (sort_by key_before us) h.0 (sort-HasId us h.1)
  where
    insert :
        (u : Update) (us : List Update)
        → HasId u
        → All HasId us
        → All HasId (insert_sorted key_before u us)
    insert u [] h k = (h, tt)
    insert u (v ∷ us) h k = elim (Bool-cases (key_before u v)) [
      | inl before ↦ rw before (h, k)
      | inr after ↦ rw after (k.0, insert u us h k.1)
    ]

-- No incoming dependency of the entity's schedule is violated.
abbrev pub KeepsDependencies : Database → Update → Type 0
KeepsDependencies db u =
    (s : Schedule) × (get_schedule u.entity_type u.entity_id db ≡ some s)
    × Allowed (get_effective_start (some s)) (incoming_due_dates s.id db)

refuse-none : (o : Option Message) → refuse o ≡ ok tt → o ≡ none
refuse-none none e = refl
refuse-none (some m) e = cc

validate_object-dependency :
    (t : EntityType) (obj : Proposal) (db : Database)
    → validate_object t obj db ≡ ok tt
    → get_dependency_start_violation_error obj t db ≡ none
unfolding validate_object
validate_object-dependency epic obj db e =
    ground (arith, refuse-none (get_dependency_start_violation_error obj epic db))
validate_object-dependency userstory obj db e =
    ground (arith, refuse-none (get_dependency_start_violation_error obj userstory db))
validate_object-dependency task obj db e =
    ground (arith, refuse-none (get_dependency_start_violation_error obj task db))

built_object :
    (t : EntityType) (i : ℕ) (locked : List Locked) (db : Database) (obj : Proposal) (s : Schedule)
    → get_schedule t i db ≡ some s
    → build_schedule_validation_obj t i locked db ≡ ok obj
    → (obj.id ≡ some i)
      × ((get_proposed_bounds_for_entity obj t db).0 ≡ get_effective_start (some s))
unfolding build_schedule_validation_obj get_proposed_bounds_for_entity get_effective_start
    resolve_effective_start
built_object t i locked db obj s found e = ground arith

missing_schedule :
    (t : EntityType) (i : ℕ) (locked : List Locked) (db : Database) (obj : Proposal)
    → get_schedule t i db ≡ none
    → build_schedule_validation_obj t i locked db ≢ ok obj
unfolding build_schedule_validation_obj
missing_schedule t i locked db obj gone built = ground arith

validated :
    (u : Update) (locked : List Locked) (db : Database) (obj : Proposal)
    → HasId u
    → build_schedule_validation_obj u.entity_type u.entity_id locked db ≡ ok obj
    → validate_object u.entity_type obj db ≡ ok tt
    → KeepsDependencies db u
validated u locked db obj h built valid =
    elim (Option-cases (get_schedule u.entity_type u.entity_id db)) [
      | inl gone ↦ absurd (missing_schedule u.entity_type u.entity_id locked db obj gone built)
      | inr (s, found) ↦
          let (named, start) = built_object u.entity_type u.entity_id locked db obj s found built in
          (
            s,
            found,
            subst (λ o. Allowed o (incoming_due_dates s.id db)) start
                ((dependency_start_iff obj u.entity_type db u.entity_id s named h found).0
                  (validate_object-dependency u.entity_type obj db valid)),
          )
    ]

updates-KeepsDependencies :
    (us : List Update) (locked : List Locked) (db : Database)
    → All HasId us
    → validate_schedule_bulk_updates us locked db ≡ ok tt
    → All (KeepsDependencies db) us
unfolding validate_schedule_bulk_updates
updates-KeepsDependencies [] locked db h e = tt
updates-KeepsDependencies (u ∷ us) locked db h e =
    let (obj, built, checks) =
      >>=-eq-ok (build_schedule_validation_obj u.entity_type u.entity_id locked db)
        (λ obj. validate_object u.entity_type obj db >> validate_schedule_bulk_updates us locked db)
        e in
    let (_, valid, rest) =
      >>=-eq-ok (validate_object u.entity_type obj db)
        (λ _. validate_schedule_bulk_updates us locked db) checks in
    (validated u locked db obj h.0 built valid, updates-KeepsDependencies us locked db h.1 rest)

emitted-KeepsDependencies :
    (project_id : ℕ) (sent us : List Update) (db : Database)
    → All (KeepsDependencies db) us
    → All (KeepsDependencies (emit_schedule_bulk_change_events project_id sent db)) us
unfolding emit_schedule_bulk_change_events get_schedule incoming_due_dates
emitted-KeepsDependencies project_id sent us db h = h

bulk_transaction-KeepsDependencies :
    (depth project_id : ℕ) (us : List Update) (db db' : Database)
    → All HasId us
    → bulk_transaction depth project_id us db ≡ ok db'
    → All (KeepsDependencies db') us
unfolding bulk_transaction
bulk_transaction-KeepsDependencies depth project_id us db db' h e =
    let (locked, _, e1) = >>=-eq-ok (lock_schedule_bulk_entities project_id us db) _ e in
    let (applied, _, e2) = >>=-eq-ok (apply_schedule_bulk_updates project_id us locked db) _ e1 in
    let (synced, _, e3) =
      >>=-eq-ok (sync_schedule_bulk_side_effects (propagate_chain depth) us applied.1) _ e2 in
    let (_, valid, e4) = >>=-eq-ok (validate_schedule_bulk_updates us applied.0 synced) _ e3 in
    subst (λ d. All (KeepsDependencies d) us) (ok-injective e4)
      (emitted-KeepsDependencies project_id us us synced
        (updates-KeepsDependencies us applied.0 synced h valid))

-- A bulk request that is applied leaves every entity it names with a schedule whose effective start
-- is after every known due date of the sources of its incoming dependencies (and is known, if it has
-- an incoming dependency), in the tables as they are after the propagation and the events.
pub apply_schedule_dates_in_bulk-KeepsDependencies :
    (depth : ℕ) (project_id : Option ℤ) (raws : List RawUpdate) (db : Database) (us : List Update)
    (db' : Database)
    → apply_schedule_dates_in_bulk depth project_id raws db ≡ ok (us, db')
    → All (KeepsDependencies db') us
unfolding apply_schedule_dates_in_bulk normalize_schedule_bulk_date_updates
apply_schedule_dates_in_bulk-KeepsDependencies depth project_id raws db us db' e =
    let (pid, _, e1) =
      >>=-eq-ok (or_raise (parse_id project_id) (value_error invalid_project_id)) _ e in
    let (normalized, n, e2) = >>=-eq-ok (normalize_schedule_bulk_date_updates raws) _ e1 in
    let (unsorted, m, sorted) = >>=-eq-ok (normalize_from raws []) _ n in
    let ids =
      subst (All HasId) (ok-injective sorted)
        (sort-HasId unsorted (normalize_from-HasId raws [] unsorted tt m)) in
    committed pid normalized ids e2
  where
    committed :
        (pid : ℕ) (normalized : List Update)
        → All HasId normalized
        → let nothing : Result (List Update × Database) = ok ([], db) in
          (if is_empty normalized
              then nothing
              else (bulk_transaction depth pid normalized db >>= λ d. ok (normalized, d)))
            ≡ ok (us, db')
          → All (KeepsDependencies db') us
    committed pid [] h f = subst (All (KeepsDependencies db')) (ap (λ p. p.0) (ok-injective f)) tt
    committed pid (u ∷ rest) h f =
        let (d, done, same) = >>=-eq-ok (bulk_transaction depth pid (u ∷ rest) db) _ f in
        let pair = ok-injective same in
        subst₂ (λ l t. All (KeepsDependencies t) l) (ap (λ p. p.0) pair) (ap (λ p. p.1) pair)
          (bulk_transaction-KeepsDependencies depth pid (u ∷ rest) db d h done)
