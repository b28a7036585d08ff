-- ===== src/Api/Permitted.antt =====
-- Whom the handlers let through.
use taiga_back_schedule_mana.Base.{
  ℕ, pos, length, ◌≡◌, refl, ◌∙◌, ap, subst, Bool, true, false, ◌||◌, not, Option, some, is_some,
  List, Option-cases, inl, inr, arith,
}
use taiga_back_schedule_mana.Model.{
  Schedule, Database, wrong_arguments, project_unknown, Result, ok, err, Error, Message, raise_if,
  ok-injective, >>=-eq-ok,
}
use taiga_back_schedule_mana.Bulk.{RawUpdate, Update, find_in_project, apply_schedule_dates_in_bulk}
use taiga_back_schedule_mana.Permissions.{
  Permission, User, Project, user_has_perm, can_view_project, modify_schedule_links,
  modify_schedule_dates, modify_schedule_color, modify_gantt_list_order,
}
use taiga_back_schedule_mana.Api.Access.{
  Account, find_project, user_can_view_schedule_pages, check_project_view, require,
  check_link_access, check_item_access,
}
use taiga_back_schedule_mana.Api.Links.{as_wrong_arguments, bulk_apply_dates}
use taiga_back_schedule_mana.Api.Items.{
  ItemUpdate, done, run-eq-done, has_dates, update_schedule_item_from_data,
}

-- The project is visible to the user, and so are its schedule pages.
abbrev pub Sees : User → Project → Type 0
Sees user project =
    (can_view_project user project ≡ true) × (user_can_view_schedule_pages user project ≡ true)

-- The user has the permission, if it is asked for.
abbrev pub May : User → Project → Bool → Permission → Type 0
May user project asked p = (not asked || user_has_perm user p project) ≡ true

raise_if-passed : (b : Bool) (e : Error) {x : Unit {0}} → raise_if (not b) e ≡ ok x → b ≡ true
raise_if-passed true e h = refl
raise_if-passed false e h = cc

check_project_view-Sees :
    (account : Account) (project_id : ℕ) (p : Project)
    → check_project_view account (some project_id) ≡ ok p
    → (find_project project_id account ≡ some p) × Sees account.user p
unfolding check_project_view
check_project_view-Sees account project_id p e =
    elim (Option-cases (find_project project_id account)) [
      | inl gone ↦ absurd (unknown (rw (gone, check_project_view) at e))
      | inr (q, found) ↦
          let (_, visible, e1) =
            >>=-eq-ok (raise_if (not (can_view_project account.user q)) _) _
              (rw (found, check_project_view) at e) in
          let (_, pages, e2) =
            >>=-eq-ok (raise_if (not (user_can_view_schedule_pages account.user q)) _) _ e1 in
          let same = ok-injective e2 in
          (
            found ∙ ap some same,
            subst (Sees account.user) same (raise_if-passed _ _ visible, raise_if-passed _ _ pages),
          )
    ]
  where
    unknown : err (wrong_arguments project_unknown) ≡ ok p → ⊥
    unknown f = cc

require-May :
    (user : User) (asked : Bool) (p : Permission) (message : Message) (project : Project)
    {x : Unit {0}}
    → require user asked p message project ≡ ok x
    → May user project asked p
unfolding require
require-May user true p message project e = raise_if-passed _ _ e
require-May user false p message project e = refl

-- An update of an item that succeeds comes from a user who sees the project and its schedule pages,
-- and has the permissions to change dates, the colour and the order, each if the update has such a
-- field; and the item is of that project.
pub update_item-Permitted :
    (depth : ℕ) (account : Account) (d : ItemUpdate) (db : Database) (s : Option Schedule)
    (db' : Database)
    → update_schedule_item_from_data depth account d db ≡ done s db'
    → (project : Project) × (find_project d.project account ≡ some project)
      × Sees account.user project
      × May account.user project (has_dates d) modify_schedule_dates
      × May account.user project (is_some d.color) modify_schedule_color
      × May account.user project (is_some d.position) modify_gantt_list_order
      × (is_some (find_in_project d.project d.entity_type d.entity_id db) ≡ true)
unfolding update_schedule_item_from_data check_item_access
update_item-Permitted depth account d db s db' e =
    let (_, passed, e1) =
      run-eq-done
        (check_item_access account (some d.project) (has_dates d) (is_some d.color)
          (is_some d.position))
        db _ e in
    let (_, found, _) =
      run-eq-done
        (raise_if (not (is_some (find_in_project d.project d.entity_type d.entity_id db))) _) db _
        e1 in
    let (p, view, a1) = >>=-eq-ok (check_project_view account (some d.project)) _ passed in
    let (_, dates, a2) =
      >>=-eq-ok (require account.user (has_dates d) modify_schedule_dates _ p) _ a1 in
    let (_, color, a3) =
      >>=-eq-ok (require account.user (is_some d.color) modify_schedule_color _ p) _ a2 in
    let (_, order, _) =
      >>=-eq-ok (require account.user (is_some d.position) modify_gantt_list_order _ p) _ a3 in
    let (stored, sees) = check_project_view-Sees account d.project p view in
    (
      p,
      stored,
      sees,
      require-May account.user _ _ _ p dates,
      require-May account.user _ _ _ p color,
      require-May account.user _ _ _ p order,
      raise_if-passed _ _ found,
    )

-- Dates that are applied in bulk come from a user who sees the project and its schedule pages and may
-- change dates, and the tables are those of the bulk request, with as many updates as the response
-- says.
pub bulk_apply_dates-Permitted :
    (depth : ℕ) (account : Account) (project_id : ℕ) (raws : List RawUpdate) (db : Database)
    (updated : ℕ) (db' : Database)
    → bulk_apply_dates depth account project_id raws db ≡ ok (updated, db')
    → (project : Project) × (find_project project_id account ≡ some project)
      × Sees account.user project
      × May account.user project true modify_schedule_dates
      × ((us : List Update) × (apply_schedule_dates_in_bulk depth (some (pos project_id)) raws db
            ≡ ok (us, db'))
          × (length us ≡ updated))
unfolding bulk_apply_dates check_link_access
bulk_apply_dates-Permitted depth account project_id raws db updated db' e =
    let (_, passed, e1) = >>=-eq-ok (check_link_access account (some project_id) false true) _ e in
    let (p, view, a1) = >>=-eq-ok (check_project_view account (some project_id)) _ passed in
    let (_, _, a2) = >>=-eq-ok (require account.user false modify_schedule_links _ p) _ a1 in
    let (_, dates, _) = >>=-eq-ok (require account.user true modify_schedule_dates _ p) _ a2 in
    let (applied, runs, out) =
      >>=-eq-ok
        (as_wrong_arguments (apply_schedule_dates_in_bulk depth (some (pos project_id)) raws db)) _
        e1 in
    let pair = ok-injective out in
    let (stored, sees) = check_project_view-Sees account project_id p view in
    (
      p,
      stored,
      sees,
      require-May account.user true modify_schedule_dates _ p dates,
      (
        applied.0,
        unwrapped _ runs ∙ ap (λ d. ok (applied.0, d)) (ap (λ q. q.1) pair),
        ap (λ q. q.0) pair,
      ),
    )
  where
    unwrapped :
        {x : List Update × Database} (r : Result (List Update × Database))
        → as_wrong_arguments r ≡ ok x
        → r ≡ ok x
    unwrapped (ok y) h = h
    unwrapped (err f) h = ground arith
