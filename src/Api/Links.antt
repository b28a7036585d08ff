-- ===== src/Api/Links.antt =====
-- `ScheduleDependencyViewSet`: the conditions of a save and of a deletion, and `bulk_apply_dates`.
use taiga_back_schedule_mana.Base.{
  ℕ, pos, Bool, true, false, ◌||◌, ◌&&◌, not, Option, none, some, List, [], ◌∷◌, map, keep,
  contains, length, ◌==◌, if◌then◌else◌,
}
use taiga_back_schedule_mana.Model.{
  ScheduleDependency, Schedule, Database, Result, ok, err, wrong_arguments, value_error,
  does_not_exist, source_and_target_required, same_project_required, ◌>>=◌, ◌>>◌, raise_if,
}
use taiga_back_schedule_mana.Dates.{find_schedule}
use taiga_back_schedule_mana.Bulk.{RawUpdate, apply_schedule_dates_in_bulk}
use taiga_back_schedule_mana.Permissions.{Project, can_view_project}
use taiga_back_schedule_mana.Api.Access.{Account, check_link_access, user_can_view_schedule_pages}

-- `obj.from_schedule` and `obj.to_schedule`, where the key is set.
abbrev pub related : ℕ → Database → Result Schedule
related schedule_id db = elim (find_schedule schedule_id db) [
  | none ↦ err does_not_exist
  | some s ↦ ok s
]

unfoldable pub pre_conditions_on_save : Account → ScheduleDependency → Database → Result Project
pre_conditions_on_save account d db = do
  raise_if (d.from_schedule_id == 0 || d.to_schedule_id == 0)
      (wrong_arguments source_and_target_required)
  source ← related d.from_schedule_id db
  target ← related d.to_schedule_id db
  raise_if (not (source.project_id == target.project_id)) (wrong_arguments same_project_required)
  check_link_access account (some source.project_id) true false

unfoldable pub pre_conditions_on_delete : Account → ScheduleDependency → Database → Result Project
pre_conditions_on_delete account d db =
    if d.from_schedule_id == 0
    then check_link_access account none true false
    else related d.from_schedule_id db >>= λ source.
        check_link_access account (some source.project_id) true false

-- `except ValueError as err: raise exc.WrongArguments(str(err))`
abbrev pub as_wrong_arguments : {A : Type 0} → Result A → Result A
as_wrong_arguments (err (value_error m)) = err (wrong_arguments m)
as_wrong_arguments r = r

-- The number of the updated entities is the response.
unfoldable pub bulk_apply_dates :
    ℕ → Account → ℕ → List RawUpdate → Database → Result (ℕ × Database)
bulk_apply_dates depth account project_id bulk_updates db = do
  project ← check_link_access account (some project_id) false true
  applied ←
      as_wrong_arguments
        (apply_schedule_dates_in_bulk depth (some (pos project_id)) bulk_updates db)
  ok (length applied.0, applied.1)

-- The ids of the projects whose schedule pages the user sees; with a requested project, that one at
-- most.
abbrev pub requested_or_any : Option ℕ → Project → Bool
requested_or_any none project = true
requested_or_any (some project_id) project = project.id == project_id

unfoldable pub visible_project_ids : Account → Option ℕ → List ℕ
visible_project_ids account requested =
    map (λ p. p.id)
      (keep
        (λ p.
          can_view_project account.user p
          && (requested_or_any requested p && user_can_view_schedule_pages account.user p))
        account.projects)

-- `from_schedule__project_id__in` and `to_schedule__project_id__in`, of stored schedules.
abbrev pub in_projects : List ℕ → Option Schedule → Bool
in_projects project_ids none = false
in_projects project_ids (some s) = contains s.project_id project_ids

abbrev pub is_between : List ℕ → Database → ScheduleDependency → Bool
is_between project_ids db d =
    in_projects project_ids (find_schedule d.from_schedule_id db)
    && in_projects project_ids (find_schedule d.to_schedule_id db)

-- `get_queryset`, with the outcome of `_normalize_project_id`.
unfoldable pub get_queryset : Account → Option ℕ → Database → Result (List ScheduleDependency)
get_queryset account none db =
    ok (keep (is_between (visible_project_ids account none) db) db.dependencies)
get_queryset account (some project_id) db = do
  project ← check_link_access account (some project_id) false false
  ok (
      keep (is_between (project_id ∷ []) db)
        (keep (is_between (visible_project_ids account (some project_id)) db) db.dependencies))
