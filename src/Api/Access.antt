-- ===== src/Api/Access.antt =====
-- `_check_project_access` of both view sets, for a user and the table of projects.
use taiga_back_schedule_mana.Base.{ℕ, Bool, ◌||◌, not, ◌&&◌, Option, none, some, List, first, ◌==◌}
use taiga_back_schedule_mana.Model.{
  Result, ok, err, wrong_arguments, permission_denied, Message, project_required, project_unknown,
  project_not_visible, schedule_not_visible, links_not_modifiable, dates_not_modifiable,
  color_not_modifiable, order_not_modifiable, ◌>>=◌, ◌>>◌, raise_if,
}
use taiga_back_schedule_mana.Permissions.{
  Permission, User, Project, user_has_perm, can_view_project, view_schedule, view_gantt,
  modify_schedule_links, modify_schedule_dates, modify_schedule_color, modify_gantt_list_order,
}

-- The user of a request, and the projects that there are.
pub record Account : Type 0 where
  pub user : User
  pub projects : List Project

-- `Project.objects.filter(id=project_id).first()`
abbrev pub find_project : ℕ → Account → Option Project
find_project project_id account = first (λ p. p.id == project_id) account.projects

unfoldable pub user_can_view_schedule_pages : User → Project → Bool
user_can_view_schedule_pages user project =
    user_has_perm user view_schedule project || user_has_perm user view_gantt project

-- The tests that both view sets begin with.
unfoldable pub check_project_view : Account → Option ℕ → Result Project
check_project_view account none = err (wrong_arguments project_required)
check_project_view account (some project_id) = elim (find_project project_id account) [
  | none ↦ err (wrong_arguments project_unknown)
  | some project ↦ do
    raise_if (not (can_view_project account.user project)) (permission_denied project_not_visible)
    raise_if (not (user_can_view_schedule_pages account.user project))
        (permission_denied schedule_not_visible)
    ok project
]

-- `if for_write and not self._user_can_modify_…(project): raise`
unfoldable pub require : User → Bool → Permission → Message → Project → Result (Unit {0})
require user for_write p message project =
    raise_if (for_write && not (user_has_perm user p project)) (permission_denied message)

-- `ScheduleDependencyViewSet._check_project_access`
unfoldable pub check_link_access : Account → Option ℕ → Bool → Bool → Result Project
check_link_access account requested for_write for_dates_write = do
  project ← check_project_view account requested
  require account.user for_write modify_schedule_links links_not_modifiable project
  require account.user for_dates_write modify_schedule_dates dates_not_modifiable project
  ok project

-- `ScheduleItemViewSet._check_project_access`
unfoldable pub check_item_access : Account → Option ℕ → Bool → Bool → Bool → Result Project
check_item_access account requested for_dates_write for_color_write for_position_write = do
  project ← check_project_view account requested
  require account.user for_dates_write modify_schedule_dates dates_not_modifiable project
  require account.user for_color_write modify_schedule_color color_not_modifiable project
  require account.user for_position_write modify_gantt_list_order order_not_modifiable project
  ok project
