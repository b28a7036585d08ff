-- ===== src/Permissions/Services.antt =====
-- taiga/permissions/services.py, and `get_filter_expression_can_view_projects`.
use taiga_back_schedule_mana.Base.{
  ℕ, Bool, true, false, ◌||◌, ◌&&◌, Option, none, some, is_some, List, [], ◌++◌, first, any_of,
  ◌==◌, if◌then◌else◌,
}
use taiga_back_schedule_mana.Permissions.Choices.{
  Permission, view_project, has, anon_permissions, members_permissions, admins_permissions,
}

-- A membership without a role has no `role_permissions`.
pub record Membership : Type 0 where
  pub user_id : ℕ
  pub is_admin : Bool
  pub role_permissions : Option (List Permission)

pub record User : Type 0 where
  pub id : ℕ
  pub is_authenticated : Bool
  pub is_superuser : Bool

pub record Project : Type 0 where
  pub id : ℕ
  pub is_private : Bool
  pub anon_permissions : Option (List Permission)
  pub public_permissions : Option (List Permission)
  pub memberships : List Membership

abbrev pub or_empty : Option (List Permission) → List Permission
or_empty none = []
or_empty (some ps) = ps

-- `_get_user_project_membership`
unfoldable pub get_user_project_membership : User → Project → Option Membership
get_user_project_membership user project =
    if user.is_authenticated then first (λ m. m.user_id == user.id) project.memberships else none

-- `is_project_admin`
unfoldable pub is_project_admin : User → Project → Bool
is_project_admin user project =
    user.is_superuser
    || elim (get_user_project_membership user project) [ none ↦ false | some m ↦ m.is_admin ]

abbrev pub get_membership_permissions : Option Membership → List Permission
get_membership_permissions none = []
get_membership_permissions (some m) = or_empty m.role_permissions

-- The set is a list here: only membership in it is read.
unfoldable pub calculate_permissions :
    Bool
    → Bool
    → Bool
    → Bool
    → List Permission
    → Option (List Permission)
    → Option (List Permission)
    → List Permission
calculate_permissions is_authenticated is_superuser is_member is_admin role anon public =
    if is_superuser
    then admins_permissions ++ members_permissions ++ anon_permissions
    else if is_member
    then (if is_admin then admins_permissions else [])
      ++ ((if is_admin then members_permissions else []) ++ role)
      ++ or_empty public
      ++ or_empty anon
    else if is_authenticated
    then or_empty public ++ or_empty anon
    else or_empty anon

abbrev pub is_admin_of : Option Membership → Bool
is_admin_of none = false
is_admin_of (some m) = m.is_admin

unfoldable pub get_user_project_permissions : User → Project → List Permission
get_user_project_permissions user project =
    let membership = get_user_project_membership user project in
    calculate_permissions user.is_authenticated user.is_superuser (is_some membership)
      (is_admin_of membership) (get_membership_permissions membership) project.anon_permissions
      project.public_permissions

unfoldable pub user_has_perm : User → Permission → Project → Bool
user_has_perm user perm project = has perm (get_user_project_permissions user project)

-- A private project loses its base permissions; a public one has at least those of anonymous users.
unfoldable pub set_base_permissions_for_project : Project → Project
set_base_permissions_for_project project =
    if project.is_private
    then record project { anon_permissions = some []; public_permissions = some [] }
    else record project {
      anon_permissions = some (or_empty project.anon_permissions ++ anon_permissions);
      public_permissions = some (or_empty project.public_permissions ++ anon_permissions);
    }

-- The memberships that `get_filter_expression_can_view_projects` looks for.
abbrev pub shows_project : User → Membership → Bool
shows_project user m =
    m.user_id == user.id && (has view_project (or_empty m.role_permissions) || m.is_admin)

-- Whether the expression keeps a project.
unfoldable pub can_view_project : User → Project → Bool
can_view_project user project =
    if user.is_authenticated
    then (if user.is_superuser
        then true
        else any_of (shows_project user) project.memberships
          || has view_project (or_empty project.public_permissions))
    else has view_project (or_empty project.anon_permissions)
