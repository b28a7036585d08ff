-- ===== src/Permissions/Laws.antt =====
-- What the permissions and the filter of visible projects have to do with each other.
use taiga_back_schedule_mana.Base.{
  ◌≡◌, ◌≢◌, refl, sym, ◌∙◌, subst, Bool, true, false, not, ◌||◌, ◌&&◌, none, some, List, [], ◌∷◌,
  ◌++◌, first, any_of, ◌==◌, ==_iff, All, All-map, Bool-cases, Option-cases, inl, inr,
  if◌then◌else◌, arith,
}
use taiga_back_schedule_mana.Permissions.Choices.{
  Permission, view_project, has, anon_permissions, members_permissions, admins_permissions,
}
use taiga_back_schedule_mana.Permissions.Services.{
  Membership, User, Project, or_empty, get_user_project_membership, calculate_permissions,
  get_user_project_permissions, user_has_perm, set_base_permissions_for_project, shows_project,
  can_view_project,
}
use taiga_back_schedule_mana.Permissions.Granted.{
  has-append, implies, anon_view, members_view, OneEach,
}

-- The membership that shows a project to a user is the one that the permissions are read from.
shown-first :
    (user : User) (ms : List Membership)
    → OneEach ms
    → any_of (shows_project user) ms ≡ true
    → (m : Membership) × (first (λ n. n.user_id == user.id) ms ≡ some m)
      × ((has view_project (or_empty m.role_permissions) || m.is_admin) ≡ true)
shown-first user [] h e = absurd (differ e)
  where
    differ : false ≡ true → ⊥
    differ f = cc
shown-first user (m ∷ ms) h e = elim (Bool-cases (m.user_id == user.id)) [
  | inl own ↦ elim (Bool-cases (has view_project (or_empty m.role_permissions) || m.is_admin)) [
    | inl shown ↦ (m, rw own refl, shown)
    | inr hidden ↦
        absurd (alone ms (only ms ((==_iff m.user_id user.id).0 own) h.0) (rw (own, hidden) at e))
  ]
  | inr other ↦
      let (n, found, shown) = shown-first user ms h.1 (rw other at e) in (n, rw other found, shown)
]
  where
    only :
        (ms : List Membership)
        → m.user_id ≡ user.id
        → All (λ n. m.user_id ≢ n.user_id) ms
        → All (λ n. n.user_id ≢ user.id) ms
    only ms own others =
        All-map {P = λ (n : Membership). m.user_id ≢ n.user_id} {Q = λ n. n.user_id ≢ user.id} ms
          (λ n apart same. apart (own ∙ sym same)) others

    alone :
        (ms : List Membership)
        → All (λ n. n.user_id ≢ user.id) ms
        → any_of (shows_project user) ms ≢ true
    alone [] others f = cc
    alone (n ∷ ms) others f = ground (arith, alone ms others.1, others.0)

hidden-outside :
    (user : User) (ms : List Membership)
    → first (λ n. n.user_id == user.id) ms ≡ none
    → any_of (shows_project user) ms ≡ false
hidden-outside user [] e = refl
hidden-outside user (m ∷ ms) e = ground (arith, hidden-outside user ms)

shows-member :
    (user : User) (ms : List Membership) (m : Membership)
    → OneEach ms
    → first (λ n. n.user_id == user.id) ms ≡ some m
    → implies
        (any_of (shows_project user) ms)
        (has view_project (or_empty m.role_permissions) || m.is_admin)
      ≡ true
shows-member user ms m one member = elim (Bool-cases (any_of (shows_project user) ms)) [
  | inr hidden ↦ rw hidden refl
  | inl shown ↦
      let (n, found, views) = shown-first user ms one shown in
      rw shown (
        subst (λ o. (has view_project (or_empty o.role_permissions) || o.is_admin) ≡ true)
          (same (sym found ∙ member)) views)
]
  where
    same : {x y : Membership} → some x ≡ some y → x ≡ y
    same e = cc

-- The permissions of a member.
member_has :
    (p : Permission) (is_admin : Bool) (role anon public : List Permission)
    → has p (
        ((if is_admin then admins_permissions else [])
          ++ ((if is_admin then members_permissions else []) ++ role))
        ++ public
        ++ anon)
      ≡ (((is_admin && has p admins_permissions
              || (is_admin && has p members_permissions || has p role))
            || has p public)
          || has p anon)
member_has p true role anon public =
    rw
      (
        has-append p ((admins_permissions ++ (members_permissions ++ role)) ++ public) anon,
        has-append p (admins_permissions ++ (members_permissions ++ role)) public,
        has-append p admins_permissions (members_permissions ++ role),
        has-append p members_permissions role,
      )
      refl
member_has p false role anon public =
    rw (has-append p (role ++ public) anon, has-append p role public) refl

-- Where no user has two memberships in the project, a project that the filter shows to a user is one
-- that the user has the permission to view.
pub can_view_project-has_perm :
    (user : User) (project : Project)
    → OneEach project.memberships
    → implies (can_view_project user project) (user_has_perm user view_project project) ≡ true
unfolding can_view_project user_has_perm get_user_project_permissions calculate_permissions
    get_user_project_membership
can_view_project-has_perm user project one = elim (Bool-cases user.is_superuser) [
  | inl super ↦
      rw (super, user_has_perm)
        (super_view (
          if user.is_authenticated
          then true
          else has view_project (or_empty project.anon_permissions)))
  | inr common ↦ elim (Bool-cases user.is_authenticated) [
    | inr stranger ↦
        rw (common, stranger, user_has_perm)
          (same (has view_project (or_empty project.anon_permissions)))
    | inl known ↦ elim (Option-cases (first (λ m. m.user_id == user.id) project.memberships)) [
      | inl outside ↦
          rw
            (
              common,
              known,
              outside,
              user_has_perm,
              hidden-outside user project.memberships outside,
              has-append view_project (or_empty project.public_permissions)
                  (or_empty project.anon_permissions),
            )
            (public_view _ _)
      | inr (m, member) ↦
          rw
            (
              common,
              known,
              member,
              user_has_perm,
              member_has view_project m.is_admin (or_empty m.role_permissions)
                  (or_empty project.anon_permissions) (or_empty project.public_permissions),
              members_view,
            )
            (inside_view (any_of (shows_project user) project.memberships)
              (has view_project (or_empty project.public_permissions)) m.is_admin
              (has view_project admins_permissions) (has view_project (or_empty m.role_permissions))
              (has view_project (or_empty project.anon_permissions))
              (shows-member user project.memberships m one member))
    ]
  ]
]
  where
    public_view : (p a : Bool) → implies p (p || a) ≡ true
    public_view p a = ground arith

    inside_view :
        (shown public admin x role anon : Bool)
        → implies shown (role || admin) ≡ true
        → implies (shown || public) (((admin && x || (admin && true || role)) || public) || anon)
          ≡ true
    inside_view shown public admin x role anon h = ground arith

    same : (a : Bool) → implies a a ≡ true
    same a = ground arith

    super_view :
        (a : Bool)
        → implies a
            (has view_project (admins_permissions ++ members_permissions ++ anon_permissions))
          ≡ true
    super_view a =
        rw
          (
            has-append view_project (admins_permissions ++ members_permissions) anon_permissions,
            anon_view,
          )
          (ground arith)

-- With its base permissions set, a public project is shown to everyone, and a private project exactly
-- to the superusers and to those members who are administrators or whose role views the project.
pub can_view_project-set_base :
    (user : User) (project : Project)
    → can_view_project user (set_base_permissions_for_project project) ≡ (
        not project.is_private
        || (user.is_authenticated
            && (user.is_superuser || any_of (shows_project user) project.memberships)))
unfolding can_view_project set_base_permissions_for_project has
can_view_project-set_base user project = elim (Bool-cases project.is_private) [
  | inl private ↦
      rw (private, set_base_permissions_for_project)
        (hidden user.is_authenticated user.is_superuser _)
  | inr public ↦
      rw
        (
          public,
          set_base_permissions_for_project,
          has-append view_project (or_empty project.public_permissions) anon_permissions,
          has-append view_project (or_empty project.anon_permissions) anon_permissions,
        )
        (shown user.is_authenticated user.is_superuser _ _ _)
]
  where
    hidden :
        (a s m : Bool)
        → (if a then (if s then true else m || has view_project []) else has view_project [])
          ≡ (a && (s || m))
    hidden a s m = ground arith

    shown :
        (a s m p q : Bool)
        → (if a
            then (if s then true else m || (p || has view_project anon_permissions))
            else q || has view_project anon_permissions)
          ≡ true
    shown a s m p q = ground (arith, anon_view)
