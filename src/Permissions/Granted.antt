-- ===== src/Permissions/Granted.antt =====
-- What the permissions of a user have at least.
use taiga_back_schedule_mana.Base.{
  ◌≡◌, ◌≢◌, refl, Bool, true, false, not, ◌||◌, Option, List, [], ◌∷◌, ◌++◌, any_of-append, All,
  arith,
}
use taiga_back_schedule_mana.Permissions.Choices.{
  Permission, code, view_project, has, same_permission, anon_permissions, members_permissions,
  admins_permissions,
}
use taiga_back_schedule_mana.Permissions.Services.{Membership, or_empty, calculate_permissions}

pub has-append :
    (p : Permission) (ps qs : List Permission) → has p (ps ++ qs) ≡ (has p ps || has p qs)
unfolding has
has-append p ps qs = any_of-append (same_permission p) ps qs

-- The first Boolean fact entails the second.
abbrev pub implies : Bool → Bool → Bool
implies a b = not a || b

-- Permissions grow with the standing of a user who is no superuser: what an anonymous user may do, a
-- registered user may; what that one may do, a member may; and what a member may do, an
-- administrator with the same role may.
pub calculate_permissions_grow :
    (p : Permission) (role : List Permission) (anon public : Option (List Permission))
    → (implies
          (has p (calculate_permissions false false false false [] anon public))
          (has p (calculate_permissions true false false false [] anon public))
        ≡ true)
      × (implies
            (has p (calculate_permissions true false false false [] anon public))
            (has p (calculate_permissions true false true false role anon public))
          ≡ true)
      × (implies
            (has p (calculate_permissions true false true false role anon public))
            (has p (calculate_permissions true false true true role anon public))
          ≡ true)
unfolding calculate_permissions
calculate_permissions_grow p role anon public =
    let u = or_empty public in
    let a = or_empty anon in
    (
      rw (has-append p u a) (later (has p u) (has p a)),
      rw (has-append p (role ++ u) a, has-append p role u, has-append p u a)
          (inner (has p role) (has p u) (has p a)),
      rw
          (
            has-append p ((admins_permissions ++ (members_permissions ++ role)) ++ u) a,
            has-append p (admins_permissions ++ (members_permissions ++ role)) u,
            has-append p admins_permissions (members_permissions ++ role),
            has-append p members_permissions role,
            has-append p (role ++ u) a,
            has-append p role u,
          )
          (middle (has p admins_permissions) (has p members_permissions) (has p role) (has p u)
            (has p a)),
    )
  where
    later : (a b : Bool) → implies b (a || b) ≡ true
    later a b = ground arith

    inner : (a b c : Bool) → implies (b || c) ((a || b) || c) ≡ true
    inner a b c = ground arith

    middle : (a b c d e : Bool) → implies ((c || d) || e) (((a || (b || c)) || d) || e) ≡ true
    middle a b c d e = ground arith

pub anon_view : has view_project anon_permissions ≡ true
unfolding has same_permission code anon_permissions
anon_view = refl

pub members_view : has view_project members_permissions ≡ true
unfolding has same_permission code members_permissions
members_view = refl

-- No user has two memberships in a project.
abbrev pub OneEach : List Membership → Type 0
OneEach [] = Unit
OneEach (m ∷ ms) = All (λ n. m.user_id ≢ n.user_id) ms × OneEach ms
