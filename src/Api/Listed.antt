-- ===== src/Api/Listed.antt =====
-- Which dependencies `get_queryset` lists.
use taiga_back_schedule_mana.Base.{
  ℕ, ◌≡◌, refl, sym, ◌∙◌, subst, Bool, true, false, ◌||◌, ◌&&◌, Option, none, some, List, [], ◌∷◌,
  map, keep, contains, any_of, ◌==◌, All, Bool-cases, inl, inr, arith,
}
use taiga_back_schedule_mana.Model.{
  Schedule, ScheduleDependency, Database, ok, ok-injective, >>=-eq-ok,
}
use taiga_back_schedule_mana.Dates.{find_schedule}
use taiga_back_schedule_mana.Permissions.{Project, can_view_project}
use taiga_back_schedule_mana.Api.Access.{Account, user_can_view_schedule_pages, check_link_access}
use taiga_back_schedule_mana.Api.Links.{
  requested_or_any, visible_project_ids, in_projects, is_between, get_queryset,
}

-- The id is that of a project whose schedule pages the user sees, and the requested one if there is
-- one.
abbrev pub shown_project : Account → Option ℕ → ℕ → Bool
shown_project account requested project_id =
    any_of
      (λ p.
        p.id == project_id
        && (can_view_project account.user p
            && (requested_or_any requested p && user_can_view_schedule_pages account.user p)))
      account.projects

-- Both ends of the dependency are stored schedules of such projects.
abbrev pub IsShown : Account → Option ℕ → Database → ScheduleDependency → Type 0
IsShown account requested db d =
    (s : Schedule) × (find_schedule d.from_schedule_id db ≡ some s)
    × (t : Schedule) × (find_schedule d.to_schedule_id db ≡ some t)
    × (shown_project account requested s.project_id ≡ true)
    × (shown_project account requested t.project_id ≡ true)

keep-All :
    (test : ScheduleDependency → Bool) (P : ScheduleDependency → Type 0)
    → ((d : ScheduleDependency) → test d ≡ true → P d)
    → (ds : List ScheduleDependency) → All P (keep test ds)
keep-All test P f [] = tt
keep-All test P f (d ∷ ds) = elim (Bool-cases (test d)) [
  | inl kept ↦ rw kept (f d kept, keep-All test P f ds)
  | inr gone ↦ rw gone (keep-All test P f ds)
]

keep-kept :
    (test : ScheduleDependency → Bool) (P : ScheduleDependency → Type 0)
    (ds : List ScheduleDependency)
    → All P ds
    → All P (keep test ds)
keep-kept test P [] h = tt
keep-kept test P (d ∷ ds) h = elim (Bool-cases (test d)) [
  | inl kept ↦ rw kept (h.0, keep-kept test P ds h.1)
  | inr gone ↦ rw gone (keep-kept test P ds h.1)
]

contains-any :
    (test : Project → Bool) (i : ℕ) (ps : List Project)
    → contains i (map (λ p. p.id) (keep test ps)) ≡ any_of (λ p. p.id == i && test p) ps
contains-any test i [] = refl
contains-any test i (p ∷ ps) = elim (Bool-cases (test p)) [
  | inl kept ↦ rw (kept, contains-any test i ps) (swap i p.id _)
  | inr gone ↦ rw (gone, contains-any test i ps) (skip (p.id == i) _)
]
  where
    swap : (i j : ℕ) (b : Bool) → (i == j || b) ≡ (j == i && true || b)
    swap i j b = ground arith

    skip : (a b : Bool) → b ≡ (a && false || b)
    skip a b = ground arith

between-IsShown :
    (account : Account) (requested : Option ℕ) (db : Database) (d : ScheduleDependency)
    → is_between (visible_project_ids account requested) db d ≡ true
    → IsShown account requested db d
unfolding visible_project_ids
between-IsShown account requested db d e =
    let (from, to) = both _ _ e in
    let (s, found_s, seen_s) = stored (find_schedule d.from_schedule_id db) from in
    let (t, found_t, seen_t) = stored (find_schedule d.to_schedule_id db) to in
    (s, found_s, t, found_t, seen_s, seen_t)
  where
    both : (a b : Bool) → (a && b) ≡ true → (a ≡ true) × (b ≡ true)
    both a b h = ground arith

    stored :
        (o : Option Schedule)
        → in_projects (visible_project_ids account requested) o ≡ true
        → (s : Schedule) × (o ≡ some s) × (shown_project account requested s.project_id ≡ true)
    stored none h = absurd (differ h)
      where
        differ : false ≡ true → ⊥
        differ f = cc
    stored (some s) h = (s, refl, sym (contains-any _ s.project_id account.projects) ∙ h)

-- A list that is returned has only dependencies between stored schedules of projects whose schedule
-- pages the user sees; with a requested project, only of that one.
pub get_queryset-IsShown :
    (account : Account) (requested : Option ℕ) (db : Database) (ds : List ScheduleDependency)
    → get_queryset account requested db ≡ ok ds
    → All (IsShown account requested db) ds
unfolding get_queryset
get_queryset-IsShown account none db ds e = subst (All (IsShown account none db)) (ok-injective e) (
    keep-All (is_between (visible_project_ids account none) db) (IsShown account none db)
      (between-IsShown account none db) db.dependencies)
get_queryset-IsShown account (some project_id) db ds e =
    let (p, _, out) = >>=-eq-ok (check_link_access account (some project_id) false false) _ e in
    subst (All (IsShown account (some project_id) db)) (ok-injective out) (
      keep-kept (is_between (project_id ∷ []) db) (IsShown account (some project_id) db) _ (
        keep-All (is_between (visible_project_ids account (some project_id)) db)
          (IsShown account (some project_id) db) (between-IsShown account (some project_id) db)
          db.dependencies))
