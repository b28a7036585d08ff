-- ===== src/Closing/Milestones.antt =====
-- When a milestone counts as closed.
use taiga_back_schedule_mana.Base.{
  ℕ, ◌+◌, ◌<◌, ◌≡◌, refl, Bool, true, false, not, ◌&&◌, ◌||◌, List, [], ◌∷◌, is_empty, length, All,
  ◌↔◌, arith,
}
use taiga_back_schedule_mana.Closing.Rows.{
  UserStory, Task, Issue, Board, has_closed, all_of, stories_of, loose_tasks_of, issues_of,
}
use taiga_back_schedule_mana.Closing.Services.{calculate_milestone_is_closed}

all_of_iff :
    {A : Type 0} (test : A → Bool) (xs : List A)
    → (all_of test xs ≡ true) ↔ All (λ x. test x ≡ true) xs
all_of_iff test [] = (λ h. tt, λ h. refl)
all_of_iff test (x ∷ xs) = (
  λ h. (
    first_part (test x) (all_of test xs) h,
    (all_of_iff test xs).0 (second_part (test x) (all_of test xs) h),
  ),
  λ h. both (test x) (all_of test xs) h.0 ((all_of_iff test xs).1 h.1),
)
  where
    first_part : (a b : Bool) → (a && b) ≡ true → a ≡ true
    first_part a b h = ground arith

    second_part : (a b : Bool) → (a && b) ≡ true → b ≡ true
    second_part a b h = ground arith

    both : (a b : Bool) → a ≡ true → b ≡ true → (a && b) ≡ true
    both a b h k = ground arith

-- A milestone counts as closed exactly when it has a user story, an issue or a task without a user story, and
-- all of these are closed.
pub calculate_milestone_is_closed_iff :
    (m : ℕ) (b : Board)
    → (calculate_milestone_is_closed m b ≡ true) ↔ (
        (0 < length (stories_of m b) + length (loose_tasks_of m b) + length (issues_of m b))
        × All (λ us. us.is_closed ≡ true) (stories_of m b)
        × All (λ t. has_closed t.status ≡ true) (loose_tasks_of m b)
        × All (λ i. has_closed i.status ≡ true) (issues_of m b))
unfolding calculate_milestone_is_closed
calculate_milestone_is_closed_iff m b = (
  λ h.
      let (u, t, i, some_there) = split no_us no_tasks no_issues uss tasks issues h in
      (
        counted some_there,
        (all_of_iff (λ us. us.is_closed) (stories_of m b)).0 u,
        (all_of_iff (λ t. has_closed t.status) (loose_tasks_of m b)).0 t,
        (all_of_iff (λ i. has_closed i.status) (issues_of m b)).0 i,
      ),
  λ h.
      joined no_us no_tasks no_issues uss tasks issues
        ((all_of_iff (λ us. us.is_closed) (stories_of m b)).1 h.1)
        ((all_of_iff (λ t. has_closed t.status) (loose_tasks_of m b)).1 h.2)
        ((all_of_iff (λ i. has_closed i.status) (issues_of m b)).1 h.3) (one_left h.0),
)
  where
    no_us : Bool
    no_us = is_empty (stories_of m b)

    no_tasks : Bool
    no_tasks = is_empty (loose_tasks_of m b)

    no_issues : Bool
    no_issues = is_empty (issues_of m b)

    uss : Bool
    uss = all_of (λ us. us.is_closed) (stories_of m b)

    tasks : Bool
    tasks = all_of (λ t. has_closed t.status) (loose_tasks_of m b)

    issues : Bool
    issues = all_of (λ i. has_closed i.status) (issues_of m b)

    split :
        (x y z u t i : Bool)
        → ((not x && t && u && i) || (not z && i && t && u) || (not y && t && i && u)) ≡ true
        → (u ≡ true) × (t ≡ true) × (i ≡ true) × ((x && y && z) ≡ false)
    split x y z u t i h = ground arith

    joined :
        (x y z u t i : Bool)
        → u ≡ true
        → t ≡ true
        → i ≡ true
        → (x && y && z) ≡ false
        → ((not x && t && u && i) || (not z && i && t && u) || (not y && t && i && u)) ≡ true
    joined x y z u t i hu ht hi h = ground arith

    counted :
        (no_us && no_tasks && no_issues) ≡ false
        → 0 < length (stories_of m b) + length (loose_tasks_of m b) + length (issues_of m b)
    counted h = sum (stories_of m b) (loose_tasks_of m b) (issues_of m b) h
      where
        sum :
            (xs : List UserStory) (ys : List Task) (zs : List Issue)
            → (is_empty xs && is_empty ys && is_empty zs) ≡ false
            → 0 < length xs + length ys + length zs
        sum (x ∷ xs) ys zs h = omega arith
        sum [] (y ∷ ys) zs h = omega arith
        sum [] [] (z ∷ zs) h = omega arith
        sum [] [] [] h = absurd (no h)
          where
            no : true ≡ false → ⊥
            no e = cc

    one_left :
        0 < length (stories_of m b) + length (loose_tasks_of m b) + length (issues_of m b)
        → (no_us && no_tasks && no_issues) ≡ false
    one_left h = some_row (stories_of m b) (loose_tasks_of m b) (issues_of m b) h
      where
        some_row :
            (xs : List UserStory) (ys : List Task) (zs : List Issue)
            → 0 < length xs + length ys + length zs
            → (is_empty xs && is_empty ys && is_empty zs) ≡ false
        some_row (x ∷ xs) ys zs h = refl
        some_row [] (y ∷ ys) zs h = refl
        some_row [] [] (z ∷ zs) h = refl
        some_row [] [] [] h = absurd (no h)
          where
            no : 0 < 0 + 0 + 0 → ⊥
            no e = omega arith
