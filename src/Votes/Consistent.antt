-- ===== src/Votes/Consistent.antt =====
-- The counters and the votes, under any sequence of the services.
use taiga_back_schedule_mana.Base.{
  ℕ, suc, ◌+◌, ◌-◌, ◌≤◌, ◌≡◌, refl, sym, ◌∙◌, ap, subst, Bool, true, false, ◌&&◌, not, List, [],
  ◌∷◌, map, keep, length, any_of, ◌==◌, if◌then◌else◌, Bool-cases, inl, inr, arith,
}
use taiga_back_schedule_mana.Model.{ok}
use taiga_back_schedule_mana.Votes.Services.{
  Vote, Votes, Store, is_for, is_vote, has_voted, count_in, get_or_create_votes, get_votes,
  get_voters, add_vote, finish_removal, remove_vote,
}
use taiga_back_schedule_mana.Votes.Rows.{
  is_same, is_same_lem, number, updated, count-here, count-elsewhere, created-found, created-count,
  number-deleted, number-kept,
}
use taiga_back_schedule_mana.Votes.Adding.{IsConsistent, number-some, add_vote-IsConsistent}

abbrev pub lowered : ℕ → ℕ → List Votes → List Votes
lowered t o counters = updated (λ n. n - 1) t o (get_or_create_votes t o counters)

abbrev pub removed : ℕ → ℕ → ℕ → Store → Store
removed t o u s = record {
  rows = keep (λ v. not (is_vote t o u v)) s.rows;
  counters = lowered t o s.counters;
}

pub finish_removal_lem :
    (t o u : ℕ) (s : Store)
    → 1 ≤ count_in t o s.counters
    → finish_removal t o u s ≡ ok (removed t o u s)
unfolding finish_removal
finish_removal_lem t o u s h =
    rw (created-count t o t o s.counters, positive (count_in t o s.counters) h) refl
  where
    positive : (n : ℕ) → 1 ≤ n → (n == 0) ≡ false
    positive n h = ground arith

pub count-lowered :
    (t o a b : ℕ) (counters : List Votes)
    → count_in a b (lowered t o counters)
      ≡ (if is_same t o a b then count_in a b counters - 1 else count_in a b counters)
count-lowered t o a b counters = elim (Bool-cases (is_same t o a b)) [
  | inl same ↦
      let (e, f) = is_same_lem t o a b same in
      rw same (
        subst (λ (x : ℕ). count_in x b (lowered t o counters) ≡ count_in x b counters - 1) e
          (subst (λ (y : ℕ). count_in t y (lowered t o counters) ≡ count_in t y counters - 1) f
            here))
  | inr other ↦ rw other (
      count-elsewhere (λ n. n - 1) t o a b (get_or_create_votes t o counters) other
      ∙ created-count t o a b counters)
]
  where
    here : count_in t o (lowered t o counters) ≡ count_in t o counters - 1
    here =
        count-here (λ n. n - 1) t o (get_or_create_votes t o counters) (created-found t o counters)
        ∙ ap (λ x. x - 1) (created-count t o t o counters)

pub number-removed :
    (t o u a b : ℕ) (rows : List Vote)
    → number (is_for a b) rows
      ≡ number (is_for a b) (keep (λ v. not (is_vote t o u v)) rows)
        + (if is_same t o a b then number (is_vote t o u) rows else 0)
number-removed t o u a b rows = elim (Bool-cases (is_same t o a b)) [
  | inl same ↦ rw same (
      number-deleted (is_vote t o u) (is_for a b) rows
        (λ v h. inside v.content_type_id v.object_id (v.user_id == u) same h))
  | inr other ↦ rw other (
      omega (
        arith,
        number-kept (is_vote t o u) (is_for a b) rows
            (λ v h. apart v.content_type_id v.object_id (v.user_id == u) other h),
      ))
]
  where
    inside :
        (x y : ℕ) (z : Bool)
        → is_same t o a b ≡ true
        → (x == t && y == o && z) ≡ true
        → (x == a && y == b) ≡ true
    inside x y z same h = ground arith

    apart :
        (x y : ℕ) (z : Bool)
        → is_same t o a b ≡ false
        → (x == t && y == o && z) ≡ true
        → (x == a && y == b) ≡ false
    apart x y z same h = ground arith

-- The removal of some rows leaves no more than there were.
number-fewer :
    (test other : Vote → Bool) (rows : List Vote)
    → number other (keep test rows) ≤ number other rows
number-fewer test other [] = omega arith
number-fewer test other (v ∷ rows) =
    let rest = number-fewer test other rows in
    elim (Bool-cases (test v)) [
      | inl kept ↦ elim (Bool-cases (other v)) [
        | inl counts ↦ rw (kept, counts) (omega (arith, rest))
        | inr out ↦ rw (kept, out) rest
      ]
      | inr left ↦ elim (Bool-cases (other v)) [
        | inl counts ↦ rw (left, counts) (omega (arith, rest))
        | inr out ↦ rw (left, out) rest
      ]
    ]

pub any_of-deleted :
    (test : Vote → Bool) (rows : List Vote) → any_of test (keep (λ v. not (test v)) rows) ≡ false
any_of-deleted test [] = refl
any_of-deleted test (v ∷ rows) = elim (Bool-cases (test v)) [
  | inl hit ↦ rw hit (any_of-deleted test rows)
  | inr miss ↦ rw (miss, miss) (any_of-deleted test rows)
]

pub voted_once :
    (t o u : ℕ) (s : Store)
    → IsConsistent s
    → has_voted t o u s ≡ true
    → (number (is_vote t o u) s.rows ≡ 1) × (1 ≤ count_in t o s.counters)
voted_once t o u s (counts, once) voted =
    (exact, omega (arith, counts t o, number-removed t o u t o s.rows, own, exact))
  where
    exact : number (is_vote t o u) s.rows ≡ 1
    exact = omega (arith, number-some (is_vote t o u) s.rows voted, once t o u)

    own :
        (if is_same t o t o then number (is_vote t o u) s.rows else 0)
        ≡ number (is_vote t o u) s.rows
    own = ap (λ b. if b then number (is_vote t o u) s.rows else 0) (reflexive t o)
      where
        reflexive : (a b : ℕ) → (a == a && b == b) ≡ true
        reflexive a b = ground arith

removed-IsConsistent :
    (t o u : ℕ) (s : Store)
    → IsConsistent s
    → has_voted t o u s ≡ true
    → IsConsistent (removed t o u s)
removed-IsConsistent t o u s (counts, once) voted = (
  counted,
  λ a b c. fewer (number-fewer (λ v. not (is_vote t o u v)) (is_vote a b c) s.rows) (once a b c),
)
  where
    fewer : {m n : ℕ} → m ≤ n → n ≤ 1 → m ≤ 1
    fewer h k = omega arith

    one : number (is_vote t o u) s.rows ≡ 1
    one = (voted_once t o u s (counts, once) voted).0

    counted :
        (a b : ℕ)
        → count_in a b (lowered t o s.counters)
          ≡ number (is_for a b) (keep (λ v. not (is_vote t o u v)) s.rows)
    counted a b = elim (Bool-cases (is_same t o a b)) [
      | inl same ↦ omega (
        arith,
        count-lowered t o a b s.counters
            ∙ ap (λ x. if x then count_in a b s.counters - 1 else count_in a b s.counters) same,
        counts a b,
        number-removed t o u a b s.rows,
        ap (λ x. if x then number (is_vote t o u) s.rows else 0) same,
        one,
      )
      | inr other ↦ omega (
        arith,
        count-lowered t o a b s.counters
            ∙ ap (λ x. if x then count_in a b s.counters - 1 else count_in a b s.counters) other,
        counts a b,
        number-removed t o u a b s.rows,
        ap (λ x. if x then number (is_vote t o u) s.rows else 0) other,
      )
    ]

remove_vote-Consistent :
    (t o u : ℕ) (s : Store)
    → IsConsistent s
    → (s' : Store) × (remove_vote t o u s ≡ ok s') × IsConsistent s' × (has_voted t o u s' ≡ false)
unfolding remove_vote
remove_vote-Consistent t o u s consistent = elim (Bool-cases (has_voted t o u s)) [
  | inl voted ↦ (
    removed t o u s,
    rw voted (finish_removal_lem t o u s (voted_once t o u s consistent voted).1),
    removed-IsConsistent t o u s consistent voted,
    any_of-deleted (is_vote t o u) s.rows,
  )
  | inr absent ↦ (s, rw absent refl, consistent, absent)
]

abbrev pub empty_store : Store
empty_store = record { rows = []; counters = [] }

-- What the services, called one after the other, lead to.
pub data IsReachable : Store → Type 0 where
  empty : IsReachable empty_store
  added : (t o u : ℕ) {s : Store} → IsReachable s → IsReachable (add_vote t o u s)
  removed_one :
      (t o u : ℕ) {s s' : Store} → IsReachable s → remove_vote t o u s ≡ ok s' → IsReachable s'

ok_injective : (s s' : Store) → ok s ≡ ok s' → s ≡ s'
ok_injective s s' h = cc

pub IsReachable-IsConsistent : {s : Store} → IsReachable s → IsConsistent s
IsReachable-IsConsistent empty = (λ t o. refl, λ t o u. omega arith)
IsReachable-IsConsistent (added t o u {s} h) =
    add_vote-IsConsistent t o u s (IsReachable-IsConsistent h)
IsReachable-IsConsistent (removed_one t o u {s} {s'} h e) =
    let (s1, e1, consistent, gone) = remove_vote-Consistent t o u s (IsReachable-IsConsistent h) in
    subst IsConsistent (ok_injective s1 s' (sym e1 ∙ e)) consistent

pub length-map : {A B : Type 0} (f : A → B) (xs : List A) → length (map f xs) ≡ length xs
length-map f [] = refl
length-map f (x ∷ xs) = ap suc (length-map f xs)

-- However the services are called one after the other, the count of each object is the number of its voters.
pub get_votes-get_voters :
    (s : Store) (t o : ℕ) → IsReachable s → get_votes t o s ≡ length (get_voters t o s)
unfolding get_votes get_voters
get_votes-get_voters s t o h =
    (IsReachable-IsConsistent h).0 t o
    ∙ sym (length-map (λ v. v.user_id) (keep (is_for t o) s.rows))

-- From each such state a removal succeeds and leaves no vote of the user for the object; the count falls by
-- one if there was one.
pub remove_vote_lem :
    (s : Store) (t o u : ℕ)
    → IsReachable s
    → (s' : Store) × (remove_vote t o u s ≡ ok s')
      × (has_voted t o u s' ≡ false)
      × (get_votes t o s ≡ get_votes t o s' + (if has_voted t o u s then 1 else 0))
unfolding get_votes remove_vote
remove_vote_lem s t o u h =
    let consistent = IsReachable-IsConsistent h in
    elim (Bool-cases (has_voted t o u s)) [
      | inl voted ↦ (
        removed t o u s,
        rw voted (finish_removal_lem t o u s (voted_once t o u s consistent voted).1),
        any_of-deleted (is_vote t o u) s.rows,
        rw voted (
            omega (
              arith,
              count-lowered t o t o s.counters
                  ∙ ap (λ x. if x then count_in t o s.counters - 1 else count_in t o s.counters)
                      (reflexive t o),
              (voted_once t o u s consistent voted).1,
            )),
      )
      | inr absent ↦ (s, rw absent refl, absent, rw absent (omega arith))
    ]
  where
    reflexive : (a b : ℕ) → (a == a && b == b) ≡ true
    reflexive a b = ground arith
