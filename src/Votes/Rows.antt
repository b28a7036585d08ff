-- ===== src/Votes/Rows.antt =====
-- How a change of the rows and of a counter shows in the number of voters and in the count.
use taiga_back_schedule_mana.Base.{
  ℕ, suc, ◌+◌, ◌≡◌, refl, sym, ◌∙◌, ap, Bool, true, false, ◌&&◌, ◌||◌, not, List, [], ◌∷◌, keep,
  length, any_of, update_where, ◌==◌, if◌then◌else◌, Bool-cases, inl, inr, arith,
}
use taiga_back_schedule_mana.Votes.Services.{
  Vote, Votes, is_counter, with_count, count_in, get_or_create_votes,
}

abbrev pub is_same : ℕ → ℕ → ℕ → ℕ → Bool
is_same t o t' o' = t == t' && o == o'

abbrev pub number : (Vote → Bool) → List Vote → ℕ
number test rows = length (keep test rows)

pub number-cons :
    (test : Vote → Bool) (v : Vote) (rows : List Vote)
    → number test (v ∷ rows) ≡ (if test v then suc (number test rows) else number test rows)
number-cons test v rows = elim (Bool-cases (test v)) [
  | inl hit ↦ rw hit refl
  | inr miss ↦ rw miss refl
]

found_first :
    (t o : ℕ) (c : Votes) (counters : List Votes)
    → is_counter t o c ≡ true
    → count_in t o (c ∷ counters) ≡ c.count
found_first t o c counters hit = rw hit refl

found_later :
    (t o : ℕ) (c : Votes) (counters : List Votes)
    → is_counter t o c ≡ false
    → count_in t o (c ∷ counters) ≡ count_in t o counters
found_later t o c counters miss = rw miss refl

abbrev pub updated : (ℕ → ℕ) → ℕ → ℕ → List Votes → List Votes
updated f t o counters = update_where (is_counter t o) (with_count f) counters

updated_hit :
    (f : ℕ → ℕ) (t o : ℕ) (c : Votes) (counters : List Votes)
    → is_counter t o c ≡ true
    → updated f t o (c ∷ counters) ≡ with_count f c ∷ updated f t o counters
updated_hit f t o c counters hit = rw hit refl

updated_miss :
    (f : ℕ → ℕ) (t o : ℕ) (c : Votes) (counters : List Votes)
    → is_counter t o c ≡ false
    → updated f t o (c ∷ counters) ≡ c ∷ updated f t o counters
updated_miss f t o c counters miss = rw miss refl

pub count-here :
    (f : ℕ → ℕ) (t o : ℕ) (counters : List Votes)
    → any_of (is_counter t o) counters ≡ true
    → count_in t o (updated f t o counters) ≡ f (count_in t o counters)
count-here f t o [] found = absurd (no found)
  where
    no : false ≡ true → ⊥
    no e = cc
count-here f t o (c ∷ counters) found = elim (Bool-cases (is_counter t o c)) [
  | inl hit ↦
      ap (count_in t o) (updated_hit f t o c counters hit)
      ∙ (found_first t o (with_count f c) (updated f t o counters) hit
          ∙ sym (ap f (found_first t o c counters hit)))
  | inr miss ↦
      ap (count_in t o) (updated_miss f t o c counters miss)
      ∙ (found_later t o c (updated f t o counters) miss
          ∙ (count-here f t o counters
                (rest (is_counter t o c) (any_of (is_counter t o) counters) miss found)
              ∙ sym (ap f (found_later t o c counters miss))))
]
  where
    rest : (a b : Bool) → a ≡ false → (a || b) ≡ true → b ≡ true
    rest a b m h = ground arith

pub count-elsewhere :
    (f : ℕ → ℕ) (t o t' o' : ℕ) (counters : List Votes)
    → is_same t o t' o' ≡ false
    → count_in t' o' (updated f t o counters) ≡ count_in t' o' counters
count-elsewhere f t o t' o' [] other = refl
count-elsewhere f t o t' o' (c ∷ counters) other =
    let rest = count-elsewhere f t o t' o' counters other in
    elim (Bool-cases (is_counter t o c)) [
      | inl hit ↦
          let miss = apart c.content_type_id c.object_id hit in
          ap (count_in t' o') (updated_hit f t o c counters hit)
          ∙ (found_later t' o' (with_count f c) (updated f t o counters) miss
              ∙ (rest ∙ sym (found_later t' o' c counters miss)))
      | inr left ↦
          ap (count_in t' o') (updated_miss f t o c counters left)
          ∙ (elim (Bool-cases (is_counter t' o' c)) [
            | inl hit ↦
                found_first t' o' c (updated f t o counters) hit
                ∙ sym (found_first t' o' c counters hit)
            | inr miss ↦
                found_later t' o' c (updated f t o counters) miss
                ∙ (rest ∙ sym (found_later t' o' c counters miss))
          ])
    ]
  where
    apart : (a b : ℕ) → (a == t && b == o) ≡ true → (a == t' && b == o') ≡ false
    apart a b h = ground arith

pub is_same_lem : (t o t' o' : ℕ) → is_same t o t' o' ≡ true → (t ≡ t') × (o ≡ o')
is_same_lem t o t' o' same = (first_part t t' (o == o') same, second_part (t == t') o o' same)
  where
    first_part : (a b : ℕ) (c : Bool) → (a == b && c) ≡ true → a ≡ b
    first_part a b c h = ground arith

    second_part : (c : Bool) (a b : ℕ) → (c && a == b) ≡ true → a ≡ b
    second_part c a b h = ground arith

pub count_missing :
    (t o : ℕ) (counters : List Votes)
    → any_of (is_counter t o) counters ≡ false
    → count_in t o counters ≡ 0
count_missing t o [] missing = refl
count_missing t o (c ∷ counters) missing =
    found_later t o c counters (head (is_counter t o c) (any_of (is_counter t o) counters) missing)
    ∙ count_missing t o counters
        (rest (is_counter t o c) (any_of (is_counter t o) counters) missing)
  where
    head : (a b : Bool) → (a || b) ≡ false → a ≡ false
    head a b h = ground arith

    rest : (a b : Bool) → (a || b) ≡ false → b ≡ false
    rest a b h = ground arith

-- The counter is there afterwards and no count has changed.
pub created-found :
    (t o : ℕ) (counters : List Votes)
    → any_of (is_counter t o) (get_or_create_votes t o counters) ≡ true
created-found t o counters = elim (Bool-cases (any_of (is_counter t o) counters)) [
  | inl found ↦ rw found found
  | inr missing ↦ rw missing (own t o (any_of (is_counter t o) counters))
]
  where
    own : (a b : ℕ) (c : Bool) → ((a == a && b == b) || c) ≡ true
    own a b c = ground arith

pub created-count :
    (t o t' o' : ℕ) (counters : List Votes)
    → count_in t' o' (get_or_create_votes t o counters) ≡ count_in t' o' counters
created-count t o t' o' counters = elim (Bool-cases (any_of (is_counter t o) counters)) [
  | inl found ↦ rw found refl
  | inr missing ↦ rw missing (elim (Bool-cases (is_same t o t' o')) [
    | inl same ↦ rw same (
        sym (
          ap (λ x. count_in x o' counters) (sym (is_same_lem t o t' o' same).0)
          ∙ (ap (λ x. count_in t x counters) (sym (is_same_lem t o t' o' same).1)
              ∙ count_missing t o counters missing)))
    | inr other ↦ rw other refl
  ])
]

-- The deletion of the rows that meet a test, on the rows that meet another.
pub number-deleted :
    (test other : Vote → Bool) (rows : List Vote)
    → ((v : Vote) → test v ≡ true → other v ≡ true)
    → number other rows ≡ number other (keep (λ v. not (test v)) rows) + number test rows
number-deleted test other [] inside = refl
number-deleted test other (v ∷ rows) inside =
    let later = number-deleted test other rows inside in
    elim (Bool-cases (test v)) [
      | inl hit ↦ rw (hit, inside v hit) (omega (arith, later))
      | inr miss ↦ elim (Bool-cases (other v)) [
        | inl counts ↦ rw (miss, counts) (omega (arith, later))
        | inr out ↦ rw (miss, out) later
      ]
    ]

pub number-kept :
    (test other : Vote → Bool) (rows : List Vote)
    → ((v : Vote) → test v ≡ true → other v ≡ false)
    → number other (keep (λ v. not (test v)) rows) ≡ number other rows
number-kept test other [] apart = refl
number-kept test other (v ∷ rows) apart =
    let later = number-kept test other rows apart in
    elim (Bool-cases (test v)) [
      | inl hit ↦ rw (hit, apart v hit) later
      | inr miss ↦ elim (Bool-cases (other v)) [
        | inl counts ↦ rw (miss, counts) (ap suc later)
        | inr out ↦ rw (miss, out) later
      ]
    ]
