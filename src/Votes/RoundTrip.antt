-- ===== src/Votes/RoundTrip.antt =====
-- A vote that is taken back.
use taiga_back_schedule_mana.Base.{
  ℕ, ◌+◌, ◌-◌, ◌≤◌, ◌≡◌, refl, ◌∙◌, ap, subst, Bool, true, false, ◌&&◌, ◌||◌, not, List, [], ◌∷◌,
  keep, any_of, ◌==◌, if◌then◌else◌, Bool-cases, inl, inr, arith,
}
use taiga_back_schedule_mana.Model.{ok}
use taiga_back_schedule_mana.Votes.Services.{
  Vote, Votes, Store, is_vote, has_voted, count_in, get_or_create_votes, get_votes, add_vote,
  remove_vote,
}
use taiga_back_schedule_mana.Votes.Rows.{
  is_same, is_same_lem, updated, count-here, count-elsewhere, created-found, created-count,
}
use taiga_back_schedule_mana.Votes.Consistent.{removed, lowered, finish_removal_lem, count-lowered}

keep-absent :
    (test : Vote → Bool) (rows : List Vote)
    → any_of test rows ≡ false
    → keep (λ v. not (test v)) rows ≡ rows
keep-absent test [] h = refl
keep-absent test (v ∷ rows) h =
    rw (head (test v) (any_of test rows) h)
      (ap (λ rest. v ∷ rest) (keep-absent test rows (rest (test v) (any_of test rows) h)))
  where
    head : (a b : Bool) → (a || b) ≡ false → a ≡ false
    head a b o = ground arith

    rest : (a b : Bool) → (a || b) ≡ false → b ≡ false
    rest a b o = ground arith

-- Where the user has not voted for the object, a vote and its removal succeed and leave the votes that were
-- there, with every count as it was.
pub remove_vote-add_vote :
    (t o u : ℕ) (s : Store)
    → has_voted t o u s ≡ false
    → (s' : Store) × (remove_vote t o u (add_vote t o u s) ≡ ok s')
      × (s'.rows ≡ s.rows)
      × ((a b : ℕ) → get_votes a b s' ≡ get_votes a b s)
unfolding remove_vote add_vote get_votes
remove_vote-add_vote t o u s new =
    (removed t o u voted, ap (remove_vote t o u) added ∙ taken, rows_same, counts_same)
  where
    created : List Votes
    created = get_or_create_votes t o s.counters

    grown : List Votes
    grown = updated (λ n. n + 1) t o created

    voted : Store
    voted = record {
      rows = record { content_type_id = t; object_id = o; user_id = u } ∷ s.rows;
      counters = grown;
    }

    own : (a b c : ℕ) → (a == a && b == b && c == c) ≡ true
    own a b c = ground arith

    rows_same : (removed t o u voted).rows ≡ s.rows
    rows_same = rw (own t o u) (keep-absent (is_vote t o u) s.rows new)

    here : count_in t o grown ≡ count_in t o s.counters + 1
    here =
        count-here (λ n. n + 1) t o created (created-found t o s.counters)
        ∙ ap (λ n. n + 1) (created-count t o t o s.counters)

    added : add_vote t o u s ≡ voted
    added = rw new refl

    positive : (n m : ℕ) → n ≡ m + 1 → 1 ≤ n
    positive n m h = omega arith

    present : has_voted t o u voted ≡ true
    present = any_own (t == t && o == o && u == u) (has_voted t o u s) (own t o u)
      where
        any_own : (a b : Bool) → a ≡ true → (a || b) ≡ true
        any_own a b h = ground arith

    taken : remove_vote t o u voted ≡ ok (removed t o u voted)
    taken = rw present (
        finish_removal_lem t o u voted
          (positive (count_in t o grown) (count_in t o s.counters) here))

    counts_same : (a b : ℕ) → count_in a b (lowered t o grown) ≡ count_in a b s.counters
    counts_same a b = elim (Bool-cases (is_same t o a b)) [
      | inl same ↦
          let (e, f) = is_same_lem t o a b same in
          let there =
            subst (λ (x : ℕ). count_in x b grown ≡ count_in x b s.counters + 1) e
              (subst (λ (y : ℕ). count_in t y grown ≡ count_in t y s.counters + 1) f here) in
          omega (
            arith,
            there,
            count-lowered t o a b grown
                ∙ ap (λ x. if x then count_in a b grown - 1 else count_in a b grown) same,
          )
      | inr other ↦
          count-lowered t o a b grown
          ∙ (ap (λ x. if x then count_in a b grown - 1 else count_in a b grown) other
              ∙ (count-elsewhere (λ n. n + 1) t o a b created other
                  ∙ created-count t o a b s.counters))
    ]
