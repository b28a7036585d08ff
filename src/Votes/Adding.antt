-- ===== src/Votes/Adding.antt =====
-- The counters and the votes, when a vote is added.
use taiga_back_schedule_mana.Base.{
  ℕ, suc, ◌+◌, ◌≤◌, ◌≡◌, refl, sym, ◌∙◌, ap, subst, Bool, true, false, ◌&&◌, ◌||◌, List, [], ◌∷◌,
  any_of, ◌==◌, if◌then◌else◌, Bool-cases, inl, inr, arith,
}
use taiga_back_schedule_mana.Votes.Services.{
  Vote, Votes, Store, is_for, is_vote, has_voted, count_in, get_or_create_votes, add_vote,
}
use taiga_back_schedule_mana.Votes.Rows.{
  is_same, is_same_lem, number, number-cons, updated, count-here, count-elsewhere, created-found,
  created-count,
}

-- Each counter is the number of its votes, and a user votes once at most.
abbrev pub IsConsistent : Store → Type 0
IsConsistent s =
    ((t o : ℕ) → count_in t o s.counters ≡ number (is_for t o) s.rows)
    × ((t o u : ℕ) → number (is_vote t o u) s.rows ≤ 1)

pub number-none :
    (test : Vote → Bool) (rows : List Vote) → any_of test rows ≡ false → number test rows ≡ 0
number-none test [] h = refl
number-none test (v ∷ rows) h =
    number-cons test v rows
    ∙ (ap (λ b. if b then suc (number test rows) else number test rows)
          (head (test v) (any_of test rows) h)
        ∙ number-none test rows (rest (test v) (any_of test rows) h))
  where
    head : (a b : Bool) → (a || b) ≡ false → a ≡ false
    head a b o = ground arith

    rest : (a b : Bool) → (a || b) ≡ false → b ≡ false
    rest a b o = ground arith

pub number-some :
    (test : Vote → Bool) (rows : List Vote) → any_of test rows ≡ true → 1 ≤ number test rows
number-some test [] h = absurd (no h)
  where
    no : false ≡ true → ⊥
    no e = cc
number-some test (v ∷ rows) h = elim (Bool-cases (test v)) [
  | inl hit ↦ rw (number-cons test v rows, hit) (omega arith)
  | inr miss ↦
      rw (number-cons test v rows, miss)
        (number-some test rows (rest (test v) (any_of test rows) miss h))
]
  where
    rest : (a b : Bool) → a ≡ false → (a || b) ≡ true → b ≡ true
    rest a b m o = ground arith

pub add_vote-IsConsistent :
    (t o u : ℕ) (s : Store) → IsConsistent s → IsConsistent (add_vote t o u s)
unfolding add_vote
add_vote-IsConsistent t o u s (counts, once) = elim (Bool-cases (has_voted t o u s)) [
  | inl voted ↦ rw voted (counts, once)
  | inr new ↦ rw new (counted, single new)
]
  where
    vote : Vote
    vote = record { content_type_id = t; object_id = o; user_id = u }

    created : List Votes
    created = get_or_create_votes t o s.counters

    grown : List Votes
    grown = updated (λ n. n + 1) t o created

    here : count_in t o grown ≡ suc (number (is_for t o) s.rows)
    here =
        count-here (λ n. n + 1) t o created (created-found t o s.counters)
        ∙ omega (arith, created-count t o t o s.counters, counts t o)

    counted : (a b : ℕ) → count_in a b grown ≡ number (is_for a b) (vote ∷ s.rows)
    counted a b = elim (Bool-cases (is_same t o a b)) [
      | inl same ↦
          let (e, f) = is_same_lem t o a b same in
          subst (λ (x : ℕ). count_in x b grown ≡ suc (number (is_for x b) s.rows)) e
            (subst (λ (y : ℕ). count_in t y grown ≡ suc (number (is_for t y) s.rows)) f here)
          ∙ sym (
              number-cons (is_for a b) vote s.rows
              ∙ ap (λ x. if x then suc (number (is_for a b) s.rows) else number (is_for a b) s.rows)
                  same)
      | inr other ↦
          count-elsewhere (λ n. n + 1) t o a b created other
          ∙ (created-count t o a b s.counters
              ∙ (counts a b
                  ∙ sym (
                      number-cons (is_for a b) vote s.rows
                      ∙ ap
                          (λ x.
                            if x
                            then suc (number (is_for a b) s.rows)
                            else number (is_for a b) s.rows)
                          other)))
    ]

    single : has_voted t o u s ≡ false → (a b c : ℕ) → number (is_vote a b c) (vote ∷ s.rows) ≤ 1
    single new a b c = elim (Bool-cases (is_vote a b c vote)) [
      | inl hit ↦
          let (e, f, g) = three_parts hit in
          let none_yet =
            subst (λ (x : ℕ). number (is_vote x b c) s.rows ≡ 0) e
              (subst (λ (y : ℕ). number (is_vote t y c) s.rows ≡ 0) f
                (subst (λ (z : ℕ). number (is_vote t o z) s.rows ≡ 0) g
                  (number-none (is_vote t o u) s.rows new))) in
          rw (number-cons (is_vote a b c) vote s.rows, hit, none_yet) (omega arith)
      | inr miss ↦ rw (number-cons (is_vote a b c) vote s.rows, miss) (once a b c)
    ]
      where
        three_parts : (t == a && o == b && u == c) ≡ true → (t ≡ a) × (o ≡ b) × (u ≡ c)
        three_parts h = ground arith
