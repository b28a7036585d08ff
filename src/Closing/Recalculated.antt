-- ===== src/Closing/Recalculated.antt =====
-- How a changed user story and a changed flag show in the calculations.
use taiga_back_schedule_mana.Base.{
  ℕ, ◌≡◌, ◌≢◌, refl, sym, ◌∙◌, ap, Bool, true, false, Option, List, [], ◌∷◌, keep, update_where,
  All, ◌==◌, ==_iff, if◌then◌else◌, Bool-cases, inl, inr, arith,
}
use taiga_back_schedule_mana.Closing.Rows.{
  UserStory, Milestone, Board, refers, loose_tasks_of, issues_of,
}
use taiga_back_schedule_mana.Closing.Services.{
  is_each_closed, calculate_milestone_is_closed, close_milestone, open_milestone, set_is_closed,
  recalculate_is_closed_for_milestone,
}

-- Each milestone has the flag that the calculation gives.
abbrev pub IsSettled : Board → Type 0
IsSettled b = All (λ m. m.closed ≡ calculate_milestone_is_closed m.id b) b.milestones

-- The rows with the id of a user story are that user story.
abbrev pub IsStored : UserStory → Board → Type 0
IsStored us b = All (λ row. row.id ≡ us.id → row ≡ us) b.userstories

-- Another milestone's user stories are not concerned.
stories_of-set_is_closed :
    (us : UserStory) (closed : Bool) (date : Option ℕ) (m : ℕ) (rows : List UserStory)
    → All (λ row. row.id ≡ us.id → row ≡ us) rows
    → refers m us.milestone_id ≡ false
    → keep
        (λ row. refers m row.milestone_id)
        (update_where
          (λ row. row.id == us.id)
          (λ row. record row { is_closed = closed; finish_date = date })
          rows)
      ≡ keep (λ row. refers m row.milestone_id) rows
stories_of-set_is_closed us closed date m [] stored other = refl
stories_of-set_is_closed us closed date m (row ∷ rows) stored other =
    let rest = stories_of-set_is_closed us closed date m rows stored.1 other in
    elim (Bool-cases (row.id == us.id)) [
      | inl hit ↦
          let out =
            ap (λ r. refers m r.milestone_id) (stored.0 ((==_iff row.id us.id).0 hit)) ∙ other in
          rw (hit, out) rest
      | inr miss ↦ rw miss (ap (λ l. if refers m row.milestone_id then row ∷ l else l) rest)
    ]

pub calculate-other :
    (us : UserStory) (closed : Bool) (date : Option ℕ) (m : ℕ) (b : Board)
    → IsStored us b
    → refers m us.milestone_id ≡ false
    → calculate_milestone_is_closed m (set_is_closed us.id closed date b)
      ≡ calculate_milestone_is_closed m b
unfolding calculate_milestone_is_closed
calculate-other us closed date m b stored other =
    ap (λ rows. is_each_closed rows (loose_tasks_of m b) (issues_of m b))
      (stories_of-set_is_closed us closed date m b.userstories stored other)

settle_changed :
    (f : ℕ → Bool) (m : ℕ) (closed : Bool) (rows : List Milestone)
    → f m ≡ closed
    → All (λ row. row.id ≢ m → row.closed ≡ f row.id) rows
    → All
        (λ row. row.closed ≡ f row.id)
        (update_where (λ row. row.id == m) (λ row. record row { closed = closed }) rows)
settle_changed f m closed [] given others = tt
settle_changed f m closed (row ∷ rows) given others = elim (Bool-cases (row.id == m)) [
  | inl hit ↦
      rw hit (
        sym (ap f ((==_iff row.id m).0 hit) ∙ given),
        settle_changed f m closed rows given others.1,
      )
  | inr miss ↦
      rw miss (others.0 (apart row.id m miss), settle_changed f m closed rows given others.1)
]
  where
    apart : (x y : ℕ) → (x == y) ≡ false → x ≢ y
    apart x y h e = ground arith

settle_same :
    (f : ℕ → Bool) (m : Milestone) (rows : List Milestone)
    → m.closed ≡ f m.id
    → All (λ row. row.id ≢ m.id → row.closed ≡ f row.id) rows
    → All (λ row. row.id ≡ m.id → row ≡ m) rows
    → All (λ row. row.closed ≡ f row.id) rows
settle_same f m [] given others stored = tt
settle_same f m (row ∷ rows) given others stored = elim (Bool-cases (row.id == m.id)) [
  | inl hit ↦
      let same = (==_iff row.id m.id).0 hit in
      (
        ap (λ r. r.closed) (stored.0 same) ∙ (given ∙ ap f (sym same)),
        settle_same f m rows given others.1 stored.1,
      )
  | inr miss ↦ (others.0 (apart row.id m.id miss), settle_same f m rows given others.1 stored.1)
]
  where
    apart : (x y : ℕ) → (x == y) ≡ false → x ≢ y
    apart x y h e = ground arith

-- The recalculation of one milestone settles it and leaves the others.
pub recalculate-settles :
    (m : Milestone) (b : Board)
    → All (λ row. row.id ≢ m.id → row.closed ≡ calculate_milestone_is_closed row.id b) b.milestones
    → All (λ row. row.id ≡ m.id → row ≡ m) b.milestones
    → IsSettled (recalculate_is_closed_for_milestone m b)
      × ((recalculate_is_closed_for_milestone m b).userstories ≡ b.userstories)
unfolding recalculate_is_closed_for_milestone close_milestone open_milestone
    calculate_milestone_is_closed
recalculate-settles m b others stored = elim (Bool-cases (calculate_milestone_is_closed m.id b)) [
  | inl yes_closed ↦ elim (Bool-cases m.closed) [
    | inl already ↦
        rw (yes_closed, already)
          (
            settle_same (λ i. calculate_milestone_is_closed i b) m b.milestones
                (already ∙ sym yes_closed) others stored,
            refl,
          )
    | inr still ↦
        rw (yes_closed, still)
          (
            settle_changed (λ i. calculate_milestone_is_closed i b) m.id true b.milestones
                yes_closed others,
            refl,
          )
  ]
  | inr not_closed ↦ elim (Bool-cases m.closed) [
    | inl still ↦
        rw (not_closed, still)
          (
            settle_changed (λ i. calculate_milestone_is_closed i b) m.id false b.milestones
                not_closed others,
            refl,
          )
    | inr already ↦
        rw (not_closed, already)
          (
            settle_same (λ i. calculate_milestone_is_closed i b) m b.milestones
                (already ∙ sym not_closed) others stored,
            refl,
          )
  ]
]

-- No two milestones have an id in common.
abbrev pub OneEach : List Milestone → Type 0
OneEach [] = Unit
OneEach (m ∷ rows) = All (λ row. row.id ≢ m.id) rows × OneEach rows
