-- ===== src/Closing/Settled.antt =====
-- What a recalculation leaves: the flags of the user story and of every milestone.
use taiga_back_schedule_mana.Base.{
  ℕ, ◌≡◌, ◌≢◌, refl, sym, ◌∙◌, ap, subst, Bool, true, false, Option, none, some, List, [], ◌∷◌,
  update_where, All, All-map, ◌==◌, ==_iff, Bool-cases, ◌⊎◌, inl, inr, arith,
}
use taiga_back_schedule_mana.Closing.Rows.{UserStory, Milestone, Board, refers}
use taiga_back_schedule_mana.Closing.Services.{
  calculate_milestone_is_closed, calculate_userstory_is_closed, set_is_closed, close_userstory,
  open_userstory, find_milestone, after_userstory,
  recalculate_is_closed_for_userstory_and_its_milestone,
}
use taiga_back_schedule_mana.Closing.Recalculated.{
  IsSettled, IsStored, calculate-other, recalculate-settles, OneEach,
}

pub find_milestone-cases :
    (m : ℕ) (rows : List Milestone)
    → OneEach rows
    → ((find_milestone m rows ≡ none) × All (λ row. row.id ≢ m) rows)
      ⊎ ((found : Milestone) × (find_milestone m rows ≡ some found)
          × (found.id ≡ m)
          × All (λ row. row.id ≡ found.id → row ≡ found) rows)
find_milestone-cases m [] each = inl (refl, tt)
find_milestone-cases m (row ∷ rows) each = elim (Bool-cases (row.id == m)) [
  | inl hit ↦ inr (
    row,
    rw hit refl,
    (==_iff row.id m).0 hit,
    (
      (λ e. refl),
      All-map {P = λ r. r.id ≢ row.id} {Q = λ r. r.id ≡ row.id → r ≡ row} rows
          (λ r other e. absurd (other e)) each.0,
    ),
  )
  | inr miss ↦ elim (find_milestone-cases m rows each.1) [
    | inl (gone, others) ↦ inl (rw miss gone, (apart row.id m miss, others))
    | inr (found, h, same, stored) ↦
        inr (found, rw miss h, same, ((λ e. absurd (apart row.id m miss (e ∙ same))), stored))
  ]
]
  where
    apart : (x y : ℕ) → (x == y) ≡ false → x ≢ y
    apart x y h e = ground arith

-- The rows of the user story have a flag.
abbrev pub HasFlag : UserStory → Bool → Board → Type 0
HasFlag us closed b = All (λ row. row.id ≡ us.id → row.is_closed ≡ closed) b.userstories

pub flagged :
    (i : ℕ) (closed : Bool) (date : Option ℕ) (rows : List UserStory)
    → All
        (λ row. row.id ≡ i → row.is_closed ≡ closed)
        (update_where
          (λ row. row.id == i)
          (λ row. record row { is_closed = closed; finish_date = date })
          rows)
flagged i closed date [] = tt
flagged i closed date (row ∷ rows) = elim (Bool-cases (row.id == i)) [
  | inl hit ↦ rw hit ((λ e. refl), flagged i closed date rows)
  | inr miss ↦ rw miss ((λ e. absurd (apart row.id i miss e)), flagged i closed date rows)
]
  where
    apart : (x y : ℕ) → (x == y) ≡ false → x ≢ y
    apart x y h e = ground arith

-- The milestone is recalculated after a change of its user story.
after_change :
    (us : UserStory) (closed : Bool) (date : Option ℕ) (b : Board) (mid : Option ℕ)
    → us.milestone_id ≡ mid
    → IsStored us b
    → IsSettled b
    → OneEach b.milestones
    → IsSettled (after_userstory mid (set_is_closed us.id closed date b, true))
      × HasFlag us closed (after_userstory mid (set_is_closed us.id closed date b, true))
after_change us closed date b none e stored settled each = (
  All-map {P = λ m. m.closed ≡ calculate_milestone_is_closed m.id b}
      {Q = λ m. m.closed ≡ calculate_milestone_is_closed m.id (set_is_closed us.id closed date b)}
      b.milestones
      (λ m h. h ∙ sym (calculate-other us closed date m.id b stored (ap (refers m.id) e))) settled,
  flagged us.id closed date b.userstories,
)
after_change us closed date b (some i) e stored settled each =
    elim (find_milestone-cases i b.milestones each) [
      | inl (gone, others) ↦
          rw gone
            (both_held b.milestones others others_settled, flagged us.id closed date b.userstories)
      | inr (found, h, same, rows_stored) ↦
          let changed = set_is_closed us.id closed date b in
          let rest =
            All-map {P = λ m. m.id ≢ i → m.closed ≡ calculate_milestone_is_closed m.id changed}
              {Q = λ m. m.id ≢ found.id → m.closed ≡ calculate_milestone_is_closed m.id changed}
              b.milestones (λ m k other. k (λ at_i. other (at_i ∙ sym same))) others_settled in
          let (after, kept) = recalculate-settles found changed rest rows_stored in
          rw h (
            after,
            subst
                (λ (rows : List UserStory).
                  All (λ row. row.id ≡ us.id → row.is_closed ≡ closed) rows)
                (sym kept) (flagged us.id closed date b.userstories),
          )
    ]
  where
    parted : (x y : ℕ) → x ≢ y → (y == x) ≡ false
    parted x y h = ground arith

    others_settled :
        All
          (λ m.
            m.id ≢ i
            → m.closed ≡ calculate_milestone_is_closed m.id (set_is_closed us.id closed date b))
          b.milestones
    others_settled =
        All-map {P = λ m. m.closed ≡ calculate_milestone_is_closed m.id b}
          {Q = λ m.
            m.id ≢ i
            → m.closed ≡ calculate_milestone_is_closed m.id (set_is_closed us.id closed date b)}
          b.milestones
          (λ m h other.
            h
            ∙ sym (
                calculate-other us closed date m.id b stored
                  (ap (refers m.id) e ∙ parted m.id i other)))
          settled

    both_held :
        (rows : List Milestone)
        → All (λ m. m.id ≢ i) rows
        → All
            (λ m.
              m.id ≢ i
              → m.closed ≡ calculate_milestone_is_closed m.id (set_is_closed us.id closed date b))
            rows
        → All
            (λ m. m.closed ≡ calculate_milestone_is_closed m.id (set_is_closed us.id closed date b))
            rows
    both_held [] others held = tt
    both_held (m ∷ rows) others held = (held.0 others.0, both_held rows others.1 held.1)

-- Where no two milestones have an id in common, each has the flag that the calculation gives, and the rows
-- with the user story's id are that user story, then afterwards, too, each milestone has the flag that the
-- calculation gives, and the user story has the flag that the calculation for it gives.
pub recalculate_is_closed_for_userstory_and_its_milestone-IsSettled :
    (now : ℕ) (us : UserStory) (b : Board)
    → IsStored us b
    → IsSettled b
    → OneEach b.milestones
    → IsSettled (recalculate_is_closed_for_userstory_and_its_milestone now us b)
      × HasFlag us
          (calculate_userstory_is_closed us b)
          (recalculate_is_closed_for_userstory_and_its_milestone now us b)
unfolding recalculate_is_closed_for_userstory_and_its_milestone close_userstory open_userstory
recalculate_is_closed_for_userstory_and_its_milestone-IsSettled now us b stored settled each =
    elim (Bool-cases (calculate_userstory_is_closed us b)) [
      | inl done ↦ elim (Bool-cases us.is_closed) [
        | inl already ↦ rw (done, already) (unchanged true already)
        | inr still ↦
            rw (done, still)
              (after_change us true (some now) b us.milestone_id refl stored settled each)
      ]
      | inr left ↦ elim (Bool-cases us.is_closed) [
        | inl still ↦
            rw (left, still) (after_change us false none b us.milestone_id refl stored settled each)
        | inr already ↦ rw (left, already) (unchanged false already)
      ]
    ]
  where
    same_board : (mid : Option ℕ) → after_userstory mid (b, false) ≡ b
    same_board none = refl
    same_board (some m) = refl

    unchanged :
        (closed : Bool)
        → us.is_closed ≡ closed
        → IsSettled (after_userstory us.milestone_id (b, false))
          × HasFlag us closed (after_userstory us.milestone_id (b, false))
    unchanged closed flag =
        subst (λ (x : Board). IsSettled x × HasFlag us closed x) (sym (same_board us.milestone_id))
          (
            settled,
            All-map {P = λ row. row.id ≡ us.id → row ≡ us}
                {Q = λ row. row.id ≡ us.id → row.is_closed ≡ closed} b.userstories
                (λ row h e. ap (λ r. r.is_closed) (h e) ∙ flag) stored,
          )
