-- ===== src/Closing/Handlers.antt =====
-- What the handlers leave: the flags of the milestones that they reconsider.
use taiga_back_schedule_mana.Base.{
  ℕ, ◌≡◌, ◌≢◌, refl, sym, ◌∙◌, ap, subst, Bool, true, false, not, Option, none, some, List, All,
  All-map, if◌then◌else◌, Bool-cases, ◌⊎◌, inl, inr, arith,
}
use taiga_back_schedule_mana.Closing.Rows.{UserStory, Board, refers}
use taiga_back_schedule_mana.Closing.Services.{
  calculate_milestone_is_closed, calculate_userstory_is_closed, set_is_closed, close_userstory,
  open_userstory, find_milestone,
}
use taiga_back_schedule_mana.Closing.Signals.{
  decide_userstory, after_save, settle_milestone, settle_milestones, previous_key,
  try_to_close_or_open_milestone, try_to_close_or_open_us_and_milestone_when_create_or_edit_us,
}
use taiga_back_schedule_mana.Closing.Recalculated.{IsSettled, IsStored, OneEach, calculate-other}
use taiga_back_schedule_mana.Closing.Settled.{HasFlag, flagged}
use taiga_back_schedule_mana.Closing.Reconsidered.{
  SettledWhere, settle_milestone-where, settle_milestone-keeps, settle_milestone-other,
}

decide_userstory-cases :
    (now : ℕ) (us : UserStory) (b : Board)
    → ((decide_userstory now us b ≡ (b, false))
        × (us.is_closed ≡ calculate_userstory_is_closed us b))
      ⊎ ((date : Option ℕ) × (decide_userstory now us b
            ≡ (set_is_closed us.id (calculate_userstory_is_closed us b) date b, true))
          × (us.is_closed ≢ calculate_userstory_is_closed us b))
unfolding close_userstory open_userstory
decide_userstory-cases now us b = elim (Bool-cases (calculate_userstory_is_closed us b)) [
  | inl done ↦ elim (Bool-cases us.is_closed) [
    | inl already ↦ inl (ap picked done ∙ ap closing already, already ∙ sym done)
    | inr still ↦ inr (
      some now,
      ap picked done
          ∙ (ap closing still ∙ ap (λ c. (set_is_closed us.id c (some now) b, true)) (sym done)),
      (λ same. cc),
    )
  ]
  | inr left ↦ elim (Bool-cases us.is_closed) [
    | inl still ↦ inr (
      none,
      ap picked left
          ∙ (ap opening still ∙ ap (λ c. (set_is_closed us.id c none b, true)) (sym left)),
      (λ same. cc),
    )
    | inr already ↦ inl (ap picked left ∙ ap opening already, already ∙ sym left)
  ]
]
  where
    closing : Bool → Board × Bool
    closing flag = if not flag then (set_is_closed us.id true (some now) b, true) else (b, false)

    opening : Bool → Board × Bool
    opening flag = if flag then (set_is_closed us.id false none b, true) else (b, false)

    picked : Bool → Board × Bool
    picked c = if c then close_userstory now us b else open_userstory us b

previous_key_self : (key : Option ℕ) → previous_key key key ≡ none
previous_key_self none = refl
previous_key_self (some i) = ground arith

-- Each milestone but the one of the row and, where it is another one, the previous one has the flag that
-- the calculation gives.
abbrev pub Others : Option ℕ → Option ℕ → Board → Type 0
Others cur prev b =
    All
      (λ m.
        refers m.id cur ≡ false
        → refers m.id (previous_key cur prev) ≡ false
        → m.closed ≡ calculate_milestone_is_closed m.id b)
      b.milestones

-- Both milestones of an unchanged user story are reconsidered.
both_reconsidered :
    (cur prev : Option ℕ) (b : Board)
    → OneEach b.milestones
    → Others cur prev b
    → IsSettled (try_to_close_or_open_milestone cur prev b)
      × ((try_to_close_or_open_milestone cur prev b).userstories ≡ b.userstories)
unfolding try_to_close_or_open_milestone
both_reconsidered cur prev b each others =
    let first = settle_milestone cur b in
    let prev_key = previous_key cur prev in
    let (each', kept) = settle_milestone-keeps cur b each in
    let settled = settle_milestone-where (λ i. refers i prev_key ≡ false) cur b each others in
    let last = settle_milestone prev_key first in
    (
      All-map {P = λ m. Unit {0} → m.closed ≡ calculate_milestone_is_closed m.id last}
          {Q = λ m. m.closed ≡ calculate_milestone_is_closed m.id last} last.milestones
          (λ m h. h tt)
          (settle_milestone-where (λ i. Unit {0}) prev_key first each'
            (All-map
              {P = λ m.
                refers m.id prev_key ≡ false → m.closed ≡ calculate_milestone_is_closed m.id first}
              {Q = λ m.
                refers m.id prev_key ≡ false
                → Unit {0}
                → m.closed ≡ calculate_milestone_is_closed m.id first}
              first.milestones (λ m h out u. h out) settled)),
      (settle_milestone-keeps prev_key first each').1 ∙ kept,
    )

-- Each milestone but the previous one of another key has the calculated flag, and no milestone but the one
-- of the user story has changed.
abbrev pub IsReconsidered : UserStory → Option ℕ → Board → Board → Type 0
IsReconsidered us prev_milestone_id b after =
    SettledWhere (λ i. refers i (previous_key us.milestone_id prev_milestone_id) ≡ false) after
    × ((p : ℕ)
        → refers p us.milestone_id ≡ false
        → find_milestone p after.milestones ≡ find_milestone p b.milestones)

-- The milestone of a changed user story is reconsidered twice, and no other.
settle_milestones-IsReconsidered :
    (us : UserStory) (prev : Option ℕ) (b : Board)
    → OneEach b.milestones
    → Others us.milestone_id prev b
    → (settle_milestones us prev (after_save us (b, true))).userstories ≡ b.userstories
      × IsReconsidered us prev b (settle_milestones us prev (after_save us (b, true)))
unfolding try_to_close_or_open_milestone
settle_milestones-IsReconsidered us prev b each others =
    let cur = us.milestone_id in
    let Q : ℕ → Type 0 = λ i. refers i (previous_key cur prev) ≡ false in
    let first = settle_milestone cur b in
    let (each', kept) = settle_milestone-keeps cur b each in
    let settled = settle_milestone-where Q cur b each others in
    let again = settle_milestone-where Q cur first each' (
      All-map {P = λ m. Q m.id → m.closed ≡ calculate_milestone_is_closed m.id first}
        {Q = λ m.
          refers m.id cur ≡ false → Q m.id → m.closed ≡ calculate_milestone_is_closed m.id first}
        first.milestones (λ m h out. h) settled) in
    rw (previous_key_self cur) (
      (settle_milestone-keeps cur first each').1 ∙ kept,
      (
        again,
        (λ p out.
            settle_milestone-other cur p first out each' ∙ settle_milestone-other cur p b out each),
      ),
    )

-- Where no two milestones have an id in common, the rows with the user story's id are that user story, and
-- each milestone but the one of the user story and its previous one has the flag that the calculation gives,
-- the handler of a save leaves the user story with the flag that the calculation for it gives. If the user
-- story had that flag, every milestone has the flag that the calculation gives. If not, every milestone but
-- the previous one, where that is another one, has it, and no milestone but the one of the user story has
-- changed: the previous one is not reconsidered.
pub try_to_close_or_open_us_and_milestone_when_create_or_edit_us-IsSettled :
    (now : ℕ) (us : UserStory) (prev_milestone_id : Option ℕ) (b : Board)
    → IsStored us b
    → OneEach b.milestones
    → Others us.milestone_id prev_milestone_id b
    → let after =
        try_to_close_or_open_us_and_milestone_when_create_or_edit_us now false us prev_milestone_id
          b in
      HasFlag us (calculate_userstory_is_closed us b) after
      × ((us.is_closed ≡ calculate_userstory_is_closed us b) × IsSettled after
          ⊎ (us.is_closed ≢ calculate_userstory_is_closed us b)
            × IsReconsidered us prev_milestone_id b after)
unfolding try_to_close_or_open_us_and_milestone_when_create_or_edit_us
try_to_close_or_open_us_and_milestone_when_create_or_edit_us-IsSettled now us prev b stored each
      others =
    elim (decide_userstory-cases now us b) [
      | inl (same, flag) ↦
          let (settled, kept) = both_reconsidered us.milestone_id prev b each others in
          rw same (
            subst (λ (rows : List UserStory). Flagged rows) (sym kept)
                (All-map {P = λ row. row.id ≡ us.id → row ≡ us}
                  {Q = λ row. row.id ≡ us.id → row.is_closed ≡ calculate_userstory_is_closed us b}
                  b.userstories (λ row h e. ap (λ r. r.is_closed) (h e) ∙ flag) stored),
            inl (flag, settled),
          )
      | inr (date, changed, other) ↦
          let closed = calculate_userstory_is_closed us b in
          let saved = set_is_closed us.id closed date b in
          let still =
            All-map
              {P = λ m.
                refers m.id us.milestone_id ≡ false
                → refers m.id (previous_key us.milestone_id prev) ≡ false
                → m.closed ≡ calculate_milestone_is_closed m.id b}
              {Q = λ m.
                refers m.id us.milestone_id ≡ false
                → refers m.id (previous_key us.milestone_id prev) ≡ false
                → m.closed ≡ calculate_milestone_is_closed m.id saved}
              b.milestones
              (λ m h out apart.
                h out apart ∙ sym (calculate-other us closed date m.id b stored out))
              others in
          let (kept, done) = settle_milestones-IsReconsidered us prev saved each still in
          rw changed (
            subst (λ (rows : List UserStory). Flagged rows) (sym kept)
                (flagged us.id closed date b.userstories),
            inr (other, done),
          )
    ]
  where
    Flagged : List UserStory → Type 0
    Flagged rows =
        All (λ row. row.id ≡ us.id → row.is_closed ≡ calculate_userstory_is_closed us b) rows
