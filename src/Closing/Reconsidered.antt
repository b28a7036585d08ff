-- ===== src/Closing/Reconsidered.antt =====
-- What the recalculation of a milestone leaves, where only some milestones have the right flag.
use taiga_back_schedule_mana.Base.{
  ℕ, ◌≡◌, ◌≢◌, refl, sym, ◌∙◌, ap, Bool, true, false, Option, none, some, List, [], ◌∷◌,
  update_where, All, All-map, ◌==◌, ==_iff, Bool-cases, Option-cases, inl, inr, arith,
}
use taiga_back_schedule_mana.Closing.Rows.{Milestone, Board, refers}
use taiga_back_schedule_mana.Closing.Services.{
  calculate_milestone_is_closed, close_milestone, open_milestone,
  recalculate_is_closed_for_milestone, find_milestone,
}
use taiga_back_schedule_mana.Closing.Signals.{settle_milestone}
use taiga_back_schedule_mana.Closing.Recalculated.{OneEach}
use taiga_back_schedule_mana.Closing.Settled.{find_milestone-cases}

module _ (Q : ℕ → Type 0) where
  -- The milestones of which `Q` holds have the flag that the calculation gives.
  abbrev pub SettledWhere : Board → Type 0
  SettledWhere b = All (λ m. Q m.id → m.closed ≡ calculate_milestone_is_closed m.id b) b.milestones

  settle_changed_where :
      (f : ℕ → Bool) (m : ℕ) (closed : Bool) (rows : List Milestone)
      → f m ≡ closed
      → All (λ row. row.id ≢ m → Q row.id → row.closed ≡ f row.id) rows
      → All
          (λ row. Q row.id → row.closed ≡ f row.id)
          (update_where (λ row. row.id == m) (λ row. record row { closed = closed }) rows)
  settle_changed_where f m closed [] given others = tt
  settle_changed_where f m closed (row ∷ rows) given others = elim (Bool-cases (row.id == m)) [
    | inl hit ↦ rw hit (
      (λ q. sym (ap f ((==_iff row.id m).0 hit) ∙ given)),
      settle_changed_where f m closed rows given others.1,
    )
    | inr miss ↦
        rw miss
          (others.0 (apart row.id m miss), settle_changed_where f m closed rows given others.1)
  ]
    where
      apart : (x y : ℕ) → (x == y) ≡ false → x ≢ y
      apart x y h e = ground arith

  settle_same_where :
      (f : ℕ → Bool) (m : Milestone) (rows : List Milestone)
      → m.closed ≡ f m.id
      → All (λ row. row.id ≢ m.id → Q row.id → row.closed ≡ f row.id) rows
      → All (λ row. row.id ≡ m.id → row ≡ m) rows
      → All (λ row. Q row.id → row.closed ≡ f row.id) rows
  settle_same_where f m [] given others stored = tt
  settle_same_where f m (row ∷ rows) given others stored = elim (Bool-cases (row.id == m.id)) [
    | inl hit ↦
        let same = (==_iff row.id m.id).0 hit in
        (
          (λ q. ap (λ r. r.closed) (stored.0 same) ∙ (given ∙ ap f (sym same))),
          settle_same_where f m rows given others.1 stored.1,
        )
    | inr miss ↦
        (others.0 (apart row.id m.id miss), settle_same_where f m rows given others.1 stored.1)
  ]
    where
      apart : (x y : ℕ) → (x == y) ≡ false → x ≢ y
      apart x y h e = ground arith

  recalculate-settles_where :
      (m : Milestone) (b : Board)
      → All
          (λ row. row.id ≢ m.id → Q row.id → row.closed ≡ calculate_milestone_is_closed row.id b)
          b.milestones
      → All (λ row. row.id ≡ m.id → row ≡ m) b.milestones
      → SettledWhere (recalculate_is_closed_for_milestone m b)
  unfolding recalculate_is_closed_for_milestone close_milestone open_milestone
      calculate_milestone_is_closed
  recalculate-settles_where m b others stored =
      elim (Bool-cases (calculate_milestone_is_closed m.id b)) [
        | inl done ↦ elim (Bool-cases m.closed) [
          | inl already ↦
              rw (done, already)
                (settle_same_where (λ i. calculate_milestone_is_closed i b) m b.milestones
                  (already ∙ sym done) others stored)
          | inr still ↦
              rw (done, still)
                (settle_changed_where (λ i. calculate_milestone_is_closed i b) m.id true
                  b.milestones done others)
        ]
        | inr left ↦ elim (Bool-cases m.closed) [
          | inl still ↦
              rw (left, still)
                (settle_changed_where (λ i. calculate_milestone_is_closed i b) m.id false
                  b.milestones left others)
          | inr already ↦
              rw (left, already)
                (settle_same_where (λ i. calculate_milestone_is_closed i b) m b.milestones
                  (already ∙ sym left) others stored)
        ]
      ]

  pub settle_milestone-where :
      (key : Option ℕ) (b : Board)
      → OneEach b.milestones
      → All
          (λ m. refers m.id key ≡ false → Q m.id → m.closed ≡ calculate_milestone_is_closed m.id b)
          b.milestones
      → SettledWhere (settle_milestone key b)
  settle_milestone-where none b each others =
      All-map
        {P = λ m.
          refers m.id none ≡ false → Q m.id → m.closed ≡ calculate_milestone_is_closed m.id b}
        {Q = λ m. Q m.id → m.closed ≡ calculate_milestone_is_closed m.id b} b.milestones
        (λ m h. h refl) others
  settle_milestone-where (some i) b each others = elim (find_milestone-cases i b.milestones each) [
    | inl (gone, absent) ↦ rw gone (both b.milestones absent others)
    | inr (found, h, same, stored) ↦ rw h (
        recalculate-settles_where found b
          (All-map
            {P = λ m.
              refers m.id (some i) ≡ false
              → Q m.id
              → m.closed ≡ calculate_milestone_is_closed m.id b}
            {Q = λ m. m.id ≢ found.id → Q m.id → m.closed ≡ calculate_milestone_is_closed m.id b}
            b.milestones (λ m k other. k (parted m.id i (λ e. other (e ∙ sym same)))) others)
          stored)
  ]
    where
      parted : (x y : ℕ) → x ≢ y → (y == x) ≡ false
      parted x y h = ground arith

      both :
          (rows : List Milestone)
          → All (λ m. m.id ≢ i) rows
          → All
              (λ m.
                refers m.id (some i) ≡ false
                → Q m.id
                → m.closed ≡ calculate_milestone_is_closed m.id b)
              rows
          → All (λ m. Q m.id → m.closed ≡ calculate_milestone_is_closed m.id b) rows
      both [] absent held = tt
      both (m ∷ rows) absent held = (held.0 (parted m.id i absent.0), both rows absent.1 held.1)

OneEach-updated :
    (m : ℕ) (closed : Bool) (rows : List Milestone)
    → OneEach rows
    → OneEach (update_where (λ row. row.id == m) (λ row. record row { closed = closed }) rows)
OneEach-updated m closed [] each = tt
OneEach-updated m closed (row ∷ rows) each = elim (Bool-cases (row.id == m)) [
  | inl hit ↦ rw hit (absent rows each.0, OneEach-updated m closed rows each.1)
  | inr miss ↦ rw miss (absent rows each.0, OneEach-updated m closed rows each.1)
]
  where
    absent :
        (others : List Milestone)
        → All (λ x. x.id ≢ row.id) others
        → All
            (λ x. x.id ≢ row.id)
            (update_where (λ x. x.id == m) (λ x. record x { closed = closed }) others)
    absent [] h = tt
    absent (x ∷ others) h = elim (Bool-cases (x.id == m)) [
      | inl hit ↦ rw hit (h.0, absent others h.1)
      | inr miss ↦ rw miss (h.0, absent others h.1)
    ]

-- What a reconsidered milestone leaves alone.
pub settle_milestone-keeps :
    (key : Option ℕ) (b : Board)
    → OneEach b.milestones
    → OneEach (settle_milestone key b).milestones
      × ((settle_milestone key b).userstories ≡ b.userstories)
unfolding recalculate_is_closed_for_milestone close_milestone open_milestone
settle_milestone-keeps none b each = (each, refl)
settle_milestone-keeps (some i) b each = elim (Option-cases (find_milestone i b.milestones)) [
  | inl gone ↦ rw gone (each, refl)
  | inr (m, h) ↦ rw h (elim (Bool-cases (calculate_milestone_is_closed m.id b)) [
    | inl done ↦ elim (Bool-cases m.closed) [
      | inl already ↦ rw (done, already) (each, refl)
      | inr still ↦ rw (done, still) (OneEach-updated m.id true b.milestones each, refl)
    ]
    | inr left ↦ elim (Bool-cases m.closed) [
      | inl still ↦ rw (left, still) (OneEach-updated m.id false b.milestones each, refl)
      | inr already ↦ rw (left, already) (each, refl)
    ]
  ])
]

find-updated :
    (p m : ℕ) (closed : Bool) (rows : List Milestone)
    → (m == p) ≡ false
    → find_milestone p
        (update_where (λ row. row.id == m) (λ row. record row { closed = closed }) rows)
      ≡ find_milestone p rows
find-updated p m closed [] other = refl
find-updated p m closed (row ∷ rows) other = elim (Bool-cases (row.id == m)) [
  | inl hit ↦
      let apart = ap (λ i. i == p) ((==_iff row.id m).0 hit) ∙ other in
      rw (hit, apart) (find-updated p m closed rows other)
  | inr miss ↦ elim (Bool-cases (row.id == p)) [
    | inl found ↦ rw (miss, found) refl
    | inr gone ↦ rw (miss, gone) (find-updated p m closed rows other)
  ]
]

-- The milestones of other keys stay as they are.
pub settle_milestone-other :
    (key : Option ℕ) (p : ℕ) (b : Board)
    → refers p key ≡ false
    → OneEach b.milestones
    → find_milestone p (settle_milestone key b).milestones ≡ find_milestone p b.milestones
unfolding recalculate_is_closed_for_milestone close_milestone open_milestone
settle_milestone-other none p b other each = refl
settle_milestone-other (some i) p b other each = elim (find_milestone-cases i b.milestones each) [
  | inl (gone, absent) ↦ rw gone refl
  | inr (m, h, same, stored) ↦
      let apart = ap (λ j. j == p) same ∙ other in
      rw h (elim (Bool-cases (calculate_milestone_is_closed m.id b)) [
        | inl done ↦ elim (Bool-cases m.closed) [
          | inl already ↦ rw (done, already) refl
          | inr still ↦ rw (done, still) (find-updated p m.id true b.milestones apart)
        ]
        | inr left ↦ elim (Bool-cases m.closed) [
          | inl still ↦ rw (left, still) (find-updated p m.id false b.milestones apart)
          | inr already ↦ rw (left, already) refl
        ]
      ])
]
