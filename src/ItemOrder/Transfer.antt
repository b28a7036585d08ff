-- ===== src/ItemOrder/Transfer.antt =====
-- A row that goes to another group: the table after the first write of `move_to_group`.
use taiga_back_schedule_mana.Base.{
  ℕ, ◌+◌, ◌<◌, ◌≡◌, ◌≢◌, refl, sym, ◌∙◌, subst, none, List, [], ◌∷◌, map, ◌==◌, ==_iff, Bool-cases,
  Option-cases, inl, inr, All, All-map, update_where, arith,
}
use taiga_back_schedule_mana.Model.{ScheduleItemOrder}
use taiga_back_schedule_mana.ItemOrder.Keys.{GroupKey, key_of}
use taiga_back_schedule_mana.ItemOrder.Persist.{has_id}
use taiga_back_schedule_mana.ItemOrder.Move.{without, regrouped}
use taiga_back_schedule_mana.ItemOrder.Writes.{Distinct, Unique, Apart}
use taiga_back_schedule_mana.ItemOrder.Indexes.{index_of, Absent}
use taiga_back_schedule_mana.ItemOrder.Listing.{renumbered}
use taiga_back_schedule_mana.ItemOrder.Arrange.{All-both}

abbrev Row : Type 0
Row = ScheduleItemOrder

-- The table when the row with a key stands at a place of another group.
abbrev pub transferred : ℕ → GroupKey → ℕ → List Row → List Row
transferred i t m rows = update_where (has_id i) (regrouped t m) rows

pub regrouped-key : (t : GroupKey) (m : ℕ) (r : Row) → key_of (regrouped t m r) ≡ t
regrouped-key t m r = refl

-- What holds of each row, the transferred one at its new place.
pub transferred-All :
    (P : Row → Type 0) (i : ℕ) (t : GroupKey) (m : ℕ) (rows : List Row)
    → All (λ s. (s.id ≡ i → P (regrouped t m s)) × (s.id ≢ i → P s)) rows
    → All P (transferred i t m rows)
transferred-All P i t m [] h = tt
transferred-All P i t m (s ∷ rows) h = elim (Bool-cases (s.id == i)) [
  | inl hit ↦ rw hit (h.0.0 ((==_iff s.id i).0 hit), transferred-All P i t m rows h.1)
  | inr miss ↦ rw miss (h.0.1 (λ e. ground arith), transferred-All P i t m rows h.1)
]

pub transferred-Distinct :
    (i : ℕ) (t : GroupKey) (m : ℕ) (rows : List Row)
    → Distinct rows
    → Distinct (transferred i t m rows)
transferred-Distinct i t m [] d = tt
transferred-Distinct i t m (r ∷ rows) d = elim (Bool-cases (r.id == i)) [
  | inl hit ↦ rw hit (others, transferred-Distinct i t m rows d.1)
  | inr miss ↦ rw miss (others, transferred-Distinct i t m rows d.1)
]
  where
    others : All (λ s. r.id ≢ s.id) (transferred i t m rows)
    others =
        transferred-All (λ s. r.id ≢ s.id) i t m rows
          (All-map {P = λ s. r.id ≢ s.id}
            {Q = λ s. (s.id ≡ i → r.id ≢ (regrouped t m s).id) × (s.id ≢ i → r.id ≢ s.id)} rows
            (λ s h. ((λ _. h), λ _. h)) d.0)

-- The new place is behind every row of the other group, so it is free.
pub transferred-Unique :
    (i : ℕ) (t : GroupKey) (m : ℕ) (rows : List Row)
    → Distinct rows
    → Unique rows
    → All (λ r. key_of r ≡ t → r.position < m) rows
    → Unique (transferred i t m rows)
transferred-Unique i t m [] d u b = tt
transferred-Unique i t m (r ∷ rows) d u b =
    let rest = transferred-Unique i t m rows d.1 u.1 b.1 in
    elim (Bool-cases (r.id == i)) [
      | inl hit ↦ rw hit (arrived ((==_iff r.id i).0 hit), rest)
      | inr miss ↦ rw miss (stayed, rest)
    ]
  where
    behind : (s : Row) (p q : ℕ) → p < q → q ≢ p
    behind s p q h e = omega arith

    arrived : r.id ≡ i → All (Apart (regrouped t m r)) (transferred i t m rows)
    arrived same = transferred-All (Apart (regrouped t m r)) i t m rows (
        All-map {P = λ s. (r.id ≢ s.id) × (key_of s ≡ t → s.position < m)}
          {Q = λ s.
            (s.id ≡ i → Apart (regrouped t m r) (regrouped t m s))
            × (s.id ≢ i → Apart (regrouped t m r) s)}
          rows
          (λ s h. ((λ e. absurd (h.0 (same ∙ sym e))), λ _ k. behind s s.position m (h.1 (sym k))))
          (All-both (λ s. r.id ≢ s.id) (λ s. key_of s ≡ t → s.position < m) rows d.0 b.1))

    stayed : All (Apart r) (transferred i t m rows)
    stayed = transferred-All (Apart r) i t m rows (
        All-map {P = Apart r}
          {Q = λ s. (s.id ≡ i → Apart r (regrouped t m s)) × (s.id ≢ i → Apart r s)} rows
          (λ s h. ((λ _ k e. behind r r.position m (b.0 k) (sym e)), λ _. h)) u.0)

-- Renumbering keeps the key and the group of a row.
pub renumbered-keeps :
    (items : List Row) (r : Row)
    → ((renumbered items r).id ≡ r.id) × (key_of (renumbered items r) ≡ key_of r)
renumbered-keeps items r = elim (Option-cases (index_of r.id 1 items)) [
  | inl gone ↦ rw (gone, renumbered) (refl, refl)
  | inr (index, found) ↦ rw (found, renumbered) (refl, refl)
]

-- A row that no item speaks of is not renumbered.
pub renumbered-other : (items : List Row) (r : Row) → Absent r.id items → renumbered items r ≡ r
renumbered-other items r h = rw (absent r.id 1 items h, renumbered) refl
  where
    absent : (i n : ℕ) (items : List Row) → Absent i items → index_of i n items ≡ none
    absent i n [] h = refl
    absent i n (a ∷ items) h = ground (arith, absent i (n + 1) items h.1, h.0)

pub renumbered-Distinct :
    (items rows : List Row) → Distinct rows → Distinct (map (renumbered items) rows)
renumbered-Distinct items [] d = tt
renumbered-Distinct items (r ∷ rows) d = (
  subst (λ i. All (λ s. i ≢ s.id) (map (renumbered items) rows)) (sym (renumbered-keeps items r).0)
      (others r.id rows d.0),
  renumbered-Distinct items rows d.1,
)
  where
    others :
        (i : ℕ) (rows : List Row)
        → All (λ s. i ≢ s.id) rows
        → All (λ s. i ≢ s.id) (map (renumbered items) rows)
    others i [] h = tt
    others i (s ∷ rows) h = ((λ e. h.0 (e ∙ (renumbered-keeps items s).0)), others i rows h.1)

pub map-All :
    (P : Row → Type 0) (f : Row → Row) (rows : List Row)
    → All (λ r. P (f r)) rows
    → All P (map f rows)
map-All P f [] h = tt
map-All P f (r ∷ rows) h = (h.0, map-All P f rows h.1)

pub without-other : (i : ℕ) (rows : List Row) → Absent i rows → without i rows ≡ rows
without-other i [] h = refl
without-other i (r ∷ rows) h = ground (arith, h.0, without-other i rows h.1)
