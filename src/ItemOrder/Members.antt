-- ===== src/ItemOrder/Members.antt =====
-- Which keys stand in the lists that the moves build, and that such a list lists its group.
use taiga_back_schedule_mana.Base.{
  ℕ, zero, suc, ◌+◌, ◌≡◌, ◌≢◌, ◌⊎◌, refl, sym, ◌∙◌, ap, Bool, true, false, ◌||◌, none, List, [],
  ◌∷◌, ◌==◌, Bool-cases, inl, inr, All, All-map, keep, any_of, insert_at, insert_sorted, sort_by,
  arith,
}
use taiga_back_schedule_mana.Model.{ScheduleItemOrder}
use taiga_back_schedule_mana.ItemOrder.Keys.{
  GroupKey, key_of, in_group, position_before, fetch_group_items,
}
use taiga_back_schedule_mana.ItemOrder.Persist.{has_id}
use taiga_back_schedule_mana.ItemOrder.Move.{without}
use taiga_back_schedule_mana.ItemOrder.Writes.{same_key_iff}
use taiga_back_schedule_mana.ItemOrder.Indexes.{index_of}

abbrev Row : Type 0
Row = ScheduleItemOrder

-- An item with the key is in the list.
abbrev pub Has : ℕ → List Row → Type 0
Has i rows = any_of (has_id i) rows ≡ true

pub Has-index : (i n : ℕ) (items : List Row) → Has i items → index_of i n items ≢ none
Has-index i n [] h = λ e. differ h
  where
    differ : false ≡ true → ⊥
    differ f = cc
Has-index i n (item ∷ items) h = elim (Bool-cases (item.id == i)) [
  | inl hit ↦ rw hit (λ e. cc)
  | inr miss ↦ rw miss (Has-index i (n + 1) items (rw miss at h))
]

any-insert_sorted :
    (i : ℕ) (a : Row) (rows : List Row)
    → any_of (has_id i) (insert_sorted position_before a rows) ≡ any_of (has_id i) (a ∷ rows)
any-insert_sorted i a [] = refl
any-insert_sorted i a (r ∷ rows) = elim (Bool-cases (position_before a r)) [
  | inl before ↦ rw before refl
  | inr after ↦
      rw (after, any-insert_sorted i a rows)
        (swap (has_id i r) (has_id i a) (any_of (has_id i) rows))
]
  where
    swap : (a b c : Bool) → (a || (b || c)) ≡ (b || (a || c))
    swap a b c = ground arith

any-sort :
    (i : ℕ) (rows : List Row)
    → any_of (has_id i) (sort_by position_before rows) ≡ any_of (has_id i) rows
any-sort i [] = refl
any-sort i (r ∷ rows) =
    any-insert_sorted i r (sort_by position_before rows)
    ∙ ap (λ b. has_id i r || b) (any-sort i rows)

any-insert_at :
    (i n : ℕ) (a : Row) (rows : List Row)
    → any_of (has_id i) (insert_at n a rows) ≡ any_of (has_id i) (a ∷ rows)
any-insert_at i zero a rows = refl
any-insert_at i (suc n) a [] = refl
any-insert_at i (suc n) a (r ∷ rows) = ground (arith, any-insert_at i n a rows)

pub Has-without : (i j : ℕ) (rows : List Row) → i ≢ j → Has i rows → Has i (without j rows)
Has-without i j [] h e = e
Has-without i j (r ∷ rows) h e = ground (arith, Has-without i j rows h)

pub Has-insert_at :
    (i n : ℕ) (a : Row) (rows : List Row) → (i ≢ a.id → Has i rows) → Has i (insert_at n a rows)
Has-insert_at i n a rows h = any-insert_at i n a rows ∙ hit (Bool-cases (a.id == i))
  where
    hit : (a.id == i ≡ true) ⊎ (a.id == i ≡ false) → any_of (has_id i) (a ∷ rows) ≡ true
    hit (inl same) = rw same refl
    hit (inr other) = rw other (h (λ e. ground arith))

-- A group that is fetched has the rows of the table with its key.
pub fetch-Has :
    (k : GroupKey) (rows : List Row)
    → All (λ r. key_of r ≡ k → Has r.id (fetch_group_items k rows)) rows
unfolding fetch_group_items
fetch-Has k rows =
    All-map {P = λ r. key_of r ≡ k → Has r.id (keep (in_group k) rows)}
      {Q = λ r. key_of r ≡ k → Has r.id (sort_by position_before (keep (in_group k) rows))} rows
      (λ r has e. any-sort r.id (keep (in_group k) rows) ∙ has e) (kept rows)
  where
    kept : (rows : List Row) → All (λ r. key_of r ≡ k → Has r.id (keep (in_group k) rows)) rows
    kept [] = tt
    kept (r ∷ rows) = (
      first_row (Bool-cases (in_group k r)),
      All-map {P = λ s. key_of s ≡ k → Has s.id (keep (in_group k) rows)} rows
          (λ s has e. later (Bool-cases (in_group k r)) s (has e)) (kept rows),
    )
      where
        first_row :
            (in_group k r ≡ true) ⊎ (in_group k r ≡ false)
            → key_of r ≡ k
            → Has r.id (keep (in_group k) (r ∷ rows))
        first_row (inl inside) e = rw inside (ground arith)
        first_row (inr outside) e = absurd (differ (sym outside ∙ (same_key_iff (key_of r) k).1 e))
          where
            differ : false ≡ true → ⊥
            differ e = cc

        later :
            (in_group k r ≡ true) ⊎ (in_group k r ≡ false)
            → (s : Row) → Has s.id (keep (in_group k) rows)
            → Has s.id (keep (in_group k) (r ∷ rows))
        later (inl inside) s h = rw inside (ground arith)
        later (inr outside) s h = rw outside h
