-- ===== src/ItemOrder/Groups.antt =====
-- The lists of items that the moves build from a table: `_fetch_group_items_for_update`, the list
-- without an item, and the list with an item inserted.
use taiga_back_schedule_mana.Base.{
  ℕ, suc, ◌+◌, ◌≤◌, ◌≡◌, ◌≢◌, sym, Bool, true, not, some, List, [], ◌∷◌, ◌==◌, Bool-cases, inl, inr,
  All, All-map, length, keep, insert_at, insert_sorted, sort_by, arith, zero,
}
use taiga_back_schedule_mana.Model.{ScheduleItemOrder}
use taiga_back_schedule_mana.ItemOrder.Keys.{
  GroupKey, key_of, in_group, position_before, fetch_group_items,
}
use taiga_back_schedule_mana.ItemOrder.Persist.{has_id}
use taiga_back_schedule_mana.ItemOrder.Move.{without}
use taiga_back_schedule_mana.ItemOrder.Writes.{Distinct, Unique, Apart, same_key_iff}
use taiga_back_schedule_mana.ItemOrder.Indexes.{index_of, Absent}

abbrev Row : Type 0
Row = ScheduleItemOrder

-- What holds of the items of a list holds of those that a filter keeps, and each passes the test.
pub keep-All :
    (P : Row → Type 0) (test : Row → Bool) (rows : List Row) → All P rows → All P (keep test rows)
keep-All P test [] h = tt
keep-All P test (r ∷ rows) h = elim (Bool-cases (test r)) [
  | inl kept ↦ rw kept (h.0, keep-All P test rows h.1)
  | inr gone ↦ rw gone (keep-All P test rows h.1)
]

keep-test : (test : Row → Bool) (rows : List Row) → All (λ r. test r ≡ true) (keep test rows)
keep-test test [] = tt
keep-test test (r ∷ rows) = elim (Bool-cases (test r)) [
  | inl kept ↦ rw kept (kept, keep-test test rows)
  | inr gone ↦ rw gone (keep-test test rows)
]

insert_sorted-All :
    (P : Row → Type 0) (a : Row) (rows : List Row)
    → P a
    → All P rows
    → All P (insert_sorted position_before a rows)
insert_sorted-All P a [] p h = (p, tt)
insert_sorted-All P a (r ∷ rows) p h = elim (Bool-cases (position_before a r)) [
  | inl before ↦ rw before (p, h)
  | inr after ↦ rw after (h.0, insert_sorted-All P a rows p h.1)
]

sort-All : (P : Row → Type 0) (rows : List Row) → All P rows → All P (sort_by position_before rows)
sort-All P [] h = tt
sort-All P (r ∷ rows) h = insert_sorted-All P r _ h.0 (sort-All P rows h.1)

pub insert_at-All :
    (P : Row → Type 0) (n : ℕ) (a : Row) (rows : List Row)
    → P a
    → All P rows
    → All P (insert_at n a rows)
insert_at-All P zero a rows p h = (p, h)
insert_at-All P (suc n) a [] p h = (p, tt)
insert_at-All P (suc n) a (r ∷ rows) p h = (h.0, insert_at-All P n a rows p h.1)

pub fetch-All :
    (P : Row → Type 0) (k : GroupKey) (rows : List Row)
    → All P rows
    → All P (fetch_group_items k rows)
unfolding fetch_group_items
fetch-All P k rows h = sort-All P _ (keep-All P (in_group k) rows h)

pub fetch-key :
    (k : GroupKey) (rows : List Row) → All (λ r. key_of r ≡ k) (fetch_group_items k rows)
unfolding fetch_group_items
fetch-key k rows =
    sort-All (λ r. key_of r ≡ k) _
      (All-map {P = λ r. in_group k r ≡ true} {Q = λ r. key_of r ≡ k} _
        (λ r e. (same_key_iff (key_of r) k).0 e) (keep-test (in_group k) rows))

pub keep-Distinct :
    (test : Row → Bool) (rows : List Row) → Distinct rows → Distinct (keep test rows)
keep-Distinct test [] d = tt
keep-Distinct test (r ∷ rows) d = elim (Bool-cases (test r)) [
  | inl kept ↦ rw kept (keep-All (λ s. r.id ≢ s.id) test rows d.0, keep-Distinct test rows d.1)
  | inr gone ↦ rw gone (keep-Distinct test rows d.1)
]

pub keep-Unique : (test : Row → Bool) (rows : List Row) → Unique rows → Unique (keep test rows)
keep-Unique test [] u = tt
keep-Unique test (r ∷ rows) u = elim (Bool-cases (test r)) [
  | inl kept ↦ rw kept (keep-All (Apart r) test rows u.0, keep-Unique test rows u.1)
  | inr gone ↦ rw gone (keep-Unique test rows u.1)
]

insert_sorted-Distinct :
    (a : Row) (rows : List Row)
    → Absent a.id rows
    → Distinct rows
    → Distinct (insert_sorted position_before a rows)
insert_sorted-Distinct a [] h d = (tt, tt)
insert_sorted-Distinct a (r ∷ rows) h d = elim (Bool-cases (position_before a r)) [
  | inl before ↦ rw before (h, d)
  | inr after ↦ rw after (
    insert_sorted-All (λ s. r.id ≢ s.id) a rows (λ e. h.0 (sym e)) d.0,
    insert_sorted-Distinct a rows h.1 d.1,
  )
]

sort-Distinct : (rows : List Row) → Distinct rows → Distinct (sort_by position_before rows)
sort-Distinct [] d = tt
sort-Distinct (r ∷ rows) d =
    insert_sorted-Distinct r _ (sort-All (λ s. r.id ≢ s.id) rows d.0) (sort-Distinct rows d.1)

pub fetch-Distinct :
    (k : GroupKey) (rows : List Row) → Distinct rows → Distinct (fetch_group_items k rows)
unfolding fetch_group_items
fetch-Distinct k rows d = sort-Distinct _ (keep-Distinct (in_group k) rows d)

pub insert_at-Distinct :
    (n : ℕ) (a : Row) (rows : List Row)
    → Absent a.id rows
    → Distinct rows
    → Distinct (insert_at n a rows)
insert_at-Distinct zero a rows h d = (h, d)
insert_at-Distinct (suc n) a [] h d = (tt, tt)
insert_at-Distinct (suc n) a (r ∷ rows) h d = (
  insert_at-All (λ s. r.id ≢ s.id) n a rows (λ e. h.0 (sym e)) d.0,
  insert_at-Distinct n a rows h.1 d.1,
)

pub without-Absent : (i : ℕ) (rows : List Row) → Absent i (without i rows)
without-Absent i rows =
    All-map {P = λ r. not (has_id i r) ≡ true} {Q = λ r. i ≢ r.id} _ (λ r e. apart i r.id e)
      (keep-test (λ r. not (has_id i r)) rows)
  where
    apart : (i j : ℕ) → not (j == i) ≡ true → i ≢ j
    apart i j e = ground arith

-- An item that is inserted within the list, and was not in it, stands at its index.
pub index_of-insert_at :
    (d n : ℕ) (a : Row) (rows : List Row)
    → Absent a.id rows
    → d ≤ length rows
    → index_of a.id n (insert_at d a rows) ≡ some (n + d)
index_of-insert_at zero n a rows h b = ground arith
index_of-insert_at (suc d) n a [] h b = absurd (omega (arith, b))
index_of-insert_at (suc d) n a (r ∷ rows) h b =
    ground (arith, h.0, index_of-insert_at d (n + 1) a rows h.1 (omega (arith, b)))
