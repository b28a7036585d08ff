-- ===== src/ItemOrder/Arrange.antt =====
-- The moves of a row as a whole: what the table holds after `_move_order_item_between_groups` within
-- a group.
use taiga_back_schedule_mana.Base.{
  ℕ, ◌+◌, ◌-◌, ◌≡◌, ◌≢◌, refl, sym, ◌∙◌, ap, subst, Bool, not, Option, none, some, List, [], ◌∷◌,
  map, Bool-cases, inl, inr, All, All-map, length, first, insert_at, arith,
}
use taiga_back_schedule_mana.Model.{ScheduleItemOrder, ok}
use taiga_back_schedule_mana.ItemOrder.Keys.{GroupKey, key_of, fetch_group_items}
use taiga_back_schedule_mana.ItemOrder.Persist.{has_id, set_position}
use taiga_back_schedule_mana.ItemOrder.Move.{without, clamp, or_position, move_within_group}
use taiga_back_schedule_mana.ItemOrder.Writes.{Distinct, Unique}
use taiga_back_schedule_mana.ItemOrder.Indexes.{index_of}
use taiga_back_schedule_mana.ItemOrder.Listing.{Agrees, Listed, renumbered}
use taiga_back_schedule_mana.ItemOrder.Renumber.{persist_group_positions_lem}
use taiga_back_schedule_mana.ItemOrder.Groups.{
  keep-All, insert_at-All, fetch-All, fetch-key, keep-Distinct, fetch-Distinct, insert_at-Distinct,
  without-Absent, index_of-insert_at,
}
use taiga_back_schedule_mana.ItemOrder.Members.{
  Has, Has-index, Has-without, Has-insert_at, fetch-Has,
}

abbrev Row : Type 0
Row = ScheduleItemOrder

-- An object with the key of a row of the table is that row.
abbrev pub Stored : List Row → Row → Type 0
Stored rows a = All (λ r. a.id ≡ r.id → a ≡ r) rows

pub All-both :
    (P Q : Row → Type 0) (rows : List Row) → All P rows → All Q rows → All (λ r. P r × Q r) rows
All-both P Q [] p q = tt
All-both P Q (r ∷ rows) p q = ((p.0, q.0), All-both P Q rows p.1 q.1)

pub Distinct-Stored : (rows : List Row) → Distinct rows → All (Stored rows) rows
Distinct-Stored [] d = tt
Distinct-Stored (r ∷ rows) d = (
  (
    (λ _. refl),
    All-map {P = λ s. r.id ≢ s.id} {Q = λ s. r.id ≡ s.id → r ≡ s} rows (λ s h e. absurd (h e)) d.0,
  ),
  All-map {P = λ s. (r.id ≢ s.id) × Stored rows s} {Q = Stored (r ∷ rows)} rows
      (λ s h. ((λ e. absurd (h.0 (sym e))), h.1))
      (All-both (λ s. r.id ≢ s.id) (Stored rows) rows d.0 (Distinct-Stored rows d.1)),
)

pub first-All :
    (P : Row → Type 0) (test : Row → Bool) (a : Row) (rows : List Row)
    → first test rows ≡ some a
    → All P rows
    → P a
first-All P test a [] e h = absurd (gone e)
  where
    gone : none ≡ some a → ⊥
    gone f = cc
first-All P test a (r ∷ rows) e h = elim (Bool-cases (test r)) [
  | inl hit ↦ subst P (some_injective (rw hit at e)) h.0
  | inr miss ↦ first-All P test a rows (rw miss at e) h.1
]
  where
    some_injective : {x y : Row} → some x ≡ some y → x ≡ y
    some_injective f = cc

pub transpose :
    (R : Row → Row → Type 0) (items rows : List Row)
    → All (λ a. All (λ r. R r a) rows) items
    → All (λ r. All (R r) items) rows
transpose R [] rows h = All-map {P = λ _. Unit} {Q = λ _. Unit} rows (λ r _. tt) (units rows)
  where
    units : (rows : List Row) → All (λ _. Unit {0}) rows
    units [] = tt
    units (r ∷ rows) = (tt, units rows)
transpose R (a ∷ items) rows h =
    All-both (λ r. R r a) (λ r. All (R r) items) rows h.0 (transpose R items rows h.1)

pub Stored-Agrees :
    (k : GroupKey) (rows : List Row) (a : Row)
    → key_of a ≡ k
    → Stored rows a
    → All (λ r. Agrees k r a) rows
Stored-Agrees k rows a e h =
    All-map {P = λ r. a.id ≡ r.id → a ≡ r} {Q = λ r. Agrees k r a} rows
      (λ r same i. (ap key_of (sym (same i)) ∙ e, ap (λ s. s.position) (same i))) h

-- The items of a group speak of the rows of the table.
pub fetch-Agrees :
    (k : GroupKey) (rows : List Row)
    → Distinct rows
    → All (λ a. All (λ r. Agrees k r a) rows) (fetch_group_items k rows)
fetch-Agrees k rows d =
    All-map {P = λ a. (key_of a ≡ k) × Stored rows a} {Q = λ a. All (λ r. Agrees k r a) rows} _
      (λ a h. Stored-Agrees k rows a h.0 h.1)
      (All-both (λ a. key_of a ≡ k) (Stored rows) _ (fetch-key k rows)
        (fetch-All (Stored rows) k rows (Distinct-Stored rows d)))

-- A list whose items speak of the rows, and that has every row of the group, lists it.
pub lists-group :
    (k : GroupKey) (items rows : List Row)
    → All (λ a. All (λ r. Agrees k r a) rows) items
    → All (λ r. key_of r ≡ k → Has r.id items) rows
    → All (Listed k items) rows
lists-group k items rows agree has =
    All-map {P = λ r. All (Agrees k r) items × (key_of r ≡ k → Has r.id items)} {Q = Listed k items}
      rows (λ r h. (h.0, λ e. Has-index r.id 1 items (h.1 e)))
      (All-both (λ r. All (Agrees k r) items) (λ r. key_of r ≡ k → Has r.id items) rows
        (transpose (Agrees k) items rows agree) has)

-- The siblings of an item, without it.
abbrev pub siblings : Row → List Row → List Row
siblings item rows = without item.id (fetch_group_items (key_of item) rows)

-- The group of an item in its new order: the item at a position, among its siblings in their order.
abbrev pub reordered : Row → ℕ → List Row → List Row
reordered item position rows = insert_at (position - 1) item (siblings item rows)

reordered-Listed :
    (item : Row) (position : ℕ) (rows : List Row)
    → Distinct rows
    → first (has_id item.id) rows ≡ some item
    → All (Listed (key_of item) (reordered item position rows)) rows
reordered-Listed item position rows d found =
    let k = key_of item in
    lists-group k (reordered item position rows) rows
      (insert_at-All (λ a. All (λ r. Agrees k r a) rows) (position - 1) item (siblings item rows)
        (Stored-Agrees k rows item refl
          (first-All (Stored rows) (has_id item.id) item rows found (Distinct-Stored rows d)))
        (keep-All (λ a. All (λ r. Agrees k r a) rows) (λ r. not (has_id item.id r)) _
          (fetch-Agrees k rows d)))
      (All-map {P = λ r. key_of r ≡ k → Has r.id (fetch_group_items k rows)}
        {Q = λ r. key_of r ≡ k → Has r.id (reordered item position rows)} rows
        (λ r has e.
          Has-insert_at r.id (position - 1) item (siblings item rows)
            (λ other. Has-without r.id item.id (fetch_group_items k rows) other (has e)))
        (fetch-Has k rows))

reordered-Distinct :
    (item : Row) (position : ℕ) (rows : List Row)
    → Distinct rows
    → Distinct (reordered item position rows)
reordered-Distinct item position rows d =
    insert_at-Distinct (position - 1) item (siblings item rows) (without-Absent item.id _)
      (keep-Distinct (λ r. not (has_id item.id r)) _ (fetch-Distinct (key_of item) rows d))

-- The position that the item is moved to.
abbrev pub landing : Row → Option ℕ → List Row → ℕ
landing item target_position rows =
    clamp (or_position target_position item.position) (length (siblings item rows) + 1)

-- Moving a stored row within its group succeeds: the group is numbered from 1 in an order in which
-- the row stands at the requested position (clamped to the group) and its siblings keep their order,
-- the other groups are unchanged, and no two rows stand at one place.
pub move_within_group_lem :
    (item : Row) (target_position : Option ℕ) (rows : List Row)
    → Distinct rows
    → Unique rows
    → first (has_id item.id) rows ≡ some item
    → let position = landing item target_position rows in
      let ordered = reordered item position rows in
      (move_within_group item (key_of item) target_position rows
        ≡ ok (set_position position item, map (renumbered ordered) rows))
      × Unique (map (renumbered ordered) rows)
      × (index_of item.id 1 ordered ≡ some position)
unfolding move_within_group
move_within_group_lem item target_position rows d u found =
    let position = landing item target_position rows in
    let (runs, unique) =
      persist_group_positions_lem (key_of item) (reordered item position rows) rows
        (reordered-Distinct item position rows d) d u
        (reordered-Listed item position rows d found) in
    (
      rw runs refl,
      unique,
      index_of-insert_at (position - 1) 1 item (siblings item rows) (without-Absent item.id _)
            (omega arith)
          ∙ ap some (omega arith),
    )
