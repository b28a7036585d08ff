-- ===== src/ItemOrder/Regroup.antt =====
-- `move_to_group` as a whole.
use taiga_back_schedule_mana.Base.{
  ℕ, ◌+◌, ◌-◌, ◌<◌, ◌≡◌, ◌≢◌, refl, sym, ◌∙◌, ap, subst, not, Option, some, List, map, All, All-map,
  length, first, insert_at, arith,
}
use taiga_back_schedule_mana.Model.{ScheduleItemOrder, ok}
use taiga_back_schedule_mana.ItemOrder.Keys.{GroupKey, key_of, fetch_group_items}
use taiga_back_schedule_mana.ItemOrder.Persist.{has_id, set_position, checked}
use taiga_back_schedule_mana.ItemOrder.Move.{clamp, or_position, regrouped, move_to_group}
use taiga_back_schedule_mana.ItemOrder.Writes.{Distinct, Unique, is_unique_of}
use taiga_back_schedule_mana.ItemOrder.Indexes.{index_of, Absent}
use taiga_back_schedule_mana.ItemOrder.Listing.{Agrees, Listed, renumbered}
use taiga_back_schedule_mana.ItemOrder.Renumber.{persist_group_positions_lem}
use taiga_back_schedule_mana.ItemOrder.Groups.{
  keep-All, insert_at-All, keep-Distinct, fetch-Distinct, insert_at-Distinct, without-Absent,
  index_of-insert_at,
}
use taiga_back_schedule_mana.ItemOrder.Members.{
  Has, Has-index, Has-without, Has-insert_at, fetch-Has,
}
use taiga_back_schedule_mana.ItemOrder.Arrange.{
  All-both, first-All, transpose, fetch-Agrees, siblings,
}
use taiga_back_schedule_mana.ItemOrder.Transfer.{
  transferred, transferred-All, transferred-Distinct, transferred-Unique, renumbered-keeps,
  renumbered-other, renumbered-Distinct, map-All, without-other,
}

abbrev Row : Type 0
Row = ScheduleItemOrder

-- What the rows of a table say of the two groups that are fetched from it.
abbrev Facts : GroupKey → List Row → Row → Type 0
Facts k rows s =
    All (Agrees k s) (fetch_group_items k rows)
    × (key_of s ≡ k → Has s.id (fetch_group_items k rows))

facts : (k : GroupKey) (rows : List Row) → Distinct rows → All (Facts k rows) rows
facts k rows d =
    let fetched = fetch_group_items k rows in
    All-both (λ s. All (Agrees k s) fetched) (λ s. key_of s ≡ k → Has s.id fetched) rows
      (transpose (Agrees k) fetched rows (fetch-Agrees k rows d)) (fetch-Has k rows)

-- The position behind the rows of a group.
abbrev pub end_of : GroupKey → List Row → ℕ
end_of t rows = length (fetch_group_items t rows) + 1

-- No row of a group stands behind its end.
abbrev pub Bounded : GroupKey → List Row → Type 0
Bounded t rows = All (λ r. key_of r ≡ t → r.position < end_of t rows) rows

module _ (item : Row) (t : GroupKey) (rows : List Row) where
  -- The table after the first write, and after the old group is closed.
  abbrev pub arrived : List Row
  arrived = transferred item.id t (end_of t rows) rows

  abbrev pub closed : List Row
  closed = map (renumbered (siblings item rows)) arrived

  -- The item at its first new place, and the new group in its new order.
  abbrev pub newcomer : Row
  newcomer = regrouped t (end_of t rows) item

  abbrev pub enlarged : ℕ → List Row
  enlarged position = insert_at (position - 1) newcomer (fetch_group_items t rows)

module _ (item : Row) (t : GroupKey) (rows : List Row) (apart : key_of item ≢ t) where
  old-Listed :
      (s : Row)
      → Facts (key_of item) rows s
      → s.id ≢ item.id
      → Listed (key_of item) (siblings item rows) s
  old-Listed s (agree, has) other = (
    keep-All (Agrees (key_of item) s) (λ r. not (has_id item.id r)) _ agree,
    λ e. Has-index s.id 1 (siblings item rows) (Has-without s.id item.id _ other (has e)),
  )

  arrived-Listed :
      Distinct rows → All (Listed (key_of item) (siblings item rows)) (arrived item t rows)
  arrived-Listed d =
      transferred-All (Listed (key_of item) (siblings item rows)) item.id t (end_of t rows) rows (
        All-map {P = Facts (key_of item) rows}
          {Q = λ s.
            (s.id ≡ item.id
              → Listed (key_of item) (siblings item rows) (regrouped t (end_of t rows) s))
            × (s.id ≢ item.id → Listed (key_of item) (siblings item rows) s)}
          rows (λ s h. ((λ same. gone s same), old-Listed s h)) (facts (key_of item) rows d))
    where
      gone :
          (s : Row)
          → s.id ≡ item.id
          → Listed (key_of item) (siblings item rows) (regrouped t (end_of t rows) s)
      gone s same = (
        All-map {P = λ a. item.id ≢ a.id} {Q = Agrees (key_of item) (regrouped t (end_of t rows) s)}
            (siblings item rows) (λ a h e. absurd (h (sym (e ∙ same)))) (without-Absent item.id _),
        λ e. absurd (apart (sym e)),
      )

  -- A row of the new group is not among the siblings that are left.
  new-Absent :
      (s : Row)
      → All (Agrees (key_of item) s) (fetch_group_items (key_of item) rows)
      → key_of s ≡ t
      → Absent s.id (siblings item rows)
  new-Absent s agree e =
      All-map {P = Agrees (key_of item) s} {Q = λ a. s.id ≢ a.id} (siblings item rows)
        (λ a h same. apart (sym (h (sym same)).0 ∙ e))
        (keep-All (Agrees (key_of item) s) (λ r. not (has_id item.id r)) _ agree)

  fetched-Absent :
      All (Agrees t item) (fetch_group_items t rows) → Absent item.id (fetch_group_items t rows)
  fetched-Absent agree =
      All-map {P = Agrees t item} {Q = λ a. item.id ≢ a.id} _ (λ a h same. apart (h (sym same)).0)
        agree

  module _ (position : ℕ) (absent : Absent item.id (fetch_group_items t rows)) where
    stayed-Listed :
        (s : Row)
        → Facts (key_of item) rows s
        → Facts t rows s
        → s.id ≢ item.id
        → Listed t (enlarged item t rows position) (renumbered (siblings item rows) s)
    stayed-Listed s old (agree, has) other =
        let keeps = renumbered-keeps (siblings item rows) s in
        (
          insert_at-All (Agrees t (renumbered (siblings item rows) s)) (position - 1)
              (newcomer item t rows) _ (λ e. absurd (other (sym (e ∙ keeps.0))))
              (All-map {P = Agrees t s} {Q = Agrees t (renumbered (siblings item rows) s)} _
                (λ a h e.
                  let (group, place) = h (e ∙ keeps.0) in
                  let same = renumbered-other (siblings item rows) s (new-Absent s old.0 group) in
                  (keeps.1 ∙ group, place ∙ ap (λ r. r.position) (sym same)))
                agree),
          λ e. Has-index (renumbered (siblings item rows) s).id 1 (enlarged item t rows position) (
              subst (λ i. Has i (enlarged item t rows position)) (sym keeps.0)
                (Has-insert_at s.id (position - 1) (newcomer item t rows) _
                  (λ _. has (sym keeps.1 ∙ e)))),
        )

    moved-Listed :
        (s : Row)
        → s.id ≡ item.id
        → Listed t
            (enlarged item t rows position)
            (renumbered (siblings item rows) (regrouped t (end_of t rows) s))
    moved-Listed s same =
        let q = regrouped t (end_of t rows) s in
        let left =
          subst (λ i. Absent i (siblings item rows)) (sym same) (without-Absent item.id _) in
        subst (Listed t (enlarged item t rows position))
          (sym (renumbered-other (siblings item rows) q left))
          (
            insert_at-All (Agrees t q) (position - 1) (newcomer item t rows) _ (λ e. (refl, refl))
                (All-map {P = λ a. item.id ≢ a.id} {Q = Agrees t q} _
                  (λ a h e. absurd (h (sym (e ∙ same)))) absent),
            λ e. Has-index s.id 1 (enlarged item t rows position) (
                Has-insert_at s.id (position - 1) (newcomer item t rows) _
                  (λ other. absurd (other same))),
          )

    closed-Listed :
        Distinct rows → All (Listed t (enlarged item t rows position)) (closed item t rows)
    closed-Listed d =
        map-All (Listed t (enlarged item t rows position)) (renumbered (siblings item rows))
          (arrived item t rows)
          (transferred-All
            (λ r. Listed t (enlarged item t rows position) (renumbered (siblings item rows) r))
            item.id t (end_of t rows) rows
            (All-map {P = λ s. Facts (key_of item) rows s × Facts t rows s}
              {Q = λ s.
                (s.id ≡ item.id
                  → Listed t (enlarged item t rows position)
                      (renumbered (siblings item rows) (regrouped t (end_of t rows) s)))
                × (s.id ≢ item.id
                    → Listed t (enlarged item t rows position) (renumbered (siblings item rows) s))}
              rows (λ s h. (moved-Listed s, stayed-Listed s h.0 h.1))
              (All-both (Facts (key_of item) rows) (Facts t rows) rows (facts (key_of item) rows d)
                (facts t rows d))))

-- The position that the item is moved to in the other group.
abbrev pub arrival : GroupKey → Option ℕ → List Row → ℕ
arrival t target_position rows = clamp (or_position target_position (end_of t rows)) (end_of t rows)

-- Moving a stored row to another group, none of whose rows stands behind its end, succeeds: the row
-- stands in that group at the requested position (clamped to the group; its end by default) and the
-- others there keep their order, its old siblings keep theirs and close up, every other group is
-- unchanged, and no two rows stand at one place.
pub move_to_group_lem :
    (item : Row) (t : GroupKey) (target_position : Option ℕ) (rows : List Row)
    → key_of item ≢ t
    → Distinct rows
    → Unique rows
    → Bounded t rows
    → first (has_id item.id) rows ≡ some item
    → let position = arrival t target_position rows in
      let ordered = enlarged item t rows position in
      (move_to_group item (key_of item) t target_position rows
        ≡ ok (
          set_position position (newcomer item t rows),
          map (renumbered ordered) (closed item t rows),
        ))
      × Unique (map (renumbered ordered) (closed item t rows))
      × (index_of item.id 1 ordered ≡ some position)
unfolding move_to_group checked
move_to_group_lem item t target_position rows apart d u b found =
    let position = arrival t target_position rows in
    let absent = fetched-Absent item t rows apart (
      first-All (λ s. All (Agrees t s) (fetch_group_items t rows)) (has_id item.id) item rows found
        (transpose (Agrees t) _ rows (fetch-Agrees t rows d))) in
    let unique = transferred-Unique item.id t (end_of t rows) rows d u b in
    let distinct = transferred-Distinct item.id t (end_of t rows) rows d in
    let (closes, unique') =
      persist_group_positions_lem (key_of item) (siblings item rows) (arrived item t rows)
        (keep-Distinct (λ r. not (has_id item.id r)) _ (fetch-Distinct (key_of item) rows d))
        distinct unique (arrived-Listed item t rows apart d) in
    let (opens, unique'') =
      persist_group_positions_lem t (enlarged item t rows position) (closed item t rows)
        (insert_at-Distinct (position - 1) (newcomer item t rows) _ absent
          (fetch-Distinct t rows d))
        (renumbered-Distinct (siblings item rows) (arrived item t rows) distinct) unique'
        (closed-Listed item t rows apart position absent d) in
    (
      rw (is_unique_of (arrived item t rows) unique, closes, without-other item.id _ absent, opens)
          refl,
      unique'',
      index_of-insert_at (position - 1) 1 (newcomer item t rows) _ absent (omega arith)
          ∙ ap some (omega arith),
    )
