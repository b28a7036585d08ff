-- ===== src/ItemOrder/Renumber.antt =====
-- `_persist_group_positions` as a whole.
use taiga_back_schedule_mana.Base.{
  ℕ, ◌+◌, ◌<◌, ◌≡◌, refl, sym, ◌∙◌, ap, subst, Bool, true, false, List, [], ◌∷◌, map, ◌==◌,
  Bool-cases, Option-cases, inl, inr, All, All-map, is_empty, if◌then◌else◌,
}
use taiga_back_schedule_mana.Model.{ScheduleItemOrder, ok, ◌>>=◌}
use taiga_back_schedule_mana.ItemOrder.Keys.{GroupKey, key_of}
use taiga_back_schedule_mana.ItemOrder.Persist.{
  set_position, placed, pending_updates, write_temporary, write_final, temporary_base_position,
  persist_group_positions,
}
use taiga_back_schedule_mana.ItemOrder.Writes.{
  Unique, Distinct, Writes, write_all, apply_all, write_all-ok,
}
use taiga_back_schedule_mana.ItemOrder.Indexes.{
  index_of, temporary_writes, final_writes, position_after,
}
use taiga_back_schedule_mana.ItemOrder.Clearance.{Clear, pending-Ascending}
use taiga_back_schedule_mana.ItemOrder.Safety.{
  write_temporary-all, write_final-all, Grouped, AllClear, temporary-Safe, final-Safe,
}
use taiga_back_schedule_mana.ItemOrder.Listing.{
  renumbered, Agrees, Listed, moved, waiting, base, moved_Clear, moved_final, moved_Below,
}

persist-writes :
    (items rows : List ScheduleItemOrder)
    → persist_group_positions items rows ≡ (
        write_all (temporary_writes (temporary_base_position items) (pending_updates 1 items)) rows
        >>= write_all (final_writes (pending_updates 1 items)))
unfolding persist_group_positions write_all
persist-writes items rows = go (temporary_base_position items) (pending_updates 1 items)
  where
    go :
        (b : ℕ) (pending : List (ScheduleItemOrder × ℕ))
        → (if is_empty pending
            then ok rows
            else (write_temporary b pending rows >>= write_final pending))
          ≡ (write_all (temporary_writes b pending) rows >>= write_all (final_writes pending))
    go b [] = refl
    go b (e ∷ pending) = λ i. write_temporary-all b (e ∷ pending) rows i >>= λ rows'.
        write_final-all (e ∷ pending) rows' i

moved_write :
    (writes : Writes) (r : ScheduleItemOrder) (p : ℕ) (hit : Bool)
    → moved writes (if hit then set_position p r else r)
      ≡ set_position (position_after writes r.id (if hit then p else r.position)) r
unfolding moved
moved_write writes r p true = refl
moved_write writes r p false = refl

apply_all-map :
    (writes : Writes) (rows : List ScheduleItemOrder)
    → apply_all writes rows ≡ map (moved writes) rows
unfolding apply_all moved
apply_all-map [] [] = refl
apply_all-map [] (r ∷ rows) = ap (λ t. r ∷ t) (apply_all-map [] rows)
apply_all-map ((i, p) ∷ writes) rows = apply_all-map writes (placed i p rows) ∙ fused rows
  where
    fused :
        (rows : List ScheduleItemOrder)
        → map (moved writes) (placed i p rows) ≡ map (moved ((i, p) ∷ writes)) rows
    fused [] = refl
    fused (r ∷ rows) = λ j. moved_write writes r p (r.id == i) j ∷ fused rows j

module _ (k : GroupKey) (items : List ScheduleItemOrder) (distinct : Distinct items) where
  grouped :
      (n : ℕ) (l rows : List ScheduleItemOrder)
      → All (λ r. All (Agrees k r) l) rows
      → Grouped k (pending_updates n l) rows
  unfolding pending_updates
  grouped n [] rows h = tt
  grouped n (item ∷ l) rows h =
      let rest = grouped (n + 1) l rows (
        All-map {P = λ (r : ScheduleItemOrder). All (Agrees k r) (item ∷ l)}
          {Q = λ r. All (Agrees k r) l} rows (λ r a. a.1) h) in
      let now =
        All-map {P = λ (r : ScheduleItemOrder). All (Agrees k r) (item ∷ l)}
          {Q = λ r. r.id ≡ item.id → key_of r ≡ k} rows (λ r a same. (a.0 (sym same)).0) h in
      elim (Bool-cases (item.position == n)) [
        | inl there ↦ rw there rest
        | inr away ↦ rw away (now, rest)
      ]

  All-moved {ℓ κ} :
      {P : ScheduleItemOrder → Type ℓ} (Q : ScheduleItemOrder → Type κ) (writes : Writes)
      (rows : List ScheduleItemOrder)
      → ((r : ScheduleItemOrder) → P r → Q (moved writes r))
      → All P rows
      → All Q (map (moved writes) rows)
  All-moved Q writes [] f h = tt
  All-moved Q writes (r ∷ rows) f h = (f r h.0, All-moved Q writes rows f h.1)

  Grouped-moved :
      (writes : Writes) (pending : List (ScheduleItemOrder × ℕ)) (rows : List ScheduleItemOrder)
      → Grouped k pending rows
      → Grouped k pending (map (moved writes) rows)
  unfolding moved
  Grouped-moved writes [] rows h = tt
  Grouped-moved writes (e ∷ pending) rows h = (
    All-moved {P = λ (r : ScheduleItemOrder). r.id ≡ e.0.id → key_of r ≡ k}
        (λ r. r.id ≡ e.0.id → key_of r ≡ k) writes rows (λ r g. g) h.0,
    Grouped-moved writes pending rows h.1,
  )

  map-renumbered :
      (rows : List ScheduleItemOrder)
      → All (Listed k items) rows
      → map
          (moved (final_writes (waiting k items distinct)))
          (map (moved (temporary_writes (base k items distinct) (waiting k items distinct))) rows)
        ≡ map (renumbered items) rows
  map-renumbered [] h = refl
  map-renumbered (r ∷ rows) h =
      λ i. moved_final k items distinct r h.0.0 i ∷ map-renumbered rows h.1 i

  moved_AllClear :
      (rows : List ScheduleItemOrder)
      → All (Listed k items) rows
      → AllClear k
          (waiting k items distinct)
          (map (moved (temporary_writes (base k items distinct) (waiting k items distinct))) rows)
  unfolding moved
  moved_AllClear rows h =
      All-moved {P = Listed k items}
        (λ r. key_of r ≡ k → Clear r.id r.position (waiting k items distinct))
        (temporary_writes (base k items distinct) (waiting k items distinct)) rows
        (λ r listed g. elim (Option-cases (index_of r.id 1 items)) [
          | inl gone ↦ absurd (listed.1 g gone)
          | inr (index, e) ↦ moved_Clear k items distinct r index e listed.0
        ])
        h

-- For items that are distinct and list every row of one group (with the group and the position that
-- the row has), in any order: renumbering them succeeds, and the new table is the old one with the
-- position of each listed row replaced by its index in the list, counted from 1. Rows outside the
-- list are unchanged, and no two rows of the new table stand at one place.
pub persist_group_positions_lem :
    (k : GroupKey) (items rows : List ScheduleItemOrder)
    → Distinct items
    → Distinct rows
    → Unique rows
    → All (Listed k items) rows
    → (persist_group_positions items rows ≡ ok (map (renumbered items) rows))
      × Unique (map (renumbered items) rows)
persist_group_positions_lem k items rows distinct d u h =
    let temporary = temporary_writes (temporary_base_position items) (pending_updates 1 items) in
    let final = final_writes (pending_updates 1 items) in
    let agrees =
      All-map {P = Listed k items} {Q = λ r. All (Agrees k r) items} rows (λ r listed. listed.0)
        h in
    let in_group = grouped k items distinct 1 items rows agrees in
    let (first, u', d') = write_all-ok k temporary rows d u (
      temporary-Safe k (temporary_base_position items) (pending_updates 1 items) rows in_group (
        All-map {P = Listed k items}
          {Q = λ r. key_of r ≡ k → r.position < temporary_base_position items} rows
          (λ r listed. moved_Below k items distinct r listed.0 listed.1) h)) in
    let (second, u'', d'') = write_all-ok k final (apply_all temporary rows) d' u' (
      rw (apply_all-map temporary rows) (
        final-Safe k (pending_updates 1 items) (map (moved temporary) rows)
          (pending-Ascending 1 items)
          (Grouped-moved k items distinct temporary (pending_updates 1 items) rows in_group)
          (moved_AllClear k items distinct rows h))) in
    let result : apply_all final (apply_all temporary rows) ≡ map (renumbered items) rows =
      apply_all-map final (apply_all temporary rows)
      ∙ (ap (map (moved final)) (apply_all-map temporary rows)
          ∙ map-renumbered k items distinct rows h) in
    (persist-writes items rows ∙ (rw first (second ∙ ap ok result)), subst Unique result u'')
