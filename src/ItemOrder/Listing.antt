-- ===== src/ItemOrder/Listing.antt =====
-- Where one row of a listed group stands behind the two loops of `_persist_group_positions`.
use taiga_back_schedule_mana.Base.{
  ℕ, ◌+◌, ◌≤◌, ◌<◌, ◌≡◌, ◌≢◌, ◌⊎◌, refl, sym, ◌∙◌, ap, none, some, List, [], ◌∷◌, ◌==◌, ==_iff,
  Bool-cases, Option-cases, inl, inr, All, All-map, length, arith,
}
use taiga_back_schedule_mana.Model.{ScheduleItemOrder}
use taiga_back_schedule_mana.ItemOrder.Keys.{GroupKey, key_of}
use taiga_back_schedule_mana.ItemOrder.Persist.{
  set_position, pending_updates, max_position, temporary_base_position,
}
use taiga_back_schedule_mana.ItemOrder.Writes.{Distinct, Writes}
use taiga_back_schedule_mana.ItemOrder.Indexes.{
  index_of, temporary_writes, final_writes, position_after, Absent-Settled, Settled-temporary,
  Settled-final, final-index, le-max_position,
}
use taiga_back_schedule_mana.ItemOrder.Clearance.{
  Clear, below-Clear, index-Clear, index-Settled, index-temporary, index-Absent,
}

-- The row with its index among the items as its position, if it is one of them.
abbrev pub renumbered : List ScheduleItemOrder → ScheduleItemOrder → ScheduleItemOrder
renumbered items r = elim (index_of r.id 1 items) [ none ↦ r | some index ↦ set_position index r ]

-- An item object speaks of the row: it is of the group, and at the position that the object holds.
abbrev pub Agrees : GroupKey → ScheduleItemOrder → ScheduleItemOrder → Type 0
Agrees k r item = item.id ≡ r.id → (key_of r ≡ k) × (item.position ≡ r.position)

-- The items speak of the row, and list it if it is of the group.
abbrev pub Listed : GroupKey → List ScheduleItemOrder → ScheduleItemOrder → Type 0
Listed k items r = All (Agrees k r) items × (key_of r ≡ k → index_of r.id 1 items ≢ none)

unfoldable pub moved : Writes → ScheduleItemOrder → ScheduleItemOrder
moved writes r = set_position (position_after writes r.id r.position) r

-- The facts about one row of the table.
module _ (k : GroupKey) (items : List ScheduleItemOrder) (distinct : Distinct items) where
  abbrev pub waiting : List (ScheduleItemOrder × ℕ)
  waiting = pending_updates 1 items

  abbrev pub base : ℕ
  base = temporary_base_position items

  at_index :
      (r : ScheduleItemOrder) (index : ℕ)
      → r.position ≡ index
      → All (Agrees k r) items
      → All (λ item. item.id ≡ r.id → item.position ≡ index) items
  at_index r index e h =
      All-map {P = Agrees k r} {Q = λ item. item.id ≡ r.id → item.position ≡ index} items
        (λ item agrees same. (agrees same).1 ∙ e) h

  not_at_index :
      (r : ScheduleItemOrder) (index : ℕ)
      → r.position ≢ index
      → All (Agrees k r) items
      → All (λ item. item.id ≡ r.id → item.position ≢ index) items
  not_at_index r index e h =
      All-map {P = Agrees k r} {Q = λ item. item.id ≡ r.id → item.position ≢ index} items
        (λ item agrees same there. e (sym (agrees same).1 ∙ there)) h

  -- Behind the temporary writes a row stands at its index or behind all indexes.
  moved_temporary :
      (r : ScheduleItemOrder) (index : ℕ)
      → index_of r.id 1 items ≡ some index
      → All (Agrees k r) items
      → let p = position_after (temporary_writes base waiting) r.id r.position in
        (r.position ≡ index) × (p ≡ index) ⊎ (r.position ≢ index) × (1 + length items ≤ p)
  unfolding temporary_base_position
  moved_temporary r index e h = elim (Bool-cases (r.position == index)) [
    | inl there ↦
        let same = (==_iff r.position index).0 there in
        inl (
          same,
          Settled-temporary r.id r.position base waiting
                (index-Settled r.id 1 index items distinct e (at_index r index same h))
              ∙ same,
        )
    | inr away ↦
        let other : r.position ≢ index = ground arith in
        inr (
          other,
          index-temporary r.id r.position 1 index (1 + length items) base items e
              (not_at_index r index other h)
              (omega (arith, (le-max_position (length items) items).0)),
        )
  ]

  pub moved_Clear :
      (r : ScheduleItemOrder) (index : ℕ)
      → index_of r.id 1 items ≡ some index
      → All (Agrees k r) items
      → Clear r.id (position_after (temporary_writes base waiting) r.id r.position) waiting
  moved_Clear r index e h = elim (moved_temporary r index e h) [
    | inl (there, p) ↦ rw p (index-Clear r.id 1 index items e)
    | inr (away, p) ↦ below-Clear r.id _ 1 items p
  ]

  pub moved_final :
      (r : ScheduleItemOrder)
      → All (Agrees k r) items
      → moved (final_writes waiting) (moved (temporary_writes base waiting) r) ≡ renumbered items r
  unfolding moved
  moved_final r h = elim (Option-cases (index_of r.id 1 items)) [
    | inl gone ↦
        let settled = Absent-Settled r.id 1 items (index-Absent r.id 1 items gone) in
        rw (gone, renumbered)
          (ap (λ p. set_position p r)
            (Settled-final r.id (position_after (temporary_writes base waiting) r.id r.position)
                waiting settled
              ∙ Settled-temporary r.id r.position base waiting settled))
    | inr (index, e) ↦
        let p = position_after (temporary_writes base waiting) r.id r.position in
        rw (e, renumbered)
          (ap (λ q. set_position q r)
            (final-index r.id p 1 index items distinct e
              (landing index p (moved_temporary r index e h))))
  ]
    where
      landing :
          (index p : ℕ)
          → (r.position ≡ index) × (p ≡ index) ⊎ (r.position ≢ index) × (1 + length items ≤ p)
          → All (λ item. item.id ≡ r.id → item.position ≡ index → p ≡ index) items
      landing index p (inl (there, e)) =
          All-map {P = Agrees k r} {Q = λ item. item.id ≡ r.id → item.position ≡ index → p ≡ index}
            items (λ item _ _ _. e) h
      landing index p (inr (away, e)) =
          All-map {P = Agrees k r} {Q = λ item. item.id ≡ r.id → item.position ≡ index → p ≡ index}
            items (λ item agrees same there. absurd (away (sym (agrees same).1 ∙ there))) h

  pub moved_Below :
      (r : ScheduleItemOrder)
      → All (Agrees k r) items
      → (key_of r ≡ k → index_of r.id 1 items ≢ none)
      → key_of r ≡ k
      → r.position < base
  unfolding temporary_base_position
  moved_Below r h covers g = go 1 items h (le-max_position (length items) items).1 (covers g)
    where
      go :
          (n : ℕ) (l : List ScheduleItemOrder)
          → All (Agrees k r) l
          → All (λ item. item.position ≤ max_position (length items) items) l
          → index_of r.id n l ≢ none
          → r.position < base
      go n [] h le found = absurd (found refl)
      go n (item ∷ l) h le found = elim (Bool-cases (item.id == r.id)) [
        | inl hit ↦ omega (arith, le.0, (h.0 ((==_iff item.id r.id).0 hit)).1)
        | inr miss ↦ go (n + 1) l h.1 le.1 (rw miss at found)
      ]
