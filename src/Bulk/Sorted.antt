-- ===== src/Bulk/Sorted.antt =====
-- The normalized updates, and the order of their keys.
use taiga_back_schedule_mana.Base.{
  ℕ, ◌<◌, ◌≡◌, ◌⊎◌, refl, sym, ap, subst, ◌∙◌, true, false, Option, none, some, or_else, List, [],
  ◌∷◌, All, All-map, Bool-cases, inl, inr, sort_by, insert_sorted, if◌then◌else◌, arith,
}
use taiga_back_schedule_mana.Model.{
  EntityType, epic, userstory, task, same_type_iff, ok, ok-injective, >>=-eq-ok,
}
use taiga_back_schedule_mana.Bulk.Request.{
  RawUpdate, Update, same_entity, key_before, rank, normalize_from,
  normalize_schedule_bulk_date_updates,
}
use taiga_back_schedule_mana.Bulk.Latest.{
  is_key, is_key_apart, normalize_from_lem, Apart, update_of, last_update,
}

-- The first key is before the second, by type and then by id.
abbrev pub Before : Update → Update → Type 0
Before u v =
    (rank u.entity_type < rank v.entity_type)
    ⊎ ((u.entity_type ≡ v.entity_type) × (u.entity_id < v.entity_id))

abbrev pub Ascending : List Update → Type 0
Ascending [] = Unit
Ascending (u ∷ rest) = All (Before u) rest × Ascending rest

rank_injective : (a b : EntityType) → rank a ≡ rank b → a ≡ b
rank_injective epic b e = ground arith
rank_injective userstory b e = ground arith
rank_injective task b e = ground arith

Before-of_key : (u v : Update) → key_before u v ≡ true → same_entity u v ≡ false → Before u v
Before-of_key u v h d =
    ground
      (arith, same_type_iff u.entity_type v.entity_type, rank_injective u.entity_type v.entity_type)

Before-of_not_key : (u v : Update) → key_before u v ≡ false → Before v u
Before-of_not_key u v h = ground (arith, rank_injective v.entity_type u.entity_type)

Before-trans : (u v w : Update) → Before u v → Before v w → Before u w
Before-trans u v w h k = ground arith

insert-All {ℓ} :
    (P : Update → Type ℓ) (u : Update) (us : List Update)
    → P u
    → All P us
    → All P (insert_sorted key_before u us)
insert-All P u [] p h = (p, tt)
insert-All P u (v ∷ us) p h = elim (Bool-cases (key_before u v)) [
  | inl before ↦ rw before (p, h)
  | inr after ↦ rw after (h.0, insert-All P u us p h.1)
]

insert-Ascending :
    (u : Update) (us : List Update)
    → All (λ v. same_entity u v ≡ false) us
    → Ascending us
    → Ascending (insert_sorted key_before u us)
insert-Ascending u [] d h = (tt, tt)
insert-Ascending u (v ∷ us) d h = elim (Bool-cases (key_before u v)) [
  | inl before ↦
      let first_before = Before-of_key u v before d.0 in
      rw before (
        (
          first_before,
          All-map {P = Before v} {Q = Before u} us (λ w k. Before-trans u v w first_before k) h.0,
        ),
        h,
      )
  | inr after ↦
      rw after (
        insert-All (Before v) u us (Before-of_not_key u v after) h.0,
        insert-Ascending u us d.1 h.1,
      )
]

sort-All {ℓ} : (P : Update → Type ℓ) (us : List Update) → All P us → All P (sort_by key_before us)
sort-All P [] h = tt
sort-All P (u ∷ us) h = insert-All P u (sort_by key_before us) h.0 (sort-All P us h.1)

sort-Ascending : (us : List Update) → Apart us → Ascending (sort_by key_before us)
sort-Ascending [] h = tt
sort-Ascending (u ∷ us) h =
    insert-Ascending u (sort_by key_before us) (sort-All (λ v. same_entity u v ≡ false) us h.0)
      (sort-Ascending us h.1)

update_of-insert :
    (t : EntityType) (i : ℕ) (u : Update) (us : List Update)
    → All (λ v. same_entity u v ≡ false) us
    → update_of t i (insert_sorted key_before u us) ≡ update_of t i (u ∷ us)
update_of-insert t i u [] d = refl
update_of-insert t i u (v ∷ us) d = elim (Bool-cases (key_before u v)) [
  | inl before ↦ rw before
  | inr after ↦ rw after (ground (arith, update_of-insert t i u us d.1, is_key_apart t i u v d.0))
]

update_of-sort :
    (t : EntityType) (i : ℕ) (us : List Update)
    → Apart us
    → update_of t i (sort_by key_before us) ≡ update_of t i us
update_of-sort t i [] h = refl
update_of-sort t i (u ∷ us) h =
    update_of-insert t i u (sort_by key_before us) (sort-All (λ v. same_entity u v ≡ false) us h.0)
    ∙ ap (λ o. if is_key t i u then some u else o) (update_of-sort t i us h.1)

-- A request that is accepted is normalized to updates in strictly ascending order of type and id, so
-- that no entity comes twice, and the update of each entity is the last that the request has for it.
pub normalize_schedule_bulk_date_updates_lem :
    (raws : List RawUpdate) (us : List Update)
    → normalize_schedule_bulk_date_updates raws ≡ ok us
    → Ascending us × ((t : EntityType) (i : ℕ) → update_of t i us ≡ last_update t i raws)
unfolding normalize_schedule_bulk_date_updates
normalize_schedule_bulk_date_updates_lem raws us e =
    let (us', normal, sorted) =
      >>=-eq-ok (normalize_from raws []) (λ l. ok (sort_by key_before l)) e in
    let same = ok-injective sorted in
    let apart = (normalize_from_lem epic 0 raws [] us' tt normal).0 in
    (
      subst Ascending same (sort-Ascending us' apart),
      λ t i.
          ap (update_of t i) (sym same)
          ∙ (update_of-sort t i us' apart
              ∙ ((normalize_from_lem t i raws [] us' tt normal).1
                  ∙ or_else_none (last_update t i raws))),
    )
  where
    or_else_none : (o : Option Update) → or_else o none ≡ o
    or_else_none none = refl
    or_else_none (some u) = refl
