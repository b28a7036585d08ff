-- ===== src/Bulk/Events.antt =====
-- The ids in the events of a bulk request.
use taiga_back_schedule_mana.Base.{
  ℕ, ◌<◌, ◌≡◌, ◌∙◌, refl, ap, ◌||◌, List, [], ◌∷◌, All, All-map, contains, any_of, ltb, ◌==◌,
  Bool-cases, inl, inr, arith,
}
use taiga_back_schedule_mana.Bulk.Request.{Update}
use taiga_back_schedule_mana.Bulk.Emit.{add_id, sorted_ids}

abbrev pub Increasing : List ℕ → Type 0
Increasing [] = Unit
Increasing (i ∷ ids) = All (λ j. i < j) ids × Increasing ids

add_id-All :
    (k i : ℕ) (ids : List ℕ) → k < i → All (λ j. k < j) ids → All (λ j. k < j) (add_id i ids)
unfolding add_id
add_id-All k i [] h a = (h, tt)
add_id-All k i (j ∷ ids) h a = elim (Bool-cases (i == j)) [
  | inl same ↦ rw same a
  | inr other ↦ elim (Bool-cases (ltb i j)) [
    | inl below ↦ rw (other, below) (h, a)
    | inr above ↦ rw (other, above) (a.0, add_id-All k i ids h a.1)
  ]
]

add_id-Increasing : (i : ℕ) (ids : List ℕ) → Increasing ids → Increasing (add_id i ids)
unfolding add_id
add_id-Increasing i [] h = (tt, tt)
add_id-Increasing i (j ∷ ids) h = elim (Bool-cases (i == j)) [
  | inl same ↦ rw same h
  | inr other ↦ elim (Bool-cases (ltb i j)) [
    | inl below ↦
        let first : i < j = ground arith in
        rw (other, below)
          ((first, All-map {P = λ (k : ℕ). j < k} {Q = λ k. i < k} ids (λ k b. omega arith) h.0), h)
    | inr above ↦
        let behind : j < i = ground arith in
        rw (other, above) (add_id-All j i ids behind h.0, add_id-Increasing i ids h.1)
  ]
]

contains-add_id : (k i : ℕ) (ids : List ℕ) → contains k (add_id i ids) ≡ (k == i || contains k ids)
unfolding add_id
contains-add_id k i [] = refl
contains-add_id k i (j ∷ ids) = ground (arith, contains-add_id k i ids)

-- The ids of the events are strictly increasing, so none is sent twice, and an id is among them
-- exactly when an update names it.
pub sorted_ids_lem :
    (us : List Update)
    → Increasing (sorted_ids us)
      × ((k : ℕ) → contains k (sorted_ids us) ≡ any_of (λ u. k == u.entity_id) us)
unfolding sorted_ids
sorted_ids_lem [] = (tt, λ k. refl)
sorted_ids_lem (u ∷ us) =
    let (increasing, found) = sorted_ids_lem us in
    (
      add_id-Increasing u.entity_id (sorted_ids us) increasing,
      λ k.
          contains-add_id k u.entity_id (sorted_ids us) ∙ ap (λ b. k == u.entity_id || b) (found k),
    )
