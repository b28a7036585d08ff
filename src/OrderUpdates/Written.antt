-- ===== src/OrderUpdates/Written.antt =====
-- The orders that the callers of `apply_order_updates` leave in the tables.
use taiga_back_schedule_mana.Base.{
  ℕ, ◌≡◌, ◌≢◌, refl, sym, ◌∙◌, ap, Bool, true, false, Option, none, some, or_else, List, [], ◌∷◌,
  keep, first, ◌==◌, ==_iff, if◌then◌else◌, Bool-cases, inl, inr, arith,
}
use taiga_back_schedule_mana.OrderUpdates.Apply.{Orders, get, apply_order_updates}
use taiga_back_schedule_mana.OrderUpdates.Maps.{Keys, get_here, get_past}
use taiga_back_schedule_mana.OrderUpdates.Keeping.{Distinct}
use taiga_back_schedule_mana.OrderUpdates.Moved.{order_after}
use taiga_back_schedule_mana.OrderUpdates.Result.{apply_order_updates-Distinct}
use taiga_back_schedule_mana.OrderUpdates.Elements.{
  Element, orders_of, put, dict_from, with_order_at, update_attr_in_bulk_for_ids,
  update_order_in_bulk, userstory_scope, update_userstories_order_in_bulk,
}

abbrev pub find_element : ℕ → List Element → Option Element
find_element i rows = first (λ row. row.id == i) rows

abbrev pub map_order : ℕ → Option Element → Option ℕ
map_order field none = none
map_order field (some row) = some (row.order_of field)

-- The order of an element in a table.
abbrev pub order_in : ℕ → ℕ → List Element → Option ℕ
order_in field i rows = map_order field (find_element i rows)

put-fresh :
    (i : ℕ) (e : ℕ × ℕ) (orders : Orders) → (e.0 == i) ≡ false → get i (put e orders) ≡ get i orders
put-fresh i e [] other = rw other refl
put-fresh i e (f ∷ orders) other = elim (Bool-cases (f.0 == e.0)) [
  | inl same ↦ rw (same, differs f.0 e.0 i same other) refl
  | inr apart ↦ rw apart (elim (Bool-cases (f.0 == i)) [
    | inl hit ↦ rw hit refl
    | inr miss ↦ rw miss (put-fresh i e orders other)
  ])
]
  where
    differs : (a b c : ℕ) → (a == b) ≡ true → (b == c) ≡ false → (a == c) ≡ false
    differs a b c h k = ground arith

put-Keys : (e : ℕ × ℕ) (orders : Orders) → Keys orders → Keys (put e orders)
put-Keys e [] k = (refl, tt)
put-Keys e (f ∷ orders) k = elim (Bool-cases (f.0 == e.0)) [
  | inl same ↦ rw same k
  | inr apart ↦
      rw apart (put-fresh f.0 e orders (turned f.0 e.0 apart) ∙ k.0, put-Keys e orders k.1)
]
  where
    turned : (a b : ℕ) → (a == b) ≡ false → (b == a) ≡ false
    turned a b h = ground arith

dict_from-Keys : (dict entries : Orders) → Keys dict → Keys (dict_from dict entries)
unfolding dict_from
dict_from-Keys dict [] k = k
dict_from-Keys dict (e ∷ entries) k = dict_from-Keys (put e dict) entries (put-Keys e dict k)

-- The dictionary of the scope has the order of an element of the scope.
get-orders_of :
    (scope : Element → Bool) (field i : ℕ) (row : Element) (rows : List Element)
    → find_element i rows ≡ some row
    → scope row ≡ true
    → get i (orders_of field (keep scope rows)) ≡ some (row.order_of field)
get-orders_of scope field i row [] found h = absurd (gone found)
  where
    gone : none ≡ some row → ⊥
    gone e = cc
get-orders_of scope field i row (r ∷ rows) found h = elim (Bool-cases (r.id == i)) [
  | inl hit ↦
      let same = inside (sym (ap (λ b. if b then some r else find_element i rows) hit) ∙ found) in
      ap (λ b. get i (orders_of field (if b then r ∷ keep scope rows else keep scope rows)))
        (ap scope same ∙ h)
      ∙ (get_here i (r.id, r.order_of field) (orders_of field (keep scope rows)) hit
          ∙ ap (λ x. some (x.order_of field)) same)
  | inr miss ↦
      let rest =
        get-orders_of scope field i row rows
          (sym (ap (λ b. if b then some r else find_element i rows) miss) ∙ found) h in
      elim (Bool-cases (scope r)) [
        | inl kept ↦
            rw kept
              (get_past i (r.id, r.order_of field) (orders_of field (keep scope rows)) miss ∙ rest)
        | inr left ↦ rw left rest
      ]
]
  where
    inside : some r ≡ some row → r ≡ row
    inside e = cc

same_id : (field : ℕ) (o : Option ℕ) (row : Element) → (with_order_at field o row).id ≡ row.id
same_id field none row = refl
same_id field (some order) row = refl

written_order :
    (field : ℕ) (o : Option ℕ) (row : Element)
    → some ((with_order_at field o row).order_of field) ≡ or_else o (some (row.order_of field))
written_order field none row = refl
written_order field (some order) row =
    ap (λ b. some (if b then order else row.order_of field)) ((==_iff field field).1 refl)

first_is :
    (i : ℕ) (r : Element) (rows : List Element)
    → (r.id == i) ≡ true
    → find_element i (r ∷ rows) ≡ some r
first_is i r rows hit = rw hit refl

later_is :
    (i : ℕ) (r : Element) (rows : List Element)
    → (r.id == i) ≡ false
    → find_element i (r ∷ rows) ≡ find_element i rows
later_is i r rows miss = rw miss refl

find-updated :
    (values : Orders) (field i : ℕ) (row : Element) (rows : List Element)
    → find_element i rows ≡ some row
    → order_in field i (update_attr_in_bulk_for_ids values field rows)
      ≡ or_else (get i values) (some (row.order_of field))
find-updated values field i row [] found = absurd (gone found)
  where
    gone : none ≡ some row → ⊥
    gone e = cc
find-updated values field i row (r ∷ rows) found = elim (Bool-cases (r.id == i)) [
  | inl hit ↦
      let same = inside (sym (first_is i r rows hit) ∙ found) in
      ap (map_order field) (
        first_is i (changed r) (update_attr_in_bulk_for_ids values field rows)
          (ap (λ x. x == i) (same_id field (get r.id values) r) ∙ hit))
      ∙ (written_order field (get r.id values) r
          ∙ (ap (λ x. or_else (get x values) (some (r.order_of field))) ((==_iff r.id i).0 hit)
              ∙ ap (λ x. or_else (get i values) (some (x.order_of field))) same))
  | inr miss ↦
      ap (map_order field) (
        later_is i (changed r) (update_attr_in_bulk_for_ids values field rows)
          (ap (λ x. x == i) (same_id field (get r.id values) r) ∙ miss))
      ∙ find-updated values field i row rows (sym (later_is i r rows miss) ∙ found)
]
  where
    changed : Element → Element
    changed x = with_order_at field (get x.id values) x

    inside : some r ≡ some row → r ≡ row
    inside e = cc

-- The order of an element of the scope afterwards.
order_in-update_order_in_bulk :
    (r : Bool) (scope : Element → Bool) (entries : Orders) (field i : ℕ) (row : Element)
    (rows : List Element)
    → find_element i rows ≡ some row
    → scope row ≡ true
    → order_in field i (update_order_in_bulk r scope entries field rows).0
      ≡ order_after (orders_of field (keep scope rows)) (dict_from [] entries) r i
order_in-update_order_in_bulk r scope entries field i row rows found h =
    let base = orders_of field (keep scope rows) in
    let values = apply_order_updates base (dict_from [] entries) r in
    find-updated values field i row rows found
    ∙ ap (or_else (get i values)) (sym (get-orders_of scope field i row rows found h))

update_order_in_bulk-Distinct :
    (r : Bool) (scope : Element → Bool) (entries : Orders) (field i j : ℕ) (row other : Element)
    (rows : List Element)
    → Keys (orders_of field (keep scope rows))
    → Distinct (orders_of field (keep scope rows))
    → Distinct (dict_from [] entries)
    → find_element i rows ≡ some row
    → find_element j rows ≡ some other
    → scope row ≡ true
    → scope other ≡ true
    → i ≢ j
    → order_in field i (update_order_in_bulk r scope entries field rows).0
      ≢ order_in field j (update_order_in_bulk r scope entries field rows).0
update_order_in_bulk-Distinct r scope entries field i j row other rows keys distinct new_distinct hi
      hj si sj apart same =
    apply_order_updates-Distinct (orders_of field (keep scope rows)) (dict_from [] entries) r i j
      (row.order_of field) (other.order_of field) keys (dict_from-Keys [] entries tt) distinct
      new_distinct (get-orders_of scope field i row rows hi si)
      (get-orders_of scope field j other rows hj sj) apart
      (sym (order_in-update_order_in_bulk r scope entries field i row rows hi si)
        ∙ (same ∙ order_in-update_order_in_bulk r scope entries field j other rows hj sj))

-- Where the user stories of the scope have different orders and the request gives different ones, two stories
-- of the scope have different orders in the table afterwards.
pub update_userstories_order_in_bulk-Distinct :
    (entries : Orders) (field project_id : ℕ) (status milestone : Option ℕ) (i j : ℕ)
    (row other : Element) (rows : List Element)
    → Keys (orders_of field (keep (userstory_scope project_id status milestone) rows))
    → Distinct (orders_of field (keep (userstory_scope project_id status milestone) rows))
    → Distinct (dict_from [] entries)
    → find_element i rows ≡ some row
    → find_element j rows ≡ some other
    → userstory_scope project_id status milestone row ≡ true
    → userstory_scope project_id status milestone other ≡ true
    → i ≢ j
    → order_in field i
        (update_userstories_order_in_bulk entries field project_id status milestone rows).0
      ≢ order_in field j
          (update_userstories_order_in_bulk entries field project_id status milestone rows).0
unfolding update_userstories_order_in_bulk
update_userstories_order_in_bulk-Distinct entries field project_id status milestone =
    update_order_in_bulk-Distinct true (userstory_scope project_id status milestone) entries field
