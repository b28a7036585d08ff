-- ===== src/OrderUpdates/Shifts.antt =====
-- What the two loops of `apply_order_updates` do to the order of each element.
use taiga_back_schedule_mana.Base.{
  ℕ, ◌≤◌, ◌≡◌, refl, sym, ap, subst, true, false, Option, none, some, [], ◌∷◌, ◌==◌, ==_iff, All,
  Bool-cases, Option-cases, inl, inr, if◌then◌else◌, arith,
}
use taiga_back_schedule_mana.OrderUpdates.Apply.{
  Orders, get, Progress, bumped, make_room, make_rooms, overwrite, overwrite_all,
}
use taiga_back_schedule_mana.OrderUpdates.Maps.{
  map_value, Keys, get-map, get-with_order, Keys-map, Keys-with_order,
}

-- A round that moves each order by one function.
abbrev pub MovesBy : (ℕ → ℕ) → Orders → Orders → Type 0
MovesBy f before after = (j : ℕ) → get j after ≡ map_value f (get j before)

pub make_room-MovesBy :
    (i order old : ℕ) (p : Progress)
    → get i p.orders ≡ some old
    → MovesBy (bumped old order) p.orders (make_room (i, order) p).orders
unfolding make_room
make_room-MovesBy i order old p h j = rw (h, make_room) (get-map (bumped old order) j p.orders)

pub make_room_unknown :
    (i order : ℕ) (p : Progress) → get i p.orders ≡ none → make_room (i, order) p ≡ p
unfolding make_room
make_room_unknown i order p h = rw (h, make_room) refl

pub make_room-Keys :
    (i order : ℕ) (p : Progress) → Keys p.orders → Keys (make_room (i, order) p).orders
unfolding make_room
make_room-Keys i order p k = elim (Option-cases (get i p.orders)) [
  | inl gone ↦ rw (gone, make_room) k
  | inr (old, h) ↦ rw (h, make_room) (Keys-map (bumped old order) p.orders k)
]

pub get-overwrite :
    (i order : ℕ) (p : Progress) (j : ℕ)
    → get j (overwrite (i, order) p).orders
      ≡ (if j == i then map_value (λ _. order) (get j p.orders) else get j p.orders)
unfolding overwrite
get-overwrite i order p j = elim (Option-cases (get i p.orders)) [
  | inl gone ↦ rw (gone, overwrite) (same_when none gone refl)
  | inr (current, h) ↦
      rw (h, overwrite)
        (elim (Bool-cases (current == order)) [
          | inl same ↦
              rw same (same_when (some current) h (ap some (sym ((==_iff current order).0 same))))
          | inr other ↦ rw other (get-with_order i j order p.orders)
        ])
]
  where
    same_when :
        (o : Option ℕ)
        → get i p.orders ≡ o
        → map_value (λ _. order) o ≡ o
        → get j p.orders
          ≡ (if j == i then map_value (λ _. order) (get j p.orders) else get j p.orders)
    same_when o h fixed = elim (Bool-cases (j == i)) [
      | inl here ↦
          let found = subst (λ x. get x p.orders ≡ o) (sym ((==_iff j i).0 here)) h in
          rw (here, found) (sym fixed)
      | inr there ↦ rw there refl
    ]

pub overwrite-Keys :
    (i order : ℕ) (p : Progress) → Keys p.orders → Keys (overwrite (i, order) p).orders
unfolding overwrite
overwrite-Keys i order p k = elim (Option-cases (get i p.orders)) [
  | inl gone ↦ rw (gone, overwrite) k
  | inr (current, h) ↦
      rw (h, overwrite)
        (elim (Bool-cases (current == order)) [
          | inl same ↦ rw same k
          | inr other ↦ rw other (Keys-with_order i order p.orders k)
        ])
]

-- The orders of a list are ascending.
abbrev pub Ascending : Orders → Type 0
Ascending [] = Unit
Ascending (e ∷ orders) = All (λ f. e.1 ≤ f.1) orders × Ascending orders

-- An order that `new_orders` gives replaces the one that is there.
abbrev pub replaced : Option ℕ → Option ℕ → Option ℕ
replaced none current = current
replaced (some order) current = map_value (λ _. order) current

pub overwrite_all_lem :
    (new_orders : Orders) (p : Progress) (j : ℕ)
    → Keys new_orders
    → get j (overwrite_all new_orders p).orders ≡ replaced (get j new_orders) (get j p.orders)
unfolding overwrite_all
overwrite_all_lem [] p j k = refl
overwrite_all_lem ((i, order) ∷ rest) p j k = elim (Bool-cases (i == j)) [
  | inl hit ↦
      let here = (==_iff i j).0 hit in
      rw
        (
          overwrite_all_lem rest (overwrite (i, order) p) j k.1,
          hit,
          get-overwrite i order p j,
          subst (λ x. get x rest ≡ none) here k.0,
          subst (λ x. (x == i) ≡ true) here ((==_iff i i).1 refl),
        )
        refl
  | inr miss ↦
      rw
        (
          overwrite_all_lem rest (overwrite (i, order) p) j k.1,
          miss,
          get-overwrite i order p j,
          turned i j miss,
        )
        refl
]
  where
    turned : (a b : ℕ) → (a == b) ≡ false → (b == a) ≡ false
    turned a b h = ground arith

pub overwrite_all-Keys :
    (new_orders : Orders) (p : Progress) → Keys p.orders → Keys (overwrite_all new_orders p).orders
unfolding overwrite_all
overwrite_all-Keys [] p k = k
overwrite_all-Keys ((i, order) ∷ rest) p k =
    overwrite_all-Keys rest (overwrite (i, order) p) (overwrite-Keys i order p k)

pub make_rooms-Keys :
    (new_orders : Orders) (p : Progress) → Keys p.orders → Keys (make_rooms new_orders p).orders
unfolding make_rooms
make_rooms-Keys [] p k = k
make_rooms-Keys ((i, order) ∷ rest) p k =
    make_rooms-Keys rest (make_room (i, order) p) (make_room-Keys i order p k)
