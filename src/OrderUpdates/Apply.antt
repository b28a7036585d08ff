-- ===== src/OrderUpdates/Apply.antt =====
-- `apply_order_updates`. A dictionary of orders is the list of its items. An order is a number from 0
-- on; the source compares orders and adds 1.
use taiga_back_schedule_mana.Base.{
  ℕ, ◌+◌, Bool, false, ◌&&◌, ◌||◌, not, Option, none, some, is_some, List, [], ◌∷◌, ◌++◌, map, keep,
  first, contains, ltb, leb, ◌==◌, sort_by, if◌then◌else◌,
}

abbrev pub Orders : Type 0
Orders = List (ℕ × ℕ)

abbrev pub value_of : Option (ℕ × ℕ) → Option ℕ
value_of none = none
value_of (some e) = some e.1

-- `orders.get(id)`
abbrev pub get : ℕ → Orders → Option ℕ
get i orders = value_of (first (λ e. e.0 == i) orders)

-- `invalid_keys` are removed.
unfoldable pub known_orders : Orders → Orders → Orders
known_orders base_orders new_orders = keep (λ e. is_some (get e.0 base_orders)) new_orders

abbrev pub is_moving : ℕ → ℕ → ℕ → Bool
is_moving old_order new_order order =
    (leb new_order old_order && (leb new_order order && ltb order old_order))
    || (leb old_order new_order && leb new_order order)

-- The order of an element when another one moves from `old_order` to `new_order`.
abbrev pub bumped : ℕ → ℕ → ℕ → ℕ
bumped old_order new_order order = if is_moving old_order new_order order then order + 1 else order

-- `base_orders` and `updated_order_ids`.
pub record Progress : Type 0 where
  pub orders : Orders
  pub updated : List ℕ

abbrev pub ids_of : Orders → List ℕ
ids_of orders = map (λ e. e.0) orders

-- One round of the first loop.
unfoldable pub make_room : ℕ × ℕ → Progress → Progress
make_room (i, new_order) p = elim (get i p.orders) [
  | none ↦ p
  | some old_order ↦ record {
    orders = map (λ e. (e.0, bumped old_order new_order e.1)) p.orders;
    updated = ids_of (keep (λ e. is_moving old_order new_order e.1) p.orders) ++ p.updated;
  }
]

unfoldable pub make_rooms : Orders → Progress → Progress
make_rooms [] p = p
make_rooms (e ∷ rest) p = make_rooms rest (make_room e p)

abbrev pub with_order : ℕ → ℕ → Orders → Orders
with_order i order orders = map (λ e. if e.0 == i then (e.0, order) else e) orders

-- One round of the second loop.
unfoldable pub overwrite : ℕ × ℕ → Progress → Progress
overwrite (i, order) p = elim (get i p.orders) [
  | none ↦ p
  | some current ↦
      if current == order
      then p
      else record { orders = with_order i order p.orders; updated = i ∷ p.updated }
]

unfoldable pub overwrite_all : Orders → Progress → Progress
overwrite_all [] p = p
overwrite_all (e ∷ rest) p = overwrite_all rest (overwrite e p)

-- `sorted(…, key=lambda e: e[1])`
abbrev pub by_order : Orders → Orders
by_order orders = sort_by (λ a b. leb a.1 b.1) orders

unfoldable pub progress_of : Orders → Orders → Progress
progress_of base_orders new_orders =
    let known = known_orders base_orders new_orders in
    overwrite_all known
      (make_rooms (by_order known) (record { orders = base_orders; updated = [] }))

-- Whether the order of an element is the one that it had.
abbrev pub unchanged : Orders → ℕ × ℕ → Bool
unchanged original_orders e = elim (get e.0 original_orders) [
  | none ↦ false
  | some order ↦ order == e.1
]

-- What `base_orders` holds after the call.
unfoldable pub apply_order_updates : Orders → Orders → Bool → Orders
apply_order_updates base_orders new_orders remove_equal_original =
    let p = progress_of base_orders new_orders in
    let modified = keep (λ e. contains e.0 p.updated) p.orders in
    if remove_equal_original then keep (λ e. not (unchanged base_orders e)) modified else modified
