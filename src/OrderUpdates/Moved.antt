-- ===== src/OrderUpdates/Moved.antt =====
-- The orders that the caller writes, and those of the elements that are moved or not.
use taiga_back_schedule_mana.Base.{
  ℕ, ◌≤◌, ◌<◌, ◌≡◌, refl, sym, ◌∙◌, ap, subst, Bool, true, false, not, Option, none, some, or_else,
  [], keep, contains, ◌==◌, ==_iff, Bool-cases, Option-cases, inl, inr, if◌then◌else◌, arith,
}
use taiga_back_schedule_mana.OrderUpdates.Apply.{
  Orders, get, Progress, make_rooms, by_order, known_orders, progress_of, unchanged,
  apply_order_updates,
}
use taiga_back_schedule_mana.OrderUpdates.Maps.{map_value, Keys, Keys-keep, get-keep, get-keep_gone}
use taiga_back_schedule_mana.OrderUpdates.Shifts.{
  replaced, overwrite_all_lem, overwrite_all-Keys, make_rooms-Keys,
}
use taiga_back_schedule_mana.OrderUpdates.Keeping.{
  some_injective, Distinct, Given, Ordered, Known, make_rooms-Kept,
}
use taiga_back_schedule_mana.OrderUpdates.Rounds.{Reaches, make_rooms-Reaches}
use taiga_back_schedule_mana.OrderUpdates.Sorting.{
  by_order-Keys, by_order-All, get-known_orders, get-known_orders_gone, known_orders-Keys,
  known_orders-Given, All-entries,
}
use taiga_back_schedule_mana.OrderUpdates.Noted.{IsNoted, make_rooms-IsNoted, overwrite_all-IsNoted}

-- The order of an element once the caller has written the orders that are left.
abbrev pub order_after : Orders → Orders → Bool → ℕ → Option ℕ
order_after base_orders new_orders remove_equal_original i =
    or_else (get i (apply_order_updates base_orders new_orders remove_equal_original))
      (get i base_orders)

abbrev pub start : Orders → Progress
start base = record { orders = base; updated = [] }

progress_of-IsNoted : (base new_orders : Orders) → IsNoted base (progress_of base new_orders)
unfolding progress_of
progress_of-IsNoted base new_orders =
    let known = known_orders base new_orders in
    overwrite_all-IsNoted base known (make_rooms (by_order known) (start base))
      (make_rooms-IsNoted base (by_order known) (start base) (λ j out. refl))

progress_of-Keys :
    (base new_orders : Orders) → Keys base → Keys (progress_of base new_orders).orders
unfolding progress_of
progress_of-Keys base new_orders k =
    let known = known_orders base new_orders in
    overwrite_all-Keys known (make_rooms (by_order known) (start base))
      (make_rooms-Keys (by_order known) (start base) k)

-- The elements that are removed at the end are those whose order is the one that they had.
pub order_after_lem :
    (base new_orders : Orders) (remove_equal_original : Bool) (i n : ℕ)
    → Keys base
    → get i (progress_of base new_orders).orders ≡ some n
    → order_after base new_orders remove_equal_original i ≡ some n
unfolding apply_order_updates
order_after_lem base new_orders false i n k h =
    let p = progress_of base new_orders in
    let left =
      get-keep (λ e. contains e.0 p.updated) i n p.orders (progress_of-Keys base new_orders k) h in
    rw left (elim (Bool-cases (contains i p.updated)) [
      | inl noted ↦ rw noted refl
      | inr out ↦ rw out (sym (progress_of-IsNoted base new_orders i out) ∙ h)
    ])
order_after_lem base new_orders true i n k h =
    let p = progress_of base new_orders in
    let keys = progress_of-Keys base new_orders k in
    let modified = keep (λ e. contains e.0 p.updated) p.orders in
    let left = get-keep (λ e. contains e.0 p.updated) i n p.orders keys h in
    elim (Bool-cases (contains i p.updated)) [
      | inl noted ↦
          let there = left ∙ ap (λ x. if x then some n else none) noted in
          let last =
            get-keep (λ e. not (unchanged base e)) i n modified
              (Keys-keep (λ e. contains e.0 p.updated) p.orders keys) there in
          ap (λ x. or_else x (get i base)) last ∙ kept_or_same
      | inr out ↦
          let gone =
            get-keep_gone (λ e. not (unchanged base e)) i modified
              (left ∙ ap (λ x. if x then some n else none) out) in
          ap (λ x. or_else x (get i base)) gone
          ∙ (sym (progress_of-IsNoted base new_orders i out) ∙ h)
    ]
  where
    kept_or_same :
        or_else (if not (unchanged base (i, n)) then some n else none) (get i base) ≡ some n
    kept_or_same = elim (Option-cases (get i base)) [
      | inl none_there ↦ rw (none_there, unchanged) refl
      | inr (b, hb) ↦
          rw (hb, unchanged)
            (elim (Bool-cases (b == n)) [
              | inl same ↦ rw same (ap some ((==_iff b n).0 same))
              | inr other ↦ rw other refl
            ])
    ]

abbrev pub rooms : Orders → Orders → Progress
rooms base new_orders = make_rooms (by_order (known_orders base new_orders)) (start base)

progress_of_lem :
    (base new_orders : Orders) (i : ℕ)
    → Keys new_orders
    → get i (progress_of base new_orders).orders
      ≡ replaced (get i (known_orders base new_orders)) (get i (rooms base new_orders).orders)
unfolding progress_of
progress_of_lem base new_orders i k =
    overwrite_all_lem (known_orders base new_orders) (rooms base new_orders) i
      (known_orders-Keys base new_orders k)

pub rooms-Reaches :
    (base new_orders : Orders) (i n : ℕ)
    → get i base ≡ some n
    → Reaches (rooms base new_orders).orders i n
rooms-Reaches base new_orders i n h =
    make_rooms-Reaches (by_order (known_orders base new_orders)) i n (start base)
      (n, h, omega arith)

-- The element is not moved: the second loop leaves what the first one gives.
pub unmoved_order :
    (base new_orders : Orders) (remove_equal_original : Bool) (i n : ℕ)
    → Keys base
    → Keys new_orders
    → get i new_orders ≡ none
    → get i (rooms base new_orders).orders ≡ some n
    → order_after base new_orders remove_equal_original i ≡ some n
unmoved_order base new_orders r i n kb kn unmoved h = order_after_lem base new_orders r i n kb (
    progress_of_lem base new_orders i kn
    ∙ (ap (λ x. replaced x (get i (rooms base new_orders).orders))
          (get-known_orders_gone base new_orders i unmoved)
        ∙ h))

-- An element of the project that the new orders name ends at its new order.
pub apply_order_updates-moved :
    (base_orders new_orders : Orders) (remove_equal_original : Bool) (i order old_order : ℕ)
    → Keys base_orders
    → Keys new_orders
    → get i base_orders ≡ some old_order
    → get i new_orders ≡ some order
    → order_after base_orders new_orders remove_equal_original i ≡ some order
apply_order_updates-moved base new_orders r i order old kb kn hb hn =
    let (m, hm, l) = rooms-Reaches base new_orders i old hb in
    order_after_lem base new_orders r i order kb (
      progress_of_lem base new_orders i kn
      ∙ (ap (λ x. replaced x (get i (rooms base new_orders).orders))
            (get-known_orders base new_orders i order old kn hn hb)
          ∙ ap (map_value (λ _. order)) hm))

pub known_orders-Known :
    (base new_orders : Orders)
    → Keys new_orders
    → Known base new_orders (by_order (known_orders base new_orders))
known_orders-Known base new_orders k =
    let known = known_orders base new_orders in
    by_order-All (λ e. Given base e.0 × Given new_orders e.0) known
      (All-entries (λ i. Given base i × Given new_orders i) known
        (known_orders-Keys base new_orders k)
        (λ i n h.
          let (new, stored) = known_orders-Given base new_orders i n k h in (stored, (n, new))))

rooms-Ordered :
    (base new_orders : Orders) (j k : ℕ)
    → Distinct base
    → Keys new_orders
    → get j new_orders ≡ none
    → get k new_orders ≡ none
    → Ordered base j k
    → Ordered (rooms base new_orders).orders j k
rooms-Ordered base new_orders j k distinct kn hj hk before =
    let pending = by_order (known_orders base new_orders) in
    make_rooms-Kept base new_orders pending (start base) distinct
      (by_order-Keys (known_orders base new_orders) (known_orders-Keys base new_orders kn))
      (known_orders-Known base new_orders kn) (λ j k aj ak h. h) j k (inl hj) (inl hk) before

-- Where the orders of the elements are different, two elements that are not moved stay in their order,
-- and neither comes to an earlier order.
pub apply_order_updates-unmoved :
    (base_orders new_orders : Orders) (remove_equal_original : Bool) (j k a b : ℕ)
    → Keys base_orders
    → Keys new_orders
    → Distinct base_orders
    → get j base_orders ≡ some a
    → get k base_orders ≡ some b
    → get j new_orders ≡ none
    → get k new_orders ≡ none
    → a < b
    → (x y : ℕ) × (order_after base_orders new_orders remove_equal_original j ≡ some x)
      × (order_after base_orders new_orders remove_equal_original k ≡ some y)
      × (a ≤ x)
      × (b ≤ y)
      × (x < y)
apply_order_updates-unmoved base new_orders r j k a b kb kn distinct hj hk nj nk less =
    let (x, y, hx, hy, ordered) =
      rooms-Ordered base new_orders j k distinct kn nj nk (a, b, hj, hk, less) in
    let (x', hx', la) = rooms-Reaches base new_orders j a hj in
    let (y', hy', lb) = rooms-Reaches base new_orders k b hk in
    (
      x,
      y,
      unmoved_order base new_orders r j x kb kn nj hx,
      unmoved_order base new_orders r k y kb kn nk hy,
      subst (λ (n : ℕ). a ≤ n) (some_injective x' x (sym hx' ∙ hx)) la,
      subst (λ (n : ℕ). b ≤ n) (some_injective y' y (sym hy' ∙ hy)) lb,
      ordered,
    )
