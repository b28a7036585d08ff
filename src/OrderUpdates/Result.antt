-- ===== src/OrderUpdates/Result.antt =====
-- The orders that `apply_order_updates` leaves are different.
use taiga_back_schedule_mana.Base.{
  ℕ, ◌≤◌, ◌<◌, ◌≡◌, ◌≢◌, sym, ◌∙◌, ap, Bool, Option, none, some, All-map, Option-cases, inl, inr,
  arith,
}
use taiga_back_schedule_mana.OrderUpdates.Apply.{Orders, get, by_order, known_orders}
use taiga_back_schedule_mana.OrderUpdates.Maps.{Keys}
use taiga_back_schedule_mana.OrderUpdates.Keeping.{some_injective, three, Distinct, Given}
use taiga_back_schedule_mana.OrderUpdates.Rounds.{IsFree, make_rooms-IsFree}
use taiga_back_schedule_mana.OrderUpdates.Sorting.{
  get-by_order, by_order-Ascending, get-known_orders, known_orders-Keys,
}
use taiga_back_schedule_mana.OrderUpdates.Moved.{
  order_after, start, rooms, rooms-Reaches, unmoved_order, apply_order_updates-moved,
  known_orders-Known, apply_order_updates-unmoved,
}

rooms-IsFree :
    (base new_orders : Orders) (i order b : ℕ)
    → Keys new_orders
    → get i base ≡ some b
    → get i new_orders ≡ some order
    → IsFree (rooms base new_orders).orders order
rooms-IsFree base new_orders i order b kn hb hn =
    let known = known_orders base new_orders in
    make_rooms-IsFree (by_order known) (start base) (by_order-Ascending known)
      (All-map {P = λ e. Given base e.0 × Given new_orders e.0} {Q = λ e. Given base e.0}
        (by_order known) (λ e g. g.0) (known_orders-Known base new_orders kn))
      i order
      (get-by_order i known (known_orders-Keys base new_orders kn)
        ∙ get-known_orders base new_orders i order b kn hn hb)

-- An element that is not moved has another order than one that is.
unmoved_apart :
    (base new_orders : Orders) (r : Bool) (j k a b n order : ℕ)
    → Keys base
    → Keys new_orders
    → get j base ≡ some a
    → get k base ≡ some b
    → get j new_orders ≡ none
    → get k new_orders ≡ some order
    → order_after base new_orders r j ≡ some n
    → order_after base new_orders r k ≡ some n
    → ⊥
unmoved_apart base new_orders r j k a b n order kb kn hj hk nj nk aj ak =
    let (x, hx, l) = rooms-Reaches base new_orders j a hj in
    let at_x = some_injective x n (sym (unmoved_order base new_orders r j x kb kn nj hx) ∙ aj) in
    let at_order =
      some_injective order n
        (sym (apply_order_updates-moved base new_orders r k order b kb kn hk nk) ∙ ak) in
    rooms-IsFree base new_orders k order b kn hk nk j (hx ∙ ap some (at_x ∙ sym at_order))

same_order_same_element :
    (base_orders new_orders : Orders) (remove_equal_original : Bool) (j k a b n : ℕ)
    → Keys base_orders
    → Keys new_orders
    → Distinct base_orders
    → Distinct new_orders
    → get j base_orders ≡ some a
    → get k base_orders ≡ some b
    → order_after base_orders new_orders remove_equal_original j ≡ some n
    → order_after base_orders new_orders remove_equal_original k ≡ some n
    → j ≡ k
same_order_same_element base new_orders r j k a b n kb kn db dn hj hk aj ak =
    elim (Option-cases (get j new_orders)) [
      | inl nj ↦ elim (Option-cases (get k new_orders)) [
        | inl nk ↦ elim (three a b) [
          | inl less ↦ absurd (
              strict
                (apply_order_updates-unmoved base new_orders r j k a b kb kn db hj hk nj nk less) aj
                ak)
          | inr (inl more) ↦ absurd (
              strict
                (apply_order_updates-unmoved base new_orders r k j b a kb kn db hk hj nk nj more) ak
                aj)
          | inr (inr equal) ↦ db j k a hj (hk ∙ ap some (sym equal))
        ]
        | inr (o, hk') ↦
            absurd (unmoved_apart base new_orders r j k a b n o kb kn hj hk nj hk' aj ak)
      ]
      | inr (o, hj') ↦ elim (Option-cases (get k new_orders)) [
        | inl nk ↦ absurd (unmoved_apart base new_orders r k j b a n o kb kn hk hj nk hj' ak aj)
        | inr (q, hk') ↦
            let same_o =
              some_injective o n
                (sym (apply_order_updates-moved base new_orders r j o a kb kn hj hj') ∙ aj) in
            let same_q =
              some_injective q n
                (sym (apply_order_updates-moved base new_orders r k q b kb kn hk hk') ∙ ak) in
            dn j k o hj' (hk' ∙ ap some (same_q ∙ sym same_o))
      ]
    ]
  where
    strict :
        {p q : Option ℕ} {c d : ℕ}
        → (x y : ℕ) × (p ≡ some x) × (q ≡ some y) × (c ≤ x) × (d ≤ y) × (x < y)
        → p ≡ some n
        → q ≡ some n
        → ⊥
    strict (x, y, hx, hy, lc, ld, less) hp hq =
        clash x y less (some_injective x n (sym hx ∙ hp)) (some_injective y n (sym hy ∙ hq))
      where
        clash : (x y : ℕ) → x < y → x ≡ n → y ≡ n → ⊥
        clash x y l e f = omega arith

has_order :
    (base new_orders : Orders) (r : Bool) (j a : ℕ)
    → Keys base
    → Keys new_orders
    → get j base ≡ some a
    → (n : ℕ) × (order_after base new_orders r j ≡ some n)
has_order base new_orders r j a kb kn hj = elim (Option-cases (get j new_orders)) [
  | inl unmoved ↦
      let (x, hx, l) = rooms-Reaches base new_orders j a hj in
      (x, unmoved_order base new_orders r j x kb kn unmoved hx)
  | inr (order, moved) ↦
      (order, apply_order_updates-moved base new_orders r j order a kb kn hj moved)
]

-- Where the orders of the elements are different and so are the new orders, two elements of the project have
-- different orders afterwards.
pub apply_order_updates-Distinct :
    (base_orders new_orders : Orders) (remove_equal_original : Bool) (j k a b : ℕ)
    → Keys base_orders
    → Keys new_orders
    → Distinct base_orders
    → Distinct new_orders
    → get j base_orders ≡ some a
    → get k base_orders ≡ some b
    → j ≢ k
    → order_after base_orders new_orders remove_equal_original j
      ≢ order_after base_orders new_orders remove_equal_original k
apply_order_updates-Distinct base new_orders r j k a b kb kn db dn hj hk other same =
    let (n, hn) = has_order base new_orders r j a kb kn hj in
    other (same_order_same_element base new_orders r j k a b n kb kn db dn hj hk hn (sym same ∙ hn))
