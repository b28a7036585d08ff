-- ===== src/OrderUpdates/Sorting.antt =====
-- The order in which `apply_order_updates` goes through the new orders.
use taiga_back_schedule_mana.Base.{
  ℕ, ◌≤◌, ◌≡◌, refl, sym, ◌∙◌, ap, true, false, none, some, [], ◌∷◌, leb, is_some, insert_sorted,
  ◌==◌, ==_iff, All, All-map, Bool-cases, Option-cases, inl, inr, if◌then◌else◌, arith,
}
use taiga_back_schedule_mana.OrderUpdates.Apply.{Orders, get, by_order, known_orders}
use taiga_back_schedule_mana.OrderUpdates.Maps.{
  Keys, Keys-keep, get-keep, get-keep_gone, get_past, get_here,
}
use taiga_back_schedule_mana.OrderUpdates.Shifts.{Ascending}

abbrev inserted : ℕ × ℕ → Orders → Orders
inserted e orders = insert_sorted (λ a b. leb a.1 b.1) e orders

-- Inserting an entry with a new key has the lookups of putting it in front.
get-inserted :
    (i : ℕ) (e : ℕ × ℕ) (orders : Orders)
    → get e.0 orders ≡ none
    → get i (inserted e orders) ≡ get i (e ∷ orders)
get-inserted i e [] fresh = refl
get-inserted i e (f ∷ orders) fresh = elim (Bool-cases (leb e.1 f.1)) [
  | inl front ↦ rw front refl
  | inr behind ↦ rw behind (elim (Bool-cases (f.0 == e.0)) [
    | inl same ↦ absurd (found (sym (get_here e.0 f orders same) ∙ fresh))
    | inr other ↦
        let rest = get-inserted i e orders (sym (get_past e.0 f orders other) ∙ fresh) in
        elim (Bool-cases (f.0 == i)) [
          | inl here ↦ rw (here, parted e.0 f.0 i other here) refl
          | inr there ↦ rw there rest
        ]
  ])
]
  where
    found : some f.1 ≡ none → ⊥
    found h = cc

    parted : (a b c : ℕ) → (b == a) ≡ false → (b == c) ≡ true → (a == c) ≡ false
    parted a b c h k = ground arith

inserted-Keys :
    (e : ℕ × ℕ) (orders : Orders) → get e.0 orders ≡ none → Keys orders → Keys (inserted e orders)
inserted-Keys e [] fresh k = (refl, tt)
inserted-Keys e (f ∷ orders) fresh k = elim (Bool-cases (leb e.1 f.1)) [
  | inl front ↦ rw front (fresh, k)
  | inr behind ↦ rw behind (elim (Bool-cases (f.0 == e.0)) [
    | inl same ↦ absurd (found (sym (get_here e.0 f orders same) ∙ fresh))
    | inr other ↦
        let apart = sym (get_past e.0 f orders other) ∙ fresh in
        (
          get-inserted f.0 e orders apart ∙ (get_past f.0 e orders (turned e.0 f.0 other) ∙ k.0),
          inserted-Keys e orders apart k.1,
        )
  ])
]
  where
    found : some f.1 ≡ none → ⊥
    found h = cc

    turned : (a b : ℕ) → (b == a) ≡ false → (a == b) ≡ false
    turned a b h = ground arith

inserted-All :
    (P : ℕ × ℕ → Type 0) (e : ℕ × ℕ) (orders : Orders)
    → P e
    → All P orders
    → All P (inserted e orders)
inserted-All P e [] h all = (h, tt)
inserted-All P e (f ∷ orders) h all = elim (Bool-cases (leb e.1 f.1)) [
  | inl front ↦ rw front (h, all)
  | inr behind ↦ rw behind (all.0, inserted-All P e orders h all.1)
]

inserted-Ascending :
    (e : ℕ × ℕ) (orders : Orders) → Ascending orders → Ascending (inserted e orders)
inserted-Ascending e [] up = (tt, tt)
inserted-Ascending e (f ∷ orders) up = elim (Bool-cases (leb e.1 f.1)) [
  | inl front ↦
      let least = below e.1 f.1 front in
      rw front (
        (
          least,
          All-map {P = λ g. f.1 ≤ g.1} {Q = λ g. e.1 ≤ g.1} orders
              (λ g l. further e.1 f.1 g.1 least l) up.0,
        ),
        up,
      )
  | inr behind ↦ rw behind (
    inserted-All (λ g. f.1 ≤ g.1) e orders (above e.1 f.1 behind) up.0,
    inserted-Ascending e orders up.1,
  )
]
  where
    below : (a b : ℕ) → leb a b ≡ true → a ≤ b
    below a b h = ground arith

    above : (a b : ℕ) → leb a b ≡ false → b ≤ a
    above a b h = ground arith

    further : (a b c : ℕ) → a ≤ b → b ≤ c → a ≤ c
    further a b c h k = omega arith

pub get-by_order : (i : ℕ) (orders : Orders) → Keys orders → get i (by_order orders) ≡ get i orders
get-by_order i [] k = refl
get-by_order i (e ∷ orders) k = elim (Bool-cases (e.0 == i)) [
  | inl here ↦
      get-inserted i e (by_order orders) (get-by_order e.0 orders k.1 ∙ k.0)
      ∙ (get_here i e (by_order orders) here ∙ sym (get_here i e orders here))
  | inr there ↦
      get-inserted i e (by_order orders) (get-by_order e.0 orders k.1 ∙ k.0)
      ∙ (get_past i e (by_order orders) there
          ∙ (get-by_order i orders k.1 ∙ sym (get_past i e orders there)))
]

pub by_order-Keys : (orders : Orders) → Keys orders → Keys (by_order orders)
by_order-Keys [] k = tt
by_order-Keys (e ∷ orders) k =
    inserted-Keys e (by_order orders) (get-by_order e.0 orders k.1 ∙ k.0) (by_order-Keys orders k.1)

pub by_order-All : (P : ℕ × ℕ → Type 0) (orders : Orders) → All P orders → All P (by_order orders)
by_order-All P [] all = tt
by_order-All P (e ∷ orders) all =
    inserted-All P e (by_order orders) all.0 (by_order-All P orders all.1)

pub by_order-Ascending : (orders : Orders) → Ascending (by_order orders)
by_order-Ascending [] = tt
by_order-Ascending (e ∷ orders) = inserted-Ascending e (by_order orders) (by_order-Ascending orders)

-- The keys that stay are those of `base_orders`.
pub get-known_orders :
    (base new_orders : Orders) (i n b : ℕ)
    → Keys new_orders
    → get i new_orders ≡ some n
    → get i base ≡ some b
    → get i (known_orders base new_orders) ≡ some n
unfolding known_orders
get-known_orders base new_orders i n b k h stored =
    get-keep (λ e. is_some (get e.0 base)) i n new_orders k h ∙ rw stored refl

pub get-known_orders_gone :
    (base new_orders : Orders) (i : ℕ)
    → get i new_orders ≡ none
    → get i (known_orders base new_orders) ≡ none
unfolding known_orders
get-known_orders_gone base new_orders i h =
    get-keep_gone (λ e. is_some (get e.0 base)) i new_orders h

pub known_orders-Keys :
    (base new_orders : Orders) → Keys new_orders → Keys (known_orders base new_orders)
unfolding known_orders
known_orders-Keys base new_orders k = Keys-keep (λ e. is_some (get e.0 base)) new_orders k

pub known_orders-Given :
    (base new_orders : Orders) (i n : ℕ)
    → Keys new_orders
    → get i (known_orders base new_orders) ≡ some n
    → (get i new_orders ≡ some n) × ((b : ℕ) × (get i base ≡ some b))
unfolding known_orders
known_orders-Given base new_orders i n k h = elim (Option-cases (get i new_orders)) [
  | inl gone ↦
      absurd (empty (sym (get-keep_gone (λ e. is_some (get e.0 base)) i new_orders gone) ∙ h))
  | inr (m, hm) ↦
      let kept = sym (get-keep (λ e. is_some (get e.0 base)) i m new_orders k hm) ∙ h in
      elim (Option-cases (get i base)) [
        | inl unknown ↦
            absurd (empty (sym (ap (λ x. if is_some x then some m else none) unknown) ∙ kept))
        | inr (b, hb) ↦
            (hm ∙ (sym (ap (λ x. if is_some x then some m else none) hb) ∙ kept), (b, hb))
      ]
]
  where
    empty : none ≡ some n → ⊥
    empty e = cc

-- What holds of each key holds of each entry.
pub All-entries :
    (P : ℕ → Type 0) (orders : Orders)
    → Keys orders
    → ((i n : ℕ) → get i orders ≡ some n → P i)
    → All (λ e. P e.0) orders
All-entries P [] k h = tt
All-entries P (e ∷ orders) k h =
    (h e.0 e.1 (get_here e.0 e orders ((==_iff e.0 e.0).1 refl)), All-entries P orders k.1 later)
  where
    later : (i n : ℕ) → get i orders ≡ some n → P i
    later i n found = elim (Bool-cases (e.0 == i)) [
      | inl same ↦
          absurd (gone (sym k.0 ∙ (ap (λ x. get x orders) ((==_iff e.0 i).0 same) ∙ found)))
      | inr other ↦ h i n (get_past i e orders other ∙ found)
    ]
      where
        gone : none ≡ some n → ⊥
        gone q = cc
