-- ===== src/OrderUpdates/Keeping.antt =====
-- The first loop of `apply_order_updates`: the elements whose round is to come and those that no round moves keep their order.
use taiga_back_schedule_mana.Base.{
  ℕ, ◌≤◌, ◌<◌, ◌≡◌, ◌≢◌, refl, sym, ◌∙◌, ap, false, none, some, [], ◌∷◌, ◌==◌, ==_iff, All,
  Option-cases, ◌⊎◌, inl, inr, arith,
}
use taiga_back_schedule_mana.OrderUpdates.Apply.{
  Orders, get, Progress, bumped, make_room, make_rooms,
}
use taiga_back_schedule_mana.OrderUpdates.Maps.{map_value, Keys}
use taiga_back_schedule_mana.OrderUpdates.Shifts.{MovesBy, make_room-MovesBy, make_room_unknown}

-- Two keys have different orders.
abbrev pub Distinct : Orders → Type 0
Distinct orders = (j k n : ℕ) → get j orders ≡ some n → get k orders ≡ some n → j ≡ k

abbrev pub Given : Orders → ℕ → Type 0
Given orders i = (n : ℕ) × (get i orders ≡ some n)

-- No round has moved the element yet.
abbrev pub Alive : Orders → Orders → ℕ → Type 0
Alive new_orders pending j = (get j new_orders ≡ none) ⊎ Given pending j

abbrev pub Ordered : Orders → ℕ → ℕ → Type 0
Ordered orders j k = (a b : ℕ) × (get j orders ≡ some a) × (get k orders ≡ some b) × (a < b)

abbrev pub Kept : Orders → Orders → Orders → Progress → Type 0
Kept base new_orders pending p =
    (j k : ℕ)
    → Alive new_orders pending j
    → Alive new_orders pending k
    → Ordered base j k
    → Ordered p.orders j k

abbrev pub Known : Orders → Orders → Orders → Type 0
Known base new_orders pending = All (λ e. Given base e.0 × Given new_orders e.0) pending

pub some_injective : (a b : ℕ) → some a ≡ some b → a ≡ b
some_injective a b h = cc

pub three : (a b : ℕ) → (a < b) ⊎ ((b < a) ⊎ (a ≡ b))
three a b = ground arith

-- The element of a round has another order than those that are alive after it.
moved_apart :
    (base new_orders rest : Orders) (i order j old n : ℕ) (p : Progress)
    → Distinct base
    → Kept base new_orders ((i, order) ∷ rest) p
    → Given base i
    → Alive new_orders ((i, order) ∷ rest) j
    → Given base j
    → j ≢ i
    → get i p.orders ≡ some old
    → get j p.orders ≡ some n
    → n ≢ old
moved_apart base new_orders rest i order j old n p distinct kept (c, hc) alive (a, ha) other ho hn
      same =
    elim (three a c) [
      | inl before ↦ meet (kept j i alive (inr here) (a, c, ha, hc, before))
      | inr (inl after) ↦ meet_back (kept i j (inr here) alive (c, a, hc, ha, after))
      | inr (inr equal) ↦ other (distinct j i a ha (hc ∙ ap some (sym equal)))
    ]
  where
    here : Given ((i, order) ∷ rest) i
    here = (order, rw ((==_iff i i).1 refl) refl)

    meet : Ordered p.orders j i → ⊥
    meet (x, y, hx, hy, less) =
        clash x y less (some_injective x n (sym hx ∙ hn)) (some_injective y old (sym hy ∙ ho))
      where
        clash : (x y : ℕ) → x < y → x ≡ n → y ≡ old → ⊥
        clash x y l e f = omega arith

    meet_back : Ordered p.orders i j → ⊥
    meet_back (y, x, hy, hx, less) =
        clash x y less (some_injective x n (sym hx ∙ hn)) (some_injective y old (sym hy ∙ ho))
      where
        clash : (x y : ℕ) → y < x → x ≡ n → y ≡ old → ⊥
        clash x y l e f = omega arith

bumped_ordered :
    (old order a b : ℕ) → a ≢ old → b ≢ old → a < b → bumped old order a < bumped old order b
bumped_ordered old order a b h k l = ground arith

pub bumped_clears : (old order n : ℕ) → bumped old order n ≢ order
bumped_clears old order n h = ground arith

pub bumped_stays_clear :
    (old later order n : ℕ) → order ≤ later → n ≢ order → bumped old later n ≢ order
bumped_stays_clear old later order n l h k = ground arith

pub bumped_grows : (old order n : ℕ) → n ≤ bumped old order n
bumped_grows old order n = ground arith

-- Who is alive after a round was so before it and is not the element of the round.
Alive-before :
    (new_orders rest : Orders) (i order j : ℕ)
    → Keys ((i, order) ∷ rest)
    → Given new_orders i
    → Alive new_orders rest j
    → Alive new_orders ((i, order) ∷ rest) j × (j ≢ i)
Alive-before new_orders rest i order j k (o, ho) (inl unmoved) = (inl unmoved, other)
  where
    other : j ≢ i
    other same = absurd (gone (sym unmoved ∙ (ap (λ x. get x new_orders) same ∙ ho)))
      where
        gone : none ≡ some o → ⊥
        gone e = cc
Alive-before new_orders rest i order j k (o, ho) (inr (n, hn)) =
    (inr (n, rw (parted i j other) hn), other)
  where
    other : j ≢ i
    other same = absurd (gone (sym k.0 ∙ (ap (λ x. get x rest) (sym same) ∙ hn)))
      where
        gone : none ≡ some n → ⊥
        gone e = cc

    parted : (a b : ℕ) → b ≢ a → (a == b) ≡ false
    parted a b h = ground arith

pub moved_to :
    (f : ℕ → ℕ) (before after : Orders) (j n : ℕ)
    → MovesBy f before after
    → get j before ≡ some n
    → get j after ≡ some (f n)
moved_to f before after j n moves h = moves j ∙ ap (map_value f) h

make_room-Kept :
    (base new_orders rest : Orders) (i order : ℕ) (p : Progress)
    → Distinct base
    → Keys ((i, order) ∷ rest)
    → Given base i
    → Given new_orders i
    → Kept base new_orders ((i, order) ∷ rest) p
    → Kept base new_orders rest (make_room (i, order) p)
make_room-Kept base new_orders rest i order p distinct keys known given kept j k aj ak
      (a, b, ha, hb, less) =
    let (lj, nj) = Alive-before new_orders rest i order j keys given aj in
    let (lk, nk) = Alive-before new_orders rest i order k keys given ak in
    let (x, y, hx, hy, before) = kept j k lj lk (a, b, ha, hb, less) in
    elim (Option-cases (get i p.orders)) [
      | inl gone ↦ rw (make_room_unknown i order p gone) (x, y, hx, hy, before)
      | inr (old, ho) ↦
          let moves = make_room-MovesBy i order old p ho in
          (
            bumped old order x,
            bumped old order y,
            moved_to (bumped old order) p.orders (make_room (i, order) p).orders j x moves hx,
            moved_to (bumped old order) p.orders (make_room (i, order) p).orders k y moves hy,
            bumped_ordered old order x y
                (moved_apart base new_orders rest i order j old x p distinct kept known lj (a, ha)
                  nj ho hx)
                (moved_apart base new_orders rest i order k old y p distinct kept known lk (b, hb)
                  nk ho hy)
                before,
          )
    ]

pub make_rooms-Kept :
    (base new_orders pending : Orders) (p : Progress)
    → Distinct base
    → Keys pending
    → Known base new_orders pending
    → Kept base new_orders pending p
    → Kept base new_orders [] (make_rooms pending p)
unfolding make_rooms
make_rooms-Kept base new_orders [] p distinct keys known kept = kept
make_rooms-Kept base new_orders ((i, order) ∷ rest) p distinct keys known kept =
    make_rooms-Kept base new_orders rest (make_room (i, order) p) distinct keys.1 known.1
      (make_room-Kept base new_orders rest i order p distinct keys known.0.0 known.0.1 kept)
