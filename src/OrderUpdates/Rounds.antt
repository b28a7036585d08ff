-- ===== src/OrderUpdates/Rounds.antt =====
-- The first loop of `apply_order_updates`: no order falls, and the place of a moved element becomes free.
use taiga_back_schedule_mana.Base.{
  ℕ, ◌≤◌, ◌≡◌, ◌≢◌, sym, ◌∙◌, ap, subst, none, some, [], ◌∷◌, ◌==◌, All, All-map, Bool-cases,
  Option-cases, ◌⊎◌, inl, inr, arith,
}
use taiga_back_schedule_mana.OrderUpdates.Apply.{
  Orders, get, Progress, bumped, make_room, make_rooms,
}
use taiga_back_schedule_mana.OrderUpdates.Maps.{map_value, get_past, get_here}
use taiga_back_schedule_mana.OrderUpdates.Shifts.{
  MovesBy, make_room-MovesBy, make_room_unknown, Ascending,
}
use taiga_back_schedule_mana.OrderUpdates.Keeping.{
  Given, some_injective, bumped_clears, bumped_stays_clear, bumped_grows, moved_to,
}

-- The round of another element.
make_room_cases :
    (i order : ℕ) (p : Progress)
    → (make_room (i, order) p ≡ p)
      ⊎ ((old : ℕ) × (get i p.orders ≡ some old)
          × MovesBy (bumped old order) p.orders (make_room (i, order) p).orders)
make_room_cases i order p = elim (Option-cases (get i p.orders)) [
  | inl gone ↦ inl (make_room_unknown i order p gone)
  | inr (old, ho) ↦ inr (old, ho, make_room-MovesBy i order old p ho)
]

abbrev pub Reaches : Orders → ℕ → ℕ → Type 0
Reaches orders j n = (m : ℕ) × (get j orders ≡ some m) × (n ≤ m)

make_room-Reaches :
    (i order j n : ℕ) (p : Progress)
    → Reaches p.orders j n
    → Reaches (make_room (i, order) p).orders j n
make_room-Reaches i order j n p (m, hm, l) = elim (make_room_cases i order p) [
  | inl same ↦ rw same (m, hm, l)
  | inr (old, ho, moves) ↦ (
    bumped old order m,
    moved_to (bumped old order) p.orders (make_room (i, order) p).orders j m moves hm,
    further n m (bumped old order m) l (bumped_grows old order m),
  )
]
  where
    further : (x y z : ℕ) → x ≤ y → y ≤ z → x ≤ z
    further x y z h k = omega arith

pub make_rooms-Reaches :
    (pending : Orders) (j n : ℕ) (p : Progress)
    → Reaches p.orders j n
    → Reaches (make_rooms pending p).orders j n
unfolding make_rooms
make_rooms-Reaches [] j n p h = h
make_rooms-Reaches ((i, order) ∷ rest) j n p h =
    make_rooms-Reaches rest j n (make_room (i, order) p) (make_room-Reaches i order j n p h)

abbrev pub IsFree : Orders → ℕ → Type 0
IsFree orders order = (j : ℕ) → get j orders ≢ some order

-- A function that reaches `order` from no order of the list frees it.
freed :
    (f : ℕ → ℕ) (before after : Orders) (order : ℕ)
    → MovesBy f before after
    → ((j n : ℕ) → get j before ≡ some n → f n ≢ order)
    → IsFree after order
freed f before after order moves avoids j h = elim (Option-cases (get j before)) [
  | inl gone ↦ absurd (empty (sym (moves j ∙ ap (map_value f) gone) ∙ h))
  | inr (n, hn) ↦
      avoids j n hn (some_injective (f n) order (sym (moves j ∙ ap (map_value f) hn) ∙ h))
]
  where
    empty : none ≡ some order → ⊥
    empty e = cc

make_room-IsFree :
    (i order old : ℕ) (p : Progress)
    → get i p.orders ≡ some old
    → IsFree (make_room (i, order) p).orders order
make_room-IsFree i order old p ho =
    freed (bumped old order) p.orders (make_room (i, order) p).orders order
      (make_room-MovesBy i order old p ho) (λ j n hn. bumped_clears old order n)

make_room-StaysFree :
    (i later order : ℕ) (p : Progress)
    → order ≤ later
    → IsFree p.orders order
    → IsFree (make_room (i, later) p).orders order
make_room-StaysFree i later order p l free = elim (make_room_cases i later p) [
  | inl same ↦ rw same free
  | inr (old, ho, moves) ↦
      freed (bumped old later) p.orders (make_room (i, later) p).orders order moves
        (λ j n hn. bumped_stays_clear old later order n l (λ e. free j (hn ∙ ap some e)))
]

make_rooms-StaysFree :
    (pending : Orders) (order : ℕ) (p : Progress)
    → All (λ e. order ≤ e.1) pending
    → IsFree p.orders order
    → IsFree (make_rooms pending p).orders order
unfolding make_rooms
make_rooms-StaysFree [] order p l free = free
make_rooms-StaysFree ((i, later) ∷ rest) order p l free =
    make_rooms-StaysFree rest order (make_room (i, later) p) l.1
      (make_room-StaysFree i later order p l.0 free)

pub make_rooms-IsFree :
    (pending : Orders) (p : Progress)
    → Ascending pending
    → All (λ e. Given p.orders e.0) pending
    → (i order : ℕ) → get i pending ≡ some order
    → IsFree (make_rooms pending p).orders order
unfolding make_rooms
make_rooms-IsFree [] p up stored i order h = absurd (gone h)
  where
    gone : none ≡ some order → ⊥
    gone e = cc
make_rooms-IsFree ((j, later) ∷ rest) p up stored i order h = elim (Bool-cases (j == i)) [
  | inl hit ↦
      let same = some_injective later order (sym (get_here i (j, later) rest hit) ∙ h) in
      subst (λ (x : ℕ). IsFree (make_rooms rest (make_room (j, later) p)).orders x) same
        (make_rooms-StaysFree rest later (make_room (j, later) p) up.0
          (make_room-IsFree j later stored.0.0 p stored.0.1))
  | inr miss ↦
      make_rooms-IsFree rest (make_room (j, later) p) up.1
        (All-map {P = λ e. Given p.orders e.0} {Q = λ e. Given (make_room (j, later) p).orders e.0}
          rest (λ e g. given_after e.0 g) stored.1)
        i order (sym (get_past i (j, later) rest miss) ∙ h)
]
  where
    given_after : (k : ℕ) → Given p.orders k → Given (make_room (j, later) p).orders k
    given_after k (n, hn) =
        let (m, hm, l) = make_room-Reaches j later k n p (n, hn, omega arith) in (m, hm)
