-- ===== src/OrderUpdates/Noted.antt =====
-- The set of the elements that `apply_order_updates` has changed.
use taiga_back_schedule_mana.Base.{
  ℕ, ◌≡◌, refl, sym, ◌∙◌, ap, Bool, true, false, ◌||◌, none, some, List, [], ◌∷◌, ◌++◌, map, keep,
  contains, ◌==◌, ==_iff, Bool-cases, Option-cases, inl, inr, arith,
}
use taiga_back_schedule_mana.OrderUpdates.Apply.{
  Orders, get, ids_of, Progress, is_moving, bumped, make_room, make_rooms, overwrite, with_order,
  overwrite_all,
}
use taiga_back_schedule_mana.OrderUpdates.Maps.{
  map_value, get-map, get-with_order, get_past, get_here,
}

-- An element that is not noted has the order that it had.
abbrev pub IsNoted : Orders → Progress → Type 0
IsNoted base p = (j : ℕ) → contains j p.updated ≡ false → get j p.orders ≡ get j base

contains-append :
    (j : ℕ) (xs ys : List ℕ) → contains j (xs ++ ys) ≡ (contains j xs || contains j ys)
contains-append j [] ys = refl
contains-append j (x ∷ xs) ys = ground (arith, contains-append j xs ys)

-- An entry whose key is not among those of the kept entries is not kept.
not_kept :
    (test : ℕ × ℕ → Bool) (j n : ℕ) (orders : Orders)
    → contains j (ids_of (keep test orders)) ≡ false
    → get j orders ≡ some n
    → test (j, n) ≡ false
not_kept test j n [] out h = absurd (gone h)
  where
    gone : none ≡ some n → ⊥
    gone e = cc
not_kept test j n ((i, m) ∷ orders) out h = elim (Bool-cases (i == j)) [
  | inl hit ↦
      let same = as_found ((==_iff i j).0 hit) (sym (get_here j (i, m) orders hit) ∙ h) in
      elim (Bool-cases (test (i, m))) [
        | inl kept ↦ absurd (noted i ((==_iff i j).0 hit) (sym (ids_kept kept) ∙ out))
        | inr left ↦ sym same ∙ left
      ]
  | inr miss ↦
      let rest = sym (get_past j (i, m) orders miss) ∙ h in
      elim (Bool-cases (test (i, m))) [
        | inl kept ↦
            not_kept test j n orders
              (second (j == i) (contains j (ids_of (keep test orders))) (sym (ids_kept kept) ∙ out))
              rest
        | inr left ↦ not_kept test j n orders (sym (ids_left left) ∙ out) rest
      ]
]
  where
    as_found : i ≡ j → some m ≡ some n → test (i, m) ≡ test (j, n)
    as_found p q = cc

    ids_kept :
        test (i, m) ≡ true
        → contains j (ids_of (keep test ((i, m) ∷ orders)))
          ≡ (j == i || contains j (ids_of (keep test orders)))
    ids_kept kept = rw kept refl

    ids_left :
        test (i, m) ≡ false
        → contains j (ids_of (keep test ((i, m) ∷ orders))) ≡ contains j (ids_of (keep test orders))
    ids_left left = rw left refl

    noted : (a : ℕ) → a ≡ j → (j == a || contains j (ids_of (keep test orders))) ≡ false → ⊥
    noted a e o = ground arith

    second : (a b : Bool) → (a || b) ≡ false → b ≡ false
    second a b o = ground arith

make_room-IsNoted :
    (base : Orders) (i order : ℕ) (p : Progress)
    → IsNoted base p
    → IsNoted base (make_room (i, order) p)
unfolding make_room
make_room-IsNoted base i order p noted = elim (Option-cases (get i p.orders)) [
  | inl gone ↦ rw (gone, make_room) noted
  | inr (old, ho) ↦ rw (ho, make_room) (noted_after old)
]
  where
    first_out : (a b : Bool) → (a || b) ≡ false → a ≡ false
    first_out a b o = ground arith

    second_out : (a b : Bool) → (a || b) ≡ false → b ≡ false
    second_out a b o = ground arith

    stays : (old n : ℕ) → is_moving old order n ≡ false → bumped old order n ≡ n
    stays old n h = rw h refl

    noted_after :
        (old j : ℕ)
        → contains j (ids_of (keep (λ e. is_moving old order e.1) p.orders) ++ p.updated) ≡ false
        → get j (map (λ e. (e.0, bumped old order e.1)) p.orders) ≡ get j base
    noted_after old j out =
        let moving = ids_of (keep (λ e. is_moving old order e.1) p.orders) in
        let both = sym (contains-append j moving p.updated) ∙ out in
        let here = noted j (second_out (contains j moving) (contains j p.updated) both) in
        get-map (bumped old order) j p.orders ∙ (elim (Option-cases (get j p.orders)) [
          | inl none_there ↦ rw none_there (sym none_there ∙ here)
          | inr (n, hn) ↦
              let still =
                not_kept (λ e. is_moving old order e.1) j n p.orders
                  (first_out (contains j moving) (contains j p.updated) both) hn in
              ap (map_value (bumped old order)) hn ∙ (ap some (stays old n still) ∙ (sym hn ∙ here))
        ])

pub make_rooms-IsNoted :
    (base pending : Orders) (p : Progress) → IsNoted base p → IsNoted base (make_rooms pending p)
unfolding make_rooms
make_rooms-IsNoted base [] p noted = noted
make_rooms-IsNoted base ((i, order) ∷ rest) p noted =
    make_rooms-IsNoted base rest (make_room (i, order) p) (make_room-IsNoted base i order p noted)

overwrite-IsNoted :
    (base : Orders) (i order : ℕ) (p : Progress)
    → IsNoted base p
    → IsNoted base (overwrite (i, order) p)
unfolding overwrite
overwrite-IsNoted base i order p noted = elim (Option-cases (get i p.orders)) [
  | inl gone ↦ rw (gone, overwrite) noted
  | inr (current, ho) ↦
      rw (ho, overwrite)
        (elim (Bool-cases (current == order)) [
          | inl same ↦ rw same noted
          | inr other ↦ rw other noted_after
        ])
]
  where
    noted_after :
        (j : ℕ)
        → (j == i || contains j p.updated) ≡ false
        → get j (with_order i order p.orders) ≡ get j base
    noted_after j out = elim (Bool-cases (j == i)) [
      | inl same ↦ absurd (missed (j == i) (contains j p.updated) same out)
      | inr other ↦
          rw (get-with_order i j order p.orders, other)
            (noted j (missing (j == i) (contains j p.updated) out))
    ]
      where
        missed : (a b : Bool) → a ≡ true → (a || b) ≡ false → ⊥
        missed a b h o = ground arith

        missing : (a b : Bool) → (a || b) ≡ false → b ≡ false
        missing a b o = ground arith

pub overwrite_all-IsNoted :
    (base new_orders : Orders) (p : Progress)
    → IsNoted base p
    → IsNoted base (overwrite_all new_orders p)
unfolding overwrite_all
overwrite_all-IsNoted base [] p noted = noted
overwrite_all-IsNoted base ((i, order) ∷ rest) p noted =
    overwrite_all-IsNoted base rest (overwrite (i, order) p)
      (overwrite-IsNoted base i order p noted)
