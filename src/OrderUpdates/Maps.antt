-- ===== src/OrderUpdates/Maps.antt =====
-- Lookups in the dictionaries that `apply_order_updates` goes through.
use taiga_back_schedule_mana.Base.{
  ℕ, ◌≡◌, refl, sym, ◌∙◌, subst, Bool, true, false, Option, none, some, [], ◌∷◌, map, keep, ◌==◌,
  ==_iff, Bool-cases, inl, inr, if◌then◌else◌, arith,
}
use taiga_back_schedule_mana.OrderUpdates.Apply.{Orders, get, with_order}

abbrev pub map_value : (ℕ → ℕ) → Option ℕ → Option ℕ
map_value f none = none
map_value f (some n) = some (f n)

-- No key comes twice.
abbrev pub Keys : Orders → Type 0
Keys [] = Unit
Keys (e ∷ orders) = (get e.0 orders ≡ none) × Keys orders

pub get-map :
    (f : ℕ → ℕ) (i : ℕ) (orders : Orders)
    → get i (map (λ e. (e.0, f e.1)) orders) ≡ map_value f (get i orders)
get-map f i [] = refl
get-map f i (e ∷ orders) = elim (Bool-cases (e.0 == i)) [
  | inl hit ↦ rw hit refl
  | inr miss ↦ rw miss (get-map f i orders)
]

pub get-with_order :
    (i j order : ℕ) (orders : Orders)
    → get j (with_order i order orders)
      ≡ (if j == i then map_value (λ _. order) (get j orders) else get j orders)
get-with_order i j order [] = elim (Bool-cases (j == i)) [
  | inl same ↦ rw same refl
  | inr other ↦ rw other refl
]
get-with_order i j order (e ∷ orders) = elim (Bool-cases (e.0 == i)) [
  | inl hit ↦ elim (Bool-cases (e.0 == j)) [
    | inl here ↦ rw (hit, here, joined e.0 i j hit here) refl
    | inr there ↦ rw (hit, there) (get-with_order i j order orders)
  ]
  | inr miss ↦ elim (Bool-cases (e.0 == j)) [
    | inl here ↦ rw (miss, here, parted e.0 i j miss here) refl
    | inr there ↦ rw (miss, there) (get-with_order i j order orders)
  ]
]
  where
    joined : (a b c : ℕ) → (a == b) ≡ true → (a == c) ≡ true → (c == b) ≡ true
    joined a b c h k = ground arith

    parted : (a b c : ℕ) → (a == b) ≡ false → (a == c) ≡ true → (c == b) ≡ false
    parted a b c h k = ground arith

-- The entry of another key changes no lookup.
pub get_past :
    (i : ℕ) (e : ℕ × ℕ) (orders : Orders) → (e.0 == i) ≡ false → get i (e ∷ orders) ≡ get i orders
get_past i e orders miss = rw miss refl

pub get_here :
    (i : ℕ) (e : ℕ × ℕ) (orders : Orders) → (e.0 == i) ≡ true → get i (e ∷ orders) ≡ some e.1
get_here i e orders hit = rw hit refl

pub get-keep_gone :
    (test : ℕ × ℕ → Bool) (i : ℕ) (orders : Orders)
    → get i orders ≡ none
    → get i (keep test orders) ≡ none
get-keep_gone test i [] gone = refl
get-keep_gone test i (e ∷ orders) gone = elim (Bool-cases (e.0 == i)) [
  | inl hit ↦ absurd (found (sym (get_here i e orders hit) ∙ gone))
  | inr miss ↦ elim (Bool-cases (test e)) [
    | inl kept ↦ rw kept (
        get_past i e (keep test orders) miss
        ∙ get-keep_gone test i orders (sym (get_past i e orders miss) ∙ gone))
    | inr left ↦ rw left (get-keep_gone test i orders (sym (get_past i e orders miss) ∙ gone))
  ]
]
  where
    found : some e.1 ≡ none → ⊥
    found h = cc

-- A filter keeps the entry of a key or removes it.
pub get-keep :
    (test : ℕ × ℕ → Bool) (i n : ℕ) (orders : Orders)
    → Keys orders
    → get i orders ≡ some n
    → get i (keep test orders) ≡ (if test (i, n) then some n else none)
get-keep test i n [] k h = absurd (gone h)
  where
    gone : none ≡ some n → ⊥
    gone e = cc
get-keep test i n ((j, m) ∷ orders) k h = elim (Bool-cases (j == i)) [
  | inl hit ↦
      let same = as_found ((==_iff j i).0 hit) (sym (get_here i (j, m) orders hit) ∙ h) in
      elim (Bool-cases (test (j, m))) [
        | inl kept ↦
            rw (kept, sym same ∙ kept)
              (get_here i (j, m) (keep test orders) hit ∙ (sym (get_here i (j, m) orders hit) ∙ h))
        | inr left ↦
            rw (left, sym same ∙ left)
              (get-keep_gone test i orders
                (subst (λ x. get x orders ≡ none) ((==_iff j i).0 hit) k.0))
      ]
  | inr miss ↦
      let rest = get-keep test i n orders k.1 (sym (get_past i (j, m) orders miss) ∙ h) in
      elim (Bool-cases (test (j, m))) [
        | inl kept ↦ rw kept (get_past i (j, m) (keep test orders) miss ∙ rest)
        | inr left ↦ rw left rest
      ]
]
  where
    as_found : j ≡ i → some m ≡ some n → test (j, m) ≡ test (i, n)
    as_found p q = cc

pub Keys-keep : (test : ℕ × ℕ → Bool) (orders : Orders) → Keys orders → Keys (keep test orders)
Keys-keep test [] k = tt
Keys-keep test (e ∷ orders) k = elim (Bool-cases (test e)) [
  | inl kept ↦ rw kept (get-keep_gone test e.0 orders k.0, Keys-keep test orders k.1)
  | inr left ↦ rw left (Keys-keep test orders k.1)
]

pub Keys-map : (f : ℕ → ℕ) (orders : Orders) → Keys orders → Keys (map (λ e. (e.0, f e.1)) orders)
Keys-map f [] k = tt
Keys-map f (e ∷ orders) k = (rw (get-map f e.0 orders, k.0) refl, Keys-map f orders k.1)

pub Keys-with_order :
    (i order : ℕ) (orders : Orders) → Keys orders → Keys (with_order i order orders)
Keys-with_order i order [] k = tt
Keys-with_order i order (e ∷ orders) k = elim (Bool-cases (e.0 == i)) [
  | inl hit ↦ rw hit (unset e.0 k.0, Keys-with_order i order orders k.1)
  | inr miss ↦ rw miss (unset e.0 k.0, Keys-with_order i order orders k.1)
]
  where
    unset : (j : ℕ) → get j orders ≡ none → get j (with_order i order orders) ≡ none
    unset j gone = elim (Bool-cases (j == i)) [
      | inl same ↦ rw (get-with_order i j order orders, same, gone) refl
      | inr other ↦ rw (get-with_order i j order orders, other, gone) refl
    ]
