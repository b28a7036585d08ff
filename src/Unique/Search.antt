-- ===== src/Unique/Search.antt =====
-- The loop that tries one number after the other, and how many it has to try.
use taiga_back_schedule_mana.Base.{
  ℕ, zero, suc, ◌+◌, ◌≤◌, ◌<◌, ◌≡◌, ◌≢◌, refl, sym, ◌∙◌, ap, Bool, true, false, ◌||◌, Option, none,
  some, List, [], ◌∷◌, length, any_of, if◌then◌else◌, Bool-cases, Option-cases, ◌⊎◌, inl, inr, ◌↔◌,
  arith,
}

-- The first number from `n` on that is not taken, within the rounds given.
unfoldable pub first_free : ℕ → (ℕ → Bool) → ℕ → Option ℕ
first_free zero taken n = none
first_free (suc rounds) taken n = if taken n then first_free rounds taken (n + 1) else some n

pub first_free-least :
    (rounds : ℕ) (taken : ℕ → Bool) (n m : ℕ)
    → first_free rounds taken n ≡ some m
    → (n ≤ m) × (taken m ≡ false) × ((i : ℕ) → n ≤ i → i < m → taken i ≡ true)
unfolding first_free
first_free-least zero taken n m h = absurd (gone h)
  where
    gone : none ≡ some m → ⊥
    gone e = cc
first_free-least (suc rounds) taken n m h = elim (Bool-cases (taken n)) [
  | inl busy ↦
      let next = sym (ap (λ b. if b then first_free rounds taken (n + 1) else some n) busy) ∙ h in
      let (low, free, between) = first_free-least rounds taken (n + 1) m next in
      (
        omega (arith, low),
        free,
        λ i l u. elim (first_or_later n i l) [
          | inl same ↦ ap taken (sym same) ∙ busy
          | inr later ↦ between i later u
        ],
      )
  | inr free ↦
      let same =
        inside (sym (ap (λ b. if b then first_free rounds taken (n + 1) else some n) free) ∙ h) in
      (omega (arith, same), ap taken (sym same) ∙ free, λ i l u. absurd (nothing n m i same l u))
]
  where
    inside : some n ≡ some m → n ≡ m
    inside e = cc

    first_or_later : (a i : ℕ) → a ≤ i → (a ≡ i) ⊎ (a + 1 ≤ i)
    first_or_later a i l = ground arith

    nothing : (a b i : ℕ) → a ≡ b → a ≤ i → i < b → ⊥
    nothing a b i e l u = omega arith

first_free-none :
    (rounds : ℕ) (taken : ℕ → Bool) (n : ℕ)
    → first_free rounds taken n ≡ none
    → (i : ℕ) → i < rounds
    → taken (i + n) ≡ true
unfolding first_free
first_free-none zero taken n h i l = absurd (nothing i l)
  where
    nothing : (i : ℕ) → i < 0 → ⊥
    nothing i l = omega arith
first_free-none (suc rounds) taken n h i l = elim (Bool-cases (taken n)) [
  | inl busy ↦
      let rest =
        first_free-none rounds taken (n + 1)
          (sym (ap (λ b. if b then first_free rounds taken (n + 1) else some n) busy) ∙ h) in
      at i l busy rest
  | inr free ↦
      absurd
        (found (sym (ap (λ b. if b then first_free rounds taken (n + 1) else some n) free) ∙ h))
]
  where
    found : some n ≡ none → ⊥
    found e = cc

    shift : (j : ℕ) → j + (n + 1) ≡ suc j + n
    shift j = omega arith

    plain : 0 + n ≡ n
    plain = omega arith

    at :
        (i : ℕ)
        → i < suc rounds
        → taken n ≡ true
        → ((j : ℕ) → j < rounds → taken (j + (n + 1)) ≡ true)
        → taken (i + n) ≡ true
    at zero l busy rest = ap taken plain ∙ busy
    at (suc j) l busy rest = ap taken (sym (shift j)) ∙ rest j (omega (arith, l))

module _ {ℓ} {A : Type ℓ} (same : A → A → Bool) where
  abbrev pub is_in : A → List A → Bool
  is_in a xs = any_of (same a) xs

  abbrev remove : A → List A → List A
  remove a [] = []
  remove a (x ∷ xs) = if same a x then xs else x ∷ remove a xs

  length-remove : (a : A) (xs : List A) → is_in a xs ≡ true → length xs ≡ suc (length (remove a xs))
  length-remove a [] h = absurd (no h)
    where
      no : false ≡ true → ⊥
      no e = cc
  length-remove a (x ∷ xs) h = elim (Bool-cases (same a x)) [
    | inl here ↦ rw here refl
    | inr there ↦ rw there (ap suc (length-remove a xs (rest (same a x) (is_in a xs) there h)))
  ]
    where
      rest : (p q : Bool) → p ≡ false → (p || q) ≡ true → q ≡ true
      rest p q m o = ground arith

module _ {ℓ} {A : Type ℓ} (same : A → A → Bool)
    (same_iff : (a b : A) → (same a b ≡ true) ↔ (a ≡ b)) where
  is_in-remove :
      (a b : A) (xs : List A)
      → b ≢ a
      → is_in same b xs ≡ true
      → is_in same b (remove same a xs) ≡ true
  is_in-remove a b [] other h = h
  is_in-remove a b (x ∷ xs) other h = elim (Bool-cases (same a x)) [
    | inl here ↦ rw here (elim (Bool-cases (same b x)) [
      | inl also ↦ absurd (other ((same_iff b x).0 also ∙ sym ((same_iff a x).0 here)))
      | inr apart ↦ rest (same b x) (is_in same b xs) apart h
    ])
    | inr there ↦ rw there (elim (Bool-cases (same b x)) [
      | inl also ↦ rw also refl
      | inr apart ↦ rw apart (is_in-remove a b xs other (rest (same b x) (is_in same b xs) apart h))
    ])
  ]
    where
      rest : (p q : Bool) → p ≡ false → (p || q) ≡ true → q ≡ true
      rest p q m o = ground arith

  -- Different names that are all in a list are no more than the list has entries.
  pigeonhole :
      (name : ℕ → A)
      → ((i j : ℕ) → name i ≡ name j → i ≡ j)
      → (m : ℕ) (xs : List A) → ((i : ℕ) → i < m → is_in same (name i) xs ≡ true)
      → m ≤ length xs
  pigeonhole name different zero xs h = omega arith
  pigeonhole name different (suc m) xs h =
      let fewer =
        pigeonhole (λ i. name (suc i)) (λ i j e. omega (arith, different (suc i) (suc j) e)) m
          (remove same (name 0) xs)
          (λ i l.
            is_in-remove (name 0) (name (suc i)) xs (λ e. absurd (apart i (different (suc i) 0 e)))
              (h (suc i) (omega (arith, l)))) in
      omega (arith, fewer, length-remove same (name 0) xs (h 0 (omega arith)))
    where
      apart : (i : ℕ) → suc i ≡ 0 → ⊥
      apart i e = omega arith

  -- With one round more than the list has entries the loop finds a name that is not in it.
  pub first_free-found :
      (name : ℕ → A)
      → ((i j : ℕ) → name i ≡ name j → i ≡ j)
      → (xs : List A) (n rounds : ℕ) → length xs < rounds
      → (m : ℕ) × (first_free rounds (λ i. is_in same (name i) xs) n ≡ some m)
  first_free-found name different xs n rounds l =
      elim (Option-cases (first_free rounds (λ i. is_in same (name i) xs) n)) [
        | inl gone ↦ absurd (
            many rounds l (
              pigeonhole (λ i. name (i + n)) (λ i j e. omega (arith, different (i + n) (j + n) e))
                rounds xs (first_free-none rounds (λ i. is_in same (name i) xs) n gone)))
        | inr found ↦ found
      ]
    where
      many : (r : ℕ) → length xs < r → r ≤ length xs → ⊥
      many r h k = omega arith
