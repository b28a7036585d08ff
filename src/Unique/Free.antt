-- ===== src/Unique/Free.antt =====
-- The slugs and references that the loops find.
use Prim.Native.Nat.{◌*◌, ◌/◌, ◌%◌}
use taiga_back_schedule_mana.Base.{
  ℕ, zero, suc, ◌+◌, ◌-◌, ◌≤◌, ◌<◌, ◌≡◌, refl, sym, ◌∙◌, ap, subst, Bool, true, false, ◌&&◌, some,
  List, [], ◌∷◌, ◌++◌, length, length-append, is_empty, ltb, ◌==◌, ==_iff, if◌then◌else◌,
  Bool-cases, ◌↔◌, inl, inr, arith,
}
use taiga_back_schedule_mana.Unique.Search.{is_in, first_free-least, first_free-found}
use taiga_back_schedule_mana.Unique.Slugs.{
  Text, same_text, digits, str, potential, null_text, hyphen, chosen, slugify_uniquely,
}
use taiga_back_schedule_mana.Unique.Refs.{Project, Item, refs_of, taken_by, ref_uniquely}

same_text_lem : (x y : Text) → same_text x y ≡ true → x ≡ y
same_text_lem [] [] h = refl
same_text_lem [] (d ∷ y) h = absurd (no h)
  where
    no : false ≡ true → ⊥
    no e = cc
same_text_lem (c ∷ x) [] h = absurd (no h)
  where
    no : false ≡ true → ⊥
    no e = cc
same_text_lem (c ∷ x) (d ∷ y) h =
    pair (first_part c d (same_text x y) h)
      (same_text_lem x y (second_part (c == d) (same_text x y) h))
  where
    first_part : (a b : ℕ) (r : Bool) → (a == b && r) ≡ true → a ≡ b
    first_part a b r e = ground arith

    second_part : (a b : Bool) → (a && b) ≡ true → b ≡ true
    second_part a b e = ground arith

    pair : c ≡ d → x ≡ y → c ∷ x ≡ d ∷ y
    pair p q = cc

pub same_text_self : (x : Text) → same_text x x ≡ true
same_text_self [] = refl
same_text_self (c ∷ x) = both c (same_text x x) (same_text_self x)
  where
    both : (a : ℕ) (r : Bool) → r ≡ true → (a == a && r) ≡ true
    both a r h = ground arith

same_text_iff : (x y : Text) → (same_text x y ≡ true) ↔ (x ≡ y)
same_text_iff x y =
    (same_text_lem x y, λ e. subst (λ (z : Text). same_text x z ≡ true) e (same_text_self x))

-- The number that digits stand for.
value : ℕ → Text → ℕ
value n [] = n
value n (d ∷ ds) = value (n * 10 + (d - 48)) ds

value-append : (n d : ℕ) (ds : Text) → value n (ds ++ d ∷ []) ≡ value n ds * 10 + (d - 48)
unfolding value
value-append n d [] = refl
value-append n d (c ∷ ds) = value-append (n * 10 + (c - 48)) d ds

value-digits : (rounds n : ℕ) → n < rounds → value 0 (digits rounds n) ≡ n
unfolding value
value-digits zero n l = omega (arith, l)
value-digits (suc rounds) n l = elim (Bool-cases (ltb n 10)) [
  | inl small ↦ rw small (omega arith)
  | inr large ↦ rw large (
      value-append 0 (48 + n % 10) (digits rounds (n / 10))
      ∙ (ap (λ x. x * 10 + (48 + n % 10 - 48))
            (value-digits rounds (n / 10) (less n rounds l large))
          ∙ rebuilt n))
]
  where
    rebuilt : (a : ℕ) → a / 10 * 10 + (48 + a % 10 - 48) ≡ a
    rebuilt a = omega arith

    less : (a r : ℕ) → a < suc r → ltb a 10 ≡ false → a / 10 < r
    less a r h k = omega (arith, h, at_least a k)
      where
        at_least : (b : ℕ) → ltb b 10 ≡ false → 10 ≤ b
        at_least b k = ground arith

str_injective : (m n : ℕ) → str m ≡ str n → m ≡ n
unfolding str
str_injective m n h =
    sym (value-digits (suc m) m (omega arith))
    ∙ (ap (value 0) h ∙ value-digits (suc n) n (omega arith))

append_cancel : (base x y : Text) → base ++ x ≡ base ++ y → x ≡ y
append_cancel [] x y h = h
append_cancel (c ∷ base) x y h = append_cancel base x y (tail h)
  where
    tail : c ∷ (base ++ x) ≡ c ∷ (base ++ y) → base ++ x ≡ base ++ y
    tail e = cc

first_code : Text → ℕ
first_code [] = 0
first_code (c ∷ x) = c

suffix_apart :
    (base x : Text) → (if is_empty base then null_text else base) ≡ base ++ hyphen ∷ x → ⊥
unfolding first_code
suffix_apart [] x h = omega (arith, ap first_code h)
suffix_apart (c ∷ base) x h =
    longer (length base) (length x) (ap length h ∙ ap suc (length-append base (hyphen ∷ x)))
  where
    longer : (m n : ℕ) → suc m ≡ suc (m + suc n) → ⊥
    longer m n e = omega (arith, e)

potential_injective : (base : Text) (i j : ℕ) → potential base i ≡ potential base j → i ≡ j
unfolding potential
potential_injective base zero zero h = refl
potential_injective base zero (suc j) h = absurd (suffix_apart base (str (suc j)) h)
potential_injective base (suc i) zero h = absurd (suffix_apart base (str (suc i)) (sym h))
potential_injective base (suc i) (suc j) h =
    str_injective (suc i) (suc j)
      (tail (append_cancel base (hyphen ∷ str (suc i)) (hyphen ∷ str (suc j)) h))
  where
    tail : hyphen ∷ str (suc i) ≡ hyphen ∷ str (suc j) → str (suc i) ≡ str (suc j)
    tail e = cc

-- The search for a slug ends: it gives the text without a suffix or with the first suffix for which no row
-- has it, and each of those before it is the slug of a row.
pub slugify_uniquely_lem :
    (base : Text) (slugs : List Text)
    → (n : ℕ) × (slugify_uniquely base slugs ≡ some (potential base n))
      × (is_in same_text (potential base n) slugs ≡ false)
      × ((i : ℕ) → i < n → is_in same_text (potential base i) slugs ≡ true)
unfolding slugify_uniquely
slugify_uniquely_lem base slugs =
    let (n, found) =
      first_free-found same_text same_text_iff (potential base) (potential_injective base) slugs 0
        (length slugs + 1) (omega arith) in
    let (low, free, before) =
      first_free-least (length slugs + 1) (λ i. is_in same_text (potential base i) slugs) 0 n
        found in
    (n, ap (chosen base) found, free, λ i l. before i (omega arith) l)

-- The search for a reference ends: it gives a reference above the project's counter that no item of the
-- project has, each one in between is taken, and the counter of the project becomes the reference.
pub ref_uniquely_lem :
    (project : Project) (items : List Item)
    → (ref : ℕ) × (ref_uniquely project items ≡ some (ref, record project { seq_field = ref }))
      × (project.seq_field < ref)
      × (is_in ◌==◌ ref (refs_of project.id items) ≡ false)
      × ((i : ℕ) → project.seq_field < i → i < ref → is_in ◌==◌ i (refs_of project.id items) ≡ true)
unfolding ref_uniquely
ref_uniquely_lem project items =
    let refs = refs_of project.id items in
    let (ref, found) =
      first_free-found ◌==◌ ==_iff (λ i. i) (λ i j e. e) refs (project.seq_field + 1)
        (length refs + 1) (omega arith) in
    let (low, free, between) =
      first_free-least (length refs + 1) (λ i. is_in ◌==◌ i refs) (project.seq_field + 1) ref
        found in
    (
      ref,
      ap (taken_by project) found,
      omega (arith, low),
      free,
      λ i l u. between i (omega (arith, l)) u,
    )
