-- ===== src/Unique/Slugs.antt =====
-- `slugify_uniquely` and `slugify_uniquely_for_queryset`. A text is the list of its code points; `base` is
-- the text that Django's slugify and unidecode make of the value.
use Prim.Native.Nat.{◌/◌, ◌%◌}
use taiga_back_schedule_mana.Base.{
  ℕ, zero, suc, ◌+◌, Bool, true, false, ◌&&◌, Option, none, some, List, [], ◌∷◌, ◌++◌, length,
  is_empty, ltb, ◌==◌, if◌then◌else◌,
}
use taiga_back_schedule_mana.Unique.Search.{first_free, is_in}

abbrev pub Text : Type 0
Text = List ℕ

abbrev pub same_text : Text → Text → Bool
same_text [] [] = true
same_text [] (d ∷ y) = false
same_text (c ∷ x) [] = false
same_text (c ∷ x) (d ∷ y) = c == d && same_text x y

-- The decimal digits of a number, the last `rounds` of them at most.
abbrev pub digits : ℕ → ℕ → Text
digits zero n = []
digits (suc rounds) n =
    if ltb n 10 then (48 + n) ∷ [] else digits rounds (n / 10) ++ (48 + n % 10) ∷ []

-- `str(n)`
unfoldable pub str : ℕ → Text
str n = digits (suc n) n

-- "null" and "-"
abbrev pub null_text : Text
null_text = 110 ∷ 117 ∷ 108 ∷ 108 ∷ []

abbrev pub hyphen : ℕ
hyphen = 45

-- What the loop tries with a suffix.
unfoldable pub potential : Text → ℕ → Text
potential base zero = if is_empty base then null_text else base
potential base (suc n) = base ++ hyphen ∷ str (suc n)

abbrev pub chosen : Text → Option ℕ → Option Text
chosen base none = none
chosen base (some suffix) = some (potential base suffix)

-- The slugs are those of the model's rows.
unfoldable pub slugify_uniquely : Text → List Text → Option Text
slugify_uniquely base slugs =
    chosen base
      (first_free (length slugs + 1) (λ suffix. is_in same_text (potential base suffix) slugs) 0)

-- The slugs are those of the query set.
unfoldable pub slugify_uniquely_for_queryset : Text → List Text → Option Text
slugify_uniquely_for_queryset base slugs =
    chosen base
      (first_free (length slugs + 1) (λ suffix. is_in same_text (potential base suffix) slugs) 0)
