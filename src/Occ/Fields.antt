-- ===== src/Occ/Fields.antt =====
-- Which fields the saves since a version have changed.
use taiga_back_schedule_mana.Base.{
  ℕ, zero, suc, ◌≡◌, refl, sym, ◌∙◌, ap, pos, Bool, true, false, ◌||◌, not, some, List, [], ◌∷◌,
  keep, any_of, any_of-append, take, length, is_empty, ==_iff, if◌then◌else◌, Bool-cases, inl, inr,
  arith,
}
use taiga_back_schedule_mana.Model.{ok}
use taiga_back_schedule_mana.Occ.Mixins.{
  Field, version_field, field, is_version, same_field, RawVersion, integer, extract_param_version,
  Versioned, flatten, is_among, clashes,
}

same_field_lem : (a b : Field) → same_field a b ≡ true → a ≡ b
same_field_lem version_field version_field h = refl
same_field_lem (field m) (field n) h = ap field ((==_iff m n).0 h)
same_field_lem version_field (field n) h = absurd (no h)
  where
    no : false ≡ true → ⊥
    no e = cc
same_field_lem (field m) version_field h = absurd (no h)
  where
    no : false ≡ true → ⊥
    no e = cc

head_false : (a b : Bool) → (a || b) ≡ false → a ≡ false
head_false a b h = ground arith

rest_false : (a b : Bool) → (a || b) ≡ false → b ≡ false
rest_false a b h = ground arith

-- The fields that stand in one of the differences.
abbrev pub is_changed : Field → List (List Field) → Bool
is_changed f diffs = any_of (λ diff. is_among diff f) diffs

pub is_among-flatten :
    (f : Field) (diffs : List (List Field)) → is_among (flatten diffs) f ≡ is_changed f diffs
is_among-flatten f [] = refl
is_among-flatten f (diff ∷ diffs) =
    any_of-append (same_field f) diff (flatten diffs)
    ∙ ap (λ b. is_among diff f || b) (is_among-flatten f diffs)

is_changed-fewer :
    (f : Field) (n : ℕ) (diffs : List (List Field))
    → is_changed f (take (suc n) diffs) ≡ false
    → is_changed f (take n diffs) ≡ false
is_changed-fewer f zero diffs h = refl
is_changed-fewer f (suc n) [] h = refl
is_changed-fewer f (suc n) (diff ∷ diffs) h =
    both (is_among diff f) (is_changed f (take (suc n) diffs)) (is_changed f (take n diffs)) h (
      is_changed-fewer f n diffs
        (rest_false (is_among diff f) (is_changed f (take (suc n) diffs)) h))
  where
    both : (a b c : Bool) → (a || b) ≡ false → c ≡ false → (a || c) ≡ false
    both a b c h k = ground arith

abbrev pub has_changes : List Field → Bool
has_changes diff = not (is_empty diff)

-- The last differences of the history cover as many saves.
pub is_changed-saves :
    (f : Field) (n : ℕ) (saves : List (List Field))
    → is_changed f (take n (keep has_changes saves)) ≡ false
    → is_changed f (take n saves) ≡ false
is_changed-saves f zero saves h = refl
is_changed-saves f (suc n) [] h = refl
is_changed-saves f (suc n) ([] ∷ saves) h =
    is_changed-saves f n saves (is_changed-fewer f n (keep has_changes saves) h)
is_changed-saves f (suc n) ((g ∷ diff) ∷ saves) h =
    both (is_among (g ∷ diff) f) (is_changed f (take n (keep has_changes saves)))
      (is_changed f (take n saves)) h
      (is_changed-saves f n saves
        (rest_false (is_among (g ∷ diff) f) (is_changed f (take n (keep has_changes saves))) h))
  where
    both : (a b c : Bool) → (a || b) ≡ false → c ≡ false → (a || c) ≡ false
    both a b c h k = ground arith

pub no_clash :
    (keys modified : List Field) (f : Field)
    → clashes (keep (λ g. not (is_version g)) keys) modified ≡ false
    → is_version f ≡ false
    → is_among keys f ≡ true
    → is_among modified f ≡ false
no_clash [] modified f h plain there = absurd (no there)
  where
    no : false ≡ true → ⊥
    no e = cc
no_clash (g ∷ keys) modified f h plain there = elim (Bool-cases (same_field f g)) [
  | inl same ↦
      let here = same_field_lem f g same in
      ap (is_among modified) here ∙ first_out (ap is_version (sym here) ∙ plain)
  | inr other ↦
      no_clash keys modified f rest_out plain (later (same_field f g) (is_among keys f) other there)
]
  where
    later : (a b : Bool) → a ≡ false → (a || b) ≡ true → b ≡ true
    later a b m o = ground arith

    kept : List Field → List Field
    kept fields = keep (λ x. not (is_version x)) fields

    first_out : is_version g ≡ false → is_among modified g ≡ false
    first_out v =
        head_false (is_among modified g) (clashes (kept keys) modified)
          (sym (ap (λ b. clashes (if not b then g ∷ kept keys else kept keys) modified) v) ∙ h)

    rest_out : clashes (kept keys) modified ≡ false
    rest_out = elim (Bool-cases (is_version g)) [
      | inl v ↦ sym (ap (λ b. clashes (if not b then g ∷ kept keys else kept keys) modified) v) ∙ h
      | inr v ↦
          rest_false (is_among modified g) (clashes (kept keys) modified)
            (sym (ap (λ b. clashes (if not b then g ∷ kept keys else kept keys) modified) v) ∙ h)
    ]

-- The version of an object counts its saves, and its history keeps those that changed something.
abbrev pub HasSaves : List (List Field) → Versioned → Type 0
HasSaves saves obj = (obj.version ≡ suc (length saves)) × (obj.diffs ≡ keep has_changes saves)

abbrev pub Names : RawVersion → ℕ → Type 0
Names raw v = extract_param_version raw ≡ ok (some (integer (pos v)))
