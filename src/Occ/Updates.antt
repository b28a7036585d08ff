-- ===== src/Occ/Updates.antt =====
-- Which saves pass the version check.
use taiga_back_schedule_mana.Base.{
  ℕ, suc, ◌+◌, ◌-◌, ◌≤◌, ◌≡◌, refl, sym, ◌∙◌, ap, pos, negsuc, Bool, true, false, not, none, some,
  List, keep, take, ltb, ◌==◌, if◌then◌else◌, Bool-cases, ◌↔◌, inl, inr, arith,
}
use taiga_back_schedule_mana.Model.{
  Error, Message, Result, ok, err, ◌>>=◌, wrong_arguments, type_error, version_not_integer,
  version_not_valid, version_not_current,
}
use taiga_back_schedule_mana.Occ.Mixins.{
  Field, is_version, RawVersion, missing, number, numeral, other_text, other_value, empty_text,
  integer, extract_param_version, validate_param_version, Versioned, flatten, get_modified_fields,
  is_among, clashes, check_fields, check_version, validate_and_update_version,
}
use taiga_back_schedule_mana.Occ.Fields.{
  is_changed, is_among-flatten, is_changed-saves, no_clash, HasSaves, Names,
}

refused : (e : Error) (obj : Versioned) → err e ≡ ok obj → ⊥
refused e obj h = cc

ok_same : (a b : Versioned) → ok a ≡ ok b → a ≡ b
ok_same a b h = cc

passed :
    (saves : List (List Field)) (v : ℕ) (keys : List Field) (obj obj' : Versioned)
    → HasSaves saves obj
    → (validate_param_version (some (integer (pos v))) obj.version >>= check_version keys obj)
      ≡ ok obj'
    → (v ≤ obj.version)
      × (obj'.version ≡ suc obj.version)
      × ((f : Field)
          → is_version f ≡ false
          → is_among keys f ≡ true
          → is_changed f (take (obj.version - v) saves) ≡ false)
unfolding validate_param_version check_fields get_modified_fields
passed saves v keys obj obj' log h = elim (Bool-cases (ltb obj.version v)) [
  | inl beyond ↦ absurd (
      refused (wrong_arguments version_not_valid) obj' (
        sym (ap (λ b. (if b then ok none else ok (some v)) >>= check_version keys obj) beyond) ∙ h))
  | inr within ↦
      let checked =
        sym (ap (λ b. (if b then ok none else ok (some v)) >>= check_version keys obj) within)
        ∙ h in
      elim (Bool-cases (obj.version == v)) [
        | inl current ↦
            let raised =
              ok_same (record obj { version = obj.version + 1 }) obj'
                (sym (
                    ap (λ b. if b then ok (record obj { version = obj.version + 1 }) else later)
                      current)
                  ∙ checked) in
            (
              bound obj.version v within,
              sym (ap (λ x. x.version) raised) ∙ omega arith,
              λ f plain there.
                  ap (λ n. is_changed f (take n saves)) (none_since obj.version v current),
            )
        | inr older ↦
            let compared =
              sym
                (ap (λ b. if b then ok (record obj { version = obj.version + 1 }) else later) older)
              ∙ checked in
            elim (Bool-cases clash) [
              | inl found ↦ absurd (
                  refused (wrong_arguments version_not_current) obj'
                    (sym (ap outcome found) ∙ compared))
              | inr apart ↦
                  let raised =
                    ok_same (record obj { version = obj.version + 1 }) obj'
                      (sym (ap outcome apart) ∙ compared) in
                  (
                    bound obj.version v within,
                    sym (ap (λ x. x.version) raised) ∙ omega arith,
                    λ f plain there. is_changed-saves f (obj.version - v) saves (
                        ap (λ d. is_changed f (take (obj.version - v) d)) (sym log.1)
                        ∙ (sym (is_among-flatten f (take (obj.version - v) obj.diffs))
                            ∙ no_clash keys (flatten (take (obj.version - v) obj.diffs)) f apart
                                plain there)),
                  )
            ]
      ]
]
  where
    clash : Bool
    clash =
        clashes (keep (λ f. not (is_version f)) keys) (get_modified_fields obj (obj.version - v))

    outcome : Bool → Result Versioned
    outcome b =
        if b
        then err (wrong_arguments version_not_current)
        else ok (record obj { version = obj.version + 1 })

    later : Result Versioned
    later = outcome clash

    bound : (m n : ℕ) → ltb m n ≡ false → n ≤ m
    bound m n h = ground arith

    none_since : (m n : ℕ) → (m == n) ≡ true → m - n ≡ 0
    none_since m n h = ground arith

-- Where each save of an object raised its version and its history has an entry for each save that changed
-- something, a save that passes the check names a version up to the stored one, raises the version by one,
-- and none of its fields was changed by the saves since the version that it names.
pub validate_and_update_version-NoLostUpdate :
    (saves : List (List Field)) (raw : RawVersion) (keys : List Field) (obj obj' : Versioned)
    → HasSaves saves obj
    → validate_and_update_version raw keys obj ≡ ok obj'
    → (v : ℕ) × Names raw v
      × (v ≤ obj.version)
      × (obj'.version ≡ suc obj.version)
      × ((f : Field)
          → is_version f ≡ false
          → is_among keys f ≡ true
          → is_changed f (take (obj.version - v) saves) ≡ false)
unfolding validate_and_update_version validate_param_version check_fields get_modified_fields
    extract_param_version
validate_and_update_version-NoLostUpdate saves missing keys obj obj' log h =
    absurd (refused (wrong_arguments version_not_valid) obj' h)
validate_and_update_version-NoLostUpdate saves (number (pos v)) keys obj obj' log h =
    let (low, raised, unchanged) = passed saves v keys obj obj' log h in
    (v, refl, low, raised, unchanged)
validate_and_update_version-NoLostUpdate saves (number (negsuc n)) keys obj obj' log h =
    absurd (refused (wrong_arguments version_not_valid) obj' h)
validate_and_update_version-NoLostUpdate saves (numeral (pos v)) keys obj obj' log h =
    let (low, raised, unchanged) = passed saves v keys obj obj' log h in
    (v, refl, low, raised, unchanged)
validate_and_update_version-NoLostUpdate saves (numeral (negsuc n)) keys obj obj' log h =
    absurd (refused (wrong_arguments version_not_valid) obj' h)
validate_and_update_version-NoLostUpdate saves other_text keys obj obj' log h =
    absurd (refused (wrong_arguments version_not_integer) obj' h)
validate_and_update_version-NoLostUpdate saves other_value keys obj obj' log h =
    absurd (refused (wrong_arguments version_not_integer) obj' h)
validate_and_update_version-NoLostUpdate saves empty_text keys obj obj' log h =
    absurd (refused type_error obj' h)

wrong :
    {A : Type 0} (m : Message) → ◌≡◌ {A = Result A} (err (wrong_arguments m)) (err type_error) → ⊥
wrong m h = cc

fine : {A : Type 0} (a : A) → ok a ≡ err type_error → ⊥
fine a h = cc

never_type_error :
    (v : ℕ) (keys : List Field) (obj : Versioned)
    → (validate_param_version (some (integer (pos v))) obj.version >>= check_version keys obj)
      ≡ err type_error
    → ⊥
unfolding validate_param_version check_fields
never_type_error v keys obj h = elim (Bool-cases (ltb obj.version v)) [
  | inl beyond ↦ wrong version_not_valid (sym (ap first_test beyond) ∙ h)
  | inr within ↦
      let checked = sym (ap first_test within) ∙ h in
      elim (Bool-cases (obj.version == v)) [
        | inl current ↦ fine raised (sym (ap second_test current) ∙ checked)
        | inr older ↦ elim (Bool-cases clash) [
          | inl found ↦
              wrong version_not_current
                (sym (ap third_test found) ∙ (sym (ap second_test older) ∙ checked))
          | inr apart ↦
              fine raised (sym (ap third_test apart) ∙ (sym (ap second_test older) ∙ checked))
        ]
      ]
]
  where
    raised : Versioned
    raised = record obj { version = obj.version + 1 }

    clash : Bool
    clash =
        clashes (keep (λ f. not (is_version f)) keys) (get_modified_fields obj (obj.version - v))

    third_test : Bool → Result Versioned
    third_test b = if b then err (wrong_arguments version_not_current) else ok raised

    second_test : Bool → Result Versioned
    second_test b = if b then ok raised else third_test clash

    first_test : Bool → Result Versioned
    first_test b = (if b then ok none else ok (some v)) >>= check_version keys obj

-- The check raises a TypeError exactly for an empty text.
pub validate_and_update_version-TypeError_iff :
    (raw : RawVersion) (keys : List Field) (obj : Versioned)
    → (validate_and_update_version raw keys obj ≡ err type_error) ↔ (raw ≡ empty_text)
unfolding validate_and_update_version extract_param_version validate_param_version check_fields
validate_and_update_version-TypeError_iff raw keys obj = (only raw, λ e. rw e refl)
  where
    only :
        (raw : RawVersion)
        → validate_and_update_version raw keys obj ≡ err type_error
        → raw ≡ empty_text
    only missing h = absurd (wrong version_not_valid h)
    only (number (pos v)) h = absurd (never_type_error v keys obj h)
    only (number (negsuc n)) h = absurd (wrong version_not_valid h)
    only (numeral (pos v)) h = absurd (never_type_error v keys obj h)
    only (numeral (negsuc n)) h = absurd (wrong version_not_valid h)
    only other_text h = absurd (wrong version_not_integer h)
    only other_value h = absurd (wrong version_not_integer h)
    only empty_text h = refl
