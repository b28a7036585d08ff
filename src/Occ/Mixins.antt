-- ===== src/Occ/Mixins.antt =====
-- taiga/projects/occ/mixins.py and `get_modified_fields` of taiga/projects/history/services.py.
use taiga_back_schedule_mana.Base.{
  ℕ, ◌+◌, ◌-◌, ℤ, pos, negsuc, Bool, true, false, not, Option, none, some, List, [], ◌∷◌, ◌++◌,
  keep, any_of, take, ltb, ◌==◌, if◌then◌else◌,
}
use taiga_back_schedule_mana.Model.{
  Result, ok, err, ◌>>=◌, wrong_arguments, type_error, version_not_integer, version_not_valid,
  version_not_current,
}

-- A key of the request or of a difference in the history.
pub data Field : Type 0 where
  version_field : Field
  field : ℕ → Field

abbrev pub is_version : Field → Bool
is_version version_field = true
is_version (field n) = false

abbrev pub same_field : Field → Field → Bool
same_field version_field version_field = true
same_field (field m) (field n) = m == n
same_field version_field (field n) = false
same_field (field m) version_field = false

-- The `version` of a request: none or null, an integer, a text, and other values, of which some are empty.
pub data RawVersion : Type 0 where
  missing : RawVersion
  number : ℤ → RawVersion
  numeral : ℤ → RawVersion
  other_text : RawVersion
  other_value : RawVersion
  empty_text : RawVersion

-- `param_version and int(param_version)`: what is empty stays what it is.
pub data ParamVersion : Type 0 where
  integer : ℤ → ParamVersion
  text : ParamVersion

unfoldable pub extract_param_version : RawVersion → Result (Option ParamVersion)
extract_param_version missing = ok none
extract_param_version (number z) = ok (some (integer z))
extract_param_version (numeral z) = ok (some (integer z))
extract_param_version other_text = err (wrong_arguments version_not_integer)
extract_param_version other_value = err (wrong_arguments version_not_integer)
extract_param_version empty_text = ok (some text)

-- Where the version is valid, it is given back as a number.
unfoldable pub validate_param_version : Option ParamVersion → ℕ → Result (Option ℕ)
validate_param_version none current = ok none
validate_param_version (some text) current = err type_error
validate_param_version (some (integer (negsuc n))) current = ok none
validate_param_version (some (integer (pos n))) current =
    if ltb current n then ok none else ok (some n)

-- A stored object: its version and the fields of the differences in its history, the last one first.
pub record Versioned : Type 0 where
  pub version : ℕ
  pub diffs : List (List Field)

abbrev pub flatten : List (List Field) → List Field
flatten [] = []
flatten (diff ∷ diffs) = diff ++ flatten diffs

unfoldable pub get_modified_fields : Versioned → ℕ → List Field
get_modified_fields obj last_modifications = flatten (take last_modifications obj.diffs)

abbrev pub is_among : List Field → Field → Bool
is_among fields f = any_of (same_field f) fields

-- `both_modified` is not empty.
abbrev pub clashes : List Field → List Field → Bool
clashes modifying modified = any_of (is_among modified) modifying

unfoldable pub check_fields : List Field → Versioned → ℕ → Result Versioned
check_fields keys obj param_version =
    let raised = record obj { version = obj.version + 1 } in
    if obj.version == param_version
    then ok raised
    else if clashes (keep (λ f. not (is_version f)) keys)
        (get_modified_fields obj (obj.version - param_version))
    then err (wrong_arguments version_not_current)
    else ok raised

abbrev pub check_version : List Field → Versioned → Option ℕ → Result Versioned
check_version keys obj none = err (wrong_arguments version_not_valid)
check_version keys obj (some param_version) = check_fields keys obj param_version

-- The check before a stored object is saved.
unfoldable pub validate_and_update_version : RawVersion → List Field → Versioned → Result Versioned
validate_and_update_version raw keys obj = extract_param_version raw >>= λ param_version.
    validate_param_version param_version obj.version >>= check_version keys obj
