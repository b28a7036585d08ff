-- ===== src/Tests/Services.antt =====
-- The theorems on versions, slugs, references, transfers and due dates, at concrete inputs.
use taiga_back_schedule_mana.Base.{
  ℕ, suc, ◌+◌, ◌-◌, ◌≤◌, ◌<◌, ◌≡◌, refl, pos, true, false, none, some, List, [], ◌∷◌, take, leb,
  ◌==◌, if◌then◌else◌, ◌↔◌, arith,
}
use taiga_back_schedule_mana.Model.{ok, err, wrong_arguments, token_invalid}
use taiga_back_schedule_mana.Occ.{
  Field, field, is_version, number, Versioned, is_among, validate_and_update_version,
  extract_param_version, validate_param_version, check_fields, get_modified_fields,
}
use taiga_back_schedule_mana.Occ.Fields.{is_changed, Names}
use taiga_back_schedule_mana.Occ.Updates.{validate_and_update_version-NoLostUpdate}
use taiga_back_schedule_mana.Unique.{
  Text, same_text, potential, slugify_uniquely, Item, refs_of, ref_uniquely, str,
}
use taiga_back_schedule_mana.Unique
use taiga_back_schedule_mana.Unique.Search.{is_in}
use taiga_back_schedule_mana.Unique.Free.{slugify_uniquely_lem, ref_uniquely_lem}
use taiga_back_schedule_mana.Transfer.{
  Project, Unsigned, signed, signature_expired, bad_signature, max_age, is_token,
  start_project_transfer, validate_project_transfer_token, accept_project_transfer,
}
use taiga_back_schedule_mana.Transfer.Handover.{
  Signs, is_admin_of, accept_project_transfer-Entitled,
  accept_project_transfer-start_project_transfer,
}
use taiga_back_schedule_mana.DueDates.{past_due, due_soon, set, get_due_date_status}
use taiga_back_schedule_mana.DueDates.Status.{get_due_date_status_lem}

-- Three saves, of which the second changed nothing; the client asks for field 1 as of version 2.
abbrev saves : List (List Field)
saves = (field 2 ∷ []) ∷ [] ∷ (field 1 ∷ []) ∷ []

abbrev stored : Versioned
stored = record { version = 4; diffs = (field 2 ∷ []) ∷ (field 1 ∷ []) ∷ [] }

abbrev saved : Versioned
saved = record { version = 5; diffs = (field 2 ∷ []) ∷ (field 1 ∷ []) ∷ [] }

validate_and_update_version-NoLostUpdate_example :
    (v : ℕ) × Names (number (pos 3)) v
    × (v ≤ stored.version)
    × (saved.version ≡ suc stored.version)
    × ((f : Field)
        → is_version f ≡ false
        → is_among (field 1 ∷ []) f ≡ true
        → is_changed f (take (4 - v) saves) ≡ false)
unfolding validate_and_update_version extract_param_version validate_param_version check_fields
    get_modified_fields
validate_and_update_version-NoLostUpdate_example =
    validate_and_update_version-NoLostUpdate saves (number (pos 3)) (field 1 ∷ []) stored saved
      (refl, refl) refl

slugify_uniquely_lem_example :
    (n : ℕ) × (slugify_uniquely (97 ∷ []) ((97 ∷ []) ∷ (97 ∷ 45 ∷ 49 ∷ []) ∷ [])
      ≡ some (potential (97 ∷ []) n))
    × (is_in same_text (potential (97 ∷ []) n) ((97 ∷ []) ∷ (97 ∷ 45 ∷ 49 ∷ []) ∷ []) ≡ false)
    × ((i : ℕ)
        → i < n
        → is_in same_text (potential (97 ∷ []) i) ((97 ∷ []) ∷ (97 ∷ 45 ∷ 49 ∷ []) ∷ []) ≡ true)
slugify_uniquely_lem_example = slugify_uniquely_lem (97 ∷ []) ((97 ∷ []) ∷ (97 ∷ 45 ∷ 49 ∷ []) ∷ [])

abbrev counted : Unique.Project
counted = record { id = 1; seq_field = 4 }

abbrev items : List Item
items = record { project_id = 1; ref = 5 } ∷ record { project_id = 2; ref = 6 } ∷ []

ref_uniquely_lem_example :
    (ref : ℕ) × (ref_uniquely counted items ≡ some (ref, record counted { seq_field = ref }))
    × (4 < ref)
    × (is_in ◌==◌ ref (refs_of 1 items) ≡ false)
    × ((i : ℕ) → 4 < i → i < ref → is_in ◌==◌ i (refs_of 1 items) ≡ true)
ref_uniquely_lem_example = ref_uniquely_lem counted items

-- A signer that keeps the time in front of the text.
abbrev sign : ℕ → Text → Text
sign now text = now ∷ text

abbrev unsign : ℕ → Text → Unsigned
unsign later [] = bad_signature
unsign later (now ∷ text) = if leb later (now + max_age) then signed text else signature_expired

sign-Signs : Signs sign unsign
sign-Signs = (
  λ now later text l u. rw (fresh later now u) refl,
  λ now later text l. rw (old later now l) refl,
)
  where
    fresh : (a b : ℕ) → a ≤ b + 604800 → leb a (b + 604800) ≡ true
    fresh a b h = ground arith

    old : (a b : ℕ) → b + 604800 < a → leb a (b + 604800) ≡ false
    old a b h = ground arith

abbrev owned : Project
owned = record {
  owner = 3;
  transfer_token = none;
  memberships = record { user_id = 8; is_admin = false } ∷ [];
}

abbrev handed : Project
handed = record {
  owner = 8;
  transfer_token = none;
  memberships = record { user_id = 8; is_admin = true } ∷ [];
}

accept_project_transfer-Entitled_example :
    (is_token (sign 100 (str 8)) (start_project_transfer sign unsign 100 8 owned).transfer_token
      ≡ true)
    × ((value : Text) × (unsign 200 (sign 100 (str 8)) ≡ signed value)
        × (same_text value (str 8) ≡ true))
    × (handed.owner ≡ 8)
    × (handed.transfer_token ≡ none)
    × (is_admin_of 8 handed ≡ true)
unfolding start_project_transfer accept_project_transfer validate_project_transfer_token str
accept_project_transfer-Entitled_example =
    accept_project_transfer-Entitled sign unsign 200 8 (sign 100 (str 8))
      (start_project_transfer sign unsign 100 8 owned) handed refl

accept_project_transfer-start_project_transfer_example :
    (project' : Project) × (accept_project_transfer sign unsign 200
        (sign 100 (str 8))
        8
        (start_project_transfer sign unsign 100 8 owned)
      ≡ ok project')
    × (project'.owner ≡ 8)
    × (is_admin_of 8 project' ≡ true)
    × (accept_project_transfer sign unsign 200 (sign 100 (str 8)) 8 project'
        ≡ err (wrong_arguments token_invalid))
accept_project_transfer-start_project_transfer_example =
    accept_project_transfer-start_project_transfer sign unsign 100 200 8 owned sign-Signs
      (omega arith) (omega arith) refl

get_due_date_status_lem_example :
    ((get_due_date_status 20 (some 30) (some false) ≡ past_due) ↔ (30 < 20))
    × ((get_due_date_status 20 (some 30) (some false) ≡ due_soon) ↔ ((20 ≤ 30) × (30 ≤ 20 + 14)))
    × ((get_due_date_status 20 (some 30) (some false) ≡ set) ↔ (20 + 14 < 30))
get_due_date_status_lem_example = get_due_date_status_lem 20 30 (some false) refl
