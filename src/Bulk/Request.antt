-- ===== src/Bulk/Request.antt =====
-- `_normalize_schedule_bulk_date_updates`: the entries of a request, checked, one for each entity.
use text.Mathlib.Text.{◌==◌ as str_eq}
use taiga_back_schedule_mana.Base.{
  ℕ, zero, suc, ℤ, pos, negsuc, String, Bool, ◌&&◌, ◌||◌, not, Option, none, some, is_some, List,
  [], ◌∷◌, leb, ◌==◌, sort_by, if◌then◌else◌,
}
use taiga_back_schedule_mana.Model.{
  Date, EntityType, epic, userstory, task, same_type, Result, ok, err, Error, value_error, ◌>>=◌,
  raise_if, ◌>>◌, not_an_object, invalid_entity_type, invalid_entity_id, invalid_start_field,
  no_schedule_date,
}

-- An entry that is a dictionary. `entity_id` is the outcome of `int(entity_id)`, where `none` stands
-- for its TypeError or ValueError; a date is `none` if its key is absent.
pub record RawFields : Type 0 where
  pub entity_type : Option String
  pub entity_id : Option ℤ
  pub start_field : Option String
  pub start : Option (Option Date)
  pub due : Option (Option Date)

pub data RawUpdate : Type 0 where
  object : RawFields → RawUpdate
  other_value : RawUpdate

pub data StartField : Type 0 where
  estimated_start_field actual_start_field : StartField

pub record Update : Type 0 where
  pub entity_type : EntityType
  pub entity_id : ℕ
  pub start_field : StartField
  pub start : Option (Option Date)
  pub due : Option (Option Date)

-- `entity_type not in _ALLOWED_ENTITIES`
unfoldable pub parse_entity_type : Option String → Option EntityType
parse_entity_type none = none
parse_entity_type (some s) =
    if str_eq s "epic"
    then some epic
    else if str_eq s "userstory"
    then some userstory
    else if str_eq s "task"
    then some task
    else none

-- `update.get("start_field") or "estimated_start"`
unfoldable pub parse_start_field : Option String → Option StartField
parse_start_field none = some estimated_start_field
parse_start_field (some s) =
    if str_eq s "" || str_eq s "estimated_start"
    then some estimated_start_field
    else if str_eq s "actual_start"
    then some actual_start_field
    else none

-- `int(entity_id)` and `entity_id < 1`
abbrev pub parse_id : Option ℤ → Option ℕ
parse_id none = none
parse_id (some (negsuc n)) = none
parse_id (some (pos zero)) = none
parse_id (some (pos (suc n))) = some (suc n)

abbrev pub or_raise : {A : Type 0} → Option A → Error → Result A
or_raise none e = err e
or_raise (some a) e = ok a

-- One entry of the request.
unfoldable pub normalize_update : RawUpdate → Result Update
normalize_update other_value = err (value_error not_an_object)
normalize_update (object f) = do
  entity_type ← or_raise (parse_entity_type f.entity_type) (value_error invalid_entity_type)
  entity_id ← or_raise (parse_id f.entity_id) (value_error invalid_entity_id)
  start_field ← or_raise (parse_start_field f.start_field) (value_error invalid_start_field)
  raise_if (not (is_some f.start) && not (is_some f.due)) (value_error no_schedule_date)
  ok (record {
    entity_type = entity_type;
    entity_id = entity_id;
    start_field = start_field;
    start = f.start;
    due = f.due;
  })

abbrev pub same_entity : Update → Update → Bool
same_entity u v = same_type u.entity_type v.entity_type && u.entity_id == v.entity_id

-- `normalized_by_key[(entity_type, entity_id)] = {...}`: the later entry replaces the earlier.
unfoldable pub put_update : Update → List Update → List Update
put_update u [] = u ∷ []
put_update u (v ∷ rest) = if same_entity u v then u ∷ rest else v ∷ put_update u rest

unfoldable pub normalize_from : List RawUpdate → List Update → Result (List Update)
normalize_from [] acc = ok acc
normalize_from (raw ∷ rest) acc = do
  u ← normalize_update raw
  normalize_from rest (put_update u acc)

-- The names of the types in alphabetical order: epic, task, userstory.
abbrev pub rank : EntityType → ℕ
rank epic = 0
rank task = 1
rank userstory = 2

-- Tuples (entity_type, entity_id) are compared by the type first.
abbrev pub key_before : Update → Update → Bool
key_before u v =
    if rank u.entity_type == rank v.entity_type
    then leb u.entity_id v.entity_id
    else leb (rank u.entity_type) (rank v.entity_type)

unfoldable pub normalize_schedule_bulk_date_updates : List RawUpdate → Result (List Update)
normalize_schedule_bulk_date_updates raws = do
  normalized ← normalize_from raws []
  ok (sort_by key_before normalized)
