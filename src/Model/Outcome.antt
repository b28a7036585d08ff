-- ===== src/Model/Outcome.antt =====
-- The exceptions of the schedule services, with their messages, and calls that may raise. An error has no
-- tables: in a transaction they are as before the call. What a call that raises outside a transaction has
-- written by then is not modelled.
use taiga_back_schedule_mana.Base.{Bool, true, false, ◌≡◌, refl}

pub data Message : Type 0 where
  invalid_project_id : Message
  invalid_color_project_id : Message
  not_an_object : Message
  invalid_entity_type : Message
  invalid_entity_id : Message
  invalid_start_field : Message
  no_schedule_date : Message
  entities_not_in_project : Message
  schedule_not_found : Message
  earlier_than_internal_item : Message
  userstory_start_after_task : Message
  epic_start_after_userstory : Message
  target_needs_start : Message
  target_must_start_after : Message
  source_needs_due : Message
  schedules_must_differ : Message
  same_project_required : Message
  order_project_mismatch : Message
  order_type_mismatch : Message
  position_not_positive : Message
  epic_needs_root : Message
  userstory_needs_epic_parent : Message
  task_needs_userstory_parent : Message
  position_not_integer : Message
  unsupported_entity_type : Message
  duplicate_row : Message
  project_required : Message
  project_unknown : Message
  project_not_visible : Message
  schedule_not_visible : Message
  links_not_modifiable : Message
  dates_not_modifiable : Message
  color_not_modifiable : Message
  order_not_modifiable : Message
  source_and_target_required : Message
  entity_not_in_project : Message
  version_not_integer : Message
  version_not_valid : Message
  version_not_current : Message
  token_invalid : Message
  token_expired : Message

pub data Error : Type 0 where
  value_error : Message → Error
  validation_error : Message → Error
  integrity_error : Error
  recursion_error : Error
  overflow_error : Error
  field_does_not_exist : Error
  wrong_arguments : Message → Error
  permission_denied : Message → Error
  type_error : Error
  does_not_exist : Error

-- What a call ends in.
pub data Result (A : Type 0) : Type 0 where
  err : Error → Result A
  ok : A → Result A

-- The next call of a sequence, which an exception skips.
infixl 5 ◌>>=◌ ◌>>◌
abbrev pub ◌>>=◌ : {A B : Type 0} → Result A → (A → Result B) → Result B
err raised >>= next = err raised
ok value >>= next = next value

abbrev pub ◌>>◌ : {B : Type 0} → Result (Unit {0}) → Result B → Result B
call >> next = call >>= λ done. next

-- `if test: raise error`
abbrev pub raise_if : Bool → Error → Result (Unit {0})
raise_if true e = err e
raise_if false e = ok tt

pub ok-injective : {A : Type 0} {x y : A} → ok x ≡ ok y → x ≡ y
ok-injective same = cc

-- A sequence that returns: its first call has returned, and then the next.
pub >>=-eq-ok :
    {A B : Type 0} (call : Result A) (next : A → Result B) {b : B}
    → (call >>= next) ≡ ok b
    → (value : A) × (call ≡ ok value) × (next value ≡ ok b)
>>=-eq-ok (err raised) next returns = cc
>>=-eq-ok (ok value) next returns = (value, refl, returns)
