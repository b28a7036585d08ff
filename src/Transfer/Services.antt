-- ===== src/Transfer/Services.antt =====
-- The services of a transfer. Django's TimestampSigner is a parameter; times are seconds and texts are
-- lists of code points. The mails are left out.
use taiga_back_schedule_mana.Base.{
  ℕ, Bool, true, false, Option, none, some, is_some, List, first, update_where, ◌==◌, if◌then◌else◌,
}
use taiga_back_schedule_mana.Model.{
  Result, ok, err, ◌>>=◌, wrong_arguments, does_not_exist, token_invalid, token_expired,
}
use taiga_back_schedule_mana.Unique.{Text, same_text, str}

pub record Membership : Type 0 where
  pub user_id : ℕ
  pub is_admin : Bool

pub record Project : Type 0 where
  pub owner : ℕ
  pub transfer_token : Option Text
  pub memberships : List Membership

-- What `unsign` ends in.
pub data Unsigned : Type 0 where
  signed : Text → Unsigned
  signature_expired : Unsigned
  bad_signature : Unsigned

-- `timedelta(days=7)`
abbrev pub max_age : ℕ
max_age = 604800

abbrev pub is_token : Text → Option Text → Bool
is_token token none = false
is_token token (some transfer_token) = same_text transfer_token token

abbrev pub check_value : ℕ → Unsigned → Result Unit
check_value user (signed value) =
    if same_text value (str user) then ok tt else err (wrong_arguments token_invalid)
check_value user signature_expired = err (wrong_arguments token_expired)
check_value user bad_signature = err (wrong_arguments token_invalid)

abbrev pub is_member : ℕ → Membership → Bool
is_member user m = m.user_id == user

abbrev pub make_admin : Membership → Membership
make_admin m = record m { is_admin = true }

-- `sign` at a time, and `unsign(…, max_age)` at a time.
module _ (sign : ℕ → Text → Text) (unsign : ℕ → Text → Unsigned) where
  unfoldable pub start_project_transfer : ℕ → ℕ → Project → Project
  start_project_transfer now user project = record project {
    transfer_token = some (sign now (str user));
  }

  unfoldable pub validate_project_transfer_token : ℕ → Text → ℕ → Project → Result Unit
  validate_project_transfer_token now token user project =
      if is_token token project.transfer_token
      then check_value user (unsign now token)
      else err (wrong_arguments token_invalid)

  unfoldable pub reject_project_transfer : ℕ → Text → ℕ → Project → Result Project
  reject_project_transfer now token user project =
      validate_project_transfer_token now token user project >>= λ _.
      ok (record project { transfer_token = none })

  unfoldable pub accept_project_transfer : ℕ → Text → ℕ → Project → Result Project
  accept_project_transfer now token user project =
      validate_project_transfer_token now token user project >>= λ _.
      if is_some (first (is_member user) project.memberships)
      then ok (record {
        owner = user;
        transfer_token = none;
        memberships = update_where (is_member user) make_admin project.memberships;
      })
      else err does_not_exist
