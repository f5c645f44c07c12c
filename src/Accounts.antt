-- ===== src/Accounts.antt =====
-- src/modules/accounts/services/account.service.ts: the accounts of a user.
pub mod Laws
pub mod Queries
use damaru_server.Prelude.{
  ℕ, String, Bool, true, false, not, ◌&&◌, ◌||◌, Option, none, some, List, [], ◌∷◌, ◌==◌,
  if◌then◌else◌,
}
use damaru_server.Prelude.Exec.{
  Exec, ok, err, http_exception, not_found, unauthorized, bad_request, pure, throw, gets, ◌>>=◌,
  ◌>>◌,
}
use damaru_server.Token.{JwtToken, has_role, has_sub_role, super_admin, android_admin, is_text}
use damaru_server.Environment.{Environment, today, diff_in_days, default_screen_shot}
use damaru_server.Database.{Account, AccountEmulator, Emulator, UserEmulator, Db, is_null}
use damaru_server.Database.Repositories.{Repositories, link_at, emulator_at}
use damaru_server.Database.Statements.{insert_account, update_account, delete_account}

pub record CreateAccountDto : Type 0 where
  pub account_name : String
  pub user_id : String
  pub pin : Option String
  pub is_admin : Option Bool

-- `Partial<CreateAccountDto>`, as far as `update` reads it.
pub record UpdateAccountDto : Type 0 where
  pub account_name : Option String
  pub pin : Option String

-- The account that `create` returns.
pub record CreatedAccount : Type 0 where
  pub id : String
  pub account_name : String
  pub pin : String
  pub user_id : String
  pub is_admin : Option Bool
  pub first_login : Option Bool

-- The columns that `update` writes.
pub record UpdateFields : Type 0 where
  pub account_name : Option String
  pub pin : Option String
  pub first_login : Option Bool
  pub updated_at : Option ℕ

-- A column that is left out of an `insert` has its default, and out of an `update` its old value.
abbrev pub or_else {ℓ} : {A : Type ℓ} → Option A → A → A
or_else none d = d
or_else (some a) d = a

-- An absent or empty text counts as false.
abbrev pub non_empty : Option String → Option String
non_empty none = none
non_empty (some s) = if s == "" then none else some s

abbrev pub is_true : Option Bool → Bool
is_true none = false
is_true (some b) = b

-- `updated_at` is an `@UpdateDateColumn`: an update that does not give it sets it to the time.
unfoldable pub write_fields : Environment → UpdateFields → Account → Account
write_fields env f a = record a {
  account_name = or_else f.account_name a.account_name;
  pin = or_else f.pin a.pin;
  first_login = or_else f.first_login a.first_login;
  updated_at = or_else f.updated_at (today env);
}

-- The row that `create` inserts.
unfoldable pub new_account : Environment → CreateAccountDto → String → String → Account
new_account env dto pin id = record {
  id = id;
  user = dto.user_id;
  account_name = dto.account_name;
  first_login = or_else dto.is_admin true;
  is_admin = or_else dto.is_admin false;
  pin = pin;
  updated_at = today env;
  last_login = none;
}

unfoldable pub created_account : CreateAccountDto → String → String → CreatedAccount
created_account dto pin id = record {
  id = id;
  account_name = dto.account_name;
  pin = pin;
  user_id = dto.user_id;
  is_admin = dto.is_admin;
  first_login = dto.is_admin;
}

-- Who may change an account of the user `owner`, and who may delete the account `id`.
unfoldable pub may_update : JwtToken → String → Bool
may_update jwt owner =
    has_role jwt super_admin || (owner == jwt.sub && has_sub_role jwt android_admin)

pub may_remove : JwtToken → String → String → Bool
may_remove payload owner id =
    has_role payload super_admin
    || (owner == payload.sub
        && (has_sub_role payload android_admin || is_text payload.account_id id))

abbrev pub is_admin_of : String → Account → Bool
is_admin_of user a = a.is_admin && a.user == user

abbrev pub has_pin_of : String → String → Account → Bool
has_pin_of user pin a = a.user == user && a.pin == pin

abbrev pub is_empty : List Account → Bool
is_empty [] = true
is_empty (a ∷ rest) = false

module _ (R : Repositories) where
  unfoldable pub find_user_by_account : String → Db → Option Account
  find_user_by_account id = R.account.find_one (λ a. a.id == id)

  unfoldable pub find_root_account : String → Db → Option Account
  find_root_account user = R.account.find_one (is_admin_of user)

  -- `random_pin` is the text of `StringUtils.generateRandomNumeric(5)`.
  unfoldable pub insert_new : Environment → String → CreateAccountDto → Exec Db CreatedAccount
  insert_new env random_pin dto = do
    let pin = or_else dto.pin random_pin
    id ← insert_account R (new_account env dto pin)
    pure (created_account dto pin id)

  unfoldable pub create : Environment → String → CreateAccountDto → Exec Db CreatedAccount
  create env random_pin dto = do
    existing ← gets (R.account.find (is_admin_of dto.user_id))
    if is_true dto.is_admin && not (is_empty existing)
        then throw (http_exception "Admin account already found for this user" 302)
        else insert_new env random_pin dto

  -- The fields of a new name, and of a new PIN that no account of the user has yet.
  unfoldable pub pin_fields :
      Environment → String → Option String → Option String → Exec Db UpdateFields
  pin_fields env owner name none =
      pure (record { account_name = name; pin = none; first_login = none; updated_at = none })
  pin_fields env owner name (some pin) = do
    found ← gets (R.account.find_one (has_pin_of owner pin))
    if is_null found
        then pure (record {
          account_name = name;
          pin = some pin;
          first_login = some false;
          updated_at = some (today env);
        })
        else throw (
            bad_request
              "This PIN is already in use by another account. Please choose a different PIN.")

  unfoldable pub update_found :
      Environment → String → UpdateAccountDto → JwtToken → Option Account → Exec Db UpdateFields
  update_found env id dto jwt none = throw (not_found "Account not found")
  update_found env id dto jwt (some account) =
      if may_update jwt account.user
      then (do
        fields ← pin_fields env account.user (non_empty dto.account_name) (non_empty dto.pin)
        update_account R id (write_fields env fields)
        pure fields)
      else throw (unauthorized "You cannot update an account you do not own")

  unfoldable pub update : Environment → String → UpdateAccountDto → JwtToken → Exec Db UpdateFields
  unfolding update_found
  update env id dto jwt = do
    account ← gets (find_user_by_account id)
    update_found env id dto jwt account

  unfoldable pub remove_found : String → JwtToken → Option Account → Exec Db (Unit {0})
  remove_found id payload none = throw (not_found "Account not found")
  remove_found id payload (some account) =
      if may_remove payload account.user id
      then delete_account R id
      else throw (unauthorized "You cannot delete an account you do not own")

  unfoldable pub remove : String → JwtToken → Exec Db (Unit {0})
  unfolding remove_found
  remove id payload = do account ← gets (find_user_by_account id); remove_found id payload account
