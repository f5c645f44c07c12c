-- ===== src/Routes/Consistency/Accounts.antt =====
-- The methods of the account and the user services that keep the links.
use damaru_server.Prelude.{
  String, Bool, true, false, not, ◌&&◌, Option, none, some, ◌==◌, Option-cases, Bool-cases, inl,
  inr,
}
use damaru_server.Prelude.Exec.{Exec, ok, pure, skip, gets, when, ◌>>=◌, ◌>>◌}
use damaru_server.Token.{JwtToken, role_name}
use damaru_server.Environment.{Environment}
use damaru_server.Database.{
  Account, User, Role, Db, is_null, create_user, create_account, update_user, new_user, new_account,
  user_fields,
}
use damaru_server.Database.Repositories.{Repositories}
use damaru_server.Database.Statements.{insert_account, insert_log, insert_user, delete_account}
use damaru_server.Database.Statements
use damaru_server.ActivityLogs.{CreateActivityLogDto, log}
use damaru_server.Emulators.Links.Kept.{KeepsLinks, KeepsLinks-refl, continue-KeepsLinks}
use damaru_server.Emulators.Links.Kept.Tables.{
  insert_log-KeepsLinks, insert_account-KeepsLinks, update_account-KeepsLinks,
  insert_user-KeepsLinks, update_user-KeepsLinks,
}
use damaru_server.Emulators.Links.Kept.Statements.{delete_account-KeepsLinks}
use damaru_server.Accounts.{
  CreateAccountDto, UpdateAccountDto, UpdateFields, create, update, remove, insert_new, is_true,
  is_empty, is_admin_of, or_else, pin_fields, write_fields, has_pin_of, update_found, remove_found,
  may_update, may_remove, find_user_by_account, non_empty,
}
use damaru_server.Accounts
use damaru_server.Users.{
  CreateUserDto, UpdateUserDto, UserFields, Draws, user_row, root_account, add_root_account,
  is_android, write_user, update_fields,
}
use damaru_server.Users

module _ (R : Repositories) (db : Db) where
  pub log-KeepsLinks : (dto : CreateActivityLogDto) → KeepsLinks db (log R dto db).1
  unfolding log
  log-KeepsLinks dto =
      continue-KeepsLinks db _ _
        (insert_log-KeepsLinks R db
          (λ id. record { id = id; action = dto.action; metadata = dto.metadata }))
        (λ _ s. KeepsLinks-refl s)

  pub create-KeepsLinks :
      (env : Environment) (pin : String) (dto : CreateAccountDto)
      → KeepsLinks db (create R env pin dto db).1
  unfolding create insert_new
  create-KeepsLinks env pin dto =
      elim (Bool-cases
        (is_true dto.is_admin && not (is_empty (R.account.find (is_admin_of dto.user_id) db)))) [
          | inl refused ↦ rw refused (KeepsLinks-refl db)
          | inr free ↦ rw free (
              continue-KeepsLinks db _ _
                (insert_account-KeepsLinks R db
                  (Accounts.new_account env dto (or_else dto.pin pin)))
                (λ _ s. KeepsLinks-refl s))
        ]

  pin_fields-KeepsLinks :
      (env : Environment) (owner : String) (name pin : Option String)
      → KeepsLinks db (pin_fields R env owner name pin db).1
  unfolding pin_fields
  pin_fields-KeepsLinks env owner name none = KeepsLinks-refl db
  pin_fields-KeepsLinks env owner name (some pin) =
      elim (Bool-cases (is_null (R.account.find_one (has_pin_of owner pin) db))) [
        | inl free ↦ rw free (KeepsLinks-refl db)
        | inr taken ↦ rw taken (KeepsLinks-refl db)
      ]

  update_found-KeepsLinks :
      (env : Environment) (id : String) (dto : UpdateAccountDto) (jwt : JwtToken)
      (o : Option Account)
      → KeepsLinks db (update_found R env id dto jwt o db).1
  unfolding update_found
  update_found-KeepsLinks env id dto jwt none = KeepsLinks-refl db
  update_found-KeepsLinks env id dto jwt (some a) = elim (Bool-cases (may_update jwt a.user)) [
    | inr forbidden ↦ rw forbidden (KeepsLinks-refl db)
    | inl allowed ↦ rw allowed (
        continue-KeepsLinks {A = UpdateFields} db
          (pin_fields R env a.user (non_empty dto.account_name) (non_empty dto.pin) db)
          (λ f. do Statements.update_account R id (write_fields env f); pure f)
          (pin_fields-KeepsLinks env a.user (non_empty dto.account_name) (non_empty dto.pin))
          (λ f s.
            continue-KeepsLinks s (Statements.update_account R id (write_fields env f) s)
              (λ _. pure f) (update_account-KeepsLinks R s id (write_fields env f))
              (λ _ u. KeepsLinks-refl u)))
  ]

  pub update-KeepsLinks :
      (env : Environment) (id : String) (dto : UpdateAccountDto) (jwt : JwtToken)
      → KeepsLinks db (update R env id dto jwt db).1
  unfolding update
  update-KeepsLinks env id dto jwt =
      update_found-KeepsLinks env id dto jwt (find_user_by_account R id db)

  remove_found-KeepsLinks :
      (id : String) (jwt : JwtToken) (o : Option Account)
      → KeepsLinks db (remove_found R id jwt o db).1
  unfolding remove_found
  remove_found-KeepsLinks id jwt none = KeepsLinks-refl db
  remove_found-KeepsLinks id jwt (some a) = elim (Bool-cases (may_remove jwt a.user id)) [
    | inr forbidden ↦ rw forbidden (KeepsLinks-refl db)
    | inl allowed ↦ rw allowed (delete_account-KeepsLinks R db id)
  ]

  pub remove-KeepsLinks : (id : String) (jwt : JwtToken) → KeepsLinks db (remove R id jwt db).1
  unfolding remove
  remove-KeepsLinks id jwt = remove_found-KeepsLinks id jwt (find_user_by_account R id db)

abbrev root_account_log : Draws → CreateUserDto → String → String → CreateActivityLogDto
root_account_log d dto user account = record {
  user_id = some user;
  account_id = some account;
  device_id = none;
  action = create_account;
  metadata = new_account user dto.name d.pin;
}

abbrev user_log : CreateUserDto → String → CreateActivityLogDto
user_log dto user = record {
  user_id = some user;
  account_id = none;
  device_id = none;
  action = create_user;
  metadata = new_user dto.email dto.name (some (role_name dto.role)) dto.password;
}

abbrev update_log : String → UserFields → CreateActivityLogDto
update_log id f = record {
  user_id = some id;
  account_id = none;
  device_id = none;
  action = update_user;
  metadata = user_fields f.name f.email f.password;
}

when-KeepsLinks :
    (db : Db) (b : Bool) (m : Exec Db (Unit {0}))
    → KeepsLinks db (m db).1
    → KeepsLinks db (when b m db).1
when-KeepsLinks db true m h = h
when-KeepsLinks db false m h = KeepsLinks-refl db

module _ (R : Repositories) (env : Environment) (d : Draws) where
  add_root_account-KeepsLinks :
      (dto : CreateUserDto) (user : String) (db : Db)
      → KeepsLinks db (add_root_account R env d dto user db).1
  unfolding add_root_account
  add_root_account-KeepsLinks dto user db =
      continue-KeepsLinks {A = Unit} db (Accounts.create R env d.pin (root_account d dto user) db)
        (λ made. do log R (root_account_log d dto user made.id); skip)
        (create-KeepsLinks R db env d.pin (root_account d dto user))
        (λ made s.
          continue-KeepsLinks {A = Unit} s (log R (root_account_log d dto user made.id) s)
            (λ _. skip) (log-KeepsLinks R s (root_account_log d dto user made.id))
            (λ _ t. KeepsLinks-refl t))

  abbrev finished : CreateUserDto → String → Exec Db (Option User × String)
  finished dto user = do
    when (is_android dto.role) (add_root_account R env d dto user)
    stored ← gets (R.user.find_one (λ u. u.id == user))
    pure (stored, or_else dto.password d.password)

  abbrev recorded : CreateUserDto → String → Exec Db (Option User × String)
  recorded dto user = do log R (user_log dto user); finished dto user

  abbrev insert_row : CreateUserDto → Role → Exec Db (Option User × String)
  insert_row dto role = do user ← insert_user R (user_row d dto role.id); recorded dto user

  insert_row-KeepsLinks :
      (dto : CreateUserDto) (role : Role) (db : Db) → KeepsLinks db (insert_row dto role db).1
  insert_row-KeepsLinks dto role db =
      continue-KeepsLinks {A = Option User × String} db (insert_user R (user_row d dto role.id) db)
        (recorded dto) (insert_user-KeepsLinks R db (user_row d dto role.id))
        (λ user s.
          continue-KeepsLinks {A = Option User × String} s (log R (user_log dto user) s)
            (λ _. finished dto user) (log-KeepsLinks R s (user_log dto user))
            (λ _ t.
              continue-KeepsLinks {A = Option User × String} t
                (when (is_android dto.role) (add_root_account R env d dto user) t)
                (λ _ t.
                  (ok (R.user.find_one (λ u. u.id == user) t, or_else dto.password d.password), t))
                (when-KeepsLinks t (is_android dto.role) (add_root_account R env d dto user)
                  (add_root_account-KeepsLinks dto user t))
                (λ _ w. KeepsLinks-refl w)))

  pub create_user-KeepsLinks :
      (dto : CreateUserDto) (db : Db) → KeepsLinks db (Users.create R env d dto db).1
  unfolding Users.create
  create_user-KeepsLinks dto db =
      elim (Option-cases (R.role.find_one (λ r. r.name == role_name dto.role) db)) [
        | inl missing ↦ rw missing (KeepsLinks-refl db)
        | inr (role, found) ↦ rw found (insert_row-KeepsLinks dto role db)
      ]

  write_fields-KeepsLinks :
      (id : String) (f : UserFields) (db : Db)
      → KeepsLinks db (Users.write_fields R env d id f db).1
  unfolding Users.write_fields
  write_fields-KeepsLinks id f db =
      continue-KeepsLinks {A = UserFields} db (log R (update_log id f) db)
        (λ _. do Statements.update_user R id (write_user f); pure f)
        (log-KeepsLinks R db (update_log id f))
        (λ _ s.
          continue-KeepsLinks {A = UserFields} s (Statements.update_user R id (write_user f) s)
            (λ _. pure f) (update_user-KeepsLinks R s id (write_user f)) (λ _ t. KeepsLinks-refl t))

  pub patch_user-KeepsLinks :
      (id : String) (dto : UpdateUserDto) (db : Db)
      → KeepsLinks db (Users.update R env d id dto db).1
  unfolding Users.update
  patch_user-KeepsLinks id dto db = elim (Bool-cases (is_null dto.role)) [
    | inl absent ↦ rw absent (write_fields-KeepsLinks id (update_fields R env d dto) db)
    | inr present ↦ rw present (KeepsLinks-refl db)
  ]
