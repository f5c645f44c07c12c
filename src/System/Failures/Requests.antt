-- ===== src/System/Failures/Requests.antt =====
-- The requests of the controllers, and where a TypeError may come from.
use damaru_server.Prelude.{
  String, ◌≡◌, not, ◌&&◌, Option, none, some, List, ◌==◌, arith, eq_iff, Option-cases, Bool-cases,
  inl, inr,
}
use damaru_server.Prelude.Exec.{ok, for_each, when, logged-returns, skip, ◌>>◌}
use damaru_server.Token.{Roles, JwtToken, role_name}
use damaru_server.Environment.{Environment}
use damaru_server.Database.{UserEmulator, Db, is_null, available}
use damaru_server.Database.Repositories.{Repositories}
use damaru_server.Database.Statements.{
  insert_log, update_log, delete_log, insert_user, insert_account, update_account, delete_account,
  insert_emulator, delete_emulator, prune_assignments, prune_links,
}
use damaru_server.Database.Statements
use damaru_server.ActivityLogs.{CreateActivityLogDto, log}
use damaru_server.Accounts.{
  CreateAccountDto, UpdateAccountDto, UpdateFields, pin_fields, may_update, may_remove,
}
use damaru_server.Accounts
use damaru_server.Users.{
  CreateUserDto, UpdateUserDto, UserFields, Draws, add_root_account, is_android, user_row,
  root_account, links_of, deletion, free_device,
}
use damaru_server.Users
use damaru_server.Emulators.Links.{set_state}
use damaru_server.System.Seeder.Rows.{HasRole}
use damaru_server.System.Failures.{
  IsTyped, for_each-IsTyped, continue-IsTyped, saved-IsTyped, saved_all-IsTyped,
}

module _ (R : Repositories) (env : Environment) (d : Draws) where
  pub log-IsTyped : (dto : CreateActivityLogDto) (db : Db) → IsTyped (log R dto db)
  unfolding log insert_log
  log-IsTyped dto db = continue-IsTyped (insert_log R _ db) _ (saved-IsTyped _ _ db) (λ _ t _ e. cc)

  pub create_account-IsTyped :
      (pin : String) (dto : CreateAccountDto) (db : Db) → IsTyped (Accounts.create R env pin dto db)
  unfolding Accounts.create Accounts.insert_new insert_account
  create_account-IsTyped pin dto db =
      elim (Bool-cases (
        Accounts.is_true dto.is_admin
        && not (Accounts.is_empty (R.account.find (Accounts.is_admin_of dto.user_id) db)))) [
          | inl refused ↦ rw refused (λ q. cc)
          | inr free ↦
              rw free
                (continue-IsTyped (insert_account R _ db) _ (saved-IsTyped _ _ db) (λ _ t _ e. cc))
        ]

  pin_fields-IsTyped :
      (owner : String) (name pin : Option String) (db : Db)
      → IsTyped (pin_fields R env owner name pin db)
  unfolding pin_fields
  pin_fields-IsTyped owner name none db = λ q. cc
  pin_fields-IsTyped owner name (some pin) db =
      elim (Bool-cases (is_null (R.account.find_one (Accounts.has_pin_of owner pin) db))) [
        | inl free ↦ rw free (λ q. cc)
        | inr used ↦ rw used (λ q. cc)
      ]

  pub update_account-IsTyped :
      (id : String) (dto : UpdateAccountDto) (user : JwtToken) (db : Db)
      → IsTyped (Accounts.update R env id dto user db)
  unfolding Accounts.update Accounts.update_found Accounts.find_user_by_account update_account
  update_account-IsTyped id dto user db =
      elim (Option-cases (R.account.find_one (λ a. a.id == id) db)) [
        | inl missing ↦ rw missing (λ q. cc)
        | inr (a, found) ↦ elim (Bool-cases (may_update user a.user)) [
          | inr closed ↦ rw found (rw closed (λ q. cc))
          | inl open' ↦ rw found (
              rw open' (
                continue-IsTyped (pin_fields R env a.user _ _ db) _
                  (pin_fields-IsTyped a.user _ _ db)
                  (λ fields s _.
                    continue-IsTyped (update_account R id _ s) _ (saved-IsTyped _ _ s)
                      (λ _ t _ e. cc))))
        ]
      ]

  delete_account-IsTyped : (id : String) (db : Db) → IsTyped (delete_account R id db)
  unfolding delete_account
  delete_account-IsTyped id db = elim (Option-cases (R.account.delete (λ a. a.id == id) db)) [
    | inl refused ↦ rw (refused, delete_account) (λ q. cc)
    | inr (t, gone) ↦ rw (gone, delete_account) (saved_all-IsTyped _ db)
  ]

  pub remove_account-IsTyped :
      (id : String) (user : JwtToken) (db : Db) → IsTyped (Accounts.remove R id user db)
  unfolding Accounts.remove Accounts.remove_found Accounts.find_user_by_account
  remove_account-IsTyped id user db =
      elim (Option-cases (R.account.find_one (λ a. a.id == id) db)) [
        | inl missing ↦ rw missing (λ q. cc)
        | inr (a, found) ↦ elim (Bool-cases (may_remove user a.user id)) [
          | inr closed ↦ rw found (rw closed (λ q. cc))
          | inl open' ↦ rw found (rw open' (delete_account-IsTyped id db))
        ]
      ]

  add_root-IsTyped :
      (dto : CreateUserDto) (user : String) (r : Roles) (db : Db)
      → IsTyped (when (is_android r) (add_root_account R env d dto user) db)
  unfolding add_root_account
  add_root-IsTyped dto user Roles.super_admin db = λ q. cc
  add_root-IsTyped dto user Roles.emulator_admin db = λ q. cc
  add_root-IsTyped dto user Roles.android_user db =
      continue-IsTyped (Accounts.create R env d.pin (root_account d dto user) db) _
        (create_account-IsTyped d.pin (root_account d dto user) db)
        (λ made s _. continue-IsTyped (log R _ s) _ (log-IsTyped _ s) (λ _ t _ e. cc))

  -- A new user's role is stored.
  pub create_user-IsTyped :
      (dto : CreateUserDto) (db : Db)
      → HasRole (role_name dto.role) db
      → IsTyped (Users.create R env d dto db)
  unfolding Users.create insert_user
  create_user-IsTyped dto db h =
      elim (Option-cases (R.role.find_one (λ r. r.name == role_name dto.role) db)) [
        | inl missing ↦ absurd (
            ground (
              arith,
              R.role.find_one-complete (λ r. r.name == role_name dto.role) db h.key h.row missing
                  h.stored,
              eq_iff h.row.name (role_name dto.role),
              h.named,
            ))
        | inr (role, found) ↦ rw found (
            continue-IsTyped (insert_user R (user_row d dto role.id) db) _ (saved-IsTyped _ _ db)
              (λ id s _. continue-IsTyped (log R _ s) _ (log-IsTyped _ s) (λ _ t _.
                continue-IsTyped (when (is_android dto.role) (add_root_account R env d dto id) t) _
                  (add_root-IsTyped dto id dto.role t) (λ _ u _ e. cc))))
      ]

  pub update_user-IsTyped :
      (id : String) (dto : UpdateUserDto) (db : Db) → IsTyped (Users.update R env d id dto db)
  unfolding Users.update Users.write_fields Statements.update_user
  update_user-IsTyped id dto db = elim (Bool-cases (is_null dto.role)) [
    | inr refused ↦ rw refused (λ q. cc)
    | inl free ↦ rw free (
        continue-IsTyped (log R _ db) _ (log-IsTyped _ db) (λ _ s _.
          continue-IsTyped (Statements.update_user R id _ s) _ (saved-IsTyped _ _ s)
            (λ _ t _ e. cc)))
  ]

  delete_user-IsTyped : (id : String) (db : Db) → IsTyped (Statements.delete_user R id db)
  unfolding Statements.delete_user
  delete_user-IsTyped id db = elim (Option-cases (R.user.delete (λ u. u.id == id) db)) [
    | inl refused ↦ rw (refused, Statements.delete_user) (λ q. cc)
    | inr (t, gone) ↦ rw (gone, Statements.delete_user) (saved_all-IsTyped _ db)
  ]

  free_device-returns : (u : UserEmulator) (s : Db) → (free_device R u s).0 ≡ ok tt
  unfolding free_device
  free_device-returns u s =
      logged-returns ((do Statements.update_emulator R u.device (set_state available); skip) s)

  freed-IsTyped : (us : List UserEmulator) (db : Db) → IsTyped (for_each (free_device R) us db)
  unfolding free_device
  freed-IsTyped us db =
      for_each-IsTyped (λ _. Unit) (free_device R) (λ u s _ q. cc (free_device-returns u s))
        (λ u s _. tt) us db tt

  pub remove_user-IsTyped : (id : String) (db : Db) → IsTyped (Users.remove R id db)
  unfolding Users.remove
  remove_user-IsTyped id db =
      continue-IsTyped (log R (deletion id) db) _ (log-IsTyped (deletion id) db) (λ _ s _.
        continue-IsTyped (for_each (free_device R) (R.user_emulator.find (links_of id) db) s) _
          (freed-IsTyped (R.user_emulator.find (links_of id) db) s)
          (λ _ t _.
            continue-IsTyped (Statements.delete_user R id t) _ (delete_user-IsTyped id t)
              (λ _ u _ e. cc)))
