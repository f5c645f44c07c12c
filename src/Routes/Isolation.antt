-- ===== src/Routes/Isolation.antt =====
-- The requests of the controllers (modules/*/controllers) and the accounts of other users.
use mathlib.Core.Path.{subst}
use damaru_server.Prelude.{
  String, Option, none, ◌≡◌, ◌≢◌, refl, ap, ◌∙◌, true, false, some, List, Bool,
}
use damaru_server.Prelude.Exec.{Exec, Result, ok, err, continue, continue-keeps, non_null}
use damaru_server.Token.{JwtToken, super_admin, role_name}
use damaru_server.Environment.{Environment}
use damaru_server.Guards.{http, can_activate, super_admin_guard}
use damaru_server.Guards.Laws.{IsAllowed, super_guard}
use damaru_server.Database.{Account, Db}
use damaru_server.Database.Repositories.{Repositories}
use damaru_server.Accounts.Laws.Isolation.{others, create-keeps, update-others, remove-others}
use damaru_server.Accounts
use damaru_server.Users.{Draws}
use damaru_server.Emulators.Owned.{
  create-Has, link_screenshot-Has, update-Has, remove-Has, assign_emulator-Has,
  unassign_from_accounts-Has, assign_to_account-Has, unassign_to_account-Has,
}
use damaru_server.Emulators.Assignments.{
  assign_emulator, assign_emulators_to_account, unassign_emulators_to_account,
  unassign_emulator_from_accounts,
}
use damaru_server.Emulators.Devices
use damaru_server.Emulators.Devices.{link_screenshot}
use damaru_server.Routes.{
  Request, EmulatorRequest, create_emulator, upload_file, update_emulator, delete_emulator,
  link_emulators, unlink_emulators, extend_expiry, assign_multi_accounts, unassign_multi_accounts,
  assign_multi_emulators, unassign_multi_emulators, emulators, accounts, AccountRequest,
  create_account, update_account, delete_account, users, logs, guard_of, handle, handle_emulators,
  handle_accounts, serve, guarded, answered,
}
use damaru_server.Routes.Laws.{serve_refused}

non_null-state : {A : Type 0} (o : Option A) (db : Db) → (non_null o db).1 ≡ db
non_null-state none db = refl
non_null-state (some a) db = refl

answered-state : {A : Type 0} (message : String) (r : Result A × Db) → (answered message r).1 ≡ r.1
answered-state message (ok a, t) = refl
answered-state message (err e, t) = refl

module _ (user k : String) (db : Db) where
  -- The accounts of other users at the key `k` are those of `db`.
  abbrev Same : Db → Type 0
  Same t = others user t k ≡ others user db k

  reply-Same :
      {A : Type 0} (message : String) (r : Result A × Db) → Same r.1 → Same (answered message r).1
  reply-Same message r h = ap (λ (t : Db). others user t k) (answered-state message r) ∙ h

  table-Same : (t : Db) → t.accounts ≡ db.accounts → Same t
  table-Same t same = ap (λ (l : List Account). others user (record db { accounts = l }) k) same

  reply-table :
      {A : Type 0} (message : String) (r : Result A × Db)
      → r.1.accounts ≡ db.accounts
      → Same (answered message r).1
  reply-table message r same = reply-Same message r (table-Same r.1 same)

  guarded-Same : (r : Result Bool) (m : Exec Db String) → Same (m db).1 → Same (guarded r m db).1
  guarded-Same (ok true) m h = h
  guarded-Same (ok false) m h = refl
  guarded-Same (err e) m h = refl

module _ (R : Repositories) (env : Environment) (d : Draws) (jwt : JwtToken) (db : Db) (k : String)
    (plain : jwt.role ≢ role_name super_admin) where
  abbrev Kept : Db → Type 0
  Kept t = others jwt.sub t k ≡ others jwt.sub db k

  accounts-Kept : (request : AccountRequest) → Kept (handle_accounts R env d jwt request db).1
  unfolding handle_accounts
  accounts-Kept (create_account dto) =
      reply-Same jwt.sub k db "" (Accounts.create R env d.pin (record dto { user_id = jwt.sub }) db)
        (create-keeps R jwt.sub k db env d.pin (record dto { user_id = jwt.sub }) refl)
  accounts-Kept (update_account id dto) =
      reply-Same jwt.sub k db "Account updated" (Accounts.update R env id dto jwt db)
        (update-others R jwt db k env id dto plain)
  accounts-Kept (delete_account id) =
      reply-Same jwt.sub k db "Account Deleted" (Accounts.remove R id jwt db)
        (remove-others R jwt db k id plain)

  handled :
      (request : Request)
      → Kept (handle R env d jwt request db).1
      → Kept (serve R env d (some jwt) request db).1
  unfolding serve
  handled request h =
      guarded-Same jwt.sub k db (can_activate (guard_of request) http (some jwt))
        (handle R env d jwt request) h

  closed :
      (request : Request)
      → guard_of request ≡ super_admin_guard
      → Kept (serve R env d (some jwt) request db).1
  closed request super =
      let refused =
        (serve_refused R env d jwt request db
          (λ open'. plain (super_guard jwt (subst (λ g. IsAllowed g jwt) super open')))).1 in
      ap (λ (x : Result String × Db). others jwt.sub x.1 k) refused

  devices-Kept :
      (request : EmulatorRequest) → Kept (serve R env d (some jwt) (emulators request) db).1
  unfolding handle_emulators
  devices-Kept (create_emulator dto) =
      handled (emulators (create_emulator dto))
        (table-Same jwt.sub k db (Devices.create R dto db).1 (create-Has R db.accounts dto db refl))
  devices-Kept (upload_file device file) = handled (emulators (upload_file device file)) (
      reply-table jwt.sub k db _ (continue (link_screenshot R env device db) (λ _. non_null file)) (
        continue-keeps (λ (t : Db). t.accounts ≡ db.accounts) (link_screenshot R env device db) _
          (link_screenshot-Has R db.accounts env device db refl)
          (λ _ s h. ap (λ (t : Db). t.accounts) (non_null-state file s) ∙ h)))
  devices-Kept (update_emulator id patch) = handled (emulators (update_emulator id patch)) (
      table-Same jwt.sub k db (Devices.update R id patch (some jwt) db).1
        (update-Has R db.accounts id patch jwt db refl))
  devices-Kept (delete_emulator id) =
      handled (emulators (delete_emulator id))
        (table-Same jwt.sub k db (Devices.remove R id db).1 (remove-Has R db.accounts id db refl))
  devices-Kept (link_emulators dto) = closed (emulators (link_emulators dto)) refl
  devices-Kept (unlink_emulators dto) = closed (emulators (unlink_emulators dto)) refl
  devices-Kept (extend_expiry dto) = closed (emulators (extend_expiry dto)) refl
  devices-Kept (assign_multi_accounts dto) = handled (emulators (assign_multi_accounts dto)) (
      reply-table jwt.sub k db _ (assign_emulator R dto jwt db)
        (assign_emulator-Has R db.accounts dto jwt db refl))
  devices-Kept (unassign_multi_accounts dto) = handled (emulators (unassign_multi_accounts dto)) (
      reply-table jwt.sub k db _ (unassign_emulator_from_accounts R dto db)
        (unassign_from_accounts-Has R db.accounts dto db refl))
  devices-Kept (assign_multi_emulators dto) = handled (emulators (assign_multi_emulators dto)) (
      reply-table jwt.sub k db _ (assign_emulators_to_account R dto jwt db)
        (assign_to_account-Has R db.accounts dto jwt db refl))
  devices-Kept (unassign_multi_emulators dto) = handled (emulators (unassign_multi_emulators dto)) (
      reply-table jwt.sub k db _ (unassign_emulators_to_account R dto jwt db)
        (unassign_to_account-Has R db.accounts dto jwt db refl))

  -- A user who is not a super admin changes no account of another user, and adds and removes none,
  -- by any request of the controllers, and whether it succeeds or fails: what a key shows of the
  -- accounts of the other users is as before.
  pub serve-others :
      (request : Request)
      → others jwt.sub (serve R env d (some jwt) request db).1 k ≡ others jwt.sub db k
  serve-others (emulators request) = devices-Kept request
  serve-others (accounts request) = handled (accounts request) (accounts-Kept request)
  serve-others (users request) = closed (users request) refl
  serve-others (logs request) = closed (logs request) refl
