-- ===== src/System/Failures/Serving.antt =====
-- The requests on the devices, and all requests: which of them throw no TypeError.
use mathlib.Core.Path.{subst, sym}
use damaru_server.Prelude.{
  String, ◌≡◌, ◌≢◌, refl, List, ap, Bool, true, false, Option, none, some, ◌==◌, Option-cases, inl,
  inr,
}
use damaru_server.Prelude.Exec.{Exec, Result, ok, err, type_error, non_null, non_null-eq-ok}
use damaru_server.Token.{JwtToken, role_name}
use damaru_server.Environment.{Environment}
use damaru_server.Guards.{http}
use damaru_server.Guards.Laws.{IsAllowed-cases, can_activate_iff, can_activate_refusal}
use damaru_server.Database.{UserEmulator, Db}
use damaru_server.Database.Repositories.{Repositories}
use damaru_server.Database.Statements.{
  insert_emulator, update_emulator, delete_emulator, update_log, delete_log,
}
use damaru_server.ActivityLogs
use damaru_server.Users.{Draws}
use damaru_server.Emulators.Links.{links_now}
use damaru_server.Emulators.Devices.{
  EmulatorDto, EmulatorPatch, new_emulator, write, write_patch, owned, must_own, find_one,
  link_screenshot,
}
use damaru_server.Emulators.Devices
use damaru_server.Emulators.Links.{MultiDevicesLinkDto, link_emulator, unlink_emulator}
use damaru_server.System.Failures.Assignments.{
  assign-IsTyped, unassign-IsTyped, assign_account-IsTyped, unassign_account-IsTyped,
}
use damaru_server.Routes.{
  LinkBody, with_list, with_action, EmulatorRequest, AccountRequest, UserRequest, LogRequest,
  Request, emulators, accounts, users, logs, create_emulator, upload_file,
  update_emulator as update_device, delete_emulator as delete_device, link_emulators,
  unlink_emulators, extend_expiry, assign_multi_accounts, unassign_multi_accounts,
  assign_multi_emulators, unassign_multi_emulators, create_account, update_account, delete_account,
  create_user, update_user, delete_user, create_log, update_log as change_log,
  delete_log as drop_log, guard_of, answered, handle, handle_emulators, handle_accounts,
  handle_users, handle_logs, serve, with_role,
}
use damaru_server.System.Seeder.Rows.{HasRole}
use damaru_server.System.Failures.{
  IsTyped, HasAdmin, continue-IsTyped, saved-IsTyped, saved_rows-IsTyped, saved_all-IsTyped,
  link_emulator-IsTyped, unlink_emulator-IsTyped, extend-IsTyped,
}
use damaru_server.System.Failures.Requests.{
  log-IsTyped, create_account-IsTyped, update_account-IsTyped, remove_account-IsTyped,
  create_user-IsTyped, update_user-IsTyped, remove_user-IsTyped,
}

module _ (R : Repositories) (env : Environment) where
  create-IsTyped : (dto : EmulatorDto) (db : Db) → IsTyped (Devices.create R dto db)
  unfolding Devices.create insert_emulator
  create-IsTyped dto db = elim (Option-cases (find_one R dto.device_id db)) [
    | inr (e, found) ↦ rw found (λ q. cc)
    | inl missing ↦ rw missing (
        continue-IsTyped (insert_emulator R (new_emulator dto) db) _ (saved-IsTyped _ _ db)
          (λ _ t _ e. cc))
  ]

  write-IsTyped : (id : String) (patch : EmulatorPatch) (db : Db) → IsTyped (write R id patch db)
  unfolding write update_emulator
  write-IsTyped id patch db =
      continue-IsTyped (update_emulator R id (write_patch patch) db) _ (saved-IsTyped _ _ db)
        (λ _ t _ e. cc)

  owned-IsTyped :
      (b : Bool) (link : Option UserEmulator) (m : Exec Db String) (db : Db)
      → IsTyped (m db)
      → IsTyped (owned R b link m db)
  unfolding owned
  owned-IsTyped true none m db h = λ q. cc
  owned-IsTyped true (some u) m db h = h
  owned-IsTyped false none m db h = h
  owned-IsTyped false (some u) m db h = h

  update-IsTyped :
      (id : String) (patch : EmulatorPatch) (user : JwtToken) (db : Db)
      → IsTyped (Devices.update R id patch (some user) db)
  unfolding Devices.update
  update-IsTyped id patch user db =
      owned-IsTyped (must_own user) (R.user_emulator.find_one (links_now user.sub id) db)
        (write R id patch) db (write-IsTyped id patch db)

  delete-IsTyped : (id : String) (db : Db) → IsTyped (delete_emulator R id db)
  unfolding delete_emulator
  delete-IsTyped id db = elim (Option-cases (R.emulator.delete (λ e. e.device_id == id) db)) [
    | inl refused ↦ rw (refused, delete_emulator) (λ q. cc)
    | inr (t, gone) ↦ rw (gone, delete_emulator) (saved_all-IsTyped _ db)
  ]

  remove-IsTyped : (id : String) (db : Db) → IsTyped (Devices.remove R id db)
  unfolding Devices.remove
  remove-IsTyped id db =
      continue-IsTyped (delete_emulator R id db) _ (delete-IsTyped id db) (λ _ t _ e. cc)

  screenshot-IsTyped : (device : String) (db : Db) → IsTyped (link_screenshot R env device db)
  unfolding link_screenshot update_emulator
  screenshot-IsTyped device db = elim (Option-cases (find_one R device db)) [
    | inl missing ↦ rw missing (λ q. cc)
    | inr (e, found) ↦ rw found (
        continue-IsTyped (update_emulator R e.device_id _ db) _ (saved-IsTyped _ _ db)
          (λ _ t _ q. cc))
  ]

answered-IsTyped :
    {A : Type 0} (message : String) (r : Result A × Db) → IsTyped r → IsTyped (answered message r)
answered-IsTyped message (ok a, t) h = λ q. cc
answered-IsTyped message (err e, t) h = λ q. let same : e ≡ type_error = cc in h (ap err same)

non_null-IsTyped : {A : Type 0} (o : Option A) (db : Db) → o ≢ none → IsTyped (non_null o db)
non_null-IsTyped none db there = absurd (there refl)
non_null-IsTyped (some a) db there = λ q. cc

listed-IsTyped :
    (body : LinkBody) (m : MultiDevicesLinkDto → Exec Db (Unit {0})) (db : Db)
    → body.device_ids ≢ none
    → ((l : List String) → IsTyped (m (record { device_ids = l; user_id = body.user_id }) db))
    → IsTyped (with_list body m db)
listed-IsTyped body m db there h =
    continue-IsTyped (non_null body.device_ids db) _ (non_null-IsTyped body.device_ids db there)
      (λ l s e.
        subst (λ t. IsTyped (m (record { device_ids = l; user_id = body.user_id }) t))
          (sym (non_null-eq-ok body.device_ids db e).1) (h l))

-- What a request needs: the file of an upload, the list and the action of a body; an admin account of
-- the user who is linked to devices, and the role of a user who is created.
abbrev EmulatorNeeds : EmulatorRequest → Db → Type 0
EmulatorNeeds (upload_file device file) db = file ≢ none
EmulatorNeeds (link_emulators body) db = (body.device_ids ≢ none) × HasAdmin body.user_id db
EmulatorNeeds (unlink_emulators body) db = body.device_ids ≢ none
EmulatorNeeds (assign_multi_accounts dto) db = dto.account_ids ≢ none
EmulatorNeeds (unassign_multi_accounts dto) db = dto.account_ids ≢ none
EmulatorNeeds (assign_multi_emulators dto) db = dto.device_ids ≢ none
EmulatorNeeds (unassign_multi_emulators dto) db = dto.device_ids ≢ none
EmulatorNeeds request db = Unit

abbrev UserNeeds : UserRequest → Db → Type 0
UserNeeds (create_user dto) db = HasRole (role_name (with_role dto).role) db
UserNeeds request db = Unit

abbrev LogNeeds : LogRequest → Type 0
LogNeeds (create_log body) = body.action ≢ none
LogNeeds request = Unit

abbrev pub Needs : Request → Db → Type 0
Needs (emulators request) db = EmulatorNeeds request db
Needs (users request) db = UserNeeds request db
Needs (logs request) db = LogNeeds request
Needs request db = Unit

module _ (R : Repositories) (env : Environment) (d : Draws) (user : JwtToken) (db : Db) where
  emulators-IsTyped :
      (request : EmulatorRequest)
      → EmulatorNeeds request db
      → IsTyped (handle_emulators R env d user request db)
  unfolding handle_emulators
  emulators-IsTyped (create_emulator dto) h = create-IsTyped R env dto db
  emulators-IsTyped (upload_file device file) h = answered-IsTyped _ _ (
      continue-IsTyped (link_screenshot R env device db) _ (screenshot-IsTyped R env device db)
        (λ _ t _. non_null-IsTyped file t h))
  emulators-IsTyped (update_device id patch) h = update-IsTyped R env id patch user db
  emulators-IsTyped (delete_device id) h = remove-IsTyped R env id db
  emulators-IsTyped (link_emulators body) h = answered-IsTyped _ _ (
      listed-IsTyped body (link_emulator R env) db h.0 (λ l.
        link_emulator-IsTyped R env (record { device_ids = l; user_id = body.user_id }) db h.1))
  emulators-IsTyped (unlink_emulators body) h = answered-IsTyped _ _ (
      listed-IsTyped body (unlink_emulator R env) db h
        (λ l. unlink_emulator-IsTyped R env (record { device_ids = l; user_id = body.user_id }) db))
  emulators-IsTyped (extend_expiry dto) h = answered-IsTyped _ _ (extend-IsTyped R env dto db)
  emulators-IsTyped (assign_multi_accounts dto) h =
      answered-IsTyped _ _ (assign-IsTyped R dto user db h)
  emulators-IsTyped (unassign_multi_accounts dto) h =
      answered-IsTyped _ _ (unassign-IsTyped R dto db h)
  emulators-IsTyped (assign_multi_emulators dto) h =
      answered-IsTyped _ _ (assign_account-IsTyped R dto user db h)
  emulators-IsTyped (unassign_multi_emulators dto) h =
      answered-IsTyped _ _ (unassign_account-IsTyped R dto user db h)

  accounts-IsTyped : (request : AccountRequest) → IsTyped (handle_accounts R env d user request db)
  unfolding handle_accounts
  accounts-IsTyped (create_account dto) =
      answered-IsTyped _ _ (create_account-IsTyped R env d d.pin _ db)
  accounts-IsTyped (update_account id dto) =
      answered-IsTyped _ _ (update_account-IsTyped R env d id dto user db)
  accounts-IsTyped (delete_account id) =
      answered-IsTyped _ _ (remove_account-IsTyped R env d id user db)

  users-IsTyped :
      (request : UserRequest) → UserNeeds request db → IsTyped (handle_users R env d request db)
  unfolding handle_users
  users-IsTyped (create_user dto) h =
      answered-IsTyped _ _ (create_user-IsTyped R env d (with_role dto) db h)
  users-IsTyped (update_user id dto) h =
      answered-IsTyped _ _ (update_user-IsTyped R env d id dto db)
  users-IsTyped (delete_user id) h = remove_user-IsTyped R env d id db

  logs-IsTyped :
      (request : LogRequest) → LogNeeds request → IsTyped (handle_logs R env d request db)
  unfolding handle_logs ActivityLogs.update ActivityLogs.remove update_log delete_log
  logs-IsTyped (create_log body) h =
      continue-IsTyped (non_null body.action db) _ (non_null-IsTyped body.action db h)
        (λ action s _. log-IsTyped R env d (with_action body action) s)
  logs-IsTyped (change_log id patch) h = answered-IsTyped _ _ (saved-IsTyped _ _ db)
  logs-IsTyped (drop_log id) h =
      continue-IsTyped (delete_log R id db) _ (saved_rows-IsTyped _ _ db) (λ _ t _ e. cc)

  handle-IsTyped : (request : Request) → Needs request db → IsTyped (handle R env d user request db)
  handle-IsTyped (emulators request) h = emulators-IsTyped request h
  handle-IsTyped (accounts request) h = accounts-IsTyped request
  handle-IsTyped (users request) h = users-IsTyped request h
  handle-IsTyped (logs request) h = logs-IsTyped request h

module _ (R : Repositories) (env : Environment) (d : Draws) where
  -- A request throws no TypeError, whatever the token, if an upload has its file, the body has the list
  -- of devices or accounts that the route loops over and the action of a log entry, the user who is
  -- linked to devices has an admin account, and the role of a user who is created is stored. The other
  -- fields of a body are supposed to have the types that the code declares for them.
  pub serve-IsTyped :
      (token : Option JwtToken) (request : Request) (db : Db)
      → Needs request db
      → IsTyped (serve R env d token request db)
  unfolding serve
  serve-IsTyped none request db h = λ q. cc
  serve-IsTyped (some user) request db h = elim (IsAllowed-cases (guard_of request) user) [
    | inl allowed ↦
        rw ((can_activate_iff (guard_of request) http user).1 (λ p. cc, allowed))
          (handle-IsTyped R env d user db request h)
    | inr stop ↦ rw ((can_activate_refusal (guard_of request) user stop).0) (λ q. cc)
  ]
