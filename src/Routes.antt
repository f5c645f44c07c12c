-- ===== src/Routes.antt =====
-- The controllers: src/modules/emulators/controllers/emulator.controller.ts,
-- src/modules/accounts/controllers/account.controller.ts,
-- src/modules/users/controllers/user.controller.ts and
-- src/modules/activity_logs/controllers/activity_log.controller.ts. A request names its route and holds what the
-- route reads; the answer is the message. Every controller has the guard of the JWT library first,
-- which attaches the token's payload to the request.
pub mod Laws
pub mod Isolation
pub mod Access
pub mod Patches
pub mod Consistency
pub mod Reads
use damaru_server.Prelude.{String, Bool, true, false, Option, none, some, List}
use Prim.Native.String.{◌++◌}
use damaru_server.Prelude.Exec.{
  Exec, Result, ok, err, http_exception, unauthorized, pure, throw, non_null, ◌>>=◌, ◌>>◌,
}
use damaru_server.Token.{Roles, JwtToken, android_user}
use damaru_server.Environment.{Environment}
use damaru_server.Guards.{
  Guard, http, can_activate, super_admin_guard, emulator_admin_guard, android_admin_guard,
  android_users,
}
use damaru_server.Database.{Actions, Metadata, Db}
use damaru_server.Database.Repositories.{Repositories}
use damaru_server.Accounts.{CreateAccountDto, UpdateAccountDto, or_else}
use damaru_server.Accounts
use damaru_server.ActivityLogs.{CreateActivityLogDto, LogPatch}
use damaru_server.ActivityLogs
use damaru_server.Users.{CreateUserDto, UpdateUserDto, Draws}
use damaru_server.Users
use damaru_server.Emulators.Links.{
  MultiDevicesLinkDto, ExtendExpiryDto, link_emulator, unlink_emulator, extend,
}
use damaru_server.Emulators.Assignments.{
  MultiAccountsLinkDto, MultiDevicesAccountLinkDto, assign_emulator, assign_emulators_to_account,
  unassign_emulators_to_account, unassign_emulator_from_accounts,
}
use damaru_server.Emulators.Devices.{EmulatorDto, EmulatorPatch, link_screenshot}
use damaru_server.Emulators.Devices

-- The body of POST /users, whose role may be absent.
pub record NewUser : Type 0 where
  pub email : String
  pub name : String
  pub role : Option Roles
  pub password : Option String

abbrev pub with_role : NewUser → CreateUserDto
with_role dto = record {
  email = dto.email;
  name = dto.name;
  role = or_else dto.role android_user;
  password = dto.password;
}

-- The body of the links. Its list may be absent: no pipe checks the bodies.
pub record LinkBody : Type 0 where
  pub device_ids : Option (List String)
  pub user_id : String

-- The body of POST /activity-logs, whose action may be absent.
pub record LogBody : Type 0 where
  pub user_id : Option String
  pub account_id : Option String
  pub device_id : Option String
  pub action : Option Actions
  pub metadata : Metadata

-- What multer tells of the file of an upload
pub record UploadedFile : Type 0 where
  pub original_name : String
  pub file_name : String
  pub path : String

pub data EmulatorRequest : Type 0 where
  create_emulator : EmulatorDto → EmulatorRequest
  upload_file : (device_id : String) (file : Option UploadedFile) → EmulatorRequest
  update_emulator : (id : String) → EmulatorPatch → EmulatorRequest
  delete_emulator : (id : String) → EmulatorRequest
  link_emulators unlink_emulators : LinkBody → EmulatorRequest
  extend_expiry : ExtendExpiryDto → EmulatorRequest
  assign_multi_accounts unassign_multi_accounts : MultiAccountsLinkDto → EmulatorRequest
  assign_multi_emulators unassign_multi_emulators : MultiDevicesAccountLinkDto → EmulatorRequest

pub data AccountRequest : Type 0 where
  create_account : CreateAccountDto → AccountRequest
  update_account : (id : String) → UpdateAccountDto → AccountRequest
  delete_account : (id : String) → AccountRequest

pub data UserRequest : Type 0 where
  create_user : NewUser → UserRequest
  update_user : (id : String) → UpdateUserDto → UserRequest
  delete_user : (id : String) → UserRequest

pub data LogRequest : Type 0 where
  create_log : LogBody → LogRequest
  update_log : (id : String) → LogPatch → LogRequest
  delete_log : (id : String) → LogRequest

pub data Request : Type 0 where
  emulators : EmulatorRequest → Request
  accounts : AccountRequest → Request
  users : UserRequest → Request
  logs : LogRequest → Request

-- `@UseGuards`
abbrev emulator_guard : EmulatorRequest → Guard
emulator_guard (create_emulator dto) = emulator_admin_guard
emulator_guard (upload_file device_id file) = emulator_admin_guard
emulator_guard (update_emulator id patch) = android_admin_guard
emulator_guard (delete_emulator id) = emulator_admin_guard
emulator_guard (link_emulators dto) = super_admin_guard
emulator_guard (unlink_emulators dto) = super_admin_guard
emulator_guard (extend_expiry dto) = super_admin_guard
emulator_guard (assign_multi_accounts dto) = android_admin_guard
emulator_guard (unassign_multi_accounts dto) = android_admin_guard
emulator_guard (assign_multi_emulators dto) = android_admin_guard
emulator_guard (unassign_multi_emulators dto) = android_admin_guard

abbrev account_guard : AccountRequest → Guard
account_guard (create_account dto) = android_admin_guard
account_guard (update_account id dto) = android_users
account_guard (delete_account id) = android_users

abbrev pub guard_of : Request → Guard
guard_of (emulators request) = emulator_guard request
guard_of (accounts request) = account_guard request
guard_of (users request) = super_admin_guard
guard_of (logs request) = super_admin_guard

-- A route's method with its message in place of its data.
abbrev pub answered : {A : Type 0} → String → Result A × Db → Result String × Db
answered message (ok a, db) = (ok message, db)
answered message (err e, db) = (err e, db)

abbrev reply : {A : Type 0} → Exec Db A → String → Exec Db String
reply m message db = answered message (m db)

-- `for (const device_id of deviceIds)`, the first statement of both methods, on a list that is absent
abbrev pub with_list : LinkBody → (MultiDevicesLinkDto → Exec Db (Unit {0})) → Exec Db (Unit {0})
with_list body m = do
  devices ← non_null body.device_ids
  m (record { device_ids = devices; user_id = body.user_id })

-- `activityLog.action.toString()` comes before the insertion.
abbrev pub with_action : LogBody → Actions → CreateActivityLogDto
with_action body action = record {
  user_id = body.user_id;
  account_id = body.account_id;
  device_id = body.device_id;
  action = action;
  metadata = body.metadata;
}

abbrev pub guarded : Result Bool → Exec Db String → Exec Db String
guarded (ok true) m = m
guarded (ok false) m = throw (http_exception "Forbidden resource" 403)
guarded (err e) m = throw e

module _ (R : Repositories) (env : Environment) (d : Draws) where
  unfoldable pub handle_emulators : JwtToken → EmulatorRequest → Exec Db String
  handle_emulators user (create_emulator dto) = Devices.create R dto
  handle_emulators user (upload_file device_id file) =
      reply (do link_screenshot R env device_id; non_null file) "File uploaded successfully"
  handle_emulators user (update_emulator id patch) = Devices.update R id patch (some user)
  handle_emulators user (delete_emulator id) = Devices.remove R id
  handle_emulators user (link_emulators dto) =
      reply (with_list dto (link_emulator R env)) ("Device linked with userId: " ++ dto.user_id)
  handle_emulators user (unlink_emulators dto) =
      reply (with_list dto (unlink_emulator R env)) ("Device unlinked with userId: " ++ dto.user_id)
  handle_emulators user (extend_expiry dto) =
      reply (extend R env dto) "Extended emulator expiry date"
  handle_emulators user (assign_multi_accounts dto) =
      reply (assign_emulator R dto user) "Device has been assigned to multiple accounts"
  handle_emulators user (unassign_multi_accounts dto) =
      reply (unassign_emulator_from_accounts R dto) "Device have been unassigned from accounts"
  handle_emulators user (assign_multi_emulators dto) =
      reply (assign_emulators_to_account R dto user) "Devices have been assigned to an account"
  handle_emulators user (unassign_multi_emulators dto) =
      reply (unassign_emulators_to_account R dto user) "Devices have been unassigned to an account"

  unfoldable pub handle_accounts : JwtToken → AccountRequest → Exec Db String
  handle_accounts user (create_account dto) =
      reply (Accounts.create R env d.pin (record dto { user_id = user.sub })) ""
  handle_accounts user (update_account id dto) =
      reply (Accounts.update R env id dto user) "Account updated"
  handle_accounts user (delete_account id) = reply (Accounts.remove R id user) "Account Deleted"

  unfoldable pub handle_users : UserRequest → Exec Db String
  handle_users (create_user dto) =
      reply (Users.create R env d (with_role dto)) "User has been created"
  handle_users (update_user id dto) =
      reply (Users.update R env d id dto) "User details has been updated"
  handle_users (delete_user id) = Users.remove R id

  unfoldable pub handle_logs : LogRequest → Exec Db String
  handle_logs (create_log dto) = do
    action ← non_null dto.action
    ActivityLogs.log R (with_action dto action)
  handle_logs (update_log id patch) = reply (ActivityLogs.update R id patch) ""
  handle_logs (delete_log id) = ActivityLogs.remove R id

  abbrev pub handle : JwtToken → Request → Exec Db String
  handle user (emulators request) = handle_emulators user request
  handle user (accounts request) = handle_accounts user request
  handle user (users request) = handle_users request
  handle user (logs request) = handle_logs request

  unfoldable pub serve : Option JwtToken → Request → Exec Db String
  serve none request = throw (unauthorized "Unauthorized")
  serve (some user) request =
      guarded (can_activate (guard_of request) http (some user)) (handle user request)
