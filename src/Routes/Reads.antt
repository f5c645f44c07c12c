-- ===== src/Routes/Reads.antt =====
-- The routes of the controllers that read: src/modules/emulators/controllers/emulator.controller.ts,
-- src/modules/accounts/controllers/account.controller.ts,
-- src/modules/users/controllers/user.controller.ts and
-- src/modules/activity_logs/controllers/activity_log.controller.ts; and the route that asks the emulator
-- admins to restart a device, which writes to no table either.
pub mod Laws
pub mod Passwords
use damaru_server.Prelude.{String, Bool, true, false, Option, none, some, List}
use damaru_server.Prelude.Exec.{
  Exec, Result, ok, err, http_exception, unauthorized, pure, throw, gets, ◌>>=◌, ◌>>◌,
}
use damaru_server.Token.{JwtToken}
use damaru_server.Environment.{Environment}
use damaru_server.Guards.{
  Guard, http, can_activate, super_admin_guard, android_admin_guard, android_users, emulator_users,
}
use damaru_server.Database.{Account, ActivityLog, Db}
use damaru_server.Database.Repositories.{Repositories}
use damaru_server.Accounts.Queries.{AccountDevice, find_one, find_all as find_accounts}
use damaru_server.ActivityLogs
use damaru_server.Users.Queries.{UserView, find_all as find_users}
use damaru_server.Emulators.Queries.{
  DeviceView, AccountView, LogEntry, find_all as find_emulators, find_linked_devices,
  connection_log,
}
use damaru_server.Signaling.{Gateway, with_db, restart_connection}

pub data ReadRequest : Type 0 where
  list_emulators : ReadRequest
  list_linked_accounts : (device : String) → ReadRequest
  list_connections : (account device : Option String) → ReadRequest
  restart_emulator : (device_name : String) → ReadRequest
  list_accounts : ReadRequest
  get_account : (id : String) → ReadRequest
  list_users list_logs : ReadRequest

pub data Reply : Type 0 where
  devices : List DeviceView → Reply
  linked_accounts : List AccountView → Reply
  connections : List LogEntry → Reply
  message : String → Reply
  accounts : List Account → Reply
  account_devices : List AccountDevice → Reply
  users : List UserView → Reply
  logs : List ActivityLog → Reply

-- `@UseGuards`; the routes of the connections and of the restart have no guard but the JWT library's.
abbrev pub read_guard : ReadRequest → Option Guard
read_guard list_emulators = some emulator_users
read_guard (list_linked_accounts device) = some android_admin_guard
read_guard (list_connections account device) = none
read_guard (restart_emulator device_name) = none
read_guard list_accounts = some android_users
read_guard (get_account id) = some android_admin_guard
read_guard list_users = some super_admin_guard
read_guard list_logs = some android_admin_guard

abbrev pub read_access : Option Guard → JwtToken → Result Bool
read_access none user = ok true
read_access (some g) user = can_activate g http (some user)

abbrev pub guarded_read : Result Bool → Exec Gateway Reply → Exec Gateway Reply
guarded_read (ok true) run = run
guarded_read (ok false) run = throw (http_exception "Forbidden resource" 403)
guarded_read (err e) run = throw e

module _ (R : Repositories) (env : Environment) where
  abbrev query {ℓ} : {A : Type ℓ} → (Db → A) → (A → Reply) → Exec Gateway Reply
  query find show g = (ok (show (find g.db)), g)

  abbrev get_emulators : JwtToken → Exec Gateway Reply
  get_emulators user = query (find_emulators R env user) devices

  abbrev get_linked_accounts : String → Exec Gateway Reply
  get_linked_accounts device = query (find_linked_devices R device) linked_accounts

  abbrev get_connections : Option String → Option String → Exec Gateway Reply
  get_connections account device = query (connection_log R env account device) connections

  -- `restart` of the emulator service, and its route
  abbrev restart_device : String → Exec Gateway Reply
  restart_device device_name = do
    restart_connection R env (some device_name)
    pure (message "Restarting emulator")

  abbrev get_accounts : JwtToken → Exec Gateway Reply
  get_accounts user = query (find_accounts R user) accounts

  abbrev get_account_devices : JwtToken → String → Exec Gateway Reply
  get_account_devices user id = do
    found ← (λ (g : Gateway). with_db g (find_one R env id user g.db))
    pure (account_devices found)

  abbrev get_users : Exec Gateway Reply
  get_users = query (find_users R) users

  abbrev get_logs : Exec Gateway Reply
  get_logs = query (ActivityLogs.find_all R) logs

  pub handle_read : JwtToken → ReadRequest → Exec Gateway Reply
  handle_read user list_emulators = get_emulators user
  handle_read user (list_linked_accounts device) = get_linked_accounts device
  handle_read user (list_connections account device) = get_connections account device
  handle_read user (restart_emulator device_name) = restart_device device_name
  handle_read user list_accounts = get_accounts user
  handle_read user (get_account id) = get_account_devices user id
  handle_read user list_users = get_users
  handle_read user list_logs = get_logs

  pub serve_read : Option JwtToken → ReadRequest → Exec Gateway Reply
  serve_read none request = throw (unauthorized "Unauthorized")
  serve_read (some user) request =
      guarded_read (read_access (read_guard request) user) (handle_read user request)
