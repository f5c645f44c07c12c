-- ===== src/Routes/Access.antt =====
-- Who is served (modules/*/controllers): the guards of the routes, by the kinds of tokens that a login
-- issues.
use damaru_server.Prelude.{◌≡◌, Bool, true, false, none, some}
use damaru_server.Prelude.Exec.{Result, ok, err, unauthorized}
use damaru_server.Token.{
  JwtToken, role_name, sub_role_name, super_admin, emulator_admin, android_user, android_admin,
  android_account,
}
use damaru_server.Environment.{Environment}
use damaru_server.Guards.{Guard, http, can_activate}
use damaru_server.Database.Repositories.{Repositories}
use damaru_server.Routes.{
  Request, create_emulator, upload_file, update_emulator, delete_emulator, link_emulators,
  unlink_emulators, extend_expiry, assign_multi_accounts, unassign_multi_accounts,
  assign_multi_emulators, unassign_multi_emulators, emulators, accounts, create_account,
  update_account, delete_account, users, logs,
}

-- The holders of tokens: the administrators, and the accounts of Android users.
pub data Caller : Type 0 where
  super_admins emulator_admins android_admins android_accounts : Caller

-- A token of the caller's kind
abbrev pub token_of : Caller → JwtToken → JwtToken
token_of super_admins jwt = record jwt { role = role_name super_admin; sub_role = none }
token_of emulator_admins jwt = record jwt { role = role_name emulator_admin; sub_role = none }
token_of android_admins jwt = record jwt {
  role = role_name android_user;
  sub_role = some (sub_role_name android_admin);
}
token_of android_accounts jwt = record jwt {
  role = role_name android_user;
  sub_role = some (sub_role_name android_account);
}

abbrev only_super : Caller → Bool
only_super super_admins = true
only_super emulator_admins = false
only_super android_admins = false
only_super android_accounts = false

abbrev device_keepers : Caller → Bool
device_keepers super_admins = true
device_keepers emulator_admins = true
device_keepers android_admins = false
device_keepers android_accounts = false

abbrev account_admins : Caller → Bool
account_admins super_admins = true
account_admins emulator_admins = false
account_admins android_admins = true
account_admins android_accounts = false

abbrev account_holders : Caller → Bool
account_holders super_admins = true
account_holders emulator_admins = false
account_holders android_admins = true
account_holders android_accounts = true

-- The callers that a route is for: the emulator admins keep the devices, the super admins link them
-- to users and see to users and logs, the Android admins see to their accounts, and each account may
-- ask for a change of an account.
abbrev pub is_for : Request → Caller → Bool
is_for (emulators (create_emulator dto)) = device_keepers
is_for (emulators (upload_file device file)) = device_keepers
is_for (emulators (delete_emulator id)) = device_keepers
is_for (emulators (link_emulators body)) = only_super
is_for (emulators (unlink_emulators body)) = only_super
is_for (emulators (extend_expiry dto)) = only_super
is_for (emulators (update_emulator id patch)) = account_admins
is_for (emulators (assign_multi_accounts dto)) = account_admins
is_for (emulators (unassign_multi_accounts dto)) = account_admins
is_for (emulators (assign_multi_emulators dto)) = account_admins
is_for (emulators (unassign_multi_emulators dto)) = account_admins
is_for (accounts (create_account dto)) = account_admins
is_for (accounts (update_account id dto)) = account_holders
is_for (accounts (delete_account id)) = account_holders
is_for (users request) = only_super
is_for (logs request) = only_super

abbrev decision : Bool → Result Bool
decision true = ok true
decision false = err (unauthorized "You are not authorized")

-- The guard lets the callers with `p` pass and no others.
abbrev Decides : Guard → (Caller → Bool) → Type 0
Decides g p =
    (c : Caller) (jwt : JwtToken) → can_activate g http (some (token_of c jwt)) ≡ decision (p c)
