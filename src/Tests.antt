-- ===== src/Tests.antt =====
-- A small database with the repository in memory, and runs of the services on it.
mod Ciphers
mod Links
mod Accounts
mod Assignments
mod Access
mod Auth
mod Guards
mod Routes
mod System
mod Owners
mod Encryption
mod Queries
mod Random
mod Signaling
mod Users
mod Admission
mod Apks
mod Sessions
mod Passwords
mod Failures
use Prim.Native.String.{◌++◌}
use damaru_server.Prelude.{String, true, false, none, some, List, [], ◌∷◌}
use damaru_server.Token.{JwtToken}
use damaru_server.Environment.{Environment}
use damaru_server.Repository.Memory.{memory}
use damaru_server.Database.{
  Emulator, UserEmulator, AccountEmulator, Account, User, Role, Db, online, available, registered,
  active,
}
use damaru_server.Database.Repositories.{
  Repositories, emulator_key, link_key, assignment_key, connection_key, account_key, user_key,
  role_key, log_key, encryption_key, valid_encryption, valid_emulator, valid_link, valid_assignment,
  valid_connection, valid_account, valid_user, valid_role, valid_log,
}

-- Every new row has the primary key "new", which suffices for one insertion in each table.
abbrev new_key : Db → String
new_key db = "new"

pub in_memory : Repositories
unfolding memory valid_encryption valid_emulator valid_link valid_assignment valid_connection
    valid_account valid_user valid_role valid_log
in_memory = record {
  emulator = memory emulator_key (λ db. db.emulators) valid_emulator new_key;
  user_emulator = memory link_key (λ db. db.user_emulators) valid_link new_key;
  account_emulator = memory assignment_key (λ db. db.account_emulators) valid_assignment new_key;
  connection = memory connection_key (λ db. db.emulator_connections) valid_connection new_key;
  account = memory account_key (λ db. db.accounts) valid_account new_key;
  user = memory user_key (λ db. db.users) valid_user new_key;
  role = memory role_key (λ db. db.roles) valid_role new_key;
  activity_log = memory log_key (λ db. db.activity_logs) valid_log new_key;
  encryption = memory encryption_key (λ db. db.encryptions) valid_encryption new_key;
  accepts = λ id. true;
}

abbrev pub environment : Environment
environment = record {
  now = 1000;
  moment_add = λ date value unit. date;
  moment_diff = λ a b unit. unit;
  default_days = none;
  screenshot_url = "shots";
}

abbrev pub phone : Emulator
phone = record {
  device_id = "d1";
  device_name = none;
  status = online;
  state = registered;
  screenshot = none;
  details = none;
}

abbrev pub tablet : Emulator
tablet = record {
  device_id = "d2";
  device_name = none;
  status = online;
  state = available;
  screenshot = none;
  details = none;
}

abbrev pub phone_link : UserEmulator
phone_link = record {
  id = "l1";
  user = "u1";
  device = "d1";
  expires_at = 2000;
  linked_at = 500;
  unlinked_at = none;
}

abbrev root_phone : AccountEmulator
root_phone = record { id = "x1"; account = "a1"; user_emulator = "l1"; status = active }

abbrev pub root : Account
root = record {
  id = "a1";
  user = "u1";
  account_name = "root";
  first_login = true;
  is_admin = true;
  pin = "11111";
  updated_at = 0;
  last_login = none;
}

abbrev pub guest : Account
guest = record {
  id = "a2";
  user = "u1";
  account_name = "guest";
  first_login = false;
  is_admin = false;
  pin = "22222";
  updated_at = 0;
  last_login = none;
}

abbrev pub owner : User
owner = record { id = "u1"; email = "owner@home"; name = "owner"; password = "secret"; role = "r1" }

abbrev pub android : Role
android = record { id = "r1"; name = "AndroidUser" }

abbrev pub database : Db
database = record {
  emulators = phone ∷ tablet ∷ [];
  user_emulators = phone_link ∷ [];
  account_emulators = root_phone ∷ [];
  emulator_connections = [];
  accounts = root ∷ guest ∷ [];
  users = owner ∷ [];
  roles = android ∷ [];
  activity_logs = [];
  encryptions = [];
}

-- Tokens of the owner's admin account, of the guest's account, and of another user.
abbrev pub root_token : JwtToken
root_token = record {
  sub = "u1";
  email = "owner@home";
  role = "AndroidUser";
  sub_role = some "AndroidAdmin";
  account_name = some "root";
  account_id = some "a1";
}

abbrev pub guest_token : JwtToken
guest_token = record {
  sub = "u1";
  email = "owner@home";
  role = "AndroidUser";
  sub_role = some "AndroidAccount";
  account_name = some "guest";
  account_id = some "a2";
}

abbrev pub stranger_token : JwtToken
stranger_token = record {
  sub = "u2";
  email = "other@home";
  role = "AndroidUser";
  sub_role = some "AndroidAdmin";
  account_name = some "other";
  account_id = some "a9";
}
