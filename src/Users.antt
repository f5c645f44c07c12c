-- ===== src/Users.antt =====
-- src/modules/users/services/user.service.ts: the users that the super admin manages.
pub mod Laws
pub mod Queries
pub mod Creation
pub mod Admission
use damaru_server.Prelude.{String, Bool, true, false, ◌&&◌, Option, none, some, ◌==◌, if◌then◌else◌}
use damaru_server.Prelude.Exec.{
  Exec, bad_request, pure, throw, gets, non_null, skip, when, for_each, try_log, ◌>>=◌, ◌>>◌,
}
use damaru_server.Token.{Roles, android_user, role_name}
use damaru_server.Environment.{Environment}
use damaru_server.Database.{
  User, UserEmulator, available, Db, create_user, update_user, delete_user, create_account,
  new_user, new_account, user_fields, user_id, is_null,
}
use damaru_server.Database.Repositories.{Repositories}
use damaru_server.Database.Statements.{insert_user, update_emulator}
use damaru_server.Database.Statements
use damaru_server.ActivityLogs.{CreateActivityLogDto, log}
use damaru_server.Accounts.{CreateAccountDto, CreatedAccount, non_empty, or_else}
use damaru_server.Accounts
use damaru_server.Emulators.Links.{set_state}

pub record CreateUserDto : Type 0 where
  pub email : String
  pub name : String
  pub role : Roles
  pub password : Option String

-- `Partial<CreateUserDto>`
pub record UpdateUserDto : Type 0 where
  pub email : Option String
  pub name : Option String
  pub role : Option Roles
  pub password : Option String

-- The columns that `update` writes, and the texts that `create` draws: bcrypt's hash, a password,
-- and a PIN.
pub record UserFields : Type 0 where
  pub password : Option String
  pub name : Option String
  pub email : Option String

pub record Draws : Type 0 where
  pub hash : String → String
  pub password : String
  pub pin : String

unfoldable pub write_user : UserFields → User → User
write_user f u = record u {
  password = or_else f.password u.password;
  name = or_else f.name u.name;
  email = or_else f.email u.email;
}

pub hashed : Draws → Option String → Option String
hashed d none = none
hashed d (some password) = some (d.hash password)

-- The row that `create` inserts, and the account of a new Android user.
unfoldable pub user_row : Draws → CreateUserDto → String → String → User
user_row d dto role id = record {
  id = id;
  email = dto.email;
  name = dto.name;
  password = d.hash (or_else dto.password d.password);
  role = role;
}

unfoldable pub root_account : Draws → CreateUserDto → String → CreateAccountDto
root_account d dto user = record {
  account_name = dto.name;
  user_id = user;
  pin = some d.pin;
  is_admin = some true;
}

abbrev pub is_android : Roles → Bool
is_android android_user = true
is_android _ = false

module _ (R : Repositories) (env : Environment) (d : Draws) where
  unfoldable pub add_root_account : CreateUserDto → String → Exec Db (Unit {0})
  add_root_account dto user = do
    made ← Accounts.create R env d.pin (root_account d dto user)
    log R (record {
      user_id = some user;
      account_id = some made.id;
      device_id = none;
      action = create_account;
      metadata = new_account user dto.name d.pin;
    })
    skip

  -- `findOne`
  abbrev find_one : String → Db → Option User
  find_one id = R.user.find_one (λ u. u.id == id)

  unfoldable pub create : CreateUserDto → Exec Db (Option User × String)
  create dto = do
    found ← gets (R.role.find_one (λ r. r.name == role_name dto.role))
    role ← non_null found
    user ← insert_user R (user_row d dto role.id)
    log R (record {
      user_id = some user;
      account_id = none;
      device_id = none;
      action = create_user;
      metadata = new_user dto.email dto.name (some (role_name dto.role)) dto.password;
    })
    when (is_android dto.role) (add_root_account dto user)
    stored ← gets (find_one user)
    pure (stored, or_else dto.password d.password)

  unfoldable pub update_fields : UpdateUserDto → UserFields
  unfolding hashed
  update_fields dto = record {
    password = hashed d (non_empty dto.password);
    name = non_empty dto.name;
    email = non_empty dto.email;
  }

  unfoldable pub write_fields : String → UserFields → Exec Db UserFields
  write_fields id fields = do
    log R (record {
      user_id = some id;
      account_id = none;
      device_id = none;
      action = update_user;
      metadata = user_fields fields.name fields.email fields.password;
    })
    Statements.update_user R id (write_user fields)
    pure fields

  unfoldable pub update : String → UpdateUserDto → Exec Db UserFields
  unfolding write_fields
  update id dto =
      if is_null dto.role
      then write_fields id (update_fields dto)
      else throw (bad_request "Role cannot be updated")

abbrev pub links_of : String → UserEmulator → Bool
links_of user u = u.user == user && is_null u.unlinked_at

abbrev pub deletion : String → CreateActivityLogDto
deletion id = record {
  user_id = some id;
  account_id = none;
  device_id = none;
  action = delete_user;
  metadata = user_id id;
}

module _ (R : Repositories) where
  -- The update of a device is not awaited: a failure of it is not noticed.
  unfoldable pub free_device : UserEmulator → Exec Db (Unit {0})
  free_device u = try_log (do update_emulator R u.device (set_state available); skip)

  unfoldable pub remove : String → Exec Db String
  remove id = do
    links ← gets (R.user_emulator.find (links_of id))
    log R (deletion id)
    for_each (free_device) links
    Statements.delete_user R id
    pure "User deleted"
