-- ===== src/Auth.antt =====
-- src/modules/auth/services/auth.service.ts: the login.
pub mod Laws
pub mod Refusals
pub mod Sessions
pub mod Consistency
use damaru_server.Prelude.{
  ℕ, String, Bool, false, not, ◌&&◌, Option, none, some, List, [], ◌∷◌, ◌==◌, if◌then◌else◌,
}
use damaru_server.Prelude.Exec.{Exec, ok, unauthorized, pure, throw, gets, non_null, ◌>>=◌, ◌>>◌}
use damaru_server.Token.{
  JwtToken, SubRoles, super_admin, android_user, android_admin, android_account, role_name,
  sub_role_name, has_role, has_sub_role, is_text,
}
use damaru_server.Environment.{Environment, today}
use damaru_server.Database.{Account, User, Role, Db}
use damaru_server.Database.Repositories.{Repositories}
use damaru_server.Database.Statements.{update_account}

pub record LoginDto : Type 0 where
  pub email : String
  pub password : Option String
  pub pin : Option String

-- The data of the answer to a login.
pub record LoginData : Type 0 where
  pub access_token : String
  pub first_login : Bool
  pub is_super_admin : Bool
  pub is_root_user : Bool
  pub user_id : String
  pub account_name : Option String
  pub account_id : Option String

-- bcrypt's comparison, and the signature of a token.
pub record Credentials : Type 0 where
  pub compare_hash : String → String → Bool
  pub sign : JwtToken → String

-- `if (loginDto?.password && …)`: an absent or empty password counts as false.
abbrev pub password_matches : Credentials → Option String → String → Bool
password_matches c none hashed = false
password_matches c (some password) hashed =
    if password == "" then false else c.compare_hash password hashed

abbrev sub_role_of : Account → SubRoles
sub_role_of a = if a.is_admin then android_admin else android_account

-- The payload for an account of an Android user, and for any other user.
unfoldable pub account_payload : User → Role → Account → JwtToken
account_payload user role a = record {
  sub = user.id;
  email = user.email;
  role = role.name;
  sub_role = some (sub_role_name (sub_role_of a));
  account_name = some a.account_name;
  account_id = some a.id;
}

unfoldable pub user_payload : User → Role → JwtToken
user_payload user role = record {
  sub = user.id;
  email = user.email;
  role = role.name;
  sub_role = none;
  account_name = none;
  account_id = none;
}

-- A promise that is not awaited: its failure changes nothing here.
abbrev floating : {A : Type 0} → Exec Db A → Db → Db
floating m db = (m db).1

-- `firstLogin` and `jwtPayload`; the payload with nothing but nulls is `none`.
abbrev pub Found : Type 0
Found = Bool × Option JwtToken

-- `!jwtPayload.accountName`
abbrev pub has_name : Option JwtToken → Bool
has_name none = false
has_name (some token) = elim token.account_name [ none ↦ false | some name ↦ not (name == "") ]

-- With the `@UpdateDateColumn` of the accounts, which every update sets
abbrev log_in : ℕ → Account → Account
log_in date a = record a { last_login = some date; updated_at = date }

module _ (R : Repositories) (env : Environment) (c : Credentials) where
  -- The callback of `user.accounts.some` returns nothing, so every account is visited.
  unfoldable pub scan : User → Role → Option String → List Account → Found → Exec Db Found
  scan user role pin [] found db = (ok found, db)
  scan user role pin (a ∷ rest) found db =
      let hit = is_text pin a.pin in
      scan user role pin rest
        (if hit then (a.first_login, some (account_payload user role a)) else found)
        (if hit then floating (update_account R a.id (log_in (today env))) db else db)

  unfoldable pub require_name : Found → Exec Db (JwtToken × Bool)
  require_name (first, none) = throw (unauthorized "Invalid account or pin")
  require_name (first, some token) =
      if has_name (some token)
      then pure (token, first)
      else throw (unauthorized "Invalid account or pin")

  unfoldable pub payload_of : LoginDto → User → Role → Exec Db (JwtToken × Bool)
  payload_of dto user role =
      if role.name == role_name android_user
      then (do
        accounts ← gets (R.account.find (λ a. a.user == user.id))
        found ← scan user role dto.pin accounts (false, none)
        require_name found)
      else pure (user_payload user role, false)

  unfoldable pub validate_found : LoginDto → Option User → Exec Db (JwtToken × Bool)
  validate_found dto none = throw (unauthorized "Invalid credentials")
  validate_found dto (some user) =
      if password_matches c dto.password user.password
      then (do
        role ← gets (R.role.find_one (λ r. r.id == user.role))
        found ← non_null role
        payload_of dto user found)
      else throw (unauthorized "Invalid credentials")

  unfoldable pub validate_user : LoginDto → Exec Db (JwtToken × Bool)
  validate_user dto = do
    user ← gets (R.user.find_one (λ u. u.email == dto.email))
    validate_found dto user

  unfoldable pub login_data : JwtToken × Bool → LoginData
  login_data (token, first) = record {
    access_token = c.sign token;
    first_login = first;
    is_super_admin = has_role token super_admin;
    is_root_user = has_role token android_user && has_sub_role token android_admin;
    user_id = token.sub;
    account_name = token.account_name;
    account_id = token.account_id;
  }

  unfoldable pub login : LoginDto → Exec Db LoginData
  login dto = do validated ← validate_user dto; pure (login_data validated)

-- src/modules/auth/controllers/auth.controller.ts
pub data AuthRequest : Type 0 where
  log_in_with : LoginDto → AuthRequest
  check : AuthRequest

pub data AuthAnswer : Type 0 where
  logged_in : LoginData → AuthAnswer
  authenticated : JwtToken → AuthAnswer

module _ (R : Repositories) (env : Environment) (c : Credentials) where
  -- The guard of the JWT library stands before the check alone.
  unfoldable pub serve_auth : Option JwtToken → AuthRequest → Exec Db AuthAnswer
  serve_auth user (log_in_with dto) = do data' ← login R env c dto; pure (logged_in data')
  serve_auth none check = throw (unauthorized "Unauthorized")
  serve_auth (some user) check = pure (authenticated user)
