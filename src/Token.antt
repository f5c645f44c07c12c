-- ===== src/Token.antt =====
-- src/modules/users/enums/roles.ts and src/modules/auth/interfaces/jwt_token.ts: the roles, and the
-- payload of a token. A token is signed from an object whose optional fields are texts or
-- `undefined`, which the JSON text drops, so an optional field is an `Option`.
use damaru_server.Prelude.{String, Bool, false, Option, none, some, ◌==◌}

pub data Roles : Type 0 where
  emulator_admin super_admin android_user : Roles

pub data SubRoles : Type 0 where
  android_admin android_account : SubRoles

abbrev pub role_name : Roles → String
role_name emulator_admin = "EmulatorAdmin"
role_name super_admin = "SuperAdmin"
role_name android_user = "AndroidUser"

abbrev pub sub_role_name : SubRoles → String
sub_role_name android_admin = "AndroidAdmin"
sub_role_name android_account = "AndroidAccount"

pub record JwtToken : Type 0 where
  pub sub : String
  pub email : String
  pub role : String
  pub sub_role : Option String
  pub account_name : Option String
  pub account_id : Option String

-- `token.role === Roles.X` and `token.subRole === SubRoles.X`
abbrev pub has_role : JwtToken → Roles → Bool
has_role token r = token.role == role_name r

abbrev pub is_text : Option String → String → Bool
is_text none s = false
is_text (some t) s = t == s

abbrev pub has_sub_role : JwtToken → SubRoles → Bool
has_sub_role token r = is_text token.sub_role (sub_role_name r)
