-- ===== src/Guards.antt =====
-- src/core/guards: which tokens a route or a message is open to. The checks of the token itself are
-- passport's and the JWT library's: a guard sees the user that they attached, if any.
pub mod Laws
use text.Mathlib.Text.{starts_with}
use damaru_server.Prelude.{
  ℕ, suc, String, Bool, true, false, ◌&&◌, ◌||◌, Option, none, some, List, [], ◌∷◌, ◌==◌,
  if◌then◌else◌,
}
use damaru_server.Prelude.Exec.{Result, ok, err, Exception, unauthorized, ws_exception}
use damaru_server.Token.{
  Roles, SubRoles, JwtToken, emulator_admin, super_admin, android_user, android_admin,
  android_account, role_name, sub_role_name, has_role,
}

-- `context.getType()`
pub data ContextType : Type 0 where
  http ws rpc : ContextType

-- The guards by what their constructors pass on: a role with an optional sub-role, or a list of such.
pub data Guard : Type 0 where
  single : String → Option String → Guard
  multi : List (String × Option String) → Guard

-- `===` and `==` of two optional texts agree: neither is `null`.
abbrev pub same_option : Option String → Option String → Bool
same_option none none = true
same_option none (some t) = false
same_option (some s) none = false
same_option (some s) (some t) = s == t

abbrev pub fits : JwtToken → String × Option String → Bool
fits token (role, sub_role) = token.role == role && same_option token.sub_role sub_role

-- `Array.some`
unfoldable pub fits_some : JwtToken → List (String × Option String) → Bool
fits_some token [] = false
fits_some token (pair ∷ rest) = fits token pair || fits_some token rest

unfoldable pub is_authorized : Guard → JwtToken → Bool
unfolding fits_some
is_authorized (single role sub_role) token =
    has_role token super_admin || fits token (role, sub_role)
is_authorized (multi pairs) token = has_role token super_admin || fits_some token pairs

-- `authorized`: a refusal is an exception of the context's kind; in another context the method
-- returns nothing, which counts as false.
abbrev refuse : ContextType → Result Bool
refuse http = err (unauthorized "You are not authorized")
refuse ws = err (ws_exception "You are not authorized")
refuse rpc = ok false

unfoldable pub authorized : Guard → ContextType → JwtToken → Result Bool
authorized g type token = if is_authorized g token then ok true else refuse type

unfoldable pub can_activate : Guard → ContextType → Option JwtToken → Result Bool
can_activate g rpc user = err (unauthorized "Unsupported context type")
can_activate g type none = err (unauthorized "Authorization failed")
can_activate g type (some token) = authorized g type token

abbrev pub super_admin_guard : Guard
super_admin_guard = single (role_name super_admin) none

abbrev pub emulator_admin_guard : Guard
emulator_admin_guard = single (role_name emulator_admin) none

abbrev pub android_admin_guard : Guard
android_admin_guard = single (role_name android_user) (some (sub_role_name android_admin))

abbrev pub android_account_guard : Guard
android_account_guard = single (role_name android_user) (some (sub_role_name android_account))

abbrev pub android_users : Guard
android_users = multi (
    (role_name android_user, some (sub_role_name android_admin))
    ∷ (role_name android_user, some (sub_role_name android_account))
    ∷ [])

abbrev pub emulator_users : Guard
emulator_users = multi (
    (role_name android_user, some (sub_role_name android_admin))
    ∷ (role_name android_user, some (sub_role_name android_account))
    ∷ (role_name emulator_admin, none)
    ∷ [])
