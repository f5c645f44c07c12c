-- ===== src/Tests/Sessions.antt =====
-- A super admin's login after the seeding, and a request with its token.
use damaru_server.Prelude.{
  String, ◌≡◌, refl, sym, ap, ◌∙◌, Bool, true, false, ◌&&◌, Option, none, some, ◌==◌, if◌then◌else◌,
  arith, eq_iff, Bool-cases, inl, inr,
}
use damaru_server.Prelude.Exec.{Result, ok, for_each}
use damaru_server.Repository.{lookup}
use damaru_server.Repository.Memory.{memory}
use damaru_server.Token.{JwtToken}
use damaru_server.Guards.{same_option, can_activate, authorized, is_authorized}
use damaru_server.Guards.Laws.{same_option_iff}
use damaru_server.Database.{Db}
use damaru_server.Database.Repositories.{valid_user, valid_role, valid_link, valid_assignment}
use damaru_server.Database.Statements.{
  insert_role, insert_user, insert_encryption, insert_link, insert_assignment, update_emulator,
}
use damaru_server.Accounts.{find_root_account}
use damaru_server.Emulators.Links.{link_emulator, link_device, register, find_registered, new_link}
use damaru_server.Auth.{
  LoginDto, LoginData, Credentials, validate_user, validate_found, payload_of, user_payload,
  login_data, login, log_in_with, logged_in, serve_auth,
}
use damaru_server.Auth.Sessions.{IsSuperAdminLogin, login-IsSuperAdmin}
use damaru_server.Routes.{serve, handle_emulators}
use damaru_server.System.Seeder.{
  seed, seed_roles, seed_role, seed_user, seed_super_admin, seed_encryption,
}
use damaru_server.Tests.{in_memory, environment}
use damaru_server.Tests.Routes.{draws, link_tablet}
use damaru_server.Tests.System.{seeded}

abbrev same_token : JwtToken → JwtToken → Bool
same_token a b =
    a.sub == b.sub
    && a.email == b.email
    && a.role == b.role
    && same_option a.sub_role b.sub_role
    && same_option a.account_name b.account_name
    && same_option a.account_id b.account_id

same_token-eq : (a b : JwtToken) → same_token a b ≡ true → a ≡ b
same_token-eq a b h = ground (
  arith,
  h,
  eq_iff a.sub b.sub,
  eq_iff a.email b.email,
  eq_iff a.role b.role,
  same_option_iff a.sub_role b.sub_role,
  same_option_iff a.account_name b.account_name,
  same_option_iff a.account_id b.account_id,
)

abbrev super_payload : JwtToken
super_payload = record {
  sub = "new";
  email = "super@home";
  role = "SuperAdmin";
  sub_role = none;
  account_name = none;
  account_id = none;
}

-- One payload has a signature that is accepted.
abbrev sign : JwtToken → String
sign token = if same_token token super_payload then "signed" else "other"

abbrev verify : String → Option JwtToken
verify text = if text == "signed" then some super_payload else none

verify_sound : (token payload : JwtToken) → verify (sign token) ≡ some payload → payload ≡ token
verify_sound token payload e = elim (Bool-cases (same_token token super_payload)) [
  | inl same ↦
      let here = rw same at e in
      ap (λ (o : Option JwtToken). elim o [ none ↦ super_payload | some p ↦ p ]) (sym here)
      ∙ sym (same_token-eq token super_payload same)
  | inr other ↦ absurd (ground (arith, rw other at e))
]

abbrev library : Credentials
library = record { compare_hash = λ a b. a == b; sign = sign }

abbrev admin_login : LoginDto
admin_login = record { email = "super@home"; password = some "secret!"; pin = none }

abbrev answer : LoginData
answer = login_data in_memory environment library (super_payload, false)

login_run :
    serve_auth in_memory environment library none (log_in_with admin_login) seeded
    ≡ (ok (logged_in answer), seeded)
unfolding serve_auth login login_data validate_user validate_found payload_of user_payload seed
    seed_roles seed_role seed_user seed_super_admin seed_encryption for_each insert_user
    insert_encryption insert_role valid_user valid_role in_memory memory lookup
login_run = refl

abbrev served : Result String × Db
served = serve in_memory environment draws (verify answer.access_token) link_tablet seeded

serve_run : served ≡ (ok "Device linked with userId: u1", served.1)
unfolding serve can_activate authorized is_authorized handle_emulators link_emulator link_device
    register find_registered find_root_account insert_link insert_assignment update_emulator
    new_link valid_link valid_assignment login_data seed seed_roles seed_role seed_user
    seed_super_admin seed_encryption for_each insert_user insert_encryption insert_role valid_user
    valid_role in_memory memory lookup
serve_run = refl

login-IsSuperAdmin_example : IsSuperAdminLogin library admin_login seeded
login-IsSuperAdmin_example =
    login-IsSuperAdmin in_memory environment library verify verify_sound admin_login none answer
      seeded seeded login_run environment draws link_tablet "Device linked with userId: u1" seeded
      served.1 refl serve_run
