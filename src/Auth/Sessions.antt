-- ===== src/Auth/Sessions.antt =====
-- A login, and the requests that are made with its token.
use mathlib.Core.Path.{subst}
use damaru_server.Prelude.{
  String, ◌≡◌, refl, sym, ap, ◌∙◌, Bool, true, Option, none, some, inl, inr, arith,
}
use damaru_server.Prelude.Exec.{ok, continue-eq-ok}
use damaru_server.Token.{JwtToken, super_admin, role_name}
use damaru_server.Environment.{Environment}
use damaru_server.Guards.{super_admin_guard}
use damaru_server.Guards.Laws.{IsAllowed, super_guard}
use damaru_server.Database.{User, Role, Db}
use damaru_server.Database.Repositories.{Repositories, user_at, role_at}
use damaru_server.Users.{Draws}
use damaru_server.Routes.{Request, guard_of, serve}
use damaru_server.Routes.Laws.{serve_returned}
use damaru_server.Auth.{
  LoginDto, LoginData, Credentials, account_payload, user_payload, password_matches, validate_user,
  login_data, login, log_in_with, logged_in, serve_auth,
}
use damaru_server.Auth.Laws.{IsIssued, validate_user-IsIssued}

-- The login is a stored user's who has the role SuperAdmin.
pub record IsSuperAdminLogin (c : Credentials) (dto : LoginDto) (db : Db) : Type 0 where
  pub user : User
  pub stored : user_at db user.id ≡ some user
  pub email : user.email ≡ dto.email
  pub password : password_matches c dto.password user.password ≡ true
  pub role : Role
  pub role_stored : role_at db user.role ≡ some role
  pub named : role.name ≡ role_name super_admin

module _ (R : Repositories) (env : Environment) (d : Draws) where
  verified :
      (seen : Option JwtToken) (request : Request) (message : String) (db t : Db)
      → serve R env d seen request db ≡ (ok message, t)
      → (user : JwtToken) × (seen ≡ some user) × IsAllowed (guard_of request) user
  unfolding serve
  verified none request message db t e = absurd (cc)
  verified (some user) request message db t e =
      (user, refl, (serve_returned R env d user request message db t e).0)

module _ (R : Repositories) (env : Environment) (c : Credentials) where
  -- The role of an issued token is the stored role's name.
  issued_role :
      (dto : LoginDto) (db : Db) (token : JwtToken) (first : Bool)
      (i : IsIssued c dto db token first)
      → token.role ≡ i.role.name
  unfolding account_payload user_payload
  issued_role dto db token first i = elim i.payload [
    | inl (other, same, _) ↦ ap (λ (t : JwtToken). t.role) same
    | inr (android, a) ↦ ap (λ (t : JwtToken). t.role) a.payload
  ]

  -- A login that succeeds hands out the signature of the token that was issued.
  logged_in-eq-ok :
      (dto : LoginDto) (caller : Option JwtToken) (answer : LoginData) (db s : Db)
      → serve_auth R env c caller (log_in_with dto) db ≡ (ok (logged_in answer), s)
      → (token : JwtToken) × (first : Bool) × IsIssued c dto db token first
        × (answer.access_token ≡ c.sign token)
  unfolding serve_auth login login_data
  logged_in-eq-ok dto caller answer db s e =
      let (data', s1, done, last) =
        continue-eq-ok (login R env c dto db) _ (logged_in answer) s e in
      let ((token, first), s2, validated, end) =
        continue-eq-ok (validate_user R env c dto db) _ data' s1 done in
      (
        token,
        first,
        validate_user-IsIssued R env c dto db s2 token first validated,
        ground (arith, end, last),
      )

  -- What the JWT library verifies from a signature is the payload that was signed: if the token of a
  -- login gets a request served, at any later time, whose route is for super admins only, the login was
  -- of a stored user with the e-mail address and the password that were given, and with the role
  -- SuperAdmin.
  pub login-IsSuperAdmin :
      (verify : String → Option JwtToken)
      → ((token payload : JwtToken) → verify (c.sign token) ≡ some payload → payload ≡ token)
      → (dto : LoginDto) (caller : Option JwtToken) (answer : LoginData) (db s : Db)
      → serve_auth R env c caller (log_in_with dto) db ≡ (ok (logged_in answer), s)
      → (env' : Environment) (d : Draws) (request : Request) (message : String) (later t : Db)
      → guard_of request ≡ super_admin_guard
      → serve R env' d (verify answer.access_token) request later ≡ (ok message, t)
      → IsSuperAdminLogin c dto db
  login-IsSuperAdmin verify sound dto caller answer db s e env' d request message later t guard r =
      let (token, first, i, signed) = logged_in-eq-ok dto caller answer db s e in
      let (user, seen, allowed) =
        verified R env' d (verify answer.access_token) request message later t r in
      let same : user ≡ token = sound token user (ap verify (sym signed) ∙ seen) in
      let super : user.role ≡ role_name super_admin =
        super_guard user (subst (λ g. IsAllowed g user) guard allowed) in
      record {
        user = i.user;
        stored = i.stored;
        email = i.email;
        password = i.password;
        role = i.role;
        role_stored = i.role_stored;
        named =
            sym (issued_role dto db token first i)
            ∙ ap (λ (x : JwtToken). x.role) (sym same)
            ∙ super;
      }
