-- ===== src/Auth/Consistency.antt =====
-- A login and the invariant of the links: it writes to no table but the accounts'.
use damaru_server.Prelude.{
  String, Bool, true, false, Option, none, some, List, [], ◌∷◌, Bool-cases, inl, inr, Option-cases,
  ◌==◌, if◌then◌else◌,
}
use damaru_server.Token.{JwtToken, android_user, role_name, is_text}
use damaru_server.Environment.{Environment, today}
use damaru_server.Database.{Account, User, Role, Db}
use damaru_server.Database.Repositories.{Repositories}
use damaru_server.Database.Statements.{update_account}
use damaru_server.Emulators.Links.Kept.{
  KeepsLinks, KeepsLinks-refl, KeepsLinks-trans, continue-KeepsLinks,
}
use damaru_server.Emulators.Links.Kept.Tables.{update_account-KeepsLinks}
use damaru_server.Auth.{
  LoginDto, Credentials, Found, log_in, scan, require_name, payload_of, validate_found,
  validate_user, login, password_matches, has_name, AuthRequest, AuthAnswer, log_in_with, check,
  serve_auth,
}

module _ (R : Repositories) (env : Environment) (c : Credentials) where
  visited :
      (b : Bool) (id : String) (f : Account → Account) (db : Db)
      → KeepsLinks db (if b then (update_account R id f db).1 else db)
  visited true id f db = update_account-KeepsLinks R db id f
  visited false id f db = KeepsLinks-refl db

  scan-KeepsLinks :
      (user : User) (role : Role) (pin : Option String) (accounts : List Account) (found : Found)
      (db : Db)
      → KeepsLinks db (scan R env c user role pin accounts found db).1
  unfolding scan
  scan-KeepsLinks user role pin [] found db = KeepsLinks-refl db
  scan-KeepsLinks user role pin (a ∷ rest) found db =
      KeepsLinks-trans db _ _ (visited (is_text pin a.pin) a.id (log_in (today env)) db)
        (scan-KeepsLinks user role pin rest _ _)

  require_name-KeepsLinks :
      (found : Found) (db : Db) → KeepsLinks db (require_name R env c found db).1
  unfolding require_name
  require_name-KeepsLinks (first, none) db = KeepsLinks-refl db
  require_name-KeepsLinks (first, some token) db = elim (Bool-cases (has_name (some token))) [
    | inl named ↦ rw named (KeepsLinks-refl db)
    | inr empty ↦ rw empty (KeepsLinks-refl db)
  ]

  payload_of-KeepsLinks :
      (dto : LoginDto) (user : User) (role : Role) (db : Db)
      → KeepsLinks db (payload_of R env c dto user role db).1
  unfolding payload_of
  payload_of-KeepsLinks dto user role db = elim (Bool-cases (role.name == role_name android_user)) [
    | inl android ↦ rw android (
        continue-KeepsLinks db _ _
          (scan-KeepsLinks user role dto.pin (R.account.find (λ a. a.user == user.id) db)
            (false, none) db)
          require_name-KeepsLinks)
    | inr other ↦ rw other (KeepsLinks-refl db)
  ]

  validate_found-KeepsLinks :
      (dto : LoginDto) (found : Option User) (db : Db)
      → KeepsLinks db (validate_found R env c dto found db).1
  unfolding validate_found
  validate_found-KeepsLinks dto none db = KeepsLinks-refl db
  validate_found-KeepsLinks dto (some user) db =
      elim (Bool-cases (password_matches c dto.password user.password)) [
        | inr wrong ↦ rw wrong (KeepsLinks-refl db)
        | inl right ↦ elim (Option-cases (R.role.find_one (λ r. r.id == user.role) db)) [
          | inl missing ↦ rw right (rw missing (KeepsLinks-refl db))
          | inr (role, found) ↦ rw right (rw found (payload_of-KeepsLinks dto user role db))
        ]
      ]

  login-KeepsLinks : (dto : LoginDto) (db : Db) → KeepsLinks db (login R env c dto db).1
  unfolding login validate_user
  login-KeepsLinks dto db =
      continue-KeepsLinks db (validate_user R env c dto db) _
        (validate_found-KeepsLinks dto (R.user.find_one (λ u. u.email == dto.email) db) db)
        (λ _ s. KeepsLinks-refl s)

  -- A request of the login's controller
  pub serve_auth-KeepsLinks :
      (caller : Option JwtToken) (request : AuthRequest) (db : Db)
      → KeepsLinks db (serve_auth R env c caller request db).1
  unfolding serve_auth
  serve_auth-KeepsLinks none check db = KeepsLinks-refl db
  serve_auth-KeepsLinks (some user) check db = KeepsLinks-refl db
  serve_auth-KeepsLinks caller (log_in_with dto) db =
      continue-KeepsLinks {A = AuthAnswer} db (login R env c dto db) _ (login-KeepsLinks dto db)
        (λ _ s. KeepsLinks-refl s)
