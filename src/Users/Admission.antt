-- ===== src/Users/Admission.antt =====
-- The creation of an Android user by the super admin, and the first login of the new user.
use mathlib.Core.Path.{subst}
use damaru_server.Prelude.{
  String, ◌≡◌, ◌≢◌, refl, sym, ap, ◌∙◌, true, Option, none, some, ◌==◌, arith, eq_iff, Option-cases,
  Bool-cases, inl, inr,
}
use damaru_server.Prelude.Exec.{ok}
use damaru_server.Token.{JwtToken, android_user, android_admin, role_name, sub_role_name}
use damaru_server.Environment.{Environment}
use damaru_server.Repository.{lookup}
use damaru_server.Repository.Keys.{find_one-key}
use damaru_server.Database.{User, Account, Db}
use damaru_server.Database.Repositories.{Repositories, user_at, account_at, role_key}
use damaru_server.Accounts.{new_account, or_else}
use damaru_server.Auth.{LoginDto, Credentials, account_payload, validate_user}
use damaru_server.Auth.Refusals.{validate_user_accepts}
use damaru_server.Users.{CreateUserDto, Draws, user_row, root_account, create}
use damaru_server.Users.Creation.{IsCreated, HasRoot, create-IsCreated}

-- Every account is of a stored user.
abbrev pub HasOwners : Db → Type 0
HasOwners db = (k : String) (a : Account) → account_at db k ≡ some a → user_at db a.user ≢ none

-- A new user's login, with the password and the PIN that the creation drew.
abbrev pub first_login : CreateUserDto → String → String → LoginDto
first_login dto password pin = record {
  email = dto.email;
  password = some password;
  pin = some pin;
}

-- The token of a user's root account
pub record IsRootToken (dto : CreateUserDto) (stored : Option User) (token : JwtToken)
    : Type 0 where
  pub user : User
  pub returned : stored ≡ some user
  pub sub : token.sub ≡ user.id
  pub email : token.email ≡ dto.email
  pub role : token.role ≡ role_name android_user
  pub sub_role : token.sub_role ≡ some (sub_role_name android_admin)

module _ (R : Repositories) (env : Environment) (d : Draws) (dto : CreateUserDto) (db t : Db)
    (stored : Option User) (r : IsCreated env d dto db t stored) where
  abbrev user : User
  user = user_row d dto r.role.id r.id

  -- The new user is the one with the e-mail address.
  found_new : R.user.find_one (λ u. u.email == dto.email) t ≡ some user
  unfolding user_row
  found_new = elim (Option-cases (R.user.find_one (λ u. u.email == dto.email) t)) [
    | inl missing ↦ absurd (
        ground (
          arith,
          R.user.find_one-complete (λ u. u.email == dto.email) t r.id user missing,
          r.users r.id,
          eq_iff r.id r.id,
          eq_iff dto.email dto.email,
        ))
    | inr (u, found) ↦
        let (at, email) = R.user.find_one-sound (λ u. u.email == dto.email) t u found in
        ground (
          arith,
          found,
          at,
          email,
          r.users u.id,
          r.email_free u.id u,
          eq_iff r.id u.id,
          eq_iff u.email dto.email,
        )
  ]

  found_role : R.role.find_one (λ q. q.id == user.role) t ≡ some r.role
  unfolding user_row
  found_role =
      find_one-key R.role r.role.id t
      ∙ ap (λ l. lookup role_key r.role.id l) r.roles
      ∙ r.role_stored

  module _ (owners : HasOwners db) (root : HasRoot env d dto db t r.id) where
    abbrev root_row : Account
    root_row = new_account env (root_account d dto r.id) d.pin root.account

    -- The accounts of the new user are the root account alone.
    only_root : (k : String) (b : Account) → account_at t k ≡ some b → b.user ≡ r.id → b ≡ root_row
    only_root k b at same =
        let (free, law) = root.added in
        elim (Bool-cases (root_row.id == k)) [
          | inl here ↦ ground (arith, law k, here, at)
          | inr old ↦
              absurd (
                owners k b (ground (arith, law k, old, at)) (ap (λ i. user_at db i) same ∙ r.fresh))
        ]

    first_login-IsRootToken :
        (c : Credentials) (password : String)
        → c.compare_hash password (d.hash (or_else dto.password d.password)) ≡ true
        → password ≢ ""
        → dto.name ≢ ""
        → dto.role ≡ android_user
        → (token : JwtToken) × IsRootToken dto stored token
          × ((validate_user R env c (first_login dto password d.pin) t).0 ≡ ok (token, true))
    unfolding new_account root_account user_row account_payload
    first_login-IsRootToken c password hashed typed named android =
        let (free, law) = root.added in
        let (b, b_stored, b_owner, b_pin, accepted) =
          validate_user_accepts R env c (first_login dto password d.pin) t user r.role root_row
            found_new found_role (ground (arith, hashed, typed, eq_iff password ""))
            (r.role_named ∙ ap role_name android)
            (ground (arith, law root_row.id, eq_iff root_row.id root_row.id)) refl refl
            (λ k b at same pin.
              subst (λ (x : Account). x.account_name ≢ "") (sym (only_root k b at same)) named) in
        let same = only_root b.id b b_stored b_owner in
        (
          account_payload user r.role root_row,
          record {
            user = user;
            returned = r.returned;
            sub = refl;
            email = refl;
            role = r.role_named ∙ ap role_name android;
            sub_role = refl;
          },
          accepted ∙ ap (λ (x : Account). ok (account_payload user r.role x, x.first_login)) same,
        )

module _ (R : Repositories) (env : Environment) (d : Draws) (c : Credentials) where
  -- bcrypt accepts a text for its own hash, and every account is of a stored user: after an Android
  -- user with a name has been created, his first login succeeds, with the e-mail address, the password
  -- that the creation answered, unless it is empty, and the PIN that it drew; the token is that of
  -- an Android admin, with the new user's id.
  pub create-IsRootToken :
      (dto : CreateUserDto) (stored : Option User) (password : String) (db t : Db)
      → ((p : String) → c.compare_hash p (d.hash p) ≡ true)
      → HasOwners db
      → dto.role ≡ android_user
      → dto.name ≢ ""
      → password ≢ ""
      → create R env d dto db ≡ (ok (stored, password), t)
      → (token : JwtToken) × IsRootToken dto stored token
        × ((validate_user R env c (first_login dto password d.pin) t).0 ≡ ok (token, true))
  create-IsRootToken dto stored password db t compares owners android named typed e =
      let (r, chosen) = create-IsCreated R env d dto stored password db t e in
      first_login-IsRootToken R env d dto db t stored r owners (r.android android) c password
        (subst (λ p. c.compare_hash password (d.hash p) ≡ true) chosen (compares password)) typed
        named android
