-- ===== src/Auth/Laws.antt =====
-- Who gets a token, and what the token says.
use mathlib.Core.Path.{subst}
use mathlib.Core.List.{Memᴰ}
use damaru_server.Prelude.{
  String, ◌≡◌, ◌≢◌, refl, sym, ap, ◌∙◌, ◌⊎◌, inl, inr, Bool, true, false, Option, none, some, List,
  [], ◌∷◌, ◌==◌, if◌then◌else◌, arith, Option-cases, Bool-cases, true_eq, eq_true,
}
use damaru_server.Prelude.Exec.{Result, ok, continue-eq-ok}
use damaru_server.Token.{JwtToken, android_user, role_name, is_text}
use damaru_server.Environment.{Environment}
use damaru_server.Database.{Account, User, Role, Db}
use damaru_server.Database.Repositories.{Repositories, user_at, role_at, account_at}
use damaru_server.Auth.{
  LoginDto, Credentials, Found, account_payload, user_payload, password_matches, scan, require_name,
  payload_of, validate_found, validate_user, has_name,
}

-- The last account of a list with a PIN.
unfoldable pub last_match : Option String → List Account → Option Account
last_match pin [] = none
last_match pin (a ∷ rest) = elim (last_match pin rest) [
  | some b ↦ some b
  | none ↦ if is_text pin a.pin then some a else none
]

is_text-eq : (o : Option String) (s : String) → is_text o s ≡ true → o ≡ some s
is_text-eq none s e = absurd (cc)
is_text-eq (some t) s e = ap some (true_eq e)

pub last_match-mem :
    (pin : Option String) (accounts : List Account) (a : Account)
    → last_match pin accounts ≡ some a
    → Memᴰ a accounts × (pin ≡ some a.pin)
unfolding last_match
last_match-mem pin [] a e = absurd (cc)
last_match-mem pin (b ∷ rest) a e = elim (Option-cases (last_match pin rest)) [
  | inl missing ↦ (Memᴰ.head (ground arith), ground (arith, is_text-eq pin b.pin))
  | inr (d, found) ↦ let (m, q) = last_match-mem pin rest a (ground arith) in (Memᴰ.tail m, q)
]

-- What a PIN has found: nothing, or the account whose payload is the token.
unfoldable pub found_after : User → Role → Option Account → Found
found_after user role none = (false, none)
found_after user role (some a) = (a.first_login, some (account_payload user role a))

-- The token of an account of the user that the PIN names.
pub record IsAccountToken (dto : LoginDto) (db : Db) (user : User) (role : Role) (token : JwtToken)
    (first : Bool) : Type 0 where
  pub account : Account
  pub stored : account_at db account.id ≡ some account
  pub owner : account.user ≡ user.id
  pub pin : dto.pin ≡ some account.pin
  pub payload : token ≡ account_payload user role account
  pub first_login : first ≡ account.first_login

pub record IsIssued (c : Credentials) (dto : LoginDto) (db : Db) (token : JwtToken) (first : Bool)
    : Type 0 where
  pub user : User
  pub stored : user_at db user.id ≡ some user
  pub email : user.email ≡ dto.email
  pub password : password_matches c dto.password user.password ≡ true
  pub role : Role
  pub role_stored : role_at db user.role ≡ some role
  pub payload :
      ((role.name ≢ role_name android_user) × (token ≡ user_payload user role) × (first ≡ false))
      ⊎ ((role.name ≡ role_name android_user) × IsAccountToken dto db user role token first)

module _ (R : Repositories) (env : Environment) (c : Credentials) where
  pub scan-eq :
      (user : User) (role : Role) (pin : Option String) (accounts : List Account) (found : Found)
      (db : Db)
      → (scan R env c user role pin accounts found db).0
        ≡ ok (elim (last_match pin accounts) [
          | none ↦ found
          | some a ↦ (a.first_login, some (account_payload user role a))
        ])
  unfolding scan last_match
  scan-eq user role pin [] found db = refl
  scan-eq user role pin (a ∷ rest) found db = scan-eq user role pin rest _ _ ∙ ground arith

  require_name-eq-ok :
      (found : Found) (s t : Db) (token : JwtToken) (first : Bool)
      → require_name R env c found s ≡ (ok (token, first), t)
      → (found ≡ (first, some token)) × (has_name (some token) ≡ true)
  unfolding require_name
  require_name-eq-ok (f, none) s t token first e = absurd (cc)
  require_name-eq-ok (f, some found) s t token first e = (ground arith, ground arith)

  payload_of-IsAccountToken :
      (dto : LoginDto) (db t : Db) (user : User) (role : Role) (token : JwtToken) (first : Bool)
      → role.name ≡ role_name android_user
      → payload_of R env c dto user role db ≡ (ok (token, first), t)
      → IsAccountToken dto db user role token first
  unfolding payload_of
  payload_of-IsAccountToken dto db t user role token first android e =
      let mine : Account → Bool = λ a. a.user == user.id in
      let accounts : List Account = R.account.find mine db in
      let (found, s, scanned, named) =
        continue-eq-ok (scan R env c user role dto.pin accounts (false, none) db) _ (token, first) t
          (rw (eq_true android, payload_of) at e) in
      let (same, _) = require_name-eq-ok found s t token first named in
      let seen =
        sym (ap (λ (r : Result Found × Db). r.0) scanned)
        ∙ scan-eq user role dto.pin accounts (false, none) db in
      elim (Option-cases (last_match dto.pin accounts)) [
        | inl missing ↦ absurd (ground (arith, seen, same, missing))
        | inr (a, last) ↦
            let (member, pin) = last_match-mem dto.pin accounts a last in
            let (stored, mine') = R.account.mem-find mine db a member in
            record {
              account = a;
              stored = stored;
              owner = true_eq mine';
              pin = pin;
              payload = ground (arith, seen, same, last);
              first_login = ground (arith, seen, same, last);
            }
      ]

  payload_of-user :
      (dto : LoginDto) (db t : Db) (user : User) (role : Role) (token : JwtToken) (first : Bool)
      → (role.name == role_name android_user) ≡ false
      → payload_of R env c dto user role db ≡ (ok (token, first), t)
      → (token ≡ user_payload user role) × (first ≡ false)
  unfolding payload_of
  payload_of-user dto db t user role token first other e =
      let e' = rw (other, payload_of) at e in (ground arith, ground arith)

  validate_found-eq-ok :
      (dto : LoginDto) (db t : Db) (user : User) (token : JwtToken) (first : Bool)
      → validate_found R env c dto (some user) db ≡ (ok (token, first), t)
      → (role : Role) × (password_matches c dto.password user.password ≡ true)
        × (R.role.find_one (λ r. r.id == user.role) db ≡ some role)
        × (payload_of R env c dto user role db ≡ (ok (token, first), t))
  unfolding validate_found
  validate_found-eq-ok dto db t user token first e =
      elim (Bool-cases (password_matches c dto.password user.password)) [
        | inr wrong ↦ absurd (ground arith)
        | inl right ↦ elim (Option-cases (R.role.find_one (λ r. r.id == user.role) db)) [
          | inl missing ↦ absurd (ground arith)
          | inr (role, found) ↦ (role, right, found, ground arith)
        ]
      ]

  payload-kind :
      (dto : LoginDto) (db t : Db) (user : User) (role : Role) (token : JwtToken) (first : Bool)
      → payload_of R env c dto user role db ≡ (ok (token, first), t)
      → ((role.name ≢ role_name android_user) × (token ≡ user_payload user role) × (first ≡ false))
        ⊎ ((role.name ≡ role_name android_user) × IsAccountToken dto db user role token first)
  payload-kind dto db t user role token first e =
      elim (Bool-cases (role.name == role_name android_user)) [
        | inl android ↦ inr (
          true_eq android,
          payload_of-IsAccountToken dto db t user role token first (true_eq android) e,
        )
        | inr other ↦
            let (same, no_first) = payload_of-user dto db t user role token first other e in
            inl (λ p. cc (other, eq_true p), same, no_first)
      ]

  -- A login that succeeds is of a stored user with the e-mail address and the password that were
  -- given; the token of an Android user is that of an account of the user which has the PIN, and no
  -- other user's token has a sub-role or an account.
  pub validate_user-IsIssued :
      (dto : LoginDto) (db t : Db) (token : JwtToken) (first : Bool)
      → validate_user R env c dto db ≡ (ok (token, first), t)
      → IsIssued c dto db token first
  unfolding validate_user
  validate_user-IsIssued dto db t token first e =
      elim (Option-cases (R.user.find_one (λ u. u.email == dto.email) db)) [
        | inl missing ↦ absurd (unfold validate_found in ground arith)
        | inr (user, found) ↦
            let (role, password, role_found, rest) =
              validate_found-eq-ok dto db t user token first (rw (found, validate_user) at e) in
            let (stored, email) = R.user.find_one-sound (λ u. u.email == dto.email) db user found in
            let (role_stored, named) =
              R.role.find_one-sound (λ r. r.id == user.role) db role role_found in
            record {
              user = user;
              stored = stored;
              email = true_eq email;
              password = password;
              role = role;
              role_stored = subst (λ k. role_at db k ≡ some role) (true_eq named) role_stored;
              payload = payload-kind dto db t user role token first rest;
            }
      ]
