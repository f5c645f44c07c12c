-- ===== src/Auth/Refusals.antt =====
-- When a login is refused, and that it succeeds for an account with the PIN.
use mathlib.Core.List.{Memᴰ}
use damaru_server.Prelude.{
  String, ◌≡◌, ◌≢◌, ap, ◌∙◌, inl, inr, Bool, true, false, Option, none, some, List, [], ◌∷◌, ◌==◌,
  arith, eq_iff, Option-cases, Bool-cases, true_eq, eq_true,
}
use damaru_server.Prelude.Exec.{ok, err, unauthorized, continue-ok}
use damaru_server.Token.{android_user, role_name}
use damaru_server.Environment.{Environment}
use damaru_server.Database.{Account, User, Role, Db}
use damaru_server.Database.Repositories.{Repositories, user_at, account_at}
use damaru_server.Auth.{
  LoginDto, Credentials, account_payload, password_matches, scan, require_name, payload_of,
  validate_found, validate_user,
}
use damaru_server.Auth.Laws.{last_match, last_match-mem, scan-eq, found_after}

module _ (R : Repositories) (env : Environment) (c : Credentials) where
  -- With an e-mail address that no user has, or a password that does not match, a login is refused
  -- and changes nothing.
  validate_user_credentials :
      (dto : LoginDto) (db : Db)
      → ((k : String) (u : User)
          → user_at db k ≡ some u
          → u.email ≡ dto.email
          → password_matches c dto.password u.password ≡ false)
      → validate_user R env c dto db ≡ (err (unauthorized "Invalid credentials"), db)
  unfolding validate_user validate_found
  validate_user_credentials dto db h =
      elim (Option-cases (R.user.find_one (λ u. u.email == dto.email) db)) [
        | inl missing ↦ rw missing
        | inr (user, found) ↦
            let (stored, email) = R.user.find_one-sound (λ u. u.email == dto.email) db user found in
            rw found (rw (h user.id user stored (true_eq email)))
      ]

  last_match-none :
      (pin : Option String) (accounts : List Account)
      → ((a : Account) → Memᴰ a accounts → pin ≡ some a.pin → ⊥)
      → last_match pin accounts ≡ none
  last_match-none pin accounts h = elim (Option-cases (last_match pin accounts)) [
    | inl missing ↦ missing
    | inr (a, found) ↦ let (m, p) = last_match-mem pin accounts a found in absurd (h a m p)
  ]

  last_match-some :
      (pin : Option String) (accounts : List Account) (a : Account)
      → Memᴰ a accounts
      → pin ≡ some a.pin
      → last_match pin accounts ≢ none
  unfolding last_match
  last_match-some pin [] a m p = elim m [ ]
  last_match-some pin (b ∷ rest) a (Memᴰ.head e) p =
      ground (arith, e, p, eq_iff a.pin a.pin, eq_iff a.pin b.pin)
  last_match-some pin (b ∷ rest) a (Memᴰ.tail m) p = ground (arith, last_match-some pin rest a m p)

  -- Of an Android user the payload is what the PIN has found.
  payload_of-found :
      (dto : LoginDto) (db : Db) (user : User) (role : Role)
      → role.name ≡ role_name android_user
      → (s : Db) × (payload_of R env c dto user role db
          ≡ require_name R env c
              (found_after user role
                (last_match dto.pin (R.account.find (λ a. a.user == user.id) db)))
              s)
  unfolding payload_of found_after
  payload_of-found dto db user role android =
      let accounts : List Account = R.account.find (λ a. a.user == user.id) db in
      let (s, same) =
        continue-ok (scan R env c user role dto.pin accounts (false, none) db)
          (require_name R env c) _ (scan-eq R env c user role dto.pin accounts (false, none) db) in
      (
        s,
        rw (eq_true android, payload_of) (same ∙ ap (λ x. require_name R env c x s) (ground arith)),
      )

  -- The user and the role being found: a right password is not enough for an Android user: without a PIN of an account of the user the
  -- login is refused.
  validate_user_pin :
      (dto : LoginDto) (db : Db) (user : User) (role : Role)
      → R.user.find_one (λ u. u.email == dto.email) db ≡ some user
      → R.role.find_one (λ r. r.id == user.role) db ≡ some role
      → password_matches c dto.password user.password ≡ true
      → role.name ≡ role_name android_user
      → ((k : String) (a : Account)
          → account_at db k ≡ some a
          → a.user ≡ user.id
          → dto.pin ≢ some a.pin)
      → (validate_user R env c dto db).0 ≡ err (unauthorized "Invalid account or pin")
  unfolding validate_user validate_found require_name found_after
  validate_user_pin dto db user role found role_found password android h =
      let mine : Account → Bool = λ a. a.user == user.id in
      let missing = last_match-none dto.pin (R.account.find mine db) (λ a m p.
        let (stored, mine') = R.account.mem-find mine db a m in
        h a.id a stored (true_eq mine') p) in
      let (s, same) = payload_of-found dto db user role android in
      rw found (rw password (rw role_found (rw same (rw (missing, found_after)))))

  require_name-payload :
      (user : User) (role : Role) (b : Account) (s : Db)
      → b.account_name ≢ ""
      → require_name R env c (b.first_login, some (account_payload user role b)) s
        ≡ (ok (account_payload user role b, b.first_login), s)
  unfolding require_name account_payload
  require_name-payload user role b s h = elim (Bool-cases (b.account_name == "")) [
    | inl empty ↦ absurd (h (true_eq empty))
    | inr name ↦ rw name
  ]

  -- The user and the role being found: with the right password and the PIN of an account of the user, an Android user gets the token of
  -- such an account, if none of them has an empty name.
  pub validate_user_accepts :
      (dto : LoginDto) (db : Db) (user : User) (role : Role) (a : Account)
      → R.user.find_one (λ u. u.email == dto.email) db ≡ some user
      → R.role.find_one (λ r. r.id == user.role) db ≡ some role
      → password_matches c dto.password user.password ≡ true
      → role.name ≡ role_name android_user
      → account_at db a.id ≡ some a
      → a.user ≡ user.id
      → dto.pin ≡ some a.pin
      → ((k : String) (b : Account)
          → account_at db k ≡ some b
          → b.user ≡ user.id
          → dto.pin ≡ some b.pin
          → b.account_name ≢ "")
      → (b : Account) × (account_at db b.id ≡ some b)
        × (b.user ≡ user.id)
        × (dto.pin ≡ some b.pin)
        × ((validate_user R env c dto db).0 ≡ ok (account_payload user role b, b.first_login))
  unfolding validate_user validate_found found_after
  validate_user_accepts dto db user role a found role_found password android stored owner pin
        named =
      let mine : Account → Bool = λ b. b.user == user.id in
      let accounts : List Account = R.account.find mine db in
      elim (Option-cases (last_match dto.pin accounts)) [
        | inl missing ↦ absurd (
            last_match-some dto.pin accounts a
              (R.account.find-mem mine db a.id a stored (eq_true owner)) pin missing)
        | inr (b, last) ↦
            let (member, pin') = last_match-mem dto.pin accounts b last in
            let (stored', mine') = R.account.mem-find mine db b member in
            let (s, same) = payload_of-found dto db user role android in
            (
              b,
              stored',
              true_eq mine',
              pin',
              rw found (
                  rw password (
                    rw role_found (
                      rw same (
                        rw (last, found_after)
                          (rw (
                            require_name-payload user role b s
                              (named b.id b stored' (true_eq mine') pin'))))))),
            )
      ]
