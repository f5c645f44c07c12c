-- ===== src/Accounts/Laws.antt =====
-- Who may change an account, and what a change does.
pub mod Pins
pub mod Isolation
use mathlib.Core.Path.{subst}
use damaru_server.Prelude.{
  ℕ, String, ◌≡◌, ◌≢◌, refl, sym, ap, ◌∙◌, ◌⊎◌, inl, inr, Bool, true, false, ◌&&◌, Option, none,
  some, List, [], ◌∷◌, ◌==◌, if◌then◌else◌, arith, eq_iff, Option-cases, Bool-cases, true_eq,
  eq_true,
}
use damaru_server.Prelude.Exec.{Result, ok, err, unauthorized, not_found, continue-eq-ok}
use damaru_server.Token.{
  JwtToken, super_admin, android_user, android_account, role_name, sub_role_name, has_role,
}
use damaru_server.Repository.{revise, unless}
use damaru_server.Repository.Keys.{find_one-key}
use damaru_server.Environment.{Environment}
use damaru_server.Database.{Account, Db}
use damaru_server.Database.Repositories.{Repositories, account_at, account_key}
use damaru_server.Database.Statements.{update_account, delete_account}
use damaru_server.Database.Effects.{account_updated}
use damaru_server.Guards.{can_activate, authorized, is_authorized, android_users, http}
use damaru_server.Accounts.{
  UpdateAccountDto, UpdateFields, may_update, may_remove, update, remove, find_user_by_account,
  has_pin_of, pin_fields, update_found, write_fields, non_empty,
}

module _ (R : Repositories) (env : Environment) (id : String) where
  -- Updating or removing an account that is not there is refused as not found, and changes nothing.
  account_missing :
      (dto : UpdateAccountDto) (jwt : JwtToken) (db : Db)
      → account_at db id ≡ none
      → (update R env id dto jwt db ≡ (err (not_found "Account not found"), db))
        × (remove R id jwt db ≡ (err (not_found "Account not found"), db))
  unfolding update remove find_user_by_account
  account_missing dto jwt db e =
      (rw (find_one-key R.account id db) (rw e), rw (find_one-key R.account id db) (rw e))

  update_forbidden :
      (dto : UpdateAccountDto) (jwt : JwtToken) (db : Db) (a : Account)
      → account_at db id ≡ some a
      → may_update jwt a.user ≡ false
      → update R env id dto jwt db
        ≡ (err (unauthorized "You cannot update an account you do not own"), db)
  unfolding update find_user_by_account
  update_forbidden dto jwt db a e h = rw (find_one-key R.account id db) (rw e (rw h))

  remove_forbidden :
      (jwt : JwtToken) (db : Db) (a : Account)
      → account_at db id ≡ some a
      → may_remove jwt a.user id ≡ false
      → remove R id jwt db ≡ (err (unauthorized "You cannot delete an account you do not own"), db)
  unfolding remove find_user_by_account
  remove_forbidden jwt db a e h = rw (find_one-key R.account id db) (rw e (rw h))

  -- A user who is not a super admin can neither update nor remove an account of another user: both
  -- requests are refused, and nothing changes.
  foreign_refused :
      (dto : UpdateAccountDto) (jwt : JwtToken) (db : Db) (a : Account)
      → account_at db id ≡ some a
      → jwt.role ≢ role_name super_admin
      → a.user ≢ jwt.sub
      → (update R env id dto jwt db
          ≡ (err (unauthorized "You cannot update an account you do not own"), db))
        × (remove R id jwt db
            ≡ (err (unauthorized "You cannot delete an account you do not own"), db))
  unfolding may_update may_remove
  foreign_refused dto jwt db a e role foreign =
      let plain : has_role jwt super_admin ≡ false =
        ground (arith, eq_iff jwt.role (role_name super_admin)) in
      let other : (a.user == jwt.sub) ≡ false = ground (arith, eq_iff a.user jwt.sub) in
      (
        update_forbidden dto jwt db a e (rw (plain, other)),
        remove_forbidden jwt db a e (rw (plain, other)),
      )

  pub record IsUpdated (jwt : JwtToken) (fields : UpdateFields) (db t : Db) : Type 0 where
    pub account : Account
    pub stored : account_at db id ≡ some account
    pub allowed : may_update jwt account.user ≡ true
    pub pin_free :
        (pin : String) (k : String) (b : Account)
        → fields.pin ≡ some pin
        → account_at db k ≡ some b
        → has_pin_of account.user pin b ≡ false
    pub accounts_after :
        (k : String) → account_at t k ≡ revise (id == k) (write_fields env fields) (account_at db k)

  pin_fields-eq-ok :
      (owner : String) (name pin : Option String) (db s : Db) (fields : UpdateFields)
      → pin_fields R env owner name pin db ≡ (ok fields, s)
      → (s ≡ db)
        × ((p : String) (k : String) (b : Account)
            → fields.pin ≡ some p
            → account_at db k ≡ some b
            → has_pin_of owner p b ≡ false)
  unfolding pin_fields
  pin_fields-eq-ok owner name none db s fields e = (cc, λ p k b q at. absurd (ground arith))
  pin_fields-eq-ok owner name (some pin) db s fields e =
      elim (Option-cases (R.account.find_one (has_pin_of owner pin) db)) [
        | inr (b, taken) ↦ absurd (ground arith)
        | inl free ↦ (
          ground arith,
          λ p k b q at.
              let same : pin ≡ p = ground arith in
              subst (λ x. has_pin_of owner x b ≡ false) same
                (R.account.find_one-complete (has_pin_of owner pin) db k b free at),
        )
      ]

  write_fields-key :
      (fields : UpdateFields) (a : Account)
      → account_key (write_fields env fields a) ≡ account_key a
  unfolding write_fields
  write_fields-key fields a = refl

  written-IsUpdated :
      (jwt : JwtToken) (fields : UpdateFields) (db t : Db) {n : ℕ} (a : Account)
      → account_at db id ≡ some a
      → may_update jwt a.user ≡ true
      → ((pin : String) (k : String) (b : Account)
          → fields.pin ≡ some pin
          → account_at db k ≡ some b
          → has_pin_of a.user pin b ≡ false)
      → update_account R id (write_fields env fields) db ≡ (ok n, t)
      → IsUpdated jwt fields db t
  written-IsUpdated jwt fields db t a stored allowed free e =
      let (rows, same, law) =
        account_updated R id (write_fields env fields) db (write_fields-key fields) e in
      record {
        account = a;
        stored = stored;
        allowed = allowed;
        pin_free = free;
        accounts_after = λ k. ap (λ (d : Db). account_at d k) same ∙ law k;
      }

  update_found-IsUpdated :
      (dto : UpdateAccountDto) (jwt : JwtToken) (fields : UpdateFields) (db t : Db) (a : Account)
      → account_at db id ≡ some a
      → update_found R env id dto jwt (some a) db ≡ (ok fields, t)
      → IsUpdated jwt fields db t
  unfolding update_found
  update_found-IsUpdated dto jwt fields db t a stored e =
      elim (Bool-cases (may_update jwt a.user)) [
        | inr forbidden ↦ absurd (ground arith)
        | inl allowed ↦
            let (f, s, found, rest) =
              continue-eq-ok
                (pin_fields R env a.user (non_empty dto.account_name) (non_empty dto.pin) db) _
                fields t (rw (allowed, update_found) at e) in
            let (same, free) = pin_fields-eq-ok a.user _ _ db s f found in
            let (n, u, written, last) =
              continue-eq-ok (update_account R id (write_fields env f) s) _ fields t rest in
            written-IsUpdated jwt fields db t a stored allowed
              (λ p k b q. free p k b (ground arith))
              (subst (λ d. update_account R id (write_fields env fields) d ≡ (ok n, t)) same
                (ground arith))
      ]

  -- An update that succeeds was allowed, gave the account a PIN that no account of its user had, if
  -- it gave one, and wrote these fields to that account alone, with the time of the update.
  pub update-IsUpdated :
      (dto : UpdateAccountDto) (jwt : JwtToken) (fields : UpdateFields) (db t : Db)
      → update R env id dto jwt db ≡ (ok fields, t)
      → IsUpdated jwt fields db t
  unfolding update find_user_by_account
  update-IsUpdated dto jwt fields db t e = elim (Option-cases (account_at db id)) [
    | inl missing ↦ absurd (cc ((account_missing dto jwt db missing).0))
    | inr (a, stored) ↦ update_found-IsUpdated dto jwt fields db t a stored (
        subst (λ o. update_found R env id dto jwt o db ≡ (ok fields, t))
          (find_one-key R.account id db ∙ stored) e)
  ]

  -- The token of an account that is not an admin account passes the guard of the route, and its
  -- update of any account, its own included, is refused and changes nothing.
  pub plain_account_refused :
      (dto : UpdateAccountDto) (jwt : JwtToken) (db : Db) (a : Account)
      → jwt.role ≡ role_name android_user
      → jwt.sub_role ≡ some (sub_role_name android_account)
      → account_at db id ≡ some a
      → (can_activate android_users http (some jwt) ≡ ok true)
        × (update R env id dto jwt db
            ≡ (err (unauthorized "You cannot update an account you do not own"), db))
  unfolding can_activate authorized is_authorized may_update
  plain_account_refused dto jwt db a role sub_role stored =
      let android : has_role jwt android_user ≡ true = eq_true role in
      let not_super : has_role jwt super_admin ≡ false =
        ap (λ r. r == role_name super_admin) role in
      (
        ground (arith, android, sub_role),
        update_forbidden dto jwt db a stored (ground (arith, not_super, sub_role)),
      )
