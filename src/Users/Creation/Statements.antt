-- ===== src/Users/Creation/Statements.antt =====
-- The statements of create (modules/users/services/user.service.ts) one by one.
use mathlib.Core.Path.{subst}
use damaru_server.Prelude.{
  String, ◌≡◌, refl, sym, ap, ◌∙◌, Bool, Option, none, some, ◌==◌, if◌then◌else◌, arith,
  Option-cases, inl, inr,
}
use damaru_server.Prelude.Exec.{Result, ok, continue-eq-ok, non_null, non_null-eq-ok, when}
use damaru_server.Token.{role_name}
use damaru_server.Environment.{Environment}
use damaru_server.Database.{User, Role, Account, Db, create_user, new_user}
use damaru_server.Database.Repositories.{Repositories, account_at}
use damaru_server.Database.Statements.{insert_log, insert_user, insert_account}
use damaru_server.Database.Effects.{account_inserted}
use damaru_server.ActivityLogs.{CreateActivityLogDto, log}
use damaru_server.Accounts.{CreateAccountDto, CreatedAccount, new_account, or_else}
use damaru_server.Accounts
use damaru_server.Accounts.Laws.Pins.{create-eq-ok}
use damaru_server.Users.{CreateUserDto, Draws, user_row, add_root_account, create, is_android}

-- The accounts are as in `db`, but for the account of the key `id`.
abbrev pub HasNewAccount : Account → Db → Db → Type 0
HasNewAccount a db t =
    (account_at db a.id ≡ none)
    × ((k : String) → account_at t k ≡ (if a.id == k then some a else account_at db k))

-- The entry that a creation logs
abbrev pub creation : CreateUserDto → String → CreateActivityLogDto
creation dto user = record {
  user_id = some user;
  account_id = none;
  device_id = none;
  action = create_user;
  metadata = new_user dto.email dto.name (some (role_name dto.role)) dto.password;
}

-- What each statement of a creation does
pub record Steps (R : Repositories) (env : Environment) (d : Draws) (dto : CreateUserDto)
    (stored : Option User) (password : String) (db t : Db) : Type 0 where
  pub role : Role
  pub role_found : R.role.find_one (λ r. r.name == role_name dto.role) db ≡ some role
  pub id : String
  pub inserted : Db
  pub added : insert_user R (user_row d dto role.id) db ≡ (ok id, inserted)
  pub logged : Db
  pub message : String
  pub noted : log R (creation dto id) inserted ≡ (ok message, logged)
  pub rooted : when (is_android dto.role) (add_root_account R env d dto id) logged ≡ (ok tt, t)
  pub returned : R.user.find_one (λ u. u.id == id) t ≡ stored
  pub chosen : or_else dto.password d.password ≡ password

module _ (R : Repositories) where
  -- The log changes no other table.
  pub logged :
      (dto : CreateActivityLogDto) (db t : Db) {m : String}
      → log R dto db ≡ (ok m, t)
      → t ≡ record db { activity_logs = t.activity_logs }
  unfolding log insert_log
  logged dto db t e =
      elim (Option-cases (
        R.activity_log.insert (λ l. record { id = l; action = dto.action; metadata = dto.metadata })
          db)) [ inl refused ↦ absurd (ground arith) | inr ((l, rows), q) ↦ ground arith ]

  module _ (env : Environment) (d : Draws) (dto : CreateUserDto) where
    -- The first part of the creation of an account that succeeds
    pub account_created :
        (req : CreateAccountDto) (made : CreatedAccount) (pin : String) (db t : Db)
        → req.pin ≡ some pin
        → Accounts.create R env d.pin req db ≡ (ok made, t)
        → (id : String) × HasNewAccount (new_account env req pin id) db t
          × (t ≡ record db { accounts = t.accounts })
    unfolding Accounts.insert_new new_account
    account_created req made pin db t given e =
        let (_, inserted) = create-eq-ok R env d.pin req made db t e in
        let row = new_account env req pin in
        let (id, s, added, last) =
          continue-eq-ok (insert_account R row db) _ made t (rw given at inserted) in
        let (rows, same, free, _, law) = account_inserted R row db added in
        let end : s ≡ t = ap (λ (x : Result CreatedAccount × Db). x.1) last in
        let at_t : t ≡ record db { accounts = rows } = sym end ∙ same in
        (id, (free, λ k. ap (λ (x : Db). account_at x k) at_t ∙ law k), rw at_t refl)

    -- The steps of a creation that succeeds
    pub create-Steps :
        (stored : Option User) (password : String) (db t : Db)
        → create R env d dto db ≡ (ok (stored, password), t)
        → Steps R env d dto stored password db t
    unfolding create
    create-Steps stored password db t e =
        let named : Role → Bool = λ r. r.name == role_name dto.role in
        let (role, s0, found, rest0) =
          continue-eq-ok (non_null (R.role.find_one named db) db) _ (stored, password) t e in
        let (role_found, same0) = non_null-eq-ok (R.role.find_one named db) db found in
        let (id, s1, added, rest1) =
          continue-eq-ok (insert_user R (user_row d dto role.id) s0) _ (stored, password) t rest0 in
        let (m, s2, noted, rest2) =
          continue-eq-ok (log R (creation dto id) s1) _ (stored, password) t rest1 in
        let (_, s3, rooted, last) =
          continue-eq-ok (when (is_android dto.role) (add_root_account R env d dto id) s2) _
            (stored, password) t rest2 in
        let end : s3 ≡ t = ap (λ (x : Result (Option User × String) × Db). x.1) last in
        record {
          role = role;
          role_found = role_found;
          id = id;
          inserted = s1;
          added = subst (λ x. insert_user R (user_row d dto role.id) x ≡ (ok id, s1)) same0 added;
          logged = s2;
          message = m;
          noted = noted;
          rooted =
              subst
                (λ x. when (is_android dto.role) (add_root_account R env d dto id) s2 ≡ (ok tt, x))
                end rooted;
          returned =
              subst (λ x. R.user.find_one (λ u. u.id == id) x ≡ stored) end (ground (arith, last));
          chosen = ground (arith, last);
        }
