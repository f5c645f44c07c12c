-- ===== src/Users/Creation.antt =====
-- What the creation of a user leaves behind (modules/users/services/user.service.ts, create).
pub mod Statements
use mathlib.Core.Path.{subst}
use damaru_server.Prelude.{
  String, ◌≡◌, ◌≢◌, refl, sym, ap, ◌∙◌, Bool, true, false, Option, none, some, List, [], ◌∷◌, ◌==◌,
  if◌then◌else◌, arith, eq_iff, Option-cases, Bool-cases, inl, inr, true_eq,
}
use damaru_server.Prelude.Exec.{Result, ok, continue-eq-ok, non_null, non_null-eq-ok, when}
use damaru_server.Token.{Roles, android_user, role_name}
use damaru_server.Environment.{Environment}
use damaru_server.Repository.{lookup}
use damaru_server.Repository.Keys.{find_one-key}
use damaru_server.Database.{User, Role, Account, Db, create_user, new_user}
use damaru_server.Database.Repositories.{
  Repositories, none_of, user_at, role_at, account_at, user_key, account_key, valid_user,
}
use damaru_server.Database.Statements.{insert_log, insert_user, insert_account}
use damaru_server.Database.Effects.{user_inserted, account_inserted}
use damaru_server.ActivityLogs.{CreateActivityLogDto, log}
use damaru_server.Accounts.{CreateAccountDto, CreatedAccount, new_account, or_else}
use damaru_server.Accounts
use damaru_server.Accounts.Laws.Pins.{create-eq-ok}
use damaru_server.Users.Creation.Statements.{
  HasNewAccount, creation, logged, account_created, create-Steps,
}
use damaru_server.Users.{
  CreateUserDto, Draws, user_row, root_account, add_root_account, create, is_android,
}

module _ (env : Environment) (d : Draws) (dto : CreateUserDto) (db t : Db) where
  -- The root account of a new Android user
  pub record HasRoot (user : String) : Type 0 where
    pub account : String
    pub added : HasNewAccount (new_account env (root_account d dto user) d.pin account) db t

  pub record IsCreated (stored : Option User) : Type 0 where
    pub id : String
    pub role : Role
    pub role_stored : role_at db role.id ≡ some role
    pub role_named : role.name ≡ role_name dto.role
    pub fresh : user_at db id ≡ none
    pub email_free : (k : String) (u : User) → user_at db k ≡ some u → u.email ≢ dto.email
    pub returned : stored ≡ some (user_row d dto role.id id)
    pub users :
        (k : String)
        → user_at t k ≡ (if id == k then some (user_row d dto role.id id) else user_at db k)
    pub roles : t.roles ≡ db.roles
    pub android : dto.role ≡ android_user → HasRoot id
    pub others : dto.role ≢ android_user → t.accounts ≡ db.accounts

same_before :
    (a : Account) (s db t : Db)
    → s.accounts ≡ db.accounts
    → HasNewAccount a s t
    → HasNewAccount a db t
same_before a s db t same (free, law) = (
  ap (λ (l : List Account). lookup account_key a.id l) (sym same) ∙ free,
  λ k. law k ∙ ap (λ (l : List Account). if a.id == k then some a else lookup account_key k l) same,
)

-- A row that is looked up does not match, if none does.
lookup-none_of :
    {Row : Type 0} (key : Row → String) (p : Row → Bool) (rows : List Row) (k : String) (r : Row)
    → none_of p rows ≡ true
    → lookup key k rows ≡ some r
    → p r ≡ false
unfolding none_of lookup
lookup-none_of key p [] k r free at = absurd (cc)
lookup-none_of key p (q ∷ rows) k r free at = elim (Bool-cases (p q)) [
  | inl hit ↦ absurd (ground (arith, hit, free))
  | inr miss ↦ elim (Bool-cases (key q == k)) [
    | inl here ↦ ground (arith, here, at, miss)
    | inr there ↦ lookup-none_of key p rows k r (ground (arith, miss, free)) (rw there at at)
  ]
]

module _ (R : Repositories) where
  module _ (env : Environment) (d : Draws) (dto : CreateUserDto) where
    root_added :
        (user : String) (db t : Db)
        → add_root_account R env d dto user db ≡ (ok tt, t)
        → HasRoot env d dto db t user × (t.users ≡ db.users) × (t.roles ≡ db.roles)
    unfolding add_root_account root_account
    root_added user db t e =
        let (made, s, created, rest) =
          continue-eq-ok (Accounts.create R env d.pin (root_account d dto user) db) _ tt t e in
        let (m, s', noted, last) = continue-eq-ok (log R _ s) _ tt t rest in
        let (id, (free, law), kept) =
          account_created R env d dto (root_account d dto user) made d.pin db s refl created in
        let same : t ≡ record s { activity_logs = s'.activity_logs } =
          sym (ap (λ (x : Result (Unit {0}) × Db). x.1) last) ∙ logged R _ s s' noted in
        (
          record {
            account = id;
            added = (free, λ k. ap (λ (x : Db). account_at x k) same ∙ law k);
          },
          rw same (rw kept refl),
          rw same (rw kept refl),
        )

    accounts_after :
        (user : String) (db t : Db) (r : Roles)
        → when (is_android r) (add_root_account R env d dto user) db ≡ (ok tt, t)
        → (r ≡ android_user → HasRoot env d dto db t user)
          × (r ≢ android_user → t.accounts ≡ db.accounts)
          × (t.users ≡ db.users)
          × (t.roles ≡ db.roles)
    accounts_after user db t Roles.android_user e =
        let (root, users, roles) = root_added user db t e in
        (λ _. root, λ other. absurd (other refl), users, roles)
    accounts_after user db t Roles.super_admin e =
        let same : db ≡ t = ap (λ (x : Result (Unit {0}) × Db). x.1) e in
        (λ p. absurd (cc), λ _. rw same refl, rw same refl, rw same refl)
    accounts_after user db t Roles.emulator_admin e =
        let same : db ≡ t = ap (λ (x : Result (Unit {0}) × Db). x.1) e in
        (λ p. absurd (cc), λ _. rw same refl, rw same refl, rw same refl)

    email_free :
        (id : String) (role : Role) (db : Db)
        → valid_user db (user_row d dto role.id id) ≡ true
        → (k : String) (u : User) → user_at db k ≡ some u
        → u.email ≢ dto.email
    unfolding valid_user user_row
    email_free id role db fits k u at same = ground (
      arith,
      fits,
      lookup-none_of user_key (λ (v : User). v.email == dto.email) db.users k u,
      at,
      same,
      eq_iff u.email dto.email,
    )

    assembled :
        (id : String) (role : Role) (rows : List User) (db s t : Db)
        → role_at db role.id ≡ some role
        → role.name ≡ role_name dto.role
        → user_at db id ≡ none
        → valid_user db (user_row d dto role.id id) ≡ true
        → ((k : String)
            → lookup user_key k rows
              ≡ (if id == k then some (user_row d dto role.id id) else user_at db k))
        → s ≡ record db { users = rows; activity_logs = s.activity_logs }
        → when (is_android dto.role) (add_root_account R env d dto id) s ≡ (ok tt, t)
        → IsCreated env d dto db t (R.user.find_one (λ u. u.id == id) t)
    assembled id role rows db s t role_stored role_named fresh fits law same rooted =
        let (root, plain, users, roles) = accounts_after id s t dto.role rooted in
        let accounts : s.accounts ≡ db.accounts = rw same refl in
        let table : (k : String) → user_at t k ≡ lookup user_key k rows =
          λ k. ap (λ (l : List User). lookup user_key k l) (users ∙ rw same refl) in
        record {
          id = id;
          role = role;
          role_stored = role_stored;
          role_named = role_named;
          fresh = fresh;
          email_free = email_free id role db fits;
          returned = find_one-key R.user id t ∙ table id ∙ ground (arith, law id, eq_iff id id);
          users = λ k. table k ∙ law k;
          roles = roles ∙ rw same refl;
          android = λ p.
              let h = root p in
              record {
                account = h.account;
                added =
                    same_before (new_account env (root_account d dto id) d.pin h.account) s db t
                      accounts h.added;
              };
          others = λ p. plain p ∙ accounts;
        }

    -- A creation that succeeds is of an e-mail address that no user had. It stores one user, with the
    -- hash of the password that was given or else drawn and with the role's row, and returns him and the
    -- password; an Android user gets a root account with the PIN that was drawn, and no other account is
    -- added or changed.
    pub create-IsCreated :
        (stored : Option User) (password : String) (db t : Db)
        → create R env d dto db ≡ (ok (stored, password), t)
        → IsCreated env d dto db t stored × (password ≡ or_else dto.password d.password)
    create-IsCreated stored password db t e =
        let p = create-Steps R env d dto stored password db t e in
        let (role_stored, role_named) =
          R.role.find_one-sound (λ r. r.name == role_name dto.role) db p.role p.role_found in
        let (rows, same, fresh, fits, law) =
          user_inserted R (user_row d dto p.role.id) db p.added in
        let after : p.logged ≡ record db { users = rows; activity_logs = p.logged.activity_logs } =
          logged R _ p.inserted p.logged p.noted
          ∙ ap (λ (x : Db). record x { activity_logs = p.logged.activity_logs }) same in
        (
          subst (IsCreated env d dto db t) p.returned (
              assembled p.id p.role rows db p.logged t role_stored (true_eq role_named) fresh fits
                law after p.rooted),
          sym p.chosen,
        )
