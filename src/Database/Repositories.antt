-- ===== src/Database/Repositories.antt =====
-- The repositories that the modules inject, with the constraints that the entities declare: the
-- foreign keys of the many-to-one columns, the unique e-mail address of a user, and one row for an
-- account and a link (`@Unique(['account', 'userEmulator'])`).
use damaru_server.Prelude.{String, Bool, true, not, ◌&&◌, Option, none, some, List, [], ◌∷◌, ◌==◌}
use damaru_server.Repository.{Repository, lookup}
use damaru_server.Database.{
  Emulator, UserEmulator, AccountEmulator, EmulatorConnection, Account, User, Role, ActivityLog,
  Encryption, Db, is_null,
}

abbrev pub emulator_key : Emulator → String
emulator_key e = e.device_id

abbrev pub link_key : UserEmulator → String
link_key u = u.id

abbrev pub assignment_key : AccountEmulator → String
assignment_key a = a.id

abbrev pub connection_key : EmulatorConnection → String
connection_key c = c.id

abbrev pub account_key : Account → String
account_key a = a.id

abbrev pub user_key : User → String
user_key u = u.id

abbrev pub role_key : Role → String
role_key r = r.id

abbrev pub log_key : ActivityLog → String
log_key l = l.id

abbrev pub encryption_key : Encryption → String
encryption_key e = e.id

-- The row of a primary key, table by table.
abbrev pub emulator_at : Db → String → Option Emulator
emulator_at db k = lookup emulator_key k db.emulators

abbrev pub link_at : Db → String → Option UserEmulator
link_at db k = lookup link_key k db.user_emulators

abbrev pub assignment_at : Db → String → Option AccountEmulator
assignment_at db k = lookup assignment_key k db.account_emulators

abbrev pub account_at : Db → String → Option Account
account_at db k = lookup account_key k db.accounts

abbrev pub user_at : Db → String → Option User
user_at db k = lookup user_key k db.users

abbrev pub role_at : Db → String → Option Role
role_at db k = lookup role_key k db.roles

abbrev pub encryption_at : Db → String → Option Encryption
encryption_at db k = lookup encryption_key k db.encryptions

-- A condition `{ id }` of a query, which an absent id leaves out.
abbrev pub wanted : Option String → String → Bool
wanted none s = true
wanted (some id) s = s == id

unfoldable pub none_of {ℓ} : {A : Type ℓ} → (A → Bool) → List A → Bool
none_of p [] = true
none_of p (x ∷ xs) = not (p x) && none_of p xs

unfoldable pub valid_link : Db → UserEmulator → Bool
valid_link db u = not (is_null (user_at db u.user)) && not (is_null (emulator_at db u.device))

unfoldable pub valid_assignment : Db → AccountEmulator → Bool
unfolding none_of
valid_assignment db a =
    not (is_null (account_at db a.account))
    && not (is_null (link_at db a.user_emulator))
    && none_of
        (λ (b : AccountEmulator). b.account == a.account && b.user_emulator == a.user_emulator)
        db.account_emulators

unfoldable pub valid_connection : Db → EmulatorConnection → Bool
valid_connection db c = not (is_null (assignment_at db c.account_emulators))

unfoldable pub valid_account : Db → Account → Bool
valid_account db a = not (is_null (user_at db a.user))

unfoldable pub valid_user : Db → User → Bool
unfolding none_of
valid_user db u =
    not (is_null (role_at db u.role)) && none_of (λ (v : User). v.email == u.email) db.users

unfoldable pub valid_role : Db → Role → Bool
unfolding none_of
valid_role db r = none_of (λ (q : Role). q.name == r.name) db.roles

unfoldable pub valid_emulator : Db → Emulator → Bool
valid_emulator db e = true

unfoldable pub valid_log : Db → ActivityLog → Bool
valid_log db l = true

unfoldable pub valid_encryption : Db → Encryption → Bool
valid_encryption db e = true

pub record Repositories : Type 0 where
  pub emulator : Repository Db Emulator emulator_key (λ db. db.emulators) valid_emulator
  pub user_emulator : Repository Db UserEmulator link_key (λ db. db.user_emulators) valid_link
  pub account_emulator :
      Repository Db AccountEmulator assignment_key (λ db. db.account_emulators) valid_assignment
  pub connection :
      Repository Db EmulatorConnection connection_key
        (λ db. db.emulator_connections)
        valid_connection
  pub account : Repository Db Account account_key (λ db. db.accounts) valid_account
  pub user : Repository Db User user_key (λ db. db.users) valid_user
  pub role : Repository Db Role role_key (λ db. db.roles) valid_role
  pub activity_log : Repository Db ActivityLog log_key (λ db. db.activity_logs) valid_log
  pub encryption : Repository Db Encryption encryption_key (λ db. db.encryptions) valid_encryption
  -- Whether the database takes a text as the key of a user, which is a UUID: it refuses a query with
  -- another text.
  pub accepts : String → Bool
