-- ===== src/Tests/Admission.antt =====
-- The creation of a second user in the small database, and his first login.
use mathlib.Core.Path.{subst}
use damaru_server.Prelude.{
  true, false, sym, String, ◌≡◌, ◌≢◌, refl, Option, none, some, [], ◌∷◌, ◌==◌, arith, Bool-cases,
  inl, inr, eq_true,
}
use damaru_server.Prelude.Exec.{ok}
use damaru_server.Repository.{lookup}
use damaru_server.Repository.Memory.{memory}
use damaru_server.Token.{JwtToken, android_user}
use damaru_server.Database.{User, Account, Db}
use damaru_server.Database.Repositories.{
  Repositories, log_key, valid_log, valid_user, valid_account, account_at, user_at,
}
use damaru_server.Database.Statements.{insert_log, insert_user, insert_account}
use damaru_server.ActivityLogs.{log}
use damaru_server.Accounts
use damaru_server.Auth.{validate_user}
use damaru_server.Users.{CreateUserDto, user_row, root_account, add_root_account, create}
use damaru_server.Users.Creation.{IsCreated, create-IsCreated}
use damaru_server.Users.Admission.{HasOwners, IsRootToken, first_login, create-IsRootToken}
use damaru_server.Tests.{in_memory, environment, database}
use damaru_server.Tests.Auth.{plain}
use damaru_server.Tests.Routes.{draws}

-- Two logs get two keys.
abbrev log_keys : Db → String
log_keys db = elim db.activity_logs [ [] ↦ "g1" | x ∷ rest ↦ "g2" ]

unfoldable pub two_logs : Repositories
unfolding in_memory memory valid_log
two_logs = record in_memory {
  activity_log = memory log_key (λ db. db.activity_logs) valid_log log_keys;
}

abbrev neighbour : CreateUserDto
neighbour = record { email = "other@home"; name = "other"; role = android_user; password = none }

abbrev stored : Option User
stored = some (user_row draws neighbour "r1" "new")

abbrev created : Db
created = (create two_logs environment draws neighbour database).1

create_run :
    create two_logs environment draws neighbour database ≡ (ok (stored, "generated"), created)
unfolding create add_root_account log insert_log insert_user insert_account user_row root_account
    Accounts.create Accounts.insert_new Accounts.new_account Accounts.created_account valid_log
    valid_user valid_account two_logs in_memory memory lookup
create_run = refl

create-IsCreated_example :
    IsCreated environment draws neighbour database created stored
    × (◌≡◌ {A = String} "generated" "generated")
create-IsCreated_example =
    create-IsCreated two_logs environment draws neighbour stored "generated" database created
      create_run

differs : (a b : String) → (a == b) ≡ false → a ≢ b
differs a b h e = let same = eq_true e in ground (arith, same, h)

-- Both accounts are the owner's.
only_owners : (k : String) (a : Account) → account_at database k ≡ some a → a.user ≡ "u1"
unfolding lookup
only_owners k a at = elim (Bool-cases ("a1" == k)) [
  | inl hit ↦ let same = rw hit at at in ground (arith, same)
  | inr miss ↦ elim (Bool-cases ("a2" == k)) [
    | inl hit ↦ let same = rw (miss, hit) at at in ground (arith, same)
    | inr other ↦ let same = rw (miss, other) at at in absurd (ground (arith, same))
  ]
]

database-HasOwners : HasOwners database
unfolding lookup
database-HasOwners k a at =
    let same = only_owners k a at in subst (λ u. user_at database u ≢ none) (sym same) (λ e. cc)

create-IsRootToken_example :
    (token : JwtToken) × IsRootToken neighbour stored token
    × ((validate_user two_logs environment plain
          (first_login neighbour "generated" "44444")
          created).0
        ≡ ok (token, true))
create-IsRootToken_example =
    create-IsRootToken two_logs environment draws plain neighbour stored "generated" database
      created (λ p. eq_true refl) database-HasOwners refl (differs "other" "" refl)
      (differs "generated" "" refl) create_run
