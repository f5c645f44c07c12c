-- ===== src/Tests/Auth.antt =====
-- Logins on the small database. The parameters that stand for bcrypt and the signature are the
-- comparison of the texts themselves and the user's key.
use damaru_server.Prelude.{
  String, ◌≡◌, ◌≢◌, ◌⊎◌, refl, Bool-cases, inl, inr, ap, eq_iff, false, some, ◌==◌, arith,
}
use damaru_server.Prelude.Exec.{ok}
use damaru_server.Repository.{lookup}
use damaru_server.Repository.Memory.{memory}
use damaru_server.Database.{Db, Account}
use damaru_server.Database.Repositories.{account_at}
use damaru_server.Database.Statements.{update_account}
use damaru_server.Auth.{
  LoginDto, Credentials, account_payload, validate_user, validate_found, payload_of, scan,
  require_name,
}
use damaru_server.Auth.Laws.{IsIssued, validate_user-IsIssued}
use damaru_server.Auth.Refusals.{validate_user_accepts}
use damaru_server.Tests.{in_memory, environment, database, owner, android, root, guest}

abbrev pub plain : Credentials
plain = record { compare_hash = λ a b. a == b; sign = λ token. token.sub }

abbrev login_with : String → String → LoginDto
login_with password pin = record { email = "owner@home"; password = some password; pin = some pin }

abbrev after_login : Db
after_login = (validate_user in_memory environment plain (login_with "secret" "22222") database).1

login_run :
    validate_user in_memory environment plain (login_with "secret" "22222") database
    ≡ (ok (account_payload owner android guest, false), after_login)
unfolding validate_user validate_found payload_of scan require_name account_payload update_account
    in_memory memory lookup
login_run = refl

validate_user-IsIssued_example :
    IsIssued plain
      (login_with "secret" "22222")
      database
      (account_payload owner android guest)
      false
validate_user-IsIssued_example =
    validate_user-IsIssued in_memory environment plain (login_with "secret" "22222") database
      after_login (account_payload owner android guest) false login_run

two_accounts :
    (k : String) (a : Account) → account_at database k ≡ some a → (a ≡ root) ⊎ (a ≡ guest)
unfolding lookup
two_accounts k a at = elim (Bool-cases ("a1" == k)) [
  | inl hit ↦ inl (ground arith)
  | inr miss ↦ elim (Bool-cases ("a2" == k)) [
    | inl hit ↦ inr (ground arith)
    | inr other ↦ absurd (ground arith)
  ]
]

named : (a : Account) → (a ≡ root) ⊎ (a ≡ guest) → a.account_name ≢ ""
named a (inl e) q = ground (arith, ap (λ (b : Account). b.account_name) e, eq_iff "root" "")
named a (inr e) q = ground (arith, ap (λ (b : Account). b.account_name) e, eq_iff "guest" "")

validate_user_accepts_example :
    (b : Account) × (account_at database b.id ≡ some b)
    × (b.user ≡ "u1")
    × (some "22222" ≡ some b.pin)
    × ((validate_user in_memory environment plain (login_with "secret" "22222") database).0
        ≡ ok (account_payload owner android b, b.first_login))
unfolding in_memory memory lookup
validate_user_accepts_example =
    validate_user_accepts in_memory environment plain (login_with "secret" "22222") database owner
      android guest refl refl refl refl refl refl refl
      (λ k b at mine pin empty. named b (two_accounts k b at) empty)
