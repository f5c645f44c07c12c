-- ===== src/Tests/Accounts.antt =====
-- Accounts of the small database.
use damaru_server.Prelude.{
  String, ◌≡◌, ◌≢◌, ◌⊎◌, refl, sym, Bool-cases, inl, inr, true_eq, eq_true, true, false, none, some,
  [], ◌∷◌, ◌==◌, arith,
}
use damaru_server.Prelude.Exec.{ok, err, unauthorized}
use damaru_server.Repository.{lookup}
use damaru_server.Repository.Memory.{memory}
use damaru_server.Guards.{can_activate, android_users, http}
use damaru_server.Database.{Db, Account}
use damaru_server.Database.Repositories.{account_at, valid_account}
use damaru_server.Database.Statements.{update_account, insert_account}
use damaru_server.Accounts.{
  CreateAccountDto, CreatedAccount, UpdateAccountDto, UpdateFields, create, update, insert_new,
  new_account, created_account, find_user_by_account, update_found, pin_fields, write_fields,
  may_update,
}
use damaru_server.Accounts.Laws.{IsUpdated, update-IsUpdated, plain_account_refused}
use damaru_server.Accounts.Laws.Pins.{
  PinsDistinct, AdminsDistinct, same_pin, update-PinsDistinct, create-AdminsDistinct,
  create_shares_pin,
}
use damaru_server.Tests.{in_memory, environment, database, root, guest, root_token, guest_token}

abbrev pub new_pin : UpdateAccountDto
new_pin = record { account_name = none; pin = some "33333" }

abbrev new_fields : UpdateFields
new_fields = record {
  account_name = none;
  pin = some "33333";
  first_login = some false;
  updated_at = some 1000;
}

abbrev pub plain_dto : CreateAccountDto
plain_dto = record { account_name = "new"; user_id = "u1"; pin = none; is_admin = none }

abbrev updated : Db
updated = (update in_memory environment "a2" new_pin root_token database).1

abbrev created : Db
created = (create in_memory environment "44444" plain_dto database).1

update_run :
    update in_memory environment "a2" new_pin root_token database ≡ (ok new_fields, updated)
unfolding update find_user_by_account update_found pin_fields may_update update_account write_fields
    in_memory memory lookup
update_run = refl

create_run :
    create in_memory environment "44444" plain_dto database
    ≡ (ok (created_account plain_dto "44444" "new"), created)
unfolding create insert_new insert_account new_account valid_account in_memory memory lookup
create_run = refl

update-IsUpdated_example :
    IsUpdated in_memory environment "a2" root_token new_fields database updated
update-IsUpdated_example =
    update-IsUpdated in_memory environment "a2" new_pin root_token new_fields database updated
      update_run

plain_account_refused_example :
    (can_activate android_users http (some guest_token) ≡ ok true)
    × (update in_memory environment "a2" new_pin guest_token database
        ≡ (err (unauthorized "You cannot update an account you do not own"), database))
unfolding lookup
plain_account_refused_example =
    plain_account_refused in_memory environment "a2" new_pin guest_token database guest refl refl
      refl

two_accounts :
    (k : String) (a : Account)
    → account_at database k ≡ some a
    → ((k ≡ "a1") × (a ≡ root)) ⊎ ((k ≡ "a2") × (a ≡ guest))
unfolding lookup
two_accounts k a at = elim (Bool-cases ("a1" == k)) [
  | inl hit ↦ inl (sym (true_eq hit), ground arith)
  | inr miss ↦ elim (Bool-cases ("a2" == k)) [
    | inl hit ↦ inr (sym (true_eq hit), ground arith)
    | inr other ↦ absurd (ground arith)
  ]
]

distinct_pins : root.pin ≢ guest.pin
distinct_pins e = cc (eq_true e)

same_place :
    {j k : String} {a b : Account}
    → ((j ≡ "a1") × (a ≡ root)) ⊎ ((j ≡ "a2") × (a ≡ guest))
    → ((k ≡ "a1") × (b ≡ root)) ⊎ ((k ≡ "a2") × (b ≡ guest))
    → a.pin ≡ b.pin
    → j ≡ k
same_place (inl (p, e)) (inl (q, f)) pin = cc
same_place (inl (p, e)) (inr (q, f)) pin = absurd (distinct_pins cc)
same_place (inr (p, e)) (inl (q, f)) pin = absurd (distinct_pins cc)
same_place (inr (p, e)) (inr (q, f)) pin = cc

database-PinsDistinct : PinsDistinct database
database-PinsDistinct j k a b at_j at_k owner pin =
    same_place (two_accounts j a at_j) (two_accounts k b at_k) pin

database-AdminsDistinct : AdminsDistinct database
database-AdminsDistinct j k a b at_j at_k admin_a admin_b owner =
    ground (arith, two_accounts j a at_j, two_accounts k b at_k)

update-PinsDistinct_example : PinsDistinct updated
update-PinsDistinct_example =
    update-PinsDistinct in_memory environment "a2" new_pin root_token new_fields database updated
      database-PinsDistinct update_run

create-AdminsDistinct_example : AdminsDistinct created
create-AdminsDistinct_example =
    create-AdminsDistinct in_memory environment "44444" plain_dto
      (created_account plain_dto "44444" "new") database created database-AdminsDistinct create_run

create_shares_pin_example :
    (made : CreatedAccount) × (t : Db) × (create in_memory environment "44444"
        (same_pin "twin" guest)
        database
      ≡ (ok made, t))
    × (¬ PinsDistinct t)
unfolding new_account valid_account in_memory memory lookup
create_shares_pin_example =
    create_shares_pin in_memory environment "44444" "twin" guest "new"
      (new_account environment (same_pin "twin" guest) "22222" "new" ∷ root ∷ guest ∷ []) database
      refl refl
