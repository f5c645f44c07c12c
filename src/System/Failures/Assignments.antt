-- ===== src/System/Failures/Assignments.antt =====
-- The requests on many devices or accounts (modules/emulators/services/emulator.service.ts) throw no
-- TypeError.
use damaru_server.Prelude.{
  String, ◌≢◌, refl, Bool, true, false, Option, none, some, List, Bool-cases, inl, inr,
}
use damaru_server.Prelude.Exec.{Exec, continue, when, when_some, for_of}
use damaru_server.Token.{JwtToken}
use damaru_server.Database.{UserEmulator, Db}
use damaru_server.Database.Repositories.{Repositories}
use damaru_server.Emulators.Links.{links}
use damaru_server.Emulators.Assignments.{
  MultiAccountsLinkDto, MultiDevicesAccountLinkDto, check_super_admin_or_self, find_link, assign,
  unassign, unassign_active, assign_device, unassign_device, assign_emulator,
  assign_emulators_to_account, unassign_emulators_to_account, unassign_emulator_from_accounts,
}
use damaru_server.System.Failures.{IsTyped, for_each-IsTyped}

when-IsTyped :
    (b : Bool) (m : Exec Db (Unit {0})) (db : Db) → IsTyped (m db) → IsTyped (when b m db)
when-IsTyped true m db h = h
when-IsTyped false m db h = λ q. cc

some-IsTyped :
    (o : Option UserEmulator) (f : UserEmulator → Exec Db (Unit {0})) (db : Db)
    → ((u : UserEmulator) → IsTyped (f u db))
    → IsTyped (when_some o f db)
some-IsTyped none f db h = λ q. cc
some-IsTyped (some u) f db h = h u

for_of-IsTyped :
    (f : String → Exec Db (Unit {0})) (xs : Option (List String)) (db : Db)
    → xs ≢ none
    → ((x : String) (s : Db) → IsTyped (f x s))
    → IsTyped (for_of f xs db)
for_of-IsTyped f none db there h = absurd (there refl)
for_of-IsTyped f (some xs) db there h =
    for_each-IsTyped (λ _. Unit) f (λ x s _. h x s) (λ x s _. tt) xs db tt

module _ (R : Repositories) where
  found-IsTyped :
      (user device : String) (f : UserEmulator → Exec Db (Unit {0})) (db : Db)
      → ((u : UserEmulator) → IsTyped (f u db))
      → IsTyped (continue (find_link R user device db) (λ o. when_some o f))
  unfolding find_link
  found-IsTyped user device f db h = elim (Bool-cases (R.accepts user)) [
    | inr refused ↦ rw refused (λ q. cc)
    | inl taken ↦ rw taken (some-IsTyped (R.user_emulator.find_one (links user device) db) f db h)
  ]

  assign_device-IsTyped :
      (user account device : String) (db : Db) → IsTyped (assign_device R user account device db)
  unfolding assign_device assign
  assign_device-IsTyped user account device db =
      found-IsTyped user device (assign R account) db (λ u q. cc)

  unassign_device-IsTyped :
      (user account device : String) (db : Db) → IsTyped (unassign_device R user account device db)
  unfolding unassign_device unassign
  unassign_device-IsTyped user account device db =
      found-IsTyped user device (unassign R account) db (λ u q. cc)

  pub assign-IsTyped :
      (dto : MultiAccountsLinkDto) (token : JwtToken) (db : Db)
      → dto.account_ids ≢ none
      → IsTyped (assign_emulator R dto token db)
  unfolding assign_emulator assign
  assign-IsTyped dto token db there =
      when-IsTyped (check_super_admin_or_self dto.user_id token) _ db (
        found-IsTyped dto.user_id dto.device_id _ db
          (λ u. for_of-IsTyped _ dto.account_ids db there (λ account s q. cc)))

  pub unassign-IsTyped :
      (dto : MultiAccountsLinkDto) (db : Db)
      → dto.account_ids ≢ none
      → IsTyped (unassign_emulator_from_accounts R dto db)
  unfolding unassign_emulator_from_accounts unassign_active
  unassign-IsTyped dto db there =
      found-IsTyped dto.user_id dto.device_id _ db
        (λ u. for_of-IsTyped _ dto.account_ids db there (λ account s q. cc))

  pub assign_account-IsTyped :
      (dto : MultiDevicesAccountLinkDto) (token : JwtToken) (db : Db)
      → dto.device_ids ≢ none
      → IsTyped (assign_emulators_to_account R dto token db)
  unfolding assign_emulators_to_account
  assign_account-IsTyped dto token db there =
      when-IsTyped (check_super_admin_or_self dto.user_id token) _ db (
        for_of-IsTyped _ dto.device_ids db there (assign_device-IsTyped dto.user_id dto.account_id))

  pub unassign_account-IsTyped :
      (dto : MultiDevicesAccountLinkDto) (token : JwtToken) (db : Db)
      → dto.device_ids ≢ none
      → IsTyped (unassign_emulators_to_account R dto token db)
  unfolding unassign_emulators_to_account
  unassign_account-IsTyped dto token db there =
      when-IsTyped (check_super_admin_or_self dto.user_id token) _ db (
        for_of-IsTyped _ dto.device_ids db there
          (unassign_device-IsTyped dto.user_id dto.account_id))
