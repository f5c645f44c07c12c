-- ===== src/Emulators/Assignments/Laws.antt =====
-- What assigning and unassigning devices answers, and to whom it is forbidden.
use damaru_server.Prelude.{
  String, ◌≡◌, ◌≢◌, refl, Bool, false, true, Option, none, some, List, ◌==◌, arith, eq_iff,
}
use damaru_server.Prelude.Exec.{
  Exec, Result, ok, continue, when, when_some, for_of, for_each-returns,
}
use damaru_server.Token.{JwtToken, super_admin, role_name, has_role}
use damaru_server.Database.{UserEmulator, Db}
use damaru_server.Database.Repositories.{Repositories}
use damaru_server.Emulators.Links.{links}
use damaru_server.Emulators.Assignments.{
  MultiAccountsLinkDto, MultiDevicesAccountLinkDto, check_super_admin_or_self, find_link, assign,
  unassign, unassign_active, assign_device, unassign_device, assign_emulators_to_account,
  unassign_emulators_to_account, unassign_emulator_from_accounts, assign_emulator,
}

-- The run returns.
abbrev Returns : Result (Unit {0}) × Db → Type 0
Returns r = r.0 ≡ ok tt

when-Returns :
    (b : Bool) (m : Exec Db (Unit {0})) (db : Db) → Returns (m db) → Returns (when b m db)
when-Returns true m db h = h
when-Returns false m db h = refl

some-Returns :
    (o : Option UserEmulator) (f : UserEmulator → Exec Db (Unit {0})) (db : Db)
    → ((u : UserEmulator) → Returns (f u db))
    → Returns (when_some o f db)
some-Returns none f db h = refl
some-Returns (some u) f db h = h u

for_of-Returns :
    (f : String → Exec Db (Unit {0})) (xs : Option (List String)) (db : Db)
    → xs ≢ none
    → ((x : String) (s : Db) → Returns (f x s))
    → Returns (for_of f xs db)
for_of-Returns f none db there h = absurd (there refl)
for_of-Returns f (some xs) db there h = for_each-returns f h xs db

module _ (R : Repositories) where
  found-Returns :
      (user device : String) (f : UserEmulator → Exec Db (Unit {0})) (db : Db)
      → R.accepts user ≡ true
      → ((u : UserEmulator) → Returns (f u db))
      → Returns (continue (find_link R user device db) (λ o. when_some o f))
  unfolding find_link
  found-Returns user device f db taken h =
      rw taken (some-Returns (R.user_emulator.find_one (links user device) db) f db h)

  assign_device-Returns :
      (user account device : String) (db : Db)
      → R.accepts user ≡ true
      → Returns (assign_device R user account device db)
  unfolding assign_device assign
  assign_device-Returns user account device db taken =
      found-Returns user device (assign R account) db taken (λ u. refl)

  unassign_device-Returns :
      (user account device : String) (db : Db)
      → R.accepts user ≡ true
      → Returns (unassign_device R user account device db)
  unfolding unassign_device unassign
  unassign_device-Returns user account device db taken =
      found-Returns user device (unassign R account) db taken (λ u. refl)

  -- The requests on many devices or accounts return, if the body has its list and the database takes
  -- the user's key, so that it answers the queries for the links: a missing link, a token with no
  -- permission, and an upsert or a deletion that the database refuses, all count as success.
  pub assignments_return :
      (many : MultiAccountsLinkDto) (dto : MultiDevicesAccountLinkDto) (token : JwtToken) (db : Db)
      → many.account_ids ≢ none
      → dto.device_ids ≢ none
      → R.accepts many.user_id ≡ true
      → R.accepts dto.user_id ≡ true
      → ((assign_emulator R many token db).0 ≡ ok tt)
        × ((unassign_emulator_from_accounts R many db).0 ≡ ok tt)
        × ((assign_emulators_to_account R dto token db).0 ≡ ok tt)
        × ((unassign_emulators_to_account R dto token db).0 ≡ ok tt)
  unfolding assign_emulator unassign_emulator_from_accounts assign_emulators_to_account
      unassign_emulators_to_account assign unassign_active
  assignments_return many dto token db accounts devices many_taken taken = (
    when-Returns (check_super_admin_or_self many.user_id token) _ db (
        found-Returns many.user_id many.device_id _ db many_taken
          (λ u. for_of-Returns _ many.account_ids db accounts (λ account s. refl))),
    found-Returns many.user_id many.device_id _ db many_taken
        (λ u. for_of-Returns _ many.account_ids db accounts (λ account s. refl)),
    when-Returns (check_super_admin_or_self dto.user_id token) _ db (
        for_of-Returns _ dto.device_ids db devices
          (λ device s. assign_device-Returns dto.user_id dto.account_id device s taken)),
    when-Returns (check_super_admin_or_self dto.user_id token) _ db (
        for_of-Returns _ dto.device_ids db devices
          (λ device s. unassign_device-Returns dto.user_id dto.account_id device s taken)),
  )

  -- With a token that is neither a super admin's nor that of the user whom the request names,
  -- `assignEmulator`, `assignEmulatorsToAccount` and `unassignEmulatorsToAccount` return and change
  -- nothing.
  pub assignments_forbidden :
      (many : MultiAccountsLinkDto) (dto : MultiDevicesAccountLinkDto) (token : JwtToken) (db : Db)
      → token.role ≢ role_name super_admin
      → many.user_id ≢ token.sub
      → dto.user_id ≢ token.sub
      → (assign_emulator R many token db ≡ (ok tt, db))
        × (assign_emulators_to_account R dto token db ≡ (ok tt, db))
        × (unassign_emulators_to_account R dto token db ≡ (ok tt, db))
  unfolding assign_emulator assign_emulators_to_account unassign_emulators_to_account
      check_super_admin_or_self
  assignments_forbidden many dto token db role many_user user =
      let r : has_role token super_admin ≡ false =
        ground (arith, eq_iff token.role (role_name super_admin)) in
      let m : (many.user_id == token.sub) ≡ false = ground (arith, eq_iff many.user_id token.sub) in
      let d : (dto.user_id == token.sub) ≡ false = ground (arith, eq_iff dto.user_id token.sub) in
      (rw (r, m), rw (r, d), rw (r, d))
