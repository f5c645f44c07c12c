-- ===== src/Emulators/Owned.antt =====
-- The methods of the emulator service that a token other than a super admin's can reach
-- (src/modules/emulators/services/emulator.service.ts) and the accounts.
use damaru_server.Prelude.{
  String, ◌≡◌, ap, ◌∙◌, Bool, true, false, Option, none, some, List, ◌==◌, ◌&&◌, arith,
  Option-cases, Bool-cases, inl, inr,
}
use damaru_server.Prelude.Exec.{
  continue, Exec, Result, err, query_failed, continue-keeps, for_of-keeps, when, when_some,
}
use damaru_server.Token.{JwtToken}
use damaru_server.Environment.{Environment}
use damaru_server.Database.{Emulator, AccountEmulator, UserEmulator, Account, Db, is_active}
use damaru_server.Database.Repositories.{Repositories}
use damaru_server.Database.Statements.{
  saved_all, insert_emulator, update_emulator, upsert_assignment, delete_assignments,
  delete_emulator, prune_connections, prune_links,
}
use damaru_server.Database.Accounts.{
  prune_connections-accounts, prune_links-accounts, saved_all-accounts,
}
use damaru_server.Emulators.Assignments.{
  MultiAccountsLinkDto, MultiDevicesAccountLinkDto, assigns, activate, new_assignment, assign,
  unassign, unassign_active, find_link, assign_device, unassign_device, assign_emulator,
  assign_emulators_to_account, unassign_emulators_to_account, unassign_emulator_from_accounts,
  check_super_admin_or_self,
}
use damaru_server.Emulators.Links.{links, links_now}
use damaru_server.Emulators.Devices.{
  EmulatorDto, EmulatorPatch, create, write, owned, must_own, update, remove, link_screenshot,
  find_one, new_emulator, write_patch,
}

-- The table of the accounts is `l`.
abbrev Has : List Account → Db → Type 0
Has l t = t.accounts ≡ l

when-Has :
    (l : List Account) (b : Bool) (m : Exec Db (Unit {0})) (db : Db)
    → Has l db
    → Has l (m db).1
    → Has l (when b m db).1
when-Has l true m db h k = k
when-Has l false m db h k = h

when_some-Has :
    {A : Type 0} (l : List Account) (o : Option A) (f : A → Exec Db (Unit {0})) (db : Db)
    → Has l db
    → ((a : A) → Has l (f a db).1)
    → Has l (when_some o f db).1
when_some-Has l none f db h k = h
when_some-Has l (some a) f db h k = k a

module _ (R : Repositories) (l : List Account) where
  insert_emulator-Has : (e : Emulator) (db : Db) → Has l db → Has l (insert_emulator R e db).1
  unfolding insert_emulator
  insert_emulator-Has e db h = elim (Option-cases (R.emulator.insert (λ _. e) db)) [
    | inl refused ↦ rw refused h
    | inr ((id, rows), q) ↦ rw q h
  ]

  update_emulator-Has :
      (id : String) (f : Emulator → Emulator) (db : Db)
      → Has l db
      → Has l (update_emulator R id f db).1
  unfolding update_emulator
  update_emulator-Has id f db h = elim (Option-cases (R.emulator.update id f db)) [
    | inl refused ↦ rw refused h
    | inr ((n, rows), q) ↦ rw q h
  ]

  delete_assignments-Has :
      (p : AccountEmulator → Bool) (db : Db) → Has l db → Has l (delete_assignments R p db).1
  unfolding delete_assignments
  delete_assignments-Has p db h = elim (Option-cases (R.account_emulator.delete p db)) [
    | inl refused ↦
        let same : delete_assignments R p db ≡ (err query_failed, db) = ground arith in
        ap (λ (x : Result (Unit {0}) × Db). x.1.accounts) same ∙ h
    | inr (rows, q) ↦
        let rest : Db = record db { account_emulators = rows } in
        let same : delete_assignments R p db ≡ saved_all (prune_connections R rest) db =
          ground arith in
        ap (λ (x : Result (Unit {0}) × Db). x.1.accounts) same
        ∙ saved_all-accounts (prune_connections R rest) db (prune_connections-accounts R rest)
        ∙ h
  ]

  delete_emulator-Has : (id : String) (db : Db) → Has l db → Has l (delete_emulator R id db).1
  unfolding delete_emulator
  delete_emulator-Has id db h =
      elim (Option-cases (R.emulator.delete (λ e. e.device_id == id) db)) [
        | inl refused ↦
            let same : delete_emulator R id db ≡ (err query_failed, db) = ground arith in
            ap (λ (x : Result (Unit {0}) × Db). x.1.accounts) same ∙ h
        | inr (rows, q) ↦
            let rest : Db = record db { emulators = rows } in
            let same : delete_emulator R id db ≡ saved_all (prune_links R rest) db = ground arith in
            ap (λ (x : Result (Unit {0}) × Db). x.1.accounts) same
            ∙ saved_all-accounts (prune_links R rest) db (prune_links-accounts R rest)
            ∙ h
      ]

  assign-Has :
      (account : String) (u : UserEmulator) (db : Db) → Has l db → Has l (assign R account u db).1
  unfolding assign upsert_assignment
  assign-Has account u db h =
      elim (Option-cases (
        R.account_emulator.upsert (assigns account u.id) activate (new_assignment account u.id)
          db)) [ inl refused ↦ rw refused h | inr (rows, q) ↦ rw q h ]

  unassign-Has :
      (account : String) (u : UserEmulator) (db : Db) → Has l db → Has l (unassign R account u db).1
  unfolding unassign
  unassign-Has account u db h = delete_assignments-Has (assigns account u.id) db h

  unassign_active-Has :
      (u : UserEmulator) (account : String) (db : Db)
      → Has l db
      → Has l (unassign_active R u account db).1
  unfolding unassign_active
  unassign_active-Has u account db h =
      delete_assignments-Has (λ a. assigns account u.id a && is_active a.status) db h

  -- A step on the link of a user and a device, if there is one
  found-Has :
      (user device : String) (f : UserEmulator → Exec Db (Unit {0})) (db : Db)
      → Has l db
      → ((u : UserEmulator) → Has l (f u db).1)
      → Has l (continue (find_link R user device db) (λ o. when_some o f)).1
  unfolding find_link
  found-Has user device f db h k = elim (Bool-cases (R.accepts user)) [
    | inr refused ↦ rw refused h
    | inl taken ↦
        rw taken (when_some-Has l (R.user_emulator.find_one (links user device) db) f db h k)
  ]

  pub assign_emulator-Has :
      (dto : MultiAccountsLinkDto) (token : JwtToken) (db : Db)
      → Has l db
      → Has l (assign_emulator R dto token db).1
  unfolding assign_emulator
  assign_emulator-Has dto token db h =
      when-Has l (check_super_admin_or_self dto.user_id token) _ db h (
        found-Has dto.user_id dto.device_id _ db h (λ u.
          for_of-keeps (Has l) (λ account. assign R account u) (λ account. assign-Has account u)
            dto.account_ids db h))

  pub unassign_from_accounts-Has :
      (dto : MultiAccountsLinkDto) (db : Db)
      → Has l db
      → Has l (unassign_emulator_from_accounts R dto db).1
  unfolding unassign_emulator_from_accounts
  unassign_from_accounts-Has dto db h =
      found-Has dto.user_id dto.device_id _ db h (λ u.
        for_of-keeps (Has l) (unassign_active R u) (unassign_active-Has u) dto.account_ids db h)

  assign_device-Has :
      (user account device : String) (db : Db)
      → Has l db
      → Has l (assign_device R user account device db).1
  unfolding assign_device
  assign_device-Has user account device db h =
      found-Has user device (assign R account) db h (λ u. assign-Has account u db h)

  unassign_device-Has :
      (user account device : String) (db : Db)
      → Has l db
      → Has l (unassign_device R user account device db).1
  unfolding unassign_device
  unassign_device-Has user account device db h =
      found-Has user device (unassign R account) db h (λ u. unassign-Has account u db h)

  pub assign_to_account-Has :
      (dto : MultiDevicesAccountLinkDto) (token : JwtToken) (db : Db)
      → Has l db
      → Has l (assign_emulators_to_account R dto token db).1
  unfolding assign_emulators_to_account
  assign_to_account-Has dto token db h =
      when-Has l (check_super_admin_or_self dto.user_id token) _ db h (
        for_of-keeps (Has l) (assign_device R dto.user_id dto.account_id)
          (assign_device-Has dto.user_id dto.account_id) dto.device_ids db h)

  pub unassign_to_account-Has :
      (dto : MultiDevicesAccountLinkDto) (token : JwtToken) (db : Db)
      → Has l db
      → Has l (unassign_emulators_to_account R dto token db).1
  unfolding unassign_emulators_to_account
  unassign_to_account-Has dto token db h =
      when-Has l (check_super_admin_or_self dto.user_id token) _ db h (
        for_of-keeps (Has l) (unassign_device R dto.user_id dto.account_id)
          (unassign_device-Has dto.user_id dto.account_id) dto.device_ids db h)

  pub create-Has : (dto : EmulatorDto) (db : Db) → Has l db → Has l (create R dto db).1
  unfolding create
  create-Has dto db h = elim (Option-cases (find_one R dto.device_id db)) [
    | inr (e, found) ↦ rw found h
    | inl missing ↦ rw missing (
        continue-keeps (Has l) (insert_emulator R (new_emulator dto) db) _
          (insert_emulator-Has (new_emulator dto) db h) (λ _ s k. k))
  ]

  write-Has :
      (id : String) (patch : EmulatorPatch) (db : Db) → Has l db → Has l (write R id patch db).1
  unfolding write
  write-Has id patch db h =
      continue-keeps (Has l) (update_emulator R id (write_patch patch) db) _
        (update_emulator-Has id (write_patch patch) db h) (λ _ s k. k)

  owned-Has :
      (b : Bool) (o : Option UserEmulator) (m : Exec Db String) (db : Db)
      → Has l db
      → Has l (m db).1
      → Has l (owned R b o m db).1
  unfolding owned
  owned-Has true none m db h k = h
  owned-Has true (some u) m db h k = k
  owned-Has false o m db h k = k

  pub update-Has :
      (id : String) (patch : EmulatorPatch) (token : JwtToken) (db : Db)
      → Has l db
      → Has l (update R id patch (some token) db).1
  unfolding update
  update-Has id patch token db h =
      owned-Has (must_own token) (R.user_emulator.find_one (links_now token.sub id) db)
        (write R id patch) db h (write-Has id patch db h)

  pub remove-Has : (id : String) (db : Db) → Has l db → Has l (remove R id db).1
  unfolding remove
  remove-Has id db h =
      continue-keeps (Has l) (delete_emulator R id db) _ (delete_emulator-Has id db h) (λ _ s k. k)

  pub link_screenshot-Has :
      (env : Environment) (device : String) (db : Db)
      → Has l db
      → Has l (link_screenshot R env device db).1
  unfolding link_screenshot
  link_screenshot-Has env device db h = elim (Option-cases (find_one R device db)) [
    | inl missing ↦ rw missing h
    | inr (e, found) ↦ rw found (
        continue-keeps (Has l) (update_emulator R e.device_id _ db) _
          (update_emulator-Has e.device_id _ db h) (λ _ s k. k))
  ]
