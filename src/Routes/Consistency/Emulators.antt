-- ===== src/Routes/Consistency/Emulators.antt =====
-- The methods of the emulator service that keep the links.
use Prim.Native.String.{◌++◌}
use damaru_server.Prelude.{
  String, ◌≡◌, refl, Bool, true, false, ◌&&◌, Option, none, some, List, arith, Option-cases,
  Bool-cases, inl, inr,
}
use damaru_server.Prelude.Exec.{Exec, continue, when_some, for_of}
use damaru_server.Token.{JwtToken}
use damaru_server.Environment.{Environment, add, default_screen_shot}
use damaru_server.Database.{Emulator, UserEmulator, is_active, Db}
use damaru_server.Database.Repositories.{Repositories}
use damaru_server.Database.Statements.{
  insert_emulator, update_emulator, delete_emulator, upsert_assignment, delete_assignments,
}
use damaru_server.Emulators.Links.{ExtendExpiryDto, links, links_now, extend, is_device}
use damaru_server.Emulators.Links.Kept.{
  KeepsLinks, KeepsLinks-refl, continue-KeepsLinks, for_each-KeepsLinks, logged-KeepsLinks,
}
use damaru_server.Emulators.Links.Kept.Tables.{upsert_assignment-KeepsLinks}
use damaru_server.Emulators.Links.Kept.Statements.{
  insert_emulator-KeepsLinks, update_emulator-KeepsLinks, delete_emulator-KeepsLinks,
  update_link-KeepsLinks, delete_assignments-KeepsLinks,
}
use damaru_server.Emulators.Assignments.{
  MultiAccountsLinkDto, MultiDevicesAccountLinkDto, assigns, activate, new_assignment, find_link,
  assign, unassign, unassign_active, assign_device, unassign_device, assign_emulator,
  assign_emulators_to_account, unassign_emulators_to_account, unassign_emulator_from_accounts,
  check_super_admin_or_self,
}
use damaru_server.Emulators.Devices.{
  EmulatorDto, EmulatorPatch, new_emulator, write_patch, find_one, create, write, owned, must_own,
  update, remove, link_screenshot,
}

abbrev put_screenshot : Environment → String → Emulator → Emulator
put_screenshot env device e = record e {
  screenshot = some (default_screen_shot env.screenshot_url (some (device ++ ".png")));
}

module _ (R : Repositories) (db : Db) where
  pub create-KeepsLinks : (dto : EmulatorDto) → KeepsLinks db (create R dto db).1
  unfolding create
  create-KeepsLinks dto = elim (Option-cases (find_one R dto.device_id db)) [
    | inr (e, found) ↦ rw found (KeepsLinks-refl db)
    | inl missing ↦ rw missing (
        continue-KeepsLinks db (insert_emulator R (new_emulator dto) db) _
          (insert_emulator-KeepsLinks R db (new_emulator dto)) (λ _ s. KeepsLinks-refl s))
  ]

  write-KeepsLinks :
      (id : String) (patch : EmulatorPatch)
      → patch.device_id ≡ none
      → patch.state ≡ none
      → KeepsLinks db (write R id patch db).1
  unfolding write write_patch
  write-KeepsLinks id patch keyed stated =
      continue-KeepsLinks db (update_emulator R id (write_patch patch) db) _
        (update_emulator-KeepsLinks R db id (write_patch patch) (λ r. ground (arith, keyed))
          (λ r. ground (arith, stated)))
        (λ _ s. KeepsLinks-refl s)

  owned-KeepsLinks :
      (b : Bool) (o : Option UserEmulator) (m : Exec Db String)
      → KeepsLinks db (m db).1
      → KeepsLinks db (owned R b o m db).1
  unfolding owned
  owned-KeepsLinks true none m h = KeepsLinks-refl db
  owned-KeepsLinks true (some u) m h = h
  owned-KeepsLinks false o m h = h

  -- An update that leaves the primary key and the state alone.
  pub update-KeepsLinks :
      (id : String) (patch : EmulatorPatch) (user : Option JwtToken)
      → patch.device_id ≡ none
      → patch.state ≡ none
      → KeepsLinks db (update R id patch user db).1
  unfolding update
  update-KeepsLinks id patch none keyed stated = write-KeepsLinks id patch keyed stated
  update-KeepsLinks id patch (some token) keyed stated =
      owned-KeepsLinks (must_own token) (R.user_emulator.find_one (links_now token.sub id) db)
        (write R id patch) (write-KeepsLinks id patch keyed stated)

  pub remove-KeepsLinks : (id : String) → KeepsLinks db (remove R id db).1
  unfolding remove
  remove-KeepsLinks id =
      continue-KeepsLinks db (delete_emulator R id db) _ (delete_emulator-KeepsLinks R db id)
        (λ _ s. KeepsLinks-refl s)

  pub link_screenshot-KeepsLinks :
      (env : Environment) (device : String) → KeepsLinks db (link_screenshot R env device db).1
  unfolding link_screenshot find_one
  link_screenshot-KeepsLinks env device =
      elim (Option-cases (R.emulator.find_one (is_device device) db)) [
        | inl missing ↦ rw missing (KeepsLinks-refl db)
        | inr (e, found) ↦ rw found (
            continue-KeepsLinks db (update_emulator R e.device_id (put_screenshot env device) db) _
              (update_emulator-KeepsLinks R db e.device_id (put_screenshot env device) (λ r. refl)
                (λ r. refl))
              (λ _ s. KeepsLinks-refl s))
      ]

  pub extend-KeepsLinks :
      (env : Environment) (dto : ExtendExpiryDto) → KeepsLinks db (extend R env dto db).1
  unfolding extend
  extend-KeepsLinks env dto =
      elim (Option-cases (R.user_emulator.find_one (links dto.user_id dto.device_id) db)) [
        | inl missing ↦ rw missing (KeepsLinks-refl db)
        | inr (u, found) ↦ rw found (
            continue-KeepsLinks db _ _
              (update_link-KeepsLinks R db u.id
                (λ v. record v { expires_at = add env dto.days "days" (some u.expires_at) })
                (λ r. refl) (λ r. refl) (λ r. refl))
              (λ _ s. KeepsLinks-refl s))
      ]

  assign-KeepsLinks :
      (account : String) (u : UserEmulator) → KeepsLinks db (assign R account u db).1
  unfolding assign
  assign-KeepsLinks account u =
      logged-KeepsLinks db
        (upsert_assignment R (assigns account u.id) activate (new_assignment account u.id) db)
        (upsert_assignment-KeepsLinks R db (assigns account u.id) activate
          (new_assignment account u.id))

  unassign-KeepsLinks :
      (account : String) (u : UserEmulator) → KeepsLinks db (unassign R account u db).1
  unfolding unassign
  unassign-KeepsLinks account u =
      logged-KeepsLinks db (delete_assignments R (assigns account u.id) db)
        (delete_assignments-KeepsLinks R db (assigns account u.id))

  unassign_active-KeepsLinks :
      (u : UserEmulator) (account : String) → KeepsLinks db (unassign_active R u account db).1
  unfolding unassign_active
  unassign_active-KeepsLinks u account =
      logged-KeepsLinks db
        (delete_assignments R (λ a. assigns account u.id a && is_active a.status) db)
        (delete_assignments-KeepsLinks R db (λ a. assigns account u.id a && is_active a.status))

  some-KeepsLinks :
      (o : Option UserEmulator) (f : UserEmulator → Exec Db (Unit {0}))
      → ((u : UserEmulator) → KeepsLinks db (f u db).1)
      → KeepsLinks db (when_some o f db).1
  some-KeepsLinks none f k = KeepsLinks-refl db
  some-KeepsLinks (some u) f k = k u

  -- A step on the link of a user and a device, if there is one
  found-KeepsLinks :
      (user device : String) (f : UserEmulator → Exec Db (Unit {0}))
      → ((u : UserEmulator) → KeepsLinks db (f u db).1)
      → KeepsLinks db (continue (find_link R user device db) (λ o. when_some o f)).1
  unfolding find_link
  found-KeepsLinks user device f k = elim (Bool-cases (R.accepts user)) [
    | inr refused ↦ rw refused (KeepsLinks-refl db)
    | inl taken ↦ rw taken (some-KeepsLinks (R.user_emulator.find_one (links user device) db) f k)
  ]

  assign_device-KeepsLinks :
      (user account device : String) → KeepsLinks db (assign_device R user account device db).1
  unfolding assign_device
  assign_device-KeepsLinks user account device =
      found-KeepsLinks user device (assign R account) (assign-KeepsLinks account)

  unassign_device-KeepsLinks :
      (user account device : String) → KeepsLinks db (unassign_device R user account device db).1
  unfolding unassign_device
  unassign_device-KeepsLinks user account device =
      found-KeepsLinks user device (unassign R account) (unassign-KeepsLinks account)

for_of-KeepsLinks :
    {A : Type 0} (f : A → Exec Db (Unit {0}))
    → ((x : A) (s : Db) → KeepsLinks s (f x s).1)
    → (xs : Option (List A)) (db : Db) → KeepsLinks db (for_of f xs db).1
for_of-KeepsLinks f keep none db = KeepsLinks-refl db
for_of-KeepsLinks f keep (some xs) db = for_each-KeepsLinks f keep xs db

module _ (R : Repositories) (db : Db) where
  pub assign_emulator-KeepsLinks :
      (dto : MultiAccountsLinkDto) (token : JwtToken)
      → KeepsLinks db (assign_emulator R dto token db).1
  unfolding assign_emulator
  assign_emulator-KeepsLinks dto token =
      elim (Bool-cases (check_super_admin_or_self dto.user_id token)) [
        | inr refused ↦ rw refused (KeepsLinks-refl db)
        | inl allowed ↦ rw allowed (
            found-KeepsLinks R db dto.user_id dto.device_id _ (λ u.
              for_of-KeepsLinks (λ account. assign R account u)
                (λ account s. assign-KeepsLinks R s account u) dto.account_ids db))
      ]

  pub unassign_emulator_from_accounts-KeepsLinks :
      (dto : MultiAccountsLinkDto) → KeepsLinks db (unassign_emulator_from_accounts R dto db).1
  unfolding unassign_emulator_from_accounts
  unassign_emulator_from_accounts-KeepsLinks dto =
      found-KeepsLinks R db dto.user_id dto.device_id _ (λ u.
        for_of-KeepsLinks (unassign_active R u)
          (λ account s. unassign_active-KeepsLinks R s u account) dto.account_ids db)

  pub assign_emulators_to_account-KeepsLinks :
      (dto : MultiDevicesAccountLinkDto) (token : JwtToken)
      → KeepsLinks db (assign_emulators_to_account R dto token db).1
  unfolding assign_emulators_to_account
  assign_emulators_to_account-KeepsLinks dto token =
      elim (Bool-cases (check_super_admin_or_self dto.user_id token)) [
        | inr refused ↦ rw refused (KeepsLinks-refl db)
        | inl allowed ↦ rw allowed (
            for_of-KeepsLinks (assign_device R dto.user_id dto.account_id)
              (λ device s. assign_device-KeepsLinks R s dto.user_id dto.account_id device)
              dto.device_ids db)
      ]

  pub unassign_emulators_to_account-KeepsLinks :
      (dto : MultiDevicesAccountLinkDto) (token : JwtToken)
      → KeepsLinks db (unassign_emulators_to_account R dto token db).1
  unfolding unassign_emulators_to_account
  unassign_emulators_to_account-KeepsLinks dto token =
      elim (Bool-cases (check_super_admin_or_self dto.user_id token)) [
        | inr refused ↦ rw refused (KeepsLinks-refl db)
        | inl allowed ↦ rw allowed (
            for_of-KeepsLinks (unassign_device R dto.user_id dto.account_id)
              (λ device s. unassign_device-KeepsLinks R s dto.user_id dto.account_id device)
              dto.device_ids db)
      ]
