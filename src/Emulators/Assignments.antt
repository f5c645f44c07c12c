-- ===== src/Emulators/Assignments.antt =====
-- src/modules/emulators/services/emulator.service.ts: which accounts of a user may use a device.
pub mod Laws
use damaru_server.Prelude.{String, Bool, ◌&&◌, ◌||◌, Option, List, ◌==◌, if◌then◌else◌}
use damaru_server.Prelude.Exec.{
  Exec, ok, err, query_failed, when, when_some, try_log, for_of, ◌>>=◌,
}
use damaru_server.Token.{JwtToken, has_role, super_admin}
use damaru_server.Database.{AccountEmulator, UserEmulator, active, is_active, Db}
use damaru_server.Database.Repositories.{Repositories}
use damaru_server.Database.Statements.{upsert_assignment, delete_assignments}
use damaru_server.Emulators.Links.{links}

-- A list may be absent from the body of a request, which no pipe checks.
pub record MultiAccountsLinkDto : Type 0 where
  pub device_id : String
  pub account_ids : Option (List String)
  pub user_id : String

pub record MultiDevicesAccountLinkDto : Type 0 where
  pub device_ids : Option (List String)
  pub user_id : String
  pub account_id : String

-- `checkSuperAdminOrSelf`
pub check_super_admin_or_self : String → JwtToken → Bool
check_super_admin_or_self user token = has_role token super_admin || user == token.sub

-- The row of an account and a link.
abbrev pub assigns : String → String → AccountEmulator → Bool
assigns account link a = a.account == account && a.user_emulator == link

-- The upsert of an assignment writes the status ACTIVE.
abbrev pub activate : AccountEmulator → AccountEmulator
activate a = record a { status = active }

abbrev pub new_assignment : String → String → String → AccountEmulator
new_assignment account link id = record {
  id = id;
  account = account;
  user_emulator = link;
  status = active;
}

module _ (R : Repositories) where
  -- The link that a request of a user for a device is about. It need not be active. The query stands
  -- outside the `try`: where the database refuses it, the request fails.
  unfoldable pub find_link : String → String → Exec Db (Option UserEmulator)
  find_link user device db =
      if R.accepts user
      then (ok (R.user_emulator.find_one (links user device) db), db)
      else (err query_failed, db)

  unfoldable pub assign : String → UserEmulator → Exec Db (Unit {0})
  assign account u =
      try_log (upsert_assignment R (assigns account u.id) activate (new_assignment account u.id))

  unfoldable pub unassign : String → UserEmulator → Exec Db (Unit {0})
  unassign account u = try_log (delete_assignments R (assigns account u.id))

  -- The deletion of `unassignEmulatorFromAccounts`, which asks for the status too.
  unfoldable pub unassign_active : UserEmulator → String → Exec Db (Unit {0})
  unassign_active u account =
      try_log (delete_assignments R (λ a. assigns account u.id a && is_active a.status))

  unfoldable pub assign_device : String → String → String → Exec Db (Unit {0})
  assign_device user account device = do
    link ← find_link user device
    when_some link (assign account)

  unfoldable pub unassign_device : String → String → String → Exec Db (Unit {0})
  unassign_device user account device = do
    link ← find_link user device
    when_some link (unassign account)

  unfoldable pub assign_emulators_to_account :
      MultiDevicesAccountLinkDto → JwtToken → Exec Db (Unit {0})
  assign_emulators_to_account dto token =
      when (check_super_admin_or_self dto.user_id token)
        (for_of (assign_device dto.user_id dto.account_id) dto.device_ids)

  unfoldable pub unassign_emulators_to_account :
      MultiDevicesAccountLinkDto → JwtToken → Exec Db (Unit {0})
  unassign_emulators_to_account dto token =
      when (check_super_admin_or_self dto.user_id token)
        (for_of (unassign_device dto.user_id dto.account_id) dto.device_ids)

  unfoldable pub unassign_emulator_from_accounts : MultiAccountsLinkDto → Exec Db (Unit {0})
  unassign_emulator_from_accounts dto = do
    link ← find_link dto.user_id dto.device_id
    when_some link (λ u. for_of (unassign_active u) dto.account_ids)

  unfoldable pub assign_emulator : MultiAccountsLinkDto → JwtToken → Exec Db (Unit {0})
  assign_emulator dto token = when (check_super_admin_or_self dto.user_id token) do
    link ← find_link dto.user_id dto.device_id
    when_some link (λ u. for_of (λ account. assign account u) dto.account_ids)
