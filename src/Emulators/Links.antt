-- ===== src/Emulators/Links.antt =====
-- src/modules/emulators/services/emulator.service.ts: linking a device to a user, unlinking it, and
-- extending a link.
pub mod Rounds
pub mod Invariant
pub mod Unlinking
pub mod Linking
pub mod Kept
pub mod Owners
pub mod Refinement
pub mod Extension
use damaru_server.Prelude.{ℕ, String, Bool, ◌&&◌, Option, none, some, List, ◌==◌}
use damaru_server.Prelude.Exec.{
  Exec, http_exception, throw, gets, non_null, skip, when_some, for_each, ◌>>=◌, ◌>>◌,
}
use damaru_server.Environment.{Environment, Amount, today, add, link_days}
use damaru_server.Database.{
  Emulator, EmulatorState, available, registered, is_registered, UserEmulator, AccountEmulator,
  Account, active, Db, is_null,
}
use damaru_server.Database.Repositories.{Repositories}
use damaru_server.Database.Statements.{
  insert_link, update_link, insert_assignment, delete_assignments, update_emulator,
}
use damaru_server.Accounts.{find_root_account}

-- With the list of the body there: a request whose body lacks it is a `LinkBody` of Routes.
pub record MultiDevicesLinkDto : Type 0 where
  pub device_ids : List String
  pub user_id : String

pub record ExtendExpiryDto : Type 0 where
  pub device_id : String
  pub user_id : String
  pub days : Amount

abbrev pub is_device : String → Emulator → Bool
is_device id e = e.device_id == id

abbrev pub links : String → String → UserEmulator → Bool
links user device u = u.device == device && u.user == user

-- An active link, one with no `unlinked_at`, of a user and a device.
abbrev pub links_now : String → String → UserEmulator → Bool
links_now user device u = links user device u && is_null u.unlinked_at

unfoldable pub new_link : Environment → String → String → String → UserEmulator
new_link env user device id = record {
  id = id;
  user = user;
  device = device;
  expires_at = add env (link_days env) "d" none;
  linked_at = today env;
  unlinked_at = none;
}

-- The assignment of a new link to the root account.
abbrev pub root_assignment : String → Account → String → AccountEmulator
root_assignment link admin id = record {
  id = id;
  account = admin.id;
  user_emulator = link;
  status = active;
}

abbrev pub end_link : ℕ → UserEmulator → UserEmulator
end_link date u = record u { unlinked_at = some date }

abbrev pub set_state : EmulatorState → Emulator → Emulator
set_state s e = record e { state = s }

module _ (R : Repositories) where
  -- `findEmulatorByDeviceId` at the state REGISTERED
  unfoldable pub find_registered : String → Db → Option Emulator
  find_registered device = R.emulator.find_one (λ e. is_device device e && is_registered e.state)

  -- The link of a device that is not registered yet: its row, the assignment of the device to the
  -- user's root account, and the device's state.
  unfoldable pub register : Environment → String → String → Exec Db (Unit {0})
  register env user device = do
    link ← insert_link R (new_link env user device)
    root ← gets (find_root_account R user)
    admin ← non_null root
    insert_assignment R (root_assignment link admin)
    update_emulator R device (set_state registered)
    skip

  abbrev unless_linked : Option Emulator → Exec Db (Unit {0}) → Exec Db (Unit {0})
  unless_linked none link = link
  unless_linked (some e) link = throw (http_exception "This device has already been linked" 406)

  unfoldable pub link_device : Environment → String → String → Exec Db (Unit {0})
  link_device env user device = do
    already_linked ← gets (find_registered device)
    unless_linked already_linked (register env user device)

  unfoldable pub link_emulator : Environment → MultiDevicesLinkDto → Exec Db (Unit {0})
  link_emulator env dto = for_each (link_device env dto.user_id) dto.device_ids

  unfoldable pub close_link : Environment → String → UserEmulator → Exec Db (Unit {0})
  close_link env device u = do
    update_link R u.id (end_link (today env))
    delete_assignments R (λ a. a.user_emulator == u.id)
    update_emulator R device (set_state available)
    skip

  unfoldable pub unlink_device : Environment → String → String → Exec Db (Unit {0})
  unlink_device env user device = do
    linked ← gets (R.user_emulator.find_one (links_now user device))
    when_some linked (close_link env device)

  unfoldable pub unlink_emulator : Environment → MultiDevicesLinkDto → Exec Db (Unit {0})
  unlink_emulator env dto = for_each (unlink_device env dto.user_id) dto.device_ids

  unfoldable pub extend : Environment → ExtendExpiryDto → Exec Db (Unit {0})
  extend env dto = do
    exist ← gets (R.user_emulator.find_one (links dto.user_id dto.device_id))
    when_some exist λ u. do
      update_link R u.id
          (λ v. record v { expires_at = add env dto.days "days" (some u.expires_at) })
      skip
