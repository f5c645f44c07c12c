-- ===== src/Emulators/Devices.antt =====
-- src/modules/emulators/services/emulator.service.ts: the devices themselves.
pub mod Laws
use Prim.Native.String.{◌++◌}
use damaru_server.Prelude.{ℕ, zero, suc, String, Bool, true, ◌&&◌, Option, none, some}
use damaru_server.Prelude.Exec.{Exec, not_found, unauthorized, pure, throw, gets, ◌>>=◌, ◌>>◌}
use damaru_server.Token.{JwtToken, has_role, has_sub_role, android_user, android_admin}
use damaru_server.Environment.{Environment, default_screen_shot}
use damaru_server.Database.{
  Emulator, EmulatorStatus, EmulatorState, offline, available, UserEmulator, Db,
}
use damaru_server.Database.Repositories.{Repositories}
use damaru_server.Database.Statements.{insert_emulator, update_emulator, delete_emulator}
use damaru_server.Accounts.{or_else}
use damaru_server.Emulators.Links.{is_device, links_now}

-- `EmulatorDto`, with the column that the body of a creation may hold beside it: no pipe checks the
-- bodies, and `create` writes all of the body but its state and status.
pub record EmulatorDto : Type 0 where
  pub device_id : String
  pub device_name : String
  pub details : Option String
  pub screenshot : Option String

-- The body of an update, which `update` writes whole: the columns of the device that it has, with
-- `null` for the columns that take it. A column that is absent stays.
pub record EmulatorPatch : Type 0 where
  pub device_id : Option String
  pub device_name : Option (Option String)
  pub details : Option (Option String)
  pub status : Option EmulatorStatus
  pub state : Option EmulatorState
  pub screenshot : Option (Option String)

-- The patch that changes nothing
abbrev pub no_change : EmulatorPatch
no_change = record {
  device_id = none;
  device_name = none;
  details = none;
  status = none;
  state = none;
  screenshot = none;
}

unfoldable pub new_emulator : EmulatorDto → Emulator
new_emulator dto = record {
  device_id = dto.device_id;
  device_name = some dto.device_name;
  status = offline;
  state = available;
  screenshot = dto.screenshot;
  details = dto.details;
}

unfoldable pub write_patch : EmulatorPatch → Emulator → Emulator
write_patch p e = record e {
  device_id = or_else p.device_id e.device_id;
  device_name = or_else p.device_name e.device_name;
  status = or_else p.status e.status;
  state = or_else p.state e.state;
  screenshot = or_else p.screenshot e.screenshot;
  details = or_else p.details e.details;
}

-- Updates by an Android admin are for the devices that are linked to the user.
unfoldable pub must_own : JwtToken → Bool
must_own token = has_role token android_user && has_sub_role token android_admin

abbrev report : ℕ → String
report zero = "Emulator has not been updated"
report (suc n) = "Emulator has been updated"

module _ (R : Repositories) where
  unfoldable pub find_one : String → Db → Option Emulator
  find_one device = R.emulator.find_one (is_device device)

  unfoldable pub create : EmulatorDto → Exec Db String
  create dto = do
    exist ← gets (find_one dto.device_id)
    elim exist [
      | some e ↦ pure "Device already exist"
      | none ↦ (do insert_emulator R (new_emulator dto); pure "New device has been added")
    ]

  unfoldable pub write : String → EmulatorPatch → Exec Db String
  write id patch = do affected ← update_emulator R id (write_patch patch); pure (report affected)

  unfoldable pub owned : Bool → Option UserEmulator → Exec Db String → Exec Db String
  owned true none m = throw (unauthorized "You are not authorized to update this emulator")
  owned _ _ m = m

  unfoldable pub update : String → EmulatorPatch → Option JwtToken → Exec Db String
  unfolding owned
  update id patch none = write id patch
  update id patch (some token) = do
    link ← gets (R.user_emulator.find_one (links_now token.sub id))
    owned (must_own token) link (write id patch)

  unfoldable pub remove : String → Exec Db String
  remove id = do delete_emulator R id; pure "Emulator has been deleted"

  unfoldable pub link_screenshot : Environment → String → Exec Db Emulator
  link_screenshot env device = do
    found ← gets (find_one device)
    elim found [
      | none ↦ throw (not_found ("Device with id " ++ device ++ " not found"))
      | some e ↦ (do
        let shot = some (default_screen_shot env.screenshot_url (some (device ++ ".png")))
        update_emulator R e.device_id (λ stored. record stored { screenshot = shot })
        pure (record e { screenshot = shot }))
    ]
