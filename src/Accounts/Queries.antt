-- ===== src/Accounts/Queries.antt =====
-- src/modules/accounts/services/account.service.ts: findAll and findOne. The rows that foreign keys
-- refer to are there, so a join that finds none leaves nothing out in fact.
pub mod Laws
use damaru_server.Prelude.{
  String, ◌≡◌, refl, sym, ap, ◌∙◌, Bool, true, false, Option, none, some, List, ◌==◌, ◌||◌, ◌&&◌,
  ◌⊎◌, Memᴰ, if◌then◌else◌, arith, eq_iff, Option-cases, Bool-cases, inl, inr,
}
use damaru_server.Prelude.Lists.{collect, mem-collect, collect-mem}
use damaru_server.Prelude.Exec.{Exec, ok, err, not_found, unauthorized, pure, throw, gets, ◌>>=◌}
use damaru_server.Token.{JwtToken, has_role, has_sub_role, super_admin, android_admin}
use damaru_server.Environment.{Environment, today, diff_in_days, default_screen_shot}
use damaru_server.Database.{Account, AccountEmulator, Emulator, UserEmulator, Db, is_null}
use damaru_server.Database.Repositories.{Repositories, wanted, link_at, emulator_at, assignment_at}

-- `screenshot ?? Utils.getDefaultScreenShot(…)`
abbrev pub with_screenshot : Environment → Emulator → Emulator
with_screenshot env e = elim e.screenshot [
  | none ↦ record e { screenshot = some (default_screen_shot env.screenshot_url none) }
  | some shot ↦ e
]

-- A device of an account, and how long its link lasts.
pub record AccountDevice : Type 0 where
  pub device : Emulator
  pub expires_at : String

abbrev pub device_of : Environment → UserEmulator → Option Emulator → Option AccountDevice
device_of env u none = none
device_of env u (some e) = some (record {
  device = with_screenshot env e;
  expires_at = diff_in_days env u.expires_at (today env) "days";
})

abbrev active_device : Environment → Db → UserEmulator → Option AccountDevice
active_device env db u =
    if is_null u.unlinked_at then device_of env u (emulator_at db u.device) else none

abbrev pub assigned_device : Environment → Db → Option UserEmulator → Option AccountDevice
assigned_device env db none = none
assigned_device env db (some u) = active_device env db u

module _ (R : Repositories) where
  -- `findAll`
  unfoldable pub find_all : JwtToken → Db → List Account
  find_all jwt = R.account.find (λ a.
      if has_sub_role jwt android_admin
      then a.user == jwt.sub
      else (if has_role jwt super_admin
          then true
          else a.user == jwt.sub && wanted jwt.account_id a.id))

  pub devices_of : Environment → String → Db → List AccountDevice
  devices_of env id db =
      collect (λ a. assigned_device env db (link_at db a.user_emulator))
        (R.account_emulator.find (λ a. a.account == id) db)

  -- `findOne`
  unfoldable pub find_one : Environment → String → JwtToken → Exec Db (List AccountDevice)
  unfolding devices_of
  find_one env id token = do
    found ← gets (R.account.find_one (λ a. a.id == id))
    elim found [
      | none ↦ throw (not_found "Account not found")
      | some account ↦
          if has_role token super_admin || token.sub == account.user
          then gets (devices_of env id)
          else throw (unauthorized "You are not authorized to view this account")
    ]
