-- ===== src/Emulators/Queries.antt =====
-- src/modules/emulators/services/emulator.service.ts: the queries, which change nothing. The rows that
-- foreign keys refer to are there, so a join that finds none leaves nothing out in fact.
pub mod Laws
pub mod Seen
use Prim.Native.String.{◌++◌}
use damaru_server.Prelude.{
  ℕ, String, Bool, true, false, not, ◌&&◌, Option, none, some, List, [], ◌∷◌, ◌==◌, if◌then◌else◌,
}
use mathlib.Core.List.{◌++◌ as append}
use damaru_server.Prelude.Lists.{collect}
use damaru_server.Prelude.Exec.{Exec, gets}
use damaru_server.Token.{JwtToken, has_role, has_sub_role, super_admin, android_user, android_admin}
use damaru_server.Environment.{Environment, today, diff_in_days, default_screen_shot}
use damaru_server.Database.{
  Emulator, EmulatorState, available, registered, is_registered, UserEmulator, AccountEmulator,
  EmulatorConnection, Account, User, Db, is_null,
}
use damaru_server.Database.Repositories.{
  Repositories, wanted, link_at, user_at, account_at, assignment_at, emulator_at,
}
use damaru_server.Accounts.Queries.{with_screenshot}
use damaru_server.Emulators.Links.{links_now}

-- A device of the answer, with what is added for its active link.
pub record DeviceView : Type 0 where
  pub device : Emulator
  pub email : Option String
  pub user_id : Option String
  pub expires_at : Option String

abbrev has_any {ℓ} : {A : Type ℓ} → List A → Bool
has_any [] = false
has_any (a ∷ rest) = true

abbrev pub bare_view : Emulator → DeviceView
bare_view e = record { device = e; email = none; user_id = none; expires_at = none }

-- `mapRegisteredEmulators`: the last active link decides.
module _ (env : Environment) (db : Db) where
  abbrev pub put_link : UserEmulator → DeviceView → DeviceView
  put_link u v = record {
    device = v.device;
    email = elim (user_at db u.user) [ none ↦ none | some owner ↦ some owner.email ];
    user_id = some u.user;
    expires_at = some (diff_in_days env u.expires_at (today env) "days");
  }

  pub map_registered : List UserEmulator → DeviceView → DeviceView
  map_registered [] v = v
  map_registered (u ∷ rest) v =
      map_registered rest (if is_null u.unlinked_at then put_link u v else v)

  abbrev pub map_state : EmulatorState → List UserEmulator → DeviceView → DeviceView
  map_state available us v = v
  map_state registered us v = map_registered us v

  -- `emulatorResponseMapper` on a device with its links
  pub response_mapper : Emulator → List UserEmulator → DeviceView
  unfolding map_registered
  response_mapper e us = map_state e.state us (bare_view (with_screenshot env e))

-- The accounts, other than the admin's, that may use a device, with their PINs.
pub record AccountView : Type 0 where
  pub id : String
  pub account_name : String
  pub pin : String

pub record LogEntry : Type 0 where
  pub description : String
  pub date : ℕ

-- `connectedTemplate`
unfoldable connected_template : Environment → String → String → ℕ → Option ℕ → List LogEntry
connected_template env account_name device_name connected none =
    record {
      description = "<b>" ++ account_name ++ "</b> connected to <b>" ++ device_name ++ "</b>";
      date = connected;
    }
    ∷ []
connected_template env account_name device_name connected (some disconnected) =
    record {
      description = "<b>" ++ account_name ++ "</b> connected to <b>" ++ device_name ++ "</b>";
      date = connected;
    }
    ∷ record {
      description =
          "<b>"
          ++ account_name
          ++ "</b> disconnected to <b>"
          ++ device_name
          ++ "</b>("
          ++ diff_in_days env disconnected connected "s"
          ++ "s)";
      date = disconnected;
    }
    ∷ []

-- A name that is null, in a template
abbrev shown_name : Option String → String
shown_name none = "null"
shown_name (some name) = name

abbrev of_account : Option String → String → AccountEmulator → Bool
of_account account link a = wanted account a.account && a.user_emulator == link

module _ (R : Repositories) where
  -- An assignment of the link to the account, if the token has one
  abbrev is_assigned : Option String → Db → UserEmulator → Bool
  is_assigned none db u = true
  is_assigned (some account) db u =
      has_any (R.account_emulator.find (of_account (some account) u.id) db)

  abbrev is_admin_token : JwtToken → Bool
  is_admin_token jwt = has_role jwt android_user && has_sub_role jwt android_admin

  -- The links that the query joins to a device, by the token.
  pub joined : JwtToken → Db → String → List UserEmulator
  joined jwt db device =
      R.user_emulator.find
        (λ u.
          if has_role jwt super_admin
          then u.device == device
          else (if is_admin_token jwt
              then links_now jwt.sub device u
              else links_now jwt.sub device u && is_assigned jwt.account_id db u))
        db

  unfoldable pub is_shown : JwtToken → Db → Emulator → Bool
  unfolding joined
  is_shown jwt db e =
      if has_role jwt super_admin
      then true
      else (if is_admin_token jwt
          then has_any (joined jwt db e.device_id) && is_registered e.state
          else has_any (joined jwt db e.device_id))

  -- `findAll`
  unfoldable pub find_all : Environment → JwtToken → Db → List DeviceView
  unfolding joined is_shown response_mapper
  find_all env jwt db =
      collect (λ e. some (response_mapper env db e (joined jwt db e.device_id)))
        (R.emulator.find (is_shown jwt db) db)

  -- `findLinkedDevices`
  abbrev is_link_of : Db → String → AccountEmulator → Bool
  is_link_of db device a = elim (link_at db a.user_emulator) [
    | none ↦ false
    | some u ↦ u.device == device && is_null u.unlinked_at
  ]

  abbrev plain_account : Option Account → Option AccountView
  plain_account none = none
  plain_account (some a) =
      if a.is_admin
      then none
      else some (record { id = a.id; account_name = a.account_name; pin = a.pin })

  unfoldable pub find_linked_devices : String → Db → List AccountView
  find_linked_devices device db =
      collect (λ a. plain_account (account_at db a.account))
        (R.account_emulator.find (is_link_of db device) db)

  -- A connection with its account and its device
  abbrev entries :
      Environment → EmulatorConnection → Option Account → Option Emulator → List LogEntry
  entries env c (some a) (some e) =
      connected_template env a.account_name (shown_name e.device_name) c.connected_at
        c.disconnected_at
  entries env c _ _ = []

  abbrev link_device_at : Db → AccountEmulator → Option Emulator
  link_device_at db a = elim (link_at db a.user_emulator) [
    | none ↦ none
    | some u ↦ emulator_at db u.device
  ]

  abbrev entries_of : Environment → Db → EmulatorConnection → List LogEntry
  entries_of env db c = elim (assignment_at db c.account_emulators) [
    | none ↦ []
    | some a ↦ entries env c (account_at db a.account) (link_device_at db a)
  ]

  unfoldable all_entries : Environment → Db → List EmulatorConnection → List LogEntry
  unfolding connected_template
  all_entries env db [] = []
  all_entries env db (c ∷ rest) = append (entries_of env db c) (all_entries env db rest)

  abbrev is_between : Db → Option String → Option String → EmulatorConnection → Bool
  is_between db account device c = elim (assignment_at db c.account_emulators) [
    | none ↦ false
    | some a ↦
        wanted account a.account
        && elim (link_at db a.user_emulator) [ none ↦ false | some u ↦ wanted device u.device ]
  ]

  -- `connectionLog`, of the query's account and device
  pub connection_log : Environment → Option String → Option String → Db → List LogEntry
  unfolding all_entries
  connection_log env account device db =
      all_entries env db (R.connection.find (is_between db account device) db)
