-- ===== src/Database.antt =====
-- The entities of src/modules/*/entities, one record for each class, and the database that holds
-- them. A many-to-one column is the primary key that it refers to. The creation and update dates
-- that the database keeps by itself are left out where no code reads or writes them. A date is the
-- number of milliseconds of its instant.
pub mod Repositories
pub mod Statements
pub mod Effects
pub mod Cascade
pub mod Accounts
use Prim.Native.Nat.{ℕ}
use damaru_server.Prelude.{String, Bool, true, false, Option, none, some, List}

pub data EmulatorStatus : Type 0 where
  online offline : EmulatorStatus

pub data EmulatorState : Type 0 where
  available registered : EmulatorState

pub data AccountStatus : Type 0 where
  active blocked inactive : AccountStatus

pub record Emulator : Type 0 where
  pub device_id : String
  pub device_name : Option String
  pub status : EmulatorStatus
  pub state : EmulatorState
  pub screenshot : Option String
  pub details : Option String

pub record UserEmulator : Type 0 where
  pub id : String
  pub user : String
  pub device : String
  pub expires_at : ℕ
  pub linked_at : ℕ
  pub unlinked_at : Option ℕ

pub record AccountEmulator : Type 0 where
  pub id : String
  pub account : String
  pub user_emulator : String
  pub status : AccountStatus

pub record EmulatorConnection : Type 0 where
  pub id : String
  pub account_emulators : String
  pub connected_at : ℕ
  pub disconnected_at : Option ℕ

pub record Account : Type 0 where
  pub id : String
  pub user : String
  pub account_name : String
  pub first_login : Bool
  pub is_admin : Bool
  pub pin : String
  pub updated_at : ℕ
  pub last_login : Option ℕ

pub record User : Type 0 where
  pub id : String
  pub email : String
  pub name : String
  pub password : String
  pub role : String

pub record Role : Type 0 where
  pub id : String
  pub name : String

-- src/modules/app/entities/encryption.ts
pub record Encryption : Type 0 where
  pub id : String
  pub enabled : Bool

-- src/modules/activity_logs/enums/Actions.ts
pub data Actions : Type 0 where
  create_user update_user delete_user create_account update_account delete_account : Actions
  create_emulator update_emulator delete_emulator link_emulator start_streaming : Actions

-- The objects that the services log.
pub data Metadata : Type 0 where
  new_user : (email name : String) (role : Option String) (password : Option String) → Metadata
  new_account : (user_id account_name pin : String) → Metadata
  user_fields : (name email password : Option String) → Metadata
  user_id : String → Metadata

pub record ActivityLog : Type 0 where
  pub id : String
  pub action : Actions
  pub metadata : Metadata

pub record Db : Type 0 where
  pub emulators : List Emulator
  pub user_emulators : List UserEmulator
  pub account_emulators : List AccountEmulator
  pub emulator_connections : List EmulatorConnection
  pub accounts : List Account
  pub users : List User
  pub roles : List Role
  pub activity_logs : List ActivityLog
  pub encryptions : List Encryption

abbrev pub is_registered : EmulatorState → Bool
is_registered available = false
is_registered registered = true

abbrev pub is_active : AccountStatus → Bool
is_active active = true
is_active _ = false

-- The operator `IsNull()` on a nullable column, and a column that holds a value.
abbrev pub is_null {ℓ} : {A : Type ℓ} → Option A → Bool
is_null none = true
is_null (some a) = false
