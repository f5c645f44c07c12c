-- ===== src/System/Seeder.antt =====
-- src/core/database/coredataseeder.service.ts, which src/main.ts runs at every start: the rows that
-- the server needs. The configuration has all the variables that the seeder reads.
pub mod Rows
pub mod Laws
pub mod Links
pub mod Failures
use damaru_server.Prelude.{String, Option, none, some, List, [], ◌∷◌, ◌==◌, true}
use damaru_server.Prelude.Exec.{Exec, gets, non_null, skip, for_each, ◌>>=◌, ◌>>◌}
use damaru_server.Token.{Roles, emulator_admin, super_admin, android_user, role_name}
use damaru_server.Database.{User, Role, Encryption, Db}
use damaru_server.Database.Repositories.{Repositories}
use damaru_server.Database.Statements.{insert_role, insert_user, insert_encryption}

pub record Seed : Type 0 where
  pub name : String
  pub email : String
  pub password : String

-- EMULATOR_USER_…, SUPER_ADMIN_…, and bcrypt's hash.
pub record SeedConfig : Type 0 where
  pub emulator_user : Seed
  pub super_admin_user : Seed
  pub hash : String → String

-- `Object.values(Roles)`
abbrev pub role_names : List String
role_names = role_name emulator_admin ∷ role_name super_admin ∷ role_name android_user ∷ []

abbrev pub new_role : String → String → Role
new_role name id = record { id = id; name = name }

abbrev pub seeded_user : (String → String) → Seed → Role → String → User
seeded_user hash s role id = record {
  id = id;
  email = s.email;
  name = s.name;
  password = hash s.password;
  role = role.id;
}

abbrev pub switched_on : Encryption
switched_on = record { id = "1"; enabled = true }

module _ (R : Repositories) where
  unfoldable pub seed_role : String → Exec Db (Unit {0})
  seed_role name = do
    existing ← gets (R.role.find_one (λ r. r.name == name))
    elim existing [ some r ↦ skip | none ↦ (do insert_role R (new_role name); skip) ]

  -- `seedEmulatorUser` and the first part of `seedSuperAdmin`
  unfoldable pub seed_user : (String → String) → Roles → Seed → Exec Db (Unit {0})
  seed_user hash role s = do
    existing ← gets (R.user.find_one (λ u. u.email == s.email))
    elim existing [
      | some u ↦ skip
      | none ↦ (do
        found ← gets (R.role.find_one (λ r. r.name == role_name role))
        stored ← non_null found
        insert_user R (seeded_user hash s stored)
        skip)
    ]

  unfoldable pub seed_super_admin : SeedConfig → Exec Db (Unit {0})
  unfolding seed_user
  seed_super_admin c = do
    seed_user c.hash super_admin c.super_admin_user
    seed_user c.hash emulator_admin c.emulator_user

  unfoldable pub seed_roles : SeedConfig → Exec Db (Unit {0})
  unfolding seed_role seed_super_admin
  seed_roles c = do for_each seed_role role_names; seed_super_admin c

  unfoldable pub seed_encryption : Exec Db (Unit {0})
  seed_encryption = do
    existing ← gets (R.encryption.find_one (λ e. e.id == "1"))
    elim existing [ some e ↦ skip | none ↦ (do insert_encryption R switched_on; skip) ]

  -- The two calls of `bootstrap`
  unfoldable pub seed : SeedConfig → Exec Db (Unit {0})
  unfolding seed_roles seed_encryption
  seed c = do seed_roles c; seed_encryption
