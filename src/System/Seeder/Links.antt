-- ===== src/System/Seeder/Links.antt =====
-- The seeding and the invariant of devices and links.
use damaru_server.Prelude.{String, ◌==◌, Option-cases, inl, inr}
use damaru_server.Prelude.Exec.{skip, for_each}
use damaru_server.Token.{Roles, super_admin, emulator_admin, role_name}
use damaru_server.Database.{Db}
use damaru_server.Database.Repositories.{Repositories}
use damaru_server.Database.Statements.{insert_role, insert_user, insert_encryption}
use damaru_server.Emulators.Links.Kept.{
  KeepsLinks, KeepsLinks-refl, continue-KeepsLinks, for_each-KeepsLinks,
}
use damaru_server.Emulators.Links.Kept.Tables.{
  insert_role-KeepsLinks, insert_user-KeepsLinks, insert_encryption-KeepsLinks,
}
use damaru_server.System.Seeder.{
  Seed, SeedConfig, role_names, new_role, seeded_user, switched_on, seed_role, seed_user,
  seed_super_admin, seed_roles, seed_encryption, seed,
}

module _ (R : Repositories) where
  seed_role-KeepsLinks : (name : String) (db : Db) → KeepsLinks db (seed_role R name db).1
  unfolding seed_role
  seed_role-KeepsLinks name db = elim (Option-cases (R.role.find_one (λ r. r.name == name) db)) [
    | inr (r, found) ↦ rw found (KeepsLinks-refl db)
    | inl missing ↦ rw missing (
        continue-KeepsLinks {A = Unit} db (insert_role R (new_role name) db) (λ _. skip)
          (insert_role-KeepsLinks R db (new_role name)) (λ _ s. KeepsLinks-refl s))
  ]

  seed_user-KeepsLinks :
      (hash : String → String) (role : Roles) (s : Seed) (db : Db)
      → KeepsLinks db (seed_user R hash role s db).1
  unfolding seed_user
  seed_user-KeepsLinks hash role s db =
      elim (Option-cases (R.user.find_one (λ u. u.email == s.email) db)) [
        | inr (u, found) ↦ rw found (KeepsLinks-refl db)
        | inl missing ↦ elim (Option-cases (R.role.find_one (λ r. r.name == role_name role) db)) [
          | inl no_role ↦ rw (missing, no_role) (KeepsLinks-refl db)
          | inr (q, found) ↦
              rw (missing, found)
                (continue-KeepsLinks {A = Unit} db (insert_user R (seeded_user hash s q) db)
                  (λ _. skip) (insert_user-KeepsLinks R db (seeded_user hash s q))
                  (λ _ t. KeepsLinks-refl t))
        ]
      ]

  seed_encryption-KeepsLinks : (db : Db) → KeepsLinks db (seed_encryption R db).1
  unfolding seed_encryption
  seed_encryption-KeepsLinks db =
      elim (Option-cases (R.encryption.find_one (λ e. e.id == "1") db)) [
        | inr (e, found) ↦ rw found (KeepsLinks-refl db)
        | inl missing ↦ rw missing (
            continue-KeepsLinks {A = Unit} db (insert_encryption R switched_on db) (λ _. skip)
              (insert_encryption-KeepsLinks R db switched_on) (λ _ s. KeepsLinks-refl s))
      ]

  seed_super_admin-KeepsLinks :
      (c : SeedConfig) (db : Db) → KeepsLinks db (seed_super_admin R c db).1
  unfolding seed_super_admin
  seed_super_admin-KeepsLinks c db =
      continue-KeepsLinks {A = Unit} db (seed_user R c.hash super_admin c.super_admin_user db)
        (λ _. seed_user R c.hash emulator_admin c.emulator_user)
        (seed_user-KeepsLinks c.hash super_admin c.super_admin_user db)
        (λ _ s. seed_user-KeepsLinks c.hash emulator_admin c.emulator_user s)

  seed_roles-KeepsLinks : (c : SeedConfig) (db : Db) → KeepsLinks db (seed_roles R c db).1
  unfolding seed_roles
  seed_roles-KeepsLinks c db =
      continue-KeepsLinks {A = Unit} db (for_each (seed_role R) role_names db)
        (λ _. seed_super_admin R c)
        (for_each-KeepsLinks (seed_role R) seed_role-KeepsLinks role_names db)
        (λ _ s. seed_super_admin-KeepsLinks c s)

  -- A start keeps the links, also where its seeding fails half-way.
  pub seed-KeepsLinks : (c : SeedConfig) (db : Db) → KeepsLinks db (seed R c db).1
  unfolding seed
  seed-KeepsLinks c db =
      continue-KeepsLinks {A = Unit} db (seed_roles R c db) (λ _. seed_encryption R)
        (seed_roles-KeepsLinks c db) (λ _ s. seed_encryption-KeepsLinks s)
