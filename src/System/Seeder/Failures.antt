-- ===== src/System/Seeder/Failures.antt =====
-- How a start of the server can fail.
use damaru_server.Prelude.{
  String, ◌≡◌, refl, List, [], ◌∷◌, ◌==◌, arith, eq_iff, Option-cases, inl, inr, ◌⊎◌,
}
use damaru_server.Prelude.Exec.{Exec, Result, ok, err, query_failed, continue, for_each}
use damaru_server.Token.{Roles, emulator_admin, super_admin, role_name}
use damaru_server.Database.{Db}
use damaru_server.Database.Repositories.{Repositories}
use damaru_server.Database.Statements.{insert_role, insert_user, insert_encryption}
use damaru_server.System.Seeder.{
  Seed, SeedConfig, role_names, new_role, seeded_user, switched_on, seed_role, seed_user,
  seed_super_admin, seed_roles, seed_encryption, seed,
}
use damaru_server.System.Seeder.Rows.{HasRole, seed_user-Grows}
use damaru_server.System.Seeder.Laws.{HasRole-Grows, every_role, role_rounds-all}

-- A run that returns, or whose last statement the database has refused.
abbrev pub IsRun : Result (Unit {0}) × Db → Type 0
IsRun r = (r.0 ≡ ok tt) ⊎ (r.0 ≡ err query_failed)

continue-IsRun :
    (r : Result (Unit {0}) × Db) (f : Exec Db (Unit {0}))
    → IsRun r
    → ((s : Db) → r ≡ (ok tt, s) → IsRun (f s))
    → IsRun (continue r (λ _. f))
continue-IsRun (ok a, s) f h next = next s refl
continue-IsRun (err e, s) f h next = h

module _ (R : Repositories) where
  seed_role-IsRun : (name : String) (db : Db) → IsRun (seed_role R name db)
  unfolding seed_role insert_role
  seed_role-IsRun name db = elim (Option-cases (R.role.find_one (λ r. r.name == name) db)) [
    | inr (r, found) ↦ inl (rw found refl)
    | inl missing ↦ elim (Option-cases (R.role.insert (new_role name) db)) [
      | inl refused ↦ inr (rw missing (rw refused refl))
      | inr ((id, rows), added) ↦ inl (rw missing (rw added refl))
    ]
  ]

  rounds-IsRun : (names : List String) (db : Db) → IsRun (for_each (seed_role R) names db)
  unfolding for_each
  rounds-IsRun [] db = inl refl
  rounds-IsRun (name ∷ rest) db =
      continue-IsRun (seed_role R name db) (for_each (seed_role R) rest) (seed_role-IsRun name db)
        (λ s _. rounds-IsRun rest s)

  -- The role of a new user is found.
  seed_user-IsRun :
      (hash : String → String) (role : Roles) (s : Seed) (db : Db)
      → HasRole (role_name role) db
      → IsRun (seed_user R hash role s db)
  unfolding seed_user insert_user
  seed_user-IsRun hash role s db h =
      elim (Option-cases (R.user.find_one (λ u. u.email == s.email) db)) [
        | inr (u, found) ↦ inl (rw found refl)
        | inl missing ↦ elim (Option-cases (R.role.find_one (λ r. r.name == role_name role) db)) [
          | inl no_role ↦ absurd (
              ground (
                arith,
                R.role.find_one-complete (λ r. r.name == role_name role) db h.key h.row no_role
                    h.stored,
                eq_iff h.row.name (role_name role),
                h.named,
              ))
          | inr (r, found) ↦ elim (Option-cases (R.user.insert (seeded_user hash s r) db)) [
            | inl refused ↦ inr (rw missing (rw found (rw refused refl)))
            | inr ((id, rows), added) ↦ inl (rw missing (rw found (rw added refl)))
          ]
        ]
      ]

  seed_encryption-IsRun : (db : Db) → IsRun (seed_encryption R db)
  unfolding seed_encryption insert_encryption
  seed_encryption-IsRun db = elim (Option-cases (R.encryption.find_one (λ e. e.id == "1") db)) [
    | inr (r, found) ↦ inl (rw found refl)
    | inl missing ↦ elim (Option-cases (R.encryption.insert (λ _. switched_on) db)) [
      | inl refused ↦ inr (rw missing (rw refused refl))
      | inr ((id, rows), added) ↦ inl (rw missing (rw added refl))
    ]
  ]

  users-IsRun :
      (c : SeedConfig) (db : Db)
      → ((r : Roles) → HasRole (role_name r) db)
      → IsRun (seed_super_admin R c db)
  unfolding seed_super_admin
  users-IsRun c db roles =
      continue-IsRun (seed_user R c.hash super_admin c.super_admin_user db)
        (seed_user R c.hash emulator_admin c.emulator_user)
        (seed_user-IsRun c.hash super_admin c.super_admin_user db (roles super_admin))
        (λ s e.
          let (grows, _, _) = seed_user-Grows R c.hash super_admin c.super_admin_user db s e in
          seed_user-IsRun c.hash emulator_admin c.emulator_user s
            (HasRole-Grows R (role_name emulator_admin) db s grows (roles emulator_admin)))

  -- From any database, a start returns, or fails because a statement is refused: the role of each user
  -- that it adds is there when it is read, so no other exception is thrown.
  seed-IsRun : (c : SeedConfig) (db : Db) → IsRun (seed R c db)
  unfolding seed seed_roles
  seed-IsRun c db =
      continue-IsRun (seed_roles R c db) (seed_encryption R)
        (continue-IsRun (for_each (seed_role R) role_names db) (seed_super_admin R c)
          (rounds-IsRun role_names db)
          (λ s e. users-IsRun c s (λ r. role_rounds-all R db s e (role_name r) (every_role R r))))
        (λ s _. seed_encryption-IsRun s)
