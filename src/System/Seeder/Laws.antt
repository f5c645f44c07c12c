-- ===== src/System/Seeder/Laws.antt =====
-- What the seeding leaves behind, and that a second start changes nothing.
use mathlib.Core.Path.{subst, sym}
use damaru_server.Prelude.{
  String, ◌≡◌, refl, ap, ◌∙◌, List, [], ◌∷◌, ◌==◌, arith, eq_iff, Option-cases, inl, inr, Memᴰ,
}
use damaru_server.Prelude.Exec.{Result, ok, continue-eq-ok, for_each, for_each-all, for_each-keeps}
use damaru_server.Token.{Roles, emulator_admin, super_admin, android_user, role_name}
use damaru_server.Repository.{lookup, lookup-key}
use damaru_server.Database.{User, Db}
use damaru_server.Database.Repositories.{Repositories, encryption_key, user_key}
use damaru_server.Database.Statements.{insert_role}
use damaru_server.System.Seeder.{
  Seed, SeedConfig, role_names, seeded_user, seed_role, seed_user, seed_super_admin, seed_roles,
  seed_encryption, seed,
}
use damaru_server.System.Seeder.Rows.{
  HasRole, HasUser, HasEncryption, Grows, Grows-refl, Grows-trans, IsCreated, IsAbsent,
  seed_role-Grows, seed_user-Grows, seed_encryption-Grows,
}

-- Every role, both users and the switch have a row.
pub record IsSeeded (c : SeedConfig) (t : Db) : Type 0 where
  roles : (r : Roles) → HasRole (role_name r) t
  admin : HasUser c.super_admin_user.email t
  emulator : HasUser c.emulator_user.email t
  encryption : HasEncryption t

module _ (R : Repositories) where
  pub HasRole-Grows : (name : String) (s t : Db) → Grows s t → HasRole name s → HasRole name t
  HasRole-Grows name s t g h = record {
    key = h.key;
    row = h.row;
    stored = g.roles h.key h.row h.stored;
    named = h.named;
  }

  HasUser-Grows : (email : String) (s t : Db) → Grows s t → HasUser email s → HasUser email t
  HasUser-Grows email s t g h = record {
    key = h.key;
    row = h.row;
    stored = g.users h.key h.row h.stored;
    named = h.named;
  }

  IsCreated-Grows :
      (hash : String → String) (role : Roles) (x : Seed) (s t : Db)
      → Grows s t
      → IsCreated hash role x s
      → IsCreated hash role x t
  IsCreated-Grows hash role x s t g h = record {
    id = h.id;
    role_row = h.role_row;
    role_stored = g.roles h.role_row.id h.role_row h.role_stored;
    role_named = h.role_named;
    stored = g.users h.id (seeded_user hash x h.role_row h.id) h.stored;
  }

  role_rounds :
      (names : List String) (db t : Db) → for_each (seed_role R) names db ≡ (ok tt, t) → Grows db t
  unfolding for_each
  role_rounds [] db t e =
      subst (Grows db) (ap (λ (x : Result (Unit {0}) × Db). x.1) e) (Grows-refl db)
  role_rounds (n ∷ names) db t e =
      let (_, s, first, rest) =
        continue-eq-ok (seed_role R n db) (λ _. for_each (seed_role R) names) tt t e in
      Grows-trans db s t (seed_role-Grows R n db s first).0 (role_rounds names s t rest)

  pub every_role : (r : Roles) → Memᴰ (role_name r) role_names
  every_role emulator_admin = Memᴰ.head refl
  every_role super_admin = Memᴰ.tail (Memᴰ.head refl)
  every_role android_user = Memᴰ.tail (Memᴰ.tail (Memᴰ.head refl))

  pub role_rounds-all :
      (db s : Db)
      → for_each (seed_role R) role_names db ≡ (ok tt, s)
      → (name : String) → Memᴰ name role_names
      → HasRole name s
  role_rounds-all db s e =
      for_each-all (seed_role R) HasRole (λ _. Unit {0})
        (λ name u v _ step. ((seed_role-Grows R name u v step).1, tt))
        (λ name other u v _ h step. HasRole-Grows name u v (seed_role-Grows R other u v step).0 h)
        role_names db s tt e

  seed_role-users : (name : String) (db : Db) → (seed_role R name db).1.users ≡ db.users
  unfolding seed_role insert_role
  seed_role-users name db = ground arith

  role_rounds-users :
      (db s : Db) → for_each (seed_role R) role_names db ≡ (ok tt, s) → s.users ≡ db.users
  role_rounds-users db s e =
      subst (λ (x : Result (Unit {0}) × Db). x.1.users ≡ db.users) e
        (for_each-keeps (λ (d : Db). d.users ≡ db.users) (seed_role R)
          (λ name d h. seed_role-users name d ∙ h) role_names db refl)

  seed-all :
      (c : SeedConfig) (db t : Db)
      → seed R c db ≡ (ok tt, t)
      → Grows db t
        × IsSeeded c t
        × (IsAbsent c.super_admin_user.email db → IsCreated c.hash super_admin c.super_admin_user t)
  unfolding seed seed_roles seed_super_admin
  seed-all c db t e =
      let (_, s1, all_roles, rest) =
        continue-eq-ok (seed_roles R c db) (λ _. seed_encryption R) tt t e in
      let (_, s2, rounds, users) =
        continue-eq-ok (for_each (seed_role R) role_names db) (λ _. seed_super_admin R c) tt s1
          all_roles in
      let (_, s3, first, last) =
        continue-eq-ok (seed_user R c.hash super_admin c.super_admin_user s2)
          (λ _. seed_user R c.hash emulator_admin c.emulator_user) tt s1 users in
      let same : s2.users ≡ db.users = role_rounds-users db s2 rounds in
      let has_roles = role_rounds-all db s2 rounds in
      let (to_s3, admin, created) =
        seed_user-Grows R c.hash super_admin c.super_admin_user s2 s3 first in
      let (to_s1, emulator, _) =
        seed_user-Grows R c.hash emulator_admin c.emulator_user s3 s1 last in
      let (to_t, encryption) = seed_encryption-Grows R s1 t rest in
      let s3_t = Grows-trans s3 s1 t to_s1 to_t in
      let s2_t = Grows-trans s2 s3 t to_s3 s3_t in
      (
        Grows-trans db s2 t (role_rounds role_names db s2 rounds) s2_t,
        record {
          roles =
              λ r. HasRole-Grows (role_name r) s2 t s2_t (has_roles (role_name r) (every_role r));
          admin = HasUser-Grows c.super_admin_user.email s3 t s3_t admin;
          emulator = HasUser-Grows c.emulator_user.email s1 t to_t emulator;
          encryption = encryption;
        },
        λ absent. IsCreated-Grows c.hash super_admin c.super_admin_user s3 t s3_t (
            created
              (λ k u at. absent k u (ap (λ (l : List User). lookup user_key k l) (sym same) ∙ at))),
      )

  -- A seeding that succeeds keeps all roles, users and switches, and leaves a row for each role, for
  -- the e-mail addresses of both users, and for the switch.
  pub seed-IsSeeded :
      (c : SeedConfig) (db t : Db) → seed R c db ≡ (ok tt, t) → Grows db t × IsSeeded c t
  seed-IsSeeded c db t e = let (grows, seeded, _) = seed-all c db t e in (grows, seeded)

  -- If no user has the super admin's e-mail address, a seeding that succeeds leaves a user with it, with
  -- the configured name, the hash of the configured password, and the role SuperAdmin.
  seed-IsCreated :
      (c : SeedConfig) (db t : Db)
      → IsAbsent c.super_admin_user.email db
      → seed R c db ≡ (ok tt, t)
      → IsCreated c.hash super_admin c.super_admin_user t
  seed-IsCreated c db t absent e = let (_, _, created) = seed-all c db t e in created absent

  seed_role_again : (name : String) (t : Db) → HasRole name t → seed_role R name t ≡ (ok tt, t)
  unfolding seed_role
  seed_role_again name t h = elim (Option-cases (R.role.find_one (λ r. r.name == name) t)) [
    | inr (r, found) ↦ rw found
    | inl missing ↦ absurd (
        ground (
          arith,
          R.role.find_one-complete (λ r. r.name == name) t h.key h.row missing h.stored,
          eq_iff h.row.name name,
          h.named,
        ))
  ]

  seed_user_again :
      (hash : String → String) (role : Roles) (s : Seed) (t : Db)
      → HasUser s.email t
      → seed_user R hash role s t ≡ (ok tt, t)
  unfolding seed_user
  seed_user_again hash role s t h =
      elim (Option-cases (R.user.find_one (λ u. u.email == s.email) t)) [
        | inr (u, found) ↦ rw found
        | inl missing ↦ absurd (
            ground (
              arith,
              R.user.find_one-complete (λ u. u.email == s.email) t h.key h.row missing h.stored,
              eq_iff h.row.email s.email,
              h.named,
            ))
      ]

  seed_encryption_again : (t : Db) → HasEncryption t → seed_encryption R t ≡ (ok tt, t)
  unfolding seed_encryption
  seed_encryption_again t h = elim (Option-cases (R.encryption.find_one (λ x. x.id == "1") t)) [
    | inr (x, found) ↦ rw found
    | inl missing ↦ absurd (
        ground (
          arith,
          R.encryption.find_one-complete (λ x. x.id == "1") t "1" h.row missing h.stored,
          eq_iff h.row.id "1",
          lookup-key encryption_key "1" t.encryptions h.stored,
        ))
  ]

  -- After a seeding that succeeded, a second one succeeds and changes nothing.
  pub seed_again : (c : SeedConfig) (db t : Db) → seed R c db ≡ (ok tt, t) → seed R c t ≡ (ok tt, t)
  unfolding seed seed_roles seed_super_admin for_each
  seed_again c db t e =
      let (_, h) = seed-IsSeeded c db t e in
      rw (
        seed_role_again (role_name emulator_admin) t (h.roles emulator_admin),
        seed_role_again (role_name super_admin) t (h.roles super_admin),
        seed_role_again (role_name android_user) t (h.roles android_user),
        seed_user_again c.hash super_admin c.super_admin_user t h.admin,
        seed_user_again c.hash emulator_admin c.emulator_user t h.emulator,
        seed_encryption_again t h.encryption,
      )
