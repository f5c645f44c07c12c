-- ===== src/System/Seeder/Rows.antt =====
-- The rows that one step of the seeding adds: the tables of the roles, the users and the switch
-- only grow.
use mathlib.Core.Path.{subst, sym}
use damaru_server.Prelude.{
  String, ◌≡◌, refl, ap, ◌∙◌, some, ◌≢◌, ◌==◌, arith, eq_iff, true_eq, Option-cases, inl, inr,
}
use damaru_server.Prelude.Exec.{ok, continue-eq-ok, last-eq-ok, non_null, non_null-eq-ok}
use damaru_server.Token.{Roles, role_name}
use damaru_server.Database.{User, Role, Encryption, Db}
use damaru_server.Database.Repositories.{Repositories, role_at, user_at, encryption_at}
use damaru_server.Database.Statements.{insert_role, insert_user, insert_encryption}
use damaru_server.System.Seeder.{
  Seed, new_role, seeded_user, switched_on, seed_role, seed_user, seed_encryption,
}

-- A row of the table, and rows that stay.
pub record HasRole (name : String) (db : Db) : Type 0 where
  pub key : String
  pub row : Role
  pub stored : role_at db key ≡ some row
  pub named : row.name ≡ name

pub record HasUser (email : String) (db : Db) : Type 0 where
  pub key : String
  pub row : User
  pub stored : user_at db key ≡ some row
  pub named : row.email ≡ email

pub record HasEncryption (db : Db) : Type 0 where
  pub row : Encryption
  pub stored : encryption_at db "1" ≡ some row

pub record Grows (db t : Db) : Type 0 where
  pub roles : (k : String) (r : Role) → role_at db k ≡ some r → role_at t k ≡ some r
  pub users : (k : String) (u : User) → user_at db k ≡ some u → user_at t k ≡ some u
  pub encryptions :
      (k : String) (e : Encryption) → encryption_at db k ≡ some e → encryption_at t k ≡ some e

pub Grows-refl : (db : Db) → Grows db db
Grows-refl db = record { roles = λ k r e. e; users = λ k u e. e; encryptions = λ k e h. h }

pub Grows-trans : (db s t : Db) → Grows db s → Grows s t → Grows db t
Grows-trans db s t g h = record {
  roles = λ k r e. h.roles k r (g.roles k r e);
  users = λ k u e. h.users k u (g.users k u e);
  encryptions = λ k e at. h.encryptions k e (g.encryptions k e at);
}

-- The row of a new user, with the id of the role's row.
pub record IsCreated (hash : String → String) (role : Roles) (s : Seed) (t : Db) : Type 0 where
  pub id : String
  pub role_row : Role
  pub role_stored : role_at t role_row.id ≡ some role_row
  pub role_named : role_row.name ≡ role_name role
  pub stored : user_at t id ≡ some (seeded_user hash s role_row id)

abbrev pub IsAbsent : String → Db → Type 0
IsAbsent email db = (k : String) (u : User) → user_at db k ≡ some u → u.email ≢ email

module _ (R : Repositories) where
  insert_role-Grows :
      (name id : String) (db t : Db)
      → insert_role R (new_role name) db ≡ (ok id, t)
      → Grows db t × HasRole name t
  unfolding insert_role
  insert_role-Grows name id db t e = elim (Option-cases (R.role.insert (new_role name) db)) [
    | inl refused ↦ absurd (ground (arith, refused))
    | inr ((new, rows), q) ↦
        let (free, _, _) = R.role.insert-free (new_role name) db new rows q in
        let same : t ≡ record db { roles = rows } = ground (arith, q) in
        let table = R.role.lookup-insert (new_role name) db new rows q in
        rw same (
          record {
            roles = λ k r at. ground (arith, table k, free, at, eq_iff new k);
            users = λ k u at. at;
            encryptions = λ k x at. at;
          },
          record {
            key = new;
            row = new_role name new;
            stored = ground (arith, table new, eq_iff new new);
            named = refl;
          },
        )
  ]

  insert_user-Grows :
      (make : String → User) (id : String) (db t : Db)
      → insert_user R make db ≡ (ok id, t)
      → Grows db t × (user_at t id ≡ some (make id))
  unfolding insert_user
  insert_user-Grows make id db t e = elim (Option-cases (R.user.insert make db)) [
    | inl refused ↦ absurd (ground (arith, refused))
    | inr ((new, rows), q) ↦
        let (free, _, _) = R.user.insert-free make db new rows q in
        let same : t ≡ record db { users = rows } = ground (arith, q) in
        let named : id ≡ new = ground (arith, q) in
        let table = R.user.lookup-insert make db new rows q in
        rw same (
          record {
            roles = λ k r at. at;
            users = λ k u at. ground (arith, table k, free, at, eq_iff new k);
            encryptions = λ k x at. at;
          },
          ground (arith, table id, named, eq_iff new id),
        )
  ]

  insert_encryption-Grows :
      (id : String) (db t : Db)
      → insert_encryption R switched_on db ≡ (ok id, t)
      → Grows db t × HasEncryption t
  unfolding insert_encryption
  insert_encryption-Grows id db t e =
      elim (Option-cases (R.encryption.insert (λ _. switched_on) db)) [
        | inl refused ↦ absurd (ground (arith, refused))
        | inr ((new, rows), q) ↦
            let (free, keyed, _) = R.encryption.insert-free (λ _. switched_on) db new rows q in
            let same : t ≡ record db { encryptions = rows } = ground (arith, q) in
            let table = R.encryption.lookup-insert (λ _. switched_on) db new rows q in
            rw same (
              record {
                roles = λ k r at. at;
                users = λ k u at. at;
                encryptions = λ k x at. ground (arith, table k, free, at, eq_iff new k);
              },
              record {
                row = switched_on;
                stored = ground (arith, table "1", keyed, eq_iff new "1");
              },
            )
      ]

  pub seed_role-Grows :
      (name : String) (db t : Db) → seed_role R name db ≡ (ok tt, t) → Grows db t × HasRole name t
  unfolding seed_role
  seed_role-Grows name db t e = elim (Option-cases (R.role.find_one (λ r. r.name == name) db)) [
    | inl missing ↦
        let (id, inserted) = last-eq-ok (insert_role R (new_role name) db) (rw missing at e) in
        insert_role-Grows name id db t inserted
    | inr (r, found) ↦
        let (stored, named) = R.role.find_one-sound (λ r. r.name == name) db r found in
        let same : db ≡ t = ground (arith, found) in
        subst (λ d. Grows db d × HasRole name d) same
          (Grows-refl db, record { key = r.id; row = r; stored = stored; named = true_eq named })
  ]

  insert_user-IsCreated :
      (hash : String → String) (role : Roles) (s : Seed) (db t : Db) (q : Role) (id : String)
      → R.role.find_one (λ r. r.name == role_name role) db ≡ some q
      → insert_user R (seeded_user hash s q) db ≡ (ok id, t)
      → Grows db t × HasUser s.email t × IsCreated hash role s t
  insert_user-IsCreated hash role s db t q id found inserted =
      let (stored, named) = R.role.find_one-sound (λ r. r.name == role_name role) db q found in
      let (grows, at) = insert_user-Grows (seeded_user hash s q) id db t inserted in
      (
        grows,
        record { key = id; row = seeded_user hash s q id; stored = at; named = refl },
        record {
          id = id;
          role_row = q;
          role_stored = grows.roles q.id q stored;
          role_named = true_eq named;
          stored = at;
        },
      )

  pub seed_user-Grows :
      (hash : String → String) (role : Roles) (s : Seed) (db t : Db)
      → seed_user R hash role s db ≡ (ok tt, t)
      → Grows db t × HasUser s.email t × (IsAbsent s.email db → IsCreated hash role s t)
  unfolding seed_user
  seed_user-Grows hash role s db t e =
      elim (Option-cases (R.user.find_one (λ u. u.email == s.email) db)) [
        | inr (u, found) ↦
            let (stored, named) = R.user.find_one-sound (λ u. u.email == s.email) db u found in
            let same : db ≡ t = ground (arith, found) in
            subst
              (λ d.
                Grows db d × HasUser s.email d × (IsAbsent s.email db → IsCreated hash role s d))
              same
              (
                Grows-refl db,
                record { key = u.id; row = u; stored = stored; named = true_eq named },
                λ absent. absurd (absent u.id u stored (true_eq named)),
              )
        | inl missing ↦
            let (q, _, role_found, rest) =
              continue-eq-ok (non_null (R.role.find_one (λ r. r.name == role_name role) db) db) _ tt
                t (rw missing at e) in
            let (found, here) =
              non_null-eq-ok (R.role.find_one (λ r. r.name == role_name role) db) db role_found in
            let (id, inserted) = last-eq-ok _ (rw here at rest) in
            let (grows, user, created) =
              insert_user-IsCreated hash role s db t q id found inserted in
            (grows, user, λ _. created)
      ]

  pub seed_encryption-Grows :
      (db t : Db) → seed_encryption R db ≡ (ok tt, t) → Grows db t × HasEncryption t
  unfolding seed_encryption
  seed_encryption-Grows db t e = elim (Option-cases (R.encryption.find_one (λ x. x.id == "1") db)) [
    | inl missing ↦
        let (id, inserted) = last-eq-ok (insert_encryption R switched_on db) (rw missing at e) in
        insert_encryption-Grows id db t inserted
    | inr (x, found) ↦
        let (stored, named) = R.encryption.find_one-sound (λ x. x.id == "1") db x found in
        let same : db ≡ t = ground (arith, found) in
        subst (λ d. Grows db d × HasEncryption d) same
          (
            Grows-refl db,
            record { row = x; stored = ap (encryption_at db) (sym (true_eq named)) ∙ stored },
          )
  ]
