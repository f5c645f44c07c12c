-- ===== src/Database/Effects.antt =====
-- What a statement that succeeds has done: the table's new rows, by their primary keys, and no change
-- to the other tables.
use mathlib.Core.Path.{subst}
use damaru_server.Prelude.{
  ℕ, String, ◌≡◌, sym, Bool, true, Option, none, some, List, ◌==◌, if◌then◌else◌, arith,
  Option-cases, inl, inr,
}
use damaru_server.Prelude.Exec.{Exception, ok, err}
use damaru_server.Repository.{lookup, revise, unless}
use damaru_server.Database.{
  Emulator, UserEmulator, AccountEmulator, EmulatorConnection, Account, User, Db,
}
use damaru_server.Database.Repositories.{
  Repositories, emulator_key, link_key, assignment_key, account_key, user_key, emulator_at, link_at,
  assignment_at, account_at, user_at, valid_link, valid_assignment, valid_account, valid_user,
}
use damaru_server.Database.Statements.{
  saved, saved_all, orphan_connection, prune_connections, delete_assignments, insert_emulator,
  update_emulator, insert_link, update_link, insert_assignment, insert_account, update_account,
  insert_user, update_user,
}

saved-eq-ok :
    {A Row : Type 0} (o : Option (A × List Row)) (put : List Row → Db) (db : Db) {a : A} {t : Db}
    → saved o put db ≡ (ok a, t)
    → (rows : List Row) × (o ≡ some (a, rows)) × (t ≡ put rows)
saved-eq-ok none put db e = absurd (cc)
saved-eq-ok (some (b, rows)) put db e = (rows, cc, cc)

module _ (R : Repositories) where
  emulator_inserted :
      (e : Emulator) (db : Db) {id : String} {t : Db}
      → insert_emulator R e db ≡ (ok id, t)
      → (rows : List Emulator) × (t ≡ record db { emulators = rows })
        × (emulator_at db e.device_id ≡ none)
        × ((k : String)
            → lookup emulator_key k rows ≡ (if e.device_id == k then some e else emulator_at db k))
  unfolding insert_emulator
  emulator_inserted e db {id} q =
      let (rows, p, same) = saved-eq-ok _ _ _ q in
      let (free, keyed, fits) = R.emulator.insert-free (λ _. e) db id rows p in
      (
        rows,
        same,
        subst (λ j. emulator_at db j ≡ none) (sym keyed) free,
        subst
            (λ j.
              (k : String)
              → lookup emulator_key k rows ≡ (if j == k then some e else emulator_at db k))
            (sym keyed) (R.emulator.lookup-insert (λ _. e) db id rows p),
      )

  pub emulator_updated :
      (id : String) (f : Emulator → Emulator) (db : Db) {n : ℕ} {t : Db}
      → ((r : Emulator) → emulator_key (f r) ≡ emulator_key r)
      → update_emulator R id f db ≡ (ok n, t)
      → (rows : List Emulator) × (t ≡ record db { emulators = rows })
        × ((k : String) → lookup emulator_key k rows ≡ revise (id == k) f (emulator_at db k))
  unfolding update_emulator
  emulator_updated id f db keep e =
      let (rows, q, same) = saved-eq-ok _ _ _ e in
      (rows, same, R.emulator.lookup-update id f db _ rows keep q)

  pub link_inserted :
      (make : String → UserEmulator) (db : Db) {id : String} {t : Db}
      → insert_link R make db ≡ (ok id, t)
      → (rows : List UserEmulator) × (t ≡ record db { user_emulators = rows })
        × (link_at db id ≡ none)
        × (valid_link db (make id) ≡ true)
        × ((k : String)
            → lookup link_key k rows ≡ (if id == k then some (make id) else link_at db k))
  unfolding insert_link
  link_inserted make db e =
      let (rows, q, same) = saved-eq-ok _ _ _ e in
      let (free, keyed, fits) = R.user_emulator.insert-free make db _ rows q in
      (rows, same, free, fits, R.user_emulator.lookup-insert make db _ rows q)

  pub link_updated :
      (id : String) (f : UserEmulator → UserEmulator) (db : Db) {n : ℕ} {t : Db}
      → ((r : UserEmulator) → link_key (f r) ≡ link_key r)
      → update_link R id f db ≡ (ok n, t)
      → (rows : List UserEmulator) × (t ≡ record db { user_emulators = rows })
        × ((k : String) → lookup link_key k rows ≡ revise (id == k) f (link_at db k))
  unfolding update_link
  link_updated id f db keep e =
      let (rows, q, same) = saved-eq-ok _ _ _ e in
      (rows, same, R.user_emulator.lookup-update id f db _ rows keep q)

  pub assignment_inserted :
      (make : String → AccountEmulator) (db : Db) {id : String} {t : Db}
      → insert_assignment R make db ≡ (ok id, t)
      → (rows : List AccountEmulator) × (t ≡ record db { account_emulators = rows })
        × (assignment_at db id ≡ none)
        × (valid_assignment db (make id) ≡ true)
        × ((k : String)
            → lookup assignment_key k rows
              ≡ (if id == k then some (make id) else assignment_at db k))
  unfolding insert_assignment
  assignment_inserted make db e =
      let (rows, q, same) = saved-eq-ok _ _ _ e in
      let (free, keyed, fits) = R.account_emulator.insert-free make db _ rows q in
      (rows, same, free, fits, R.account_emulator.lookup-insert make db _ rows q)

  pub account_inserted :
      (make : String → Account) (db : Db) {id : String} {t : Db}
      → insert_account R make db ≡ (ok id, t)
      → (rows : List Account) × (t ≡ record db { accounts = rows })
        × (account_at db id ≡ none)
        × (valid_account db (make id) ≡ true)
        × ((k : String)
            → lookup account_key k rows ≡ (if id == k then some (make id) else account_at db k))
  unfolding insert_account
  account_inserted make db e =
      let (rows, q, same) = saved-eq-ok _ _ _ e in
      let (free, keyed, fits) = R.account.insert-free make db _ rows q in
      (rows, same, free, fits, R.account.lookup-insert make db _ rows q)

  pub account_updated :
      (id : String) (f : Account → Account) (db : Db) {n : ℕ} {t : Db}
      → ((r : Account) → account_key (f r) ≡ account_key r)
      → update_account R id f db ≡ (ok n, t)
      → (rows : List Account) × (t ≡ record db { accounts = rows })
        × ((k : String) → lookup account_key k rows ≡ revise (id == k) f (account_at db k))
  unfolding update_account
  account_updated id f db keep e =
      let (rows, q, same) = saved-eq-ok _ _ _ e in
      (rows, same, R.account.lookup-update id f db _ rows keep q)

  pub user_inserted :
      (make : String → User) (db : Db) {id : String} {t : Db}
      → insert_user R make db ≡ (ok id, t)
      → (rows : List User) × (t ≡ record db { users = rows })
        × (user_at db id ≡ none)
        × (valid_user db (make id) ≡ true)
        × ((k : String)
            → lookup user_key k rows ≡ (if id == k then some (make id) else user_at db k))
  unfolding insert_user
  user_inserted make db e =
      let (rows, q, same) = saved-eq-ok _ _ _ e in
      let (free, keyed, fits) = R.user.insert-free make db _ rows q in
      (rows, same, free, fits, R.user.lookup-insert make db _ rows q)

  pub user_updated :
      (id : String) (f : User → User) (db : Db) {n : ℕ} {t : Db}
      → ((r : User) → user_key (f r) ≡ user_key r)
      → update_user R id f db ≡ (ok n, t)
      → (rows : List User) × (t ≡ record db { users = rows })
        × ((k : String) → lookup user_key k rows ≡ revise (id == k) f (user_at db k))
  unfolding update_user
  user_updated id f db keep e =
      let (rows, q, same) = saved-eq-ok _ _ _ e in
      (rows, same, R.user.lookup-update id f db _ rows keep q)

  pub prune_connections-eq-some :
      (db : Db) {t : Db}
      → prune_connections R db ≡ some t
      → (rows : List EmulatorConnection) × (t ≡ record db { emulator_connections = rows })
  unfolding prune_connections
  prune_connections-eq-some db e =
      elim (Option-cases (R.connection.delete (orphan_connection db) db)) [
        | inl refused ↦ absurd (ground arith)
        | inr (rows, q) ↦ (rows, ground arith)
      ]

  pub saved_all-eq-ok :
      (o : Option Db) (db : Db) {t : Db} → saved_all o db ≡ (ok tt, t) → o ≡ some t
  saved_all-eq-ok none db e = absurd (cc)
  saved_all-eq-ok (some u) db e = cc

  -- Deleting assignments removes the rows that match, and touches only them and the connections.
  pub assignments_deleted :
      (p : AccountEmulator → Bool) (db : Db) {t : Db}
      → delete_assignments R p db ≡ (ok tt, t)
      → (rows : List AccountEmulator) × (left : List EmulatorConnection) × (t
          ≡ record db { account_emulators = rows; emulator_connections = left })
        × ((k : String) → lookup assignment_key k rows ≡ unless p (assignment_at db k))
  unfolding delete_assignments
  assignments_deleted p db {t} e = elim (Option-cases (R.account_emulator.delete p db)) [
    | inl refused ↦ absurd (ground arith)
    | inr (rows, q) ↦
        let (left, same) =
          prune_connections-eq-some (record db { account_emulators = rows })
            (saved_all-eq-ok (prune_connections R (record db { account_emulators = rows })) db
              (rw (q, delete_assignments) at e)) in
        (rows, left, same, R.account_emulator.lookup-delete p db rows q)
  ]

  -- A statement that fails changes nothing.
  pub update_link-err :
      (id : String) (f : UserEmulator → UserEmulator) (db : Db) {e : Exception} {t : Db}
      → update_link R id f db ≡ (err e, t)
      → t ≡ db
  unfolding update_link
  update_link-err id f db h = ground arith

  pub update_emulator-err :
      (id : String) (f : Emulator → Emulator) (db : Db) {e : Exception} {t : Db}
      → update_emulator R id f db ≡ (err e, t)
      → t ≡ db
  unfolding update_emulator
  update_emulator-err id f db h = ground arith

  pub delete_assignments-err :
      (p : AccountEmulator → Bool) (db : Db) {e : Exception} {t : Db}
      → delete_assignments R p db ≡ (err e, t)
      → t ≡ db
  unfolding delete_assignments
  delete_assignments-err p db h = ground arith
