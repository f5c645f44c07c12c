-- ===== src/Emulators/Links/Kept/Tables.antt =====
-- The statements on the tables that the links do not depend on keep the links.
use damaru_server.Prelude.{String, ◌≡◌, refl, Bool, Option, none, some, List}
use damaru_server.Database.{AccountEmulator, EmulatorConnection, Account, User, ActivityLog, Db}
use damaru_server.Database.Repositories.{Repositories}
use damaru_server.Database.Statements.{
  saved, saved_rows, insert_log, update_log, delete_log, insert_account, update_account,
  insert_user, update_user, upsert_assignment, insert_connection, update_connection,
}
use damaru_server.Database.{Role, Encryption}
use damaru_server.Database.Statements.{insert_role, insert_encryption, update_encryption}
use damaru_server.Emulators.Links.Kept.{KeepsLinks, KeepsLinks-refl, same-KeepsLinks}

-- A statement on another table.
saved-KeepsLinks :
    {A Row : Type 0} (o : Option (A × List Row)) (put : List Row → Db) (db : Db)
    → ((rows : List Row) → (put rows).emulators ≡ db.emulators)
    → ((rows : List Row) → (put rows).user_emulators ≡ db.user_emulators)
    → KeepsLinks db (saved o put db).1
saved-KeepsLinks none put db e l = KeepsLinks-refl db
saved-KeepsLinks (some (a, rows)) put db e l = same-KeepsLinks db (put rows) (e rows) (l rows)

saved_rows-KeepsLinks :
    {Row : Type 0} (o : Option (List Row)) (put : List Row → Db) (db : Db)
    → ((rows : List Row) → (put rows).emulators ≡ db.emulators)
    → ((rows : List Row) → (put rows).user_emulators ≡ db.user_emulators)
    → KeepsLinks db (saved_rows o put db).1
saved_rows-KeepsLinks none put db e l = KeepsLinks-refl db
saved_rows-KeepsLinks (some rows) put db e l = same-KeepsLinks db (put rows) (e rows) (l rows)

module _ (R : Repositories) (db : Db) where
  pub insert_log-KeepsLinks : (make : String → ActivityLog) → KeepsLinks db (insert_log R make db).1
  unfolding insert_log
  insert_log-KeepsLinks make = saved-KeepsLinks _ _ db (λ rows. refl) (λ rows. refl)

  pub update_log-KeepsLinks :
      (id : String) (f : ActivityLog → ActivityLog) → KeepsLinks db (update_log R id f db).1
  unfolding update_log
  update_log-KeepsLinks id f = saved-KeepsLinks _ _ db (λ rows. refl) (λ rows. refl)

  pub delete_log-KeepsLinks : (id : String) → KeepsLinks db (delete_log R id db).1
  unfolding delete_log
  delete_log-KeepsLinks id = saved_rows-KeepsLinks _ _ db (λ rows. refl) (λ rows. refl)

  pub insert_role-KeepsLinks : (make : String → Role) → KeepsLinks db (insert_role R make db).1
  unfolding insert_role
  insert_role-KeepsLinks make = saved-KeepsLinks _ _ db (λ rows. refl) (λ rows. refl)

  pub insert_encryption-KeepsLinks : (e : Encryption) → KeepsLinks db (insert_encryption R e db).1
  unfolding insert_encryption
  insert_encryption-KeepsLinks e = saved-KeepsLinks _ _ db (λ rows. refl) (λ rows. refl)

  pub update_encryption-KeepsLinks :
      (id : String) (f : Encryption → Encryption) → KeepsLinks db (update_encryption R id f db).1
  unfolding update_encryption
  update_encryption-KeepsLinks id f = saved-KeepsLinks _ _ db (λ rows. refl) (λ rows. refl)

  pub insert_account-KeepsLinks :
      (make : String → Account) → KeepsLinks db (insert_account R make db).1
  unfolding insert_account
  insert_account-KeepsLinks make = saved-KeepsLinks _ _ db (λ rows. refl) (λ rows. refl)

  pub update_account-KeepsLinks :
      (id : String) (f : Account → Account) → KeepsLinks db (update_account R id f db).1
  unfolding update_account
  update_account-KeepsLinks id f = saved-KeepsLinks _ _ db (λ rows. refl) (λ rows. refl)

  pub insert_user-KeepsLinks : (make : String → User) → KeepsLinks db (insert_user R make db).1
  unfolding insert_user
  insert_user-KeepsLinks make = saved-KeepsLinks _ _ db (λ rows. refl) (λ rows. refl)

  pub update_user-KeepsLinks :
      (id : String) (f : User → User) → KeepsLinks db (update_user R id f db).1
  unfolding update_user
  update_user-KeepsLinks id f = saved-KeepsLinks _ _ db (λ rows. refl) (λ rows. refl)

  pub upsert_assignment-KeepsLinks :
      (p : AccountEmulator → Bool) (f : AccountEmulator → AccountEmulator)
      (make : String → AccountEmulator)
      → KeepsLinks db (upsert_assignment R p f make db).1
  unfolding upsert_assignment
  upsert_assignment-KeepsLinks p f make = saved_rows-KeepsLinks _ _ db (λ rows. refl) (λ rows. refl)

  pub insert_connection-KeepsLinks :
      (make : String → EmulatorConnection) → KeepsLinks db (insert_connection R make db).1
  unfolding insert_connection
  insert_connection-KeepsLinks make = saved-KeepsLinks _ _ db (λ rows. refl) (λ rows. refl)

  pub update_connection-KeepsLinks :
      (id : String) (f : EmulatorConnection → EmulatorConnection)
      → KeepsLinks db (update_connection R id f db).1
  unfolding update_connection
  update_connection-KeepsLinks id f = saved-KeepsLinks _ _ db (λ rows. refl) (λ rows. refl)
