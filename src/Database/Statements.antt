-- ===== src/Database/Statements.antt =====
-- The statements that the services run on the database, as actions. A deleted row takes the rows
-- that refer to it with it, as the entities declare (`onDelete: 'CASCADE'`): an account goes with its
-- user, a link with its user or its device, an assignment with its account or its link, and a
-- connection with its assignment.
use damaru_server.Prelude.{ℕ, String, Bool, ◌||◌, Option, none, some, List, ◌==◌}
use damaru_server.Prelude.Exec.{Exec, Result, ok, err, query_failed}
use damaru_server.Database.{
  Emulator, UserEmulator, AccountEmulator, EmulatorConnection, Account, User, ActivityLog,
  Encryption, Role, Db, is_null,
}
use damaru_server.Database.Repositories.{
  Repositories, emulator_at, link_at, assignment_at, account_at, user_at,
}

-- The outcome of a statement: its value and the new rows, or an exception and no change.
abbrev pub saved : {A Row : Type 0} → Option (A × List Row) → (List Row → Db) → Db → Result A × Db
saved none put db = (err query_failed, db)
saved (some (a, rows)) put db = (ok a, put rows)

abbrev pub saved_rows :
    {Row : Type 0} → Option (List Row) → (List Row → Db) → Db → Result (Unit {0}) × Db
saved_rows none put db = (err query_failed, db)
saved_rows (some rows) put db = (ok tt, put rows)

abbrev pub saved_all : Option Db → Db → Result (Unit {0}) × Db
saved_all none db = (err query_failed, db)
saved_all (some new) db = (ok tt, new)

abbrev pub orphan_account : Db → Account → Bool
orphan_account db a = is_null (user_at db a.user)

abbrev pub orphan_link : Db → UserEmulator → Bool
orphan_link db u = is_null (user_at db u.user) || is_null (emulator_at db u.device)

abbrev pub orphan_assignment : Db → AccountEmulator → Bool
orphan_assignment db a = is_null (account_at db a.account) || is_null (link_at db a.user_emulator)

abbrev pub orphan_connection : Db → EmulatorConnection → Bool
orphan_connection db c = is_null (assignment_at db c.account_emulators)

module _ (R : Repositories) where
  unfoldable pub insert_emulator : Emulator → Exec Db String
  insert_emulator e db = saved (R.emulator.insert (λ _. e) db) (λ t. record db { emulators = t }) db

  unfoldable pub update_emulator : String → (Emulator → Emulator) → Exec Db ℕ
  update_emulator id f db = saved (R.emulator.update id f db) (λ t. record db { emulators = t }) db

  unfoldable pub insert_link : (String → UserEmulator) → Exec Db String
  insert_link make db =
      saved (R.user_emulator.insert make db) (λ t. record db { user_emulators = t }) db

  unfoldable pub update_link : String → (UserEmulator → UserEmulator) → Exec Db ℕ
  update_link id f db =
      saved (R.user_emulator.update id f db) (λ t. record db { user_emulators = t }) db

  unfoldable pub insert_assignment : (String → AccountEmulator) → Exec Db String
  insert_assignment make db =
      saved (R.account_emulator.insert make db) (λ t. record db { account_emulators = t }) db

  unfoldable pub upsert_assignment :
      (AccountEmulator → Bool)
      → (AccountEmulator → AccountEmulator)
      → (String → AccountEmulator)
      → Exec Db (Unit {0})
  upsert_assignment p f make db =
      saved_rows (R.account_emulator.upsert p f make db) (λ t. record db { account_emulators = t })
        db

  unfoldable pub insert_connection : (String → EmulatorConnection) → Exec Db String
  insert_connection make db =
      saved (R.connection.insert make db) (λ t. record db { emulator_connections = t }) db

  unfoldable pub update_connection : String → (EmulatorConnection → EmulatorConnection) → Exec Db ℕ
  update_connection id f db =
      saved (R.connection.update id f db) (λ t. record db { emulator_connections = t }) db

  unfoldable pub insert_account : (String → Account) → Exec Db String
  insert_account make db = saved (R.account.insert make db) (λ t. record db { accounts = t }) db

  unfoldable pub update_account : String → (Account → Account) → Exec Db ℕ
  update_account id f db = saved (R.account.update id f db) (λ t. record db { accounts = t }) db

  unfoldable pub insert_user : (String → User) → Exec Db String
  insert_user make db = saved (R.user.insert make db) (λ t. record db { users = t }) db

  unfoldable pub update_user : String → (User → User) → Exec Db ℕ
  update_user id f db = saved (R.user.update id f db) (λ t. record db { users = t }) db

  unfoldable pub insert_log : (String → ActivityLog) → Exec Db String
  insert_log make db =
      saved (R.activity_log.insert make db) (λ t. record db { activity_logs = t }) db

  unfoldable pub update_log : String → (ActivityLog → ActivityLog) → Exec Db ℕ
  update_log id f db =
      saved (R.activity_log.update id f db) (λ t. record db { activity_logs = t }) db

  unfoldable pub delete_log : String → Exec Db (Unit {0})
  delete_log id db =
      saved_rows (R.activity_log.delete (λ l. l.id == id) db) (λ t. record db { activity_logs = t })
        db

  unfoldable pub insert_role : (String → Role) → Exec Db String
  insert_role make db = saved (R.role.insert make db) (λ t. record db { roles = t }) db

  unfoldable pub insert_encryption : Encryption → Exec Db String
  insert_encryption e db =
      saved (R.encryption.insert (λ _. e) db) (λ t. record db { encryptions = t }) db

  unfoldable pub update_encryption : String → (Encryption → Encryption) → Exec Db ℕ
  update_encryption id f db =
      saved (R.encryption.update id f db) (λ t. record db { encryptions = t }) db

  -- The cascade, from the rows that refer to others down to those that nothing refers to.
  unfoldable pub prune_connections : Db → Option Db
  prune_connections db = elim (R.connection.delete (orphan_connection db) db) [
    | none ↦ none
    | some t ↦ some (record db { emulator_connections = t })
  ]

  unfoldable pub prune_assignments : Db → Option Db
  prune_assignments db = elim (R.account_emulator.delete (orphan_assignment db) db) [
    | none ↦ none
    | some t ↦ prune_connections (record db { account_emulators = t })
  ]

  unfoldable pub prune_links : Db → Option Db
  prune_links db = elim (R.user_emulator.delete (orphan_link db) db) [
    | none ↦ none
    | some t ↦ prune_assignments (record db { user_emulators = t })
  ]

  unfoldable pub prune_accounts : Db → Option Db
  prune_accounts db = elim (R.account.delete (orphan_account db) db) [
    | none ↦ none
    | some t ↦ prune_links (record db { accounts = t })
  ]

  unfoldable pub delete_assignments : (AccountEmulator → Bool) → Exec Db (Unit {0})
  unfolding prune_connections
  delete_assignments p db = elim (R.account_emulator.delete p db) [
    | none ↦ (err query_failed, db)
    | some t ↦ saved_all (prune_connections (record db { account_emulators = t })) db
  ]

  unfoldable pub delete_emulator : String → Exec Db (Unit {0})
  unfolding prune_links prune_assignments prune_connections
  delete_emulator id db = elim (R.emulator.delete (λ e. e.device_id == id) db) [
    | none ↦ (err query_failed, db)
    | some t ↦ saved_all (prune_links (record db { emulators = t })) db
  ]

  unfoldable pub delete_account : String → Exec Db (Unit {0})
  unfolding prune_assignments prune_connections
  delete_account id db = elim (R.account.delete (λ a. a.id == id) db) [
    | none ↦ (err query_failed, db)
    | some t ↦ saved_all (prune_assignments (record db { accounts = t })) db
  ]

  unfoldable pub delete_user : String → Exec Db (Unit {0})
  unfolding prune_accounts prune_links prune_assignments prune_connections
  delete_user id db = elim (R.user.delete (λ u. u.id == id) db) [
    | none ↦ (err query_failed, db)
    | some t ↦ saved_all (prune_accounts (record db { users = t })) db
  ]
