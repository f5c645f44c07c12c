-- ===== src/Database/Accounts.antt =====
-- The cascades (src/modules/*/entities) and the accounts.
use damaru_server.Prelude.{◌≡◌, refl, Option, none, some, arith, Option-cases, inl, inr}
use damaru_server.Database.{Db}
use damaru_server.Database.Repositories.{Repositories}
use damaru_server.Database.Statements.{
  prune_connections, prune_assignments, prune_links, orphan_assignment, orphan_connection,
  orphan_link, saved_all,
}

pub saved_all-accounts :
    (o : Option Db) (db : Db)
    → ((t : Db) → o ≡ some t → t.accounts ≡ db.accounts)
    → (saved_all o db).1.accounts ≡ db.accounts
saved_all-accounts none db same = refl
saved_all-accounts (some t) db same = same t refl

module _ (R : Repositories) where
  pub prune_connections-accounts :
      (db t : Db) → prune_connections R db ≡ some t → t.accounts ≡ db.accounts
  unfolding prune_connections
  prune_connections-accounts db t e =
      elim (Option-cases (R.connection.delete (orphan_connection db) db)) [
        | inl refused ↦ absurd (ground arith)
        | inr (rows, q) ↦ ground arith
      ]

  pub prune_assignments-accounts :
      (db t : Db) → prune_assignments R db ≡ some t → t.accounts ≡ db.accounts
  unfolding prune_assignments
  prune_assignments-accounts db t e =
      elim (Option-cases (R.account_emulator.delete (orphan_assignment db) db)) [
        | inl refused ↦ absurd (ground arith)
        | inr (rows, q) ↦
            prune_connections-accounts (record db { account_emulators = rows }) t
              (rw (q, prune_assignments) at e)
      ]

  pub prune_links-accounts : (db t : Db) → prune_links R db ≡ some t → t.accounts ≡ db.accounts
  unfolding prune_links
  prune_links-accounts db t e = elim (Option-cases (R.user_emulator.delete (orphan_link db) db)) [
    | inl refused ↦ absurd (ground arith)
    | inr (rows, q) ↦
        prune_assignments-accounts (record db { user_emulators = rows }) t
          (rw (q, prune_links) at e)
  ]
