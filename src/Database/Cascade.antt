-- ===== src/Database/Cascade.antt =====
-- What the deletion of a user takes with it.
use damaru_server.Prelude.{
  String, ◌≡◌, ◌≢◌, ap, ◌∙◌, none, some, List, ◌==◌, arith, eq_iff, Option-cases, inl, inr,
}
use damaru_server.Prelude.Exec.{ok}
use damaru_server.Repository.{lookup, unless, lookup-key}
use damaru_server.Database.{User, Account, UserEmulator, Db}
use damaru_server.Database.Repositories.{
  Repositories, user_at, account_at, link_at, user_key, account_key, link_key,
}
use damaru_server.Database.Statements.{
  orphan_account, orphan_link, orphan_assignment, prune_assignments, prune_links, prune_accounts,
  delete_user,
}
use damaru_server.Database.Effects.{prune_connections-eq-some, saved_all-eq-ok}

-- No row of the user, and no account and no link of it.
pub record IsGone (id : String) (db : Db) : Type 0 where
  pub user : user_at db id ≡ none
  pub account : (k : String) (a : Account) → account_at db k ≡ some a → a.user ≢ id
  pub link : (k : String) (u : UserEmulator) → link_at db k ≡ some u → u.user ≢ id

module _ (R : Repositories) where
  pub prune_assignments-eq-some :
      (db t : Db)
      → prune_assignments R db ≡ some t
      → (t.emulators ≡ db.emulators)
        × (t.users ≡ db.users)
        × (t.accounts ≡ db.accounts)
        × (t.user_emulators ≡ db.user_emulators)
  unfolding prune_assignments
  prune_assignments-eq-some db t e =
      elim (Option-cases (R.account_emulator.delete (orphan_assignment db) db)) [
        | inl refused ↦ absurd (ground arith)
        | inr (rows, q) ↦
            let (left, same) =
              prune_connections-eq-some R (record db { account_emulators = rows })
                (rw (q, prune_assignments) at e) in
            (
              ap (λ (d : Db). d.emulators) same,
              ap (λ (d : Db). d.users) same,
              ap (λ (d : Db). d.accounts) same,
              ap (λ (d : Db). d.user_emulators) same,
            )
      ]

  pub prune_links-eq-some :
      (db t : Db)
      → prune_links R db ≡ some t
      → (t.emulators ≡ db.emulators)
        × (t.users ≡ db.users)
        × (t.accounts ≡ db.accounts)
        × ((k : String) → link_at t k ≡ unless (orphan_link db) (link_at db k))
  unfolding prune_links
  prune_links-eq-some db t e = elim (Option-cases (R.user_emulator.delete (orphan_link db) db)) [
    | inl refused ↦ absurd (ground arith)
    | inr (rows, q) ↦
        let (emulators, users, accounts, links) =
          prune_assignments-eq-some (record db { user_emulators = rows }) t
            (rw (q, prune_links) at e) in
        (
          emulators,
          users,
          accounts,
          λ k.
              ap (λ (l : List UserEmulator). lookup link_key k l) links
              ∙ R.user_emulator.lookup-delete (orphan_link db) db rows q k,
        )
  ]

  prune_accounts-eq-some :
      (db t : Db)
      → prune_accounts R db ≡ some t
      → (t.emulators ≡ db.emulators)
        × (t.users ≡ db.users)
        × ((k : String) → account_at t k ≡ unless (orphan_account db) (account_at db k))
        × ((k : String) → link_at t k ≡ unless (orphan_link db) (link_at db k))
  unfolding prune_accounts
  prune_accounts-eq-some db t e = elim (Option-cases (R.account.delete (orphan_account db) db)) [
    | inl refused ↦ absurd (ground arith)
    | inr (rows, q) ↦
        let (emulators, users, accounts, links) =
          prune_links-eq-some (record db { accounts = rows }) t (rw (q, prune_accounts) at e) in
        (
          emulators,
          users,
          λ k.
              ap (λ (l : List Account). lookup account_key k l) accounts
              ∙ R.account.lookup-delete (orphan_account db) db rows q k,
          links,
        )
  ]

  deleted :
      (id : String) (db : Db) (rows : List User)
      → R.user.delete (λ u. u.id == id) db ≡ some rows
      → lookup user_key id rows ≡ none
  deleted id db rows q = elim (Option-cases (user_at db id)) [
    | inl missing ↦ ground (arith, R.user.lookup-delete (λ u. u.id == id) db rows q id, missing)
    | inr (u, at) ↦ ground (
      arith,
      R.user.lookup-delete (λ u. u.id == id) db rows q id,
      at,
      lookup-key user_key id db.users at,
      eq_iff u.id id,
    )
  ]

  -- Deleting a user deletes its accounts and its links, and no device; the links that are left are as
  -- before.
  pub delete_user-IsGone :
      (id : String) (db t : Db)
      → delete_user R id db ≡ (ok tt, t)
      → IsGone id t
        × (t.emulators ≡ db.emulators)
        × ((k : String) (u : UserEmulator) → link_at t k ≡ some u → link_at db k ≡ some u)
  unfolding delete_user
  delete_user-IsGone id db t e = elim (Option-cases (R.user.delete (λ u. u.id == id) db)) [
    | inl refused ↦ absurd (ground arith)
    | inr (rows, q) ↦
        let s : Db = record db { users = rows } in
        let (emulators, users, accounts, links) =
          prune_accounts-eq-some s t
            (saved_all-eq-ok R (prune_accounts R s) db (rw (q, delete_user) at e)) in
        let gone : user_at s id ≡ none = deleted id db rows q in
        (
          record {
            user = ap (λ (l : List User). lookup user_key id l) users ∙ gone;
            account = λ k a at mine. ground (arith, accounts k, at, gone, eq_iff a.user id, mine);
            link = λ k u at mine. ground (arith, links k, at, gone, eq_iff u.user id, mine);
          },
          emulators,
          λ k u at. ground (arith, links k, at),
        )
  ]
