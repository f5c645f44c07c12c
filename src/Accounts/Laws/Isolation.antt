-- ===== src/Accounts/Laws/Isolation.antt =====
-- The accounts of other users (modules/accounts/services/account.service.ts).
use damaru_server.Prelude.{
  String, ◌≡◌, ◌≢◌, refl, sym, ap, ◌∙◌, true, false, ◌&&◌, not, Option, none, some, List, ◌==◌,
  arith, eq_iff, Option-cases, Bool-cases, inl, inr, eq_true, true_eq, Bool,
}
use damaru_server.Prelude.Exec.{Result, ok, err, query_failed, continue, pure, ◌>>◌}
use damaru_server.Repository.{lookup, lookup-key, unless, revise}
use damaru_server.Repository.Keys.{find_one-key}
use damaru_server.Token.{JwtToken, super_admin, role_name, has_role}
use damaru_server.Environment.{Environment}
use damaru_server.Database.{Account, Db, is_null}
use damaru_server.Database.Repositories.{Repositories, account_key, account_at}
use damaru_server.Database.Statements.{
  insert_account, update_account, delete_account, prune_assignments, saved_all,
}
use damaru_server.Database.Accounts.{prune_assignments-accounts}
use damaru_server.Accounts.{
  CreateAccountDto, UpdateAccountDto, UpdateFields, new_account, insert_new, is_true, is_empty,
  is_admin_of, create, pin_fields, write_fields, may_update, may_remove, update_found, update,
  remove_found, remove, find_user_by_account, has_pin_of, or_else, non_empty, created_account,
}

abbrev hide : String → Option Account → Option Account
hide user = unless (λ a. a.user == user)

-- The account of the key `k`, if it is not the user's own.
abbrev pub others : String → Db → String → Option Account
others user db k = hide user (account_at db k)

continue-pure :
    {A B : Type 0} (r : Result A × Db) (f : A → B) → (continue r (λ a. pure (f a))).1 ≡ r.1
continue-pure (ok a, t) f = refl
continue-pure (err e, t) f = refl

revise_none : (f : Account → Account) (o : Option Account) → revise false f o ≡ o
revise_none f none = refl
revise_none f (some a) = refl

-- To hide a row that is hidden anyway changes nothing.
unless_twice :
    (p q : Account → Bool) (o : Option Account)
    → ((a : Account) → o ≡ some a → q a ≡ true → p a ≡ true)
    → unless p (unless q o) ≡ unless p o
unless_twice p q none h = refl
unless_twice p q (some a) h = elim (Bool-cases (q a)) [
  | inr out ↦ rw out refl
  | inl hit ↦ rw hit (rw (h a refl hit) refl)
]

module _ (R : Repositories) where
  pin_fields-state :
      (env : Environment) (owner : String) (name pin : Option String) (db : Db)
      → (pin_fields R env owner name pin db).1 ≡ db
  unfolding pin_fields
  pin_fields-state env owner name none db = refl
  pin_fields-state env owner name (some pin) db =
      elim (Bool-cases (is_null (R.account.find_one (has_pin_of owner pin) db))) [
        | inl free ↦ rw free
        | inr taken ↦ rw taken
      ]

  module _ (user k : String) (db : Db) where
    insert-keeps :
        (make : String → Account)
        → ((id : String) → (make id).user ≡ user)
        → others user (insert_account R make db).1 k ≡ others user db k
    unfolding insert_account
    insert-keeps make own = elim (Option-cases (R.account.insert make db)) [
      | inl refused ↦ rw refused refl
      | inr ((id, rows), q) ↦
          let (free, _, _) = R.account.insert-free make db id rows q in
          rw q (
            ap (hide user) (R.account.lookup-insert make db id rows q k)
            ∙ elim (Bool-cases (id == k)) [
              | inr other ↦ rw other refl
              | inl same ↦ rw same (
                  rw (eq_true (own id))
                    (ap (hide user) (sym free ∙ ap (account_at db) (true_eq same))))
            ])
    ]

    update-keeps :
        (env : Environment) (id : String) (f : UpdateFields) (b : Account)
        → account_at db id ≡ some b
        → b.user ≡ user
        → others user (update_account R id (write_fields env f) db).1 k ≡ others user db k
    unfolding update_account write_fields
    update-keeps env id f b at own =
        elim (Option-cases (R.account.update id (write_fields env f) db)) [
          | inl refused ↦ rw refused refl
          | inr ((n, rows), q) ↦ rw q (
              ap (hide user)
                (R.account.lookup-update id (write_fields env f) db n rows (λ r. refl) q k)
              ∙ elim (Bool-cases (id == k)) [
                | inr other ↦
                    rw other (ap (hide user) (revise_none (write_fields env f) (account_at db k)))
                | inl same ↦ rw same (
                    let here : account_at db k ≡ some b =
                      ap (account_at db) (sym (true_eq same)) ∙ at in
                    rw here (rw (eq_true own) refl))
              ])
        ]

    saved-keeps :
        (rows : List Account) (o : Option Db)
        → others user (record db { accounts = rows }) k ≡ others user db k
        → ((t : Db) → o ≡ some t → t.accounts ≡ rows)
        → others user (saved_all o db).1 k ≡ others user db k
    saved-keeps rows none hidden same = refl
    saved-keeps rows (some t) hidden same =
        ap (λ (l : List Account). hide user (lookup account_key k l)) (same t refl) ∙ hidden

    delete-keeps :
        (id : String)
        → ((b : Account) → account_at db id ≡ some b → b.user ≡ user)
        → others user (delete_account R id db).1 k ≡ others user db k
    unfolding delete_account
    delete-keeps id own = elim (Option-cases (R.account.delete (λ b. b.id == id) db)) [
      | inl refused ↦
          let same : delete_account R id db ≡ (err query_failed, db) = ground arith in
          ap (λ (x : Result (Unit {0}) × Db). others user x.1 k) same
      | inr (rows, q) ↦
          let rest : Db = record db { accounts = rows } in
          let same : delete_account R id db ≡ saved_all (prune_assignments R rest) db =
            ground arith in
          let hidden : others user rest k ≡ others user db k =
            ap (hide user) (R.account.lookup-delete (λ b. b.id == id) db rows q k)
            ∙ unless_twice (λ a. a.user == user) (λ b. b.id == id) (account_at db k)
                (λ b at hit. ground (
                  arith,
                  own b,
                  at,
                  hit,
                  eq_iff b.id id,
                  eq_iff b.user user,
                  lookup-key account_key k db.accounts at,
                )) in
          ap (λ (x : Result (Unit {0}) × Db). others user x.1 k) same
          ∙ saved-keeps rows (prune_assignments R rest) hidden (prune_assignments-accounts R rest)
    ]

    pub create-keeps :
        (env : Environment) (pin : String) (dto : CreateAccountDto)
        → dto.user_id ≡ user
        → others user (create R env pin dto db).1 k ≡ others user db k
    unfolding create insert_new new_account
    create-keeps env pin dto own =
        elim (Bool-cases
          (is_true dto.is_admin && not (is_empty (R.account.find (is_admin_of dto.user_id) db)))) [
            | inl refused ↦ rw refused refl
            | inr free ↦ rw free (
                ap (λ (t : Db). others user t k)
                  (continue-pure (insert_account R (new_account env dto (or_else dto.pin pin)) db)
                    (created_account dto (or_else dto.pin pin)))
                ∙ insert-keeps (new_account env dto (or_else dto.pin pin)) (λ id. own))
          ]

    written-keeps :
        (env : Environment) (id : String) (b : Account) (r : Result UpdateFields × Db)
        → account_at db id ≡ some b
        → b.user ≡ user
        → r.1 ≡ db
        → others user (continue r (λ f. do update_account R id (write_fields env f); pure f)).1 k
          ≡ others user db k
    written-keeps env id b (err e, t) at own same = ap (λ (s : Db). others user s k) same
    written-keeps env id b (ok f, t) at own same =
        ap (λ (s : Db). others user s k)
          (continue-pure (update_account R id (write_fields env f) t) (λ _. f))
        ∙ ap (λ (s : Db). others user (update_account R id (write_fields env f) s).1 k) same
        ∙ update-keeps env id f b at own

    found-keeps :
        (env : Environment) (id : String) (dto : UpdateAccountDto) (jwt : JwtToken)
        (o : Option Account)
        → account_at db id ≡ o
        → ((b : Account) → may_update jwt b.user ≡ true → b.user ≡ user)
        → others user (update_found R env id dto jwt o db).1 k ≡ others user db k
    unfolding update_found
    found-keeps env id dto jwt none at own = refl
    found-keeps env id dto jwt (some b) at own = elim (Bool-cases (may_update jwt b.user)) [
      | inr forbidden ↦ rw forbidden refl
      | inl allowed ↦ rw allowed (
          written-keeps env id b
            (pin_fields R env b.user (non_empty dto.account_name) (non_empty dto.pin) db) at
            (own b allowed)
            (pin_fields-state env b.user (non_empty dto.account_name) (non_empty dto.pin) db))
    ]

    removed-keeps :
        (id : String) (jwt : JwtToken) (o : Option Account)
        → account_at db id ≡ o
        → ((b : Account) → may_remove jwt b.user id ≡ true → b.user ≡ user)
        → others user (remove_found R id jwt o db).1 k ≡ others user db k
    unfolding remove_found
    removed-keeps id jwt none at own = refl
    removed-keeps id jwt (some b) at own = elim (Bool-cases (may_remove jwt b.user id)) [
      | inr forbidden ↦ rw forbidden refl
      | inl allowed ↦
          rw allowed (delete-keeps id (λ c found. ground (arith, found, at, own b allowed)))
    ]

  module _ (jwt : JwtToken) (db : Db) (k : String) where
    pub update-others :
        (env : Environment) (id : String) (dto : UpdateAccountDto)
        → jwt.role ≢ role_name super_admin
        → others jwt.sub (update R env id dto jwt db).1 k ≡ others jwt.sub db k
    unfolding update find_user_by_account may_update
    update-others env id dto plain =
        let other : has_role jwt super_admin ≡ false =
          ground (arith, eq_iff jwt.role (role_name super_admin)) in
        found-keeps jwt.sub k db env id dto jwt (find_user_by_account R id db)
          (sym (find_one-key R.account id db))
          (λ b allowed. ground (arith, allowed, other, eq_iff b.user jwt.sub))

    pub remove-others :
        (id : String)
        → jwt.role ≢ role_name super_admin
        → others jwt.sub (remove R id jwt db).1 k ≡ others jwt.sub db k
    unfolding remove find_user_by_account may_remove
    remove-others id plain =
        let other : has_role jwt super_admin ≡ false =
          ground (arith, eq_iff jwt.role (role_name super_admin)) in
        removed-keeps jwt.sub k db id jwt (find_user_by_account R id db)
          (sym (find_one-key R.account id db))
          (λ b allowed. ground (arith, allowed, other, eq_iff b.user jwt.sub))
