-- ===== src/Accounts/Laws/Pins.antt =====
-- The PINs and the admin accounts of a user.
use mathlib.Core.List.{Memᴰ}
use damaru_server.Prelude.{
  String, ◌≡◌, refl, sym, ap, ◌∙◌, inl, inr, true, false, ◌&&◌, none, some, List, [], ◌∷◌, ◌==◌,
  if◌then◌else◌, arith, eq_iff, Option-cases, Bool-cases, not,
}
use damaru_server.Prelude.Exec.{ok, continue-eq-ok}
use damaru_server.Token.{JwtToken}
use damaru_server.Environment.{Environment}
use damaru_server.Database.{Account, Db}
use damaru_server.Database.Repositories.{Repositories, account_at}
use damaru_server.Database.Statements.{insert_account}
use damaru_server.Database.Effects.{account_inserted}
use damaru_server.Accounts.{
  CreateAccountDto, CreatedAccount, UpdateAccountDto, UpdateFields, write_fields, new_account,
  created_account, insert_new, is_empty, create, update, is_admin_of, is_true, or_else,
}
use damaru_server.Accounts.Laws.{update-IsUpdated}

-- No two accounts of a user have one PIN.
abbrev pub PinsDistinct : Db → Type 0
PinsDistinct db =
    (j k : String) (a b : Account)
    → account_at db j ≡ some a
    → account_at db k ≡ some b
    → a.user ≡ b.user
    → a.pin ≡ b.pin
    → j ≡ k

-- No user has two admin accounts.
abbrev pub AdminsDistinct : Db → Type 0
AdminsDistinct db =
    (j k : String) (a b : Account)
    → account_at db j ≡ some a
    → account_at db k ≡ some b
    → a.is_admin ≡ true
    → b.is_admin ≡ true
    → a.user ≡ b.user
    → j ≡ k

-- A request for a plain account of the same user, with the PIN of `a`.
abbrev pub same_pin : String → Account → CreateAccountDto
same_pin name a = record {
  account_name = name;
  user_id = a.user;
  pin = some a.pin;
  is_admin = none;
}

module _ (R : Repositories) (env : Environment) where
  -- An update that succeeds keeps the PINs of a user distinct.
  pub update-PinsDistinct :
      (id : String) (dto : UpdateAccountDto) (jwt : JwtToken) (fields : UpdateFields) (db t : Db)
      → PinsDistinct db
      → update R env id dto jwt db ≡ (ok fields, t)
      → PinsDistinct t
  unfolding write_fields
  update-PinsDistinct id dto jwt fields db t h e j k a b at_j at_k owner pin =
      let r = update-IsUpdated R env id dto jwt fields db t e in
      elim (Option-cases (account_at db j)) [
        | inl missing ↦ absurd (ground (arith, r.accounts_after j, at_j, missing))
        | inr (a0, old_j) ↦ elim (Option-cases (account_at db k)) [
          | inl missing ↦ absurd (ground (arith, r.accounts_after k, at_k, missing))
          | inr (b0, old_k) ↦ ground (
            arith,
            r.accounts_after j,
            r.accounts_after k,
            h j k a0 b0,
            r.stored,
            r.pin_free b0.pin k b0,
            r.pin_free a0.pin j a0,
            eq_iff id j,
            eq_iff id k,
            eq_iff b0.user r.account.user,
            eq_iff a0.user r.account.user,
            eq_iff a0.pin a0.pin,
            eq_iff b0.pin b0.pin,
          )
        ]
      ]

  -- An update that succeeds keeps one admin account at most for each user.
  update-AdminsDistinct :
      (id : String) (dto : UpdateAccountDto) (jwt : JwtToken) (fields : UpdateFields) (db t : Db)
      → AdminsDistinct db
      → update R env id dto jwt db ≡ (ok fields, t)
      → AdminsDistinct t
  unfolding write_fields
  update-AdminsDistinct id dto jwt fields db t h e j k a b at_j at_k admin_a admin_b owner =
      let r = update-IsUpdated R env id dto jwt fields db t e in
      elim (Option-cases (account_at db j)) [
        | inl missing ↦ absurd (ground (arith, r.accounts_after j, at_j, missing))
        | inr (a0, old_j) ↦ elim (Option-cases (account_at db k)) [
          | inl missing ↦ absurd (ground (arith, r.accounts_after k, at_k, missing))
          | inr (b0, old_k) ↦ ground (arith, r.accounts_after j, r.accounts_after k, h j k a0 b0)
        ]
      ]

  is_empty-mem :
      (accounts : List Account) (a : Account) → Memᴰ a accounts → is_empty accounts ≡ false
  is_empty-mem [] a m = elim m [ ]
  is_empty-mem (b ∷ rest) a m = refl

  insert_new-eq-ok :
      (random_pin : String) (dto : CreateAccountDto) (made : CreatedAccount) (db t : Db)
      → insert_new R env random_pin dto db ≡ (ok made, t)
      → (pin : String) × (id : String) × (account_at db id ≡ none)
        × ((k : String)
            → account_at t k
              ≡ (if id == k then some (new_account env dto pin id) else account_at db k))
  unfolding insert_new
  insert_new-eq-ok random_pin dto made db t e =
      let pin = or_else dto.pin random_pin in
      let (id, s, inserted, last) =
        continue-eq-ok (insert_account R (new_account env dto pin) db) _ made t e in
      let (rows, same, free, fits, law) =
        account_inserted R (new_account env dto pin) db inserted in
      (
        pin,
        id,
        free,
        λ k. ap (λ (d : Db). account_at d k) (sym (ap (λ x. x.1) last) ∙ same) ∙ law k,
      )

  pub create-eq-ok :
      (random_pin : String) (dto : CreateAccountDto) (made : CreatedAccount) (db t : Db)
      → create R env random_pin dto db ≡ (ok made, t)
      → ((is_true dto.is_admin && not (is_empty (R.account.find (is_admin_of dto.user_id) db)))
          ≡ false)
        × (insert_new R env random_pin dto db ≡ (ok made, t))
  unfolding create
  create-eq-ok random_pin dto made db t e =
      elim (Bool-cases
        (is_true dto.is_admin && not (is_empty (R.account.find (is_admin_of dto.user_id) db)))) [
          | inl refused ↦ absurd (ground arith)
          | inr free ↦ (free, rw (free, create) at e)
        ]

  -- If no admin account was found, no account is one.
  no_admin :
      (user : String) (db : Db) (k : String) (a : Account)
      → is_empty (R.account.find (is_admin_of user) db) ≡ true
      → account_at db k ≡ some a
      → is_admin_of user a ≡ false
  no_admin user db k a empty at = elim (Bool-cases (is_admin_of user a)) [
    | inr other ↦ other
    | inl admin ↦
        absurd
          (ground (arith, is_empty-mem _ a (R.account.find-mem (is_admin_of user) db k a at admin)))
  ]

  -- Creating an account that succeeds, as an admin account or not, keeps one admin account at most for
  -- each user.
  pub create-AdminsDistinct :
      (random_pin : String) (dto : CreateAccountDto) (made : CreatedAccount) (db t : Db)
      → AdminsDistinct db
      → create R env random_pin dto db ≡ (ok made, t)
      → AdminsDistinct t
  unfolding new_account
  create-AdminsDistinct random_pin dto made db t h e j k a b at_j at_k admin_a admin_b owner =
      let (free, inserted) = create-eq-ok random_pin dto made db t e in
      let (pin, id, fresh, law) = insert_new-eq-ok random_pin dto made db t inserted in
      elim (Bool-cases (is_empty (R.account.find (is_admin_of dto.user_id) db))) [
        | inl empty ↦ ground (
          arith,
          law j,
          law k,
          h j k a b,
          no_admin dto.user_id db j a empty,
          no_admin dto.user_id db k b empty,
          eq_iff id j,
          eq_iff id k,
          eq_iff a.user dto.user_id,
          eq_iff b.user dto.user_id,
        )
        | inr some_admin ↦
            ground (arith, law j, law k, h j k a b, free, some_admin, eq_iff id j, eq_iff id k)
      ]

  -- Creating an account does not ask whether the PIN is in use: given the PIN of another account of
  -- the user, where the insertion succeeds, it leaves two accounts of the user with that PIN.
  pub create_shares_pin :
      (random_pin name : String) (a : Account) (id : String) (rows : List Account) (db : Db)
      → account_at db a.id ≡ some a
      → R.account.insert (new_account env (same_pin name a) a.pin) db ≡ some (id, rows)
      → (made : CreatedAccount) × (t : Db) × (create R env random_pin (same_pin name a) db
          ≡ (ok made, t))
        × (¬ PinsDistinct t)
  unfolding create insert_new insert_account new_account
  create_shares_pin random_pin name a id rows db stored inserted =
      let dto = same_pin name a in
      let t : Db = record db { accounts = rows } in
      let law = R.account.lookup-insert (new_account env dto a.pin) db id rows inserted in
      let (free, _, _) = R.account.insert-free (new_account env dto a.pin) db id rows inserted in
      (
        created_account dto a.pin id,
        t,
        rw inserted,
        λ distinct. ground (
          arith,
          distinct id a.id (new_account env dto a.pin id) a,
          law id,
          law a.id,
          eq_iff id id,
          eq_iff id a.id,
          free,
          stored,
        ),
      )
