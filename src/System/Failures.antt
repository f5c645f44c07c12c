-- ===== src/System/Failures.antt =====
-- Which requests throw no TypeError.
pub mod Requests
pub mod Assignments
pub mod Serving
use mathlib.Core.Path.{subst}
use damaru_server.Prelude.{
  ℕ, String, ◌≡◌, ◌≢◌, refl, sym, ap, ◌∙◌, Bool, true, false, ◌&&◌, Option, none, some, List, [],
  ◌∷◌, ◌==◌, if◌then◌else◌, arith, eq_iff, Option-cases, Bool-cases, inl, inr,
}
use damaru_server.Prelude.Exec.{
  Exec, Exception, Result, ok, err, type_error, query_failed, continue, continue-keeps, for_each,
  non_null, when_some,
}
use damaru_server.Environment.{Environment, today}
use damaru_server.Database.{Account, AccountEmulator, UserEmulator, registered, available, Db}
use damaru_server.Database.Repositories.{Repositories, account_at, account_key}
use damaru_server.Repository.{lookup}
use damaru_server.Database.Statements.{
  saved, saved_rows, saved_all, insert_link, update_link, insert_assignment, update_emulator,
  delete_assignments, prune_connections,
}
use damaru_server.Accounts.{find_root_account, is_admin_of}
use damaru_server.Emulators.Links.{
  MultiDevicesLinkDto, ExtendExpiryDto, new_link, root_assignment, set_state, end_link,
  find_registered, register, link_device, link_emulator, links, links_now, close_link,
  unlink_device, unlink_emulator, extend,
}

-- The run throws no TypeError.
abbrev pub IsTyped : {S A : Type 0} → Result A × S → Type 0
IsTyped r = r.0 ≢ err type_error

pub continue-IsTyped :
    {S A B : Type 0} (r : Result A × S) (f : A → S → Result B × S)
    → IsTyped r
    → ((a : A) (s : S) → r ≡ (ok a, s) → IsTyped (f a s))
    → IsTyped (continue r f)
continue-IsTyped (ok a, s) f h next = next a s refl
continue-IsTyped (err e, s) f h next = λ q. let same : e ≡ type_error = cc in h (ap err same)

pub saved-IsTyped :
    {A Row : Type 0} (o : Option (A × List Row)) (put : List Row → Db) (db : Db)
    → IsTyped (saved o put db)
saved-IsTyped none put db e = cc
saved-IsTyped (some x) put db e = cc

pub saved_rows-IsTyped :
    {Row : Type 0} (o : Option (List Row)) (put : List Row → Db) (db : Db)
    → IsTyped (saved_rows o put db)
saved_rows-IsTyped none put db e = cc
saved_rows-IsTyped (some x) put db e = cc

pub saved_all-IsTyped : (o : Option Db) (db : Db) → IsTyped (saved_all o db)
saved_all-IsTyped none db e = cc
saved_all-IsTyped (some x) db e = cc

-- A loop whose rounds keep `P`
pub for_each-IsTyped :
    {A : Type 0} (P : Db → Type 0) (f : A → Exec Db (Unit {0}))
    → ((x : A) (s : Db) → P s → IsTyped (f x s))
    → ((x : A) (s : Db) → P s → P (f x s).1)
    → (xs : List A) (s : Db) → P s
    → IsTyped (for_each f xs s)
unfolding for_each
for_each-IsTyped P f typed keep [] s p = λ e. cc
for_each-IsTyped P f typed keep (x ∷ xs) s p = continue-IsTyped (f x s) _ (typed x s p) (λ u t e.
    for_each-IsTyped P f typed keep xs t
      (subst P (ap (λ (r : Result (Unit {0}) × Db). r.1) e) (keep x s p)))

-- The user has an admin account.
pub record HasAdmin (user : String) (db : Db) : Type 0 where
  pub key : String
  pub row : Account
  pub stored : account_at db key ≡ some row
  pub admin : is_admin_of user row ≡ true

HasAdmin-same :
    (user : String) (db t : Db) → t.accounts ≡ db.accounts → HasAdmin user db → HasAdmin user t
HasAdmin-same user db t same h = record {
  key = h.key;
  row = h.row;
  stored = ap (λ (l : List Account). lookup account_key h.key l) same ∙ h.stored;
  admin = h.admin;
}

-- The accounts are those of `db`.
abbrev SameAccounts : Db → Db → Type 0
SameAccounts db t = t.accounts ≡ db.accounts

saved-SameAccounts :
    {A Row : Type 0} (o : Option (A × List Row)) (put : List Row → Db) (db s : Db)
    → SameAccounts db s
    → ((rows : List Row) → SameAccounts db (put rows))
    → SameAccounts db (saved o put s).1
saved-SameAccounts none put db s h k = h
saved-SameAccounts (some (a, rows)) put db s h k = k rows

module _ (R : Repositories) (env : Environment) where
  root_found :
      (user : String) (db : Db)
      → HasAdmin user db
      → (a : Account) × (find_root_account R user db ≡ some a)
  unfolding find_root_account
  root_found user db h = elim (Option-cases (R.account.find_one (is_admin_of user) db)) [
    | inr (a, found) ↦ (a, found)
    | inl missing ↦ absurd (
        ground (
          arith,
          R.account.find_one-complete (is_admin_of user) db h.key h.row missing h.stored,
          h.admin,
        ))
  ]

  link_inserted-SameAccounts :
      (user device : String) (db : Db)
      → SameAccounts db (insert_link R (new_link env user device) db).1
  unfolding insert_link
  link_inserted-SameAccounts user device db = saved-SameAccounts _ _ db db refl (λ rows. refl)

  inserted-IsTyped :
      (user device : String) (db : Db) → IsTyped (insert_link R (new_link env user device) db)
  unfolding insert_link
  inserted-IsTyped user device db = saved-IsTyped _ _ db

  assigned-IsTyped :
      (link device : String) (a : Account) (db : Db)
      → let last = λ (s : Db).
        continue (update_emulator R device (set_state registered) s) (λ _ t. (ok tt, t)) in
        let r : Result (Unit {0}) × Db =
          continue (insert_assignment R (root_assignment link a) db) (λ _. last) in
        IsTyped r × SameAccounts db r.1
  unfolding insert_assignment update_emulator
  assigned-IsTyped link device a db = (
    continue-IsTyped (insert_assignment R (root_assignment link a) db) _ (saved-IsTyped _ _ db)
        (λ _ s _.
          continue-IsTyped (update_emulator R device (set_state registered) s) _
            (saved-IsTyped _ _ s) (λ _ t _ e. cc)),
    continue-keeps (SameAccounts db) (insert_assignment R (root_assignment link a) db) _
        (saved-SameAccounts _ _ db db refl (λ rows. refl))
        (λ _ s h.
          continue-keeps (SameAccounts db) (update_emulator R device (set_state registered) s) _
            (saved-SameAccounts _ _ db s h (λ rows. h)) (λ _ t k. k)),
  )

  register-IsTyped :
      (user device : String) (db : Db)
      → HasAdmin user db
      → IsTyped (register R env user device db) × SameAccounts db (register R env user device db).1
  unfolding register
  register-IsTyped user device db h =
      let first = insert_link R (new_link env user device) db in
      let start = link_inserted-SameAccounts user device db in
      (
        continue-IsTyped first _ (inserted-IsTyped user device db) (λ link s e.
            let same = subst (λ (r : Result String × Db). SameAccounts db r.1) e start in
            let (a, found) = root_found user s (HasAdmin-same user db s same h) in
            rw found ((assigned-IsTyped link device a s).0)),
        continue-keeps (SameAccounts db) first _ start (λ link s same.
            let (a, found) = root_found user s (HasAdmin-same user db s same h) in
            rw found ((assigned-IsTyped link device a s).1 ∙ same)),
      )

  link_device-IsTyped :
      (user device : String) (db : Db)
      → HasAdmin user db
      → IsTyped (link_device R env user device db)
        × SameAccounts db (link_device R env user device db).1
  unfolding link_device
  link_device-IsTyped user device db h = elim (Option-cases (find_registered R device db)) [
    | inl free ↦ rw free (register-IsTyped user device db h)
    | inr (e, taken) ↦ rw taken (λ q. cc, refl)
  ]

  -- Linking for a user who has an admin account
  pub link_emulator-IsTyped :
      (dto : MultiDevicesLinkDto) (db : Db)
      → HasAdmin dto.user_id db
      → IsTyped (link_emulator R env dto db)
  unfolding link_emulator
  link_emulator-IsTyped dto db h =
      for_each-IsTyped (HasAdmin dto.user_id) (link_device R env dto.user_id)
        (λ device s k. (link_device-IsTyped dto.user_id device s k).0)
        (λ device s k.
          HasAdmin-same dto.user_id s _ (link_device-IsTyped dto.user_id device s k).1 k)
        dto.device_ids db h

  delete_assignments-IsTyped :
      (p : AccountEmulator → Bool) (db : Db) → IsTyped (delete_assignments R p db)
  unfolding delete_assignments
  delete_assignments-IsTyped p db = elim (Option-cases (R.account_emulator.delete p db)) [
    | inl refused ↦ rw (refused, delete_assignments) (λ q. cc)
    | inr (t, gone) ↦ rw (gone, delete_assignments) (saved_all-IsTyped _ db)
  ]

  close_link-IsTyped :
      (device : String) (u : UserEmulator) (db : Db) → IsTyped (close_link R env device u db)
  unfolding close_link update_link update_emulator
  close_link-IsTyped device u db =
      continue-IsTyped (update_link R u.id (end_link (today env)) db) _ (saved-IsTyped _ _ db)
        (λ _ s _.
          continue-IsTyped (delete_assignments R (λ a. a.user_emulator == u.id) s) _
            (delete_assignments-IsTyped _ s)
            (λ _ t _.
              continue-IsTyped (update_emulator R device (set_state available) t) _
                (saved-IsTyped _ _ t) (λ _ v _ e. cc)))

  unlink_device-IsTyped :
      (user device : String) (db : Db) → IsTyped (unlink_device R env user device db)
  unfolding unlink_device
  unlink_device-IsTyped user device db =
      elim (Option-cases (R.user_emulator.find_one (links_now user device) db)) [
        | inl missing ↦ rw missing (λ q. cc)
        | inr (u, found) ↦ rw found (close_link-IsTyped device u db)
      ]

  pub unlink_emulator-IsTyped :
      (dto : MultiDevicesLinkDto) (db : Db) → IsTyped (unlink_emulator R env dto db)
  unfolding unlink_emulator
  unlink_emulator-IsTyped dto db =
      for_each-IsTyped (λ _. Unit) (unlink_device R env dto.user_id)
        (λ device s _. unlink_device-IsTyped dto.user_id device s) (λ device s _. tt) dto.device_ids
        db tt

  pub extend-IsTyped : (dto : ExtendExpiryDto) (db : Db) → IsTyped (extend R env dto db)
  unfolding extend update_link
  extend-IsTyped dto db =
      elim (Option-cases (R.user_emulator.find_one (links dto.user_id dto.device_id) db)) [
        | inl missing ↦ rw missing (λ q. cc)
        | inr (u, found) ↦
            rw found
              (continue-IsTyped (update_link R u.id _ db) _ (saved-IsTyped _ _ db) (λ _ t _ e. cc))
      ]
