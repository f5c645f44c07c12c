-- ===== src/Emulators/Links/Rounds.antt =====
-- What one round of `linkEmulator` and of `unlinkEmulator` does to the database, when it returns.
use mathlib.Core.Path.{subst}
use damaru_server.Prelude.{
  String, ℕ, ◌≡◌, refl, ap, ◌∙◌, true, none, some, List, ◌==◌, if◌then◌else◌, arith,
}
use damaru_server.Prelude.Exec.{ok, non_null, continue-eq-ok, last-eq-ok, non_null-eq-ok}
use damaru_server.Repository.{lookup, revise, unless}
use damaru_server.Environment.{Environment, today}
use damaru_server.Database.{
  Account, Emulator, UserEmulator, AccountEmulator, available, registered, Db,
}
use damaru_server.Database.Repositories.{
  Repositories, emulator_key, emulator_at, link_at, assignment_at, assignment_key, valid_link,
}
use damaru_server.Database.Statements.{
  insert_link, insert_assignment, update_emulator, update_link, delete_assignments,
}
use damaru_server.Database.Effects.{
  link_inserted, assignment_inserted, emulator_updated, link_updated, assignments_deleted,
}
use damaru_server.Accounts.{find_root_account}
use damaru_server.Emulators.Links.{
  new_link, root_assignment, register, set_state, end_link, close_link,
}

module _ (R : Repositories) (env : Environment) (user device : String) where
  -- A link that was registered: one new row, the device's state, and nothing else of the links and
  -- of the devices.
  pub record IsRegistered (db t : Db) : Type 0 where
    pub link : String
    pub free : link_at db link ≡ none
    pub valid : valid_link db (new_link env user device link) ≡ true
    pub links_after :
        (k : String)
        → link_at t k ≡ (if link == k then some (new_link env user device link) else link_at db k)
    pub devices_after :
        (k : String)
        → emulator_at t k ≡ revise (device == k) (set_state registered) (emulator_at db k)

  rows-IsRegistered :
      (admin : Account) (db : Db) {link aid : String} {n : ℕ} {db1 db2 t : Db}
      → insert_link R (new_link env user device) db ≡ (ok link, db1)
      → insert_assignment R (root_assignment link admin) db1 ≡ (ok aid, db2)
      → update_emulator R device (set_state registered) db2 ≡ (ok n, t)
      → IsRegistered db t
  rows-IsRegistered admin db {link} {db1} {db2} {t} e1 e2 e3 =
      let (links, same1, free, fits, links_law) =
        link_inserted R (new_link env user device) db e1 in
      let (assignments, same2, _, _, _) =
        assignment_inserted R (root_assignment link admin) db1 e2 in
      let (devices, same3, devices_law) =
        emulator_updated R device (set_state registered) db2 (λ r. refl) e3 in
      let after : t ≡ record db {
        user_emulators = links;
        account_emulators = assignments;
        emulators = devices;
      } =
        ground arith in
      let before : db2.emulators ≡ db.emulators = ground arith in
      record {
        link = link;
        free = free;
        valid = fits;
        links_after = λ k. ap (λ (d : Db). link_at d k) after ∙ links_law k;
        devices_after = λ k.
            ap (λ (d : Db). emulator_at d k) after
            ∙ devices_law k
            ∙ ap
                (λ (rows : List Emulator).
                  revise (device == k) (set_state registered) (lookup emulator_key k rows))
                before;
      }

  pub register-IsRegistered :
      (db t : Db) → register R env user device db ≡ (ok tt, t) → IsRegistered db t
  unfolding register
  register-IsRegistered db t e =
      let (link, db1, e1, r1) =
        continue-eq-ok (insert_link R (new_link env user device) db) _ tt t e in
      let (admin, db2, e2, r2) =
        continue-eq-ok (non_null (find_root_account R user db1) db1) _ tt t r1 in
      let (aid, db3, e3, r3) =
        continue-eq-ok (insert_assignment R (root_assignment link admin) db2) _ tt t r2 in
      let (n, e4) = last-eq-ok (update_emulator R device (set_state registered) db3) r3 in
      let (_, same) = non_null-eq-ok (find_root_account R user db1) db1 e2 in
      rows-IsRegistered admin db e1
        (subst (λ d. insert_assignment R (root_assignment link admin) d ≡ (ok aid, db3)) same e3) e4

-- A link that was closed: its row, its assignments, the device's state, and nothing else of the
-- three tables.
module _ (R : Repositories) (env : Environment) (device : String) (u : UserEmulator) where
  pub record IsClosed (db t : Db) : Type 0 where
    pub links_after :
        (k : String) → link_at t k ≡ revise (u.id == k) (end_link (today env)) (link_at db k)
    pub devices_after :
        (k : String)
        → emulator_at t k ≡ revise (device == k) (set_state available) (emulator_at db k)
    pub assignments_after :
        (k : String)
        → assignment_at t k ≡ unless (λ a. a.user_emulator == u.id) (assignment_at db k)

  pub rows-IsClosed :
      (db : Db) {m n : ℕ} {db1 db2 t : Db}
      → update_link R u.id (end_link (today env)) db ≡ (ok m, db1)
      → delete_assignments R (λ a. a.user_emulator == u.id) db1 ≡ (ok tt, db2)
      → update_emulator R device (set_state available) db2 ≡ (ok n, t)
      → IsClosed db t
  rows-IsClosed db {db1} {db2} {t} e1 e2 e3 =
      let (links, same1, links_law) =
        link_updated R u.id (end_link (today env)) db (λ r. refl) e1 in
      let (rows, left, same2, rows_law) =
        assignments_deleted R (λ a. a.user_emulator == u.id) db1 e2 in
      let (devices, same3, devices_law) =
        emulator_updated R device (set_state available) db2 (λ r. refl) e3 in
      let after : t ≡ record db {
        user_emulators = links;
        account_emulators = rows;
        emulator_connections = left;
        emulators = devices;
      } =
        ground arith in
      let before : db2.emulators ≡ db.emulators = ground arith in
      let assigned : db1.account_emulators ≡ db.account_emulators = ground arith in
      record {
        links_after = λ k. ap (λ (d : Db). link_at d k) after ∙ links_law k;
        devices_after = λ k.
            ap (λ (d : Db). emulator_at d k) after
            ∙ devices_law k
            ∙ ap
                (λ (es : List Emulator).
                  revise (device == k) (set_state available) (lookup emulator_key k es))
                before;
        assignments_after = λ k.
            ap (λ (d : Db). assignment_at d k) after
            ∙ rows_law k
            ∙ ap
                (λ (as' : List AccountEmulator).
                  unless (λ a. a.user_emulator == u.id) (lookup assignment_key k as'))
                assigned;
      }

  pub close_link-IsClosed : (db t : Db) → close_link R env device u db ≡ (ok tt, t) → IsClosed db t
  unfolding close_link
  close_link-IsClosed db t e =
      let (n, db1, e1, r1) =
        continue-eq-ok (update_link R u.id (end_link (today env)) db) _ tt t e in
      let (_, db2, e2, r2) =
        continue-eq-ok (delete_assignments R (λ a. a.user_emulator == u.id) db1) _ tt t r1 in
      let (m, e3) = last-eq-ok (update_emulator R device (set_state available) db2) r2 in
      rows-IsClosed db e1 e2 e3
