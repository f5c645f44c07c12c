-- ===== src/Emulators/Links/Linking.antt =====
-- What `linkEmulator` has done when it returns, and what it leaves behind when the user has no root
-- account.
use mathlib.Core.List.{Memᴰ}
use damaru_server.Prelude.{
  String, ◌≡◌, true, false, none, some, List, [], ◌∷◌, ◌≢◌, arith, eq_iff, Option-cases, inl, inr,
}
use damaru_server.Prelude.Exec.{ok, err, type_error, for_each, for_each-all}
use damaru_server.Environment.{Environment}
use damaru_server.Database.{Account, UserEmulator, registered, Db}
use damaru_server.Database.Repositories.{Repositories, link_at, account_at, valid_link}
use damaru_server.Database.Statements.{insert_link}
use damaru_server.Accounts.{find_root_account, is_admin_of}
use damaru_server.Emulators.Links.{
  links_now, new_link, register, find_registered, link_device, link_emulator,
}
use damaru_server.Emulators.Links.Rounds.{IsRegistered, register-IsRegistered}
use damaru_server.Emulators.Links.Invariant.{
  IsConsistent, state_at, state-find_registered, registered-IsConsistent,
}

-- The user has an active link to the device, which is at REGISTERED.
pub record IsLinked (user device : String) (db : Db) : Type 0 where
  pub link : String
  pub row : UserEmulator
  pub stored : link_at db link ≡ some row
  pub linked : links_now user device row ≡ true
  pub state : state_at db device ≡ some registered

module _ (R : Repositories) (env : Environment) (user : String) where
  pub link_device-eq-ok :
      (device : String) (db t : Db)
      → link_device R env user device db ≡ (ok tt, t)
      → (find_registered R device db ≡ none) × IsRegistered R env user device db t
  unfolding link_device
  link_device-eq-ok device db t e = elim (Option-cases (find_registered R device db)) [
    | inl free ↦ (free, register-IsRegistered R env user device db t (rw (free, link_device) at e))
    | inr (found, taken) ↦ absurd (ground arith)
  ]

  link_device-done :
      (device : String) (db t : Db)
      → IsConsistent db
      → link_device R env user device db ≡ (ok tt, t)
      → IsLinked user device t × IsConsistent t
  unfolding new_link valid_link
  link_device-done device db t c e =
      let (free, r) = link_device-eq-ok device db t e in
      (
        record {
          link = r.link;
          row = new_link env user device r.link;
          stored = ground (arith, r.links_after r.link, eq_iff r.link r.link);
          linked = ground (arith, eq_iff user user, eq_iff device device);
          state = ground (arith, r.devices_after device, r.valid, eq_iff device device);
        },
        registered-IsConsistent R env user device db t c
            (state-find_registered R env user device db free) r,
      )

  link_device-stays :
      (device other : String) (db t : Db)
      → IsConsistent db
      → IsLinked user device db
      → link_device R env user other db ≡ (ok tt, t)
      → IsLinked user device t
  link_device-stays device other db t c q e =
      let (free, r) = link_device-eq-ok other db t e in
      record {
        link = q.link;
        row = q.row;
        stored = ground (arith, r.links_after q.link, r.free, eq_iff r.link q.link, q.stored);
        linked = q.linked;
        state = ground (arith, r.devices_after device, q.state);
      }

  -- From a database with the invariant: after `linkEmulator` has returned, every device of the list has
  -- an active link to the user and is registered.
  link_emulator-IsLinked :
      (devices : List String) (db t : Db)
      → IsConsistent db
      → link_emulator R env (record { device_ids = devices; user_id = user }) db ≡ (ok tt, t)
      → (device : String) → Memᴰ device devices
      → IsLinked user device t
  unfolding link_emulator
  link_emulator-IsLinked devices db t c e device m =
      for_each-all (link_device R env user) (IsLinked user) IsConsistent link_device-done
        link_device-stays devices db t c e device m

  -- No root account is found where the user has none.
  find_root-none :
      (db : Db)
      → ((k : String) (a : Account) → account_at db k ≡ some a → is_admin_of user a ≡ false)
      → find_root_account R user db ≡ none
  unfolding find_root_account
  find_root-none db h = elim (Option-cases (R.account.find_one (is_admin_of user) db)) [
    | inl missing ↦ missing
    | inr (a, found) ↦
        let (stored, hit) = R.account.find_one-sound (is_admin_of user) db a found in
        absurd (ground (arith, h a.id a))
  ]

  -- A user with no root account, and a device that is not registered: where the insertion of the link
  -- succeeds, `linkEmulator` throws a TypeError, the active link stays, and the device is not
  -- registered.
  pub link_without_root :
      (device link : String) (rows : List UserEmulator) (db : Db)
      → find_registered R device db ≡ none
      → R.user_emulator.insert (new_link env user device) db ≡ some (link, rows)
      → ((k : String) (a : Account) → account_at db k ≡ some a → is_admin_of user a ≡ false)
      → (t : Db) × (link_emulator R env (record { device_ids = device ∷ []; user_id = user }) db
          ≡ (err type_error, t))
        × (link_at t link ≡ some (new_link env user device link))
        × (links_now user device (new_link env user device link) ≡ true)
        × (state_at t device ≢ some registered)
  unfolding link_emulator for_each link_device register insert_link new_link
  link_without_root device link rows db free inserted rootless =
      let t : Db = record db { user_emulators = rows } in
      (
        t,
        ground (arith, find_root-none t rootless),
        ground (
          arith,
          R.user_emulator.lookup-insert (new_link env user device) db link rows inserted link,
          eq_iff link link,
        ),
        ground (arith, eq_iff user user, eq_iff device device),
        state-find_registered R env user device db free,
      )
