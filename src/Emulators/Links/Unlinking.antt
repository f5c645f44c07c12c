-- ===== src/Emulators/Links/Unlinking.antt =====
-- `unlinkEmulator` keeps the invariant of the links, whether it returns or throws, and ends every
-- active link of the user to a device of the list.
use mathlib.Core.Path.{subst}
use mathlib.Core.List.{Memᴰ}
use damaru_server.Prelude.{
  ℕ, String, ◌≡◌, refl, sym, ap, ◌∙◌, Bool, false, none, some, ◌==◌, arith, eq_iff, Option-cases,
  inl, inr,
}
use damaru_server.Prelude.Exec.{Exception, ok, Ends, Ends-bind, for_each-Ends, for_each-all}
use damaru_server.Repository.{revise}
use damaru_server.Environment.{Environment, today}
use damaru_server.Database.{AccountEmulator, UserEmulator, available, Db}
use damaru_server.Database.Repositories.{Repositories, link_at}
use damaru_server.Database.Statements.{update_link, delete_assignments, update_emulator}
use damaru_server.Database.Effects.{
  link_updated, assignments_deleted, update_link-err, update_emulator-err, delete_assignments-err,
}
use damaru_server.Emulators.Links.{
  links_now, links, close_link, unlink_device, unlink_emulator, set_state, end_link,
  MultiDevicesLinkDto,
}
use damaru_server.Emulators.Links.Rounds.{close_link-IsClosed, rows-IsClosed}
use damaru_server.Emulators.Links.Invariant.{IsConsistent, closed-IsConsistent}

abbrev pub Keeps : Exception → Db → Type 0
Keeps e db = IsConsistent db

IsConsistent-same :
    (db t : Db)
    → t.user_emulators ≡ db.user_emulators
    → t.emulators ≡ db.emulators
    → IsConsistent db
    → IsConsistent t
IsConsistent-same db t links devices c = record {
  registered = λ k u e h. ground (arith, c.registered k u, links, devices);
  unique = λ j k u v e f h i d. ground (arith, c.unique j k u v, links);
}

module _ (R : Repositories) (env : Environment) where
  ended-IsConsistent :
      (u : UserEmulator) (db t : Db)
      → IsConsistent db
      → t.emulators ≡ db.emulators
      → ((k : String) → link_at t k ≡ revise (u.id == k) (end_link (today env)) (link_at db k))
      → IsConsistent t
  ended-IsConsistent u db t c devices law = record {
    registered = λ k v e h. ground (arith, c.registered k v, law k, devices);
    unique = λ j k v w e f h i d. ground (arith, c.unique j k v w, law j, law k);
  }

  update_link-IsConsistent :
      (u : UserEmulator) (db t : Db) {n : ℕ}
      → IsConsistent db
      → update_link R u.id (end_link (today env)) db ≡ (ok n, t)
      → IsConsistent t
  update_link-IsConsistent u db t c e =
      let (rows, same, law) = link_updated R u.id (end_link (today env)) db (λ r. refl) e in
      ended-IsConsistent u db t c (ap (λ (d : Db). d.emulators) same)
        (λ k. ap (λ (d : Db). link_at d k) same ∙ law k)

  delete_assignments-IsConsistent :
      (p : AccountEmulator → Bool) (db t : Db)
      → IsConsistent db
      → delete_assignments R p db ≡ (ok tt, t)
      → IsConsistent t
  delete_assignments-IsConsistent p db t c e =
      let (rows, left, same, law) = assignments_deleted R p db e in
      IsConsistent-same db t (ap (λ (d : Db). d.user_emulators) same)
        (ap (λ (d : Db). d.emulators) same) c

  close_link-Ends :
      (device : String) (u : UserEmulator) (db : Db)
      → IsConsistent db
      → link_at db u.id ≡ some u
      → u.unlinked_at ≡ none
      → u.device ≡ device
      → Ends IsConsistent Keeps (close_link R env device u db)
  unfolding close_link
  close_link-Ends device u db c stored open' same =
      Ends-bind IsConsistent Keeps (update_link R u.id (end_link (today env)) db) _
        (λ n db1 e1.
          let c1 = update_link-IsConsistent u db db1 c e1 in
          Ends-bind IsConsistent Keeps (delete_assignments R (λ a. a.user_emulator == u.id) db1) _
            (λ _ db2 e2.
              let c2 = delete_assignments-IsConsistent _ db1 db2 c1 e2 in
              Ends-bind IsConsistent Keeps (update_emulator R device (set_state available) db2) _
                (λ m t e3.
                  closed-IsConsistent R env (u.user) device u db t c stored open' same
                    (rows-IsClosed R env device u db e1 e2 e3))
                (λ x t e. subst IsConsistent (sym (update_emulator-err R _ _ db2 e)) c2))
            (λ x t e. subst IsConsistent (sym (delete_assignments-err R _ db1 e)) c1))
        (λ x t e. subst IsConsistent (sym (update_link-err R _ _ db e)) c)

  -- The link that is found is stored, active, and of the device.
  pub found_link :
      (user device : String) (u : UserEmulator) (db : Db)
      → R.user_emulator.find_one (links_now user device) db ≡ some u
      → (link_at db u.id ≡ some u) × (u.unlinked_at ≡ none) × (u.device ≡ device) × (u.user ≡ user)
  found_link user device u db e =
      let (stored, hit) = R.user_emulator.find_one-sound (links_now user device) db u e in
      (
        stored,
        ground arith,
        ground (arith, eq_iff u.device device),
        ground (arith, eq_iff u.user user),
      )

  unlink_device-Ends :
      (user device : String) (db : Db)
      → IsConsistent db
      → Ends IsConsistent Keeps (unlink_device R env user device db)
  unfolding unlink_device
  unlink_device-Ends user device db c =
      elim (Option-cases (R.user_emulator.find_one (links_now user device) db)) [
        | inl missing ↦ rw missing c
        | inr (u, found) ↦
            let (stored, open', same, _) = found_link user device u db found in
            rw found (close_link-Ends device u db c stored open' same)
      ]

  -- From a database with the invariant, unlinking devices leaves one with it, also where a statement
  -- of it fails half-way.
  pub unlink_emulator-Ends :
      (dto : MultiDevicesLinkDto) (db : Db)
      → IsConsistent db
      → Ends IsConsistent Keeps (unlink_emulator R env dto db)
  unfolding unlink_emulator
  unlink_emulator-Ends dto db c =
      for_each-Ends (unlink_device R env dto.user_id) IsConsistent Keeps
        (unlink_device-Ends dto.user_id) dto.device_ids db c

  abbrev IsUnlinked : String → String → Db → Type 0
  IsUnlinked user device db =
      (k : String) (u : UserEmulator) → link_at db k ≡ some u → links_now user device u ≡ false

  unlink_device-done :
      (user device : String) (db t : Db)
      → IsConsistent db
      → unlink_device R env user device db ≡ (ok tt, t)
      → IsUnlinked user device t × IsConsistent t
  unfolding unlink_device
  unlink_device-done user device db t c e =
      elim (Option-cases (R.user_emulator.find_one (links_now user device) db)) [
        | inl missing ↦
            let same : db ≡ t = ground arith in
            (
              λ k u at.
                  R.user_emulator.find_one-complete (links_now user device) db k u missing
                    (subst (λ d. link_at d k ≡ some u) (sym same) at),
              subst IsConsistent same c,
            )
        | inr (v, found) ↦
            let (stored, open', same, _) = found_link user device v db found in
            let r = close_link-IsClosed R env device v db t (rw (found, unlink_device) at e) in
            (
              λ k u at. ground (
                arith,
                r.links_after k,
                c.unique v.id k v u,
                stored,
                eq_iff v.id k,
                same,
                open',
                eq_iff u.device device,
                eq_iff v.device device,
              ),
              closed-IsConsistent R env user device v db t c stored open' same r,
            )
      ]

  unlink_device-stays :
      (user device other : String) (db t : Db)
      → IsConsistent db
      → IsUnlinked user device db
      → unlink_device R env user other db ≡ (ok tt, t)
      → IsUnlinked user device t
  unfolding unlink_device
  unlink_device-stays user device other db t c q e =
      elim (Option-cases (R.user_emulator.find_one (links_now user other) db)) [
        | inl missing ↦ let same : db ≡ t = ground arith in subst (IsUnlinked user device) same q
        | inr (v, found) ↦
            let r = close_link-IsClosed R env other v db t (rw (found, unlink_device) at e) in
            λ k u at. ground (arith, r.links_after k, q k v, q k u)
      ]

  -- From a database with the invariant: after `unlinkEmulator` has returned, no active link joins the user to a device of the list.
  unlink_emulator-IsUnlinked :
      (dto : MultiDevicesLinkDto) (db t : Db)
      → IsConsistent db
      → unlink_emulator R env dto db ≡ (ok tt, t)
      → (device : String) → Memᴰ device dto.device_ids
      → (k : String) (u : UserEmulator) → link_at t k ≡ some u
      → links_now dto.user_id device u ≡ false
  unfolding unlink_emulator
  unlink_emulator-IsUnlinked dto db t c e device m =
      for_each-all (unlink_device R env dto.user_id) (IsUnlinked dto.user_id) IsConsistent
        (unlink_device-done dto.user_id) (unlink_device-stays dto.user_id) dto.device_ids db t c e
        device m
