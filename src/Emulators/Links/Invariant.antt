-- ===== src/Emulators/Links/Invariant.antt =====
-- The invariant of devices and links: an active link is of a device whose state is REGISTERED, and
-- no device has two active links.
use damaru_server.Prelude.{
  String, ◌≡◌, ◌&&◌, Option, none, some, List, ◌⊎◌, arith, eq_iff, Option-cases, inl, inr,
}
use mathlib.Core.Option
use damaru_server.Prelude.Exec.{
  Exception, http_exception, not_found, unauthorized, bad_request, ws_exception, type_error,
  query_failed, err, Ends, Ends-of, for_each-Ends,
}
use damaru_server.Repository.{lookup-key}
use damaru_server.Environment.{Environment}
use damaru_server.Database.{Emulator, UserEmulator, EmulatorState, registered, is_registered, Db}
use damaru_server.Database.Repositories.{
  Repositories, emulator_key, emulator_at, link_at, valid_link,
}
use damaru_server.Database.Statements.{insert_link, insert_assignment, update_emulator}
use damaru_server.Emulators.Links.{
  find_registered, new_link, register, link_device, link_emulator, is_device,
}
use damaru_server.Emulators.Links.Rounds.{IsRegistered, register-IsRegistered, IsClosed}

abbrev pub state_at : Db → String → Option EmulatorState
state_at db d = Option.map (λ (e : Emulator). e.state) (emulator_at db d)

pub record IsConsistent (db : Db) : Type 0 where
  pub registered :
      (k : String) (u : UserEmulator)
      → link_at db k ≡ some u
      → u.unlinked_at ≡ none
      → state_at db u.device ≡ some registered
  pub unique :
      (j k : String) (u v : UserEmulator)
      → link_at db j ≡ some u
      → link_at db k ≡ some v
      → u.unlinked_at ≡ none
      → v.unlinked_at ≡ none
      → u.device ≡ v.device
      → j ≡ k

module _ (R : Repositories) (env : Environment) (user device : String) where
  -- A device that is not found at REGISTERED is not at REGISTERED.
  pub state-find_registered :
      (db : Db) → find_registered R device db ≡ none → state_at db device ≡ some registered → ⊥
  unfolding find_registered
  state-find_registered db e h = elim (Option-cases (emulator_at db device)) [
    | inl missing ↦ ground arith
    | inr (found, at) ↦ ground (
      arith,
      at,
      R.emulator.find_one-complete (λ x. is_device device x && is_registered x.state) db device
          found,
      lookup-key emulator_key device db.emulators at,
      eq_iff device device,
      eq_iff found.device_id device,
    )
  ]

  pub registered-IsConsistent :
      (db t : Db)
      → IsConsistent db
      → (state_at db device ≡ some registered → ⊥)
      → IsRegistered R env user device db t
      → IsConsistent t
  unfolding new_link valid_link
  registered-IsConsistent db t c fresh r = record {
    registered = λ k u e h. ground (
      arith,
      r.links_after k,
      r.devices_after u.device,
      r.devices_after device,
      c.registered k u,
      r.valid,
      eq_iff device u.device,
      eq_iff device device,
    );
    unique = λ j k u v e f h i d. ground (
      arith,
      r.links_after j,
      r.links_after k,
      c.unique j k u v,
      c.registered j u,
      c.registered k v,
      fresh,
      eq_iff r.link j,
      eq_iff r.link k,
      d,
    );
  }

  register-err :
      (db t : Db) (e : Exception)
      → register R env user device db ≡ (err e, t)
      → (e ≡ type_error) ⊎ (e ≡ query_failed)
  unfolding register insert_link insert_assignment update_emulator
  register-err db t e h = ground arith

  pub closed-IsConsistent :
      (u : UserEmulator) (db t : Db)
      → IsConsistent db
      → link_at db u.id ≡ some u
      → u.unlinked_at ≡ none
      → u.device ≡ device
      → IsClosed R env device u db t
      → IsConsistent t
  closed-IsConsistent u db t c stored open' same r = record {
    registered = λ k v e h. ground (
      arith,
      r.links_after k,
      r.devices_after v.device,
      c.registered k v,
      c.unique u.id k u v,
      eq_iff device v.device,
      eq_iff u.id k,
      stored,
      same,
    );
    unique =
        λ j k v w e f h i d. ground (arith, r.links_after j, r.links_after k, c.unique j k v w);
  }

-- What the methods leave behind when they throw: the invariant, unless it is a TypeError of theirs or
-- a statement that failed.
abbrev pub AfterError : Exception → Db → Type 0
AfterError type_error db = Unit
AfterError query_failed db = Unit
AfterError (http_exception message status) db = IsConsistent db
AfterError (not_found message) db = IsConsistent db
AfterError (unauthorized message) db = IsConsistent db
AfterError (bad_request message) db = IsConsistent db
AfterError (ws_exception message) db = IsConsistent db

module _ (R : Repositories) (env : Environment) (user : String) where
  register-Ends :
      (device : String) (db : Db)
      → IsConsistent db
      → (state_at db device ≡ some registered → ⊥)
      → Ends IsConsistent AfterError (register R env user device db)
  register-Ends device db c fresh =
      Ends-of IsConsistent AfterError (register R env user device db)
        (λ _ t e.
          registered-IsConsistent R env user device db t c fresh
            (register-IsRegistered R env user device db t e))
        (λ x t e. ground (arith, register-err R env user device db t x e))

  link_device-Ends :
      (device : String) (db : Db)
      → IsConsistent db
      → Ends IsConsistent AfterError (link_device R env user device db)
  unfolding link_device
  link_device-Ends device db c = elim (Option-cases (find_registered R device db)) [
    | inl free ↦
        rw free (register-Ends device db c (state-find_registered R env user device db free))
    | inr (found, taken) ↦ rw taken c
  ]

  -- From a database with the invariant, linking devices leaves one with it, both when it returns and
  -- when it stops with an HTTP exception at a device that is linked already.
  pub link_emulator-Ends :
      (devices : List String) (db : Db)
      → IsConsistent db
      → Ends IsConsistent AfterError
          (link_emulator R env (record { device_ids = devices; user_id = user }) db)
  unfolding link_emulator
  link_emulator-Ends devices db c =
      for_each-Ends (link_device R env user) IsConsistent AfterError link_device-Ends devices db c
