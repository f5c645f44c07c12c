-- ===== src/Emulators/Links/Refinement.antt =====
-- Linking and unlinking implement the operations on the map of owners.
use mathlib.Core.Path.{subst}
use damaru_server.Prelude.{
  String, ◌≡◌, refl, ap, none, some, List, [], ◌∷◌, arith, Option-cases, inl, inr,
}
use damaru_server.Prelude.Exec.{Result, ok, for_each, continue-eq-ok}
use damaru_server.Environment.{Environment}
use damaru_server.Database.{Db}
use damaru_server.Database.Repositories.{Repositories}
use damaru_server.Emulators.Links.{
  links_now, link_device, link_emulator, unlink_device, unlink_emulator,
}
use damaru_server.Emulators.Links.Rounds.{close_link-IsClosed}
use damaru_server.Emulators.Links.Invariant.{state-find_registered}
use damaru_server.Emulators.Links.Linking.{link_device-eq-ok}
use damaru_server.Emulators.Links.Unlinking.{found_link}
use damaru_server.Emulators.Links.Owners.{
  Owners, Shows, give, take, link_spec, unlink_spec, registered-Shows, closed-Shows, untouched,
  nobody,
}

module _ (R : Repositories) (env : Environment) (user : String) where
  link_device-Shows :
      (device : String) (db t : Db) (o : Owners)
      → Shows db o
      → link_device R env user device db ≡ (ok tt, t)
      → (o device ≡ none) × Shows t (give user device o)
  link_device-Shows device db t o s e =
      let (free, r) = link_device-eq-ok R env user device db t e in
      let fresh = state-find_registered R env user device db free in
      (nobody R env user device db o s fresh, registered-Shows R env user device db t o s fresh r)

  unlink_device-Shows :
      (device : String) (db t : Db) (o : Owners)
      → Shows db o
      → unlink_device R env user device db ≡ (ok tt, t)
      → Shows t (take user device o)
  unfolding unlink_device
  unlink_device-Shows device db t o s e =
      elim (Option-cases (R.user_emulator.find_one (links_now user device) db)) [
        | inr (u, found) ↦
            let (stored, open', same, mine) = found_link R env user device u db found in
            closed-Shows R env user device u db t o s stored open' same mine
              (close_link-IsClosed R env device u db t (rw (found, unlink_device) at e))
        | inl missing ↦
            let same : db ≡ t = ground arith in
            subst (λ d. Shows d (take user device o)) same
              (untouched R env user device db o s missing)
      ]

  -- Linking implements its specification: in a database that shows the owners `o`, a call that returns
  -- is for devices that nobody owns, each once, and leaves a database that shows the user as the owner
  -- of them all, and the other owners as before.
  pub link_emulator-Shows :
      (devices : List String) (db t : Db) (o : Owners)
      → Shows db o
      → link_emulator R env (record { device_ids = devices; user_id = user }) db ≡ (ok tt, t)
      → (p : Owners) × (link_spec user devices o ≡ some p) × Shows t p
  unfolding link_emulator link_spec for_each
  link_emulator-Shows [] db t o s e =
      (o, refl, subst (λ d. Shows d o) (ap (λ (x : Result (Unit {0}) × Db). x.1) e) s)
  link_emulator-Shows (device ∷ rest) db t o s e =
      let (_, db1, first, after) =
        continue-eq-ok (link_device R env user device db)
          (λ _. for_each (link_device R env user) rest) tt t e in
      let (free, s1) = link_device-Shows device db db1 o s first in
      let (p, spec, last) = link_emulator-Shows rest db1 t (give user device o) s1 after in
      (p, rw free spec, last)

  -- Unlinking implements its specification: a call that returns, in a database that shows the owners
  -- `o`, leaves one that shows them without the user's own devices among those of the list.
  pub unlink_emulator-Shows :
      (devices : List String) (db t : Db) (o : Owners)
      → Shows db o
      → unlink_emulator R env (record { device_ids = devices; user_id = user }) db ≡ (ok tt, t)
      → Shows t (unlink_spec user devices o)
  unfolding unlink_emulator unlink_spec for_each
  unlink_emulator-Shows [] db t o s e =
      subst (λ d. Shows d o) (ap (λ (x : Result (Unit {0}) × Db). x.1) e) s
  unlink_emulator-Shows (device ∷ rest) db t o s e =
      let (_, db1, first, after) =
        continue-eq-ok (unlink_device R env user device db)
          (λ _. for_each (unlink_device R env user) rest) tt t e in
      unlink_emulator-Shows rest db1 t (take user device o)
        (unlink_device-Shows device db db1 o s first) after
