-- ===== src/Routes/Patches.antt =====
-- The update of a device by its Android admin: PUT /emulators/:id of
-- modules/emulators/controllers/emulator.controller.ts.
use damaru_server.Prelude.{
  ℕ, String, ◌≡◌, refl, ◌∙◌, true, Option, none, some, List, arith, eq_iff, Option-cases,
  Bool-cases, inl, inr, Memᴰ,
}
use damaru_server.Prelude.Exec.{Exec, ok}
use damaru_server.Token.{JwtToken, role_name, sub_role_name, android_user, android_admin}
use damaru_server.Environment.{Environment}
use damaru_server.Guards.{http, can_activate, android_admin_guard}
use damaru_server.Guards.Laws.{can_activate_iff}
use damaru_server.Database.{Emulator, UserEmulator, available, Db}
use damaru_server.Database.Repositories.{Repositories, emulator_at, link_at}
use damaru_server.Database.Statements
use damaru_server.Users.{Draws}
use damaru_server.Emulators.Links.{links_now}
use damaru_server.Emulators.Links.Invariant.{IsConsistent, state_at}
use damaru_server.Emulators.Devices.{
  EmulatorPatch, no_change, write_patch, must_own, owned, write, update,
}
use damaru_server.Routes.{emulators, update_emulator, handle_emulators, serve}

-- The body `{"state": "AVAILABLE"}`
abbrev pub released : EmulatorPatch
released = record no_change { state = some available }

module _ (R : Repositories) (env : Environment) (d : Draws) (jwt : JwtToken) (db : Db) where
  owned-link :
      (o : Option UserEmulator) (m : Exec Db String)
      → (o ≡ none → ⊥)
      → owned R (must_own jwt) o m db ≡ m db
  unfolding owned
  owned-link none m linked = absurd (linked refl)
  owned-link (some v) m linked = elim (Bool-cases (must_own jwt)) [
    | inl own ↦ rw own refl
    | inr other ↦ rw other refl
  ]

  written :
      (id : String) (e : Emulator) (n : ℕ) (rows : List Emulator)
      → emulator_at db id ≡ some e
      → R.emulator.update id (write_patch released) db ≡ some (n, rows)
      → (write R id released db ≡ (ok "Emulator has been updated", record db { emulators = rows }))
        × (state_at (record db { emulators = rows }) id ≡ some available)
  unfolding write write_patch Statements.update_emulator
  written id e n rows at q = (
    ground (arith, q, at, R.emulator.update-affected id (write_patch released) db n rows q),
    ground (
      arith,
      at,
      R.emulator.lookup-update id (write_patch released) db n rows (λ r. refl) q id,
      eq_iff id id,
    ),
  )

  -- The update of a device writes the body whole: from a database with the invariant of the links, the
  -- Android admin to whom a device is linked puts its state back to AVAILABLE where the statement
  -- succeeds. The answer is that the device has been updated, and its link stays active, so that the
  -- invariant is broken.
  pub update_releases :
      (id k : String) (u : UserEmulator) (n : ℕ) (rows : List Emulator)
      → IsConsistent db
      → jwt.role ≡ role_name android_user
      → jwt.sub_role ≡ some (sub_role_name android_admin)
      → link_at db k ≡ some u
      → links_now jwt.sub id u ≡ true
      → R.emulator.update id (write_patch released) db ≡ some (n, rows)
      → let t : Db = record db { emulators = rows } in
        (serve R env d (some jwt) (emulators (update_emulator id released)) db
          ≡ (ok "Emulator has been updated", t))
        × (link_at t k ≡ some u)
        × (state_at t id ≡ some available)
        × ¬ IsConsistent t
  unfolding serve handle_emulators update
  update_releases id k u n rows c role sub_role at active q =
      let t : Db = record db { emulators = rows } in
      let opened : can_activate android_admin_guard http (some jwt) ≡ ok true =
        (can_activate_iff android_admin_guard http jwt).1
          (λ p. cc, inr (Memᴰ.head (λ i. (role i, sub_role i)))) in
      let device : u.device ≡ id = ground (arith, active, eq_iff u.device id) in
      let open' : u.unlinked_at ≡ none = ground (arith, active) in
      elim (Option-cases (emulator_at db id)) [
        | inl missing ↦ absurd (ground (arith, missing, device, c.registered k u at open'))
        | inr (e, stored) ↦
            let (answer, state) = written id e n rows stored q in
            (
              rw opened (
                  owned-link (R.user_emulator.find_one (links_now jwt.sub id) db)
                    (write R id released)
                    (λ missing. cc (
                      R.user_emulator.find_one-complete (links_now jwt.sub id) db k u missing at,
                      active,
                    ))
                  ∙ answer),
              at,
              state,
              λ s. ground (arith, s.registered k u at open', device, state),
            )
      ]
