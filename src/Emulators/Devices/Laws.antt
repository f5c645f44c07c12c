-- ===== src/Emulators/Devices/Laws.antt =====
-- What adding and changing a device does, and who may change it.
use damaru_server.Prelude.{
  String, ◌≡◌, sym, ap, ◌∙◌, true, false, some, List, ◌==◌, if◌then◌else◌, arith, eq_iff,
  Option-cases, inl, inr,
}
use damaru_server.Prelude.Exec.{ok, err, unauthorized}
use damaru_server.Repository.Keys.{find_one-key}
use damaru_server.Token.{JwtToken}
use damaru_server.Database.{Emulator, UserEmulator, Db}
use damaru_server.Database.Repositories.{Repositories, emulator_at, link_at}
use damaru_server.Database.Statements.{insert_emulator}
use damaru_server.Emulators.Links.{links_now, is_device}
use damaru_server.Emulators.Devices.{
  EmulatorDto, EmulatorPatch, new_emulator, find_one, create, must_own, owned, update,
}

module _ (R : Repositories) where
  created_once :
      (dto : EmulatorDto) (db t : Db) (id : String) (rows : List Emulator)
      → R.emulator.insert (λ _. new_emulator dto) db ≡ some (id, rows)
      → t ≡ record db { emulators = rows }
      → (k : String)
      → (emulator_at t k
          ≡ (if dto.device_id == k then some (new_emulator dto) else emulator_at db k))
        × (create R dto t ≡ (ok "Device already exist", t))
  unfolding create find_one new_emulator
  created_once dto db t id rows q same k =
      let (free, keyed, fits) = R.emulator.insert-free (λ _. new_emulator dto) db id rows q in
      let table : (j : String)
          → emulator_at t j ≡ (if id == j then some (new_emulator dto) else emulator_at db j) =
        λ j.
          ap (λ (d : Db). emulator_at d j) same
          ∙ R.emulator.lookup-insert (λ _. new_emulator dto) db id rows q j in
      let stored : emulator_at t dto.device_id ≡ some (new_emulator dto) =
        ground (arith, table dto.device_id, keyed, eq_iff id dto.device_id) in
      (
        table k
            ∙ ap (λ j. if j == k then some (new_emulator dto) else emulator_at db k) (sym keyed),
        rw (find_one-key R.emulator dto.device_id t ∙ stored),
      )

  -- After a device has been added, it is stored as requested, offline and available, the other devices
  -- are as before, and adding it again changes nothing.
  create_again :
      (dto : EmulatorDto) (db t : Db)
      → create R dto db ≡ (ok "New device has been added", t)
      → (k : String)
      → (emulator_at t k
          ≡ (if dto.device_id == k then some (new_emulator dto) else emulator_at db k))
        × (create R dto t ≡ (ok "Device already exist", t))
  unfolding create find_one insert_emulator new_emulator
  create_again dto db t e k =
      elim (Option-cases (R.emulator.find_one (is_device dto.device_id) db)) [
        | inr (known, found) ↦
            absurd
              (ground (arith, eq_iff "Device already exist" "New device has been added", e, found))
        | inl missing ↦ elim (Option-cases (R.emulator.insert (λ _. new_emulator dto) db)) [
          | inl refused ↦ absurd (ground (arith, e, missing, refused))
          | inr ((id, rows), q) ↦ created_once dto db t id rows q (ground (arith, e, missing, q)) k
        ]
      ]

  -- An Android admin changes a device only while it is linked to him: with no active link the update
  -- is refused and changes nothing.
  update_unlinked :
      (id : String) (patch : EmulatorPatch) (token : JwtToken) (db : Db)
      → must_own token ≡ true
      → ((k : String) (u : UserEmulator) → link_at db k ≡ some u → links_now token.sub id u ≡ false)
      → update R id patch (some token) db
        ≡ (err (unauthorized "You are not authorized to update this emulator"), db)
  unfolding update owned
  update_unlinked id patch token db mine free =
      elim (Option-cases (R.user_emulator.find_one (links_now token.sub id) db)) [
        | inl missing ↦ rw missing (rw mine)
        | inr (u, found) ↦
            let (stored, hit) =
              R.user_emulator.find_one-sound (links_now token.sub id) db u found in
            absurd (ground (arith, free u.id u stored))
      ]
