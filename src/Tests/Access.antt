-- ===== src/Tests/Access.antt =====
-- A request of a guest, and the update of the phone by its owner.
use damaru_server.Prelude.{◌≡◌, refl, some, [], ◌∷◌}
use damaru_server.Prelude.Exec.{ok}
use damaru_server.Repository.{lookup}
use damaru_server.Repository.Memory.{memory}
use damaru_server.Database.{Emulator, available, Db}
use damaru_server.Database.Repositories.{link_at, valid_emulator}
use damaru_server.Emulators.Devices.{write_patch}
use damaru_server.Emulators.Links.Invariant.{IsConsistent, state_at}
use damaru_server.Routes.{emulators, update_emulator, serve}
use damaru_server.Routes.Patches.{released, update_releases}
use damaru_server.Tests.{in_memory, environment, database, phone, tablet, phone_link, root_token}
use damaru_server.Tests.Links.{database-IsConsistent}
use damaru_server.Tests.Routes.{draws}

abbrev released_phone : Emulator
released_phone = record phone { state = available }

abbrev after : Db
after = record database { emulators = released_phone ∷ tablet ∷ [] }

released_run :
    in_memory.emulator.update "d1" (write_patch released) database
    ≡ some (1, released_phone ∷ tablet ∷ [])
unfolding in_memory memory write_patch valid_emulator lookup
released_run = refl

phone_linked : link_at database "l1" ≡ some phone_link
unfolding lookup
phone_linked = refl

update_releases_example :
    (serve in_memory environment draws
        (some root_token)
        (emulators (update_emulator "d1" released))
        database
      ≡ (ok "Emulator has been updated", after))
    × (link_at after "l1" ≡ some phone_link)
    × (state_at after "d1" ≡ some available)
    × ¬ IsConsistent after
update_releases_example =
    update_releases in_memory environment draws root_token database "d1" "l1" phone_link 1
      (released_phone ∷ tablet ∷ []) database-IsConsistent refl refl phone_linked refl released_run
