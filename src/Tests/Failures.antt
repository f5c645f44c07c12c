-- ===== src/Tests/Failures.antt =====
-- Linking the tablet to the owner, who has an admin account, and an extension of the phone's link.
use damaru_server.Prelude.{◌≡◌, ◌≢◌, ◌⊎◌, refl, some}
use damaru_server.Prelude.Exec.{ok, err, type_error}
use damaru_server.Repository.{lookup}
use damaru_server.Repository.Memory.{memory}
use damaru_server.Environment.{number}
use damaru_server.Database.{Db}
use damaru_server.Database.Statements.{update_link}
use damaru_server.Emulators.Links.{ExtendExpiryDto, extend}
use damaru_server.Emulators.Links.Extension.{IsExtended, IsUnlinked, extend-IsExtended}
use damaru_server.Routes.{serve}
use damaru_server.System.Failures.{HasAdmin}
use damaru_server.System.Failures.Serving.{serve-IsTyped}
use damaru_server.Tests.{in_memory, environment, database, root}
use damaru_server.Tests.Routes.{draws, link_tablet}
use damaru_server.Tests.System.{super_token}

owner-HasAdmin : HasAdmin "u1" database
unfolding lookup
owner-HasAdmin = record { key = "a1"; row = root; stored = refl; admin = refl }

serve-IsTyped_example :
    (serve in_memory environment draws (some super_token) link_tablet database).0 ≢ err type_error
serve-IsTyped_example =
    serve-IsTyped in_memory environment draws (some super_token) link_tablet database
      (λ e. cc, owner-HasAdmin)

abbrev a_week : ExtendExpiryDto
a_week = record { device_id = "d1"; user_id = "u1"; days = number 7 }

abbrev later : Db
later = (extend in_memory environment a_week database).1

extend_run : extend in_memory environment a_week database ≡ (ok tt, later)
unfolding extend update_link in_memory memory lookup
extend_run = refl

extend-IsExtended_example :
    IsExtended environment a_week database later ⊎ IsUnlinked environment a_week database later
extend-IsExtended_example = extend-IsExtended in_memory environment a_week database later extend_run
