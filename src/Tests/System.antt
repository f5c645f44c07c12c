-- ===== src/Tests/System.antt =====
-- A start of the server, and a request, a message and a socket that goes, one after the other.
use Prim.Native.String.{◌++◌}
use damaru_server.Prelude.{String, ◌≡◌, refl, Option, none, some, [], ◌∷◌}
use damaru_server.Prelude.Exec.{Result, ok, Ends, for_each}
use damaru_server.Repository.{lookup}
use damaru_server.Repository.Memory.{memory}
use damaru_server.Token.{JwtToken}
use damaru_server.Guards.{can_activate, authorized, is_authorized}
use damaru_server.Database.{Db}
use damaru_server.Database.Repositories.{valid_link, valid_assignment, valid_user, valid_role}
use damaru_server.Database.Statements.{
  insert_link, insert_assignment, update_emulator, insert_role, insert_user, insert_encryption,
}
use damaru_server.Accounts.{find_root_account}
use damaru_server.Emulators.Links.{link_emulator, link_device, register, find_registered, new_link}
use damaru_server.Emulators.Links.Invariant.{IsConsistent, AfterError}
use damaru_server.Routes.{serve, handle_emulators}
use damaru_server.Routes.Consistency.{serve-Ends}
use damaru_server.Signaling.{Gateway, handle_disconnect}
use damaru_server.Signaling.Events.{on_start_streaming, receive}
use damaru_server.System.{
  Reach, start, then, requested, received, left, started, restarted, Reach-IsConsistent,
}
use damaru_server.System.Seeder.{
  SeedConfig, seed, seed_roles, seed_role, seed_user, seed_super_admin, seed_encryption,
}
use damaru_server.System.Seeder.Rows.{Grows}
use damaru_server.System.Seeder.Laws.{IsSeeded, seed-IsSeeded, seed_again}
use damaru_server.Tests.{in_memory, environment, database}
use damaru_server.Tests.Links.{database-IsConsistent}
use damaru_server.Tests.Routes.{draws, link_tablet}
use damaru_server.Tests.Signaling.{quiet}

abbrev pub super_token : JwtToken
super_token = record {
  sub = "u0";
  email = "super@home";
  role = "SuperAdmin";
  sub_role = none;
  account_name = none;
  account_id = none;
}

serve-Ends_example :
    Ends IsConsistent AfterError
      (serve in_memory environment draws (some super_token) link_tablet database)
serve-Ends_example =
    serve-Ends in_memory environment draws (some super_token) link_tablet database
      database-IsConsistent tt

abbrev served : Result String × Db
served = serve in_memory environment draws (some super_token) link_tablet database

abbrev answer : Result String
answer = ok "Device linked with userId: u1"

serve_run : served ≡ (answer, served.1)
unfolding serve can_activate authorized is_authorized handle_emulators link_emulator for_each
    link_device register find_registered find_root_account insert_link insert_assignment
    update_emulator new_link valid_link valid_assignment in_memory memory lookup
serve_run = refl

abbrev verify : String → Option JwtToken
verify word = some super_token

abbrev linked : Gateway
linked = record quiet { db = served.1 }

abbrev streaming : Gateway
streaming =
    (receive in_memory environment verify (some "Bearer token") "s1"
      (on_start_streaming (some "d2")) linked).1

abbrev gone : Gateway
gone = (handle_disconnect in_memory environment "s1" streaming).1

-- The configuration of the users that exist already
abbrev pub config : SeedConfig
config = record {
  emulator_user = record { name = "owner"; email = "owner@home"; password = "secret" };
  super_admin_user = record { name = "super"; email = "super@home"; password = "secret" };
  hash = λ s. s ++ "!";
}

-- The server starts again.
abbrev booted : Gateway
booted = restarted (seed in_memory config gone.db).1 gone

four_steps : Reach in_memory quiet booted
four_steps =
    then gone booted
      (then streaming gone
        (then linked streaming
          (then quiet linked start (
            requested environment draws (some super_token) link_tablet quiet answer served.1 tt
              serve_run tt))
          (received environment verify (some "Bearer token") "s1" (on_start_streaming (some "d2"))
            linked))
        (left environment "s1" streaming))
      (started config gone)

Reach-IsConsistent_example : IsConsistent booted.db
Reach-IsConsistent_example =
    Reach-IsConsistent in_memory quiet booted database-IsConsistent four_steps

-- The roles are there; the super admin and the switch are new.
abbrev with_roles : Db
with_roles = record database {
  roles =
      record { id = "r1"; name = "AndroidUser" }
      ∷ record { id = "r2"; name = "SuperAdmin" }
      ∷ record { id = "r3"; name = "EmulatorAdmin" }
      ∷ [];
}

abbrev pub seeded : Db
seeded = (seed in_memory config with_roles).1

seed_run : seed in_memory config with_roles ≡ (ok tt, seeded)
unfolding seed seed_roles seed_role seed_user seed_super_admin seed_encryption for_each insert_user
    insert_encryption insert_role valid_user valid_role in_memory memory lookup
seed_run = refl

seed-IsSeeded_example : Grows with_roles seeded × IsSeeded config seeded
seed-IsSeeded_example = seed-IsSeeded in_memory config with_roles seeded seed_run

seed_again_example : seed in_memory config seeded ≡ (ok tt, seeded)
seed_again_example = seed_again in_memory config with_roles seeded seed_run
