-- ===== src/Tests/Routes.antt =====
-- Requests on the small database.
use damaru_server.Prelude.{◌≡◌, refl, none, some, [], ◌∷◌, eq_true}
use damaru_server.Prelude.Exec.{ok}
use damaru_server.Repository.{lookup}
use damaru_server.Repository.Memory.{memory}
use damaru_server.Token.{JwtToken}
use damaru_server.Guards.{can_activate, authorized, is_authorized}
use damaru_server.Database.{Db}
use damaru_server.Database.Repositories.{valid_emulator}
use damaru_server.Database.Statements.{insert_emulator}
use damaru_server.Accounts.Laws.Isolation.{others}
use damaru_server.Users.{Draws}
use damaru_server.Emulators.Devices.{EmulatorDto, EmulatorPatch, new_emulator, find_one, must_own}
use damaru_server.Emulators.Devices
use damaru_server.Routes.{
  Request, accounts, delete_account, emulators, link_emulators, create_emulator, handle_emulators,
  serve,
}
use damaru_server.Routes.Isolation.{serve-others}
use damaru_server.Tests.{in_memory, environment, database, stranger_token}

abbrev pub draws : Draws
draws = record { hash = λ s. s; password = "generated"; pin = "44444" }

abbrev pub link_tablet : Request
link_tablet = emulators (link_emulators (record { device_ids = some ("d2" ∷ []); user_id = "u1" }))

abbrev new_device : EmulatorDto
new_device = record { device_id = "d3"; device_name = "third"; details = none; screenshot = none }

abbrev admin_token : JwtToken
admin_token = record {
  sub = "u3";
  email = "admin@home";
  role = "EmulatorAdmin";
  sub_role = none;
  account_name = none;
  account_id = none;
}

abbrev add_request : Request
add_request = emulators (create_emulator new_device)

abbrev added : Db
added = (Devices.create in_memory new_device database).1

create_run : Devices.create in_memory new_device database ≡ (ok "New device has been added", added)
unfolding Devices.create find_one insert_emulator new_emulator valid_emulator in_memory memory
    lookup
create_run = refl

serve_run :
    serve in_memory environment draws (some admin_token) add_request database
    ≡ (ok "New device has been added", added)
unfolding serve handle_emulators can_activate authorized is_authorized Devices.create find_one
    insert_emulator new_emulator valid_emulator in_memory memory lookup
serve_run = refl

abbrev no_links : Db
no_links = record database { user_emulators = []; account_emulators = [] }

abbrev remove_root : Request
remove_root = accounts (delete_account "a1")

serve-others_example :
    others "u2"
      (serve in_memory environment draws (some stranger_token) remove_root database).1
      "a1"
    ≡ others "u2" database "a1"
serve-others_example =
    serve-others in_memory environment draws stranger_token database "a1" (λ e. cc (eq_true e))
      remove_root
