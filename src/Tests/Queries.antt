-- ===== src/Tests/Queries.antt =====
-- Queries on the small database.
use damaru_server.Prelude.{◌≡◌, refl, ◌↔◌, ◌⊎◌, true, some, List, [], ◌∷◌, Memᴰ}
use damaru_server.Prelude.Exec.{ok}
use damaru_server.Prelude.Lists.{collect}
use damaru_server.Repository.{lookup}
use damaru_server.Repository.Memory.{memory}
use damaru_server.Token.{has_role, super_admin}
use damaru_server.Database.{Account}
use damaru_server.Database.Repositories.{account_at}
use damaru_server.Emulators.Links.Owners.{Owns}
use damaru_server.Emulators.Queries.{DeviceView, find_all, is_shown, joined, response_mapper}
use damaru_server.Emulators.Queries.Laws.{find_all-owner}
use damaru_server.Emulators.Queries.Seen.{Sees, find_all-Sees}
use damaru_server.Accounts.Queries.{AccountDevice, find_one, devices_of}
use damaru_server.Accounts.Queries.Laws.{AreAssigned, find_one-IsAssigned}
use damaru_server.Tests.{in_memory, environment, database, phone, root_token}
use damaru_server.Tests.Links.{database-IsConsistent}
use damaru_server.Tests.System.{super_token}

-- The first device of a list
abbrev first : List DeviceView → DeviceView → DeviceView
first [] v = v
first (v ∷ rest) w = v

abbrev shown_phone : DeviceView
shown_phone =
    response_mapper environment database phone (joined in_memory super_token database "d1")

in_list : Memᴰ shown_phone (find_all in_memory environment super_token database)
unfolding find_all is_shown collect in_memory memory lookup
in_list = Memᴰ.head refl

find_all-owner_example :
    (shown_phone.user_id ≡ some "u1") ↔ Owns database shown_phone.device.device_id "u1"
find_all-owner_example =
    find_all-owner in_memory environment super_token database refl database-IsConsistent shown_phone
      in_list "u1"

abbrev devices : List AccountDevice
devices = devices_of in_memory environment "a1" database

find_one_run : find_one in_memory environment "a1" root_token database ≡ (ok devices, database)
unfolding find_one in_memory memory lookup
find_one_run = refl

find_one-IsAssigned_example :
    (database ≡ database)
    × ((a : Account) × (account_at database "a1" ≡ some a)
        × ((has_role root_token super_admin ≡ true) ⊎ (a.user ≡ root_token.sub)))
    × AreAssigned database "a1" devices
find_one-IsAssigned_example =
    find_one-IsAssigned in_memory environment "a1" root_token devices database database find_one_run

find_all-Sees_example :
    ((v : DeviceView) × Memᴰ v (find_all in_memory environment root_token database)
      × (v.device.device_id ≡ "d1"))
    ↔ Sees in_memory database root_token "d1"
find_all-Sees_example =
    find_all-Sees in_memory environment root_token database refl database-IsConsistent "d1"
