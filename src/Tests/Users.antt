-- ===== src/Tests/Users.antt =====
-- The removal of the owner from the small database.
use damaru_server.Prelude.{◌≡◌, refl}
use damaru_server.Prelude.Exec.{ok, for_each}
use damaru_server.Repository.{lookup}
use damaru_server.Repository.Memory.{memory}
use damaru_server.Database.{Db}
use damaru_server.Database.Cascade.{IsGone}
use damaru_server.Database.Repositories.{valid_log}
use damaru_server.Database.Statements.{
  insert_log, update_emulator, delete_user, prune_accounts, prune_links, prune_assignments,
  prune_connections,
}
use damaru_server.ActivityLogs.{log}
use damaru_server.Emulators.Links.Invariant.{IsConsistent}
use damaru_server.Users.{free_device, remove}
use damaru_server.Users.Laws.{remove-IsGone}
use damaru_server.Tests.{in_memory, database}
use damaru_server.Tests.Links.{database-IsConsistent}

abbrev removed : Db
removed = (remove in_memory "u1" database).1

remove_run : remove in_memory "u1" database ≡ (ok "User deleted", removed)
unfolding remove for_each free_device log insert_log update_emulator delete_user prune_accounts
    prune_links prune_assignments prune_connections valid_log in_memory memory lookup
remove_run = refl

remove-IsGone_example : IsGone "u1" removed × IsConsistent removed
remove-IsGone_example =
    remove-IsGone in_memory "u1" "User deleted" database removed database-IsConsistent remove_run
