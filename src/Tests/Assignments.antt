-- ===== src/Tests/Assignments.antt =====
-- Assignments on the small database.
use damaru_server.Prelude.{◌≡◌, refl, true, eq_true, some, [], ◌∷◌}
use damaru_server.Prelude.Exec.{ok}
use damaru_server.Emulators.Assignments.{
  MultiAccountsLinkDto, MultiDevicesAccountLinkDto, assign_emulator, assign_emulators_to_account,
  unassign_emulator_from_accounts, unassign_emulators_to_account,
}
use damaru_server.Emulators.Assignments.Laws.{assignments_return, assignments_forbidden}
use damaru_server.Tests.{in_memory, database, root_token, stranger_token}

abbrev many : MultiAccountsLinkDto
many = record { device_id = "d1"; account_ids = some ("a2" ∷ "a9" ∷ []); user_id = "u1" }

abbrev dto : MultiDevicesAccountLinkDto
dto = record { device_ids = some ("d1" ∷ "d2" ∷ []); user_id = "u1"; account_id = "a2" }

accepted : in_memory.accepts "u1" ≡ true
unfolding in_memory
accepted = refl

assignments_return_example :
    ((assign_emulator in_memory many root_token database).0 ≡ ok tt)
    × ((unassign_emulator_from_accounts in_memory many database).0 ≡ ok tt)
    × ((assign_emulators_to_account in_memory dto root_token database).0 ≡ ok tt)
    × ((unassign_emulators_to_account in_memory dto root_token database).0 ≡ ok tt)
assignments_return_example =
    assignments_return in_memory many dto root_token database (λ e. cc) (λ e. cc) accepted accepted

assignments_forbidden_example :
    (assign_emulator in_memory many stranger_token database ≡ (ok tt, database))
    × (assign_emulators_to_account in_memory dto stranger_token database ≡ (ok tt, database))
    × (unassign_emulators_to_account in_memory dto stranger_token database ≡ (ok tt, database))
assignments_forbidden_example =
    assignments_forbidden in_memory many dto stranger_token database (λ e. cc (eq_true e))
      (λ e. cc (eq_true e)) (λ e. cc (eq_true e))
