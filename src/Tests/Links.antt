-- ===== src/Tests/Links.antt =====
-- Linking and unlinking on the small database.
use damaru_server.Prelude.{
  String, ◌≡◌, ◌≢◌, true, refl, some, List, [], ◌∷◌, ◌==◌, sym, Bool-cases, inl, inr, true_eq,
  arith,
}
use damaru_server.Prelude.Exec.{ok, err, type_error, for_each}
use damaru_server.Repository.{lookup}
use damaru_server.Repository.Memory.{memory}
use mathlib.Core.Path.{subst}
use damaru_server.Database.{Db, UserEmulator, registered}
use damaru_server.Database.Repositories.{link_at, valid_link, valid_assignment}
use damaru_server.Database.Statements.{
  insert_link, insert_assignment, update_emulator, update_link, delete_assignments,
}
use damaru_server.Accounts.{find_root_account}
use damaru_server.Emulators.Links.{
  link_emulator, unlink_emulator, link_device, unlink_device, register, close_link, find_registered,
  new_link, links_now, MultiDevicesLinkDto,
}
use damaru_server.Emulators.Links.Invariant.{state_at, IsConsistent}
use damaru_server.Emulators.Links.Linking.{link_without_root}
use damaru_server.Tests.{in_memory, environment, database, phone_link}

pub only_phone :
    (k : String) (u : UserEmulator) → link_at database k ≡ some u → (k ≡ "l1") × (u ≡ phone_link)
unfolding lookup
only_phone k u at = elim (Bool-cases ("l1" == k)) [
  | inl hit ↦ (sym (true_eq hit), ground arith)
  | inr miss ↦ absurd (ground arith)
]

pub database-IsConsistent : IsConsistent database
unfolding lookup
database-IsConsistent = record {
  registered = λ k u at open'.
      let (_, same) = only_phone k u at in
      subst (λ v. state_at database v.device ≡ some registered) (sym same) refl;
  unique =
      λ j k u v at_j at_k open_j open_k same. cc ((only_phone j u at_j).0, (only_phone k v at_k).0);
}

abbrev request : MultiDevicesLinkDto
request = record { device_ids = "d2" ∷ []; user_id = "u1" }

abbrev release : MultiDevicesLinkDto
release = record { device_ids = "d1" ∷ "d3" ∷ []; user_id = "u1" }

abbrev pub linked : Db
linked = (link_emulator in_memory environment request database).1

abbrev pub unlinked : Db
unlinked = (unlink_emulator in_memory environment release database).1

pub link_run : link_emulator in_memory environment request database ≡ (ok tt, linked)
unfolding link_emulator for_each link_device register find_registered find_root_account insert_link
    insert_assignment update_emulator new_link valid_link valid_assignment in_memory memory lookup
link_run = refl

pub unlink_run : unlink_emulator in_memory environment release database ≡ (ok tt, unlinked)
unfolding unlink_emulator for_each unlink_device close_link update_link delete_assignments
    update_emulator in_memory memory lookup
unlink_run = refl

-- The same database with no accounts.
abbrev rootless : Db
rootless = record database { accounts = []; account_emulators = [] }

abbrev link_rows : List UserEmulator
link_rows = new_link environment "u1" "d2" "new" ∷ phone_link ∷ []

link_without_root_example :
    (t : Db) × (link_emulator in_memory environment request rootless ≡ (err type_error, t))
    × (link_at t "new" ≡ some (new_link environment "u1" "d2" "new"))
    × (links_now "u1" "d2" (new_link environment "u1" "d2" "new") ≡ true)
    × (state_at t "d2" ≢ some registered)
unfolding find_registered new_link valid_link in_memory memory lookup
link_without_root_example =
    link_without_root in_memory environment "u1" "d2" "new" link_rows rootless refl refl
      (λ k a at. absurd (ground arith))
