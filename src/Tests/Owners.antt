-- ===== src/Tests/Owners.antt =====
-- The owners that the small database shows, before and after linking and unlinking.
use damaru_server.Prelude.{
  String, ◌≡◌, refl, sym, none, some, [], ◌∷◌, ◌==◌, true_eq, arith, Bool-cases, inl, inr,
}
use mathlib.Core.Path.{subst}
use damaru_server.Repository.{lookup}
use damaru_server.Database.{UserEmulator}
use damaru_server.Emulators.Links.Owners.{Owners, Shows, Owns, give, link_spec, unlink_spec}
use damaru_server.Emulators.Links.Refinement.{link_emulator-Shows, unlink_emulator-Shows}
use damaru_server.Tests.{in_memory, environment, database, phone_link}
use damaru_server.Tests.Links.{
  only_phone, database-IsConsistent, linked, unlinked, link_run, unlink_run,
}

abbrev owners : Owners
owners = give "u1" "d1" (λ d. none)

phone_owner : (u : UserEmulator) → u ≡ phone_link → owners u.device ≡ some u.user
phone_owner u same = subst (λ v. owners v.device ≡ some v.user) (sym same) refl

owned_phone : (device user : String) → owners device ≡ some user → Owns database device user
unfolding lookup
owned_phone device user e = elim (Bool-cases ("d1" == device)) [
  | inr other ↦ absurd (ground (arith, other, e))
  | inl here ↦ record {
    link = "l1";
    row = phone_link;
    stored = refl;
    active = refl;
    same_device = true_eq here;
    same_user = ground (arith, here, e);
  }
]

pub database-Shows : Shows database owners
database-Shows = record {
  consistent = database-IsConsistent;
  owner = λ k u at open'. phone_owner u (only_phone k u at).1;
  owned = owned_phone;
}

link_emulator-Shows_example :
    (p : Owners) × (link_spec "u1" ("d2" ∷ []) owners ≡ some p) × Shows linked p
link_emulator-Shows_example =
    link_emulator-Shows in_memory environment "u1" ("d2" ∷ []) database linked owners database-Shows
      link_run

unlink_emulator-Shows_example : Shows unlinked (unlink_spec "u1" ("d1" ∷ "d3" ∷ []) owners)
unlink_emulator-Shows_example =
    unlink_emulator-Shows in_memory environment "u1" ("d1" ∷ "d3" ∷ []) database unlinked owners
      database-Shows unlink_run
