-- ===== src/Accounts/Queries/Laws.antt =====
-- What a token can see of the accounts.
use mathlib.Core.Path.{subst}
use damaru_server.Prelude.{
  String, ◌≡◌, refl, sym, ap, ◌∙◌, true, Option, none, some, List, ◌==◌, ◌||◌, ◌⊎◌, Memᴰ, arith,
  eq_iff, true_eq, Option-cases, Bool-cases, inl, inr,
}
use damaru_server.Prelude.Lists.{collect-mem}
use damaru_server.Prelude.Exec.{ok}
use damaru_server.Token.{JwtToken, has_role, super_admin}
use damaru_server.Environment.{Environment}
use damaru_server.Repository.{lookup-key}
use damaru_server.Database.{Account, AccountEmulator, Emulator, UserEmulator, Db}
use damaru_server.Database.Repositories.{
  Repositories, emulator_key, account_at, link_at, emulator_at, assignment_at,
}
use damaru_server.Accounts.Queries.{
  AccountDevice, with_screenshot, device_of, assigned_device, find_all, devices_of, find_one,
}

pub with_screenshot-id :
    (env : Environment) (e : Emulator) → (with_screenshot env e).device_id ≡ e.device_id
with_screenshot-id env e = elim (Option-cases e.screenshot) [
  | inl absent ↦ rw absent refl
  | inr (shot, taken) ↦ rw taken refl
]

-- A device that is assigned to the account by an active link
pub record IsAssigned (db : Db) (id : String) (v : AccountDevice) : Type 0 where
  assignment : AccountEmulator
  link : UserEmulator
  assigned : assignment_at db assignment.id ≡ some assignment
  of_account : assignment.account ≡ id
  linked : link_at db assignment.user_emulator ≡ some link
  active : link.unlinked_at ≡ none
  device : v.device.device_id ≡ link.device

abbrev pub AreAssigned : Db → String → List AccountDevice → Type 0
AreAssigned db id vs = (v : AccountDevice) → Memᴰ v vs → IsAssigned db id v

module _ (env : Environment) (db : Db) where
  device_of-eq-some :
      (u : UserEmulator) (o : Option Emulator) (v : AccountDevice)
      → emulator_at db u.device ≡ o
      → device_of env u o ≡ some v
      → v.device.device_id ≡ u.device
  device_of-eq-some u none v at e = absurd cc
  device_of-eq-some u (some d) v at e =
      let same : with_screenshot env d ≡ v.device = ground (arith, e) in
      ap (λ (x : Emulator). x.device_id) (sym same)
      ∙ with_screenshot-id env d
      ∙ lookup-key emulator_key u.device db.emulators at

  assigned-eq-some :
      (o : Option UserEmulator) (v : AccountDevice)
      → assigned_device env db o ≡ some v
      → (u : UserEmulator) × (o ≡ some u) × (u.unlinked_at ≡ none) × (v.device.device_id ≡ u.device)
  assigned-eq-some none v e = absurd cc
  assigned-eq-some (some u) v e = elim (Option-cases u.unlinked_at) [
    | inl open' ↦
        (u, refl, open', device_of-eq-some u (emulator_at db u.device) v refl (rw open' at e))
    | inr (date, closed) ↦ absurd (ground (arith, closed, e))
  ]

module _ (R : Repositories) where
  -- The accounts that a token lists are those of its user: all of them for the admin's account, and
  -- its own for any other. A super admin's token lists the accounts of all users.
  mem-find_all :
      (jwt : JwtToken) (a : Account) (db : Db)
      → Memᴰ a (find_all R jwt db)
      → (has_role jwt super_admin ≡ true) ⊎ (a.user ≡ jwt.sub)
  unfolding find_all
  mem-find_all jwt a db m =
      let (_, hit) = R.account.mem-find _ db a m in
      elim (Bool-cases (has_role jwt super_admin)) [
        | inl super ↦ inl super
        | inr other ↦ inr (ground (arith, hit, other, eq_iff a.user jwt.sub))
      ]

  owner_or_super :
      (token : JwtToken) (a : Account)
      → (has_role token super_admin || token.sub == a.user) ≡ true
      → (has_role token super_admin ≡ true) ⊎ (a.user ≡ token.sub)
  owner_or_super token a h = elim (Bool-cases (has_role token super_admin)) [
    | inl super ↦ inl super
    | inr other ↦ inr (ground (arith, h, other, eq_iff token.sub a.user))
  ]

  devices_of-IsAssigned :
      (env : Environment) (id : String) (db : Db) (v : AccountDevice)
      → Memᴰ v (devices_of R env id db)
      → IsAssigned db id v
  unfolding devices_of
  devices_of-IsAssigned env id db v m =
      let (a, listed, e) =
        collect-mem (λ a. assigned_device env db (link_at db a.user_emulator))
          (R.account_emulator.find (λ a. a.account == id) db) m in
      let (stored, hit) = R.account_emulator.mem-find (λ a. a.account == id) db a listed in
      let (u, linked, open', same) = assigned-eq-some env db (link_at db a.user_emulator) v e in
      record {
        assignment = a;
        link = u;
        assigned = stored;
        of_account = true_eq hit;
        linked = linked;
        active = open';
        device = same;
      }

  -- The devices of an account are shown to a super admin and to the account's user only: a query that
  -- returns changes nothing, the account exists and is the user's, and each device that is shown is
  -- assigned to the account by an active link.
  pub find_one-IsAssigned :
      (env : Environment) (id : String) (token : JwtToken) (vs : List AccountDevice) (db t : Db)
      → find_one R env id token db ≡ (ok vs, t)
      → (t ≡ db)
        × ((a : Account) × (account_at db id ≡ some a)
            × ((has_role token super_admin ≡ true) ⊎ (a.user ≡ token.sub)))
        × AreAssigned db id vs
  unfolding find_one devices_of
  find_one-IsAssigned env id token vs db t e =
      elim (Option-cases (R.account.find_one (λ a. a.id == id) db)) [
        | inl missing ↦ absurd (ground (arith, missing, e))
        | inr (a, found) ↦ elim (Bool-cases (has_role token super_admin || token.sub == a.user)) [
          | inr refused ↦ absurd (ground (arith, found, refused, e))
          | inl allowed ↦
              let (stored, named) = R.account.find_one-sound (λ x. x.id == id) db a found in
              let done : (ok (devices_of R env id db), db) ≡ (ok vs, t) =
                rw (found, allowed) at e in
              let same : devices_of R env id db ≡ vs = ground (arith, done) in
              (
                ground (arith, done),
                (
                  a,
                  ap (account_at db) (sym (true_eq named)) ∙ stored,
                  owner_or_super token a allowed,
                ),
                λ v m. devices_of-IsAssigned env id db v (subst (Memᴰ v) (sym same) m),
              )
        ]
      ]
