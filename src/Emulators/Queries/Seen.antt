-- ===== src/Emulators/Queries/Seen.antt =====
-- Which devices the list shows to a user who is not a super admin.
use mathlib.Core.Path.{subst}
use damaru_server.Prelude.{
  String, ◌≡◌, refl, sym, ap, ◌∙◌, true, false, Option, none, some, List, [], ◌∷◌, ◌↔◌, Memᴰ, arith,
  eq_iff, Bool-cases, Option-cases, inl, inr,
}
use damaru_server.Prelude.Lists.{mem-collect, collect-mem}
use damaru_server.Token.{JwtToken, has_role, super_admin}
use damaru_server.Environment.{Environment}
use damaru_server.Repository.{lookup-key}
use damaru_server.Database.{Emulator, UserEmulator, AccountEmulator, is_registered, Db}
use damaru_server.Database.Repositories.{
  Repositories, emulator_key, emulator_at, link_at, assignment_at,
}
use damaru_server.Emulators.Links.{links_now}
use damaru_server.Emulators.Links.Invariant.{IsConsistent}
use damaru_server.Emulators.Links.Owners.{Owns}
use damaru_server.Emulators.Queries.{
  DeviceView, has_any, is_admin_token, is_assigned, of_account, joined, is_shown, find_all,
}
use damaru_server.Emulators.Queries.Laws.{view, view-device}

-- A row of the table that assigns the link to the account
pub record IsAssigned (db : Db) (account link : String) : Type 0 where
  pub row : AccountEmulator
  pub stored : assignment_at db row.id ≡ some row
  pub same_account : row.account ≡ account
  pub same_link : row.user_emulator ≡ link

-- What a token may see: the user owns the device, and the account of the token, unless it is an
-- admin's, has an assignment of the link.
pub record Sees (R : Repositories) (db : Db) (jwt : JwtToken) (device : String) : Type 0 where
  pub owns : Owns db device jwt.sub
  pub assigned :
      is_admin_token R jwt ≡ false
      → (account : String) → jwt.account_id ≡ some account
      → IsAssigned db account owns.row.id

any-mem {ℓ} : {A : Type ℓ} (xs : List A) → has_any xs ≡ true → (a : A) × Memᴰ a xs
any-mem [] e = absurd (cc)
any-mem (x ∷ xs) e = (x, Memᴰ.head refl)

mem-any {ℓ} : {A : Type ℓ} (xs : List A) (a : A) → Memᴰ a xs → has_any xs ≡ true
mem-any [] a m = elim m [ ]
mem-any (x ∷ xs) a m = refl

module _ (R : Repositories) (env : Environment) (jwt : JwtToken) (db : Db)
    (plain : has_role jwt super_admin ≡ false) where
  is_assigned-IsAssigned :
      (o : Option String) (account : String) (u : UserEmulator)
      → o ≡ some account
      → is_assigned R o db u ≡ true
      → IsAssigned db account u.id
  is_assigned-IsAssigned none account u e h = absurd (cc)
  is_assigned-IsAssigned (some a) account u e h =
      let (row, m) = any-mem (R.account_emulator.find (of_account (some a) u.id) db) h in
      let (stored, hit) = R.account_emulator.mem-find (of_account (some a) u.id) db row m in
      record {
        row = row;
        stored = stored;
        same_account = ground (arith, hit, eq_iff row.account a, eq_iff row.user_emulator u.id);
        same_link = ground (arith, hit, eq_iff row.account a, eq_iff row.user_emulator u.id);
      }

  IsAssigned-is_assigned :
      (o : Option String) (u : UserEmulator)
      → ((account : String) → o ≡ some account → IsAssigned db account u.id)
      → is_assigned R o db u ≡ true
  IsAssigned-is_assigned none u h = refl
  IsAssigned-is_assigned (some a) u h =
      let i = h a refl in
      mem-any (R.account_emulator.find (of_account (some a) u.id) db) i.row (
        R.account_emulator.find-mem (of_account (some a) u.id) db i.row.id i.row i.stored (
          ground (
            arith,
            i.same_account,
            i.same_link,
            eq_iff i.row.account a,
            eq_iff i.row.user_emulator u.id,
          )))

  owned :
      (device : String) (u : UserEmulator)
      → link_at db u.id ≡ some u
      → links_now jwt.sub device u ≡ true
      → Owns db device jwt.sub
  owned device u stored hit = record {
    link = u.id;
    row = u;
    stored = stored;
    active = ground (arith, hit);
    same_device = ground (arith, hit, eq_iff u.device device, eq_iff u.user jwt.sub);
    same_user = ground (arith, hit, eq_iff u.device device, eq_iff u.user jwt.sub);
  }

  joined-Sees :
      (device : String) (u : UserEmulator) → Memᴰ u (joined R jwt db device) → Sees R db jwt device
  unfolding joined owned
  joined-Sees device u m =
      let (stored, hit) = R.user_emulator.mem-find _ db u m in
      elim (Bool-cases (is_admin_token R jwt)) [
        | inl admin ↦ record {
          owns = owned device u stored (ground (arith, hit, plain, admin));
          assigned = λ other. absurd (cc);
        }
        | inr other ↦ record {
          owns = owned device u stored (ground (arith, hit, plain, other));
          assigned = λ _ account e.
              is_assigned-IsAssigned jwt.account_id account u e (ground (arith, hit, plain, other));
        }
      ]

  Sees-joined :
      (device : String) (s : Sees R db jwt device) → Memᴰ s.owns.row (joined R jwt db device)
  unfolding joined
  Sees-joined device s =
      let row = s.owns.row in
      R.user_emulator.find-mem _ db s.owns.link row s.owns.stored
        (elim (Bool-cases (is_admin_token R jwt)) [
          | inl admin ↦ ground (
            arith,
            plain,
            admin,
            s.owns.active,
            s.owns.same_device,
            s.owns.same_user,
            eq_iff row.device device,
            eq_iff row.user jwt.sub,
          )
          | inr other ↦ ground (
            arith,
            plain,
            other,
            s.owns.active,
            s.owns.same_device,
            s.owns.same_user,
            eq_iff row.device device,
            eq_iff row.user jwt.sub,
            IsAssigned-is_assigned jwt.account_id row (s.assigned other),
          )
        ])

  shown-Sees : (e : Emulator) → is_shown R jwt db e ≡ true → Sees R db jwt e.device_id
  unfolding is_shown
  shown-Sees e h =
      let (u, m) = any-mem (joined R jwt db e.device_id) (ground (arith, h, plain)) in
      joined-Sees e.device_id u m

  module _ (c : IsConsistent db) where
    Sees-registered :
        (e : Emulator)
        → emulator_at db e.device_id ≡ some e
        → Sees R db jwt e.device_id
        → is_registered e.state ≡ true
    Sees-registered e at s = ground (
      arith,
      at,
      c.registered s.owns.link s.owns.row s.owns.stored s.owns.active,
      s.owns.same_device,
    )

    Sees-shown :
        (e : Emulator)
        → emulator_at db e.device_id ≡ some e
        → Sees R db jwt e.device_id
        → is_shown R jwt db e ≡ true
    unfolding is_shown
    Sees-shown e at s = ground (
      arith,
      plain,
      Sees-registered e at s,
      mem-any (joined R jwt db e.device_id) s.owns.row (Sees-joined e.device_id s),
    )

    Sees-stored : (k : String) → Sees R db jwt k → (e : Emulator) × (emulator_at db k ≡ some e)
    Sees-stored k s = elim (Option-cases (emulator_at db k)) [
      | inr (e, at) ↦ (e, at)
      | inl missing ↦ absurd (
          ground (
            arith,
            missing,
            c.registered s.owns.link s.owns.row s.owns.stored s.owns.active,
            s.owns.same_device,
          ))
    ]

    -- In a database with the invariant of the links, a user who is not a super admin is shown exactly
    -- the devices that he owns; with a token of an account that is not an admin's, only those of them
    -- whose link is assigned to the account.
    pub find_all-Sees :
        (k : String)
        → ((v : DeviceView) × Memᴰ v (find_all R env jwt db) × (v.device.device_id ≡ k))
          ↔ Sees R db jwt k
    unfolding find_all
    find_all-Sees k = (
      λ (v, m, same).
          let (e, n, here) =
            collect-mem (λ d. some (view R env jwt db d)) (R.emulator.find (is_shown R jwt db) db)
              m in
          let (at, shown) = R.emulator.mem-find (is_shown R jwt db) db e n in
          let here' : view R env jwt db e ≡ v = cc in
          let id : e.device_id ≡ k =
            sym (view-device R env jwt db e)
            ∙ ap (λ (w : DeviceView). w.device.device_id) here'
            ∙ same in
          subst (Sees R db jwt) id (shown-Sees e shown),
      λ s.
          let (e, at) = Sees-stored k s in
          let key = lookup-key emulator_key k db.emulators at in
          let at' = subst (λ d. emulator_at db d ≡ some e) (sym key) at in
          (
            view R env jwt db e,
            mem-collect (λ d. some (view R env jwt db d)) (R.emulator.find (is_shown R jwt db) db)
                (R.emulator.find-mem (is_shown R jwt db) db k e at
                  (Sees-shown e at' (subst (Sees R db jwt) (sym key) s)))
                refl,
            view-device R env jwt db e ∙ key,
          ),
    )
