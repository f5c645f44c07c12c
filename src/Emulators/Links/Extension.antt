-- ===== src/Emulators/Links/Extension.antt =====
-- What the extension of a link does.
use damaru_server.Prelude.{
  ℕ, String, ◌≡◌, refl, ap, ◌∙◌, Bool, true, some, ◌==◌, if◌then◌else◌, arith, eq_iff, Option-cases,
  inl, inr, ◌⊎◌,
}
use damaru_server.Prelude.Exec.{ok, last-eq-ok}
use damaru_server.Environment.{Environment, add}
use damaru_server.Database.{UserEmulator, Db}
use damaru_server.Database.Repositories.{Repositories, link_at}
use damaru_server.Database.Statements.{update_link}
use damaru_server.Database.Effects.{link_updated}
use damaru_server.Emulators.Links.{ExtendExpiryDto, links, extend}

module _ (env : Environment) (dto : ExtendExpiryDto) (db t : Db) where
  -- A link of the user and the device, and no other row, has the new date.
  pub record IsExtended : Type 0 where
    pub row : UserEmulator
    pub stored : link_at db row.id ≡ some row
    pub device : row.device ≡ dto.device_id
    pub user : row.user ≡ dto.user_id
    pub links_after :
        (k : String)
        → link_at t k ≡ (
            if row.id == k
            then some (record row { expires_at = add env dto.days "days" (some row.expires_at) })
            else link_at db k)
    pub same : t ≡ record db { user_emulators = t.user_emulators }

  pub record IsUnlinked : Type 0 where
    pub absent :
        (k : String) (u : UserEmulator)
        → link_at db k ≡ some u
        → u.device ≡ dto.device_id
        → u.user ≡ dto.user_id
        → ⊥
    pub same : t ≡ db

module _ (R : Repositories) (env : Environment) where
  abbrev postpone : ExtendExpiryDto → UserEmulator → UserEmulator → UserEmulator
  postpone dto u v = record v { expires_at = add env dto.days "days" (some u.expires_at) }

  extended :
      (dto : ExtendExpiryDto) (db t : Db) (u : UserEmulator)
      → link_at db u.id ≡ some u
      → links dto.user_id dto.device_id u ≡ true
      → (n : ℕ) → update_link R u.id (postpone dto u) db ≡ (ok n, t)
      → IsExtended env dto db t
  extended dto db t u stored mine n e =
      let (rows, same, law) = link_updated R u.id (postpone dto u) db (λ r. refl) e in
      record {
        row = u;
        stored = stored;
        device = ground (arith, mine, eq_iff u.device dto.device_id, eq_iff u.user dto.user_id);
        user = ground (arith, mine, eq_iff u.device dto.device_id, eq_iff u.user dto.user_id);
        links_after =
            λ k. ap (λ (x : Db). link_at x k) same ∙ ground (arith, law k, stored, eq_iff u.id k);
        same = rw same refl;
      }

  -- An extension that succeeds moves the end of one link of the user and the device by the days that are
  -- asked for, from the end that it had, and changes nothing else; without such a link it changes nothing.
  pub extend-IsExtended :
      (dto : ExtendExpiryDto) (db t : Db)
      → extend R env dto db ≡ (ok tt, t)
      → IsExtended env dto db t ⊎ IsUnlinked env dto db t
  unfolding extend
  extend-IsExtended dto db t e =
      let mine : UserEmulator → Bool = links dto.user_id dto.device_id in
      elim (Option-cases (R.user_emulator.find_one mine db)) [
        | inl missing ↦ inr (record {
          absent = λ k u at device user. ground (
            arith,
            R.user_emulator.find_one-complete mine db k u missing at,
            device,
            user,
            eq_iff u.device dto.device_id,
            eq_iff u.user dto.user_id,
          );
          same = ground (arith, e, missing);
        })
        | inr (u, found) ↦
            let (stored, hit) = R.user_emulator.find_one-sound mine db u found in
            let (n, updated) =
              last-eq-ok (update_link R u.id (postpone dto u) db) (rw (found, extend) at e) in
            inl (extended dto db t u stored hit n updated)
      ]
