-- ===== src/Emulators/Links/Owners.antt =====
-- The links by what they promise: a device has an owner or none. `linkEmulator` and `unlinkEmulator`
-- implement the operations on such a map of owners.
use mathlib.Core.Path.{subst}
use damaru_server.Prelude.{
  String, ◌≡◌, refl, Option, none, some, List, [], ◌∷◌, ◌==◌, if◌then◌else◌, ◌&&◌, arith, eq_iff,
  Option-cases, Bool-cases, inl, inr,
}
use damaru_server.Token.{is_text}
use damaru_server.Environment.{Environment}
use damaru_server.Database.{UserEmulator, registered, Db, is_null}
use damaru_server.Database.Repositories.{Repositories, link_at}
use damaru_server.Emulators.Links.{links_now, new_link}
use damaru_server.Emulators.Links.Rounds.{IsRegistered, IsClosed}
use damaru_server.Emulators.Links.Invariant.{
  IsConsistent, state_at, registered-IsConsistent, closed-IsConsistent,
}

-- The specification: the owner of each device. Linking is for devices that nobody owns, and
-- unlinking takes a device from the user only.
abbrev pub Owners : Type 0
Owners = String → Option String

abbrev pub give : String → String → Owners → Owners
give user device o d = if device == d then some user else o d

abbrev pub take : String → String → Owners → Owners
take user device o d = if device == d && is_text (o d) user then none else o d

unfoldable pub link_spec : String → List String → Owners → Option Owners
link_spec user [] o = some o
link_spec user (device ∷ rest) o =
    let later = link_spec user rest (give user device o) in
    if is_null (o device) then later else none

unfoldable pub unlink_spec : String → List String → Owners → Owners
unlink_spec user [] o = o
unlink_spec user (device ∷ rest) o = unlink_spec user rest (take user device o)

pub record Owns (db : Db) (device user : String) : Type 0 where
  pub link : String
  pub row : UserEmulator
  pub stored : link_at db link ≡ some row
  pub active : row.unlinked_at ≡ none
  pub same_device : row.device ≡ device
  pub same_user : row.user ≡ user

-- A database with the invariant shows these owners: those of the active links.
pub record Shows (db : Db) (o : Owners) : Type 0 where
  pub consistent : IsConsistent db
  pub owner :
      (k : String) (u : UserEmulator)
      → link_at db k ≡ some u
      → u.unlinked_at ≡ none
      → o u.device ≡ some u.user
  pub owned : (device user : String) → o device ≡ some user → Owns db device user

module _ (R : Repositories) (env : Environment) (user : String) where
  pub nobody :
      (device : String) (db : Db) (o : Owners)
      → Shows db o
      → (state_at db device ≡ some registered → ⊥)
      → o device ≡ none
  nobody device db o s fresh = elim (Option-cases (o device)) [
    | inl free ↦ free
    | inr (x, taken) ↦
        let w = s.owned device x taken in
        absurd (
          fresh (
            subst (λ d. state_at db d ≡ some registered) w.same_device
              (s.consistent.registered w.link w.row w.stored w.active)))
  ]

  pub registered-Shows :
      (device : String) (db t : Db) (o : Owners)
      → Shows db o
      → (state_at db device ≡ some registered → ⊥)
      → IsRegistered R env user device db t
      → Shows t (give user device o)
  unfolding new_link
  registered-Shows device db t o s fresh r = record {
    consistent = registered-IsConsistent R env user device db t s.consistent fresh r;
    owner = λ k u at open'. ground (
      arith,
      r.links_after k,
      s.owner k u,
      nobody device db o s fresh,
      at,
      open',
      eq_iff device u.device,
      eq_iff device device,
    );
    owned = λ d x at. elim (Bool-cases (device == d)) [
      | inl here ↦ record {
        link = r.link;
        row = new_link env user device r.link;
        stored = ground (arith, r.links_after r.link, eq_iff r.link r.link);
        active = refl;
        same_device = ground (arith, eq_iff device d);
        same_user = ground (arith, at, here);
      }
      | inr other ↦
          let w = s.owned d x (ground (arith, at, other)) in
          record {
            link = w.link;
            row = w.row;
            stored = ground (arith, r.links_after w.link, r.free, eq_iff r.link w.link, w.stored);
            active = w.active;
            same_device = w.same_device;
            same_user = w.same_user;
          }
    ];
  }

  -- The link that was closed was the only active one of its device.
  pub closed-Shows :
      (device : String) (u : UserEmulator) (db t : Db) (o : Owners)
      → Shows db o
      → link_at db u.id ≡ some u
      → u.unlinked_at ≡ none
      → u.device ≡ device
      → u.user ≡ user
      → IsClosed R env device u db t
      → Shows t (take user device o)
  closed-Shows device u db t o s stored open' same mine r =
      let had : o device ≡ some user = ground (arith, s.owner u.id u stored open', same, mine) in
      record {
        consistent = closed-IsConsistent R env user device u db t s.consistent stored open' same r;
        owner = λ k v at active. ground (
          arith,
          r.links_after k,
          s.owner k v,
          s.consistent.unique u.id k u v,
          stored,
          open',
          same,
          at,
          active,
          eq_iff device v.device,
          eq_iff u.id k,
        );
        owned = λ d x at.
            let w = s.owned d x (ground (arith, at)) in
            record {
              link = w.link;
              row = w.row;
              stored = ground (
                arith,
                r.links_after w.link,
                w.stored,
                w.same_device,
                w.same_user,
                stored,
                same,
                mine,
                had,
                at,
                eq_iff u.id w.link,
                eq_iff device d,
                eq_iff user user,
              );
              active = w.active;
              same_device = w.same_device;
              same_user = w.same_user;
            };
      }

  -- Where the user has no active link to the device, the specification takes nothing.
  pub untouched :
      (device : String) (db : Db) (o : Owners)
      → Shows db o
      → R.user_emulator.find_one (links_now user device) db ≡ none
      → Shows db (take user device o)
  untouched device db o s missing = record {
    consistent = s.consistent;
    owner = λ k u at open'. ground (
      arith,
      s.owner k u at open',
      R.user_emulator.find_one-complete (links_now user device) db k u missing at,
      open',
      eq_iff device u.device,
      eq_iff u.device device,
      eq_iff u.user user,
    );
    owned = λ d x at. s.owned d x (ground (arith, at));
  }
