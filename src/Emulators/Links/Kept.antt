-- ===== src/Emulators/Links/Kept.antt =====
-- Changes that leave the links and the state of their devices alone. They keep the invariant of
-- devices and links, and follow one another.
pub mod Tables
pub mod Statements
use damaru_server.Prelude.{
  String, ◌≡◌, refl, sym, ap, ◌∙◌, Bool, true, false, Option, none, some, List, [], ◌∷◌,
  if◌then◌else◌, arith, inl, inr, Bool-cases,
}
use mathlib.Core.Path.{subst}
use mathlib.Core.Option
use damaru_server.Prelude.Exec.{
  Exec, Result, ok, err, type_error, query_failed, http_exception, not_found, unauthorized,
  bad_request, ws_exception, continue, for_each, for_each-keeps, logged, Ends,
}
use damaru_server.Repository.{lookup}
use damaru_server.Database.{Emulator, UserEmulator, registered, Db}
use damaru_server.Database.Repositories.{emulator_key, link_key, link_at}
use damaru_server.Emulators.Links.Invariant.{IsConsistent, state_at, AfterError}

-- Each link was there before, of the same device and as active, and if its device was registered, it
-- still is.
pub record IsKept (db t : Db) (k : String) (u : UserEmulator) : Type 0 where
  pub row : UserEmulator
  pub stored : link_at db k ≡ some row
  pub device : row.device ≡ u.device
  pub unlinked : row.unlinked_at ≡ u.unlinked_at
  pub state : state_at db u.device ≡ some registered → state_at t u.device ≡ some registered

abbrev pub KeepsLinks : Db → Db → Type 0
KeepsLinks db t = (k : String) (u : UserEmulator) → link_at t k ≡ some u → IsKept db t k u

pub KeepsLinks-refl : (db : Db) → KeepsLinks db db
KeepsLinks-refl db k u at = record {
  row = u;
  stored = at;
  device = refl;
  unlinked = refl;
  state = λ h. h;
}

pub KeepsLinks-trans : (db s t : Db) → KeepsLinks db s → KeepsLinks s t → KeepsLinks db t
KeepsLinks-trans db s t g h k u at =
    let p = h k u at in
    let q = g k p.row p.stored in
    record {
      row = q.row;
      stored = q.stored;
      device = q.device ∙ p.device;
      unlinked = q.unlinked ∙ p.unlinked;
      state = λ e. p.state (
          subst (λ d. state_at s d ≡ some registered) p.device
            (q.state (subst (λ d. state_at db d ≡ some registered) (sym p.device) e)));
    }

-- The tables of the devices and the links are as before.
pub same-KeepsLinks :
    (db t : Db)
    → t.emulators ≡ db.emulators
    → t.user_emulators ≡ db.user_emulators
    → KeepsLinks db t
same-KeepsLinks db t emulators links k u at = record {
  row = u;
  stored = ap (λ (l : List UserEmulator). lookup link_key k l) (sym links) ∙ at;
  device = refl;
  unlinked = refl;
  state = λ e.
      ap
        (λ (l : List Emulator).
          Option.map (λ (x : Emulator). x.state) (lookup emulator_key u.device l))
        emulators
      ∙ e;
}

-- Such a change keeps the invariant.
pub KeepsLinks-IsConsistent : (db t : Db) → KeepsLinks db t → IsConsistent db → IsConsistent t
KeepsLinks-IsConsistent db t h c = record {
  registered = λ k u at active.
      let p = h k u at in
      p.state (
        subst (λ d. state_at db d ≡ some registered) p.device
          (c.registered k p.row p.stored (p.unlinked ∙ active)));
  unique = λ j k u v at_j at_k active_u active_v same.
      let p = h j u at_j in
      let q = h k v at_k in
      c.unique j k p.row q.row p.stored q.stored (p.unlinked ∙ active_u) (q.unlinked ∙ active_v)
        (p.device ∙ same ∙ sym q.device);
}

module _ {A : Type 0} where
  pub result-Ends : {t : Db} → IsConsistent t → (r : Result A) → Ends IsConsistent AfterError (r, t)
  result-Ends c (ok a) = c
  result-Ends c (err type_error) = tt
  result-Ends c (err query_failed) = tt
  result-Ends c (err (http_exception message status)) = c
  result-Ends c (err (not_found message)) = c
  result-Ends c (err (unauthorized message)) = c
  result-Ends c (err (bad_request message)) = c
  result-Ends c (err (ws_exception message)) = c

  pub KeepsLinks-Ends :
      (db : Db) (r : Result A × Db)
      → IsConsistent db
      → KeepsLinks db r.1
      → Ends IsConsistent AfterError r
  KeepsLinks-Ends db (r, t) c h = result-Ends (KeepsLinks-IsConsistent db t h c) r

  -- What a run has kept, a step after it keeps too.
  pub continue-KeepsLinks :
      {B : Type 0} (db : Db) (r : Result B × Db) (f : B → Db → Result A × Db)
      → KeepsLinks db r.1
      → ((b : B) (s : Db) → KeepsLinks s (f b s).1)
      → KeepsLinks db (continue r f).1
  continue-KeepsLinks db (ok b, s) f h k = KeepsLinks-trans db s (f b s).1 h (k b s)
  continue-KeepsLinks db (err e, s) f h k = h

  pub for_each-KeepsLinks :
      (f : A → Exec Db (Unit {0}))
      → ((x : A) (s : Db) → KeepsLinks s (f x s).1)
      → (xs : List A) (db : Db) → KeepsLinks db (for_each f xs db).1
  for_each-KeepsLinks f h xs db =
      for_each-keeps (KeepsLinks db) f (λ x s k. KeepsLinks-trans db s (f x s).1 k (h x s)) xs db
        (KeepsLinks-refl db)

pub logged-KeepsLinks :
    (db : Db) (r : Result (Unit {0}) × Db) → KeepsLinks db r.1 → KeepsLinks db (logged r).1
logged-KeepsLinks db (r, t) h = h
