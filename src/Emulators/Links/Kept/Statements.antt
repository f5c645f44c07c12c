-- ===== src/Emulators/Links/Kept/Statements.antt =====
-- The statements on the devices and the links, and the deletions with their cascades, that keep the
-- links.
use damaru_server.Prelude.{
  String, ◌≡◌, refl, ap, ◌∙◌, sym, Bool, Option, none, some, List, ◌==◌, arith, eq_iff,
  Option-cases, inl, inr,
}
use mathlib.Core.Path.{subst}
use mathlib.Core.Option
use damaru_server.Prelude.Exec.{err, query_failed}
use damaru_server.Repository.{lookup}
use damaru_server.Database.{Emulator, UserEmulator, AccountEmulator, Db}
use damaru_server.Database.Repositories.{Repositories, emulator_key, link_key, emulator_at, link_at}
use damaru_server.Database.Statements.{
  saved_all, delete_assignments, delete_account, delete_emulator, insert_emulator, update_emulator,
  update_link, prune_connections, prune_assignments, prune_links,
}
use damaru_server.Database.Cascade.{prune_links-eq-some, prune_assignments-eq-some}
use damaru_server.Database.Effects.{prune_connections-eq-some}
use damaru_server.Emulators.Links.Kept.{KeepsLinks, KeepsLinks-refl, same-KeepsLinks}

saved_all-KeepsLinks :
    (o : Option Db) (db : Db)
    → ((t : Db) → o ≡ some t → KeepsLinks db t)
    → KeepsLinks db (saved_all o db).1
saved_all-KeepsLinks none db h = KeepsLinks-refl db
saved_all-KeepsLinks (some t) db h = h t refl

module _ (R : Repositories) (db : Db) where
  pub delete_assignments-KeepsLinks :
      (p : AccountEmulator → Bool) → KeepsLinks db (delete_assignments R p db).1
  unfolding delete_assignments
  delete_assignments-KeepsLinks p = elim (Option-cases (R.account_emulator.delete p db)) [
    | inl refused ↦
        let same : delete_assignments R p db ≡ (err query_failed, db) = ground arith in
        subst (λ x. KeepsLinks db x.1) (sym same) (KeepsLinks-refl db)
    | inr (rows, q) ↦
        let s : Db = record db { account_emulators = rows } in
        let same : delete_assignments R p db ≡ saved_all (prune_connections R s) db =
          ground arith in
        subst (λ x. KeepsLinks db x.1) (sym same)
          (saved_all-KeepsLinks (prune_connections R s) db λ t e.
            let (left, pruned) = prune_connections-eq-some R s e in
            same-KeepsLinks db t (ap (λ (d : Db). d.emulators) pruned)
              (ap (λ (d : Db). d.user_emulators) pruned))
  ]

  pub delete_account-KeepsLinks : (id : String) → KeepsLinks db (delete_account R id db).1
  unfolding delete_account
  delete_account-KeepsLinks id = elim (Option-cases (R.account.delete (λ a. a.id == id) db)) [
    | inl refused ↦
        let same : delete_account R id db ≡ (err query_failed, db) = ground arith in
        subst (λ x. KeepsLinks db x.1) (sym same) (KeepsLinks-refl db)
    | inr (rows, q) ↦
        let s : Db = record db { accounts = rows } in
        let same : delete_account R id db ≡ saved_all (prune_assignments R s) db = ground arith in
        subst (λ x. KeepsLinks db x.1) (sym same)
          (saved_all-KeepsLinks (prune_assignments R s) db λ t e.
            let (emulators, _, _, links) = prune_assignments-eq-some R s t e in
            same-KeepsLinks db t emulators links)
  ]

  -- The links of a device go with it, so the state of the other links' devices is as before.
  pub delete_emulator-KeepsLinks : (id : String) → KeepsLinks db (delete_emulator R id db).1
  unfolding delete_emulator
  delete_emulator-KeepsLinks id =
      elim (Option-cases (R.emulator.delete (λ e. e.device_id == id) db)) [
        | inl refused ↦
            let same : delete_emulator R id db ≡ (err query_failed, db) = ground arith in
            subst (λ x. KeepsLinks db x.1) (sym same) (KeepsLinks-refl db)
        | inr (rows, q) ↦
            let s : Db = record db { emulators = rows } in
            let same : delete_emulator R id db ≡ saved_all (prune_links R s) db = ground arith in
            subst (λ x. KeepsLinks db x.1) (sym same)
              (saved_all-KeepsLinks (prune_links R s) db λ t e.
                let (emulators, _, _, links) = prune_links-eq-some R s t e in
                λ k u at. record {
                  row = u;
                  stored = ground (arith, links k, at);
                  device = refl;
                  unlinked = refl;
                  state = λ h.
                      ap
                        (λ (l : List Emulator).
                          Option.map (λ (x : Emulator). x.state) (lookup emulator_key u.device l))
                        emulators
                      ∙ ground (
                        arith,
                        links k,
                        at,
                        R.emulator.lookup-delete (λ d. d.device_id == id) db rows q u.device,
                        h,
                      );
                })
      ]

  pub insert_emulator-KeepsLinks : (e : Emulator) → KeepsLinks db (insert_emulator R e db).1
  unfolding insert_emulator
  insert_emulator-KeepsLinks e = elim (Option-cases (R.emulator.insert (λ _. e) db)) [
    | inl refused ↦ rw refused (KeepsLinks-refl db)
    | inr ((id, rows), q) ↦
        let (free, _, _) = R.emulator.insert-free (λ _. e) db id rows q in
        rw q λ k u at. record {
          row = u;
          stored = at;
          device = refl;
          unlinked = refl;
          state = λ h. ground (
            arith,
            R.emulator.lookup-insert (λ _. e) db id rows q u.device,
            eq_iff id u.device,
            free,
            h,
          );
        }
  ]

  -- An update that keeps the primary key and the state.
  pub update_emulator-KeepsLinks :
      (id : String) (f : Emulator → Emulator)
      → ((r : Emulator) → emulator_key (f r) ≡ emulator_key r)
      → ((r : Emulator) → (f r).state ≡ r.state)
      → KeepsLinks db (update_emulator R id f db).1
  unfolding update_emulator
  update_emulator-KeepsLinks id f keyed state = elim (Option-cases (R.emulator.update id f db)) [
    | inl refused ↦ rw refused (KeepsLinks-refl db)
    | inr ((n, rows), q) ↦ rw q λ k u at. record {
      row = u;
      stored = at;
      device = refl;
      unlinked = refl;
      state = λ h. elim (Option-cases (emulator_at db u.device)) [
        | inl missing ↦ absurd (ground (arith, missing, h))
        | inr (e, found) ↦
            ground
              (arith, R.emulator.lookup-update id f db n rows keyed q u.device, found, h, state e)
      ];
    }
  ]

  -- An update that keeps the primary key, the device and the end of a link.
  pub update_link-KeepsLinks :
      (id : String) (f : UserEmulator → UserEmulator)
      → ((r : UserEmulator) → link_key (f r) ≡ link_key r)
      → ((r : UserEmulator) → (f r).device ≡ r.device)
      → ((r : UserEmulator) → (f r).unlinked_at ≡ r.unlinked_at)
      → KeepsLinks db (update_link R id f db).1
  unfolding update_link
  update_link-KeepsLinks id f keyed device unlinked =
      elim (Option-cases (R.user_emulator.update id f db)) [
        | inl refused ↦ rw refused (KeepsLinks-refl db)
        | inr ((n, rows), q) ↦ rw q λ k u at. elim (Option-cases (link_at db k)) [
          | inl missing ↦
              absurd (
                ground (arith, R.user_emulator.lookup-update id f db n rows keyed q k, at, missing))
          | inr (v, found) ↦ record {
            row = v;
            stored = found;
            device = ground (
              arith,
              R.user_emulator.lookup-update id f db n rows keyed q k,
              at,
              found,
              device v,
            );
            unlinked = ground (
              arith,
              R.user_emulator.lookup-update id f db n rows keyed q k,
              at,
              found,
              unlinked v,
            );
            state = λ h. h;
          }
        ]
      ]
