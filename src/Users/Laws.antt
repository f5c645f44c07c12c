-- ===== src/Users/Laws.antt =====
-- What the removal of a user leaves behind.
use mathlib.Core.List.{Memᴰ}
use mathlib.Core.Path.{subst}
use mathlib.Core.Option
use damaru_server.Prelude.{
  String, ◌≡◌, ◌≢◌, refl, sym, ap, ◌∙◌, true, none, some, List, [], ◌∷◌, arith, eq_iff,
  Option-cases, inl, inr,
}
use damaru_server.Prelude.Exec.{Result, ok, continue-eq-ok, for_each}
use damaru_server.Repository.{lookup}
use damaru_server.Database.{Emulator, UserEmulator, available, registered, Db}
use damaru_server.Database.Repositories.{Repositories, emulator_key, link_at, link_key}
use damaru_server.Database.Statements.{insert_log, update_emulator}
use damaru_server.Database.Statements
use damaru_server.Database.Cascade.{IsGone, delete_user-IsGone}
use damaru_server.ActivityLogs.{log, CreateActivityLogDto}
use damaru_server.Emulators.Links.{set_state}
use damaru_server.Emulators.Links.Invariant.{IsConsistent, state_at}
use damaru_server.Users.{links_of, free_device, deletion, remove}

module _ (R : Repositories) (id : String) where
  -- The links are as in `db`, and the devices of the other users' active links are registered.
  record IsFreed (db s : Db) : Type 0 where
    links : s.user_emulators ≡ db.user_emulators
    others :
        (k : String) (v : UserEmulator)
        → link_at db k ≡ some v
        → v.unlinked_at ≡ none
        → v.user ≢ id
        → state_at s v.device ≡ some registered

  free_device-IsFreed :
      (db s : Db) (u : UserEmulator)
      → IsConsistent db
      → link_at db u.id ≡ some u
      → links_of id u ≡ true
      → IsFreed db s
      → IsFreed db (free_device R u s).1
  unfolding free_device update_emulator
  free_device-IsFreed db s u c stored mine h =
      elim (Option-cases (R.emulator.update u.device (set_state available) s)) [
        | inl refused ↦ rw refused h
        | inr ((n, rows), q) ↦ rw q (record {
          links = h.links;
          others = λ k v at open' other. ground (
            arith,
            R.emulator.lookup-update u.device (set_state available) s n rows (λ r. refl) q v.device,
            h.others k v,
            c.unique u.id k u v,
            stored,
            mine,
            at,
            eq_iff u.device v.device,
            eq_iff u.id k,
            eq_iff u.user id,
          );
        })
      ]

  freed :
      (db : Db) (us : List UserEmulator)
      → IsConsistent db
      → ((u : UserEmulator) → Memᴰ u us → (link_at db u.id ≡ some u) × (links_of id u ≡ true))
      → (s t : Db) → IsFreed db s
      → for_each (free_device R) us s ≡ (ok tt, t)
      → IsFreed db t
  unfolding for_each
  freed db [] c found s t h e = let same : s ≡ t = ground arith in subst (IsFreed db) same h
  freed db (u ∷ us) c found s t h e =
      let (stored, mine) = found u (Memᴰ.head refl) in
      let (_, s', step, rest) =
        continue-eq-ok (free_device R u s) (λ _. for_each (free_device R) us) tt t e in
      freed db us c (λ v m. found v (Memᴰ.tail m)) s' t
        (subst (IsFreed db) (ap (λ (x : Result (Unit {0}) × Db). x.1) step)
          (free_device-IsFreed db s u c stored mine h))
        rest

  logged-same :
      (dto : CreateActivityLogDto) (db t : Db) {m : String}
      → log R dto db ≡ (ok m, t)
      → (t.emulators ≡ db.emulators) × (t.user_emulators ≡ db.user_emulators)
  unfolding log insert_log
  logged-same dto db t e =
      elim (Option-cases (
        R.activity_log.insert (λ l. record { id = l; action = dto.action; metadata = dto.metadata })
          db)) [
            | inl refused ↦ absurd (ground arith)
            | inr ((l, rows), q) ↦ (ground arith, ground arith)
          ]

  freed-IsConsistent :
      (db s t : Db)
      → IsConsistent db
      → IsFreed db s
      → Statements.delete_user R id s ≡ (ok tt, t)
      → IsGone id t × IsConsistent t
  freed-IsConsistent db s t c h e =
      let (gone, emulators, links) = delete_user-IsGone R id s t e in
      let kept : (k : String) (u : UserEmulator) → link_at t k ≡ some u → link_at db k ≡ some u =
        λ k u at.
          ap (λ (l : List UserEmulator). lookup link_key k l) (sym h.links) ∙ links k u at in
      (
        gone,
        record {
          registered = λ k u at open'.
              ap
                (λ (l : List Emulator).
                  Option.map (λ (x : Emulator). x.state) (lookup emulator_key u.device l))
                emulators
              ∙ h.others k u (kept k u at) open' (gone.link k u at);
          unique = λ j k u v at_j at_k. c.unique j k u v (kept j u at_j) (kept k v at_k);
        },
      )

  -- From a database with the invariant of the links: the removal of a user that succeeds leaves no
  -- row, no account and no link of the user, and a database with the invariant: the devices of the
  -- other users' active links are still registered.
  pub remove-IsGone :
      (message : String) (db t : Db)
      → IsConsistent db
      → remove R id db ≡ (ok message, t)
      → IsGone id t × IsConsistent t
  unfolding remove
  remove-IsGone message db t c e =
      let us : List UserEmulator = R.user_emulator.find (links_of id) db in
      let (m, s, recorded, rest) = continue-eq-ok (log R (deletion id) db) _ message t e in
      let (emulators, links) = logged-same (deletion id) db s recorded in
      let (_, s', done, last) = continue-eq-ok (for_each (free_device R) us s) _ message t rest in
      let (_, t', deleted, end) =
        continue-eq-ok (Statements.delete_user R id s') _ message t last in
      let h : IsFreed db s = record {
        links = links;
        others = λ k v at open' other.
            ap
              (λ (l : List Emulator).
                Option.map (λ (x : Emulator). x.state) (lookup emulator_key v.device l))
              emulators
            ∙ c.registered k v at open';
      } in
      subst (λ d. IsGone id d × IsConsistent d) (ap (λ (x : Result String × Db). x.1) end)
        (freed-IsConsistent db s' t' c
          (freed db us c (R.user_emulator.mem-find (links_of id) db) s s' h done) deleted)
