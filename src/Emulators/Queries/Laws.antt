-- ===== src/Emulators/Queries/Laws.antt =====
-- What the list of the devices shows, and to whom.
use mathlib.Core.Path.{subst}
use damaru_server.Prelude.{
  ℕ, String, ◌≡◌, refl, sym, ap, ◌∙◌, Bool, true, false, none, some, List, [], ◌∷◌, if◌then◌else◌,
  ◌⊎◌, ◌↔◌, Memᴰ, arith, eq_iff, Option-cases, inl, inr,
}
use damaru_server.Prelude.Lists.{mem-collect, collect-mem}
use damaru_server.Token.{JwtToken, has_role, super_admin}
use damaru_server.Environment.{Environment}
use damaru_server.Repository.{lookup-key}
use damaru_server.Database.{
  Emulator, UserEmulator, EmulatorState, available, registered, Db, is_null,
}
use damaru_server.Database.Repositories.{Repositories, emulator_key, emulator_at, link_at}
use damaru_server.Accounts.Queries.{with_screenshot}
use damaru_server.Accounts.Queries.Laws.{with_screenshot-id}
use damaru_server.Emulators.Links.Invariant.{IsConsistent}
use damaru_server.Emulators.Links.Owners.{Owns}
use damaru_server.Emulators.Queries.{
  DeviceView, bare_view, put_link, map_registered, map_state, response_mapper, joined, is_shown,
  find_all,
}

module _ (env : Environment) (db : Db) where
  -- The user of the view is that of an active link of the list, or as before if there is none.
  record FromLink (us : List UserEmulator) (v : DeviceView) : Type 0 where
    link : UserEmulator
    listed : Memᴰ link us
    active : link.unlinked_at ≡ none
    shown : (map_registered env db us v).user_id ≡ some link.user

  record FromNone (us : List UserEmulator) (v : DeviceView) : Type 0 where
    ended : (u : UserEmulator) → Memᴰ u us → u.unlinked_at ≡ none → ⊥
    shown : (map_registered env db us v).user_id ≡ v.user_id

  closed_not_open :
      (u : UserEmulator) {date : ℕ} → u.unlinked_at ≡ some date → u.unlinked_at ≡ none → ⊥
  closed_not_open u closed open' = ground (arith, closed, open')

  not_active :
      (w u : UserEmulator) (us : List UserEmulator)
      → (u.unlinked_at ≡ none → ⊥)
      → ((v : UserEmulator) → Memᴰ v us → v.unlinked_at ≡ none → ⊥)
      → Memᴰ w (u ∷ us)
      → w.unlinked_at ≡ none
      → ⊥
  not_active w u us first rest (Memᴰ.head same) h =
      first (ap (λ (v : UserEmulator). v.unlinked_at) (sym same) ∙ h)
  not_active w u us first rest (Memᴰ.tail m) h = rest w m h

  map_registered-cases : (us : List UserEmulator) (v : DeviceView) → FromLink us v ⊎ FromNone us v
  unfolding map_registered
  map_registered-cases [] v = inr (record { ended = λ u m. elim m [ ]; shown = refl })
  map_registered-cases (u ∷ us) v =
      elim (map_registered-cases us (if is_null u.unlinked_at then put_link env db u v else v)) [
        | inl l ↦ inl (record {
          link = l.link;
          listed = Memᴰ.tail l.listed;
          active = l.active;
          shown = l.shown;
        })
        | inr n ↦ elim (Option-cases u.unlinked_at) [
          | inl open' ↦ inl (record {
            link = u;
            listed = Memᴰ.head refl;
            active = open';
            shown = n.shown ∙ rw open' refl;
          })
          | inr (date, closed) ↦ inr (record {
            ended = λ w m h. not_active w u us (closed_not_open u closed) n.ended m h;
            shown = n.shown ∙ rw closed refl;
          })
        ]
      ]

  put-device :
      (b : Bool) (u : UserEmulator) (v : DeviceView)
      → (if b then put_link env db u v else v).device ≡ v.device
  put-device true u v = refl
  put-device false u v = refl

  map_registered-device :
      (us : List UserEmulator) (v : DeviceView) → (map_registered env db us v).device ≡ v.device
  unfolding map_registered
  map_registered-device [] v = refl
  map_registered-device (u ∷ us) v =
      map_registered-device us (if is_null u.unlinked_at then put_link env db u v else v)
      ∙ put-device (is_null u.unlinked_at) u v

  map_state-device :
      (s : EmulatorState) (us : List UserEmulator) (v : DeviceView)
      → (map_state env db s us v).device ≡ v.device
  map_state-device available us v = refl
  map_state-device registered us v = map_registered-device us v

module _ (R : Repositories) (env : Environment) (jwt : JwtToken) (db : Db) where
  -- A device as the list shows it
  abbrev pub view : Emulator → DeviceView
  view e = response_mapper env db e (joined R jwt db e.device_id)

  pub view-device : (e : Emulator) → (view e).device.device_id ≡ e.device_id
  unfolding response_mapper
  view-device e =
      ap (λ (d : Emulator). d.device_id)
        (map_state-device env db e.state (joined R jwt db e.device_id)
          (bare_view (with_screenshot env e)))
      ∙ with_screenshot-id env e

module _ (R : Repositories) (env : Environment) (jwt : JwtToken) (db : Db)
    (super : has_role jwt super_admin ≡ true) (c : IsConsistent db) where
  mem-joined :
      (device : String) (u : UserEmulator)
      → Memᴰ u (joined R jwt db device)
      → (link_at db u.id ≡ some u) × (u.device ≡ device)
  unfolding joined
  mem-joined device u m =
      let (stored, hit) = R.user_emulator.mem-find _ db u m in
      (stored, ground (arith, hit, super, eq_iff u.device device))

  joined-mem :
      (device k : String) (u : UserEmulator)
      → link_at db k ≡ some u
      → u.device ≡ device
      → Memᴰ u (joined R jwt db device)
  unfolding joined
  joined-mem device k u at same =
      R.user_emulator.find-mem _ db k u at (ground (arith, super, same, eq_iff u.device device))

  shown_user :
      (s : EmulatorState) (e : Emulator) (w : DeviceView) (x : String)
      → emulator_at db e.device_id ≡ some e
      → e.state ≡ s
      → w.user_id ≡ none
      → ((map_state env db s (joined R jwt db e.device_id) w).user_id ≡ some x)
        ↔ Owns db e.device_id x
  shown_user available e w x stored free fresh = (
    λ h. absurd (ground (arith, h, fresh)),
    λ o.
        absurd (
          ground (arith, c.registered o.link o.row o.stored o.active, o.same_device, stored, free)),
  )
  shown_user registered e w x stored taken fresh =
      elim (map_registered-cases env db (joined R jwt db e.device_id) w) [
        | inl l ↦
            let (at, same) = mem-joined e.device_id l.link l.listed in
            (
              λ h. record {
                link = l.link.id;
                row = l.link;
                stored = at;
                active = l.active;
                same_device = same;
                same_user = ground (arith, h, l.shown);
              },
              λ o.
                  let key : l.link.id ≡ o.link =
                    c.unique l.link.id o.link l.link o.row at o.stored l.active o.active
                      (same ∙ sym o.same_device) in
                  l.shown ∙ ground (arith, at, o.stored, key, o.same_user),
            )
        | inr n ↦ (
          λ h. absurd (ground (arith, h, n.shown, fresh)),
          λ o.
              absurd (
                n.ended o.row (joined-mem e.device_id o.link o.row o.stored o.same_device)
                  o.active),
        )
      ]

  shown_all : (e : Emulator) → is_shown R jwt db e ≡ true
  unfolding is_shown
  shown_all e = rw super

  view-owner :
      (e : Emulator) (x : String)
      → emulator_at db e.device_id ≡ some e
      → ((view R env jwt db e).user_id ≡ some x) ↔ Owns db (view R env jwt db e).device.device_id x
  unfolding response_mapper
  view-owner e x at =
      subst (λ d. ((view R env jwt db e).user_id ≡ some x) ↔ Owns db d x)
        (sym (view-device R env jwt db e))
        (shown_user e.state e (bare_view (with_screenshot env e)) x at refl refl)

  -- For a super admin, in a database with the invariant, the user that the list shows with a device is
  -- the one who owns it, if any.
  pub find_all-owner :
      (v : DeviceView)
      → Memᴰ v (find_all R env jwt db)
      → (x : String) → (v.user_id ≡ some x) ↔ Owns db v.device.device_id x
  unfolding find_all
  find_all-owner v m x =
      let (e, n, same) =
        collect-mem (λ d. some (view R env jwt db d)) (R.emulator.find (is_shown R jwt db) db) m in
      let (at, _) = R.emulator.mem-find (is_shown R jwt db) db e n in
      let here : view R env jwt db e ≡ v = cc in
      subst (λ (y : DeviceView). (y.user_id ≡ some x) ↔ Owns db y.device.device_id x) here
        (view-owner e x at)

  -- Every device is in the list of a super admin.
  find_all-every :
      (k : String) (e : Emulator)
      → emulator_at db k ≡ some e
      → (v : DeviceView) × Memᴰ v (find_all R env jwt db) × (v.device.device_id ≡ k)
  unfolding find_all
  find_all-every k e at = (
    view R env jwt db e,
    mem-collect (λ d. some (view R env jwt db d)) (R.emulator.find (is_shown R jwt db) db)
        (R.emulator.find-mem (is_shown R jwt db) db k e at (shown_all e)) refl,
    view-device R env jwt db e ∙ lookup-key emulator_key k db.emulators at,
  )
