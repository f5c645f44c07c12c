-- ===== src/Signaling/Consistency.antt =====
-- The messages of the gateway and the invariant of devices and links.
use damaru_server.Prelude.{
  String, refl, Bool, true, false, Option, none, some, [], ◌∷◌, ◌==◌, if◌then◌else◌, Option-cases,
  Bool-cases, inl, inr,
}
use damaru_server.Prelude.Exec.{Exec, Result, ok, err, continue, skip}
use damaru_server.Token.{JwtToken}
use damaru_server.Environment.{Environment}
use damaru_server.Database.{online, offline, Db}
use damaru_server.Database.Repositories.{Repositories}
use damaru_server.Database.Statements.{insert_connection, update_connection, update_emulator}
use damaru_server.Emulators.Links.{is_device}
use damaru_server.Emulators.Links.Kept.{KeepsLinks, KeepsLinks-refl, KeepsLinks-trans}
use damaru_server.Emulators.Links.Kept.Tables.{
  insert_connection-KeepsLinks, update_connection-KeepsLinks,
}
use damaru_server.Emulators.Links.Kept.Statements.{update_emulator-KeepsLinks}
use damaru_server.Emulators.Devices
use damaru_server.Routes.Consistency.Emulators.{update-KeepsLinks}
use damaru_server.Signaling.{
  Message, answer, ice_candidate, disconnect, emit_to, Gateway, with_db, connected, set_status,
  disconnected, is_of, is_open, start_streaming, handle_offer, handle_answer, handle_ice_candidate,
  handle_hang_up, connect_emulator, close_connection, disconnect_emulator, restart_connection,
  leave, handle_disconnect,
}
use damaru_server.Signaling.Map.{Connections, get, set}
use damaru_server.Signaling.Events.{
  Event, on_start_streaming, on_offer, on_answer, on_ice_candidate, on_disconnect, on_connect,
  handle_event, receive, ws_user, ws_guarded, with_user, event_guard,
}
use damaru_server.Guards.{can_activate, ws}

abbrev pub Keeps : Gateway → Gateway → Type 0
Keeps g t = KeepsLinks g.db t.db

-- A statement, and what a handler does after it.
with_db-Keeps :
    {A B : Type 0} (g : Gateway) (r : Result A × Db) (f : A → Exec Gateway B)
    → KeepsLinks g.db r.1
    → ((a : A) (s : Gateway) → Keeps s (f a s).1)
    → Keeps g (continue (with_db g r) f).1
with_db-Keeps g (ok a, t) f h k = KeepsLinks-trans g.db t _ h (k a (record g { db = t }))
with_db-Keeps g (err e, t) f h k = h

module _ (R : Repositories) (env : Environment) where
  emit_to-Keeps : (id : Option String) (m : Message) (g : Gateway) → Keeps g (emit_to id m g).1
  emit_to-Keeps id m g = elim (Option-cases (get id g.connections)) [
    | inl nobody ↦ rw nobody (KeepsLinks-refl g.db)
    | inr (s, found) ↦ rw found (KeepsLinks-refl g.db)
  ]

  start_streaming-Keeps :
      (client : String) (device : Option String) (g : Gateway)
      → Keeps g (start_streaming R env client device g).1
  unfolding start_streaming
  start_streaming-Keeps client none g = KeepsLinks-refl g.db
  start_streaming-Keeps client (some device) g = elim (Bool-cases (device == "")) [
    | inl empty ↦ rw empty (KeepsLinks-refl g.db)
    | inr other ↦ rw other (
        with_db-Keeps (record g { connections = set (some device) client g.connections })
          (Devices.update R device (set_status online) none g.db) (λ _. skip)
          (update-KeepsLinks R g.db device (set_status online) none refl refl)
          (λ _ s. KeepsLinks-refl s.db))
  ]

  handle_offer-Keeps :
      (client : String) (user : JwtToken) (device : Option String) (sdp : String) (g : Gateway)
      → Keeps g (handle_offer R env client user device sdp g).1
  unfolding handle_offer
  handle_offer-Keeps client user device sdp g = elim (Option-cases (get device g.connections)) [
    | inl nobody ↦ rw nobody (KeepsLinks-refl g.db)
    | inr (s, found) ↦ rw found (KeepsLinks-refl g.db)
  ]

  handle_answer-Keeps :
      (client : Option String) (sdp : String) (g : Gateway)
      → Keeps g (handle_answer R env client sdp g).1
  unfolding handle_answer
  handle_answer-Keeps none sdp g = KeepsLinks-refl g.db
  handle_answer-Keeps (some client) sdp g = elim (Bool-cases (client == "")) [
    | inl empty ↦ rw empty (KeepsLinks-refl g.db)
    | inr other ↦ rw other (emit_to-Keeps (some client) (answer sdp) g)
  ]

  connect_emulator-Keeps :
      (client device : Option String) (g : Gateway)
      → Keeps g (connect_emulator R env client device g).1
  unfolding connect_emulator
  connect_emulator-Keeps client device g =
      elim (Option-cases (R.account_emulator.find_one (is_of g.db client device) g.db)) [
        | inl missing ↦ rw missing (KeepsLinks-refl g.db)
        | inr (a, found) ↦ rw found (
            with_db-Keeps g (insert_connection R (connected env a) g.db) (λ _. skip)
              (insert_connection-KeepsLinks R g.db (connected env a)) (λ _ s. KeepsLinks-refl s.db))
      ]

  close_connection-Keeps :
      (client : Option String) (g : Gateway) → Keeps g (close_connection R env client g).1
  unfolding close_connection
  close_connection-Keeps client g =
      elim (Option-cases (R.connection.find_one (is_open g.db client) g.db)) [
        | inl missing ↦ rw missing (KeepsLinks-refl g.db)
        | inr (c, found) ↦ rw found (
            with_db-Keeps g (update_connection R c.id (disconnected env) g.db) (λ _. skip)
              (update_connection-KeepsLinks R g.db c.id (disconnected env))
              (λ _ s. KeepsLinks-refl s.db))
      ]

  disconnect_emulator-Keeps :
      (id : Option String) (g : Gateway) → Keeps g (disconnect_emulator R env id g).1
  unfolding disconnect_emulator restart_connection
  disconnect_emulator-Keeps none g = elim (Option-cases (R.emulator.find_one (λ e. true) g.db)) [
    | inl missing ↦ rw missing (close_connection-Keeps none g)
    | inr (e, found) ↦ rw found (KeepsLinks-refl g.db)
  ]
  disconnect_emulator-Keeps (some id) g =
      elim (Option-cases (R.emulator.find_one (is_device id) g.db)) [
        | inl missing ↦ rw missing (close_connection-Keeps (some id) g)
        | inr (e, found) ↦ rw found (
            with_db-Keeps g (update_emulator R id (λ d. record d { status = offline }) g.db)
              (λ _. restart_connection R env e.device_name)
              (update_emulator-KeepsLinks R g.db id (λ d. record d { status = offline }) (λ r. refl)
                (λ r. refl))
              (λ _ s. KeepsLinks-refl s.db))
      ]

  leave_one-Keeps :
      (b : Bool) (id : Option String) (g : Gateway)
      → Keeps g (if b then (disconnect_emulator R env id g).1 else g)
  leave_one-Keeps true id g = disconnect_emulator-Keeps id g
  leave_one-Keeps false id g = KeepsLinks-refl g.db

  leave-Keeps :
      (client : String) (cs : Connections) (g : Gateway) → Keeps g (leave R env client cs g)
  unfolding leave
  leave-Keeps client [] g = KeepsLinks-refl g.db
  leave-Keeps client ((id, s) ∷ rest) g =
      let t : Gateway = if s == client then (disconnect_emulator R env id g).1 else g in
      KeepsLinks-trans g.db t.db (leave R env client rest t).db (leave_one-Keeps (s == client) id g)
        (leave-Keeps client rest t)

  handle_event-Keeps :
      (client : String) (user : JwtToken) (event : Event) (g : Gateway)
      → Keeps g (handle_event R env client user event g).1
  unfolding handle_event handle_ice_candidate handle_hang_up
  handle_event-Keeps client user (on_start_streaming device) g =
      start_streaming-Keeps client device g
  handle_event-Keeps client user (on_offer device sdp) g =
      handle_offer-Keeps client user device sdp g
  handle_event-Keeps client user (on_answer id sdp) g = handle_answer-Keeps id sdp g
  handle_event-Keeps client user (on_ice_candidate is_emulator id device candidate) g =
      emit_to-Keeps (if is_emulator then id else device)
        (ice_candidate candidate id device is_emulator) g
  handle_event-Keeps client user (on_disconnect id device) g =
      emit_to-Keeps device (disconnect id) g
  handle_event-Keeps client user (on_connect id device) g = connect_emulator-Keeps id device g

  ws_guarded-Keeps :
      (r : Result Bool) (m : Exec Gateway (Unit {0})) (g : Gateway)
      → Keeps g (m g).1
      → Keeps g (ws_guarded r m g).1
  ws_guarded-Keeps (ok true) m g h = h
  ws_guarded-Keeps (ok false) m g h = KeepsLinks-refl g.db
  ws_guarded-Keeps (err e) m g h = KeepsLinks-refl g.db

  with_user-Keeps :
      (client : String) (event : Event) (r : Result JwtToken) (g : Gateway)
      → Keeps g (with_user R env client event r g).1
  with_user-Keeps client event (err e) g = KeepsLinks-refl g.db
  with_user-Keeps client event (ok user) g =
      ws_guarded-Keeps (can_activate (event_guard event) ws (some user))
        (handle_event R env client user event) g (handle_event-Keeps client user event g)

  pub receive-Keeps :
      (verify : String → Option JwtToken) (header : Option String) (client : String) (event : Event)
      (g : Gateway)
      → Keeps g (receive R env verify header client event g).1
  unfolding receive
  receive-Keeps verify header client event g =
      with_user-Keeps client event (ws_user verify header) g

  pub handle_disconnect-Keeps :
      (client : String) (g : Gateway) → Keeps g (handle_disconnect R env client g).1
  unfolding handle_disconnect
  handle_disconnect-Keeps client g = leave-Keeps client g.connections g
