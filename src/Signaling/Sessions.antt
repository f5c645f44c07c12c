-- ===== src/Signaling/Sessions.antt =====
-- What a session of a client with a device sends, and what is left of it when a socket goes.
use damaru_server.Prelude.{
  String, ◌≡◌, ◌≢◌, refl, ap, ◌∙◌, Bool, true, false, Option, none, some, [], ◌∷◌, ◌==◌,
  if◌then◌else◌, arith, eq_iff, Option-cases, Bool-cases, true_eq, ◌↔◌, inl, inr,
}
use damaru_server.Prelude.Exec.{Result, ok, err, ws_exception, continue, skip}
use damaru_server.Token.{JwtToken}
use damaru_server.Environment.{Environment}
use damaru_server.Database.{Db, online, offline}
use damaru_server.Database.Statements.{update_connection, update_emulator}
use damaru_server.Emulators.Links.{is_device}
use damaru_server.Database.Repositories.{Repositories}
use damaru_server.Emulators.Devices
use damaru_server.Signaling.{
  Gateway, offer, answer, socket, with_db, set_status, start_streaming, handle_offer, handle_answer,
  handle_disconnect, leave, disconnect_emulator, close_connection, restart_connection, is_open,
  disconnected,
}
use damaru_server.Signaling.Map.{Connections, get, set, get-set}

module _ (R : Repositories) (env : Environment) where
  -- A statement changes the database alone.
  with_db-eq :
      {A : Type 0} (g s : Gateway) (r : Result A × Db)
      → continue (with_db g r) (λ _. skip) ≡ (ok tt, s)
      → (s.connections ≡ g.connections) × (s.sent ≡ g.sent)
  with_db-eq g s (ok a, t) e = (ground arith, ground arith)
  with_db-eq g s (err x, t) e = absurd cc

  with_db-keeps :
      {A : Type 0} (g : Gateway) (r : Result A × Db) (f : A → Gateway → Result (Unit {0}) × Gateway)
      → ((a : A) (s : Gateway) → (f a s).1.connections ≡ s.connections)
      → (continue (with_db g r) f).1.connections ≡ g.connections
  with_db-keeps g (ok a, t) f h = h a (record g { db = t })
  with_db-keeps g (err x, t) f h = refl

  -- A device that has started to stream is at its client's socket, and nothing is sent for that.
  start_streaming-eq :
      (client device : String) (g s : Gateway)
      → device ≢ ""
      → start_streaming R env client (some device) g ≡ (ok tt, s)
      → (s.connections ≡ set (some device) client g.connections) × (s.sent ≡ g.sent)
  unfolding start_streaming
  start_streaming-eq client device g s named e = elim (Bool-cases (device == "")) [
    | inl empty ↦ absurd (named (true_eq empty))
    | inr other ↦
        with_db-eq (record g { connections = set (some device) client g.connections }) s
          (Devices.update R device (set_status online) none g.db) (rw (other, start_streaming) at e)
  ]

  close_connection-keeps :
      (client : Option String) (g : Gateway)
      → (close_connection R env client g).1.connections ≡ g.connections
  unfolding close_connection
  close_connection-keeps client g =
      elim (Option-cases (R.connection.find_one (is_open g.db client) g.db)) [
        | inl missing ↦ rw missing
        | inr (c, found) ↦ rw found (
            with_db-keeps g (update_connection R c.id (disconnected env) g.db) (λ _. skip)
              (λ a s. refl))
      ]

  disconnect_emulator-keeps :
      (id : Option String) (g : Gateway)
      → (disconnect_emulator R env id g).1.connections ≡ g.connections
  unfolding disconnect_emulator restart_connection
  disconnect_emulator-keeps none g = elim (Option-cases (R.emulator.find_one (λ e. true) g.db)) [
    | inl missing ↦ rw missing (close_connection-keeps none g)
    | inr (e, found) ↦ rw found
  ]
  disconnect_emulator-keeps (some id) g =
      elim (Option-cases (R.emulator.find_one (is_device id) g.db)) [
        | inl missing ↦ rw missing (close_connection-keeps (some id) g)
        | inr (e, found) ↦ rw found (
            with_db-keeps g (update_emulator R id (λ d. record d { status = offline }) g.db)
              (λ _. restart_connection R env e.device_name) (λ a s. refl))
      ]

  leave_one-keeps :
      (b : Bool) (id : Option String) (g : Gateway)
      → (if b then (disconnect_emulator R env id g).1 else g).connections ≡ g.connections
  leave_one-keeps true id g = disconnect_emulator-keeps id g
  leave_one-keeps false id g = refl

  leave-keeps :
      (client : String) (cs : Connections) (g : Gateway)
      → (leave R env client cs g).connections ≡ g.connections
  unfolding leave
  leave-keeps client [] g = refl
  leave-keeps client ((id, s) ∷ rest) g =
      leave-keeps client rest _ ∙ leave_one-keeps (s == client) id g

  get_own : (k s : String) (cs : Connections) → get (some k) (set (some k) s cs) ≡ some s
  get_own k s cs = get-set (some k) (some k) s cs ∙ ground (arith, eq_iff k k)

  handle_answer-eq :
      (client account answered : String) (t : Gateway)
      → account ≢ ""
      → get (some account) t.connections ≡ some client
      → handle_answer R env (some account) answered t
        ≡ (ok tt, record t { sent = (socket client, answer answered) ∷ t.sent })
  unfolding handle_answer
  handle_answer-eq client account answered t known at = elim (Bool-cases (account == "")) [
    | inl empty ↦ absurd (known (true_eq empty))
    | inr other ↦ rw other (rw at)
  ]

  -- A device `emulator` streams; then a client with an account offers a session with the device, and
  -- the device answers the account: the offer goes to the device's socket, with the account's id, and
  -- the answer to the client's socket, and nothing else is sent.
  pub offer_and_answer :
      (emulator client device account offered answered : String) (token : JwtToken) (g s : Gateway)
      → device ≢ ""
      → account ≢ ""
      → token.account_id ≡ some account
      → start_streaming R env emulator (some device) g ≡ (ok tt, s)
      → (t u : Gateway) × (handle_offer R env client token (some device) offered s ≡ (ok tt, t))
        × (handle_answer R env (some account) answered t ≡ (ok tt, u))
        × (u.sent
            ≡ (socket client, answer answered)
              ∷ (socket emulator, offer offered (some account))
              ∷ g.sent)
  unfolding handle_offer handle_answer
  offer_and_answer emulator client device account offered answered token g s named known id
        started =
      let (connections, quiet) = start_streaming-eq emulator device g s named started in
      let found : get (some device) s.connections ≡ some emulator =
        ap (get (some device)) connections ∙ get_own device emulator g.connections in
      let t : Gateway = record s {
        connections = set token.account_id client s.connections;
        sent = (socket emulator, offer offered token.account_id) ∷ s.sent;
      } in
      let back : get (some account) t.connections ≡ some client =
        ap (λ k. get (some account) (set k client s.connections)) id
        ∙ get_own account client s.connections in
      (
        t,
        record t { sent = (socket client, answer answered) ∷ t.sent },
        rw found,
        handle_answer-eq client account answered t known back,
        cc (id, quiet),
      )

  -- `handleDisconnect` of the socket of a device keeps the socket in its place: an offer to the
  -- device is taken afterwards and sent to that socket.
  pub offer_after_disconnect :
      (client device gone : String) (sdp : String) (token : JwtToken) (g : Gateway)
      → get (some device) g.connections ≡ some gone
      → (t u : Gateway) × (handle_disconnect R env gone g ≡ (ok tt, t))
        × (handle_offer R env client token (some device) sdp t ≡ (ok tt, u))
        × (u.sent ≡ (socket gone, offer sdp token.account_id) ∷ t.sent)
  unfolding handle_disconnect handle_offer
  offer_after_disconnect client device gone sdp token g at =
      let t = leave R env gone g.connections g in
      let still : get (some device) t.connections ≡ some gone =
        ap (get (some device)) (leave-keeps gone g.connections g) ∙ at in
      (
        t,
        record t {
          connections = set token.account_id client t.connections;
          sent = (socket gone, offer sdp token.account_id) ∷ t.sent;
        },
        refl,
        rw still,
        refl,
      )

  -- An offer is refused as `Emulator not found`, and changes nothing, exactly when no socket is
  -- known for the device.
  handle_offer_iff :
      (client : String) (token : JwtToken) (device : Option String) (sdp : String) (g : Gateway)
      → (handle_offer R env client token device sdp g
          ≡ (err (ws_exception "Emulator not found"), g))
        ↔ (get device g.connections ≡ none)
  unfolding handle_offer
  handle_offer_iff client token device sdp g = elim (Option-cases (get device g.connections)) [
    | inl missing ↦ (λ _. missing, λ _. rw missing)
    | inr (s, found) ↦ (λ e. absurd (ground arith), λ e. absurd (ground arith))
  ]
