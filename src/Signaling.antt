-- ===== src/Signaling.antt =====
-- src/core/signaling/SignalingServerGateway.ts, and `connectEmulator` and `disconnectEmulator` of
-- src/modules/emulators/services/emulator.service.ts, which it calls. A message is what a client
-- sends, so its fields may be absent; an account id is absent from a super admin's token.
pub mod Map
pub mod Sessions
pub mod Events
pub mod Consistency
use damaru_server.Prelude.{
  String, Bool, true, if◌then◌else◌, ◌&&◌, Option, none, some, List, [], ◌∷◌, ◌==◌,
}
use damaru_server.Prelude.Exec.{
  Exec, Result, ok, err, query_failed, ws_exception, gets, throw, non_null, skip, when_some, ◌>>=◌,
  ◌>>◌,
}
use damaru_server.Token.{JwtToken}
use damaru_server.Environment.{Environment, today}
use damaru_server.Database.{
  Emulator, EmulatorStatus, online, offline, UserEmulator, AccountEmulator, EmulatorConnection, Db,
  is_null,
}
use damaru_server.Database.Repositories.{Repositories, wanted, link_at, assignment_at}
use damaru_server.Database.Statements.{insert_connection, update_connection, update_emulator}
use damaru_server.Accounts.{non_empty}
use damaru_server.Emulators.Links.{is_device}
use damaru_server.Emulators.Devices.{EmulatorPatch, no_change}
use damaru_server.Emulators.Devices
use Map.{Connections, get, set}

-- The events that the server emits.
pub data Message : Type 0 where
  offer : (sdp : String) (client_id : Option String) → Message
  answer : (sdp : String) → Message
  ice_candidate :
      (candidate : String) (client_id device_id : Option String) (is_emulator : Bool) → Message
  disconnect : (client_id : Option String) → Message
  restart : (device_name : Option String) → Message

-- To a socket, by its id, or to a room.
pub data Target : Type 0 where
  socket room : String → Target

-- The gateway's map and what it has emitted, the latest first, beside the database.
pub record Gateway : Type 0 where
  pub db : Db
  pub connections : Connections
  pub sent : List (Target × Message)

abbrev pub with_db : {A : Type 0} → Gateway → Result A × Db → Result A × Gateway
with_db g (r, t) = (r, record g { db = t })

abbrev on_db : {A : Type 0} → Exec Db A → Exec Gateway A
on_db m g = with_db g (m g.db)

abbrev emit : Target → Message → Exec Gateway (Unit {0})
emit target message g = (ok tt, record g { sent = (target, message) ∷ g.sent })

abbrev connect_as : Option String → String → Exec Gateway (Unit {0})
connect_as id client g = (ok tt, record g { connections = set id client g.connections })

-- `this.connections.get(id)?.emit(…)`
abbrev pub emit_to : Option String → Message → Exec Gateway (Unit {0})
emit_to id message = do
  found ← gets (λ g. get id g.connections)
  when_some found (λ client. emit (socket client) message)

-- `if (id)`
abbrev given : Option String → (String → Exec Gateway (Unit {0})) → Exec Gateway (Unit {0})
given none f = skip
given (some s) f = when_some (non_empty (some s)) f

abbrev admin_room : String
admin_room = "emulatorAdmin"

abbrev pub set_status : EmulatorStatus → EmulatorPatch
set_status status = record no_change { status = some status }

abbrev pub disconnected : Environment → EmulatorConnection → EmulatorConnection
disconnected env c = record c { disconnected_at = some (today env) }

abbrev pub connected : Environment → AccountEmulator → String → EmulatorConnection
connected env assignment id = record {
  id = id;
  account_emulators = assignment.id;
  connected_at = today env;
  disconnected_at = none;
}

unfoldable pub is_of : Db → Option String → Option String → AccountEmulator → Bool
is_of db client device a =
    wanted client a.account
    && elim (link_at db a.user_emulator) [ none ↦ is_null device | some u ↦ wanted device u.device ]

unfoldable pub is_open : Db → Option String → EmulatorConnection → Bool
is_open db client c = is_null c.disconnected_at && elim (assignment_at db c.account_emulators) [
  | none ↦ is_null client
  | some a ↦ wanted client a.account
]

module _ (R : Repositories) (env : Environment) where
  unfoldable pub restart_connection : Option String → Exec Gateway (Unit {0})
  restart_connection device_name = emit (room admin_room) (restart device_name)

  unfoldable pub start_streaming : String → Option String → Exec Gateway (Unit {0})
  start_streaming client device =
      given device λ id. do
        connect_as device client
        on_db (Devices.update R id (set_status online) none)
        skip

  pub handle_offer : String → JwtToken → Option String → String → Exec Gateway (Unit {0})
  handle_offer client user device sdp = do
    found ← gets (λ g. get device g.connections)
    elim found [
      | none ↦ throw (ws_exception "Emulator not found")
      | some emulator ↦ (do
        connect_as user.account_id client
        emit (socket emulator) (offer sdp user.account_id))
    ]

  pub handle_answer : Option String → String → Exec Gateway (Unit {0})
  handle_answer client sdp = given client (λ id. emit_to client (answer sdp))

  pub handle_ice_candidate : Bool → Option String → Option String → String → Exec Gateway (Unit {0})
  handle_ice_candidate is_emulator client device candidate =
      emit_to (if is_emulator then client else device)
        (ice_candidate candidate client device is_emulator)

  pub handle_hang_up : Option String → Option String → Exec Gateway (Unit {0})
  handle_hang_up client device = emit_to device (disconnect client)

  pub connect_emulator : Option String → Option String → Exec Gateway (Unit {0})
  connect_emulator client device = do
    found ← gets (λ g. R.account_emulator.find_one (is_of g.db client device) g.db)
    assignment ← non_null found
    on_db (insert_connection R (connected env assignment))
    skip

  pub close_connection : Option String → Exec Gateway (Unit {0})
  close_connection client = do
    found ← gets (λ g. R.connection.find_one (is_open g.db client) g.db)
    when_some found λ c. do on_db (update_connection R c.id (disconnected env)); skip

  -- `update` refuses an absent criterion.
  pub disconnect_emulator : Option String → Exec Gateway (Unit {0})
  disconnect_emulator none = do
    found ← gets (λ g. R.emulator.find_one (λ e. true) g.db)
    elim found [ some e ↦ throw query_failed | none ↦ close_connection none ]
  disconnect_emulator (some client) = do
    found ← gets (λ g. R.emulator.find_one (is_device client) g.db)
    elim found [
      | some e ↦ (do
        on_db (update_emulator R client (λ d. record d { status = offline }))
        restart_connection e.device_name)
      | none ↦ close_connection (some client)
    ]

  -- `handleDisconnect` does not await the calls: a failure of one goes unnoticed, and the map keeps
  -- its entries.
  pub leave : String → Connections → Gateway → Gateway
  leave client [] g = g
  leave client ((id, s) ∷ rest) g =
      leave client rest (if s == client then (disconnect_emulator id g).1 else g)

  pub handle_disconnect : String → Exec Gateway (Unit {0})
  handle_disconnect client g = (ok tt, leave client g.connections g)
