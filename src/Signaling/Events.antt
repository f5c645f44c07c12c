-- ===== src/Signaling/Events.antt =====
-- src/core/signaling/SignalingServerGateway.ts and src/core/guards/wsjwt.guard.ts: a message of a client
-- passes the guard of the token, then the guard of its role, and reaches its handler with the token's
-- payload. The JWT library's `verify` is a parameter: the payload of a valid token.
pub mod Laws
use damaru_server.Prelude.{ℕ, String, Bool, true, false, Option, none, some, ◌==◌, if◌then◌else◌}
use damaru_server.Prelude.Exec.{Exec, Result, ok, err, unauthorized, ws_exception, throw}
use damaru_server.Prelude.Texts.{split, second}
use text.Mathlib.Text.{starts_with}
use damaru_server.Token.{JwtToken, has_role, emulator_admin}
use damaru_server.Environment.{Environment}
use damaru_server.Guards.{
  Guard, ws, can_activate, emulator_admin_guard, android_users, emulator_users,
}
use damaru_server.Database.Repositories.{Repositories}
use damaru_server.Signaling.{
  Gateway, start_streaming, handle_offer, handle_answer, handle_ice_candidate, handle_hang_up,
  connect_emulator,
}

-- `@SubscribeMessage`: the events that clients send, with their bodies.
pub data Event : Type 0 where
  on_start_streaming : (device_id : Option String) → Event
  on_offer : (device_id : Option String) (sdp : String) → Event
  on_answer : (client_id : Option String) (sdp : String) → Event
  on_ice_candidate :
      (is_emulator : Bool) (client_id device_id : Option String) (candidate : String) → Event
  on_disconnect on_connect : (client_id device_id : Option String) → Event

-- `@UseGuards`, after the guard of the token
abbrev pub event_guard : Event → Guard
event_guard (on_start_streaming device) = emulator_admin_guard
event_guard (on_offer device sdp) = android_users
event_guard (on_answer client sdp) = emulator_admin_guard
event_guard (on_ice_candidate is_emulator client device candidate) = emulator_users
event_guard (on_disconnect client device) = emulator_users
event_guard (on_connect client device) = emulator_users

-- A header that is absent or empty has no token.
abbrev missing_token : Result JwtToken
missing_token = err (unauthorized "Authorization token missing or malformed")

abbrev verified : Option JwtToken → Result JwtToken
verified none = err (ws_exception "Invalid or expired token")
verified (some user) = ok user

abbrev verify_word : (String → Option JwtToken) → Option String → Option JwtToken
verify_word verify none = none
verify_word verify (some word) = verify word

-- `WsJwtGuard.canActivate`
pub ws_user : (String → Option JwtToken) → Option String → Result JwtToken
ws_user verify none = missing_token
ws_user verify (some header) =
    if starts_with header "Bearer "
    then verified (verify_word verify (second (split 32 header)))
    else missing_token

abbrev pub ws_guarded : Result Bool → Exec Gateway (Unit {0}) → Exec Gateway (Unit {0})
ws_guarded (ok true) m = m
ws_guarded (ok false) m = throw (ws_exception "Forbidden resource")
ws_guarded (err e) m = throw e

-- The middleware of `afterInit`: whether a new socket joins the room of the emulator admins, or is
-- refused.
unfoldable admit : (String → Option JwtToken) → Option String → Result Bool
admit verify header = elim header [
  | none ↦ err (ws_exception "Unauthorized")
  | some text ↦ elim (verify_word verify (second (split 32 text))) [
    | none ↦ err (ws_exception "Unauthorized")
    | some user ↦ ok (has_role user emulator_admin)
  ]
]

module _ (R : Repositories) (env : Environment) where
  unfoldable pub handle_event : String → JwtToken → Event → Exec Gateway (Unit {0})
  unfolding start_streaming handle_ice_candidate handle_hang_up connect_emulator
  handle_event client user (on_start_streaming device) = start_streaming R env client device
  handle_event client user (on_offer device sdp) = handle_offer R env client user device sdp
  handle_event client user (on_answer id sdp) = handle_answer R env id sdp
  handle_event client user (on_ice_candidate is_emulator id device candidate) =
      handle_ice_candidate R env is_emulator id device candidate
  handle_event client user (on_disconnect id device) = handle_hang_up R env id device
  handle_event client user (on_connect id device) = connect_emulator R env id device

  abbrev pub with_user : String → Event → Result JwtToken → Exec Gateway (Unit {0})
  with_user client event (err e) = throw e
  with_user client event (ok user) =
      ws_guarded (can_activate (event_guard event) ws (some user)) (handle_event client user event)

  -- A message of the socket `client`, whose handshake had the header.
  unfoldable pub receive :
      (String → Option JwtToken) → Option String → String → Event → Exec Gateway (Unit {0})
  receive verify header client event = with_user client event (ws_user verify header)
