-- ===== src/Tests/Signaling.antt =====
-- A session, a socket that goes, and an offer to a device that nobody serves.
use damaru_server.Prelude.{◌≡◌, refl, some, [], ◌∷◌}
use damaru_server.Prelude.Exec.{ok, err, ws_exception}
use damaru_server.Repository.{lookup}
use damaru_server.Repository.Memory.{memory}
use damaru_server.Database.Statements.{update_emulator}
use damaru_server.Emulators.Devices.{write_patch, write, update}
use damaru_server.Signaling.{
  Gateway, offer, answer, socket, start_streaming, handle_offer, handle_answer, handle_disconnect,
}
use damaru_server.Signaling.Map.{get, set}
use damaru_server.Signaling.Sessions.{offer_and_answer, offer_after_disconnect}
use Prim.Native.String.{◌++◌}
use damaru_server.Prelude.{◌⊎◌}
use damaru_server.Prelude.Texts.{lacks}
use damaru_server.Guards.Laws.{IsAllowed}
use damaru_server.Signaling.Events.{on_answer, event_guard, handle_event, receive}
use damaru_server.Signaling.Events.Laws.{receive-cases}
use damaru_server.Tests.{in_memory, environment, database, root_token}

abbrev pub quiet : Gateway
quiet = record { db = database; connections = []; sent = [] }

abbrev streaming : Gateway
streaming = (start_streaming in_memory environment "s1" (some "d1") quiet).1

start_run : start_streaming in_memory environment "s1" (some "d1") quiet ≡ (ok tt, streaming)
unfolding start_streaming set update write write_patch update_emulator in_memory memory lookup
start_run = refl

offer_and_answer_example :
    (t u : Gateway) × (handle_offer in_memory environment "s2" root_token
        (some "d1")
        "sdp"
        streaming
      ≡ (ok tt, t))
    × (handle_answer in_memory environment (some "a1") "back" t ≡ (ok tt, u))
    × (u.sent ≡ (socket "s2", answer "back") ∷ (socket "s1", offer "sdp" (some "a1")) ∷ [])
offer_and_answer_example =
    offer_and_answer in_memory environment "s1" "s2" "d1" "a1" "sdp" "back" root_token quiet
      streaming (λ e. cc) (λ e. cc) refl start_run

abbrev served : Gateway
served = record { db = database; connections = (some "d1", "s1") ∷ []; sent = [] }

offer_after_disconnect_example :
    (t u : Gateway) × (handle_disconnect in_memory environment "s1" served ≡ (ok tt, t))
    × (handle_offer in_memory environment "s2" root_token (some "d1") "sdp" t ≡ (ok tt, u))
    × (u.sent ≡ (socket "s1", offer "sdp" (some "a1")) ∷ t.sent)
unfolding get
offer_after_disconnect_example =
    offer_after_disconnect in_memory environment "s2" "d1" "s1" "sdp" root_token served refl

-- An answer is not for an Android account.
receive-cases_example :
    (IsAllowed (event_guard (on_answer (some "a1") "sdp")) root_token
      × (receive in_memory environment
            (λ word. some root_token)
            (some ("Bearer " ++ "word"))
            "s2"
            (on_answer (some "a1") "sdp")
            served
          ≡ handle_event in_memory environment "s2" root_token
              (on_answer (some "a1") "sdp")
              served))
    ⊎ (¬ IsAllowed (event_guard (on_answer (some "a1") "sdp")) root_token
        × (receive in_memory environment
              (λ word. some root_token)
              (some ("Bearer " ++ "word"))
              "s2"
              (on_answer (some "a1") "sdp")
              served
            ≡ (err (ws_exception "You are not authorized"), served)))
unfolding lacks
receive-cases_example =
    receive-cases in_memory environment (λ word. some root_token) "word" root_token "s2"
      (on_answer (some "a1") "sdp") served refl refl
