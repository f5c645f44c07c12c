-- ===== src/Signaling/Events/Laws.antt =====
-- Which messages reach their handlers.
use Prim.Native.String.{◌++◌}
use damaru_server.Prelude.{String, ◌≡◌, refl, true, Option, some, ◌⊎◌, inl, inr}
use text.Mathlib.Text.{starts_with}
use text.Mathlib.TextPositions.{starts_with_of_prefix}
use text.Mathlib.TextLemmas.{prefix-append}
use damaru_server.Prelude.Texts.{lacks, split-bearer}
use damaru_server.Prelude.Exec.{ok, err, ws_exception}
use damaru_server.Token.{JwtToken}
use damaru_server.Environment.{Environment}
use damaru_server.Guards.{ws}
use damaru_server.Guards.Laws.{IsAllowed, can_activate_iff, can_activate_refusal, IsAllowed-cases}
use damaru_server.Database.Repositories.{Repositories}
use damaru_server.Signaling.{Gateway}
use damaru_server.Signaling.Events.{Event, event_guard, ws_user, handle_event, receive}

module _ (verify : String → Option JwtToken) where
  starts-bearer : (word : String) → starts_with ("Bearer " ++ word) "Bearer " ≡ true
  starts-bearer word =
      starts_with_of_prefix "Bearer " ("Bearer " ++ word) (prefix-append "Bearer " word)

  ws_user-bearer :
      (word : String) (user : JwtToken)
      → lacks 32 word ≡ true
      → verify word ≡ some user
      → ws_user verify (some ("Bearer " ++ word)) ≡ ok user
  unfolding ws_user
  ws_user-bearer word user h valid = rw (starts-bearer word, split-bearer word h, valid)

module _ (R : Repositories) (env : Environment) (verify : String → Option JwtToken) where
  -- A message whose header is `Bearer` and a token that is valid and has no space: if the guard of
  -- the message's event is made for the token's role, the message is handled with the token's payload,
  -- and if not, it is refused and changes nothing.
  pub receive-cases :
      (word : String) (user : JwtToken) (client : String) (event : Event) (g : Gateway)
      → lacks 32 word ≡ true
      → verify word ≡ some user
      → (IsAllowed (event_guard event) user
          × (receive R env verify (some ("Bearer " ++ word)) client event g
              ≡ handle_event R env client user event g))
        ⊎ (¬ IsAllowed (event_guard event) user
            × (receive R env verify (some ("Bearer " ++ word)) client event g
                ≡ (err (ws_exception "You are not authorized"), g)))
  unfolding receive
  receive-cases word user client event g h valid = elim (IsAllowed-cases (event_guard event) user) [
    | inl allowed ↦ inl (
      allowed,
      rw
          (
            ws_user-bearer verify word user h valid,
            (can_activate_iff (event_guard event) ws user).1 (λ e. cc, allowed),
          )
          refl,
    )
    | inr refused ↦ inr (
      refused,
      rw
          (
            ws_user-bearer verify word user h valid,
            (can_activate_refusal (event_guard event) user refused).1,
          )
          refl,
    )
  ]
