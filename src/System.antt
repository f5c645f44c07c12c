-- ===== src/System.antt =====
-- The server as a whole: the requests of the controllers, the logins, the messages of the gateway, the
-- sockets that go, the starts with their seeding and the switch of the encryption, one after another, in
-- any order and each at its own time. A request or a message runs to its end before the next one begins.
pub mod Seeder
pub mod Failures
use damaru_server.Prelude.{[], ◌==◌, ◌≡◌, Option, String, ap, refl, sym}
use damaru_server.Prelude.Exec.{
  Result, ok, err, Exception, http_exception, not_found, unauthorized, bad_request, ws_exception,
  type_error, query_failed, Ends,
}
use mathlib.Core.Path.{subst}
use damaru_server.Token.{JwtToken}
use damaru_server.Environment.{Environment}
use damaru_server.Database.{Db}
use damaru_server.Database.Repositories.{Repositories}
use damaru_server.Users.{Draws}
use damaru_server.Emulators.Links.Invariant.{IsConsistent, AfterError}
use damaru_server.Emulators.Links.Kept.{
  KeepsLinks, KeepsLinks-refl, continue-KeepsLinks, KeepsLinks-IsConsistent,
}
use damaru_server.Emulators.Links.Kept.Tables.{update_encryption-KeepsLinks}
use damaru_server.Database.Statements.{update_encryption}
use damaru_server.Encryption.{switch, set_encryption, toggle_encryption}
use Seeder.{SeedConfig, seed}
use Seeder.Links.{seed-KeepsLinks}
use damaru_server.Auth.{Credentials, AuthRequest, serve_auth}
use damaru_server.Auth.Consistency.{serve_auth-KeepsLinks}
use damaru_server.Routes.Reads.{ReadRequest, serve_read}
use damaru_server.Routes.Reads.Laws.{serve_read-Keeps}
use damaru_server.Routes.{Request, serve}
use damaru_server.Routes.Consistency.{LeavesIdAndState, serve-Ends}
use damaru_server.Signaling.{Gateway, handle_disconnect}
use damaru_server.Signaling.Events.{Event, receive}
use damaru_server.Signaling.Consistency.{receive-Keeps, handle_disconnect-Keeps}

-- A request has returned or was refused with an HTTP exception.
abbrev IsSettled : {A : Type 0} → Result A → Type 0
IsSettled (ok a) = Unit
IsSettled (err type_error) = ⊥
IsSettled (err query_failed) = ⊥
IsSettled (err (http_exception message status)) = Unit
IsSettled (err (not_found message)) = Unit
IsSettled (err (unauthorized message)) = Unit
IsSettled (err (bad_request message)) = Unit
IsSettled (err (ws_exception message)) = Unit

-- A start of the server: no socket is connected.
abbrev pub restarted : Db → Gateway → Gateway
restarted db g = record { db = db; connections = []; sent = g.sent }

module _ (R : Repositories) where
  -- One event, at the time and with the configuration `env`. A message may end in any way.
  pub data Step : Gateway → Gateway → Type 0 where
    requested :
        (env : Environment) (d : Draws) (token : Option JwtToken) (request : Request) (g : Gateway)
        (r : Result String) (t : Db)
        → LeavesIdAndState request
        → serve R env d token request g.db ≡ (r, t)
        → IsSettled r
        → Step g (record g { db = t })
    received :
        (env : Environment) (verify : String → Option JwtToken) (header : Option String)
        (client : String) (event : Event) (g : Gateway)
        → Step g (receive R env verify header client event g).1
    started : (c : SeedConfig) (g : Gateway) → Step g (restarted (seed R c g.db).1 g)
    switched :
        (status : String) (g : Gateway)
        → Step g (record g { db = (set_encryption R status g.db).1 })
    authenticated :
        (env : Environment) (c : Credentials) (caller : Option JwtToken) (request : AuthRequest)
        (g : Gateway)
        → Step g (record g { db = (serve_auth R env c caller request g.db).1 })
    read :
        (env : Environment) (token : Option JwtToken) (request : ReadRequest) (g : Gateway)
        → Step g (serve_read R env token request g).1
    left :
        (env : Environment) (client : String) (g : Gateway)
        → Step g (handle_disconnect R env client g).1

  pub data Reach (g : Gateway) : Gateway → Type 0 where
    start : Reach g g
    then : (s t : Gateway) → Reach g s → Step s t → Reach g t

  settled :
      (r : Result String) (t : Db)
      → IsSettled r
      → Ends IsConsistent AfterError (r, t)
      → IsConsistent t
  settled (ok a) t s h = h
  settled (err type_error) t s h = absurd s
  settled (err query_failed) t s h = absurd s
  settled (err (http_exception message status)) t s h = h
  settled (err (not_found message)) t s h = h
  settled (err (unauthorized message)) t s h = h
  settled (err (bad_request message)) t s h = h
  settled (err (ws_exception message)) t s h = h

  set_encryption-KeepsLinks :
      (status : String) (db : Db) → KeepsLinks db (set_encryption R status db).1
  unfolding set_encryption toggle_encryption
  set_encryption-KeepsLinks status db =
      continue-KeepsLinks {A = String} db (update_encryption R "1" (switch (status == "true")) db) _
        (update_encryption-KeepsLinks R db "1" (switch (status == "true")))
        (λ _ s. KeepsLinks-refl s)

  Step-IsConsistent : (g t : Gateway) → IsConsistent g.db → Step g t → IsConsistent t.db
  Step-IsConsistent _ _ c (requested env d token request g r t keyed e s) =
      settled r t s
        (subst (Ends IsConsistent AfterError) e (serve-Ends R env d token request g.db c keyed))
  Step-IsConsistent _ _ c (received env verify header client event g) =
      KeepsLinks-IsConsistent g.db _ (receive-Keeps R env verify header client event g) c
  Step-IsConsistent _ _ c (started config g) =
      KeepsLinks-IsConsistent g.db _ (seed-KeepsLinks R config g.db) c
  Step-IsConsistent _ _ c (switched status g) =
      KeepsLinks-IsConsistent g.db _ (set_encryption-KeepsLinks status g.db) c
  Step-IsConsistent _ _ c (authenticated env credentials caller request g) =
      KeepsLinks-IsConsistent g.db _ (serve_auth-KeepsLinks R env credentials caller request g.db) c
  Step-IsConsistent _ _ c (read env token request g) =
      subst IsConsistent (sym (serve_read-Keeps R env token request g).0) c
  Step-IsConsistent _ _ c (left env client g) =
      KeepsLinks-IsConsistent g.db _ (handle_disconnect-Keeps R env client g) c

  -- From a state with the invariant of the links, each state that requests, logins, messages, leaving
  -- sockets, starts and the encryption's switch lead to, in any order, has the invariant: an active link
  -- is of a registered device, and no device has two active links. The requests are ones that read, or
  -- that return or are refused with an HTTP exception; the body of an update of a device is supposed to
  -- have neither the device's id nor its state, which the code does not check.
  pub Reach-IsConsistent : (g t : Gateway) → IsConsistent g.db → Reach g t → IsConsistent t.db
  Reach-IsConsistent g _ c start = c
  Reach-IsConsistent g _ c (then s t before step) =
      Step-IsConsistent s t (Reach-IsConsistent g s c before) step
