-- ===== src/Routes/Laws.antt =====
-- Which requests are served at all, and what a user's requests can reach.
use damaru_server.Prelude.{String, ◌≡◌, refl, Bool, true, false, none, some}
use damaru_server.Prelude.Exec.{Result, ok, err, unauthorized}
use damaru_server.Token.{JwtToken}
use damaru_server.Environment.{Environment}
use damaru_server.Guards.{http, can_activate}
use damaru_server.Guards.Laws.{IsAllowed, can_activate_iff, can_activate_refusal}
use damaru_server.Database.{Db}
use damaru_server.Database.Repositories.{Repositories}
use damaru_server.Users.{Draws}
use damaru_server.Routes.{Request, guard_of, handle, serve, guarded}

module _ (R : Repositories) (env : Environment) (d : Draws) where
  passed :
      (user : JwtToken) (request : Request) (message : String) (db t : Db) (r : Result Bool)
      → can_activate (guard_of request) http (some user) ≡ r
      → guarded r (handle R env d user request) db ≡ (ok message, t)
      → IsAllowed (guard_of request) user × (handle R env d user request db ≡ (ok message, t))
  passed user request message db t (ok true) open' e =
      (((can_activate_iff (guard_of request) http user).0 open').1, e)
  passed user request message db t (ok false) closed e = absurd cc
  passed user request message db t (err x) closed e = absurd cc

  -- A request with no valid token, or with a token that its route's guard is not for, is refused and
  -- changes nothing, whatever the request.
  pub serve_refused :
      (user : JwtToken) (request : Request) (db : Db)
      → ¬ IsAllowed (guard_of request) user
      → (serve R env d none request db ≡ (err (unauthorized "Unauthorized"), db))
        × (serve R env d (some user) request db ≡ (err (unauthorized "You are not authorized"), db))
  unfolding serve
  serve_refused user request db h = (refl, rw ((can_activate_refusal (guard_of request) user h).0))

  -- A request that returns was one for which its route's guard is made, and what it returns and
  -- leaves behind is the service's.
  pub serve_returned :
      (user : JwtToken) (request : Request) (message : String) (db t : Db)
      → serve R env d (some user) request db ≡ (ok message, t)
      → IsAllowed (guard_of request) user × (handle R env d user request db ≡ (ok message, t))
  unfolding serve
  serve_returned user request message db t e =
      passed user request message db t (can_activate (guard_of request) http (some user)) refl e
