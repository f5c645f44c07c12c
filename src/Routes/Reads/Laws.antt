-- ===== src/Routes/Reads/Laws.antt =====
-- What the reading routes leave as it was, and what they show.
use damaru_server.Prelude.{
  String, ◌≡◌, refl, Bool, true, false, Option, none, some, ◌==◌, ◌||◌, Option-cases, Bool-cases,
  inl, inr,
}
use damaru_server.Prelude.Exec.{Result, ok, err, continue-keeps}
use damaru_server.Token.{JwtToken, has_role, super_admin}
use damaru_server.Environment.{Environment}
use damaru_server.Database.{Db}
use damaru_server.Database.Repositories.{Repositories}
use damaru_server.Accounts.Queries.{find_one}
use damaru_server.Signaling.{Gateway, with_db, restart_connection}
use damaru_server.Routes.Reads.{
  ReadRequest, list_emulators, list_linked_accounts, list_connections, restart_emulator,
  list_accounts, get_account, list_users, list_logs, read_guard, read_access, guarded_read,
  handle_read, serve_read,
}

-- The database and the sockets stay.
abbrev pub Keeps : Gateway → Gateway → Type 0
Keeps g t = (t.db ≡ g.db) × (t.connections ≡ g.connections)

with_db-Keeps :
    {A : Type 0} (g : Gateway) (r : Result A × Db) → r.1 ≡ g.db → Keeps g (with_db g r).1
with_db-Keeps g (r, t) same = (same, refl)

module _ (R : Repositories) (env : Environment) where
  found-keeps : (id : String) (user : JwtToken) (db : Db) → (find_one R env id user db).1 ≡ db
  unfolding find_one
  found-keeps id user db = elim (Option-cases (R.account.find_one (λ a. a.id == id) db)) [
    | inl missing ↦ rw missing refl
    | inr (a, found) ↦ elim (Bool-cases (has_role user super_admin || user.sub == a.user)) [
      | inl open' ↦ rw found (rw open' refl)
      | inr closed ↦ rw found (rw closed refl)
    ]
  ]

  handled-Keeps :
      (user : JwtToken) (request : ReadRequest) (g : Gateway)
      → Keeps g (handle_read R env user request g).1
  unfolding handle_read restart_connection
  handled-Keeps user list_emulators g = (refl, refl)
  handled-Keeps user (list_linked_accounts device) g = (refl, refl)
  handled-Keeps user (list_connections account device) g = (refl, refl)
  handled-Keeps user (restart_emulator device_name) g = (refl, refl)
  handled-Keeps user list_accounts g = (refl, refl)
  handled-Keeps user (get_account id) g =
      continue-keeps (Keeps g) (with_db g (find_one R env id user g.db)) _
        (with_db-Keeps g (find_one R env id user g.db) (found-keeps id user g.db)) (λ _ t k. k)
  handled-Keeps user list_users g = (refl, refl)
  handled-Keeps user list_logs g = (refl, refl)

  allowed-Keeps :
      (r : Result Bool) (user : JwtToken) (request : ReadRequest) (g : Gateway)
      → Keeps g (guarded_read r (handle_read R env user request) g).1
  allowed-Keeps (ok true) user request g = handled-Keeps user request g
  allowed-Keeps (ok false) user request g = (refl, refl)
  allowed-Keeps (err e) user request g = (refl, refl)

  -- The reading routes change neither the database nor the sockets, whoever asks.
  pub serve_read-Keeps :
      (token : Option JwtToken) (request : ReadRequest) (g : Gateway)
      → Keeps g (serve_read R env token request g).1
  unfolding serve_read
  serve_read-Keeps none request g = (refl, refl)
  serve_read-Keeps (some user) request g =
      allowed-Keeps (read_access (read_guard request) user) user request g
