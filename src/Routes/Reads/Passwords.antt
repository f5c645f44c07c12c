-- ===== src/Routes/Reads/Passwords.antt =====
-- What the activity logs show of a user's creation.
use mathlib.Core.Path.{subst}
use damaru_server.Prelude.{
  String, ◌≡◌, refl, sym, ap, true, Option, some, List, Memᴰ, arith, eq_iff, Option-cases, inl, inr,
}
use damaru_server.Prelude.Exec.{Result, ok, err, continue-eq-ok, when}
use damaru_server.Token.{Roles, JwtToken, role_name}
use damaru_server.Environment.{Environment}
use damaru_server.Guards.{http, android_admin_guard}
use damaru_server.Guards.Laws.{IsAllowed, can_activate_iff}
use damaru_server.Repository.{lookup}
use damaru_server.Database.{Db, User, ActivityLog, Metadata, new_user}
use damaru_server.Database.Repositories.{Repositories, log_key}
use damaru_server.Database.Statements.{insert_log}
use damaru_server.ActivityLogs.{CreateActivityLogDto, log, find_all}
use damaru_server.Accounts.{CreatedAccount}
use damaru_server.Accounts
use damaru_server.Users.{CreateUserDto, Draws, root_account, add_root_account, create, is_android}
use damaru_server.Users.Creation.Statements.{creation, account_created, create-Steps}
use damaru_server.Signaling.{Gateway}
use damaru_server.Routes.{NewUser, with_role, users, create_user, serve, handle_users, answered}
use damaru_server.Routes.Laws.{serve_returned}
use damaru_server.Routes.Reads.{list_logs, Reply, logs, handle_read, serve_read}

-- An entry with the metadata, and entries that stay.
pub record IsLogged (m : Metadata) (db : Db) : Type 0 where
  pub id : String
  pub row : ActivityLog
  pub stored : lookup log_key id db.activity_logs ≡ some row
  pub metadata : row.metadata ≡ m

abbrev KeepsLogs : Db → Db → Type 0
KeepsLogs db t =
    (k : String) (l : ActivityLog)
    → lookup log_key k db.activity_logs ≡ some l
    → lookup log_key k t.activity_logs ≡ some l

kept-IsLogged : (m : Metadata) (db t : Db) → KeepsLogs db t → IsLogged m db → IsLogged m t
kept-IsLogged m db t h i = record {
  id = i.id;
  row = i.row;
  stored = h i.id i.row i.stored;
  metadata = i.metadata;
}

module _ (R : Repositories) where
  log-IsLogged :
      (dto : CreateActivityLogDto) (db t : Db) {m : String}
      → log R dto db ≡ (ok m, t)
      → IsLogged dto.metadata t × KeepsLogs db t
  unfolding log insert_log
  log-IsLogged dto db t e =
      let make : String → ActivityLog =
        λ l. record { id = l; action = dto.action; metadata = dto.metadata } in
      elim (Option-cases (R.activity_log.insert make db)) [
        | inl refused ↦ absurd (ground arith)
        | inr ((l, rows), q) ↦
            let law = R.activity_log.lookup-insert make db l rows q in
            let (free, _, _) = R.activity_log.insert-free make db l rows q in
            let same : t ≡ record db { activity_logs = rows } = ground arith in
            rw same (
              record {
                id = l;
                row = make l;
                stored = ground (arith, law l, eq_iff l l);
                metadata = refl;
              },
              λ k x at. ground (arith, law k, free, at, eq_iff l k),
            )
      ]

  module _ (env : Environment) (d : Draws) (dto : CreateUserDto) where
    root-KeepsLogs :
        (user : String) (db t : Db) (r : Roles)
        → when (is_android r) (add_root_account R env d dto user) db ≡ (ok tt, t)
        → KeepsLogs db t
    unfolding add_root_account root_account
    root-KeepsLogs user db t Roles.super_admin e k l at =
        let same : db ≡ t = ap (λ (x : Result (Unit {0}) × Db). x.1) e in
        subst (λ (x : Db). lookup log_key k x.activity_logs ≡ some l) same at
    root-KeepsLogs user db t Roles.emulator_admin e k l at =
        let same : db ≡ t = ap (λ (x : Result (Unit {0}) × Db). x.1) e in
        subst (λ (x : Db). lookup log_key k x.activity_logs ≡ some l) same at
    root-KeepsLogs user db t Roles.android_user e k l at =
        let (made, s, created, rest) =
          continue-eq-ok (Accounts.create R env d.pin (root_account d dto user) db) _ tt t e in
        let (m, s', noted, last) = continue-eq-ok (log R _ s) _ tt t rest in
        let (id, _, kept) =
          account_created R env d dto (root_account d dto user) made d.pin db s refl created in
        let (_, keeps) = log-IsLogged _ s s' noted in
        let end : s' ≡ t = ap (λ (x : Result (Unit {0}) × Db). x.1) last in
        let before : s.activity_logs ≡ db.activity_logs = ap (λ (x : Db). x.activity_logs) kept in
        subst (λ (x : Db). lookup log_key k x.activity_logs ≡ some l) end
          (keeps k l
            (subst (λ (x : List ActivityLog). lookup log_key k x ≡ some l) (sym before) at))

    create-IsLogged :
        (stored : Option User) (password : String) (db t : Db)
        → create R env d dto db ≡ (ok (stored, password), t)
        → IsLogged (new_user dto.email dto.name (some (role_name dto.role)) dto.password) t
    create-IsLogged stored password db t e =
        let p = create-Steps R env d dto stored password db t e in
        let (there, _) = log-IsLogged (creation dto p.id) p.inserted p.logged p.noted in
        kept-IsLogged _ p.logged t (root-KeepsLogs p.id p.logged t dto.role p.rooted) there

-- A request of the super admin for a new user
abbrev pub request_user : String → String → Option Roles → String → NewUser
request_user email name role password = record {
  email = email;
  name = name;
  role = role;
  password = some password;
}

-- An entry of the answer that holds the password
pub record ShowsPassword (reply : Result Reply × Gateway) (password : String) : Type 0 where
  pub list : List ActivityLog
  pub answer : reply.0 ≡ ok (logs list)
  pub entry : ActivityLog
  pub listed : Memᴰ entry list
  pub email : String
  pub name : String
  pub role : Option String
  pub metadata : entry.metadata ≡ new_user email name role (some password)

answered-eq-ok :
    {A : Type 0} (m message : String) (r : Result A × Db) (t : Db)
    → answered m r ≡ (ok message, t)
    → (a : A) × (r ≡ (ok a, t))
answered-eq-ok m message (ok a, s) t e = (a, cc)
answered-eq-ok m message (err x, s) t e = absurd (cc)

module _ (R : Repositories) (env : Environment) (d : Draws) where
  -- After the creation of a user with a password that was given, every Android admin who asks for the
  -- activity logs is shown that password as plain text.
  pub create_user-ShowsPassword :
      (user : JwtToken) (email name password message : String) (role : Option Roles) (db t : Db)
      → serve R env d (some user) (users (create_user (request_user email name role password))) db
        ≡ (ok message, t)
      → (reader : JwtToken) (g : Gateway) → IsAllowed android_admin_guard reader
      → g.db ≡ t
      → ShowsPassword (serve_read R env (some reader) list_logs g) password
  unfolding handle_users serve_read handle_read find_all
  create_user-ShowsPassword user email name password message role db t e reader g allowed same =
      let dto = with_role (request_user email name role password) in
      let (_, run) =
        serve_returned R env d user (users (create_user (request_user email name role password)))
          message db t e in
      let ((stored, answer), created) =
        answered-eq-ok "User has been created" message (create R env d dto db) t run in
      let i = create-IsLogged R env d dto stored answer db t created in
      let open' = (can_activate_iff android_admin_guard http reader).1 (λ p. cc, allowed) in
      rw open' (record {
        list = R.activity_log.find (λ l. true) g.db;
        answer = refl;
        entry = i.row;
        listed =
            R.activity_log.find-mem (λ l. true) g.db i.id i.row
              (subst (λ (x : Db). lookup log_key i.id x.activity_logs ≡ some i.row) (sym same)
                i.stored)
              refl;
        email = email;
        name = name;
        role = some (role_name dto.role);
        metadata = i.metadata;
      })
