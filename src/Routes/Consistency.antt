-- ===== src/Routes/Consistency.antt =====
-- The invariant of devices and links over the requests: what every request leaves behind.
pub mod Emulators
pub mod Accounts
use damaru_server.Prelude.{
  ◌≡◌, refl, Bool, true, false, String, Option, none, some, List, arith, Option-cases, inl, inr,
  ◌∙◌, ap,
}
use damaru_server.Prelude.Exec.{
  non_null, Exec, Exception, query_failed, type_error, unauthorized, Result, ok, err, Ends, Ends-of,
  for_each, for_each-returns, continue, skip, ◌>>◌, ◌>>=◌, logged-returns, continue-eq-err,
}
use damaru_server.Token.{JwtToken}
use damaru_server.Environment.{Environment}
use damaru_server.Database.{Actions, Db, Emulator, UserEmulator, available}
use damaru_server.Database.Repositories.{Repositories}
use damaru_server.Database.Statements.{insert_log, saved_all}
use damaru_server.Database.Statements
use damaru_server.Emulators.Links.Kept.Tables.{update_log-KeepsLinks, delete_log-KeepsLinks}
use damaru_server.ActivityLogs
use damaru_server.ActivityLogs.{write_log, log, CreateActivityLogDto}
use damaru_server.Users.{Draws, free_device, links_of, deletion}
use damaru_server.Users
use damaru_server.Users.Laws.{remove-IsGone}
use damaru_server.Emulators.Links.{MultiDevicesLinkDto, set_state, link_emulator, unlink_emulator}
use damaru_server.Emulators.Links.Invariant.{IsConsistent, AfterError, link_emulator-Ends}
use damaru_server.Emulators.Links.Unlinking.{Keeps, unlink_emulator-Ends}
use damaru_server.Emulators.Links.Kept.{
  KeepsLinks, KeepsLinks-refl, continue-KeepsLinks, result-Ends, KeepsLinks-Ends,
}
use damaru_server.Emulators.Devices.{link_screenshot}
use damaru_server.Routes.Consistency.Emulators.{
  create-KeepsLinks, update-KeepsLinks, remove-KeepsLinks, link_screenshot-KeepsLinks,
  extend-KeepsLinks, assign_emulator-KeepsLinks, unassign_emulator_from_accounts-KeepsLinks,
  assign_emulators_to_account-KeepsLinks, unassign_emulators_to_account-KeepsLinks,
}
use damaru_server.Routes.Consistency.Accounts.{create_user-KeepsLinks, patch_user-KeepsLinks}
use damaru_server.Routes.Consistency.Accounts
use mathlib.Core.Path.{subst, sym}
use damaru_server.Guards.{can_activate, http}
use damaru_server.Routes
use damaru_server.Routes.{
  LinkBody, with_list, with_action, logs, LogRequest, create_log, update_log, delete_log,
  handle_logs, handle_emulators, handle_accounts, handle_users, with_role, emulators, accounts,
  users, create_emulator, upload_file, update_emulator, delete_emulator, link_emulators,
  unlink_emulators, extend_expiry, assign_multi_accounts, unassign_multi_accounts,
  assign_multi_emulators, unassign_multi_emulators, create_account, update_account, delete_account,
  create_user, update_user, delete_user, Request, EmulatorRequest, AccountRequest, UserRequest,
  answered, guarded, guard_of, handle, serve,
}

module _ (R : Repositories) (id : String) where
  log-err :
      (dto : CreateActivityLogDto) (x : Exception) (db t : Db)
      → log R dto db ≡ (err x, t)
      → x ≡ query_failed
  unfolding log insert_log
  log-err dto x db t e = ground arith

  freed : (u : UserEmulator) (s : Db) → (free_device R u s).0 ≡ ok tt
  unfolding free_device
  freed u s =
      logged-returns ((do Statements.update_emulator R u.device (set_state available); skip) s)

  throws : {r : Result (Unit {0}) × Db} (x : Exception) (t : Db) → r.0 ≡ ok tt → r ≡ (err x, t) → ⊥
  throws x t e h = cc

  delete_user-err :
      (x : Exception) (db t : Db) → Statements.delete_user R id db ≡ (err x, t) → x ≡ query_failed
  unfolding Statements.delete_user
  delete_user-err x db t e = ground arith

  remove-err : (x : Exception) (db t : Db) → Users.remove R id db ≡ (err x, t) → x ≡ query_failed
  unfolding Users.remove
  remove-err x db t e = elim (continue-eq-err (log R (deletion id) db) _ x t e) [
    | inl failed ↦ log-err (deletion id) x db t failed
    | inr (m, s, recorded, rest) ↦
        elim (continue-eq-err (for_each (free_device R) (R.user_emulator.find (links_of id) db) s) _
          x t rest) [
            | inl failed ↦ absurd (
                throws x t
                  (for_each-returns (free_device R) freed (R.user_emulator.find (links_of id) db) s)
                  failed)
            | inr (_, u, done, last) ↦
                elim (continue-eq-err (Statements.delete_user R id u) _ x t last) [
                  | inl failed ↦ delete_user-err x u t failed
                  | inr (_, w, deleted, end) ↦ absurd cc
                ]
          ]
  ]

  remove-Ends : (db : Db) → IsConsistent db → Ends IsConsistent AfterError (Users.remove R id db)
  remove-Ends db c =
      Ends-of IsConsistent AfterError (Users.remove R id db)
        (λ m t e. (remove-IsGone R id m db t c e).1)
        (λ x t e. subst (λ y. AfterError y t) (sym (remove-err x db t e)) tt)

answered-Ends :
    {A : Type 0} (message : String) (r : Result A × Db)
    → Ends IsConsistent AfterError r
    → Ends IsConsistent AfterError (answered message r)
answered-Ends message (ok a, t) h = h
answered-Ends message (err x, t) h = h

Keeps-AfterError :
    (r : Result (Unit {0}) × Db) → Ends IsConsistent Keeps r → Ends IsConsistent AfterError r
Keeps-AfterError (ok a, t) h = h
Keeps-AfterError (err x, t) h = result-Ends {A = Unit} h (err x)

guarded-Ends :
    (r : Result Bool) (m : Exec Db String) (db : Db)
    → IsConsistent db
    → Ends IsConsistent AfterError (m db)
    → Ends IsConsistent AfterError (guarded r m db)
guarded-Ends (ok true) m db c h = h
guarded-Ends (ok false) m db c h = c
guarded-Ends (err x) m db c h = result-Ends {A = String} c (err x)

non_null-KeepsLinks : {A : Type 0} (o : Option A) (db : Db) → KeepsLinks db (non_null o db).1
non_null-KeepsLinks none db = KeepsLinks-refl db
non_null-KeepsLinks (some a) db = KeepsLinks-refl db

-- A TypeError for what is absent, or a step on it
non_null-Ends :
    {A : Type 0} (db : Db) (o : Option A) (f : A → Exec Db (Unit {0}))
    → ((a : A) → Ends IsConsistent AfterError (f a db))
    → Ends IsConsistent AfterError (continue (non_null o db) f)
non_null-Ends db none f h = tt
non_null-Ends db (some a) f h = h a

-- The body of an update of a device has neither its id nor its state.
abbrev pub LeavesIdAndState : Request → Type 0
LeavesIdAndState (emulators (update_emulator id patch)) =
    (patch.device_id ≡ none) × (patch.state ≡ none)
LeavesIdAndState request = Unit

module _ (R : Repositories) (env : Environment) (d : Draws) (user : JwtToken) (db : Db)
    (c : IsConsistent db) where
  kept : {A : Type 0} (r : Result A × Db) → KeepsLinks db r.1 → Ends IsConsistent AfterError r
  kept r k = KeepsLinks-Ends db r c k

  listed-Ends :
      (body : LinkBody) (m : MultiDevicesLinkDto → Exec Db (Unit {0}))
      → ((l : List String)
          → Ends IsConsistent AfterError (m (record { device_ids = l; user_id = body.user_id }) db))
      → Ends IsConsistent AfterError (with_list body m db)
  listed-Ends body m h =
      non_null-Ends db body.device_ids (λ l. m (record { device_ids = l; user_id = body.user_id }))
        h

  handle_emulators-Ends :
      (request : EmulatorRequest)
      → LeavesIdAndState (emulators request)
      → Ends IsConsistent AfterError (handle_emulators R env d user request db)
  unfolding handle_emulators
  handle_emulators-Ends (create_emulator dto) k = kept _ (create-KeepsLinks R db dto)
  handle_emulators-Ends (upload_file device file) k = answered-Ends _ _ (
      kept _ (
        continue-KeepsLinks db (link_screenshot R env device db) (λ _. non_null file)
          (link_screenshot-KeepsLinks R db env device) (λ _ s. non_null-KeepsLinks file s)))
  handle_emulators-Ends (update_emulator id patch) k =
      kept _ (update-KeepsLinks R db id patch (some user) k.0 k.1)
  handle_emulators-Ends (delete_emulator id) k = kept _ (remove-KeepsLinks R db id)
  handle_emulators-Ends (link_emulators dto) k =
      answered-Ends _ _
        (listed-Ends dto (link_emulator R env) (λ l. link_emulator-Ends R env dto.user_id l db c))
  handle_emulators-Ends (unlink_emulators dto) k = answered-Ends _ _ (
      listed-Ends dto (unlink_emulator R env) (λ l.
        Keeps-AfterError _
          (unlink_emulator-Ends R env (record { device_ids = l; user_id = dto.user_id }) db c)))
  handle_emulators-Ends (extend_expiry dto) k =
      answered-Ends _ _ (kept _ (extend-KeepsLinks R db env dto))
  handle_emulators-Ends (assign_multi_accounts dto) k =
      answered-Ends _ _ (kept _ (assign_emulator-KeepsLinks R db dto user))
  handle_emulators-Ends (unassign_multi_accounts dto) k =
      answered-Ends _ _ (kept _ (unassign_emulator_from_accounts-KeepsLinks R db dto))
  handle_emulators-Ends (assign_multi_emulators dto) k =
      answered-Ends _ _ (kept _ (assign_emulators_to_account-KeepsLinks R db dto user))
  handle_emulators-Ends (unassign_multi_emulators dto) k =
      answered-Ends _ _ (kept _ (unassign_emulators_to_account-KeepsLinks R db dto user))

  handle_accounts-Ends :
      (request : AccountRequest)
      → Ends IsConsistent AfterError (handle_accounts R env d user request db)
  unfolding handle_accounts
  handle_accounts-Ends (create_account dto) =
      answered-Ends _ _
        (kept _ (Accounts.create-KeepsLinks R db env d.pin (record dto { user_id = user.sub })))
  handle_accounts-Ends (update_account id dto) =
      answered-Ends _ _ (kept _ (Accounts.update-KeepsLinks R db env id dto user))
  handle_accounts-Ends (delete_account id) =
      answered-Ends _ _ (kept _ (Accounts.remove-KeepsLinks R db id user))

  handle_users-Ends :
      (request : UserRequest) → Ends IsConsistent AfterError (handle_users R env d request db)
  unfolding handle_users
  handle_users-Ends (create_user dto) =
      answered-Ends _ _ (kept _ (create_user-KeepsLinks R env d (with_role dto) db))
  handle_users-Ends (update_user id dto) =
      answered-Ends _ _ (kept _ (patch_user-KeepsLinks R env d id dto db))
  handle_users-Ends (delete_user id) = remove-Ends R id db c

  handle_logs-Ends :
      (request : LogRequest) → Ends IsConsistent AfterError (handle_logs R env d request db)
  unfolding handle_logs ActivityLogs.update ActivityLogs.remove
  handle_logs-Ends (create_log dto) = kept _ (
      continue-KeepsLinks db (non_null dto.action db)
        (λ action. ActivityLogs.log R (with_action dto action)) (non_null-KeepsLinks dto.action db)
        (λ action s. Accounts.log-KeepsLinks R s (with_action dto action)))
  handle_logs-Ends (update_log id patch) =
      answered-Ends _ _ (kept _ (update_log-KeepsLinks R db id (write_log patch)))
  handle_logs-Ends (delete_log id) = kept _ (
      continue-KeepsLinks {A = String} db (Statements.delete_log R id db) _
        (delete_log-KeepsLinks R db id) (λ _ s. KeepsLinks-refl s))

  handle-Ends :
      (request : Request)
      → LeavesIdAndState request
      → Ends IsConsistent AfterError (handle R env d user request db)
  handle-Ends (emulators request) k = handle_emulators-Ends request k
  handle-Ends (accounts request) k = handle_accounts-Ends request
  handle-Ends (users request) k = handle_users-Ends request
  handle-Ends (logs request) k = handle_logs-Ends request

module _ (R : Repositories) (env : Environment) (d : Draws) where
  -- From a database with the invariant of the links, every request of every token, and every request
  -- with no valid token, leaves a database with the invariant when it returns and when it is refused
  -- with an HTTP exception: the only exceptions are a TypeError of the code and a failed statement.
  -- The body of an update of a device is supposed to have neither the device's id nor its state, which
  -- the code does not check.
  pub serve-Ends :
      (token : Option JwtToken) (request : Request) (db : Db)
      → IsConsistent db
      → LeavesIdAndState request
      → Ends IsConsistent AfterError (serve R env d token request db)
  unfolding serve
  serve-Ends none request db c k = c
  serve-Ends (some user) request db c k =
      guarded-Ends (can_activate (guard_of request) http (some user)) (handle R env d user request)
        db c (handle-Ends R env d user db c request k)
