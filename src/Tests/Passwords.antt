-- ===== src/Tests/Passwords.antt =====
-- A user whom the super admin creates with a password, and the logs that the owner then sees.
use damaru_server.Prelude.{String, ◌≡◌, refl, some, inr, Memᴰ}
use damaru_server.Prelude.Exec.{Result, ok}
use damaru_server.Repository.{lookup}
use damaru_server.Repository.Memory.{memory}
use damaru_server.Token.{android_user}
use damaru_server.Guards.{can_activate, authorized, is_authorized}
use damaru_server.Database.{Db}
use damaru_server.Database.Repositories.{valid_log, valid_user, valid_account}
use damaru_server.Database.Statements.{insert_log, insert_user, insert_account}
use damaru_server.ActivityLogs.{log}
use damaru_server.Accounts
use damaru_server.Users.{user_row, root_account, add_root_account, create}
use damaru_server.Signaling.{Gateway}
use damaru_server.Routes.{users, create_user, serve, handle_users}
use damaru_server.Routes.Reads.{list_logs, serve_read}
use damaru_server.Routes.Reads.Passwords.{request_user, ShowsPassword, create_user-ShowsPassword}
use damaru_server.Tests.{environment, database, root_token}
use damaru_server.Tests.Admission.{two_logs}
use damaru_server.Tests.Routes.{draws}
use damaru_server.Tests.Signaling.{quiet}
use damaru_server.Tests.System.{super_token}

abbrev served : Result String × Db
served =
    serve two_logs environment draws (some super_token)
      (users (create_user (request_user "other@home" "other" (some android_user) "pass"))) database

serve_run : served ≡ (ok "User has been created", served.1)
unfolding serve can_activate authorized is_authorized handle_users create add_root_account log
    insert_log insert_user insert_account user_row root_account Accounts.create Accounts.insert_new
    Accounts.new_account Accounts.created_account valid_log valid_user valid_account two_logs memory
    lookup
serve_run = refl

abbrev afterwards : Gateway
afterwards = record quiet { db = served.1 }

create_user-ShowsPassword_example :
    ShowsPassword (serve_read two_logs environment (some root_token) list_logs afterwards) "pass"
create_user-ShowsPassword_example =
    create_user-ShowsPassword two_logs environment draws super_token "other@home" "other" "pass"
      "User has been created" (some android_user) database served.1 serve_run root_token afterwards
      (inr (Memᴰ.head refl)) refl
